-- ===== src/Msb/Redact/Laws.antt =====
-- internal/msb/client.go: redacted text holds no secret value.
use msb_manager.Prelude.{
  ℕ, zero, suc, ◌-◌, Text, Bool, true, false, ◌&&◌, ◌||◌, [], ◌∷◌, ◌++◌, List, has_prefix, length,
  if◌then◌else◌, is_empty, ◌≡◌, refl, ◌∙◌, arith, Bool-cases, inl, inr, All, contains_byte, ◌==◌,
}
use msb_manager.Msb.Types.{Secret}
use msb_manager.Msb.Redact.{replace_from, replace_all, placeholder, redact_secrets}

-- strings.Contains(s, v)
pub occurs : Text → Text → Bool
occurs v [] = has_prefix [] v
occurs v (c ∷ s) = has_prefix (c ∷ s) v || occurs v s

-- no byte of `v` is a byte of `new`
abbrev pub Avoids : Text → Text → Type 0
Avoids v new = All (λ b. contains_byte b new ≡ false) v

head_ne : (n b : ℕ) (new : Text) → contains_byte b (n ∷ new) ≡ false → (n == b) ≡ false
unfolding contains_byte
head_ne n b new h = ground arith

tail_avoids :
    (n b : ℕ) (new : Text) → contains_byte b (n ∷ new) ≡ false → contains_byte b new ≡ false
unfolding contains_byte
tail_avoids n b new h = ground arith

replace_from-hit :
    (u new : Text) (c : ℕ) (s : Text)
    → has_prefix (c ∷ s) u ≡ true
    → replace_from u new 0 (c ∷ s) ≡ new ++ replace_from u new (length u - 1) s
unfolding replace_from
replace_from-hit u new c s h = rw h

replace_from-skip :
    (u new : Text) (k c : ℕ) (s : Text)
    → replace_from u new (suc k) (c ∷ s) ≡ replace_from u new k s
unfolding replace_from
replace_from-skip u new k c s = refl

replace_from-miss :
    (u new : Text) (c : ℕ) (s : Text)
    → has_prefix (c ∷ s) u ≡ false
    → replace_from u new 0 (c ∷ s) ≡ c ∷ replace_from u new 0 s
unfolding replace_from
replace_from-miss u new c s h = rw h

has_prefix_nil : (s : Text) → has_prefix s [] ≡ true
unfolding has_prefix
has_prefix_nil [] = refl
has_prefix_nil (c ∷ s) = refl

has_prefix_cons : (c b : ℕ) (s p : Text) → has_prefix (c ∷ s) (b ∷ p) ≡ (c == b && has_prefix s p)
unfolding has_prefix
has_prefix_cons c b s p = refl

-- a prefix of the output that avoids the new text was a prefix of the input
prefix-replace_from :
    (u p : Text) (n : ℕ) (new s : Text)
    → Avoids p (n ∷ new)
    → has_prefix (replace_from u (n ∷ new) 0 s) p ≡ true
    → has_prefix s p ≡ true
prefix-replace_from u [] n new s a h = has_prefix_nil s
prefix-replace_from u (b ∷ p) n new [] a h = unfold replace_from in h
prefix-replace_from u (b ∷ p) n new (c ∷ s) a h = elim (Bool-cases (has_prefix (c ∷ s) u)) [
  | inl hit ↦ absurd (clash _ (rw (replace_from-hit u (n ∷ new) c s hit) at h))
  | inr miss ↦
      keep _ (rw (replace_from-miss u (n ∷ new) c s miss) at h)
        (prefix-replace_from u p n new s a.1)
]
  where
    clash : (rest : Text) → has_prefix (n ∷ (new ++ rest)) (b ∷ p) ≡ true → ⊥
    clash rest e = ground (arith, has_prefix_cons n b (new ++ rest) p, head_ne n b new a.0)

    keep :
        (rest : Text)
        → has_prefix (c ∷ rest) (b ∷ p) ≡ true
        → (has_prefix rest p ≡ true → has_prefix s p ≡ true)
        → has_prefix (c ∷ s) (b ∷ p) ≡ true
    keep rest e f = ground (arith, has_prefix_cons c b rest p, has_prefix_cons c b s p)

-- an occurrence of a text that avoids `new` lies behind it
occurs-append :
    (b : ℕ) (v new rest : Text)
    → contains_byte b new ≡ false
    → occurs (b ∷ v) (new ++ rest) ≡ occurs (b ∷ v) rest
unfolding occurs has_prefix
occurs-append b v [] rest a = refl
occurs-append b v (n ∷ new) rest a =
    ground (arith, head_ne n b new a, occurs-append b v new rest (tail_avoids n b new a))

occurs_cons :
    (v : Text) (c : ℕ) (s : Text) → occurs v (c ∷ s) ≡ (has_prefix (c ∷ s) v || occurs v s)
unfolding occurs
occurs_cons v c s = refl

not-true : (b : Bool) → (b ≡ true → ⊥) → b ≡ false
not-true true h = absurd (h refl)
not-true false h = refl

tail_free : (v : Text) (c : ℕ) (s : Text) → occurs v (c ∷ s) ≡ false → occurs v s ≡ false
tail_free v c s h = ground (arith, occurs_cons v c s)

head_free : (v : Text) (c : ℕ) (s : Text) → occurs v (c ∷ s) ≡ false → has_prefix (c ∷ s) v ≡ false
head_free v c s h = ground (arith, occurs_cons v c s)

module _ (b : ℕ) (v : Text) (n : ℕ) (new : Text) (a : Avoids (b ∷ v) (n ∷ new)) where
  behind_new :
      (rest : Text) → occurs (b ∷ v) rest ≡ false → occurs (b ∷ v) ((n ∷ new) ++ rest) ≡ false
  behind_new rest h = occurs-append b v (n ∷ new) rest a.0 ∙ h

  -- a byte that is kept starts no occurrence that was not there
  behind_byte :
      (u : Text) (c : ℕ) (s : Text)
      → has_prefix (c ∷ s) (b ∷ v) ≡ false
      → occurs (b ∷ v) (replace_from u (n ∷ new) 0 s) ≡ false
      → occurs (b ∷ v) (c ∷ replace_from u (n ∷ new) 0 s) ≡ false
  behind_byte u c s p h = ground (
    arith,
    occurs_cons (b ∷ v) c (replace_from u (n ∷ new) 0 s),
    has_prefix_cons c b (replace_from u (n ∷ new) 0 s) v,
    has_prefix_cons c b s v,
    prefix-replace_from u v n new s a.1,
  )

  -- what replaces `b ∷ v` leaves none of it
  occurs-replaced : (k : ℕ) (s : Text) → occurs (b ∷ v) (replace_from (b ∷ v) (n ∷ new) k s) ≡ false
  occurs-replaced k [] = unfold replace_from occurs has_prefix in refl
  occurs-replaced (suc k) (c ∷ s) =
      rw (replace_from-skip (b ∷ v) (n ∷ new) k c s) (occurs-replaced k s)
  occurs-replaced zero (c ∷ s) = elim (Bool-cases (has_prefix (c ∷ s) (b ∷ v))) [
    | inl hit ↦
        rw (replace_from-hit (b ∷ v) (n ∷ new) c s hit)
          (behind_new _ (occurs-replaced (length (b ∷ v) - 1) s))
    | inr miss ↦
        rw (replace_from-miss (b ∷ v) (n ∷ new) c s miss)
          (behind_byte (b ∷ v) c s miss (occurs-replaced zero s))
  ]

  -- replacing another text brings no occurrence back
  occurs-replace_other :
      (u : Text) (k : ℕ) (s : Text)
      → occurs (b ∷ v) s ≡ false
      → occurs (b ∷ v) (replace_from u (n ∷ new) k s) ≡ false
  occurs-replace_other u k [] h = unfold replace_from occurs has_prefix in refl
  occurs-replace_other u (suc k) (c ∷ s) h =
      rw (replace_from-skip u (n ∷ new) k c s)
        (occurs-replace_other u k s (tail_free (b ∷ v) c s h))
  occurs-replace_other u zero (c ∷ s) h = elim (Bool-cases (has_prefix (c ∷ s) u)) [
    | inl hit ↦
        rw (replace_from-hit u (n ∷ new) c s hit)
          (behind_new _ (occurs-replace_other u (length u - 1) s (tail_free (b ∷ v) c s h)))
    | inr miss ↦ rw (replace_from-miss u (n ∷ new) c s miss) (
        behind_byte u c s (head_free (b ∷ v) c s h)
          (occurs-replace_other u zero s (tail_free (b ∷ v) c s h)))
  ]

-- a secret that the scrubbing covers: not empty, and without a byte of the placeholder
abbrev pub IsScrubbable : Text → Type 0
IsScrubbable v = (is_empty v ≡ false) × Avoids v placeholder

scrubbed : (v s : Text) → IsScrubbable v → occurs v (replace_all s v placeholder) ≡ false
unfolding replace_all
scrubbed [] s w = ground arith
scrubbed (b ∷ v) s w = occurs-replaced b v 42 _ w.1 zero s

still_scrubbed :
    (v u s : Text)
    → IsScrubbable v
    → occurs v s ≡ false
    → occurs v (replace_all s u placeholder) ≡ false
unfolding replace_all
still_scrubbed [] u s w h = ground arith
still_scrubbed (b ∷ v) u s w h = occurs-replace_other b v 42 _ w.1 u zero s h

abbrev scrub_one : Text → Secret → Text
scrub_one out sec = if is_empty sec.value then out else replace_all out sec.value placeholder

scrub_one-free :
    (v out : Text) (sec : Secret)
    → IsScrubbable v
    → occurs v out ≡ false
    → occurs v (scrub_one out sec) ≡ false
scrub_one-free v out sec w h = elim (Bool-cases (is_empty sec.value)) [
  | inl e ↦ rw e h
  | inr e ↦ rw e (still_scrubbed v sec.value out w h)
]

redact_secrets-free :
    (v out : Text) (secrets : List Secret)
    → IsScrubbable v
    → occurs v out ≡ false
    → occurs v (redact_secrets out secrets) ≡ false
unfolding redact_secrets
redact_secrets-free v out [] w h = h
redact_secrets-free v out (sec ∷ secrets) w h =
    redact_secrets-free v (scrub_one out sec) secrets w (scrub_one-free v out sec w h)

-- After redaction a secret value that is not empty and shares no byte with the placeholder stands
-- nowhere in msb's stderr: neither where msb echoed it nor across a replacement, whatever the other
-- secrets are and wherever it stands among them.
pub occurs-redact_secrets :
    (stderr : Text) (before : List Secret) (sec : Secret) (after : List Secret)
    → IsScrubbable sec.value
    → occurs sec.value (redact_secrets stderr (before ++ sec ∷ after)) ≡ false
unfolding redact_secrets
occurs-redact_secrets stderr [] sec after w =
    redact_secrets-free sec.value (scrub_one stderr sec) after w
      (rw w.0 (scrubbed sec.value stderr w))
occurs-redact_secrets stderr (b ∷ before) sec after w =
    occurs-redact_secrets (scrub_one stderr b) before sec after w
