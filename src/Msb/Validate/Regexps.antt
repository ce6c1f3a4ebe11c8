-- ===== src/Msb/Validate/Regexps.antt =====
-- internal/msb/validate.go: the regular expressions of the source, with their meaning as a relation,
-- and the proof that the validators accept exactly their texts.
use msb_manager.Prelude.{
  ℕ, ◌≤◌, Text, Bool, true, false, ◌&&◌, Option, none, some, [], ◌∷◌, ◌++◌, length, all, leb,
  is_digit, ◌≡◌, refl, ap, arith, ◌↔◌, Bool-cases, inl, inr, and-true, leb→le, le→leb,
}
use msb_manager.Msb.Validate.{
  is_letter, is_alnum, is_name_byte, is_image_first, is_image_byte, is_env_first, is_env_byte,
  valid_name, valid_image, size_unit, size_tail, valid_size, valid_env_key,
}

-- a class, a class repeated within bounds (no upper bound for `*` and `+`), a sequence
pub data Regexp : Type 0 where
  one : (ℕ → Bool) → Regexp
  repeated : (ℕ → Bool) → ℕ → Option ℕ → Regexp
  sequence : Regexp → Regexp → Regexp

abbrev pub Within : ℕ → Option ℕ → Type 0
Within n none = Unit
Within n (some hi) = n ≤ hi

-- the texts that an anchored expression matches
abbrev pub Matches : Regexp → Text → Type 0
Matches (one p) s = (c : ℕ) × (s ≡ c ∷ []) × (p c ≡ true)
Matches (repeated p lo hi) s = (all p s ≡ true) × (lo ≤ length s) × Within (length s) hi
Matches (sequence a b) s = (u : Text) × (v : Text) × (s ≡ u ++ v) × Matches a u × Matches b v

abbrev pub name_re : Regexp
name_re = sequence (one is_alnum) (repeated is_name_byte 0 (some 127))

abbrev pub image_re : Regexp
image_re = sequence (one is_image_first) (repeated is_image_byte 0 none)

abbrev pub size_re : Regexp
size_re = sequence (repeated is_digit 1 none) (repeated is_letter 0 (some 3))

abbrev pub env_key_re : Regexp
env_key_re = sequence (one is_env_first) (repeated is_env_byte 0 (some 127))

name_sound : (s : Text) → valid_name s ≡ true → Matches name_re s
unfolding valid_name
name_sound [] h = cc
name_sound (c ∷ s) h =
    let (first, more) = and-true (is_alnum c) (all is_name_byte s && leb (length s) 127) h in
    let (bytes, short) = and-true (all is_name_byte s) (leb (length s) 127) more in
    (c ∷ [], s, refl, (c, refl, first), (bytes, omega arith, leb→le (length s) 127 short))

name_complete : (s : Text) → Matches name_re s → valid_name s ≡ true
unfolding valid_name
name_complete s (u, v, e, (c, eu, first), (bytes, _, short)) =
    rw (e, eu, first, bytes) (le→leb (length v) 127 short)

image_sound : (s : Text) → valid_image s ≡ true → Matches image_re s
unfolding valid_image
image_sound [] h = cc
image_sound (c ∷ s) h =
    let (first, bytes) = and-true (is_image_first c) (all is_image_byte s) h in
    (c ∷ [], s, refl, (c, refl, first), (bytes, omega arith, tt))

image_complete : (s : Text) → Matches image_re s → valid_image s ≡ true
unfolding valid_image
image_complete s (u, v, e, (c, eu, first), (bytes, _, _)) = rw (e, eu, first) bytes

env_key_sound : (s : Text) → valid_env_key s ≡ true → Matches env_key_re s
unfolding valid_env_key
env_key_sound [] h = cc
env_key_sound (c ∷ s) h =
    let (first, more) = and-true (is_env_first c) (all is_env_byte s && leb (length s) 127) h in
    let (bytes, short) = and-true (all is_env_byte s) (leb (length s) 127) more in
    (c ∷ [], s, refl, (c, refl, first), (bytes, omega arith, leb→le (length s) 127 short))

env_key_complete : (s : Text) → Matches env_key_re s → valid_env_key s ≡ true
unfolding valid_env_key
env_key_complete s (u, v, e, (c, eu, first), (bytes, _, short)) =
    rw (e, eu, first, bytes) (le→leb (length v) 127 short)

-- digits and letters are apart, so the split between number and unit is where the digits end
abbrev Splits : Text → Type 0
Splits s = (u : Text) × (v : Text) × (s ≡ u ++ v) × (all is_digit u ≡ true) × (size_unit v ≡ true)

tail_sound : (s : Text) → size_tail s ≡ true → Splits s
unfolding size_tail size_unit
tail_sound [] h = ([], [], refl, refl, refl)
tail_sound (c ∷ s) h = elim (Bool-cases (is_digit c)) [
  | inl d ↦
      let (u, v, e, du, lv) = tail_sound s (rw d at h) in
      (c ∷ u, v, ap (λ t. c ∷ t) e, rw (d, du), lv)
  | inr d ↦ ([], c ∷ s, refl, refl, rw d at h)
]

digit_letter : (c : ℕ) → is_letter c ≡ true → is_digit c ≡ false
digit_letter c h = ground arith

unit_tail : (v : Text) → size_unit v ≡ true → size_tail v ≡ true
unfolding size_tail
unit_tail [] h = refl
unit_tail (c ∷ v) h = rw (digit_letter c (first_letter c v h)) h
  where
    first_letter : (c : ℕ) (v : Text) → size_unit (c ∷ v) ≡ true → is_letter c ≡ true
    first_letter c v h =
        (and-true (is_letter c) (all is_letter v)
          (and-true (all is_letter (c ∷ v)) (leb (length (c ∷ v)) 3) (unfold size_unit in h)).0).0

tail_complete :
    (u v : Text) → all is_digit u ≡ true → size_unit v ≡ true → size_tail (u ++ v) ≡ true
unfolding size_tail
tail_complete [] v du lv = unit_tail v lv
tail_complete (c ∷ u) v du lv =
    let (d, ds) = and-true (is_digit c) (all is_digit u) du in rw d (tail_complete u v ds lv)

size_sound : (s : Text) → valid_size s ≡ true → Matches size_re s
unfolding valid_size size_unit
size_sound [] h = cc
size_sound (c ∷ s) h =
    let (d, more) = and-true (is_digit c) (size_tail s) h in
    let (u, v, e, du, lv) = tail_sound s more in
    let (letters, short) = and-true (all is_letter v) (leb (length v) 3) lv in
    (
      c ∷ u,
      v,
      ap (λ t. c ∷ t) e,
      (rw (d, du), omega arith, tt),
      (letters, omega arith, leb→le (length v) 3 short),
    )

size_complete : (s : Text) → Matches size_re s → valid_size s ≡ true
unfolding valid_size size_unit
size_complete s ([], v, e, (du, some_digit, _), w) = absurd (omega arith)
size_complete s (c ∷ u, v, e, (du, _, _), (letters, _, short)) =
    let (d, ds) = and-true (is_digit c) (all is_digit u) du in
    rw (e, d) (tail_complete u v ds (rw letters (le→leb (length v) 3 short)))

-- The four validators accept exactly the texts that the regular expressions of validate.go match.
pub validators_iff :
    (s : Text)
    → ((valid_name s ≡ true) ↔ Matches name_re s)
      × ((valid_image s ≡ true) ↔ Matches image_re s)
      × ((valid_size s ≡ true) ↔ Matches size_re s)
      × ((valid_env_key s ≡ true) ↔ Matches env_key_re s)
validators_iff s = (
  (name_sound s, name_complete s),
  (image_sound s, image_complete s),
  (size_sound s, size_complete s),
  (env_key_sound s, env_key_complete s),
)
