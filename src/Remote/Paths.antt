-- ===== src/Remote/Paths.antt =====
-- cmd/msbctl/commands.go, sandboxPath, read by net/http: the server gets the segments that msbctl
-- meant.
use msb_manager.Prelude.{
  ℕ, ◌/◌, ◌%◌, ◌<◌, Text, codes, true, false, [], ◌∷◌, ◌++◌, Bool-cases, inl, inr, ==_iff, is_empty,
  All, Lacks, ◌⊎◌, ◌≡◌, ◌≢◌, refl, ap, ◌∙◌, arith,
}
use msb_manager.Ctl.Client.Paths.{is_plain, hex_digit, path_escape, sandbox_path}
use msb_manager.Remote.{unhex, path_unescape, split_slash, without_query, decoded, segments_of}

abbrev pub IsBytes : Text → Type 0
IsBytes = All (λ c. c < 256)

plain_ne : (c b : ℕ) → is_plain c ≡ true → is_plain b ≡ false → c ≢ b
plain_ne c b h k e = cc (ap is_plain e, h, k)

unhex-hex_digit : (n : ℕ) → n < 16 → unhex (hex_digit n) ≡ n
unfolding unhex hex_digit
unhex-hex_digit n h = ground arith

hex_digit_ne : (n b : ℕ) → n < 16 → (b ≡ b'/') ⊎ (b ≡ b'?') → hex_digit n ≢ b
unfolding hex_digit
hex_digit_ne n b h k e = ground arith

unescape-plain : (c : ℕ) (s : Text) → c ≢ b'%' → path_unescape (c ∷ s) ≡ c ∷ path_unescape s
unfolding path_unescape
unescape-plain c [] h = refl
unescape-plain c (d ∷ []) h = refl
unescape-plain c (d ∷ e ∷ s) h = ground (arith, ==_iff c b'%')

unescape-percent :
    (c : ℕ) (s : Text)
    → c < 256
    → path_unescape (b'%' ∷ hex_digit (c / 16) ∷ hex_digit (c % 16) ∷ s) ≡ c ∷ path_unescape s
unfolding path_unescape
unescape-percent c s h =
    rw (unhex-hex_digit (c / 16) (omega arith), unhex-hex_digit (c % 16) (omega arith))
      (ap (λ d. d ∷ path_unescape s) (omega arith))

not_plain : (b : ℕ) → (b ≡ b'/') ⊎ (b ≡ b'?') → is_plain b ≡ false
unfolding is_plain
not_plain b (inl e) = rw e refl
not_plain b (inr e) = rw e refl

not_percent : (b : ℕ) → (b ≡ b'/') ⊎ (b ≡ b'?') → b'%' ≢ b
not_percent b (inl e) q = absurd (omega arith)
not_percent b (inr e) q = absurd (omega arith)

-- url.PathUnescape undoes url.PathEscape
pub unescape-escape : (s : Text) → IsBytes s → path_unescape (path_escape s) ≡ s
unfolding path_escape
unescape-escape [] h = unfold path_unescape in refl
unescape-escape (c ∷ s) h = elim (Bool-cases (is_plain c)) [
  | inl e ↦
      rw (e, path_escape)
        (unescape-plain c (path_escape s) (plain_ne c b'%' e (unfold is_plain in refl))
          ∙ ap (λ t. c ∷ t) (unescape-escape s h.1))
  | inr e ↦
      rw (e, path_escape)
        (unescape-percent c (path_escape s) h.0 ∙ ap (λ t. c ∷ t) (unescape-escape s h.1))
]

Lacks-append : (b : ℕ) (s t : Text) → Lacks b s → Lacks b t → Lacks b (s ++ t)
Lacks-append b [] t h k = k
Lacks-append b (c ∷ s) t h k = (h.0, Lacks-append b s t h.1 k)

Lacks-escape : (b : ℕ) (s : Text) → (b ≡ b'/') ⊎ (b ≡ b'?') → IsBytes s → Lacks b (path_escape s)
unfolding path_escape
Lacks-escape b [] k h = tt
Lacks-escape b (c ∷ s) k h = elim (Bool-cases (is_plain c)) [
  | inl e ↦ rw (e, path_escape) (plain_ne c b e (not_plain b k), Lacks-escape b s k h.1)
  | inr e ↦
      rw (e, path_escape)
        (
          not_percent b k,
          (
            hex_digit_ne (c / 16) b (omega arith) k,
            (hex_digit_ne (c % 16) b (omega arith) k, Lacks-escape b s k h.1),
          ),
        )
]

without_query-Lacks : (s : Text) → Lacks b'?' s → without_query s ≡ s
unfolding without_query
without_query-Lacks [] h = refl
without_query-Lacks (c ∷ s) h = rw (without_query-Lacks s h.1) (ground (arith, ==_iff c b'?'))

split_slash-Lacks : (s : Text) → Lacks b'/' s → split_slash s ≡ s ∷ []
unfolding split_slash
split_slash-Lacks [] h = refl
split_slash-Lacks (c ∷ s) h = rw (split_slash-Lacks s h.1) (ground (arith, ==_iff c b'/'))

split_slash-append : (s t : Text) → Lacks b'/' s → split_slash (s ++ b'/' ∷ t) ≡ s ∷ split_slash t
unfolding split_slash
split_slash-append [] t h = refl
split_slash-append (c ∷ s) t h = rw (split_slash-append s t h.1) (ground (arith, ==_iff c b'/'))

-- a text with no slash and no question mark
abbrev pub IsPlainText : Text → Type 0
IsPlainText s = Lacks b'/' s × Lacks b'?' s

two_segments :
    (name verb : Text)
    → IsBytes name
    → IsPlainText verb
    → path_unescape verb ≡ verb
    → decoded (split_slash (without_query (path_escape name ++ b'/' ∷ verb))) ≡ name ∷ verb ∷ []
two_segments name verb bytes plain same =
    ap (λ s. decoded (split_slash s))
      (without_query-Lacks (path_escape name ++ b'/' ∷ verb) (
        Lacks-append b'?' (path_escape name) (b'/' ∷ verb) (Lacks-escape b'?' name (inr refl) bytes)
          (no_mark, plain.1)))
    ∙ ap decoded (
        split_slash-append (path_escape name) verb (Lacks-escape b'/' name (inl refl) bytes)
        ∙ ap (λ l. path_escape name ∷ l) (split_slash-Lacks verb plain.0))
    ∙ rw (unescape-escape name bytes, same) refl
  where
    no_mark : ◌≢◌ {A = ℕ} b'/' b'?'
    no_mark e = absurd (omega arith)

-- The path of an action on a sandbox reads back as its three segments, whatever bytes the name has.
pub segments_of-sandbox_path :
    (name verb : Text)
    → IsBytes name
    → is_empty verb ≡ false
    → IsPlainText verb
    → path_unescape verb ≡ verb
    → segments_of (sandbox_path name verb) ≡ codes "sandboxes" ∷ name ∷ verb ∷ []
unfolding segments_of sandbox_path
segments_of-sandbox_path name verb bytes filled plain same =
    rw filled (ap (λ l. codes "sandboxes" ∷ l) (two_segments name verb bytes plain same))

one_segment :
    (name : Text)
    → IsBytes name
    → decoded (split_slash (without_query (path_escape name))) ≡ name ∷ []
one_segment name bytes =
    ap (λ s. decoded (split_slash s))
      (without_query-Lacks (path_escape name) (Lacks-escape b'?' name (inr refl) bytes))
    ∙ ap decoded (split_slash-Lacks (path_escape name) (Lacks-escape b'/' name (inl refl) bytes))
    ∙ rw (unescape-escape name bytes) refl

-- The path of a sandbox reads back as its two segments.
pub segments_of-sandbox_path_nil :
    (name : Text)
    → IsBytes name
    → segments_of (sandbox_path name []) ≡ codes "sandboxes" ∷ name ∷ []
unfolding segments_of sandbox_path
segments_of-sandbox_path_nil name bytes = ap (λ l. codes "sandboxes" ∷ l) (one_segment name bytes)
