-- ===== src/Msb/Size/Laws.antt =====
-- internal/msb/size.go: sizes are compared as numbers of MiB.
use msb_manager.Prelude.{
  ℕ, ◌*◌, ◌+◌, ◌^◌, ◌<◌, Text, codes, true, some, [], ◌∷◌, ◌++◌, all, map, List, is_digit, pos, ok,
  lookup, itoa, decimal-itoa, digits-itoa, nonempty-itoa, ◌≡◌, refl, ap, ◌∙◌, sym, arith, and-true,
  text_eq, text_eq_iff, any, All, Bool, Bool-cases, inl, inr,
}
use mathlib.Core.Path.{subst}
use msb_manager.Msb.Validate.{is_letter}
use msb_manager.Msb.Size.{signed, unit_mib, to_lower, span_digits, atoi, wrap_int, parse_size_mib}

span_letters : (u : Text) → all is_letter u ≡ true → span_digits u ≡ ([], u)
unfolding span_digits
span_letters [] h = refl
span_letters (c ∷ u) h = ground arith

span_digits-append :
    (ds u : Text)
    → all is_digit ds ≡ true
    → all is_letter u ≡ true
    → span_digits (ds ++ u) ≡ (ds, u)
unfolding span_digits
span_digits-append [] u d l = span_letters u l
span_digits-append (c ∷ ds) u d l =
    let (dc, dd) = and-true (is_digit c) (all is_digit ds) d in
    rw (dc, span_digits-append ds u dd l)

atoi-itoa : (n : ℕ) → n < 2 ^ 63 → atoi (itoa n) ≡ some n
unfolding atoi
atoi-itoa n h = rw (decimal-itoa n) (ground arith)

-- the size that a number and a unit of the table stand for, as the code computes it
parse_size-itoa :
    (n mult : ℕ) (unit : Text)
    → n < 2 ^ 63
    → all is_letter unit ≡ true
    → lookup (map to_lower unit) unit_mib ≡ some mult
    → parse_size_mib (itoa n ++ unit) ≡ ok (wrap_int (n * mult))
unfolding parse_size_mib
parse_size-itoa n mult unit h l u =
    rw (span_digits-append (itoa n) unit (digits-itoa n) l, nonempty-itoa n, atoi-itoa n h, u)

wrap_int-small : (n : ℕ) → n < 2 ^ 63 → wrap_int n ≡ pos n
wrap_int-small n h = ground arith

-- the units of a size, and how each is spelled in lower case
pub data SizeUnit : Type 0 where
  mebibytes gibibytes tebibytes : SizeUnit

abbrev pub spellings : SizeUnit → List Text
spellings mebibytes = codes "" ∷ codes "m" ∷ codes "mb" ∷ codes "mib" ∷ []
spellings gibibytes = codes "g" ∷ codes "gb" ∷ codes "gib" ∷ []
spellings tebibytes = codes "t" ∷ codes "tb" ∷ codes "tib" ∷ []

-- how many MiB each of them is
abbrev pub mebibytes_in : SizeUnit → ℕ
mebibytes_in mebibytes = 1
mebibytes_in gibibytes = 1024
mebibytes_in tebibytes = 1048576

-- is the text one of these?
abbrev pub is_spelled : Text → List Text → Bool
is_spelled s vs = any (λ v. text_eq v s) vs

spelled-All :
    (P : Text → Type 0) (vs : List Text) (s : Text) → is_spelled s vs ≡ true → All P vs → P s
spelled-All P [] s h a = absurd (cc h)
spelled-All P (v ∷ vs) s h a = elim (Bool-cases (text_eq v s)) [
  | inl e ↦ subst P ((text_eq_iff v s).0 e) a.0
  | inr e ↦ spelled-All P vs s (rw e at h) a.1
]

spellings-unit_mib :
    (u : SizeUnit) → All (λ s. lookup s unit_mib ≡ some (mebibytes_in u)) (spellings u)
unfolding lookup text_eq
spellings-unit_mib mebibytes = (refl, (refl, (refl, (refl, tt))))
spellings-unit_mib gibibytes = (refl, (refl, (refl, tt)))
spellings-unit_mib tebibytes = (refl, (refl, (refl, tt)))

lookup-unit_mib :
    (u : SizeUnit) (s : Text)
    → is_spelled s (spellings u) ≡ true
    → lookup s unit_mib ≡ some (mebibytes_in u)
lookup-unit_mib u s h =
    spelled-All (λ s. lookup s unit_mib ≡ some (mebibytes_in u)) (spellings u) s h
      (spellings-unit_mib u)

-- A decimal number followed by a unit, in any case, is read as that many MiB (1 for M, MB, MiB or no
-- unit, 1024 for G, GB and GiB, 1024 times 1024 for T, TB and TiB), as long as the product fits a
-- 64-bit int.
pub parse_size_mib_exact :
    (n : ℕ) (u : SizeUnit) (unit : Text)
    → all is_letter unit ≡ true
    → is_spelled (map to_lower unit) (spellings u) ≡ true
    → n < 2 ^ 63
    → n * mebibytes_in u < 2 ^ 63
    → parse_size_mib (itoa n ++ unit) ≡ ok (pos (n * mebibytes_in u))
parse_size_mib_exact n u unit l k h fits =
    parse_size-itoa n (mebibytes_in u) unit h l (lookup-unit_mib u (map to_lower unit) k)
    ∙ ap ok (wrap_int-small (n * mebibytes_in u) fits)

-- The product is not checked for overflow: adding 2^44 to a number of TiB does not change the size
-- that is read, so two requests that differ by 2^64 MiB are taken for the same size.
pub parse_size_mib_wraps :
    (n : ℕ)
    → n + 2 ^ 44 < 2 ^ 63
    → parse_size_mib (itoa (n + 2 ^ 44) ++ codes "T") ≡ parse_size_mib (itoa n ++ codes "T")
parse_size_mib_wraps n h =
    parse_size-itoa (n + 2 ^ 44) (1024 * 1024) (codes "T") h refl tib
    ∙ (ap ok (ap signed (omega arith))
        ∙ sym (parse_size-itoa n (1024 * 1024) (codes "T") (omega arith) refl tib))
  where
    tib : lookup (map to_lower (codes "T")) unit_mib ≡ some (1024 * 1024)
    tib = unfold lookup text_eq in refl
