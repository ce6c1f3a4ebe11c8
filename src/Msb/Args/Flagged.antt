-- ===== src/Msb/Args/Flagged.antt =====
-- internal/msb/client.go: argument lists that msb reads as flags with one value each.
use msb_manager.Prelude.{
  ℕ, Text, codes, Bool, true, false, List, [], ◌∷◌, ◌++◌, any, has_prefix, is_digit, all, is_empty,
  text_eq, itoa, digits-itoa, is_pos, to_nat, ℤ, Bool-cases, inl, inr, ◌≡◌, refl, arith,
}
use msb_manager.Msb.Args.{number_args, text_args}

-- does the text begin with a dash?
abbrev pub is_dashed : Text → Bool
is_dashed v = has_prefix v (codes "-")

-- flags of the list, each followed by one value that does not begin with a dash
pub data FlaggedBy (flags : List Text) : List Text → Type 0 where
  no_more : FlaggedBy flags []
  flag_value :
      (f v : Text) {rest : List Text}
      → any (λ g. text_eq g f) flags ≡ true
      → is_dashed v ≡ false
      → FlaggedBy flags rest
      → FlaggedBy flags (f ∷ v ∷ rest)

pub digits_undashed : (s : Text) → all is_digit s ≡ true → is_dashed s ≡ false
unfolding has_prefix
digits_undashed [] h = refl
digits_undashed (c ∷ s) h = ground arith

pub itoa_undashed : (n : ℕ) → is_dashed (itoa n) ≡ false
itoa_undashed n = digits_undashed (itoa n) (digits-itoa n)

module _ {flags : List Text} where
  pub Flagged-append :
      {xs ys : List Text} → FlaggedBy flags xs → FlaggedBy flags ys → FlaggedBy flags (xs ++ ys)
  Flagged-append no_more k = k
  Flagged-append (flag_value f v g d h) k = flag_value f v g d (Flagged-append h k)

  pub number-Flagged :
      (f : Text) (n : ℤ) → any (λ g. text_eq g f) flags ≡ true → FlaggedBy flags (number_args f n)
  number-Flagged f n g = elim (Bool-cases (is_pos n)) [
    | inl e ↦ rw e (flag_value f _ g (itoa_undashed (to_nat n)) no_more)
    | inr e ↦ rw e no_more
  ]

  pub text-Flagged :
      (f v : Text)
      → any (λ g. text_eq g f) flags ≡ true
      → is_dashed v ≡ false
      → FlaggedBy flags (text_args f v)
  text-Flagged f v g d = elim (Bool-cases (is_empty v)) [
    | inl e ↦ rw e no_more
    | inr e ↦ rw e (flag_value f v g d no_more)
  ]
