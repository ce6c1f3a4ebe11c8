-- ===== src/Prelude/Decimal.antt =====
-- Decimal numerals: the printing of strconv.Itoa for numbers that are not negative.
use Prim.Native.Nat.{ℕ, zero, suc, ◌+◌, ◌*◌, ◌-◌, ◌/◌, ◌%◌, ◌<◌}
use mathlib.Core.Path.{◌≡◌, refl, ap, ◌∙◌}
use mathlib.Core.Logic.{inl, inr}
use mathlib.Core.Bool.{Bool, true, false, ◌&&◌}
use mathlib.Core.List.{[], ◌∷◌}
use native.Mathlib.Omega.{arith}
use msb_manager.Prelude.Tests.{ltb, leb, if◌then◌else◌, Bool-cases}
use msb_manager.Prelude.Lists.{all}
use msb_manager.Prelude.Ints.{ℤ, pos, negsuc}
use msb_manager.Prelude.Strings.{Text, is_empty}

abbrev pub is_digit : ℕ → Bool
is_digit c = leb 48 c && leb c 57

-- the digits of `n` in front of `out`; the fuel bounds the number of digits
unfoldable pub itoa_loop : ℕ → ℕ → Text → Text
itoa_loop zero n out = out
itoa_loop (suc f) n out =
    let rest = itoa_loop f (n / 10) ((48 + n % 10) ∷ out) in
    if ltb n 10 then (48 + n) ∷ out else rest

unfoldable pub itoa : ℕ → Text
unfolding itoa_loop
itoa n = itoa_loop (suc n) n []

-- strconv.Itoa
abbrev pub itoa_int : ℤ → Text
itoa_int (pos n) = itoa n
itoa_int (negsuc n) = b'-' ∷ itoa (suc n)

-- the number that a text of digits stands for
unfoldable pub decimal : ℕ → Text → ℕ
decimal n [] = n
decimal n (c ∷ s) = decimal (n * 10 + (c - 48)) s

decimal-itoa_loop : (f n : ℕ) (out : Text) → n < f → decimal 0 (itoa_loop f n out) ≡ decimal n out
unfolding itoa_loop decimal
decimal-itoa_loop zero n out h = absurd (omega arith)
decimal-itoa_loop (suc f) n out h = elim (Bool-cases (ltb n 10)) [
  | inl small ↦ rw small (ap (λ k. decimal k out) (omega arith))
  | inr large ↦ rw large (
      decimal-itoa_loop f (n / 10) ((48 + n % 10) ∷ out) (ground arith)
      ∙ ap (λ k. decimal k out) (omega arith))
]

-- a printed number reads back as itself
pub decimal-itoa : (n : ℕ) → decimal 0 (itoa n) ≡ n
unfolding itoa decimal
decimal-itoa n = decimal-itoa_loop (suc n) n [] (omega arith)

digits-itoa_loop :
    (f n : ℕ) (out : Text) → all is_digit out ≡ true → all is_digit (itoa_loop f n out) ≡ true
unfolding itoa_loop
digits-itoa_loop zero n out h = h
digits-itoa_loop (suc f) n out h = elim (Bool-cases (ltb n 10)) [
  | inl small ↦ rw small (ground arith)
  | inr large ↦ rw large (digits-itoa_loop f (n / 10) ((48 + n % 10) ∷ out) (ground arith))
]

pub digits-itoa : (n : ℕ) → all is_digit (itoa n) ≡ true
unfolding itoa
digits-itoa n = digits-itoa_loop (suc n) n [] refl

nonempty-itoa_loop : (f n : ℕ) (out : Text) → n < f → is_empty (itoa_loop f n out) ≡ false
unfolding itoa_loop
nonempty-itoa_loop zero n out h = absurd (omega arith)
nonempty-itoa_loop (suc f) n out h = elim (Bool-cases (ltb n 10)) [
  | inl small ↦ rw small
  | inr large ↦ rw large (nonempty-itoa_loop f (n / 10) ((48 + n % 10) ∷ out) (ground arith))
]

pub nonempty-itoa : (n : ℕ) → is_empty (itoa n) ≡ false
unfolding itoa
nonempty-itoa n = nonempty-itoa_loop (suc n) n [] (omega arith)
