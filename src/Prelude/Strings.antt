-- ===== src/Prelude/Strings.antt =====
-- Go strings and byte slices: lists of bytes. A literal is written `codes "..."`.
use Prim.Native.Nat.{ℕ}
use Prim.Native.Char.{code}
use Prim.Native.String.{String}
use mathlib.Core.Path.{◌≡◌, refl}
use mathlib.Core.Logic.{◌↔◌, ◌≢◌}
use mathlib.Core.Bool.{Bool, true, false, ◌&&◌, ◌||◌}
use mathlib.Core.List.{List, [], ◌∷◌, ◌++◌}
use native.Mathlib.Omega.{arith}
use msb_manager.Prelude.Tests.{==_iff, ◌==◌, leb, if◌then◌else◌}
use msb_manager.Prelude.Lists.{length, drop, any, All}

abbrev pub Text : Type 0
Text = List ℕ

abbrev pub codes : String → Text
codes String.[] = []
codes (String.◌∷◌ c s) = code c ∷ codes s

-- s == t
unfoldable pub text_eq : Text → Text → Bool
text_eq [] [] = true
text_eq [] (b ∷ t) = false
text_eq (a ∷ s) [] = false
text_eq (a ∷ s) (b ∷ t) = a == b && text_eq s t

pub text_eq_refl : (s : Text) → text_eq s s ≡ true
unfolding text_eq
text_eq_refl [] = refl
text_eq_refl (a ∷ s) = ground (arith, text_eq_refl s)

pub text_eq_sound : (s t : Text) → text_eq s t ≡ true → s ≡ t
unfolding text_eq
text_eq_sound [] [] h = refl
text_eq_sound [] (b ∷ t) h = ground arith
text_eq_sound (a ∷ s) [] h = ground arith
text_eq_sound (a ∷ s) (b ∷ t) h = ground (arith, text_eq_sound s t)

pub text_eq_iff : (s t : Text) → (text_eq s t ≡ true) ↔ (s ≡ t)
text_eq_iff s t = (text_eq_sound s t, λ e. ground (arith, text_eq_refl s))

-- s == ""
abbrev pub is_empty : Text → Bool
is_empty [] = true
is_empty (c ∷ s) = false

-- strings.HasPrefix
unfoldable pub has_prefix : Text → Text → Bool
has_prefix s [] = true
has_prefix [] (b ∷ p) = false
has_prefix (a ∷ s) (b ∷ p) = a == b && has_prefix s p

-- strings.IndexByte(s, c) >= 0, strings.Contains(s, "c")
unfoldable pub contains_byte : ℕ → Text → Bool
contains_byte c = any (λ a. a == c)

-- strings.ContainsAny
unfoldable pub contains_any : Text → Text → Bool
unfolding contains_byte
contains_any cs = any (λ a. contains_byte a cs)

-- the white space of strings.TrimSpace and bytes.TrimSpace, in ASCII
abbrev pub is_space : ℕ → Bool
is_space c = c == 32 || (leb 9 c && leb c 13)

unfoldable pub trim_left : Text → Text
trim_left [] = []
trim_left (c ∷ s) = let rest = trim_left s in if is_space c then rest else c ∷ s

abbrev keep_or_drop : ℕ → Text → Text
keep_or_drop c [] = if is_space c then [] else c ∷ []
keep_or_drop c (d ∷ s) = c ∷ d ∷ s

unfoldable pub trim_right : Text → Text
trim_right [] = []
trim_right (c ∷ s) = keep_or_drop c (trim_right s)

unfoldable pub trim_space : Text → Text
unfolding trim_left trim_right
trim_space s = trim_right (trim_left s)

pub has_prefix-append : (p s : Text) → has_prefix (p ++ s) p ≡ true
unfolding has_prefix
has_prefix-append [] [] = refl
has_prefix-append [] (a ∷ s) = refl
has_prefix-append (b ∷ p) s = ground (arith, has_prefix-append p s)

pub has_prefix_split : (s p : Text) → has_prefix s p ≡ true → p ++ drop (length p) s ≡ s
unfolding has_prefix
has_prefix_split [] [] h = refl
has_prefix_split (a ∷ s) [] h = refl
has_prefix_split [] (b ∷ p) h = ground arith
has_prefix_split (a ∷ s) (b ∷ p) h = ground (arith, has_prefix_split s p)

pub drop-append {ℓ} : {A : Type ℓ} (xs ys : List A) → drop (length xs) (xs ++ ys) ≡ ys
drop-append [] ys = refl
drop-append (x ∷ xs) ys = drop-append xs ys

pub text_neq : (s t : Text) → text_eq s t ≡ false → (s ≡ t → ⊥)
text_neq s t h e = ground (arith, text_eq_iff s t)

-- no byte of `s` is `b`
abbrev pub Lacks : ℕ → Text → Type 0
Lacks b = All (λ c. c ≢ b)

pub contains_byte-Lacks : (b : ℕ) (s : Text) → contains_byte b s ≡ false → Lacks b s
unfolding contains_byte
contains_byte-Lacks b [] h = tt
contains_byte-Lacks b (c ∷ s) h =
    (λ e. ground (arith, ==_iff c b), contains_byte-Lacks b s (ground arith))

pub Lacks-contains_byte : (b : ℕ) (s : Text) → Lacks b s → contains_byte b s ≡ false
unfolding contains_byte
Lacks-contains_byte b [] h = refl
Lacks-contains_byte b (c ∷ s) h = ground (arith, ==_iff c b, Lacks-contains_byte b s h.1)

-- the two tests of `strings.ContainsAny` with two bytes
pub contains_any_two :
    (a b : ℕ) (s : Text) → contains_any (a ∷ b ∷ []) s ≡ (contains_byte a s || contains_byte b s)
unfolding contains_any
contains_any_two a b [] = refl
contains_any_two a b (c ∷ s) =
    ground (arith, contains_any_two a b s, ==_iff a c, ==_iff b c, ==_iff c a, ==_iff c b)
