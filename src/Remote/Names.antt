-- ===== src/Remote/Names.antt =====
-- cmd/msbctl and internal/server: what a valid name is for the arguments and the path of msbctl.
use msb_manager.Prelude.{Text, true, false, [], ◌∷◌, is_empty, all, ◌≡◌, refl, arith}
use msb_manager.Msb.Validate.{valid_name, is_name_byte}
use msb_manager.Ctl.Flags.Interspersed.{IsWord}
use msb_manager.Remote.Paths.{IsBytes}

all-IsBytes : (s : Text) → all is_name_byte s ≡ true → IsBytes s
all-IsBytes [] h = tt
all-IsBytes (c ∷ s) h = (ground arith, all-IsBytes s (ground arith))

pub valid-IsBytes : (n : Text) → valid_name n ≡ true → IsBytes n
unfolding valid_name
valid-IsBytes [] h = tt
valid-IsBytes (c ∷ s) h = (ground arith, all-IsBytes s (ground arith))

pub valid-IsWord : (n : Text) → valid_name n ≡ true → IsWord n
unfolding valid_name
valid-IsWord [] h = tt
valid-IsWord (c ∷ []) h = tt
valid-IsWord (c ∷ d ∷ s) h = λ e. ground arith

pub valid_filled : (n : Text) → valid_name n ≡ true → is_empty n ≡ false
unfolding valid_name
valid_filled [] h = absurd (cc h)
valid_filled (c ∷ s) h = refl
