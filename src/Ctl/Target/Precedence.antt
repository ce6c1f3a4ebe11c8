-- ===== src/Ctl/Target/Precedence.antt =====
-- cmd/msbctl/config.go: flags before the environment before the profile before the default.
use msb_manager.Prelude.{Text, false, List, [], ◌∷◌, ◌++◌, Bool-cases, inl, inr, is_empty, ◌≡◌}
use msb_manager.Ctl.Target.{Target, first_non_empty}

-- what is chosen is not empty, or everything is
pub first_non_empty-default :
    (vs : List Text) (d : Text)
    → is_empty d ≡ false
    → is_empty (first_non_empty (vs ++ d ∷ [])) ≡ false
unfolding first_non_empty
first_non_empty-default [] d h = rw h h
first_non_empty-default (v ∷ vs) d h = elim (Bool-cases (is_empty v)) [
  | inl e ↦ rw e (first_non_empty-default vs d h)
  | inr e ↦ rw e e
]

-- the first of the texts that is not empty, or the empty text when all are
pub data Preferred : List Text → Text → Type 0 where
  nothing : Preferred [] []
  passed : {t : Text} (vs : List Text) → Preferred vs t → Preferred ([] ∷ vs) t
  taken : (v : Text) (vs : List Text) → is_empty v ≡ false → Preferred (v ∷ vs) v
