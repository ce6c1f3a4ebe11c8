-- ===== src/Ctl/Interpolate/Expansion.antt =====
-- cmd/msbctl/interpolate.go: what becomes of a scalar when every reference in it has a value.
use msb_manager.Prelude.{
  ℕ, zero, suc, ◌+◌, length, drop, Text, Option, none, some, Option-cases, inl, inr, ◌≡◌, ◌≢◌, refl,
  [], ◌∷◌, ◌++◌, insert, Bool-cases, text_eq,
}
use msb_manager.Ctl.Interpolate.{Missing, placeholder_at, substitute, filled}

-- each reference of the first text has a value, which stands in its place in the second
pub data Expands (vars : Text → Option Text) : Text → Text → Type 0 where
  ended : Expands vars [] []
  copied :
      (c : ℕ) {s t : Text}
      → placeholder_at (c ∷ s) ≡ none
      → Expands vars s t
      → Expands vars (c ∷ s) (c ∷ t)
  -- the reference is as long as its name with the three bytes `${}`
  replaced :
      (c : ℕ) (name v : Text) {s t : Text}
      → placeholder_at (c ∷ s) ≡ some name
      → vars name ≡ some v
      → Expands vars (drop (length name + 2) s) t
      → Expands vars (c ∷ s) (v ++ t)

insert_neq : (name : Text) (m : Missing) → insert name tt m ≢ []
unfolding insert
insert_neq name [] h = absurd (cc h)
insert_neq name ((k, u) ∷ m) h = elim (Bool-cases (text_eq k name)) [
  | inl e ↦ absurd (cc (rw (e, insert) at h))
  | inr e ↦ absurd (cc (rw (e, insert) at h))
]

module _ (vars : Text → Option Text) where
  filled_none : (name : Text) (m : Missing) → (filled vars name m).1 ≡ [] → m ≡ []
  unfolding filled
  filled_none name m h = elim (Option-cases (vars name)) [
    | inl e ↦ absurd (insert_neq name m (rw (e, filled) at h))
    | inr (v, e) ↦ rw (e, filled) at h
  ]

  filled_absent : (name : Text) (m : Missing) → vars name ≡ none → (filled vars name m).1 ≢ []
  unfolding filled
  filled_absent name m e h = insert_neq name m (rw (e, filled) at h)

  filled_present : (name v : Text) (m : Missing) → vars name ≡ some v → filled vars name m ≡ (v, m)
  unfolding filled
  filled_present name v m e = rw (e, filled) refl

  -- when no name is missing at the end, none was before
  pub substitute_none :
      (skip : ℕ) (s : Text) (m : Missing) → (substitute vars skip s m).1 ≡ [] → m ≡ []
  unfolding substitute
  substitute_none skip [] m h = h
  substitute_none (suc skip) (c ∷ s) m h = substitute_none skip s m h
  substitute_none zero (c ∷ s) m h = elim (Option-cases (placeholder_at (c ∷ s))) [
    | inl e ↦ substitute_none 0 s m (rw (e, substitute) at h)
    | inr (name, e) ↦
        filled_none name m (substitute_none (length name + 2) s _ (rw (e, substitute) at h))
  ]

  pub substitute-Expands :
      (skip : ℕ) (s : Text) (m : Missing)
      → (substitute vars skip s m).1 ≡ []
      → Expands vars (drop skip s) (substitute vars skip s m).0
  unfolding substitute
  substitute-Expands zero [] m h = ended
  substitute-Expands (suc skip) [] m h = ended
  substitute-Expands (suc skip) (c ∷ s) m h = substitute-Expands skip s m h
  substitute-Expands zero (c ∷ s) m h = elim (Option-cases (placeholder_at (c ∷ s))) [
    | inl e ↦ rw (e, substitute) (copied c e (substitute-Expands 0 s m (rw (e, substitute) at h)))
    | inr (name, e) ↦ elim (Option-cases (vars name)) [
      | inl n ↦
          absurd (
            filled_absent name m n
              (substitute_none (length name + 2) s _ (rw (e, substitute) at h)))
      | inr (v, n) ↦
          rw (e, substitute, filled_present name v m n)
            (replaced c name v e n (
              substitute-Expands (length name + 2) s m
                (rw (e, substitute, filled_present name v m n) at h)))
    ]
  ]
