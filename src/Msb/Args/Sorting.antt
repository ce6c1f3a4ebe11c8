-- ===== src/Msb/Args/Sorting.antt =====
-- internal/msb/client.go: sortedKeys.
use msb_manager.Prelude.{Text, List, [], ◌∷◌, All, ◌↔◌, inl, inr, Bool-cases}
use msb_manager.Msb.Args.{text_leb, insert_sorted, sort_texts}

-- sorting keeps what holds of every element
module _ (P : Text → Type 0) where
  All-inserted : (k : Text) (ks : List Text) → All P (insert_sorted k ks) ↔ (P k × All P ks)
  unfolding insert_sorted
  All-inserted k [] = (λ h. h, λ h. h)
  All-inserted k (j ∷ ks) = elim (Bool-cases (text_leb k j)) [
    | inl e ↦ rw e (λ h. h, λ h. h)
    | inr e ↦ rw e (behind k j ks (All-inserted k ks))
  ]
    where
      behind :
          (k j : Text) (ks : List Text)
          → All P (insert_sorted k ks) ↔ (P k × All P ks)
          → (P j × All P (insert_sorted k ks)) ↔ (P k × (P j × All P ks))
      behind k j ks r = (λ h. let (a, b) = r.0 h.1 in (a, (h.0, b)), λ h. (h.1.0, r.1 (h.0, h.1.1)))

  pub All-sorted : (ks : List Text) → All P (sort_texts ks) → All P ks
  unfolding sort_texts
  All-sorted [] h = tt
  All-sorted (k ∷ ks) h = let (a, b) = (All-inserted k (sort_texts ks)).0 h in (a, All-sorted ks b)

  pub sorted-All : (ks : List Text) → All P ks → All P (sort_texts ks)
  unfolding sort_texts
  sorted-All [] h = tt
  sorted-All (k ∷ ks) h = (All-inserted k (sort_texts ks)).1 (h.0, sorted-All ks h.1)
