-- ===== src/Lock/Tests.antt =====
-- the theorems on the volume lock, on a lock that holds one volume.
use msb_manager.Prelude.{
  Text, codes, some, List, [], ◌∷◌, ok, err, lookup, insert, delete, text_eq, ◌≡◌, ◌≢◌, refl, ◌⊎◌,
  Distinct, text_neq,
}
use msb_manager.Lock.{Held, Busy, acquire_many, release_volumes, release, find_conflict, claim_all}
use msb_manager.Lock.Claims.{IsClaimed, IsBusy, acquire_many_atomic, release_volumes-acquire_many}
use msb_manager.Lock.Contract.{
  Call, acquiring_many, releasing, asking, owners, Behaves, perform_all, perform_all-Behaves,
}
use msb_manager.Lock.Isolation.{Others, here, next, releases, acquires_many, claim_persists}

abbrev data_volume : Text
data_volume = codes "data"

abbrev logs : Text
logs = codes "logs"

abbrev held : Held
held = (data_volume, codes "a") ∷ []

held_Distinct : Distinct held
unfolding lookup
held_Distinct = (refl, tt)

acquire_many_atomic_example :
    ((newly : List Text) × ((acquire_many (logs ∷ data_volume ∷ []) (codes "b") held).0 ≡ ok newly)
      × IsClaimed
          (logs ∷ data_volume ∷ [])
          (codes "b")
          held
          newly
          (acquire_many (logs ∷ data_volume ∷ []) (codes "b") held).1)
    ⊎ ((b : Busy) × (acquire_many (logs ∷ data_volume ∷ []) (codes "b") held ≡ (err b, held))
        × IsBusy (logs ∷ data_volume ∷ []) (codes "b") held b)
acquire_many_atomic_example = acquire_many_atomic (logs ∷ data_volume ∷ []) (codes "b") held

abbrev both : Held
both = (data_volume, codes "a") ∷ (logs, codes "a") ∷ []

claims_both : acquire_many (logs ∷ data_volume ∷ []) (codes "a") held ≡ (ok (logs ∷ []), both)
unfolding acquire_many find_conflict claim_all lookup insert delete text_eq
claims_both = refl

release_volumes-acquire_many_example :
    lookup data_volume (release_volumes (logs ∷ []) (codes "a") both) ≡ lookup data_volume held
release_volumes-acquire_many_example =
    release_volumes-acquire_many (logs ∷ data_volume ∷ []) (codes "a") held (logs ∷ []) both
      data_volume claims_both

held_by_a : lookup data_volume held ≡ some (codes "a")
unfolding lookup text_eq
held_by_a = refl

b_neq_a : codes "b" ≢ codes "a"
b_neq_a = text_neq (codes "b") (codes "a") (unfold text_eq in refl)

-- another sandbox asks for both volumes and then ends
others :
    Others
      (codes "a")
      held
      (release (codes "b") (acquire_many (logs ∷ data_volume ∷ []) (codes "b") held).1)
others =
    next (codes "b") b_neq_a
      (next (codes "b") b_neq_a here (acquires_many (logs ∷ data_volume ∷ []) held)) (releases _)

claim_persists_example :
    lookup data_volume
      (release (codes "b") (acquire_many (logs ∷ data_volume ∷ []) (codes "b") held).1)
    ≡ some (codes "a")
claim_persists_example = claim_persists (codes "a") data_volume held_Distinct held_by_a others

-- a claim that is refused, a release, the claim again, and a question
abbrev calls : List Call
calls =
    acquiring_many (logs ∷ data_volume ∷ []) (codes "b")
    ∷ releasing (codes "a")
    ∷ acquiring_many (logs ∷ data_volume ∷ []) (codes "b")
    ∷ asking data_volume
    ∷ []

perform_all-Behaves_example :
    Behaves (owners held) (perform_all calls held).0 (owners (perform_all calls held).1)
perform_all-Behaves_example = perform_all-Behaves calls held held_Distinct
