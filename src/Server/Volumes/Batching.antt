-- ===== src/Server/Volumes/Batching.antt =====
-- internal/server/volumes.go: what a volume manifest makes msb do.
use msb_manager.Prelude.{
  Text, any, not, ◌&&◌, insert, lookup-insert, text_eq, Bool, true, false, Option, none, some, List,
  [], ◌∷◌, map, All, Result, ok, err, Result-cases, Bool-cases, inl, inr, ◌≡◌, refl, ◌∙◌, ap,
  lookup, Map, ℤ, pos, negsuc, int_eq, if◌then◌else◌, arith,
}
use msb_manager.Msb.Types
use msb_manager.Msb.Size.{SizeError, parse_size_mib}
use msb_manager.Api.{VolumeStatus, created, exists, error}
use msb_manager.Server.{MsbClient, State, VolumeResult, ItemError, batch, no_error}
use msb_manager.Server.Volumes.{
  VolumeRequest, index_volumes, plan_one, plan_volume_batch, planned, is_created, any_failed,
  execute_one, execute_batch, run_batch,
}

abbrev absent_sized : Result SizeError ℤ → Option ℤ → Bool
absent_sized (err e) o = false
absent_sized (ok n) none = true
absent_sized (ok n) (some have) = false

-- is the size good, and is there no volume of that name?
abbrev pub is_missing : Map ℤ → VolumeRequest → Bool
is_missing existing v = absent_sized (parse_size_mib v.size) (lookup v.name existing)

-- the items of the manifest that are missing, in order
unfoldable pub missing : Map ℤ → List VolumeRequest → List VolumeRequest
missing existing [] = []
missing existing (v ∷ vs) =
    let rest = missing existing vs in if is_missing existing v then v ∷ rest else rest

-- is a volume of this name listed?
abbrev pub is_listed : Text → List Types.Volume → Bool
is_listed name l = any (λ (u : Types.Volume). text_eq u.name name) l

-- is the size good?
abbrev pub is_sized : VolumeRequest → Bool
is_sized v = elim (parse_size_mib v.size) [ ok n ↦ true | err e ↦ false ]

-- the items with a good size that name no listed volume, in order
unfoldable pub unlisted : List Types.Volume → List VolumeRequest → List VolumeRequest
unlisted l [] = []
unlisted l (v ∷ vs) =
    let rest = unlisted l vs in if is_sized v && not (is_listed v.name l) then v ∷ rest else rest

abbrev is_absent : Option ℤ → Bool
is_absent none = true
is_absent (some n) = false

lookup-index_volumes :
    (l : List Types.Volume) (m : Map ℤ) (name : Text)
    → is_absent (lookup name (index_volumes l m))
      ≡ (not (is_listed name l) && is_absent (lookup name m))
unfolding index_volumes
lookup-index_volumes [] m name = refl
lookup-index_volumes (u ∷ l) m name = ground (
  arith,
  lookup-index_volumes l (insert u.name u.quota_mib m) name,
  lookup-insert u.name name u.quota_mib m,
)

absent_sized_lem :
    (r : Result SizeError ℤ) (o : Option ℤ)
    → absent_sized r o ≡ (elim r [ ok n ↦ true | err e ↦ false ] && is_absent o)
absent_sized_lem (err e) o = refl
absent_sized_lem (ok n) none = refl
absent_sized_lem (ok n) (some m) = refl

is_missing-index_volumes :
    (l : List Types.Volume) (v : VolumeRequest)
    → is_missing (index_volumes l []) v ≡ (is_sized v && not (is_listed v.name l))
unfolding lookup
is_missing-index_volumes l v =
    absent_sized_lem (parse_size_mib v.size) (lookup v.name (index_volumes l []))
    ∙ ap (λ b. is_sized v && b) (lookup-index_volumes l [] v.name ∙ ground arith)

missing-index_volumes :
    (l : List Types.Volume) (vs : List VolumeRequest)
    → missing (index_volumes l []) vs ≡ unlisted l vs
unfolding missing unlisted
missing-index_volumes l [] = refl
missing-index_volumes l (v ∷ vs) =
    rw (is_missing-index_volumes l v, missing-index_volumes l vs) refl

module _ {W F : Type 0} (client : MsbClient W F) where
  -- `msb volume create` for each item
  unfoldable pub create_each : List VolumeRequest → W → W
  create_each [] w = w
  create_each (v ∷ vs) w = create_each vs (client.volume_create v.name v.size w).1

  one_planned :
      (v : VolumeRequest) (w : W) (s : VolumeStatus) (p : ItemError)
      → (execute_one client (planned v s p) w).1
        ≡ (if is_created s then (client.volume_create v.name v.size w).1 else w)
  unfolding execute_one
  one_planned v w s p = elim (Bool-cases (is_created s)) [
    | inr e ↦ rw e refl
    | inl e ↦ rw e (elim (Result-cases (client.volume_create v.name v.size w).0) [
      | inl (t, r) ↦ rw (r, execute_one) refl
      | inr (x, r) ↦ rw (r, execute_one) refl
    ])
  ]

  one_sized :
      (existing : Map ℤ) (v : VolumeRequest) (w : W) (r : Result SizeError ℤ) (o : Option ℤ)
      → parse_size_mib v.size ≡ r
      → lookup v.name existing ≡ o
      → (execute_one client (plan_one existing v) w).1
        ≡ (if absent_sized r o then (client.volume_create v.name v.size w).1 else w)
  unfolding plan_one
  one_sized existing v w (err e) o h k = rw h (one_planned v w error _)
  one_sized existing v w (ok n) none h k = rw (h, k) (one_planned v w created _)
  one_sized existing v w (ok n) (some have) h k =
      rw (h, k)
        (elim (Bool-cases (int_eq have n)) [
          | inl e ↦ rw e (one_planned v w exists _)
          | inr e ↦ rw e (one_planned v w error _)
        ])

  batch-world :
      (existing : Map ℤ) (vs : List VolumeRequest) (w : W)
      → (execute_batch client (plan_volume_batch vs existing) w).1
        ≡ create_each (missing existing vs) w
  unfolding execute_batch plan_volume_batch create_each missing
  batch-world existing [] w = refl
  batch-world existing (v ∷ vs) w = elim (Bool-cases (is_missing existing v)) [
    | inl e ↦
        rw (e, create_each)
          (ap (λ x. (execute_batch client (plan_volume_batch vs existing) x).1)
              (one_sized existing v w _ _ refl refl ∙ rw e refl)
            ∙ batch-world existing vs (client.volume_create v.name v.size w).1)
    | inr e ↦
        rw (e, create_each)
          (ap (λ x. (execute_batch client (plan_volume_batch vs existing) x).1)
              (one_sized existing v w _ _ refl refl ∙ rw e refl)
            ∙ batch-world existing vs w)
  ]

  -- Of a valid manifest exactly the items with a good size that name no volume listed by msb are
  -- created, in their order; nothing else of the server or of the machine changes.
  pub run_batch_creates :
      (vs : List VolumeRequest) (st : State W) (l : List Types.Volume)
      → (client.volume_list st.world).0 ≡ ok l
      → (run_batch client vs st).1
        ≡ record st { world = create_each (unlisted l vs) (client.volume_list st.world).1 }
  unfolding run_batch
  run_batch_creates vs st l h =
      rw (h, run_batch)
        (ap (λ (w : W). record st { world = w })
          (batch-world (index_volumes l []) vs (client.volume_list st.world).1
            ∙ ap (λ items. create_each items (client.volume_list st.world).1)
                (missing-index_volumes l vs)))

-- every item is a volume of the given size already
unfoldable pub IsPresent : Map ℤ → VolumeRequest → Type 0
IsPresent existing v = (n : ℤ) × (parse_size_mib v.size ≡ ok n) × (lookup v.name existing ≡ some n)

int_eq_refl : (n : ℤ) → int_eq n n ≡ true
int_eq_refl (pos n) = ground arith
int_eq_refl (negsuc n) = ground arith

abbrev pub present : VolumeRequest → VolumeResult
present v = record { name = v.name; size = v.size; status = exists; problem = no_error }

plan_one-present :
    (existing : Map ℤ) (v : VolumeRequest) → IsPresent existing v → plan_one existing v ≡ present v
unfolding plan_one IsPresent
plan_one-present existing v (n, h, k) = rw (h, k, int_eq_refl n) refl

plan-present :
    (existing : Map ℤ) (vs : List VolumeRequest)
    → All (IsPresent existing) vs
    → plan_volume_batch vs existing ≡ map present vs
unfolding plan_volume_batch
plan-present existing [] a = refl
plan-present existing (v ∷ vs) a =
    rw (plan_one-present existing v a.0, plan-present existing vs a.1) refl

module _ {W F : Type 0} (client : MsbClient W F) where
  execute-present :
      (vs : List VolumeRequest) (w : W)
      → execute_batch client (map present vs) w ≡ (map present vs, w)
  unfolding execute_batch execute_one
  execute-present [] w = refl
  execute-present (v ∷ vs) w = rw (execute-present vs w) refl

  present-any_failed : (vs : List VolumeRequest) → any_failed (map present vs) ≡ false
  unfolding any_failed
  present-any_failed [] = refl
  present-any_failed (v ∷ vs) = present-any_failed vs

  -- A manifest whose items all exist with their sizes is answered by 201 and the status "exists" for
  -- each, and no volume is created: sending a manifest again is safe.
  pub run_batch_again :
      (vs : List VolumeRequest) (st : State W) (l : List Types.Volume)
      → (client.volume_list st.world).0 ≡ ok l
      → All (IsPresent (index_volumes l [])) vs
      → run_batch client vs st ≡ (
        record { status = 201; body = batch (map present vs) },
        record st { world = (client.volume_list st.world).1 },
      )
  unfolding run_batch
  run_batch_again vs st l h a =
      rw
        (
          h,
          run_batch,
          plan-present (index_volumes l []) vs a,
          execute-present vs (client.volume_list st.world).1,
          present-any_failed vs,
        )
        refl
