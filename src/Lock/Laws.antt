-- ===== src/Lock/Laws.antt =====
-- internal/lock/volume.go: what each method does to the holder of every volume.
use msb_manager.Prelude.{
  Text, Bool, true, false, ◌&&◌, ◌||◌, Option, none, some, List, [], ◌∷◌, ◌++◌, ok, err, Map,
  lookup, delete, insert, lookup-insert, lookup-delete, text_eq, text_eq_iff, Distinct,
  insert-Distinct, delete-Distinct, text_eq_refl, if◌then◌else◌, ◌≡◌, ◌≢◌, refl, arith, Bool-cases,
  inl, inr, ◌⊎◌,
}
use msb_manager.Lock.{
  Held, Busy, other_holder, or_zero, acquire, find_conflict, claim_all, release, release_volumes,
  copy_all, reconcile, has_name, if_absent,
}

-- claiming in the loop sets every volume of the list, and no other
pub lookup-claim_all :
    (vs : List Text) (s : Text) (m : Held) (claimed : List Text) (j : Text)
    → lookup j (claim_all vs s m claimed).1 ≡ (if has_name j vs then some s else lookup j m)
unfolding claim_all
lookup-claim_all [] s m claimed j = refl
lookup-claim_all (v ∷ vs) s m claimed j = ground (
  arith,
  lookup-claim_all vs s (insert v s m) (if_absent (lookup v m) v claimed) j,
  lookup-insert v j s m,
  text_eq_iff v j,
)

abbrev pub is_absent : Option Text → Bool
is_absent none = true
is_absent (some _) = false

has_name-append :
    (j v : Text) (vs : List Text) → has_name j (vs ++ v ∷ []) ≡ (has_name j vs || text_eq v j)
has_name-append j v [] = ground arith
has_name-append j v (w ∷ vs) = ground (arith, has_name-append j v vs)

has_name-if_absent :
    (j v : Text) (o : Option Text) (vs : List Text)
    → has_name j (if_absent o v vs) ≡ (has_name j vs || (is_absent o && text_eq v j))
has_name-if_absent j v none vs = ground (arith, has_name-append j v vs)
has_name-if_absent j v (some h) vs = ground arith

-- the loop reports the volumes of the list that nobody held
pub claim_all_newly :
    (vs : List Text) (s : Text) (m : Held) (claimed : List Text) (j : Text)
    → has_name j (claim_all vs s m claimed).0
      ≡ (has_name j claimed || (has_name j vs && is_absent (lookup j m)))
unfolding claim_all
claim_all_newly [] s m claimed j = ground arith
claim_all_newly (v ∷ vs) s m claimed j = ground (
  arith,
  claim_all_newly vs s (insert v s m) (if_absent (lookup v m) v claimed) j,
  has_name-if_absent j v (lookup v m) claimed,
  lookup-insert v j s m,
  text_eq_iff v j,
)

-- no conflict: nobody else holds a volume of the list
pub find_conflict-none :
    (vs : List Text) (s : Text) (m : Held) (j : Text)
    → find_conflict vs s m ≡ none
    → has_name j vs ≡ true
    → other_holder s (lookup j m) ≡ false
unfolding find_conflict
find_conflict-none [] s m j h e = ground arith
find_conflict-none (v ∷ vs) s m j h e = ground (arith, find_conflict-none vs s m j, text_eq_iff v j)

-- a conflict names a volume of the list and its holder, another sandbox
pub find_conflict-some :
    (vs : List Text) (s : Text) (m : Held) (b : Busy)
    → find_conflict vs s m ≡ some b
    → (has_name b.volume vs ≡ true) × (lookup b.volume m ≡ some b.holder) × (b.holder ≢ s)
unfolding find_conflict
find_conflict-some [] s m b h = ground arith
find_conflict-some (v ∷ vs) s m b h =
    grind (arith, find_conflict-some vs s m b, text_eq_refl v, text_eq_refl s)

pub other_holder-true :
    (s : Text) (o : Option Text)
    → other_holder s o ≡ true
    → (o ≡ some (or_zero o)) × (or_zero o ≢ s)
other_holder-true s none h = ground arith
other_holder-true s (some x) h = (refl, λ e. ground (arith, text_eq_iff x s))

lookup-nil : (j : Text) → lookup {V = Text} j [] ≡ none
unfolding lookup
lookup-nil j = refl

-- Acquire either claims the one volume, or reports its holder, another sandbox, and changes nothing.
pub acquire_lem :
    (v s : Text) (m : Held) (j : Text)
    → ((acquire v s m).0 ≡ ok tt
        × other_holder s (lookup v m) ≡ false
        × lookup j (acquire v s m).1 ≡ (if text_eq v j then some s else lookup j m))
      ⊎ ((h : Text) × (acquire v s m).0 ≡ err (record { volume = v; holder = h })
          × ((lookup v m ≡ some h) × (h ≢ s))
          × (acquire v s m).1 ≡ m)
unfolding acquire
acquire_lem v s m j = elim (Bool-cases (other_holder s (lookup v m))) [
  | inl busy ↦
      rw busy (inr (or_zero (lookup v m), refl, other_holder-true s (lookup v m) busy, refl))
  | inr free ↦ rw free (inl (refl, refl, lookup-insert v j s m))
]

-- is the volume held by `s`?
abbrev pub owns : Text → Option Text → Bool
owns s none = false
owns s (some h) = text_eq h s

-- Release drops the claims of the sandbox and no other.
pub lookup-release :
    (s : Text) (m : Held) (j : Text)
    → Distinct m
    → lookup j (release s m) ≡ (if owns s (lookup j m) then none else lookup j m)
unfolding release lookup
lookup-release s [] j d = refl
lookup-release s ((v, x) ∷ m) j d =
    ground (arith, lookup-release s m j d.1, text_eq_iff v j, text_eq_iff x s)

pub release-Distinct : (s : Text) (m : Held) → Distinct m → Distinct (release s m)
unfolding release lookup
release-Distinct s [] d = tt
release-Distinct s ((v, x) ∷ m) d =
    ground (arith, release-Distinct s m d.1, lookup-release s m v d.1)

-- ReleaseVolumes drops the claims of the sandbox on the listed volumes and no other.
pub lookup-release_volumes :
    (vs : List Text) (s : Text) (m : Held) (j : Text)
    → lookup j (release_volumes vs s m)
      ≡ (if has_name j vs && owns s (lookup j m) then none else lookup j m)
unfolding release_volumes
lookup-release_volumes [] s m j = refl
lookup-release_volumes (v ∷ vs) s m j = ground (
  arith,
  lookup-release_volumes vs s (if text_eq (or_zero (lookup v m)) s then delete v m else m) j,
  lookup-delete v j m,
  text_eq_iff v j,
)

pub release_volumes-Distinct :
    (vs : List Text) (s : Text) (m : Held) → Distinct m → Distinct (release_volumes vs s m)
unfolding release_volumes
release_volumes-Distinct [] s m d = d
release_volumes-Distinct (v ∷ vs) s m d =
    release_volumes-Distinct vs s (if text_eq (or_zero (lookup v m)) s then delete v m else m)
      (elim (Bool-cases (text_eq (or_zero (lookup v m)) s)) [
        | inl e ↦ rw e (delete-Distinct v m d)
        | inr e ↦ rw e d
      ])

pub claim_all-Distinct :
    (vs : List Text) (s : Text) (m : Held) (claimed : List Text)
    → Distinct m
    → Distinct (claim_all vs s m claimed).1
unfolding claim_all
claim_all-Distinct [] s m claimed d = d
claim_all-Distinct (v ∷ vs) s m claimed d =
    claim_all-Distinct vs s (insert v s m) (if_absent (lookup v m) v claimed)
      (insert-Distinct v s m d)

lookup-copy_all :
    (state : Map Text) (m : Held) (j : Text)
    → Distinct state
    → lookup j (copy_all state m)
      ≡ (if is_absent (lookup j state) then lookup j m else lookup j state)
unfolding copy_all lookup
lookup-copy_all [] m j d = refl
lookup-copy_all ((v, s) ∷ state) m j d =
    ground
      (arith, lookup-copy_all state (insert v s m) j d.1, lookup-insert v j s m, text_eq_iff v j)

copy_all-Distinct : (state : Map Text) (m : Held) → Distinct m → Distinct (copy_all state m)
unfolding copy_all
copy_all-Distinct [] m d = d
copy_all-Distinct ((v, s) ∷ state) m d =
    copy_all-Distinct state (insert v s m) (insert-Distinct v s m d)

-- Reconcile forgets what was held: afterwards the lock holds the given state, whatever order the
-- map is walked in.
pub lookup-reconcile :
    (state : Map Text) (m : Held) (j : Text)
    → Distinct state
    → lookup j (reconcile state m) ≡ lookup j state
unfolding reconcile
lookup-reconcile state m j d = ground (arith, lookup-copy_all state [] j d, lookup-nil j)

pub reconcile-Distinct : (state : Map Text) (m : Held) → Distinct (reconcile state m)
unfolding reconcile
reconcile-Distinct state m = copy_all-Distinct state [] tt
