-- ===== src/Lock.antt =====
-- internal/lock/volume.go: which sandbox holds which volume. The mutex makes each method one
-- atomic step, so a method is a function from the map to its result and the new map.
pub mod Laws
pub mod Claims
pub mod Isolation
pub mod Contract
mod Tests
use msb_manager.Prelude.{
  Text, Bool, true, false, not, Option, none, some, List, [], ◌∷◌, ◌++◌, Result, ok, err, Map,
  lookup, delete, insert, text_eq, any, if◌then◌else◌,
}

-- VolumeLock.held: volume name to sandbox name
abbrev pub Held : Type 0
Held = Map Text

-- ErrVolumeBusy, with the volume and the holder that its message names
pub record Busy : Type 0 where
  pub volume : Text
  pub holder : Text

abbrev pub new : Held
new = []

-- h, ok := l.held[v]; ok && h != sandbox
abbrev pub other_holder : Text → Option Text → Bool
other_holder sandbox none = false
other_holder sandbox (some h) = not (text_eq h sandbox)

abbrev or_zero : Option Text → Text
or_zero none = []
or_zero (some h) = h

-- VolumeLock.Acquire
unfoldable pub acquire : Text → Text → Held → Result Busy (Unit {0}) × Held
acquire volume sandbox held =
    let h = lookup volume held in
    if other_holder sandbox h
    then (err (record { volume = volume; holder = or_zero h }), held)
    else (ok tt, insert volume sandbox held)

-- the first loop of VolumeLock.AcquireMany
unfoldable pub find_conflict : List Text → Text → Held → Option Busy
find_conflict [] sandbox held = none
find_conflict (v ∷ vs) sandbox held =
    if other_holder sandbox (lookup v held)
    then some (record { volume = v; holder = or_zero (lookup v held) })
    else find_conflict vs sandbox held

abbrev if_absent : Option Text → Text → List Text → List Text
if_absent none v claimed = claimed ++ v ∷ []
if_absent (some _) v claimed = claimed

-- the second loop of VolumeLock.AcquireMany
unfoldable pub claim_all : List Text → Text → Held → List Text → List Text × Held
claim_all [] sandbox held claimed = (claimed, held)
claim_all (v ∷ vs) sandbox held claimed =
    claim_all vs sandbox (insert v sandbox held) (if_absent (lookup v held) v claimed)

abbrev claim_result : List Text × Held → Result Busy (List Text) × Held
claim_result r = (ok r.0, r.1)

-- VolumeLock.AcquireMany
unfoldable pub acquire_many : List Text → Text → Held → Result Busy (List Text) × Held
acquire_many volumes sandbox held = elim (find_conflict volumes sandbox held) [
  | some busy ↦ (err busy, held)
  | none ↦ claim_result (claim_all volumes sandbox held [])
]

-- VolumeLock.Release
unfoldable pub release : Text → Held → Held
release sandbox [] = []
release sandbox ((v, h) ∷ held) =
    let rest = release sandbox held in if text_eq h sandbox then rest else (v, h) ∷ rest

-- VolumeLock.ReleaseVolumes: a missing key reads as ""
unfoldable pub release_volumes : List Text → Text → Held → Held
release_volumes [] sandbox held = held
release_volumes (v ∷ vs) sandbox held =
    release_volumes vs sandbox
      (if text_eq (or_zero (lookup v held)) sandbox then delete v held else held)

-- VolumeLock.Holder
unfoldable pub holder : Text → Held → Option Text
holder volume held = lookup volume held

-- the loop of VolumeLock.Reconcile
unfoldable pub copy_all : Map Text → Held → Held
copy_all [] held = held
copy_all ((v, s) ∷ state) held = copy_all state (insert v s held)

-- VolumeLock.Reconcile
unfoldable pub reconcile : Map Text → Held → Held
unfolding copy_all
reconcile state held = copy_all state []

-- is `v` one of the names?
abbrev pub has_name : Text → List Text → Bool
has_name j vs = any (λ v. text_eq v j) vs
