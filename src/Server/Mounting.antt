-- ===== src/Server/Mounting.antt =====
-- internal/msb/types.go, SandboxDetail.VolumeNames: which volumes a sandbox mounts.
use msb_manager.Prelude.{
  Text, codes, Bool, true, false, List, [], ◌∷◌, ◌&&◌, not, is_empty, text_eq, text_eq_iff,
  text_eq_refl, Bool-cases, inl, inr, ◌≡◌, refl, ◌↔◌, arith,
}
use msb_manager.Lock.{has_name}
use msb_manager.Msb.Types
use msb_manager.Msb.Types.{volume_names_of}

-- the volume is mounted: there is a mount of the kind "Named" with its name, which is not empty
pub data Mounts (v : Text) : List Types.Mount → Type 0 where
  here :
      (m : Types.Mount) (ms : List Types.Mount)
      → m.kind ≡ codes "Named"
      → m.name ≡ v
      → is_empty v ≡ false
      → Mounts v (m ∷ ms)
  there : (m : Types.Mount) {ms : List Types.Mount} → Mounts v ms → Mounts v (m ∷ ms)

-- the list has exactly the volumes that are mounted
abbrev pub IsMountedBy : List Types.Mount → List Text → Type 0
IsMountedBy ms vs = (v : Text) → (has_name v vs ≡ true) ↔ Mounts v ms

abbrev is_volume : (m : Types.Mount) → Bool
is_volume m = text_eq m.kind (codes "Named") && not (is_empty m.name)

volume_names-Mounts :
    (v : Text) (ms : List Types.Mount) → has_name v (volume_names_of ms) ≡ true → Mounts v ms
unfolding volume_names_of
volume_names-Mounts v [] h = absurd (cc h)
volume_names-Mounts v (m ∷ ms) h = elim (Bool-cases (text_eq m.kind (codes "Named"))) [
  | inr k ↦ there m (volume_names-Mounts v ms (rw k at h))
  | inl k ↦ elim (Bool-cases (is_empty m.name)) [
    | inl e ↦ there m (volume_names-Mounts v ms (rw (k, e) at h))
    | inr e ↦ elim (Bool-cases (text_eq m.name v)) [
      | inr n ↦ there m (volume_names-Mounts v ms (rw (k, e, n) at h))
      | inl n ↦
          let same = (text_eq_iff m.name v).0 n in
          here m ms ((text_eq_iff m.kind (codes "Named")).0 k) same (rw same at e)
    ]
  ]
]

Mounts-volume_names :
    (v : Text) (ms : List Types.Mount) → Mounts v ms → has_name v (volume_names_of ms) ≡ true
unfolding volume_names_of
Mounts-volume_names v [] h = elim h [ ]
Mounts-volume_names v (m ∷ ms) (here _ _ k n e) =
    rw (k, n, text_eq_refl (codes "Named"), e, text_eq_refl v) refl
Mounts-volume_names v (m ∷ ms) (there _ h) = elim (Bool-cases (is_volume m)) [
  | inl b ↦ ground (arith, Mounts-volume_names v ms h)
  | inr b ↦ ground (arith, Mounts-volume_names v ms h)
]

pub volume_names-IsMountedBy : (ms : List Types.Mount) → IsMountedBy ms (volume_names_of ms)
volume_names-IsMountedBy ms v = (volume_names-Mounts v ms, Mounts-volume_names v ms)
