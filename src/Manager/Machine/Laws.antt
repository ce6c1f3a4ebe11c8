-- ===== src/Manager/Machine/Laws.antt =====
-- the small machine keeps the laws under which the safety of cmd/msb-manager and internal/server is
-- stated.
use msb_manager.Prelude.{
  Text, codes, true, false, Option, none, some, List, [], ◌∷◌, Result, ok, err, is_empty, text_eq,
  text_eq_refl, text_eq_iff, Bool-cases, inl, inr, ◌≡◌, ◌≢◌, refl, sym, ap, ◌∙◌, arith, map, not,
  ◌&&◌,
}
use msb_manager.Msb.Errors.{Error, sandbox_not_found, is_error}
use msb_manager.Msb.Types
use msb_manager.Msb.Types.{Mount, volume_names_of, volume_names, VolumeMount}
use msb_manager.Lock.{has_name}
use msb_manager.Manager.Collecting.{StartupLaws, lists}
use msb_manager.Server.Safety.{Same, Booted, Ended, MsbLaws, mounted}
use msb_manager.Manager.Machine.{
  Machine, up, without, at_key, machine_view, named, listed, booted, boot, start, halt, machine,
}
use msb_manager.Server.Interleaving.Frames.{MountLaws}

ok_neq_err : {x : Error} → ◌≢◌ {A = Result Error (Unit {0})} (err x) (ok tt)
ok_neq_err h = cc h

pub same : (w : Machine) → Same machine_view w w
same w = record { running = λ n h. h; volumes = λ n h. refl }

at_other {ℓ} : {A : Type ℓ} (k n : Text) (a : A) (f : Text → A) → n ≢ k → at_key k a f n ≡ f n
at_other k n a f ne = elim (Bool-cases (text_eq n k)) [
  | inl e ↦ absurd (ne ((text_eq_iff n k).0 e))
  | inr e ↦ rw e refl
]

up_other : (k n : Text) (ns : List Text) → n ≢ k → has_name n (k ∷ ns) ≡ true → has_name n ns ≡ true
up_other k n ns ne h = elim (Bool-cases (text_eq k n)) [
  | inl e ↦ absurd (ne (sym ((text_eq_iff k n).0 e)))
  | inr e ↦ rw e at h
]

booted-Booted : (n : Text) (ms : List Mount) (w : Machine) → Booted machine_view n w (booted n ms w)
booted-Booted n ms w = record {
  running = λ m ne h. up_other n m w.names ne h;
  volumes = λ m ne h. rw (at_other n m ms w.mounts ne) refl;
}

named_names : (v : Text) → is_empty v ≡ false → volume_names_of (named v ∷ []) ≡ v ∷ []
unfolding volume_names_of
named_names v e = rw (text_eq_refl (codes "Named"), e) refl

pub boot_mounts :
    (n : Text) (v : Option VolumeMount) (w : Machine)
    → (boot n v w).0 ≡ ok tt
    → volume_names_of ((boot n v w).1.mounts n) ≡ mounted v
unfolding boot volume_names_of
boot_mounts n none w h = rw (text_eq_refl n) refl
boot_mounts n (some v) w h = elim (Bool-cases (is_empty v.name)) [
  | inl e ↦ absurd (ok_neq_err (rw (e, boot) at h))
  | inr e ↦ rw (e, boot, text_eq_refl n) (named_names v.name e)
]

pub boot_boots :
    (n : Text) (v : Option VolumeMount) (w : Machine)
    → (boot n v w).0 ≡ ok tt
    → Booted machine_view n w (boot n v w).1
unfolding boot
boot_boots n none w h = booted-Booted n [] w
boot_boots n (some v) w h = elim (Bool-cases (is_empty v.name)) [
  | inl e ↦ absurd (ok_neq_err (rw (e, boot) at h))
  | inr e ↦ rw (e, boot) (booted-Booted n (named v.name ∷ []) w)
]

pub boot_fails :
    (n : Text) (v : Option VolumeMount) (w : Machine) (x : Error)
    → (boot n v w).0 ≡ err x
    → Same machine_view w (boot n v w).1
unfolding boot
boot_fails n none w x h = absurd (ok_neq_err (sym h))
boot_fails n (some v) w x h = elim (Bool-cases (is_empty v.name)) [
  | inl e ↦ rw (e, boot) (same w)
  | inr e ↦ absurd (ok_neq_err (sym (rw (e, boot) at h)))
]

pub start_fails :
    (n : Text) (w : Machine) (x : Error) → (start n w).0 ≡ err x → Same machine_view w (start n w).1
unfolding start
start_fails n w x h = elim (Bool-cases (up w n)) [
  | inl e ↦ rw (e, start) (same w)
  | inr e ↦ absurd (ok_neq_err (sym (rw (e, start) at h)))
]

pub start_boots :
    (n : Text) (w : Machine) → (start n w).0 ≡ ok tt → Booted machine_view n w (start n w).1
unfolding start
start_boots n w h = elim (Bool-cases (up w n)) [
  | inl e ↦ absurd (ok_neq_err (rw (e, start) at h))
  | inr e ↦
      rw (e, start)
        (record { running = λ m ne k. up_other n m w.names ne k; volumes = λ m ne k. refl })
]

pub start_mounts :
    (n : Text) (w : Machine) (m : Text)
    → machine_view.volumes_of (start n w).1 m ≡ machine_view.volumes_of w m
unfolding start
start_mounts n w m = elim (Bool-cases (up w n)) [
  | inl e ↦ rw (e, start) refl
  | inr e ↦ rw (e, start) refl
]

has_name-without :
    (k n : Text) (ns : List Text) → has_name n (without k ns) ≡ (has_name n ns && not (text_eq n k))
unfolding without
has_name-without k n [] = refl
has_name-without k n (m ∷ ns) =
    ground (arith, has_name-without k n ns, text_eq_iff m n, text_eq_iff m k, text_eq_iff n k)

pub halt-Ended : (n : Text) (w : Machine) → Ended machine_view n w (halt n w).1
unfolding halt
halt-Ended n w = elim (Bool-cases (up w n)) [
  | inl e ↦
      rw (e, halt)
        (record {
          down = ground (arith, has_name-without n n w.names, text_eq_refl n);
          running = λ m h. ground (arith, has_name-without n m w.names);
          volumes = λ m h. refl;
        })
  | inr e ↦ rw (e, halt) (record { down = e; running = λ m h. h; volumes = λ m h. refl })
]

halt_fails :
    (n : Text) (w : Machine) (x : Error)
    → (halt n w).0 ≡ err x
    → is_error x sandbox_not_found ≡ false
    → Same machine_view w (halt n w).1
unfolding halt
halt_fails n w x h f = elim (Bool-cases (up w n)) [
  | inl e ↦ absurd (ok_neq_err (sym (rw (e, halt) at h)))
  | inr e ↦ rw (e, halt) (same w)
]

pub machine_laws : {F : Type 0} → MsbLaws machine_view (machine {F = F})
unfolding volume_names machine
machine_laws = record {
  list = same;
  inspect = λ n w. same w;
  inspect_volumes = λ n w d h. cc h;
  create_fails = λ o w x h. boot_fails o.name o.volume w x h;
  create_boots = λ o w h. boot_boots o.name o.volume w h;
  create_mounts = λ o w h up. boot_mounts o.name o.volume w h;
  start_fails = start_fails;
  start_boots = start_boots;
  start_keeps = λ n w up. start_mounts n w n;
  stop_fails = halt_fails;
  stop_not_found = λ n w x h g. halt-Ended n w;
  stop_ends = λ n w h. halt-Ended n w;
  rm_fails = halt_fails;
  rm_not_found = λ n w x h g. halt-Ended n w;
  rm_ends = λ n w h. halt-Ended n w;
  exec = λ n a w. same w;
  logs = λ n o w. same w;
  metrics = λ n w. same w;
  volume_list = same;
  volume_create = λ n s w. same w;
  volume_rm = λ n w. same w;
  snapshot_list = same;
  snapshot_create = λ a b l f w. same w;
  snapshot_rm = λ n w. same w;
}

lists-listed : (n : Text) (ns : List Text) → has_name n ns ≡ lists n (map listed ns)
lists-listed n [] = refl
lists-listed n (m ∷ ns) = rw (lists-listed n ns, text_eq_refl (codes "Running")) refl

list_inj :
    {x y : List Types.Sandbox} → ◌≡◌ {A = Result Error (List Types.Sandbox)} (ok x) (ok y) → x ≡ y
list_inj h = cc h

pub machine_startup : {F : Type 0} → StartupLaws machine_view (machine {F = F})
unfolding volume_names machine
machine_startup = record {
  list_reads = λ w. refl;
  inspect_reads = λ n w. refl;
  list_tells = λ w l n h. lists-listed n w.names ∙ ap (lists n) (list_inj h);
  inspect_tells = λ n w d h. cc h;
}

boot_apart :
    (n : Text) (v : Option VolumeMount) (w : Machine) (m : Text)
    → m ≢ n
    → machine_view.volumes_of (boot n v w).1 m ≡ machine_view.volumes_of w m
unfolding boot
boot_apart n none w m ne = rw (at_other n m [] w.mounts ne) refl
boot_apart n (some v) w m ne = elim (Bool-cases (is_empty v.name)) [
  | inl e ↦ rw (e, boot) refl
  | inr e ↦ rw (e, boot, at_other n m (named v.name ∷ []) w.mounts ne) refl
]

halt_mounts :
    (n : Text) (w : Machine) (m : Text)
    → machine_view.volumes_of (halt n w).1 m ≡ machine_view.volumes_of w m
unfolding halt
halt_mounts n w m = elim (Bool-cases (up w n)) [
  | inl e ↦ rw (e, halt) refl
  | inr e ↦ rw (e, halt) refl
]

pub machine_mounts : {F : Type 0} → MountLaws machine_view (machine {F = F})
unfolding machine
machine_mounts = record {
  inspect = λ n w m. refl;
  create = λ o w m ne. boot_apart o.name o.volume w m ne;
  start = λ n w m ne. start_mounts n w m;
  stop = λ n w m ne. halt_mounts n w m;
  rm = λ n w m ne. halt_mounts n w m;
}
