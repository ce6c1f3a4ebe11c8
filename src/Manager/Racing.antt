-- ===== src/Manager/Racing.antt =====
-- handlers of internal/server that run at the same time on the small machine: two creates that want
-- one volume, and a stop with a start of the same sandbox.
use msb_manager.Prelude.{
  ℕ, Text, codes, text_eq, text_eq_iff, lookup, insert, true, [], ◌∷◌, ◌≡◌, ◌≢◌, refl, ◌==◌,
  Bool-cases, inl, inr,
}
use msb_manager.Server.{State}
use msb_manager.Server.Safety.Serving.{IsExclusive}
use msb_manager.Lock.{acquire_many, find_conflict, claim_all, release, has_name}
use msb_manager.Msb.Types.{volume_names, volume_names_of}
use msb_manager.Server.Interleaving.{
  Point, idle, finding, done, advance, start, stop, System, update, Unused, take, go, Reach, here,
  next, begin, after_end,
}
use msb_manager.Server.Interleaving.Exclusion.{in_flight-IsExclusive}
use msb_manager.Manager.Machine
use msb_manager.Manager.Machine.{Machine, machine, machine_view, named, up, halt, without}
use msb_manager.Manager.Machine.Laws.{machine_laws, machine_mounts}
use msb_manager.Manager.Scenario.{decode_spec, busy}
use msb_manager.Manager.Safety.{started}
use msb_manager.Server.Safety.{Covers}
use msb_manager.Server.{check_path_name, conflict, of_busy}
use msb_manager.Msb.Validate.{valid_name}

abbrev resting : State Machine → System Machine ℕ
resting st = record { state = st; at = λ _. idle }

abbrev Racing : State Machine → Type 0
Racing st =
    (t : System Machine ℕ) × Reach machine_view (machine {F = ℕ}) decode_spec Unused (resting st) t

-- two sandboxes that do not run, with one volume
abbrev stopped_machine : Machine
stopped_machine = record { names = []; mounts = λ n. named (codes "data") ∷ [] }

abbrev resting_server : State Machine
resting_server = started [] stopped_machine

resting-Covers : Covers machine_view resting_server
resting-Covers = record { distinct = tt; claimed = λ n v up on. absurd (cc up) }

begin_start :
    (name : Text) → valid_name name ≡ true → begin {F = ℕ} decode_spec (start name) ≡ finding name
unfolding begin check_path_name
begin_start name h = rw h refl

abbrev finding_a : System Machine ℕ
finding_a = record {
  state = resting_server;
  at = update (λ _. idle) 0 (begin decode_spec (start (codes "a")));
}

begin_a : begin {F = ℕ} decode_spec (start (codes "a")) ≡ finding (codes "a")
unfolding valid_name
begin_a = begin_start (codes "a") refl

begin_b : begin {F = ℕ} decode_spec (start (codes "b")) ≡ finding (codes "b")
unfolding valid_name
begin_b = begin_start (codes "b") refl

first-Unused : (p : Point ℕ) → Unused (resting resting_server) p
first-Unused p j n a b = cc b

a_ne_b : codes "a" ≢ codes "b"
unfolding text_eq
a_ne_b h = cc ((text_eq_iff (codes "a") (codes "b")).1 h)

second-Unused : Unused finding_a (begin decode_spec (start (codes "b")))
second-Unused j n a b = elim (Bool-cases (j == 0)) [
  | inl e ↦ a_ne_b (cc (rw begin_b at a, rw begin_a at (rw e at b)))
  | inr e ↦ absurd (cc (rw e at b))
]

abbrev two_starts : Racing resting_server
two_starts = (
  _,
  next
      (next
        (next
          (next
            (next
              (next (next here (take 0 (start (codes "a")) refl (first-Unused _)))
                (take 1 (start (codes "b")) refl second-Unused))
              (go 0))
            (go 1))
          (go 0))
        (go 1))
      (go 0),
)

in_flight-IsExclusive_example : IsExclusive machine_view two_starts.0.state.world
in_flight-IsExclusive_example =
    in_flight-IsExclusive machine_view machine machine_laws machine_mounts decode_spec
      resting_server two_starts.0 resting-Covers two_starts.1

-- the second start meets the claim of the first
two_starts_result :
    (two_starts.0.state.world.names ≡ codes "a" ∷ [])
    × (two_starts.0.at 1
        ≡ done (conflict (of_busy (record { volume = codes "data"; holder = codes "a" }))))
unfolding begin check_path_name valid_name advance machine Machine.start acquire_many find_conflict
    claim_all text_eq lookup insert volume_names volume_names_of
two_starts_result = (refl, refl)

-- Without the policy that no two requests in flight act on one sandbox, the promise fails: a start that
-- comes between the stop of the sandbox and the release of its claims leaves it running with its
-- volume unclaimed, and another sandbox can mount it.
abbrev AnyRequest : System Machine ℕ → Point ℕ → Type 0
AnyRequest s p = Unit

abbrev Reaches : System Machine ℕ → System Machine ℕ → Type 0
Reaches = Reach machine_view (machine {F = ℕ}) decode_spec AnyRequest

abbrev goes : {s t : System Machine ℕ} → ℕ → Reaches s t → (u : System Machine ℕ) × Reaches s u
goes i r = (_, next r (go i))

abbrev stop_and_start : (t : System Machine ℕ) × Reaches (resting busy) t
stop_and_start =
    let r1 = goes 0 (next here (take 0 (stop (codes "a")) refl tt)) in
    let r2 = goes 1 (next r1.1 (take 1 (start (codes "a")) refl tt)) in
    let r3 = goes 1 r2.1 in
    let r4 = goes 1 r3.1 in
    let r5 = goes 0 r4.1 in
    let r6 = goes 2 (next r5.1 (take 2 (start (codes "b")) refl tt)) in
    let r7 = goes 2 r6.1 in goes 2 r7.1

both_run :
    (up stop_and_start.0.state.world (codes "a") ≡ true)
    × (up stop_and_start.0.state.world (codes "b") ≡ true)
    × (machine_view.volumes_of stop_and_start.0.state.world (codes "a") ≡ codes "data" ∷ [])
    × (machine_view.volumes_of stop_and_start.0.state.world (codes "b") ≡ codes "data" ∷ [])
unfolding begin check_path_name valid_name advance machine Machine.start halt without acquire_many
    find_conflict claim_all text_eq lookup insert release volume_names volume_names_of after_end
both_run = (refl, refl, refl, refl)

has_data : has_name (codes "data") (codes "data" ∷ []) ≡ true
unfolding text_eq
has_data = refl

stop_and_start_shares : ¬ (IsExclusive machine_view stop_and_start.0.state.world)
unfolding IsExclusive
stop_and_start_shares h = a_ne_b (
    h (codes "a") (codes "b") (codes "data") both_run.0 both_run.1 (rw both_run.2 has_data)
      (rw both_run.3 has_data))
