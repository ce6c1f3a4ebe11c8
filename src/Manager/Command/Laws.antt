-- ===== src/Manager/Command/Laws.antt =====
-- the small msb command keeps the laws that internal/msb and internal/server assume of it.
use msb_manager.Prelude.{
  Text, codes, List, Result, ok, err, ltb, length, ◌-◌, is_empty, text_eq, Bool-cases, inl, inr,
  ◌≡◌, ◌⊎◌, refl, sym, ap, ◌∙◌,
}
use mathlib.Core.Path.{subst}
use msb_manager.Msb.Errors.{Error, wrap_run_err}
use msb_manager.Msb.Types
use msb_manager.Msb.Types.{CreateOpts, volume_names, volume_names_of}
use msb_manager.Msb.Runner.{run_child, write, write_all, capture_limit}
use msb_manager.Msb.Args.{build_create_args}
use msb_manager.Msb.Parse.{parse_list, parse_inspect, to_detail}
use msb_manager.Msb.Client
use msb_manager.Msb.Client.{Config, Context, request, detached, run, run_outcome}
use msb_manager.Server.Adapter.{adapter}
use msb_manager.Server.Adapter.Commands
use msb_manager.Server.Adapter.Commands.{CommandLaws, IsRead, on, rollback_args, told}
use msb_manager.Server.Safety.{Same, Booted, Ended}
use msb_manager.Manager.Collecting.{StartupLaws, lists}
use msb_manager.Manager.Machine.{Machine, machine_view, up, start, halt}
use msb_manager.Manager.Machine.Laws.{same, start_boots, start_fails, start_mounts}
use msb_manager.Manager.Command
use msb_manager.Manager.Command.{
  child, silent, failed, replied, makes, creates, target, starts, ends, spawn, json, after_colon,
  before_colon,
}
use msb_manager.Manager.Command.Parsing.{volume_value, volume_in-create}
use msb_manager.Manager.Command.Telling.{decode-encode, lists-rows, volume_names_of-rows}
use msb_manager.Manager.Command.Making.{
  err_neq_ok, replied-machine, halt_err, seen, replied_same, replied_error, replied_ok, ends-Ended,
  makes_fails, makes_boots, makes_mounts,
}

ok_inj {ℓ} : {A : Type ℓ} {x y : A} → ◌≡◌ {A = Result Error A} (ok x) (ok y) → x ≡ y
ok_inj h = cc h

-- a read leaves the state
reads :
    (c : Config) (args : List Text) (w : Machine)
    → IsRead args
    → Same machine_view w (run spawn json c request args w).1
unfolding run run_outcome spawn text_eq
reads c _ w (Commands.ls args) = same w
reads c _ w (Commands.inspects args) = same w
reads c _ w (Commands.execs args) = same w
reads c _ w (Commands.logs args) = same w
reads c _ w (Commands.metrics args) = same w
reads c _ w (Commands.volumes args) = same w
reads c _ w (Commands.snapshots args) = same w

module _ (c : Config) where
  create_outcome :
      (o : CreateOpts) (w : Machine)
      → run spawn json c request (build_create_args o) w ≡ (
        seen c (makes o.name (volume_value o.volume) w).0,
        (makes o.name (volume_value o.volume) w).1,
      )
  unfolding run spawn text_eq build_create_args
  create_outcome o w = elim (Bool-cases (is_empty o.snapshot)) [
    | inl e ↦
        rw (e, build_create_args)
          (ap (λ v. (seen c (makes o.name v w).0, (makes o.name v w).1))
            (rw e at (volume_in-create o)))
    | inr e ↦
        rw (e, build_create_args)
          (ap (λ v. (seen c (makes o.name v w).0, (makes o.name v w).1))
            (rw e at (volume_in-create o)))
  ]

  start_outcome :
      (name : Text) (w : Machine)
      → run spawn json c request (on (codes "start") name) w
        ≡ (seen c (starts name w).0, (starts name w).1)
  unfolding run spawn text_eq target
  start_outcome name w = refl

  end_outcome :
      (verb name : Text) (w : Machine)
      → (verb ≡ codes "stop") ⊎ (verb ≡ codes "rm")
      → run spawn json c request (on verb name) w ≡ (seen c (ends name w).0, (ends name w).1)
  unfolding run spawn text_eq target
  end_outcome verb name w (inl q) = rw q refl
  end_outcome verb name w (inr q) = rw q refl

  rollback_ends :
      (name : Text) (w : Machine)
      → Ended machine_view name w (run spawn json c detached (rollback_args name) w).1
  unfolding run spawn text_eq target
  rollback_ends name w = ends-Ended c name w

  halt_same :
      (name : Text) (w : Machine) (x : Error)
      → (halt name w).0 ≡ err x
      → Same machine_view w (halt name w).1
  halt_same name w x h = subst (Same machine_view w) (sym (halt_err name w x h)) (same w)

  inspect_after : (name : Text) (w : Machine) → (Client.inspect spawn json c name w).1 ≡ w
  unfolding Client.inspect Client.query run spawn text_eq
  inspect_after name w = refl

  inspect_tells :
      (name : Text) (w : Machine) (d : Types.SandboxDetail)
      → (Client.inspect spawn json c name w).0 ≡ ok d
      → volume_names_of (w.mounts name) ≡ volume_names d
  unfolding Client.inspect Client.query run run_outcome run_child write_all write wrap_run_err spawn
      text_eq target parse_inspect to_detail volume_names
  inspect_tells name w d h =
      let out = Command.encode (volume_names_of (w.mounts name)) in
      elim (Bool-cases (ltb (capture_limit c.max_capture_bytes - 0) (length out))) [
        | inl e ↦ elim (Bool-cases (ltb 0 (capture_limit c.max_capture_bytes - 0))) [
          | inl k ↦ absurd (err_neq_ok (rw (e, k, Client.inspect) at h))
          | inr k ↦ absurd (err_neq_ok (rw (e, k, Client.inspect) at h))
        ]
        | inr e ↦
            subst (λ d. volume_names_of (w.mounts name) ≡ volume_names d)
              (ok_inj (rw (e, Client.inspect) at h))
              (rw (decode-encode (volume_names_of (w.mounts name)))
                (sym (volume_names_of-rows (w.mounts name))))
      ]

  list_tells :
      (w : Machine) (n : Text) (l : List Types.Sandbox)
      → (Client.list spawn json c w).0 ≡ ok l
      → up w n ≡ lists n l
  unfolding Client.list Client.query run run_outcome run_child write_all write wrap_run_err spawn
      text_eq parse_list
  list_tells w n l h =
      elim (Bool-cases
        (ltb (capture_limit c.max_capture_bytes - 0) (length (Command.encode w.names)))) [
          | inl e ↦ elim (Bool-cases (ltb 0 (capture_limit c.max_capture_bytes - 0))) [
            | inl k ↦ absurd (err_neq_ok (rw (e, k, Client.list) at h))
            | inr k ↦ absurd (err_neq_ok (rw (e, k, Client.list) at h))
          ]
          | inr e ↦
              subst (λ l. up w n ≡ lists n l) (ok_inj (rw (e, Client.list) at h))
                (rw (decode-encode w.names) (lists-rows n w.names))
        ]

  pub command_laws : CommandLaws machine_view spawn json c
  command_laws = record {
    reads = reads c;
    inspect_tells = λ n w d h. rw (inspect_after n w) (inspect_tells n w d h);
    create_fails = λ o w e h.
        rw (create_outcome o w) (makes_fails c o.name o.volume w e (rw (create_outcome o w) at h));
    create_boots = λ o w h.
        rw (create_outcome o w) (makes_boots c o.name o.volume w (rw (create_outcome o w) at h));
    create_mounts = λ o w h up.
        rw (create_outcome o w) (makes_mounts c o.name o.volume w (rw (create_outcome o w) at h));
    rollback_ends = rollback_ends;
    start_fails = λ n w e h.
        rw (start_outcome n w)
          (replied_same c _ (start n w) w e (λ x. start_fails n w x) (rw (start_outcome n w) at h));
    start_boots = λ n w h. rw (start_outcome n w) (
        replied_ok c _ (start n w) (Booted machine_view n w) (start_boots n w)
          (rw (start_outcome n w) at h));
    start_keeps = λ n w up. rw (start_outcome n w) (
        ap (λ w. volume_names_of (w.mounts n)) (replied-machine _ (start n w))
        ∙ start_mounts n w n);
    ends = λ verb n w q h. rw (end_outcome verb n w q) (ends-Ended c n w);
    end_fails = λ verb n w e q h k.
        rw (end_outcome verb n w q)
          (replied_error c _ (halt n w) w e (halt_same n w) (rw (end_outcome verb n w q) at h));
    end_not_found = λ verb n w e q h k. rw (end_outcome verb n w q) (ends-Ended c n w);
  }

  pub command_startup : StartupLaws machine_view (adapter spawn json c)
  unfolding Client.inspect Client.list Client.query run spawn text_eq
  command_startup = record {
    list_reads = λ w. refl;
    inspect_reads = λ n w. refl;
    list_tells = λ w l n h. list_tells w n l h;
    inspect_tells = inspect_tells;
  }
