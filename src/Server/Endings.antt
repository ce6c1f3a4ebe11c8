-- ===== src/Server/Endings.antt =====
-- internal/server/sandboxes.go and volumes.go: stopping and removing sandboxes, and removing the
-- volume of one that runs.
use msb_manager.Prelude.{
  ℕ, Text, codes, Bool, true, ◌&&◌, none, Result, ok, err, Bool-cases, inl, inr, ◌≡◌, refl, lookup,
  Distinct, if◌then◌else◌,
}
use msb_manager.Lock.{has_name, holder}
use msb_manager.Lock.Laws.{lookup-release, owns}
use msb_manager.Msb.Errors.{Error, sandbox_not_found, is_error}
use msb_manager.Msb.Validate.{valid_name}
use msb_manager.Server.{
  MsbClient, Response, State, check_path_name, adapter_error, status_for_adapter_error, conflict,
  volume_in_use,
}
use msb_manager.Server.Sandboxes.{
  ended, stopped, handle_stop_sandbox, removed, handle_delete_sandbox,
}
use msb_manager.Server.Volumes.{delete_unheld, handle_delete_volume}
use msb_manager.Server.Safety.{View, Covers}

-- does the result say that no such sandbox runs any more?
abbrev pub is_gone : Result Error (Unit {0}) → Bool
is_gone (ok _) = true
is_gone (err e) = is_error e sandbox_not_found

-- the status of the response to it
abbrev pub end_status : Text → Result Error (Unit {0}) → ℕ
end_status op (ok _) = 204
end_status op (err e) = (status_for_adapter_error op e).0

-- what a stop or a delete has done, by the result of msb
pub record IsEnded {W F : Type 0} (op name : Text) (r : Result Error (Unit {0})) (st : State W)
    (p : Response F × State W) : Type 0 where
  pub status : p.0.status ≡ end_status op r
  pub claims :
      (j : Text)
      → lookup j p.1.held
        ≡ (if is_gone r && owns name (lookup j st.held) then none else lookup j st.held)

module _ {W F : Type 0} (client : MsbClient W F) where
  ended-IsEnded :
      (op name : Text) (r : Result Error (Unit {0})) (st : State W) (w : W)
      → Distinct st.held
      → IsEnded op name r st (ended client op name r (record st { world = w }))
  unfolding ended adapter_error
  ended-IsEnded op name (ok _) st w d = record {
    status = refl;
    claims = λ j. lookup-release name st.held j d;
  }
  ended-IsEnded op name (err e) st w d = record {
    status = refl;
    claims = λ j. elim (Bool-cases (is_error e sandbox_not_found)) [
      | inl g ↦ rw g (lookup-release name st.held j d)
      | inr g ↦ rw g refl
    ];
  }

  -- Stopping a sandbox with a valid name frees exactly the volumes that it held when msb stopped it
  -- or does not know it, and no volume when msb failed otherwise; the status is 204 or the one of
  -- msb's error.
  pub stop_sandbox_lem :
      (name : Text) (st : State W)
      → valid_name name ≡ true
      → Distinct st.held
      → IsEnded
          (codes "stop sandbox")
          name
          (client.stop name st.world).0
          st
          (handle_stop_sandbox client name st)
  unfolding handle_stop_sandbox check_path_name stopped
  stop_sandbox_lem name st v d = rw v (ended-IsEnded _ name (client.stop name st.world).0 st _ d)

  -- Removing a sandbox with a valid name frees exactly the volumes that it held when msb removed it
  -- or does not know it, and no volume when msb failed otherwise, as while the sandbox still runs.
  pub delete_sandbox_lem :
      (name : Text) (st : State W)
      → valid_name name ≡ true
      → Distinct st.held
      → IsEnded
          (codes "remove sandbox")
          name
          (client.rm name st.world).0
          st
          (handle_delete_sandbox client name st)
  unfolding handle_delete_sandbox check_path_name removed
  delete_sandbox_lem name st v d = rw v (ended-IsEnded _ name (client.rm name st.world).0 st _ d)

  -- A request to remove a volume that a running sandbox mounts is refused with a message that names
  -- the sandbox, and nothing has changed, msb's machine included, when every claim is covered.
  pub delete_mounted_volume :
      (view : View W) (v n : Text) (st : State W)
      → Covers view st
      → valid_name v ≡ true
      → view.running st.world n ≡ true
      → has_name v (view.volumes_of st.world n) ≡ true
      → handle_delete_volume client v st ≡ (conflict (volume_in_use v n), st)
  unfolding handle_delete_volume check_path_name delete_unheld holder
  delete_mounted_volume view v n st c valid up on =
      rw (valid, (c.claimed n v up on), delete_unheld) refl
