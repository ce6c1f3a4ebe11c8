-- ===== src/Server/Safety/Reads.antt =====
-- internal/server: the handlers that start and stop nothing keep every claim covered.
use msb_manager.Prelude.{
  Text, codes, Option, List, Result, Result-cases, Option-cases, Bool-cases, inl, inr, ℕ,
}
use msb_manager.Lock.{holder}
use msb_manager.Msb.Errors.{Error}
use msb_manager.Server.{
  answer, answer-state, ReadinessCache, MsbClient, State, Response, read_body, check_path_name,
}
use msb_manager.Server.Sandboxes.{handle_list_sandboxes, handle_inspect_sandbox, inspected}
use msb_manager.Server.Volumes.{
  handle_list_volumes, remove_volume, delete_unheld, handle_delete_volume,
}
use msb_manager.Server.Snapshots
use msb_manager.Server.Snapshots.{
  SnapshotRequest, handle_list_snapshots, create_checked, create_read, handle_create_snapshot,
  remove_snapshot, handle_delete_snapshot,
}
use msb_manager.Server.Exec.{run_command, command_read, validate_command, handle_exec_sandbox}
use msb_manager.Server.Observability.{
  LogsQuery, check_query, read_logs, handle_logs, read_metrics, handle_metrics,
}
use msb_manager.Server.Readiness.{handle_readyz, is_fresh}
use msb_manager.Server.Safety.{View, Same, Covers, Covers-Same, MsbLaws, or_respond-keeps}

module _ {W F : Type 0} (view : View W) (client : MsbClient W F) (laws : MsbLaws view client) where
  pub answered {ℓ} :
      {A : Type ℓ} (op : Text) (r : Result Error A) (f : A → Response F) (st : State W) (w : W)
      → Same view st.world w
      → Covers view st
      → Covers view (answer op r f (record st { world = w })).1
  answered op r f st w same c =
      rw (answer-state op r f (record st { world = w })) (Covers-Same view st w same c)

  pub list_sandboxes-Covers :
      (st : State W) → Covers view st → Covers view (handle_list_sandboxes client st).1
  unfolding handle_list_sandboxes
  list_sandboxes-Covers st c = answered _ _ _ st _ (laws.list st.world) c

  pub inspect-Covers :
      (name : Text) (st : State W)
      → Covers view st
      → Covers view (handle_inspect_sandbox client name st).1
  unfolding handle_inspect_sandbox inspected
  inspect-Covers name st c =
      or_respond-keeps (Covers view) (check_path_name name) st (λ _. inspected client name) c
        (λ _. answered _ _ _ st _ (laws.inspect name st.world) c)

  pub list_volumes-Covers :
      (st : State W) → Covers view st → Covers view (handle_list_volumes client st).1
  unfolding handle_list_volumes
  list_volumes-Covers st c = answered _ _ _ st _ (laws.volume_list st.world) c

  pub list_snapshots-Covers :
      (st : State W) → Covers view st → Covers view (handle_list_snapshots client st).1
  unfolding handle_list_snapshots
  list_snapshots-Covers st c = answered _ _ _ st _ (laws.snapshot_list st.world) c

  pub delete_snapshot-Covers :
      (name : Text) (st : State W)
      → Covers view st
      → Covers view (handle_delete_snapshot client name st).1
  unfolding handle_delete_snapshot remove_snapshot
  delete_snapshot-Covers name st c =
      or_respond-keeps (Covers view) (check_path_name name) st (λ _. remove_snapshot client name) c
        (λ _. answered _ _ _ st _ (laws.snapshot_rm name st.world) c)

  snapshot_read-Covers :
      (decode : Text → Result Text SnapshotRequest) (body : Text) (st : State W)
      → Covers view st
      → Covers view (Snapshots.create_read client decode body st).1
  unfolding Snapshots.create_read create_checked
  snapshot_read-Covers decode body st c = elim (Result-cases (decode body)) [
    | inr (m, e) ↦ rw (e, Snapshots.create_read) c
    | inl (q, e) ↦
        rw (e, Snapshots.create_read)
          (or_respond-keeps (Covers view) (Snapshots.check_request client q) st _ c (λ _.
            answered _ _ _ st _ (laws.snapshot_create q.from q.name q.labels q.force st.world) c))
  ]

  pub create_snapshot-Covers :
      (decode : Text → Result Text SnapshotRequest) (body : Option Text) (st : State W)
      → Covers view st
      → Covers view (handle_create_snapshot client decode body st).1
  unfolding handle_create_snapshot
  create_snapshot-Covers decode body st c =
      or_respond-keeps (Covers view) (read_body (codes "body too large") body) st
        (Snapshots.create_read client decode) c (λ b. snapshot_read-Covers decode b st c)

  command_read-Covers :
      (decode : Text → Result Text (List Text)) (name body : Text) (st : State W)
      → Covers view st
      → Covers view (command_read client decode name body st).1
  unfolding command_read run_command
  command_read-Covers decode name body st c = elim (Result-cases (decode body)) [
    | inr (m, e) ↦ rw (e, command_read) c
    | inl (argv, e) ↦
        rw (e, command_read)
          (elim (Result-cases (validate_command argv)) [
            | inr (m, v) ↦ rw (v, command_read) c
            | inl (t, v) ↦
                rw (v, command_read) (answered _ _ _ st _ (laws.exec name argv st.world) c)
          ])
  ]

  pub exec-Covers :
      (decode : Text → Result Text (List Text)) (name : Text) (body : Option Text) (st : State W)
      → Covers view st
      → Covers view (handle_exec_sandbox client decode name body st).1
  unfolding handle_exec_sandbox
  exec-Covers decode name body st c =
      or_respond-keeps (Covers view) (check_path_name name) st _ c (λ _.
        or_respond-keeps (Covers view) (read_body (codes "exec request too large") body) st
          (command_read client decode name) c (λ b. command_read-Covers decode name b st c))

  pub logs-Covers :
      (name : Text) (q : LogsQuery) (st : State W)
      → Covers view st
      → Covers view (handle_logs client name q st).1
  unfolding handle_logs read_logs
  logs-Covers name q st c = or_respond-keeps (Covers view) (check_path_name name) st _ c (λ _.
      or_respond-keeps (Covers view) (check_query q) st (read_logs client name) c
        (λ o. answered _ _ _ st _ (laws.logs name o st.world) c))

  pub metrics-Covers :
      (name : Text) (st : State W) → Covers view st → Covers view (handle_metrics client name st).1
  unfolding handle_metrics read_metrics
  metrics-Covers name st c =
      or_respond-keeps (Covers view) (check_path_name name) st (λ _. read_metrics client name) c
        (λ _. answered _ _ _ st _ (laws.metrics name st.world) c)

  pub delete_volume-Covers :
      (name : Text) (st : State W)
      → Covers view st
      → Covers view (handle_delete_volume client name st).1
  unfolding handle_delete_volume delete_unheld remove_volume
  delete_volume-Covers name st c =
      or_respond-keeps (Covers view) (check_path_name name) st (λ _. delete_unheld client name) c
        (λ _. elim (Option-cases (holder name st.held)) [
          | inl e ↦ rw (e, delete_unheld) (answered _ _ _ st _ (laws.volume_rm name st.world) c)
          | inr (h, e) ↦ rw (e, delete_unheld) c
        ])

  pub readyz-Covers :
      (now later : ℕ) (st : State W)
      → Covers view st
      → Covers view (handle_readyz client now later st).1
  unfolding handle_readyz
  readyz-Covers now later st c = elim (Bool-cases (is_fresh st.readiness now)) [
    | inl e ↦ rw e c
    | inr e ↦ rw e (moved (Covers-Same view st _ (laws.list st.world) c))
  ]
    where
      moved :
          {r : ReadinessCache} {w : W}
          → Covers view (record st { world = w })
          → Covers view (record st { world = w; readiness = r })
      moved k = record { distinct = k.distinct; claimed = k.claimed }
