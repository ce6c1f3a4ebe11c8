-- ===== src/Server/Snapshots.antt =====
-- internal/server/snapshots.go: the snapshot handlers.
use msb_manager.Prelude.{
  Text, codes, Bool, not, ◌||◌, Option, [], ◌∷◌, all, Map, keys, Result, ok, err, ◌>>◌, reject_if,
  is_empty,
}
use msb_manager.Msb.Validate.{valid_name}
use msb_manager.Api.{new_snapshots}
use msb_manager.Server.{
  MsbClient, Response, State, text, fields, snapshots, bad_request, no_content, answer, read_body,
  check_path_name, or_respond,
}

-- snapshotRequest
pub record SnapshotRequest : Type 0 where
  pub from : Text
  pub name : Text
  pub labels : Map Text
  pub force : Bool

module _ {W F : Type 0} (client : MsbClient W F) where
  -- handleListSnapshots
  unfoldable pub handle_list_snapshots : State W → Response F × State W
  handle_list_snapshots st =
      let (r, w) = client.snapshot_list st.world in
      answer (codes "list snapshots") r
        (λ l. record { status = 200; body = snapshots (new_snapshots l) }) (record st { world = w })

  -- the tests of handleCreateSnapshot
  unfoldable pub check_request : SnapshotRequest → Result (Response F) (Unit {0})
  check_request req = do
    reject_if (is_empty req.from || is_empty req.name)
        (bad_request (text (codes "from and name are required")))
    reject_if (not (valid_name req.from)) (bad_request (text (codes "invalid from")))
    reject_if (not (valid_name req.name)) (bad_request (text (codes "invalid name")))
    reject_if (not (all valid_name (keys req.labels)))
        (bad_request (text (codes "invalid label key")))

  unfoldable pub create_checked : SnapshotRequest → State W → Response F × State W
  create_checked req st =
      let (r, w) = client.snapshot_create req.from req.name req.labels req.force st.world in
      answer (codes "create snapshot") r
        (λ _. record {
          status = 201;
          body = fields ((codes "name", req.name) ∷ (codes "from", req.from) ∷ []);
        })
        (record st { world = w })

  unfoldable pub create_read :
      (Text → Result Text SnapshotRequest) → Text → State W → Response F × State W
  unfolding create_checked check_request
  create_read decode body st = elim (decode body) [
    | err m ↦ (bad_request (text m), st)
    | ok req ↦ or_respond (check_request req) st (λ _. create_checked req)
  ]

  -- handleCreateSnapshot
  unfoldable pub handle_create_snapshot :
      (Text → Result Text SnapshotRequest) → Option Text → State W → Response F × State W
  unfolding read_body create_read
  handle_create_snapshot decode body st =
      or_respond (read_body (codes "body too large") body) st (create_read decode)

  unfoldable pub remove_snapshot : Text → State W → Response F × State W
  remove_snapshot name st =
      let (r, w) = client.snapshot_rm name st.world in
      answer (codes "remove snapshot") r (λ _. no_content) (record st { world = w })

  -- handleDeleteSnapshot
  unfoldable pub handle_delete_snapshot : Text → State W → Response F × State W
  unfolding check_path_name remove_snapshot
  handle_delete_snapshot name st = or_respond (check_path_name name) st (λ _. remove_snapshot name)
