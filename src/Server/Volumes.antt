-- ===== src/Server/Volumes.antt =====
-- internal/server/volumes.go: the volume handlers.
pub mod Batching
use msb_manager.Prelude.{
  ℕ, suc, Text, codes, Bool, true, false, not, ◌||◌, Option, none, some, List, [], ◌∷◌, ◌++◌,
  if◌then◌else◌, ℤ, int_eq, Map, lookup, insert, Result, ok, err, ◌>>=◌, ◌>>◌, reject_if, is_empty,
}
use msb_manager.Lock.{holder}
use msb_manager.Msb.Errors.{Error}
use msb_manager.Msb.Types
use msb_manager.Msb.Size.{SizeError, parse_size_mib}
use msb_manager.Msb.Validate.{valid_name, valid_size}
use msb_manager.Api.{VolumeStatus, created, exists, error, new_volumes}
use msb_manager.Server.{
  MsbClient, Response, State, Message, text, volume_in_use, of_manifest, ManifestError, no_volumes,
  item_incomplete, item_bad_name, item_bad_size, ItemError, no_error, bad_size, size_differs,
  adapter, VolumeResult, fields, volumes, batch, bad_request, conflict, no_content,
  status_for_adapter_error, answer, adapter_error, read_body, check_path_name, or_respond,
}

-- volumeRequest
pub record VolumeRequest : Type 0 where
  pub name : Text
  pub size : Text

-- what yaml.v3 makes of a body at the types that the handler decodes into
pub record VolumeYaml : Type 0 where
  -- the tolerant probe: is there a `volumes` key?
  pub probe : Text → Result Text Bool
  pub manifest : Text → Result Text (List VolumeRequest)
  pub request : Text → Result Text VolumeRequest

-- the loop of volumeManifest.validate
unfoldable pub validate_items : ℕ → List VolumeRequest → Result ManifestError (Unit {0})
validate_items i [] = ok tt
validate_items i (v ∷ vs) = do
  reject_if (is_empty v.name || is_empty v.size) (item_incomplete i)
  reject_if (not (valid_name v.name)) (item_bad_name i)
  reject_if (not (valid_size v.size)) (item_bad_size i)
  validate_items (suc i) vs

abbrev no_items : List VolumeRequest → Bool
no_items [] = true
no_items (v ∷ vs) = false

-- volumeManifest.validate
unfoldable pub validate_manifest : List VolumeRequest → Result ManifestError (Unit {0})
validate_manifest vs = do reject_if (no_items vs) no_volumes; validate_items 0 vs

-- existing[v.Name] = v.QuotaMiB
unfoldable pub index_volumes : List Types.Volume → Map ℤ → Map ℤ
index_volumes [] existing = existing
index_volumes (v ∷ vs) existing = index_volumes vs (insert v.name v.quota_mib existing)

abbrev planned : VolumeRequest → VolumeStatus → ItemError → VolumeResult
planned v status problem = record {
  name = v.name;
  size = v.size;
  status = status;
  problem = problem;
}

abbrev compared : VolumeRequest → ℤ → Option ℤ → VolumeResult
compared v want none = planned v created no_error
compared v want (some have) =
    if int_eq have want then planned v exists no_error else planned v error (size_differs have want)

abbrev plan_sized : VolumeRequest → Map ℤ → Result SizeError ℤ → VolumeResult
plan_sized v existing (err e) = planned v error (bad_size e)
plan_sized v existing (ok want) = compared v want (lookup v.name existing)

-- one round of planVolumeBatch
unfoldable pub plan_one : Map ℤ → VolumeRequest → VolumeResult
plan_one existing v = plan_sized v existing (parse_size_mib v.size)

-- planVolumeBatch
unfoldable pub plan_volume_batch : List VolumeRequest → Map ℤ → List VolumeResult
plan_volume_batch [] existing = []
plan_volume_batch (v ∷ vs) existing = plan_one existing v ∷ plan_volume_batch vs existing

abbrev pub is_created : VolumeStatus → Bool
is_created created = true
is_created _ = false

abbrev pub is_failed : VolumeStatus → Bool
is_failed error = true
is_failed _ = false

-- is any result an error?
unfoldable pub any_failed : List VolumeResult → Bool
any_failed [] = false
any_failed (r ∷ rs) = is_failed r.status || any_failed rs

module _ {W F : Type 0} (client : MsbClient W F) where
  -- handleListVolumes
  unfoldable pub handle_list_volumes : State W → Response F × State W
  handle_list_volumes st =
      let (r, w) = client.volume_list st.world in
      answer (codes "list volumes") r (λ l. record { status = 200; body = volumes (new_volumes l) })
        (record st { world = w })

  -- one round of the second phase of handleCreateVolumeBatch
  unfoldable pub execute_one : VolumeResult → W → VolumeResult × W
  unfolding status_for_adapter_error
  execute_one r w =
      let (made, w') = client.volume_create r.name r.size w in
      if is_created r.status
      then (elim made [
        | ok _ ↦ (r, w')
        | err e ↦ (
          record r {
            status = error;
            problem = adapter (status_for_adapter_error (codes "create volume") e).1;
          },
          w',
        )
      ])
      else (r, w)

  unfoldable pub execute_batch : List VolumeResult → W → List VolumeResult × W
  execute_batch [] w = ([], w)
  execute_batch (r ∷ rs) w =
      let (r', w') = execute_one r w in let (rs', w'') = execute_batch rs w' in (r' ∷ rs', w'')

  -- handleCreateVolumeBatch once the manifest is valid
  unfoldable pub run_batch : List VolumeRequest → State W → Response F × State W
  run_batch vs st =
      let (r, w) = client.volume_list st.world in
      elim r [
        | err e ↦ (adapter_error (codes "list volumes") e, record st { world = w })
        | ok l ↦
            let (results, w') = execute_batch (plan_volume_batch vs (index_volumes l [])) w in
            (
              record { status = if any_failed results then 207 else 201; body = batch results },
              record st { world = w' },
            )
      ]

  -- handleCreateVolumeBatch
  unfoldable pub handle_create_volume_batch : VolumeYaml → Text → State W → Response F × State W
  handle_create_volume_batch yaml body st = elim (yaml.manifest body) [
    | err m ↦ (bad_request (text (codes "parse volume manifest: " ++ m)), st)
    | ok vs ↦ elim (validate_manifest vs) [
      | err e ↦ (bad_request (of_manifest e), st)
      | ok _ ↦ run_batch vs st
    ]
  ]

  -- the tests of a single request
  unfoldable pub check_request : VolumeRequest → Result (Response F) (Unit {0})
  check_request req = do
    reject_if (is_empty req.name || is_empty req.size)
        (bad_request (text (codes "name and size are required")))
    reject_if (not (valid_name req.name)) (bad_request (text (codes "invalid volume name")))
    reject_if (not (valid_size req.size)) (bad_request (text (codes "invalid volume size")))

  unfoldable pub create_one : VolumeRequest → State W → Response F × State W
  create_one req st =
      let (r, w) = client.volume_create req.name req.size st.world in
      answer (codes "create volume") r
        (λ _. record {
          status = 201;
          body = fields ((codes "name", req.name) ∷ (codes "size", req.size) ∷ []);
        })
        (record st { world = w })

  unfoldable pub create_single : VolumeYaml → Text → State W → Response F × State W
  unfolding create_one check_request
  create_single yaml body st = elim (yaml.request body) [
    | err m ↦ (bad_request (text m), st)
    | ok req ↦ or_respond (check_request req) st (λ _. create_one req)
  ]

  unfoldable pub volume_body : VolumeYaml → Text → State W → Response F × State W
  unfolding create_single
  volume_body yaml body st = elim (yaml.probe body) [
    | err m ↦ (bad_request (text m), st)
    | ok has_list ↦
        if has_list then handle_create_volume_batch yaml body st else create_single yaml body st
  ]

  -- handleCreateVolume
  unfoldable pub handle_create_volume : VolumeYaml → Option Text → State W → Response F × State W
  unfolding read_body volume_body
  handle_create_volume yaml body st =
      or_respond (read_body (codes "body too large") body) st (volume_body yaml)

  unfoldable pub remove_volume : Text → State W → Response F × State W
  remove_volume name st =
      let (r, w) = client.volume_rm name st.world in
      answer (codes "remove volume") r (λ _. no_content) (record st { world = w })

  unfoldable pub delete_unheld : Text → State W → Response F × State W
  unfolding remove_volume
  delete_unheld name st = elim (holder name st.held) [
    | some h ↦ (conflict (volume_in_use name h), st)
    | none ↦ remove_volume name st
  ]

  -- handleDeleteVolume
  unfoldable pub handle_delete_volume : Text → State W → Response F × State W
  unfolding check_path_name delete_unheld
  handle_delete_volume name st = or_respond (check_path_name name) st (λ _. delete_unheld name)
