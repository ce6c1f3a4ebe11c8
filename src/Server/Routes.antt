-- ===== src/Server/Routes.antt =====
-- internal/server/server.go: NewWithLock, the routing of a request. A path comes as its decoded
-- segments; the patterns are those of net/http's ServeMux, where GET also serves HEAD and a wildcard
-- needs a nonempty segment.
use msb_manager.Prelude.{
  ℕ, Text, codes, Bool, true, false, ◌&&◌, Option, none, some, List, [], ◌∷◌, text_eq, is_empty,
  if◌then◌else◌, Result,
}
use msb_manager.Spec.{Spec}
use msb_manager.Server.{MsbClient, Response, State, empty}
use msb_manager.Server.Sandboxes.{
  handle_list_sandboxes, handle_inspect_sandbox, handle_create_sandbox, handle_start_sandbox,
  handle_stop_sandbox, handle_delete_sandbox,
}
use msb_manager.Server.Volumes.{
  VolumeYaml, handle_list_volumes, handle_create_volume, handle_delete_volume,
}
use msb_manager.Server.Snapshots.{
  SnapshotRequest, handle_list_snapshots, handle_create_snapshot, handle_delete_snapshot,
}
use msb_manager.Server.Exec.{handle_exec_sandbox}
use msb_manager.Server.Observability.{LogsQuery, handle_logs, handle_metrics}
use msb_manager.Server.Readiness.{handle_readyz, handle_healthz}
use msb_manager.Server.Auth.{require_bearer}

pub data Method : Type 0 where
  get head post delete_method other_method : Method

pub record Request : Type 0 where
  pub method : Method
  pub path : List Text
  pub authorization : Text
  pub body : Option Text
  pub query : LogsQuery
  -- the clock before and after the handling
  pub now : ℕ
  pub later : ℕ

pub data Endpoint : Type 0 where
  list_sandboxes create_sandbox list_volumes create_volume list_snapshots create_snapshot : Endpoint
  inspect_sandbox delete_sandbox start_sandbox stop_sandbox exec_sandbox : Text → Endpoint
  sandbox_logs sandbox_metrics delete_volume delete_snapshot : Text → Endpoint

-- the paths of the patterns, whatever the method
pub data Resource : Type 0 where
  sandboxes_path volumes_path snapshots_path unknown_path : Resource
  sandbox_path volume_path snapshot_path : Text → Resource
  start_path stop_path exec_path logs_path metrics_path : Text → Resource

abbrev collection : Text → Resource
collection s =
    if text_eq s (codes "sandboxes")
    then sandboxes_path
    else if text_eq s (codes "volumes")
    then volumes_path
    else if text_eq s (codes "snapshots")
    then snapshots_path
    else unknown_path

abbrev item : Text → Text → Resource
item s name =
    if is_empty name
    then unknown_path
    else if text_eq s (codes "sandboxes")
    then sandbox_path name
    else if text_eq s (codes "volumes")
    then volume_path name
    else if text_eq s (codes "snapshots")
    then snapshot_path name
    else unknown_path

abbrev action : Text → Text → Resource
action name verb =
    if is_empty name
    then unknown_path
    else if text_eq verb (codes "start")
    then start_path name
    else if text_eq verb (codes "stop")
    then stop_path name
    else if text_eq verb (codes "exec")
    then exec_path name
    else if text_eq verb (codes "logs")
    then logs_path name
    else if text_eq verb (codes "metrics")
    then metrics_path name
    else unknown_path

unfoldable pub resource : List Text → Resource
resource (s ∷ []) = collection s
resource (s ∷ name ∷ []) = item s name
resource (s ∷ name ∷ verb ∷ []) =
    if text_eq s (codes "sandboxes") then action name verb else unknown_path
resource _ = unknown_path

-- the patterns of the protected mux
unfoldable pub endpoint : Resource → Method → Option Endpoint
endpoint sandboxes_path get = some list_sandboxes
endpoint sandboxes_path head = some list_sandboxes
endpoint sandboxes_path post = some create_sandbox
endpoint (sandbox_path name) get = some (inspect_sandbox name)
endpoint (sandbox_path name) head = some (inspect_sandbox name)
endpoint (sandbox_path name) delete_method = some (delete_sandbox name)
endpoint (start_path name) post = some (start_sandbox name)
endpoint (stop_path name) post = some (stop_sandbox name)
endpoint (exec_path name) post = some (exec_sandbox name)
endpoint (logs_path name) get = some (sandbox_logs name)
endpoint (logs_path name) head = some (sandbox_logs name)
endpoint (metrics_path name) get = some (sandbox_metrics name)
endpoint (metrics_path name) head = some (sandbox_metrics name)
endpoint volumes_path get = some list_volumes
endpoint volumes_path head = some list_volumes
endpoint volumes_path post = some create_volume
endpoint (volume_path name) delete_method = some (delete_volume name)
endpoint snapshots_path get = some list_snapshots
endpoint snapshots_path head = some list_snapshots
endpoint snapshots_path post = some create_snapshot
endpoint (snapshot_path name) delete_method = some (delete_snapshot name)
endpoint _ _ = none

abbrev is_unknown : Resource → Bool
is_unknown unknown_path = true
is_unknown _ = false

-- no pattern has the path, or none of those that have it has the method
abbrev unrouted : {F : Type 0} → Resource → Response F
unrouted r = record { status = if is_unknown r then 404 else 405; body = empty }

-- yaml.v3's decoders at the types that the handlers decode into
pub record Yaml : Type 0 where
  pub spec : Text → Result Text Spec
  pub volume : VolumeYaml
  pub snapshot : Text → Result Text SnapshotRequest
  pub exec : Text → Result Text (List Text)

abbrev is_probe : Method → Bool
is_probe get = true
is_probe head = true
is_probe _ = false

-- the path of a request for `GET /name`
abbrev pub asks_for : Text → Request → Bool
asks_for name q = elim q.path [
  | [] ↦ false
  | s ∷ more ↦ elim more [ [] ↦ is_probe q.method && text_eq s name | _ ∷ _ ↦ false ]
]

module _ {W F : Type 0} (client : MsbClient W F) (yaml : Yaml) where
  unfoldable pub dispatch : Endpoint → Request → State W → Response F × State W
  dispatch list_sandboxes q = handle_list_sandboxes client
  dispatch create_sandbox q = handle_create_sandbox client yaml.spec q.body
  dispatch list_volumes q = handle_list_volumes client
  dispatch create_volume q = handle_create_volume client yaml.volume q.body
  dispatch list_snapshots q = handle_list_snapshots client
  dispatch create_snapshot q = handle_create_snapshot client yaml.snapshot q.body
  dispatch (inspect_sandbox name) q = handle_inspect_sandbox client name
  dispatch (delete_sandbox name) q = handle_delete_sandbox client name
  dispatch (start_sandbox name) q = handle_start_sandbox client name
  dispatch (stop_sandbox name) q = handle_stop_sandbox client name
  dispatch (exec_sandbox name) q = handle_exec_sandbox client yaml.exec name q.body
  dispatch (sandbox_logs name) q = handle_logs client name q.query
  dispatch (sandbox_metrics name) q = handle_metrics client name
  dispatch (delete_volume name) q = handle_delete_volume client name
  dispatch (delete_snapshot name) q = handle_delete_snapshot client name

  -- the protected mux
  unfoldable pub protected : Request → State W → Response F × State W
  protected q st = elim (endpoint (resource q.path) q.method) [
    | none ↦ (unrouted (resource q.path), st)
    | some e ↦ dispatch e q st
  ]

  -- NewWithLock
  unfoldable pub serve : (Text → Text) → Text → Request → State W → Response F × State W
  serve sha256 token q st =
      if asks_for (codes "healthz") q
      then handle_healthz client st
      else if asks_for (codes "readyz") q
      then handle_readyz client q.now q.later st
      else require_bearer sha256 token q.authorization (protected q) st
