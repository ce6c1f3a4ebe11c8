-- ===== src/Server/Sandboxes.antt =====
-- internal/server/sandboxes.go: the sandbox handlers.
use msb_manager.Prelude.{
  Text, codes, Option, none, some, List, [], ◌∷◌, if◌then◌else◌, Result, ok, err, is_empty, ◌++◌,
}
use msb_manager.Lock.{acquire_many, release, release_volumes}
use msb_manager.Msb.Errors.{Error, sandbox_not_found, is_error}
use msb_manager.Msb.Types.{volume_names}
use msb_manager.Spec
use msb_manager.Spec.{Spec, validate, to_create_opts}
use msb_manager.Api.{new_sandbox_summaries, new_sandbox_detail}
use msb_manager.Server.{
  MsbClient, Response, State, text, of_spec, of_busy, sandboxes, sandbox, fields, bad_request,
  conflict, no_content, answer, adapter_error, read_body, check_path_name, or_respond,
}

-- volumesFromSpec
abbrev pub volumes_from_spec : Option Spec.Volume → List Text
volumes_from_spec none = []
volumes_from_spec (some v) = v.name ∷ []

-- spec.Parse: the decoder of yaml.v3 with KnownFields is a parameter
unfoldable pub parse_spec : (Text → Result Text Spec) → Text → Result Text Spec
parse_spec decode body = elim (decode body) [
  | ok s ↦ ok s
  | err m ↦ err (codes "parse spec: " ++ m)
]

unfoldable pub created_body : {F : Type 0} → Spec → Response F
created_body s = record {
  status = 201;
  body = fields (
      (codes "name", s.name)
      ∷ (if is_empty s.image then (codes "snapshot", s.snapshot) else (codes "image", s.image))
      ∷ []);
}

module _ {W F : Type 0} (client : MsbClient W F) where
  -- handleListSandboxes
  unfoldable pub handle_list_sandboxes : State W → Response F × State W
  handle_list_sandboxes st =
      let (r, w) = client.list st.world in
      answer (codes "list sandboxes") r
        (λ l. record { status = 200; body = sandboxes (new_sandbox_summaries l) })
        (record st { world = w })

  unfoldable pub inspected : Text → State W → Response F × State W
  inspected name st =
      let (r, w) = client.inspect name st.world in
      answer (codes "inspect sandbox") r
        (λ d. record { status = 200; body = sandbox (new_sandbox_detail d) })
        (record st { world = w })

  -- handleInspectSandbox
  unfoldable pub handle_inspect_sandbox : Text → State W → Response F × State W
  unfolding check_path_name inspected
  handle_inspect_sandbox name st = or_respond (check_path_name name) st (λ _. inspected name)

  -- handleCreateSandbox once the volumes are claimed
  unfoldable pub create_claimed : Spec → List Text → State W → Response F × State W
  unfolding adapter_error created_body
  create_claimed s newly st =
      let (r, w) = client.create (to_create_opts s) st.world in
      elim r [
        | err e ↦ (
          adapter_error (codes "create sandbox") e,
          record st { world = w; held = release_volumes newly s.name st.held },
        )
        | ok _ ↦ (created_body s, record st { world = w })
      ]

  -- handleCreateSandbox once the spec is valid
  unfoldable pub create_valid : Spec → State W → Response F × State W
  create_valid s st =
      let (r, held) = acquire_many (volumes_from_spec s.volume) s.name st.held in
      let st' = record st { held = held } in
      elim r [ err b ↦ (conflict (of_busy b), st') | ok newly ↦ create_claimed s newly st' ]

  unfoldable pub create_parsed : Spec → State W → Response F × State W
  create_parsed s st = elim (validate s) [
    | err e ↦ (bad_request (of_spec e), st)
    | ok _ ↦ create_valid s st
  ]

  unfoldable pub create_read : (Text → Result Text Spec) → Text → State W → Response F × State W
  unfolding create_parsed parse_spec
  create_read decode body st = elim (parse_spec decode body) [
    | err m ↦ (bad_request (text m), st)
    | ok s ↦ create_parsed s st
  ]

  -- handleCreateSandbox
  unfoldable pub handle_create_sandbox :
      (Text → Result Text Spec) → Option Text → State W → Response F × State W
  unfolding read_body create_read
  handle_create_sandbox decode body st =
      or_respond (read_body (codes "spec too large") body) st (create_read decode)

  -- handleStartSandbox once the volumes are claimed
  unfoldable pub start_claimed : Text → List Text → State W → Response F × State W
  start_claimed name newly st =
      let (r, w) = client.start name st.world in
      elim r [
        | err e ↦ (
          adapter_error (codes "start sandbox") e,
          record st { world = w; held = release_volumes newly name st.held },
        )
        | ok _ ↦ (no_content, record st { world = w })
      ]

  -- handleStartSandbox once the sandbox is known
  unfoldable pub start_found : Text → List Text → State W → Response F × State W
  start_found name vs st =
      let (r, held) = acquire_many vs name st.held in
      let st' = record st { held = held } in
      elim r [ err b ↦ (conflict (of_busy b), st') | ok newly ↦ start_claimed name newly st' ]

  unfoldable pub start_named : Text → State W → Response F × State W
  start_named name st =
      let (r, w) = client.inspect name st.world in
      let st' = record st { world = w } in
      elim r [
        | err e ↦ (adapter_error (codes "start sandbox") e, st')
        | ok d ↦ start_found name (volume_names d) st'
      ]

  -- handleStartSandbox
  unfoldable pub handle_start_sandbox : Text → State W → Response F × State W
  unfolding check_path_name start_named
  handle_start_sandbox name st = or_respond (check_path_name name) st (λ _. start_named name)

  -- the end of handleStopSandbox and handleDeleteSandbox
  unfoldable pub ended : Text → Text → Result Error (Unit {0}) → State W → Response F × State W
  ended op name (err e) st = (
    adapter_error op e,
    if is_error e sandbox_not_found then record st { held = release name st.held } else st,
  )
  ended op name (ok _) st = (no_content, record st { held = release name st.held })

  unfoldable pub stopped : Text → State W → Response F × State W
  unfolding ended
  stopped name st =
      let (r, w) = client.stop name st.world in
      ended (codes "stop sandbox") name r (record st { world = w })

  -- handleStopSandbox
  unfoldable pub handle_stop_sandbox : Text → State W → Response F × State W
  unfolding check_path_name stopped
  handle_stop_sandbox name st = or_respond (check_path_name name) st (λ _. stopped name)

  unfoldable pub removed : Text → State W → Response F × State W
  unfolding ended
  removed name st =
      let (r, w) = client.rm name st.world in
      ended (codes "remove sandbox") name r (record st { world = w })

  -- handleDeleteSandbox
  unfoldable pub handle_delete_sandbox : Text → State W → Response F × State W
  unfolding check_path_name removed
  handle_delete_sandbox name st = or_respond (check_path_name name) st (λ _. removed name)
