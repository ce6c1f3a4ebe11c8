-- ===== src/Server/Interleaving.antt =====
-- internal/server/sandboxes.go under net/http, which runs each handler in a goroutine of its own:
-- the four handlers that change the lock, cut where they touch the lock or the machine. Between two
-- cuts any other handler may run.
pub mod Frames
pub mod Moves
pub mod Calls
pub mod Steps
pub mod Exclusion
pub mod Alone
use msb_manager.Prelude.{
  ℕ, Text, codes, Bool, Option, none, some, List, Result, ok, err, if◌then◌else◌, ◌==◌, ◌≡◌, ◌≢◌,
}
use msb_manager.Lock.{Busy, acquire_many, release, release_volumes}
use msb_manager.Msb.Errors.{Error, sandbox_not_found, is_error}
use msb_manager.Msb.Types
use msb_manager.Msb.Types.{volume_names}
use msb_manager.Spec.{Spec, validate, to_create_opts}
use msb_manager.Server.{
  MsbClient, Response, State, text, of_spec, of_busy, bad_request, conflict, no_content,
  adapter_error, read_body, check_path_name,
}
use msb_manager.Server.Sandboxes.{volumes_from_spec, parse_spec, created_body}
use msb_manager.Server.Safety.{View, Same}

-- where a handler stands, with the variables that are live there
pub data Point (F : Type 0) : Type 0 where
  idle : Point F
  claiming : Spec → Point F  -- before AcquireMany, in handleCreateSandbox
  creating : Spec → List Text → Point F  -- before client.Create
  create_failed : Spec → List Text → Error → Point F  -- before ReleaseVolumes
  finding : Text → Point F  -- before client.Inspect, in handleStartSandbox
  found : Text → List Text → Point F  -- before AcquireMany
  starting : Text → List Text → Point F  -- before client.Start
  start_failed : Text → List Text → Error → Point F  -- before ReleaseVolumes
  stopping : Text → Point F  -- before client.Stop, in handleStopSandbox
  removing : Text → Point F  -- before client.Rm, in handleDeleteSandbox
  releasing : Text → Response F → Point F  -- before Release
  done : Response F → Point F

-- a request for one of the four handlers
pub data Call : Type 0 where
  create : Option Text → Call
  start stop delete : Text → Call

-- the sandbox that the handler acts on
abbrev pub acts_on : {F : Type 0} → Point F → Option Text
acts_on idle = none
acts_on (claiming s) = some s.name
acts_on (creating s newly) = some s.name
acts_on (create_failed s newly e) = some s.name
acts_on (finding n) = some n
acts_on (found n vs) = some n
acts_on (starting n newly) = some n
acts_on (start_failed n newly e) = some n
acts_on (stopping n) = some n
acts_on (removing n) = some n
acts_on (releasing n r) = some n
acts_on (done r) = none

module _ {F : Type 0} where
  -- an early return responds
  abbrev pub or_done {ℓ} : {A : Type ℓ} → Result (Response F) A → (A → Point F) → Point F
  or_done (ok a) k = k a
  or_done (err r) k = done r

  unfoldable pub begin_parsed : Spec → Point F
  begin_parsed s = elim (validate s) [ err e ↦ done (bad_request (of_spec e)) | ok _ ↦ claiming s ]

  unfoldable pub begin_read : (Text → Result Text Spec) → Text → Point F
  unfolding begin_parsed
  begin_read decode body = elim (parse_spec decode body) [
    | err m ↦ done (bad_request (text m))
    | ok s ↦ begin_parsed s
  ]

  -- what a handler does before it touches the lock or the machine
  unfoldable pub begin : (Text → Result Text Spec) → Call → Point F
  unfolding read_body begin_read check_path_name parse_spec
  begin decode (create body) = or_done (read_body (codes "spec too large") body) (begin_read decode)
  begin decode (start name) = or_done (check_path_name name) (λ _. finding name)
  begin decode (stop name) = or_done (check_path_name name) (λ _. stopping name)
  begin decode (delete name) = or_done (check_path_name name) (λ _. removing name)

  -- after client.Create
  abbrev pub after_create : Spec → List Text → Result Error (Unit {0}) → Point F
  after_create s newly (ok _) = done (created_body s)
  after_create s newly (err e) = create_failed s newly e

  -- after client.Start
  abbrev pub after_start : Text → List Text → Result Error (Unit {0}) → Point F
  after_start name newly (ok _) = done no_content
  after_start name newly (err e) = start_failed name newly e

  -- after client.Inspect
  abbrev pub after_inspect : Text → Result Error Types.SandboxDetail → Point F
  after_inspect name (ok d) = found name (volume_names d)
  after_inspect name (err e) = done (adapter_error (codes "start sandbox") e)

  -- after AcquireMany: the handler's own next call, or a conflict
  abbrev pub after_acquire : (List Text → Point F) → Result Busy (List Text) → Point F
  after_acquire next (ok newly) = next newly
  after_acquire next (err b) = done (conflict (of_busy b))

  -- after client.Stop or client.Rm
  unfoldable pub after_end : Text → Text → Result Error (Unit {0}) → Point F
  after_end op name (ok _) = releasing name no_content
  after_end op name (err e) =
      if is_error e sandbox_not_found
      then releasing name (adapter_error op e)
      else done (adapter_error op e)

module _ {W F : Type 0} (client : MsbClient W F) where
  -- a handler up to its next cut: one method of the lock, or one call of the adapter
  unfoldable pub advance : Point F → State W → Point F × State W
  unfolding after_end created_body adapter_error
  advance idle st = (idle, st)
  advance (claiming s) st =
      let (r, held) = acquire_many (volumes_from_spec s.volume) s.name st.held in
      (after_acquire (creating s) r, record st { held = held })
  advance (creating s newly) st =
      let (r, w) = client.create (to_create_opts s) st.world in
      (after_create s newly r, record st { world = w })
  advance (create_failed s newly e) st = (
    done (adapter_error (codes "create sandbox") e),
    record st { held = release_volumes newly s.name st.held },
  )
  advance (finding name) st =
      let (r, w) = client.inspect name st.world in (after_inspect name r, record st { world = w })
  advance (found name vs) st =
      let (r, held) = acquire_many vs name st.held in
      (after_acquire (starting name) r, record st { held = held })
  advance (starting name newly) st =
      let (r, w) = client.start name st.world in (after_start name newly r, record st { world = w })
  advance (start_failed name newly e) st = (
    done (adapter_error (codes "start sandbox") e),
    record st { held = release_volumes newly name st.held },
  )
  advance (stopping name) st =
      let (r, w) = client.stop name st.world in
      (after_end (codes "stop sandbox") name r, record st { world = w })
  advance (removing name) st =
      let (r, w) = client.rm name st.world in
      (after_end (codes "remove sandbox") name r, record st { world = w })
  advance (releasing name r) st = (done r, record st { held = release name st.held })
  advance (done r) st = (done r, st)

-- the server with the handlers in flight
pub record System (W F : Type 0) : Type 0 where
  pub state : State W
  pub at : ℕ → Point F

-- the family with one value changed
abbrev pub update : {F : Type 0} → (ℕ → Point F) → ℕ → Point F → ℕ → Point F
update f i p j = if j == i then p else f j

-- no request for the sandbox is in flight
abbrev pub Unused : {W F : Type 0} → System W F → Point F → Type 0
Unused s p = (j : ℕ) (n : Text) → acts_on p ≡ some n → acts_on (s.at j) ≢ some n

-- a machine on which nothing has started, and whose sandboxes have their volumes
pub record Drift {W : Type 0} (view : View W) (w w' : W) : Type 0 where
  pub same : Same view w w'
  pub mounts : (n : Text) → view.volumes_of w' n ≡ view.volumes_of w n

abbrev pub moved : {W : Type 0} → State W → W → State W
moved st w = record st { world = w }

-- One step of the server. A request is taken up when `policy` lets it; a handler in flight goes on to
-- its next cut; and the machine moves by itself, or for the handlers that start nothing.
pub data Step {W F : Type 0} (view : View W) (client : MsbClient W F)
    (decode : Text → Result Text Spec) (policy : System W F → Point F → Type 0) (s : System W F)
    : System W F → Type 0 where
  take :
      (i : ℕ) (c : Call)
      → acts_on (s.at i) ≡ none
      → policy s (begin decode c)
      → Step view client decode policy s (record s { at = update s.at i (begin decode c) })
  go :
      (i : ℕ)
      → Step view client decode policy s (record {
        state = (advance client (s.at i) s.state).1;
        at = update s.at i (advance client (s.at i) s.state).0;
      })
  drift :
      (w : W)
      → Drift view s.state.world w
      → Step view client decode policy s (record s { state = moved s.state w })

pub data Reach {W F : Type 0} (view : View W) (client : MsbClient W F)
    (decode : Text → Result Text Spec) (policy : System W F → Point F → Type 0) (s : System W F)
    : System W F → Type 0 where
  here : Reach view client decode policy s s
  next :
      {t u : System W F}
      → Reach view client decode policy s t
      → Step view client decode policy t u
      → Reach view client decode policy s u
