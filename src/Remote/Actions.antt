-- ===== src/Remote/Actions.antt =====
-- cmd/msbctl and internal/server: `msbctl start`, `stop` and `rm` reach the handler of their name.
use msb_manager.Prelude.{
  ℕ, Text, codes, true, false, some, List, [], ◌∷◌, ◌++◌, drop-append, pos, leb, is_empty, text_eq,
  if◌then◌else◌, Bool-cases, inl, inr, ◌≡◌, refl, ap, ◌∙◌, contains_byte, contains_byte-Lacks,
}
use msb_manager.Msb.Validate.{valid_name}
use msb_manager.Server.{MsbClient, Body, Response, State}
use msb_manager.Server.Sandboxes.{handle_start_sandbox, handle_stop_sandbox, handle_delete_sandbox}
use msb_manager.Server.Observability.{LogsQuery}
use msb_manager.Server.Guarding.{IsAuthorized, serve-IsAuthorized}
use msb_manager.Server.Routes
use msb_manager.Server.Routes.{Yaml, serve, protected, resource, endpoint, dispatch, asks_for}
use msb_manager.Ctl.Target.{Target}
use msb_manager.Ctl.Status.{exit_code_for_status}
use msb_manager.Ctl.Flags.Interspersed.{word, parse_flags-written}
use msb_manager.Ctl.Client.{Verb, post, delete, Payload, no_body, new_client, request_of, send}
use msb_manager.Ctl.Client.Paths.{sandbox_path}
use msb_manager.Ctl.Commands.{Env, Ran, with_flags, with_name, call, answered, refused, do_action}
use msb_manager.Ctl.Commands.Sandboxes.{cmd_start, cmd_stop, cmd_rm, sandbox_action}
use msb_manager.Remote.{over_network, received, segments_of, path_unescape}
use msb_manager.Remote.Paths.{IsPlainText, segments_of-sandbox_path, segments_of-sandbox_path_nil}
use msb_manager.Remote.Names.{valid-IsBytes, valid-IsWord, valid_filled}

-- the exit code of doAction by the status of the response
abbrev pub action_code : ℕ → ℕ
action_code status = if leb 400 status then exit_code_for_status status else 0

-- the command answers for the handler, and leaves behind the state that the handler leaves
pub record IsServed {W F : Type 0} (r : Ran (State W)) (p : Response F × State W) : Type 0 where
  pub world : r.world ≡ p.1
  pub code : r.code ≡ pos (action_code p.0.status)

protected-endpoint :
    {W F : Type 0} (client : MsbClient W F) (yaml : Yaml) (q : Routes.Request) (e : Routes.Endpoint)
    (st : State W)
    → endpoint (resource q.path) q.method ≡ some e
    → protected client yaml q st ≡ dispatch client yaml e q st
unfolding protected
protected-endpoint client yaml q e st h = rw (h, protected) refl

module _ {W F G : Type 0} (client : MsbClient W F) (yaml : Yaml) (sha256 : Text → Text)
    (encode : Body F → Text) (marshal : Payload → Text) (parse_query : Text → LogsQuery)
    (t : Target) (env : Env (State W) G) where
  -- msbctl with the server as its network, both with the token of the target
  abbrev pub connected : Env (State W) G
  connected = record env {
    transport =
        over_network client yaml sha256 t.token encode (new_client t).base_url marshal parse_query;
    client = new_client t;
    target = t;
  }

  abbrev request : Verb → Text → Routes.Request
  request method path =
      received (new_client t).base_url marshal parse_query
        (request_of (new_client t) method path no_body [])

  request-path : (method : Verb) (path : Text) → (request method path).path ≡ segments_of path
  unfolding received request_of
  request-path method path = ap segments_of (drop-append (new_client t).base_url path)

  request-IsAuthorized :
      (method : Verb) (path : Text)
      → is_empty t.token ≡ false
      → IsAuthorized sha256 t.token (request method path).authorization
  unfolding received request_of new_client
  request-IsAuthorized method path h = record {
    configured = h;
    presented = t.token;
    header = rw h refl;
    digest = refl;
  }

  -- an action, once its request is known to reach a handler
  action-IsServed :
      (method : Verb) (path confirm : Text) (st : State W) (p : Response F × State W)
      → is_empty t.token ≡ false
      → serve client yaml sha256 t.token (request method path) st ≡ p
      → IsServed (do_action connected method path no_body [] confirm st) p
  unfolding do_action call answered refused send over_network
  action-IsServed method path confirm st p h e = elim (Bool-cases (leb 400 p.0.status)) [
    | inl g ↦ record { world = rw (h, e, g) refl; code = rw (h, e, g) refl }
    | inr g ↦ record { world = rw (h, e, g) refl; code = rw (h, e, g) refl }
  ]

  -- a request with the path of an action on a sandbox passes by the probes
  passes-IsAuthorized :
      (method : Verb) (path : Text) (s name : Text) (more : List Text) (st : State W)
      → is_empty t.token ≡ false
      → (request method path).path ≡ s ∷ name ∷ more
      → serve client yaml sha256 t.token (request method path) st
        ≡ protected client yaml (request method path) st
  passes-IsAuthorized method path s name more st h e =
      serve-IsAuthorized client yaml sha256 t.token (request method path) st (rw e refl) (rw e refl)
        (request-IsAuthorized method path h)

  -- the request of an action, at its endpoint
  reaches :
      (method : Verb) (path : Text) (s name : Text) (more : List Text) (e : Routes.Endpoint)
      (p : Response F × State W) (st : State W)
      → is_empty t.token ≡ false
      → (request method path).path ≡ s ∷ name ∷ more
      → endpoint (resource (s ∷ name ∷ more)) (request method path).method ≡ some e
      → dispatch client yaml e (request method path) st ≡ p
      → serve client yaml sha256 t.token (request method path) st ≡ p
  reaches method path s name more e p st h q r d =
      passes-IsAuthorized method path s name more st h q
      ∙ protected-endpoint client yaml (request method path) e st
          (ap (λ l. endpoint (resource l) (request method path).method) q ∙ r)
      ∙ d

  -- flags and the name of an action
  one_name :
      (name : Text) (k : Text → State W → Ran (State W)) (st : State W)
      → valid_name name ≡ true
      → with_flags [] (name ∷ []) (λ fs pos. with_name (codes "sandbox") pos k) st ≡ k name st
  unfolding with_flags with_name
  one_name name k st h =
      rw (parse_flags-written [] (word name ∷ []) (valid-IsWord name h, tt), valid_filled name h)
        refl

  -- the request of `start` or `stop`
  posted :
      (name verb : Text) (e : Routes.Endpoint) (p : Response F × State W) (st : State W)
      → is_empty t.token ≡ false
      → valid_name name ≡ true
      → is_empty verb ≡ false
      → IsPlainText verb
      → path_unescape verb ≡ verb
      → endpoint (resource (codes "sandboxes" ∷ name ∷ verb ∷ [])) Routes.post ≡ some e
      → dispatch client yaml e (request post (sandbox_path name verb)) st ≡ p
      → serve client yaml sha256 t.token (request post (sandbox_path name verb)) st ≡ p
  unfolding received request_of
  posted name verb e p st h v filled plain same r d =
      reaches post (sandbox_path name verb) (codes "sandboxes") name (verb ∷ []) e p st h
        (request-path post (sandbox_path name verb)
          ∙ segments_of-sandbox_path name verb (valid-IsBytes name v) filled plain same)
        r d

  start_request :
      (name : Text) (st : State W)
      → is_empty t.token ≡ false
      → valid_name name ≡ true
      → serve client yaml sha256 t.token (request post (sandbox_path name (codes "start"))) st
        ≡ handle_start_sandbox client name st
  unfolding dispatch resource endpoint text_eq contains_byte path_unescape
  start_request name st h v =
      posted name (codes "start") (Routes.start_sandbox name) _ st h v refl
        (
          contains_byte-Lacks b'/' (codes "start") refl,
          contains_byte-Lacks b'?' (codes "start") refl,
        )
        refl (rw (valid_filled name v) refl) refl

  stop_request :
      (name : Text) (st : State W)
      → is_empty t.token ≡ false
      → valid_name name ≡ true
      → serve client yaml sha256 t.token (request post (sandbox_path name (codes "stop"))) st
        ≡ handle_stop_sandbox client name st
  unfolding dispatch resource endpoint text_eq contains_byte path_unescape
  stop_request name st h v =
      posted name (codes "stop") (Routes.stop_sandbox name) _ st h v refl
        (contains_byte-Lacks b'/' (codes "stop") refl, contains_byte-Lacks b'?' (codes "stop") refl)
        refl (rw (valid_filled name v) refl) refl

  rm_request :
      (name : Text) (st : State W)
      → is_empty t.token ≡ false
      → valid_name name ≡ true
      → serve client yaml sha256 t.token (request delete (sandbox_path name [])) st
        ≡ handle_delete_sandbox client name st
  unfolding received request_of dispatch resource endpoint text_eq
  rm_request name st h v =
      reaches delete (sandbox_path name []) (codes "sandboxes") name [] (Routes.delete_sandbox name)
        _ st h
        (request-path delete (sandbox_path name [])
          ∙ segments_of-sandbox_path_nil name (valid-IsBytes name v))
        (rw (valid_filled name v) refl) refl

  command-IsServed :
      (method : Verb) (path confirm : Text → Text) (name : Text) (st : State W)
      (p : Response F × State W)
      → is_empty t.token ≡ false
      → valid_name name ≡ true
      → serve client yaml sha256 t.token (request method (path name)) st ≡ p
      → IsServed
          (with_flags []
            (name ∷ [])
            (λ fs pos.
              with_name
                (codes "sandbox")
                pos
                (λ n. do_action connected method (path n) no_body [] (confirm n)))
            st)
          p
  command-IsServed method path confirm name st p h v e =
      rw (one_name name (λ n. do_action connected method (path n) no_body [] (confirm n)) st v)
        (action-IsServed method (path name) (confirm name) st p h e)

  -- With the server as its network and the server's token, `msbctl start`, `stop` and `rm` of a
  -- valid name leave behind the state that the handler of their name leaves for that sandbox, and
  -- exit with the code of its status.
  pub start_stop_rm-IsServed :
      (name : Text) (st : State W)
      → is_empty t.token ≡ false
      → valid_name name ≡ true
      → IsServed (cmd_start connected (name ∷ []) st) (handle_start_sandbox client name st)
        × IsServed (cmd_stop connected (name ∷ []) st) (handle_stop_sandbox client name st)
        × IsServed (cmd_rm connected (name ∷ []) st) (handle_delete_sandbox client name st)
  unfolding cmd_start cmd_stop cmd_rm sandbox_action
  start_stop_rm-IsServed name st h v = (
    command-IsServed post (λ n. sandbox_path n (codes "start"))
        (λ n. codes "started" ++ codes " " ++ n) name st _ h v (start_request name st h v),
    command-IsServed post (λ n. sandbox_path n (codes "stop"))
        (λ n. codes "stopped" ++ codes " " ++ n) name st _ h v (stop_request name st h v),
    command-IsServed delete (λ n. sandbox_path n []) (λ n. codes "removed " ++ n) name st _ h v
        (rm_request name st h v),
  )
