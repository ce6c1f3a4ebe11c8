-- ===== src/Server/Safety/Serving.antt =====
-- internal/server/server.go: every request that the server handles keeps every claim covered.
use msb_manager.Prelude.{
  Text, codes, true, List, [], ◌∷◌, Option-cases, Bool-cases, inl, inr, ◌≡◌, not, ◌||◌, is_empty,
  has_prefix, text_eq,
}
use msb_manager.Lock.{has_name}
use msb_manager.Server.{MsbClient, State}
use msb_manager.Server.Auth.{require_bearer, trim_prefix, bearer_prefix}
use msb_manager.Server.Routes.{
  Endpoint, list_sandboxes, create_sandbox, list_volumes, create_volume, list_snapshots,
  create_snapshot, inspect_sandbox, delete_sandbox, start_sandbox, stop_sandbox, exec_sandbox,
  sandbox_logs, sandbox_metrics, delete_volume, delete_snapshot, Request, Yaml, dispatch, protected,
  endpoint, resource, serve, asks_for,
}
use msb_manager.Server.Readiness.{handle_healthz}
use msb_manager.Server.Safety.{View, Covers, MsbLaws}
use msb_manager.Server.Safety.Reads
use msb_manager.Server.Safety.Volumes
use msb_manager.Server.Safety.Mutations

-- the requests that a server handles one after another
unfoldable pub serve_all :
    {W F : Type 0} → MsbClient W F → Yaml → (Text → Text) → Text → List Request → State W → State W
serve_all client yaml sha256 token [] st = st
serve_all client yaml sha256 token (q ∷ qs) st =
    serve_all client yaml sha256 token qs (serve client yaml sha256 token q st).1

-- no volume is mounted by two sandboxes that run
unfoldable pub IsExclusive : {W : Type 0} → View W → W → Type 0
IsExclusive view w =
    (a b v : Text)
    → view.running w a ≡ true
    → view.running w b ≡ true
    → has_name v (view.volumes_of w a) ≡ true
    → has_name v (view.volumes_of w b) ≡ true
    → a ≡ b

pub Covers-IsExclusive :
    {W : Type 0} (view : View W) (st : State W) → Covers view st → IsExclusive view st.world
unfolding IsExclusive
Covers-IsExclusive view st c a b v ra rb ma mb = cc (c.claimed a v ra ma, c.claimed b v rb mb)

module _ {W F : Type 0} (view : View W) (client : MsbClient W F) (laws : MsbLaws view client)
    (yaml : Yaml) where
  dispatch-Covers :
      (e : Endpoint) (q : Request) (st : State W)
      → Covers view st
      → Covers view (dispatch client yaml e q st).1
  unfolding dispatch
  dispatch-Covers list_sandboxes q st = Reads.list_sandboxes-Covers view client laws st
  dispatch-Covers create_sandbox q st = Mutations.create-Covers view client laws yaml.spec q.body st
  dispatch-Covers list_volumes q st = Reads.list_volumes-Covers view client laws st
  dispatch-Covers create_volume q st =
      Volumes.create_volume-Covers view client laws yaml.volume q.body st
  dispatch-Covers list_snapshots q st = Reads.list_snapshots-Covers view client laws st
  dispatch-Covers create_snapshot q st =
      Reads.create_snapshot-Covers view client laws yaml.snapshot q.body st
  dispatch-Covers (inspect_sandbox n) q st = Reads.inspect-Covers view client laws n st
  dispatch-Covers (delete_sandbox n) q st = Mutations.delete-Covers view client laws n st
  dispatch-Covers (start_sandbox n) q st = Mutations.start-Covers view client laws n st
  dispatch-Covers (stop_sandbox n) q st = Mutations.stop-Covers view client laws n st
  dispatch-Covers (exec_sandbox n) q st = Reads.exec-Covers view client laws yaml.exec n q.body st
  dispatch-Covers (sandbox_logs n) q st = Reads.logs-Covers view client laws n q.query st
  dispatch-Covers (sandbox_metrics n) q st = Reads.metrics-Covers view client laws n st
  dispatch-Covers (delete_volume n) q st = Reads.delete_volume-Covers view client laws n st
  dispatch-Covers (delete_snapshot n) q st = Reads.delete_snapshot-Covers view client laws n st

  protected-Covers :
      (q : Request) (st : State W) → Covers view st → Covers view (protected client yaml q st).1
  unfolding protected
  protected-Covers q st c = elim (Option-cases (endpoint (resource q.path) q.method)) [
    | inl e ↦ rw (e, protected) c
    | inr (p, e) ↦ rw (e, protected) (dispatch-Covers p q st c)
  ]

  healthz-Covers : (st : State W) → Covers view st → Covers view (handle_healthz client st).1
  unfolding handle_healthz
  healthz-Covers st c = c

  bearer-Covers :
      (sha256 : Text → Text) (token h : Text) (q : Request) (st : State W)
      → Covers view st
      → Covers view (require_bearer sha256 token h (protected client yaml q) st).1
  unfolding require_bearer
  bearer-Covers sha256 token h q st c =
      elim (Bool-cases (is_empty token || not (has_prefix h bearer_prefix))) [
        | inl a ↦ rw a c
        | inr a ↦
            rw a
              (elim (Bool-cases
                (not (text_eq (sha256 (trim_prefix h bearer_prefix)) (sha256 token)))) [
                  | inl b ↦ rw b c
                  | inr b ↦ rw b (protected-Covers q st c)
                ])
      ]

  -- Whatever the request and the token it carries, handling it keeps every volume of a running
  -- sandbox claimed for that sandbox, given that msb's calls have the effect of their names.
  pub serve-Covers :
      (sha256 : Text → Text) (token : Text) (q : Request) (st : State W)
      → Covers view st
      → Covers view (serve client yaml sha256 token q st).1
  unfolding serve
  serve-Covers sha256 token q st c = elim (Bool-cases (asks_for (codes "healthz") q)) [
    | inl h ↦ rw (h, serve) (healthz-Covers st c)
    | inr h ↦
        rw (h, serve)
          (elim (Bool-cases (asks_for (codes "readyz") q)) [
            | inl r ↦ rw r (Reads.readyz-Covers view client laws q.now q.later st c)
            | inr r ↦ rw r (bearer-Covers sha256 token q.authorization q st c)
          ])
  ]

  serve_all-Covers :
      (sha256 : Text → Text) (token : Text) (qs : List Request) (st : State W)
      → Covers view st
      → Covers view (serve_all client yaml sha256 token qs st)
  unfolding serve_all
  serve_all-Covers sha256 token [] st c = c
  serve_all-Covers sha256 token (q ∷ qs) st c =
      serve_all-Covers sha256 token qs _ (serve-Covers sha256 token q st c)

  -- However many requests the server handles, in whatever order, no volume is ever mounted by two
  -- running sandboxes, when it is so at the start with every claim in place and msb's calls have
  -- the effect of their names.
  pub serve_all-IsExclusive :
      (sha256 : Text → Text) (token : Text) (qs : List Request) (st : State W)
      → Covers view st
      → IsExclusive view (serve_all client yaml sha256 token qs st).world
  serve_all-IsExclusive sha256 token qs st c =
      Covers-IsExclusive view _ (serve_all-Covers sha256 token qs st c)
