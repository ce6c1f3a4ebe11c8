-- ===== src/Manager/Safety.antt =====
-- cmd/msb-manager/main.go: from the start of the process on, through every request.
use msb_manager.Prelude.{ℕ, Text, Bool, none, some, List, ◌≡◌}
use msb_manager.Lock.{Held, new}
use msb_manager.Server.{MsbClient, State}
use msb_manager.Server.Routes.{Request, Yaml}
use msb_manager.Server.Safety.{View, MsbLaws}
use msb_manager.Server.Safety.Serving.{IsExclusive, serve_all, serve_all-IsExclusive}
use msb_manager.Manager.{reconcile_with_retry, ready, initial_backoff, max_backoff}
use msb_manager.Manager.Collecting.{StartupLaws}
use msb_manager.Manager.Seeding.{reconcile_with_retry-Covers}

-- the state that the server starts with
abbrev pub started : {W : Type 0} → Held → W → State W
started held w = record {
  held = held;
  world = w;
  readiness = record { checked_at = none; last = none };
}

-- A process that starts while no two running sandboxes share a volume, seeds its lock from msb and
-- then handles any requests, never lets two running sandboxes mount one volume: given that msb's
-- reads tell the truth at the start and its calls have the effect of their names.
pub manager-IsExclusive :
    {W F : Type 0} (view : View W) (client : MsbClient W F) (startup : StartupLaws view client)
    (laws : MsbLaws view client) (yaml : Yaml) (sha256 : Text → Text) (token : Text)
    (stops : ℕ → ℕ → Bool) (attempts : ℕ) (held : Held) (w w' : W) (qs : List Request)
    → IsExclusive view w
    → reconcile_with_retry client stops max_backoff attempts 0 initial_backoff new w
      ≡ some (ready held w')
    → IsExclusive view (serve_all client yaml sha256 token qs (started held w')).world
manager-IsExclusive view client startup laws yaml sha256 token stops attempts held w w' qs ex h =
    serve_all-IsExclusive view client laws yaml sha256 token qs (started held w') (
      reconcile_with_retry-Covers view client startup stops max_backoff attempts 0 initial_backoff
        new held w w' _ ex h)
