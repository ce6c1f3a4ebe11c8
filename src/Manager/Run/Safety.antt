-- ===== src/Manager/Run/Safety.antt =====
-- cmd/msb-manager/main.go: a whole run of the process, however it starts and ends.
use msb_manager.Prelude.{
  ℕ, Text, Option, some, List, [], ◌∷◌, Option-cases, Result-cases, inl, inr, ℤ, ok, ◌≡◌, refl, sym,
}
use mathlib.Core.Path.{subst}
use msb_manager.Config
use msb_manager.Config.{load}
use msb_manager.Msb.Client
use msb_manager.Server.{MsbClient, State}
use msb_manager.Server.Routes.{Request, Yaml, serve}
use msb_manager.Server.Safety.{View, MsbLaws}
use msb_manager.Server.Safety.Serving.{IsExclusive, serve_all}
use msb_manager.Manager.{Startup, ready, abandoned}
use msb_manager.Manager.Collecting.{StartupLaws}
use msb_manager.Manager.Seeding.{abandoned-world}
use msb_manager.Manager.Safety.{manager-IsExclusive}
use msb_manager.Manager.Run.{
  new_http_server, handle_all, client_config, Surroundings, Failure, after_startup, startup, run,
}

handle_all-serve_all :
    {W F : Type 0} (client : MsbClient W F) (yaml : Yaml) (sha256 : Text → Text) (token addr : Text)
    (qs : List Request) (st : State W)
    → handle_all (new_http_server addr (serve client yaml sha256 token)) qs st
      ≡ serve_all client yaml sha256 token qs st
unfolding handle_all serve_all new_http_server
handle_all-serve_all client yaml sha256 token addr [] st = refl
handle_all-serve_all client yaml sha256 token addr (q ∷ qs) st =
    handle_all-serve_all client yaml sha256 token addr qs (serve client yaml sha256 token q st).1

world_inj : {W : Type 0} {x y : Option Failure × W} → some x ≡ some y → x.1 ≡ y.1
world_inj h = cc h

module _ {W F : Type 0} (view : View W) (connect : Client.Config → MsbClient W F)
    (parse_duration : Text → Option ℤ) (yaml : Yaml) (sha256 : Text → Text) where
  after_startup-IsExclusive :
      (attempts : ℕ) (cfg : Config.Config) (env : Surroundings) (w : W) (s : Startup W)
      → StartupLaws view (connect (client_config cfg))
      → MsbLaws view (connect (client_config cfg))
      → IsExclusive view w
      → startup connect parse_duration yaml sha256 attempts cfg env w ≡ some s
      → IsExclusive view (after_startup connect parse_duration yaml sha256 cfg env s).1
  unfolding startup after_startup
  after_startup-IsExclusive attempts cfg env w (abandoned e w') tells laws ex h =
      subst (IsExclusive view)
        (sym (
          abandoned-world view (connect (client_config cfg)) tells env.stops _ attempts 0 _ _ e w w'
            h))
        ex
  after_startup-IsExclusive attempts cfg env w (ready held w') tells laws ex h =
      rw
        (handle_all-serve_all (connect (client_config cfg)) yaml sha256 cfg.token cfg.listen_addr
          env.requests _)
        (manager-IsExclusive view (connect (client_config cfg)) tells laws yaml sha256 cfg.token
          env.stops attempts held w w' env.requests ex h)

  -- Whenever its signal comes, whatever requests it handles one after another and however the process
  -- ends, no volume is mounted by two running sandboxes at its end, when it was so at its start, and
  -- with the client of the configuration that loads, if one does, msb's reads tell the truth while it
  -- starts and msb's calls have the effect of their names.
  pub run-IsExclusive :
      (attempts : ℕ) (env : Surroundings) (w w' : W) (failure : Option Failure)
      → ((cfg : Config.Config)
          → load parse_duration env.getenv ≡ ok cfg
          → StartupLaws view (connect (client_config cfg)))
      → ((cfg : Config.Config)
          → load parse_duration env.getenv ≡ ok cfg
          → MsbLaws view (connect (client_config cfg)))
      → IsExclusive view w
      → run connect parse_duration yaml sha256 attempts env w ≡ some (failure, w')
      → IsExclusive view w'
  unfolding run
  run-IsExclusive attempts env w w' failure tells laws ex h =
      elim (Result-cases (load parse_duration env.getenv)) [
        | inr (e, r) ↦ subst (IsExclusive view) (world_inj (rw (r, run) at h)) ex
        | inl (cfg, r) ↦
            elim (Option-cases (startup connect parse_duration yaml sha256 attempts cfg env w)) [
              | inl n ↦ absurd (cc (rw (r, n, run) at h))
              | inr (s, n) ↦
                  subst (IsExclusive view) (world_inj (rw (r, n, run) at h))
                    (after_startup-IsExclusive attempts cfg env w s (tells cfg r) (laws cfg r) ex n)
            ]
      ]
