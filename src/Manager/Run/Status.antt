-- ===== src/Manager/Run/Status.antt =====
-- cmd/msb-manager/main.go: that the process ends, and with which status.
use msb_manager.Prelude.{
  ℕ, ◌<◌, Text, true, Option, none, some, Option-cases, Result, ok, Result-cases, inl, inr, ℤ, ◌≡◌,
  refl, sym, ◌∙◌, ◌⊎◌, ◌↔◌, arith,
}
use mathlib.Core.Path.{subst}
use msb_manager.Config
use msb_manager.Config.{ConfigError, load}
use msb_manager.Lock.{Held, new}
use msb_manager.Msb.Client
use msb_manager.Server.{MsbClient}
use msb_manager.Server.Routes.{Yaml}
use msb_manager.Manager.{Startup, ready, abandoned, initial_backoff, max_backoff}
use msb_manager.Manager.Retrying.{retry_settles}
use msb_manager.Manager.Run.{
  ListenError, server_closed, net_error, Ending, listener_ended, signaled, Surroundings, listen_err,
  await_end, is_canceled, exit_status, client_config, after_startup, startup, run, main,
}

-- the listener has been closed, or has never failed
abbrev pub IsClosed : Option ListenError → Type 0
IsClosed r = (r ≡ none) ⊎ (r ≡ some server_closed)

-- the process was asked to stop while it started, or the listener was closed and drained
abbrev pub IsOrderly : {W : Type 0} → Startup W → Ending → Type 0
IsOrderly (abandoned e w) end = Unit {0}
IsOrderly (ready held w) (listener_ended r) = IsClosed r
IsOrderly (ready held w) (signaled e r) = (e ≡ none) × IsClosed r

listen_zero : (r : Option ListenError) → exit_status (listen_err r) ≡ 0 ↔ IsClosed r
unfolding listen_err exit_status is_canceled
listen_zero none = (λ h. inl refl, λ h. refl)
listen_zero (some server_closed) = (λ h. inr refl, λ h. refl)
listen_zero (some (net_error e)) =
    (λ h. absurd (omega arith), λ h. elim h [ inl k ↦ absurd (cc k) | inr k ↦ absurd (cc k) ])

ending_zero :
    {W : Type 0} (held : Held) (w : W) (end : Ending)
    → exit_status (await_end end) ≡ 0 ↔ IsOrderly (ready held w) end
unfolding await_end exit_status is_canceled
ending_zero held w (listener_ended r) = listen_zero r
ending_zero held w (signaled none r) =
    (λ h. (refl, (listen_zero r).0 h), λ h. (listen_zero r).1 h.1)
ending_zero held w (signaled (some e) r) = (λ h. absurd (omega arith), λ h. absurd (cc h.0))

status_inj : {W : Type 0} {x y : ℕ × W} → some x ≡ some y → x.0 ≡ y.0
status_inj h = cc h

same_config :
    {r : Result ConfigError Config.Config} {c c' : Config.Config} → r ≡ ok c → r ≡ ok c' → c' ≡ c
same_config h k = cc (h, k)

same_startup :
    {W : Type 0} {r : Option (Startup W)} {s s' : Startup W} → r ≡ some s → r ≡ some s' → s ≡ s'
same_startup h k = cc (h, k)

module _ {W F : Type 0} (connect : Client.Config → MsbClient W F) (parse_duration : Text → Option ℤ)
    (yaml : Yaml) (sha256 : Text → Text) where
  after_startup_zero :
      (cfg : Config.Config) (env : Surroundings) (s : Startup W)
      → exit_status (after_startup connect parse_duration yaml sha256 cfg env s).0 ≡ 0
        ↔ IsOrderly s env.ending
  unfolding after_startup exit_status is_canceled
  after_startup_zero cfg env (abandoned e w) = (λ h. tt, λ h. refl)
  after_startup_zero cfg env (ready held w) = ending_zero held w env.ending

  -- The process ends with status 0 exactly when its configuration loads and either the signal came
  -- while it waited to seed the lock, or it listened and both the listener and the shutdown ended
  -- without an error but that of a closed listener.
  pub main_zero :
      (attempts : ℕ) (env : Surroundings) (w w' : W) (status : ℕ)
      → main connect parse_duration yaml sha256 attempts env w ≡ some (status, w')
      → status ≡ 0 ↔ (
          (cfg : Config.Config) × (load parse_duration env.getenv ≡ ok cfg)
          × ((s : Startup W) × (startup connect parse_duration yaml sha256 attempts cfg env w
                ≡ some s)
              × IsOrderly s env.ending))
  unfolding main run exit_status is_canceled
  main_zero attempts env w w' status h = elim (Result-cases (load parse_duration env.getenv)) [
    | inr (e, r) ↦
        let one = status_inj (rw (r, main, run) at h) in
        (λ z. absurd (omega arith), λ (cfg, l, s). absurd (cc (r, l)))
    | inl (cfg, r) ↦
        elim (Option-cases (startup connect parse_duration yaml sha256 attempts cfg env w)) [
          | inl n ↦ absurd (cc (rw (r, n, main, run) at h))
          | inr (s, n) ↦
              let is = status_inj (rw (r, n, main, run) at h) in
              (
                λ z. (cfg, r, (s, n, (after_startup_zero cfg env s).0 (is ∙ z))),
                λ (cfg', l, (s', t, o)).
                    let same =
                      subst
                        (λ c. startup connect parse_duration yaml sha256 attempts c env w ≡ some s')
                        (same_config r l) t in
                    sym is
                    ∙ (after_startup_zero cfg env s).1
                        (subst (λ q. IsOrderly q env.ending) (same_startup same n) o),
              )
        ]
  ]

  -- The process ends once its attempts to seed the lock reach the wait at which the signal comes,
  -- however msb answers and however the listener ends.
  pub main_settles :
      (attempts k : ℕ) (env : Surroundings) (w : W)
      → ((b : ℕ) → env.stops k b ≡ true)
      → k < attempts
      → (r : ℕ × W) × (main connect parse_duration yaml sha256 attempts env w ≡ some r)
  unfolding main run startup
  main_settles attempts k env w h lt = elim (Result-cases (load parse_duration env.getenv)) [
    | inr (e, r) ↦ rw (r, main, run) (_, refl)
    | inl (cfg, r) ↦
        let (s, t) =
          retry_settles (connect (client_config cfg)) env.stops max_backoff attempts 0 k
            initial_backoff new w (λ b. subst (λ j. env.stops j b ≡ true) (omega arith) (h b)) lt in
        rw (r, t, main, run) (_, refl)
  ]
