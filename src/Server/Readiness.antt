-- ===== src/Server/Readiness.antt =====
-- internal/server/server.go: /healthz, and /readyz with its cache. The clock is read before the
-- test of the age and again after `msb ls`: the two readings are arguments, in nanoseconds.
pub mod Caching
use msb_manager.Prelude.{
  ℕ, ◌-◌, Text, Bool, true, false, Option, none, some, ltb, if◌then◌else◌, Result, ok, err,
}
use msb_manager.Msb.Errors.{Error, canceled, install_keys}
use msb_manager.Server.{MsbClient, Response, State, ReadinessCache, empty}

-- readinessTTL
abbrev pub readiness_ttl : ℕ
readiness_ttl = 2000000000

-- time.Since(rc.checkedAt) < rc.ttl; the zero time is older than any ttl
abbrev pub is_fresh : ReadinessCache → ℕ → Bool
is_fresh c now = elim c.checked_at [ none ↦ false | some t ↦ ltb (now - t) readiness_ttl ]

-- errors.Is(err, context.Canceled)
unfoldable pub is_canceled : Error → Bool
is_canceled canceled = true
is_canceled (install_keys e) = is_canceled e
is_canceled _ = false

abbrev pub failure_of {ℓ} : {A : Type ℓ} → Result Error A → Option Error
failure_of (ok a) = none
failure_of (err e) = some e

-- the cache once `msb ls` has been run
unfoldable pub remember : ReadinessCache → ℕ → Option Error → ReadinessCache
remember c later none = record { checked_at = some later; last = none }
remember c later (some e) =
    if is_canceled e then c else record { checked_at = some later; last = some e }

module _ {W F : Type 0} (client : MsbClient W F) where
  -- readinessCache.ready
  unfoldable pub ready : ℕ → ℕ → State W → Option Error × State W
  unfolding remember is_canceled
  ready now later st =
      let (r, w) = client.list st.world in
      let e = failure_of r in
      if is_fresh st.readiness now
      then (st.readiness.last, st)
      else (e, record st { world = w; readiness = remember st.readiness later e })

  abbrev pub probe_response : Option Error → Response F
  probe_response none = record { status = 200; body = empty }
  probe_response (some e) = record { status = 503; body = empty }

  -- handleReadyz
  unfoldable pub handle_readyz : ℕ → ℕ → State W → Response F × State W
  unfolding ready
  handle_readyz now later st = let (e, st') = ready now later st in (probe_response e, st')

  -- handleHealthz
  unfoldable pub handle_healthz : State W → Response F × State W
  handle_healthz st = (record { status = 200; body = empty }, st)
