-- ===== src/Server/Readiness/Caching.antt =====
-- internal/server/server.go: what the cache of /readyz makes of two polls.
use msb_manager.Prelude.{
  ℕ, ◌-◌, ◌<◌, true, false, some, ltb, err, Result-cases, inl, inr, ◌≡◌, refl, arith,
}
use msb_manager.Msb.Errors.{Error}
use msb_manager.Server.{MsbClient, State}
use msb_manager.Server.Readiness.{ready, remember, is_fresh, is_canceled, readiness_ttl}

fresh : (a b : ℕ) → a - b < readiness_ttl → ltb (a - b) readiness_ttl ≡ true
fresh a b h = ground arith

module _ {W F : Type 0} (client : MsbClient W F) where
  -- A poll within the time to live of a run of `msb ls` that no client canceled gives the verdict of
  -- that run and runs nothing.
  pub ready_repeats :
      (now later now' later' : ℕ) (st : State W)
      → is_fresh st.readiness now ≡ false
      → ((e : Error) → (client.list st.world).0 ≡ err e → is_canceled e ≡ false)
      → now' - later < readiness_ttl
      → ready client now' later' (ready client now later st).1 ≡ ready client now later st
  unfolding ready remember
  ready_repeats now later now' later' st stale live h =
      elim (Result-cases (client.list st.world).0) [
        | inl (l, r) ↦ rw (stale, r, fresh now' later h) refl
        | inr (e, r) ↦ rw (stale, r, live e r, fresh now' later h) refl
      ]

  -- A run of `msb ls` that the polling client canceled leaves the cache as it was, so the next poll
  -- runs it again.
  pub ready_canceled :
      (now later : ℕ) (st : State W) (e : Error)
      → is_fresh st.readiness now ≡ false
      → (client.list st.world).0 ≡ err e
      → is_canceled e ≡ true
      → ready client now later st ≡ (some e, record st { world = (client.list st.world).1 })
  unfolding ready remember
  ready_canceled now later st e stale r x = rw (stale, r, x) refl
