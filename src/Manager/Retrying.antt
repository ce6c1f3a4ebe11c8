-- ===== src/Manager/Retrying.antt =====
-- cmd/msb-manager/main.go: the retry loop of the startup ends when its context is canceled.
use msb_manager.Prelude.{
  ℕ, zero, suc, ◌+◌, ◌<◌, Bool, true, some, Option-cases, Bool-cases, inl, inr, ◌≡◌, refl, arith,
}
use mathlib.Core.Path.{subst}
use msb_manager.Lock.{Held}
use msb_manager.Server.{MsbClient}
use msb_manager.Manager.{Startup, ready, abandoned, reconcile_volumes, reconcile_with_retry}

module _ {W F : Type 0} (client : MsbClient W F) (stops : ℕ → ℕ → Bool) (limit : ℕ) where
  here : (i b : ℕ) → ((b : ℕ) → stops (i + 0) b ≡ true) → stops i b ≡ true
  here i b h = subst (λ j. stops j b ≡ true) (omega arith) (h b)

  later : (i k : ℕ) → ((b : ℕ) → stops (i + suc k) b ≡ true) → (b : ℕ) → stops (suc i + k) b ≡ true
  later i k h b = subst (λ j. stops j b ≡ true) (omega arith) (h b)

  -- Attempts that reach the wait at which the context is canceled are enough for the loop to end: it
  -- has seeded the lock, or gives up.
  pub retry_settles :
      (n i k backoff : ℕ) (held : Held) (w : W)
      → ((b : ℕ) → stops (i + k) b ≡ true)
      → k < n
      → (r : Startup W) × (reconcile_with_retry client stops limit n i backoff held w ≡ some r)
  unfolding reconcile_with_retry
  retry_settles zero i k b held w h lt = absurd (omega arith)
  retry_settles (suc n) i zero b held w h lt =
      elim (Option-cases (reconcile_volumes client held w).0) [
        | inl e ↦ rw (e, reconcile_with_retry) (ready _ _, refl)
        | inr (x, e) ↦ rw (e, here i b h, reconcile_with_retry) (abandoned x _, refl)
      ]
  retry_settles (suc n) i (suc k) b held w h lt =
      elim (Option-cases (reconcile_volumes client held w).0) [
        | inl e ↦ rw (e, reconcile_with_retry) (ready _ _, refl)
        | inr (x, e) ↦ elim (Bool-cases (stops i b)) [
          | inl t ↦ rw (e, t, reconcile_with_retry) (abandoned x _, refl)
          | inr t ↦
              rw (e, t, reconcile_with_retry)
                (retry_settles n (suc i) k _ _ _ (later i k h) (omega arith))
        ]
      ]
