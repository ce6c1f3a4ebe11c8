-- ===== src/Manager/Seeding.antt =====
-- cmd/msb-manager/main.go: the server starts with every volume of a running sandbox claimed for it.
use msb_manager.Prelude.{
  ℕ, zero, suc, Text, Bool, false, none, some, List, [], Map, Result, ok, err, Result-cases,
  Bool-cases, Option-cases, inl, inr, ◌≡◌, refl, sym, ◌∙◌, arith,
}
use msb_manager.Lock.{Held}
use msb_manager.Lock.Laws.{lookup-reconcile, reconcile-Distinct}
use msb_manager.Msb.Errors.{Error}
use msb_manager.Msb.Types
use msb_manager.Msb.Types.{volume_names}
use msb_manager.Server.{MsbClient, ReadinessCache}
use msb_manager.Server.Safety.{View, Covers}
use msb_manager.Server.Safety.Serving.{IsExclusive}
use msb_manager.Manager.{
  collect, seeded, reconcile_volumes, reconcile_with_retry, next_backoff, ready, abandoned,
}
use msb_manager.Manager.Collecting.{StartupLaws, collect-Claims, collect-world}

module _ {W : Type 0} where
  ready-held : {m m' : Held} {w w' : W} → some (ready m w) ≡ some (ready m' w') → m ≡ m'
  ready-held h = cc h

  ready-world : {m m' : Held} {w w' : W} → some (ready m w) ≡ some (ready m' w') → w ≡ w'
  ready-world h = cc h

  abandoned_inj : {e e' : Error} {w w' : W} → some (abandoned e w) ≡ some (abandoned e' w') → w ≡ w'
  abandoned_inj h = cc h

module _ {W F : Type 0} (view : View W) (client : MsbClient W F)
    (laws : StartupLaws view client) where
  seeded-world : (r : Result Error (Map Text) × W) (held : Held) → (seeded client r held).1.1 ≡ r.1
  seeded-world (ok state, w) held = refl
  seeded-world (err e, w) held = refl

  reconcile-world : (held : Held) (w : W) → (reconcile_volumes client held w).1.1 ≡ w
  unfolding reconcile_volumes
  reconcile-world held w = elim (Result-cases (client.list w).0) [
    | inr (x, r) ↦ rw (r, reconcile_volumes) (laws.list_reads w)
    | inl (l, r) ↦
        rw (r, reconcile_volumes)
          (seeded-world (collect client l [] (client.list w).1) held
            ∙ collect-world view client laws l [] (client.list w).1
            ∙ laws.list_reads w)
  ]

  seeded-Covers :
      (l : List Types.Sandbox) (held : Held) (w : W) (cache : ReadinessCache)
      → (client.list w).0 ≡ ok l
      → IsExclusive view w
      → (seeded client (collect client l [] w) held).0 ≡ none
      → Covers view (record {
        held = (seeded client (collect client l [] w) held).1.0;
        world = w;
        readiness = cache;
      })
  seeded-Covers l held w cache r ex h = elim (Result-cases (collect client l [] w).0) [
    | inr (x, k) ↦ absurd (cc (rw k at h))
    | inl (got, k) ↦
        let (c, s) =
          collect-Claims view client laws l (λ n. false) [] w got ex (λ n f. absurd (cc f))
            (λ n f. laws.list_tells w l n r ∙ f)
            (record { distinct = tt; claimed = λ n v f on. absurd (cc f) }) k in
        rw k (record {
          distinct = reconcile-Distinct got held;
          claimed = λ n v up on.
              lookup-reconcile got held v c.distinct
              ∙ c.claimed n v (ground (arith, laws.list_tells w l n r)) on;
        })
  ]

  reconcile-Covers :
      (held : Held) (w : W) (cache : ReadinessCache)
      → IsExclusive view w
      → (reconcile_volumes client held w).0 ≡ none
      → Covers view
          (record { held = (reconcile_volumes client held w).1.0; world = w; readiness = cache })
  unfolding reconcile_volumes
  reconcile-Covers held w cache ex h = elim (Result-cases (client.list w).0) [
    | inr (x, r) ↦ absurd (cc (rw (r, reconcile_volumes) at h))
    | inl (l, r) ↦
        rw (r, reconcile_volumes, laws.list_reads w)
          (seeded-Covers l held w cache r ex (rw (r, reconcile_volumes, laws.list_reads w) at h))
  ]

  -- The startup ends with a seeded lock only when a whole pass over msb's sandboxes has succeeded:
  -- then every volume of a running sandbox is claimed for it, when no two of them share a volume
  -- and msb's reads tell what runs.
  pub reconcile_with_retry-Covers :
      (stops : ℕ → ℕ → Bool) (limit n i backoff : ℕ) (held held' : Held) (w w' : W)
      (cache : ReadinessCache)
      → IsExclusive view w
      → reconcile_with_retry client stops limit n i backoff held w ≡ some (ready held' w')
      → Covers view (record { held = held'; world = w'; readiness = cache })
  unfolding reconcile_with_retry
  reconcile_with_retry-Covers stops limit zero i b held held' w w' cache ex h = absurd (cc h)
  reconcile_with_retry-Covers stops limit (suc n) i b held held' w w' cache ex h =
      elim (Option-cases (reconcile_volumes client held w).0) [
        | inl e ↦
            let k = rw (e, reconcile_with_retry) at h in
            rw (← ready-held k, ← ready-world k, reconcile-world held w)
              (reconcile-Covers held w cache ex e)
        | inr (x, e) ↦ elim (Bool-cases (stops i b)) [
          | inl t ↦ absurd (cc (rw (e, t, reconcile_with_retry) at h))
          | inr t ↦
              reconcile_with_retry-Covers stops limit n (suc i) (next_backoff limit b)
                (reconcile_volumes client held w).1.0 held' w w' cache ex
                (rw (e, t, reconcile_with_retry, reconcile-world held w) at h)
        ]
      ]

  -- A startup that is abandoned has left the machine as it was.
  pub abandoned-world :
      (stops : ℕ → ℕ → Bool) (limit n i backoff : ℕ) (held : Held) (e : Error) (w w' : W)
      → reconcile_with_retry client stops limit n i backoff held w ≡ some (abandoned e w')
      → w' ≡ w
  unfolding reconcile_with_retry
  abandoned-world stops limit zero i b held e w w' h = absurd (cc h)
  abandoned-world stops limit (suc n) i b held e w w' h =
      elim (Option-cases (reconcile_volumes client held w).0) [
        | inl k ↦ absurd (cc (rw (k, reconcile_with_retry) at h))
        | inr (x, k) ↦ elim (Bool-cases (stops i b)) [
          | inl t ↦
              sym (abandoned_inj (rw (k, t, reconcile_with_retry) at h)) ∙ reconcile-world held w
          | inr t ↦
              abandoned-world stops limit n (suc i) (next_backoff limit b)
                (reconcile_volumes client held w).1.0 e w w'
                (rw (k, t, reconcile_with_retry, reconcile-world held w) at h)
        ]
      ]
