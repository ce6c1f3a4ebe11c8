-- ===== src/Server/Safety/Claims.antt =====
-- internal/server with internal/lock: what a boot, a failed boot and an end of one sandbox do to the
-- claims that cover the running sandboxes.
use msb_manager.Prelude.{
  Text, true, some, List, ok, Bool-cases, inl, inr, ◌≡◌, ◌≢◌, refl, ◌∙◌, sym, lookup, Distinct,
  text_eq, text_eq_iff,
}
use msb_manager.Lock.{Held, acquire_many, release, release_volumes, has_name}
use msb_manager.Lock.Laws.{lookup-release, release-Distinct, release_volumes-Distinct, owns}
use msb_manager.Lock.Claims.{IsClaimed, release_volumes-acquire_many}
use msb_manager.Lock.Isolation.{kept_by_claim, kept_by_if}
use msb_manager.Server.{State}
use msb_manager.Server.Safety.{View, Same, Booted, Ended, Covers}

module _ {W : Type 0} (view : View W) where
  -- one sandbox boots with volumes that AcquireMany has claimed for it
  pub Covers-Booted :
      (name : Text) (vs newly : List Text) (st : State W) (m' : Held) (w' : W)
      → IsClaimed vs name st.held newly m'
      → Distinct m'
      → Booted view name st.world w'
      → (view.running w' name ≡ true → view.volumes_of w' name ≡ vs)
      → Covers view st
      → Covers view (record st { held = m'; world = w' })
  Covers-Booted name vs newly st m' w' claim d boot vols c = record {
    distinct = d;
    claimed = λ n v up on. elim (Bool-cases (text_eq n name)) [
      | inl e ↦ own n v ((text_eq_iff n name).0 e) up on
      | inr e ↦ other n v (λ q. cc (e, (text_eq_iff n name).1 q)) up on
    ];
  }
    where
      own :
          (n v : Text)
          → n ≡ name
          → view.running w' n ≡ true
          → has_name v (view.volumes_of w' n) ≡ true
          → lookup v m' ≡ some n
      own n v e up on =
          let listed : has_name v vs ≡ true = rw (e, vols (rw e at up)) at on in
          rw (e, claim.claims v, listed) refl

      other :
          (n v : Text)
          → n ≢ name
          → view.running w' n ≡ true
          → has_name v (view.volumes_of w' n) ≡ true
          → lookup v m' ≡ some n
      other n v ne up on =
          kept_by_claim name n (has_name v vs) (λ q. ne (sym q))
            (c.claimed n v (boot.running n ne up) (rw (boot.volumes n ne up) at on))
            (claim.claims v) (claim.was_free v)

  -- the boot failed, and what was claimed for it is released
  pub Covers-rolled_back :
      (name : Text) (vs newly : List Text) (st : State W) (m' : Held) (w' : W)
      → acquire_many vs name st.held ≡ (ok newly, m')
      → Distinct m'
      → Same view st.world w'
      → Covers view st
      → Covers view (record st { held = release_volumes newly name m'; world = w' })
  Covers-rolled_back name vs newly st m' w' claim d same c = record {
    distinct = release_volumes-Distinct newly name m' d;
    claimed = λ n v up on.
        release_volumes-acquire_many vs name st.held newly m' v claim
        ∙ c.claimed n v (same.running n up) (rw (same.volumes n up) at on);
  }

  -- a sandbox that has ended gives back its volumes
  pub Covers-Ended :
      (name : Text) (st : State W) (w' : W)
      → Ended view name st.world w'
      → Covers view st
      → Covers view (record st { held = release name st.held; world = w' })
  Covers-Ended name st w' end c = record {
    distinct = release-Distinct name st.held c.distinct;
    claimed = λ n v up on.
        kept_by_if name n (owns name (lookup v st.held)) (λ q. alive n up (sym q))
          (c.claimed n v (end.running n up) (rw (end.volumes n up) at on))
          (lookup-release name st.held v c.distinct) (λ o. o);
  }
    where
      alive : (n : Text) → view.running w' n ≡ true → n ≢ name
      alive n up q = cc (up, q, end.down)
