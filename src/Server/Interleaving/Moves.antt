-- ===== src/Server/Interleaving/Moves.antt =====
-- internal/server/sandboxes.go under net/http: one step of one handler keeps every claim covered,
-- leaves the handler ready for its next step, and leaves the other sandboxes alone.
use msb_manager.Prelude.{
  Text, true, false, some, List, Bool-cases, inl, inr, lookup, Distinct, ◌≡◌, ◌≢◌, refl, sym, ◌∙◌,
  text_eq, text_eq_iff, arith,
}
use msb_manager.Lock.{Held, release, release_volumes, has_name}
use msb_manager.Lock.Laws.{lookup-release_volumes, release_volumes-Distinct}
use msb_manager.Lock.Claims.{IsClaimed}
use msb_manager.Server.{State}
use msb_manager.Server.Safety.{View, Same, Booted, Covers}
use msb_manager.Server.Safety.Claims.{Covers-Ended}
use msb_manager.Server.Interleaving.{Point, acts_on, moved}
use msb_manager.Server.Interleaving.Frames.{
  Droppable, Holds, IsReady, Frame, Frame-claimed, Frame-release_volumes,
}

module _ {W : Type 0} (view : View W) where
  -- AcquireMany alone, before the machine is asked for anything
  pub Covers-claimed :
      (name : Text) (vs newly : List Text) (st : State W) (m' : Held)
      → IsClaimed vs name st.held newly m'
      → Distinct m'
      → Covers view st
      → Covers view (record st { held = m' })
  Covers-claimed name vs newly st m' k d c = record {
    distinct = d;
    claimed = λ n v up on. elim (Bool-cases (text_eq n name)) [
      | inl e ↦ ground (arith, text_eq_iff n name, k.claims v, c.claimed n v up on)
      | inr e ↦
          (Frame-claimed view name n vs newly st m' (λ q. cc (e, (text_eq_iff n name).1 (sym q)))
              k).held
            v (c.claimed n v up on)
    ];
  }

  pub Droppable-claimed :
      (name : Text) (vs newly : List Text) (st : State W) (m' : Held)
      → IsClaimed vs name st.held newly m'
      → Covers view st
      → Droppable view name newly (record st { held = m' })
  Droppable-claimed name vs newly st m' k c v h up =
      elim (Bool-cases (has_name v (view.volumes_of st.world name))) [
        | inl on ↦ absurd (ground (arith, k.fresh v, c.claimed name v up on))
        | inr off ↦ off
      ]

  -- ReleaseVolumes of what no running sandbox mounts
  pub Covers-dropped :
      (name : Text) (newly : List Text) (st : State W)
      → Droppable view name newly st
      → Covers view st
      → Covers view (record st { held = release_volumes newly name st.held })
  Covers-dropped name newly st d c = record {
    distinct = release_volumes-Distinct newly name st.held c.distinct;
    claimed = λ n v up on. elim (Bool-cases (text_eq n name)) [
      | inl e ↦ own n v ((text_eq_iff n name).0 e) up on
      | inr e ↦
          (Frame-release_volumes view name n newly st
              (λ q. cc (e, (text_eq_iff n name).1 (sym q)))).held
            v (c.claimed n v up on)
    ];
  }
    where
      own :
          (n v : Text)
          → n ≡ name
          → view.running st.world n ≡ true
          → has_name v (view.volumes_of st.world n) ≡ true
          → lookup v (release_volumes newly name st.held) ≡ some n
      own n v q up on = elim (Bool-cases (has_name v newly)) [
        | inl h ↦ absurd (cc (on, q, d v h (rw q at up)))
        | inr h ↦ lookup-release_volumes newly name st.held v ∙ (rw h (c.claimed n v up on))
      ]

  -- Release for a sandbox that does not run
  pub Covers-released :
      (name : Text) (st : State W)
      → view.running st.world name ≡ false
      → Covers view st
      → Covers view (record st { held = release name st.held })
  Covers-released name st down c =
      Covers-Ended view name st st.world
        (record { down = down; running = λ n h. h; volumes = λ n h. refl }) c

  -- a sandbox boots on volumes that are held for it
  pub Covers-Booted :
      (name : Text) (vs : List Text) (st : State W) (w : W)
      → Holds view name vs st
      → Booted view name st.world w
      → (view.running w name ≡ true → view.volumes_of w name ≡ vs)
      → Covers view st
      → Covers view (moved st w)
  Covers-Booted name vs st w holds boot vols c = record {
    distinct = c.distinct;
    claimed = λ n v up on. elim (Bool-cases (text_eq n name)) [
      | inl e ↦ own n v ((text_eq_iff n name).0 e) up on
      | inr e ↦ other n v (λ q. cc (e, (text_eq_iff n name).1 q)) up on
    ];
  }
    where
      own :
          (n v : Text)
          → n ≡ name
          → view.running w n ≡ true
          → has_name v (view.volumes_of w n) ≡ true
          → lookup v st.held ≡ some n
      own n v e up on =
          let listed : has_name v vs ≡ true = rw (e, vols (rw e at up)) at on in
          rw e (holds v listed)

      other :
          (n v : Text)
          → n ≢ name
          → view.running w n ≡ true
          → has_name v (view.volumes_of w n) ≡ true
          → lookup v st.held ≡ some n
      other n v ne up on = c.claimed n v (boot.running n ne up) (rw (boot.volumes n ne up) at on)

  pub Droppable-Same :
      (name : Text) (newly : List Text) (st : State W) (w : W)
      → Same view st.world w
      → Droppable view name newly st
      → Droppable view name newly (moved st w)
  Droppable-Same name newly st w same d v h up =
      rw (same.volumes name up) (d v h (same.running name up))

  -- what a step of a handler leaves behind
  pub record IsKept {F : Type 0} (p : Point F) (st : State W) (q : Point F × State W) : Type 0 where
    pub covers : Covers view q.1
    pub ready : IsReady view q.0 q.1
    pub frame : (n : Text) → acts_on p ≢ some n → Frame view n st q.1
    pub acts : (n : Text) → acts_on q.0 ≡ some n → acts_on p ≡ some n
