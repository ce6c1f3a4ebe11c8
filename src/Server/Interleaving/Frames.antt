-- ===== src/Server/Interleaving/Frames.antt =====
-- internal/server/sandboxes.go under net/http: what a handler in flight relies on, and what leaves it
-- alone.
use msb_manager.Prelude.{
  Text, Bool, true, false, ◌&&◌, and-true, some, List, lookup, Distinct, ◌≡◌, ◌≢◌, refl, ◌∙◌,
}
use msb_manager.Lock.{Held, release, release_volumes, has_name}
use msb_manager.Lock.Laws.{lookup-release, lookup-release_volumes, owns}
use msb_manager.Lock.Claims.{IsClaimed}
use msb_manager.Lock.Isolation.{kept_by_claim, kept_by_if}
use msb_manager.Msb.Types
use msb_manager.Server.{MsbClient, State}
use msb_manager.Server.Sandboxes.{volumes_from_spec}
use msb_manager.Server.Safety.{View}
use msb_manager.Server.Interleaving.{
  Point, idle, claiming, creating, create_failed, finding, found, starting, start_failed, stopping,
  removing, releasing, done, acts_on, moved,
}

-- a call for one sandbox changes the mounts of no other, and a read those of none
pub record MountLaws {W F : Type 0} (view : View W) (client : MsbClient W F) : Type 0 where
  pub inspect :
      (name : Text) (w : W) (n : Text)
      → view.volumes_of (client.inspect name w).1 n ≡ view.volumes_of w n
  pub create :
      (o : Types.CreateOpts) (w : W) (n : Text)
      → n ≢ o.name
      → view.volumes_of (client.create o w).1 n ≡ view.volumes_of w n
  pub start :
      (name : Text) (w : W) (n : Text)
      → n ≢ name
      → view.volumes_of (client.start name w).1 n ≡ view.volumes_of w n
  pub stop :
      (name : Text) (w : W) (n : Text)
      → n ≢ name
      → view.volumes_of (client.stop name w).1 n ≡ view.volumes_of w n
  pub rm :
      (name : Text) (w : W) (n : Text)
      → n ≢ name
      → view.volumes_of (client.rm name w).1 n ≡ view.volumes_of w n

module _ {W : Type 0} (view : View W) where
  -- no volume that was newly claimed for the sandbox is mounted by it while it runs
  abbrev pub Droppable : Text → List Text → State W → Type 0
  Droppable n newly st =
      (v : Text)
      → has_name v newly ≡ true
      → view.running st.world n ≡ true
      → has_name v (view.volumes_of st.world n) ≡ false

  -- every volume listed is held by the sandbox
  abbrev pub Holds : Text → List Text → State W → Type 0
  Holds n vs st = (v : Text) → has_name v vs ≡ true → lookup v st.held ≡ some n

  -- what a handler in flight relies on
  abbrev pub IsReady : {F : Type 0} → Point F → State W → Type 0
  IsReady idle st = Unit
  IsReady (claiming s) st = Unit
  IsReady (creating s newly) st =
      Holds s.name (volumes_from_spec s.volume) st × Droppable s.name newly st
  IsReady (create_failed s newly e) st = Droppable s.name newly st
  IsReady (finding n) st = Unit
  IsReady (found n vs) st = view.volumes_of st.world n ≡ vs
  IsReady (starting n newly) st = Holds n (view.volumes_of st.world n) st × Droppable n newly st
  IsReady (start_failed n newly e) st = Droppable n newly st
  IsReady (stopping n) st = Unit
  IsReady (removing n) st = Unit
  IsReady (releasing n r) st = view.running st.world n ≡ false
  IsReady (done r) st = Unit

  -- a step that leaves the sandbox alone: it has not started, and keeps its claims and its mounts
  pub record Frame (n : Text) (st st' : State W) : Type 0 where
    pub held : (v : Text) → lookup v st.held ≡ some n → lookup v st'.held ≡ some n
    pub running : view.running st'.world n ≡ true → view.running st.world n ≡ true
    pub mounts : view.volumes_of st'.world n ≡ view.volumes_of st.world n

  Frame-Droppable :
      (n : Text) (newly : List Text) {st st' : State W}
      → Frame n st st'
      → Droppable n newly st
      → Droppable n newly st'
  Frame-Droppable n newly f d v h up = rw f.mounts (d v h (f.running up))

  down_of : (b c : Bool) → (c ≡ true → b ≡ true) → b ≡ false → c ≡ false
  down_of b true f h = absurd (cc (f refl, h))
  down_of b false f h = refl

  -- A handler in flight stays ready when its sandbox is left alone.
  pub Frame-IsReady :
      {F : Type 0} (p : Point F) {st st' : State W}
      → ((n : Text) → acts_on p ≡ some n → Frame n st st')
      → IsReady p st
      → IsReady p st'
  Frame-IsReady idle f h = tt
  Frame-IsReady (claiming s) f h = tt
  Frame-IsReady (creating s newly) f h =
      let g = f s.name refl in (λ v k. g.held v (h.0 v k), Frame-Droppable s.name newly g h.1)
  Frame-IsReady (create_failed s newly e) f h = Frame-Droppable s.name newly (f s.name refl) h
  Frame-IsReady (finding n) f h = tt
  Frame-IsReady (found n vs) f h = (f n refl).mounts ∙ h
  Frame-IsReady (starting n newly) f h =
      let g = f n refl in
      (λ v k. g.held v (h.0 v (rw g.mounts at k)), Frame-Droppable n newly g h.1)
  Frame-IsReady (start_failed n newly e) f h = Frame-Droppable n newly (f n refl) h
  Frame-IsReady (stopping n) f h = tt
  Frame-IsReady (removing n) f h = tt
  Frame-IsReady (releasing n r) {st} {st'} f h =
      down_of (view.running st.world n) (view.running st'.world n) (f n refl).running h
  Frame-IsReady (done r) f h = tt

  -- the calls made for another sandbox
  pub Frame-claimed :
      (name n : Text) (vs newly : List Text) (st : State W) (m' : Held)
      → name ≢ n
      → IsClaimed vs name st.held newly m'
      → Frame n st (record st { held = m' })
  Frame-claimed name n vs newly st m' ne c = record {
    held = λ v e. kept_by_claim name n (has_name v vs) ne e (c.claims v) (c.was_free v);
    running = λ h. h;
    mounts = refl;
  }

  pub Frame-release_volumes :
      (name n : Text) (newly : List Text) (st : State W)
      → name ≢ n
      → Frame n st (record st { held = release_volumes newly name st.held })
  Frame-release_volumes name n newly st ne = record {
    held = λ v e.
        kept_by_if name n (has_name v newly && owns name (lookup v st.held)) ne e
          (lookup-release_volumes newly name st.held v)
          (λ o. (and-true (has_name v newly) (owns name (lookup v st.held)) o).1);
    running = λ h. h;
    mounts = refl;
  }

  pub Frame-release :
      (name n : Text) (st : State W)
      → name ≢ n
      → Distinct st.held
      → Frame n st (record st { held = release name st.held })
  Frame-release name n st ne d = record {
    held = λ v e.
        kept_by_if name n (owns name (lookup v st.held)) ne e (lookup-release name st.held v d)
          (λ o. o);
    running = λ h. h;
    mounts = refl;
  }

  pub Frame-moved :
      (n : Text) (st : State W) (w : W)
      → (view.running w n ≡ true → view.running st.world n ≡ true)
      → view.volumes_of w n ≡ view.volumes_of st.world n
      → Frame n st (moved st w)
  Frame-moved n st w r m = record { held = λ v e. e; running = r; mounts = m }
