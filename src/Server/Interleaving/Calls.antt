-- ===== src/Server/Interleaving/Calls.antt =====
-- internal/server/sandboxes.go under net/http: a call of the lock or of the adapter in a step.
use msb_manager.Prelude.{
  Text, true, some, List, Result, ok, err, inl, inr, ◌≡◌, ◌≢◌, refl, sym, ap, ◌∙◌,
}
use msb_manager.Lock.{Held, acquire_many}
use msb_manager.Lock.Claims.{
  IsClaimed, acquire_many_outcome, acquire_many-IsClaimed, acquire_many-Distinct,
}
use msb_manager.Msb.Errors.{Error}
use msb_manager.Msb.Types
use msb_manager.Msb.Types.{volume_names}
use msb_manager.Server.{Response, State}
use msb_manager.Server.Safety.{View, Covers}
use msb_manager.Server.Interleaving.{Point, done, acts_on, moved, after_acquire, after_inspect}
use msb_manager.Server.Interleaving.Frames.{Droppable, IsReady, Frame, Frame-claimed, Frame-moved}
use msb_manager.Server.Interleaving.Moves.{IsKept, Covers-claimed, Droppable-claimed}

module _ {W : Type 0} (view : View W) where
  Frame-here : (n : Text) (st : State W) → Frame view n st st
  Frame-here n st = record { held = λ v e. e; running = λ h. h; mounts = refl }

pub after_inspect-acts :
    (F : Type 0) (n : Text) (r : Result Error Types.SandboxDetail) (m : Text)
    → acts_on (after_inspect {F = F} n r) ≡ some m
    → some n ≡ some m
after_inspect-acts F n (ok d) m h = h
after_inspect-acts F n (err e) m h = absurd (cc h)

pub after_inspect-IsReady :
    {W : Type 0} (F : Type 0) (view : View W) (n : Text) (r : Result Error Types.SandboxDetail)
    (st : State W)
    → ((d : Types.SandboxDetail) → r ≡ ok d → view.volumes_of st.world n ≡ volume_names d)
    → IsReady view (after_inspect {F = F} n r) st
after_inspect-IsReady F view n (ok d) st h = h d refl
after_inspect-IsReady F view n (err e) st h = tt

module _ {W F : Type 0} (view : View W) where
  -- nothing changes
  pub still-IsKept :
      (p q : Point F) (st : State W)
      → ((n : Text) → acts_on q ≡ some n → acts_on p ≡ some n)
      → IsReady view q st
      → Covers view st
      → IsKept view p st (q, st)
  still-IsKept p q st a r c = record {
    covers = c;
    ready = r;
    frame = λ n ne. Frame-here view n st;
    acts = a;
  }

  pub done-acts :
      (p : Point F) (r : Response F) (n : Text) → acts_on (done r) ≡ some n → acts_on p ≡ some n
  done-acts p r n h = absurd (cc h)

  -- a call of AcquireMany
  pub acquired-IsKept :
      (p : Point F) (name : Text) (vs : List Text) (continue : List Text → Point F) (st : State W)
      → acts_on p ≡ some name
      → ((newly : List Text) → acts_on (continue newly) ≡ some name)
      → ((newly : List Text) (m' : Held)
          → IsClaimed vs name st.held newly m'
          → Droppable view name newly (record st { held = m' })
          → IsReady view (continue newly) (record st { held = m' }))
      → Covers view st
      → IsKept view p st (
        after_acquire continue (acquire_many vs name st.held).0,
        record st { held = (acquire_many vs name st.held).1 },
      )
  acquired-IsKept p name vs continue st a b r c = elim (acquire_many_outcome vs name st.held) [
    | inl (newly, o, e) ↦
        let m' = (acquire_many vs name st.held).1 in
        let k = acquire_many-IsClaimed vs name st.held newly m' e in
        let d = Droppable-claimed view name vs newly st m' k c in
        rw o (record {
          covers =
              Covers-claimed view name vs newly st m' k
                (acquire_many-Distinct vs name st.held c.distinct) c;
          ready = r newly m' k d;
          frame = λ n ne. Frame-claimed view name n vs newly st m' (λ q. ne (a ∙ ap some q)) k;
          acts = λ n h. a ∙ sym (b newly) ∙ h;
        })
    | inr (x, o, e) ↦ rw (o, e) (still-IsKept p (done _) st (λ m h. absurd (cc h)) tt c)
  ]

  -- a call of the adapter
  pub called-IsKept :
      (p q : Point F) (name : Text) (st : State W) (w : W)
      → acts_on p ≡ some name
      → ((n : Text) → acts_on q ≡ some n → acts_on p ≡ some n)
      → ((n : Text) → n ≢ name → view.running w n ≡ true → view.running st.world n ≡ true)
      → ((n : Text) → n ≢ name → view.volumes_of w n ≡ view.volumes_of st.world n)
      → IsReady view q (moved st w)
      → Covers view (moved st w)
      → IsKept view p st (q, moved st w)
  called-IsKept p q name st w a b run mount r c = record {
    covers = c;
    ready = r;
    frame = λ n ne.
        Frame-moved view n st w (run n (λ e. ne (a ∙ ap some (sym e))))
          (mount n (λ e. ne (a ∙ ap some (sym e))));
    acts = b;
  }
