-- ===== src/Server/Interleaving/Steps.antt =====
-- internal/server/sandboxes.go under net/http: each of the steps of a handler.
use msb_manager.Prelude.{
  Text, true, false, some, List, Result, ok, err, Result-cases, Bool-cases, inl, inr, ◌≡◌, ◌≢◌,
  refl, ap, ◌∙◌,
}
use msb_manager.Lock.{release_volumes}
use msb_manager.Msb.Errors.{Error, sandbox_not_found, is_error}
use msb_manager.Spec.{Spec, to_create_opts}
use msb_manager.Server.{MsbClient, Response, State}
use msb_manager.Server.Sandboxes.{volumes_from_spec}
use msb_manager.Server.Safety.{View, Same, Ended, Covers, Covers-Same, MsbLaws}
use msb_manager.Server.Safety.Mutations.{create_boots, create_mounts}
use msb_manager.Server.Interleaving.{
  Point, idle, claiming, creating, create_failed, finding, found, starting, start_failed, stopping,
  removing, releasing, done, acts_on, moved, advance, after_end,
}
use msb_manager.Server.Interleaving.Frames.{
  MountLaws, Droppable, Holds, IsReady, Frame-release_volumes, Frame-release,
}
use msb_manager.Server.Interleaving.Moves.{
  IsKept, Covers-dropped, Covers-released, Covers-Booted, Droppable-Same,
}
use msb_manager.Server.Interleaving.Calls.{
  after_inspect-acts, after_inspect-IsReady, still-IsKept, done-acts, acquired-IsKept,
  called-IsKept,
}

module _ {W F : Type 0} (view : View W) (client : MsbClient W F) (laws : MsbLaws view client)
    (mounts : MountLaws view client) where
  claiming-IsKept :
      (s : Spec) (st : State W)
      → Covers view st
      → IsKept view (claiming s) st (advance client (claiming s) st)
  unfolding advance
  claiming-IsKept s st c =
      acquired-IsKept view (claiming s) s.name (volumes_from_spec s.volume) (creating s) st refl
        (λ newly. refl) (λ newly m' k d. (λ v h. rw (k.claims v, h) refl, d)) c

  found-IsKept :
      (n : Text) (vs : List Text) (st : State W)
      → view.volumes_of st.world n ≡ vs
      → Covers view st
      → IsKept view (found n vs) st (advance client (found n vs) st)
  unfolding advance
  found-IsKept n vs st e c =
      acquired-IsKept view (found n vs) n vs (starting n) st refl (λ newly. refl)
        (λ newly m' k d. (λ v h. rw (k.claims v, rw e at h) refl, d)) c

  finding-IsKept :
      (n : Text) (st : State W)
      → Covers view st
      → IsKept view (finding n) st (advance client (finding n) st)
  unfolding advance
  finding-IsKept n st c =
      let (r, w) = client.inspect n st.world in
      let same = laws.inspect n st.world in
      called-IsKept view (finding n) _ n st w refl (after_inspect-acts F n r)
        (λ m ne. same.running m) (λ m ne. mounts.inspect n st.world m)
        (after_inspect-IsReady F view n r (moved st w) (laws.inspect_volumes n st.world))
        (Covers-Same view st w same c)

  starting-IsKept :
      (n : Text) (newly : List Text) (st : State W)
      → Holds view n (view.volumes_of st.world n) st
      → Droppable view n newly st
      → Covers view st
      → IsKept view (starting n newly) st (advance client (starting n newly) st)
  unfolding advance
  starting-IsKept n newly st holds d c = elim (Result-cases (client.start n st.world).0) [
    | inl (tt, r) ↦
        let boot = laws.start_boots n st.world r in
        rw (r, advance)
          (called-IsKept view (starting n newly) (done _) n st _ refl (λ m h. absurd (cc h))
            boot.running (mounts.start n st.world) tt
            (Covers-Booted view n (view.volumes_of st.world n) st _ holds boot
              (laws.start_keeps n st.world) c))
    | inr (e, r) ↦
        let same = laws.start_fails n st.world e r in
        rw (r, advance)
          (called-IsKept view (starting n newly) (start_failed n newly e) n st _ refl (λ m h. h)
            (λ m ne. same.running m) (mounts.start n st.world)
            (Droppable-Same view n newly st _ same d) (Covers-Same view st _ same c))
  ]

  creating-IsKept :
      (s : Spec) (newly : List Text) (st : State W)
      → Holds view s.name (volumes_from_spec s.volume) st
      → Droppable view s.name newly st
      → Covers view st
      → IsKept view (creating s newly) st (advance client (creating s newly) st)
  unfolding advance
  creating-IsKept s newly st holds d c =
      let o = to_create_opts s in
      elim (Result-cases (client.create o st.world).0) [
        | inl (tt, r) ↦
            let boot = create_boots view client laws s st.world r in
            rw (r, advance)
              (called-IsKept view (creating s newly) (done _) s.name st _ refl
                (λ m h. absurd (cc h)) boot.running (create_apart s st.world) tt
                (Covers-Booted view s.name (volumes_from_spec s.volume) st _ holds boot
                  (create_mounts view client laws s st.world r) c))
        | inr (e, r) ↦
            let same = laws.create_fails o st.world e r in
            rw (r, advance)
              (called-IsKept view (creating s newly) (create_failed s newly e) s.name st _ refl
                (λ m h. h) (λ m ne. same.running m) (create_apart s st.world)
                (Droppable-Same view s.name newly st _ same d) (Covers-Same view st _ same c))
      ]
    where
      create_apart :
          (s : Spec) (w : W) (n : Text)
          → n ≢ s.name
          → view.volumes_of (client.create (to_create_opts s) w).1 n ≡ view.volumes_of w n
      create_apart s w n ne = unfold to_create_opts in mounts.create (to_create_opts s) w n ne

  dropping-IsKept :
      (p : Point F) (r : Response F) (name : Text) (newly : List Text) (st : State W)
      → acts_on p ≡ some name
      → Droppable view name newly st
      → Covers view st
      → IsKept view p st (done r, record st { held = release_volumes newly name st.held })
  dropping-IsKept p r name newly st a d c = record {
    covers = Covers-dropped view name newly st d c;
    ready = tt;
    frame = λ n ne. Frame-release_volumes view name n newly st (λ q. ne (a ∙ ap some q));
    acts = done-acts view p r;
  }

  releasing-IsKept :
      (name : Text) (r : Response F) (st : State W)
      → view.running st.world name ≡ false
      → Covers view st
      → IsKept view (releasing name r) st (advance client (releasing name r) st)
  unfolding advance
  releasing-IsKept name r st down c = record {
    covers = Covers-released view name st down c;
    ready = tt;
    frame = λ n ne. Frame-release view name n st (λ q. ne (ap some q)) c.distinct;
    acts = done-acts view (releasing name r) r;
  }

  gone-IsKept :
      (p q : Point F) (name : Text) (st : State W) (w : W)
      → acts_on p ≡ some name
      → ((n : Text) → acts_on q ≡ some n → acts_on p ≡ some n)
      → ((n : Text) → n ≢ name → view.volumes_of w n ≡ view.volumes_of st.world n)
      → Ended view name st.world w
      → IsReady view q (moved st w)
      → Covers view st
      → IsKept view p st (q, moved st w)
  gone-IsKept p q name st w a b mount end r c =
      called-IsKept view p q name st w a b (λ m ne. end.running m) mount r
        (Covers-Same view st w (record { running = end.running; volumes = end.volumes }) c)

  -- a call of msb that ends the sandbox, by its result
  ending-IsKept :
      (p : Point F) (op name : Text) (r : Result Error (Unit {0})) (st : State W) (w : W)
      → acts_on p ≡ some name
      → ((n : Text) → n ≢ name → view.volumes_of w n ≡ view.volumes_of st.world n)
      → (r ≡ ok tt → Ended view name st.world w)
      → ((e : Error) → r ≡ err e → is_error e sandbox_not_found ≡ true → Ended view name st.world w)
      → ((e : Error) → r ≡ err e → is_error e sandbox_not_found ≡ false → Same view st.world w)
      → Covers view st
      → IsKept view p st (after_end op name r, moved st w)
  unfolding after_end
  ending-IsKept p op name (ok tt) st w a mount ends gone failed c =
      gone-IsKept p (releasing name _) name st w a (λ m h. a ∙ h) mount (ends refl) (ends refl).down
        c
  ending-IsKept p op name (err e) st w a mount ends gone failed c =
      elim (Bool-cases (is_error e sandbox_not_found)) [
        | inl g ↦ rw g (
            gone-IsKept p (releasing name _) name st w a (λ m h. a ∙ h) mount (gone e refl g)
              (gone e refl g).down c)
        | inr g ↦
            let same = failed e refl g in
            rw g (
              called-IsKept view p (done _) name st w a (λ m h. absurd (cc h))
                (λ m ne. same.running m) mount tt (Covers-Same view st w same c))
      ]

  -- A step of a handler that is ready.
  pub advance-IsKept :
      (p : Point F) (st : State W)
      → IsReady view p st
      → Covers view st
      → IsKept view p st (advance client p st)
  unfolding advance
  advance-IsKept idle st h c = still-IsKept view idle idle st (λ n e. e) tt c
  advance-IsKept (claiming s) st h c = claiming-IsKept s st c
  advance-IsKept (creating s newly) st h c = creating-IsKept s newly st h.0 h.1 c
  advance-IsKept (create_failed s newly e) st h c =
      dropping-IsKept (create_failed s newly e) _ s.name newly st refl h c
  advance-IsKept (finding n) st h c = finding-IsKept n st c
  advance-IsKept (found n vs) st h c = found-IsKept n vs st h c
  advance-IsKept (starting n newly) st h c = starting-IsKept n newly st h.0 h.1 c
  advance-IsKept (start_failed n newly e) st h c =
      dropping-IsKept (start_failed n newly e) _ n newly st refl h c
  advance-IsKept (stopping n) st h c =
      ending-IsKept (stopping n) _ n (client.stop n st.world).0 st _ refl (mounts.stop n st.world)
        (laws.stop_ends n st.world) (laws.stop_not_found n st.world) (laws.stop_fails n st.world) c
  advance-IsKept (removing n) st h c =
      ending-IsKept (removing n) _ n (client.rm n st.world).0 st _ refl (mounts.rm n st.world)
        (laws.rm_ends n st.world) (laws.rm_not_found n st.world) (laws.rm_fails n st.world) c
  advance-IsKept (releasing n r) st h c = releasing-IsKept n r st h c
  advance-IsKept (done r) st h c = still-IsKept view (done r) (done r) st (λ n e. e) tt c
