-- ===== src/Server/Adapter/Laws.antt =====
-- internal/msb/client.go behind the MsbClient of internal/server: what the server relies on follows
-- from what the msb command does, when the removal of a half-made sandbox succeeds.
use msb_manager.Prelude.{
  Text, codes, true, Option, none, some, List, [], ◌∷◌, Result, ok, err, inl, inr, ◌≡◌, ◌≢◌, refl,
  ap, ◌∙◌, sym,
}
use mathlib.Core.Path.{subst}
use msb_manager.Msb.Errors.{Error, wrap_run_err}
use msb_manager.Msb.Types.{CreateOpts}
use msb_manager.Msb.Args.{logs_args, snapshot_create_args}
use msb_manager.Msb.Parse.{Json}
use msb_manager.Msb.Client
use msb_manager.Msb.Client.{Spawn, Config, Context, request, detached, run, as_result}
use msb_manager.Server.Adapter.{adapter}
use msb_manager.Server.Safety.{View, Same, Booted, Ended, MsbLaws, mounted}
use msb_manager.Server.Adapter.Commands.{
  ls, inspects, execs, logs, metrics, volumes, snapshots, CommandLaws,
}

as_result-err : (r : Option Error) (e : Error) → as_result r ≡ err e → r ≡ some e
as_result-err none e h = absurd (cc h)
as_result-err (some x) e h = ap some (same_error h)
  where
    same_error : ◌≡◌ {A = Result Error (Unit {0})} (err x) (err e) → x ≡ e
    same_error h = cc h

as_result-ok : (r : Option Error) → as_result r ≡ ok tt → r ≡ none
as_result-ok none h = refl
as_result-ok (some x) h = absurd (cc h)

wrap-none : (stderr : Text) (r : Option Error) → wrap_run_err stderr r ≡ none → r ≡ none
unfolding wrap_run_err
wrap-none stderr none h = refl
wrap-none stderr (some e) h = absurd (cc h)

wrap-some :
    (stderr : Text) (r : Option Error) (e : Error)
    → wrap_run_err stderr r ≡ some e
    → (x : Error) × (r ≡ some x)
unfolding wrap_run_err
wrap-some stderr none e h = absurd (cc h)
wrap-some stderr (some x) e h = (x, refl)

module _ {W : Type 0} (view : View W) where
  -- a sandbox that was made and is gone again leaves no trace
  Same-undone :
      (name : Text) (w w1 w2 w3 : W)
      → Booted view name w w1
      → Same view w1 w2
      → Ended view name w2 w3
      → Same view w w3
  Same-undone name w w1 w2 w3 a b c = record {
    running = λ n up. a.running n (alive n up) (b.running n (c.running n up));
    volumes = λ n up.
        c.volumes n up
        ∙ b.volumes n (c.running n up)
        ∙ a.volumes n (alive n up) (b.running n (c.running n up));
  }
    where
      alive : (n : Text) → view.running w3 n ≡ true → n ≢ name
      alive n up q = cc (up, q, c.down)

  Booted-Same :
      (name : Text) (w w1 w2 : W) → Booted view name w w1 → Same view w1 w2 → Booted view name w w2
  Booted-Same name w w1 w2 a b = record {
    running = λ n ne up. a.running n ne (b.running n up);
    volumes = λ n ne up. b.volumes n up ∙ a.volumes n ne (b.running n up);
  }

module _ {W F : Type 0} (view : View W) (spawn : Spawn W) (json : Json F) (c : Config)
    (laws : CommandLaws view spawn json c) where
  -- the install of the keys, on a sandbox that has been made
  install_fails :
      (o : CreateOpts) (r : Option Error) (w w1 w2 : W) (e : Error)
      → Booted view o.name w w1
      → Same view w1 w2
      → (Client.after_install spawn json c o r w2).0 ≡ err e
      → Same view w (Client.after_install spawn json c o r w2).1
  install_fails o none w w1 w2 e a b h = absurd (cc h)
  install_fails o (some x) w w1 w2 e a b h =
      Same-undone view o.name w w1 w2 _ a b (laws.rollback_ends o.name w2)

  install_works :
      (o : CreateOpts) (r : Option Error) (w2 : W)
      → (Client.after_install spawn json c o r w2).0 ≡ ok tt
      → (Client.after_install spawn json c o r w2).1 ≡ w2
  install_works o none w2 h = refl
  install_works o (some x) w2 h = absurd (cc h)

  keys_fail :
      (o : CreateOpts) (keys : List Text) (w w1 : W) (e : Error)
      → Booted view o.name w w1
      → (Client.install_ssh_keys spawn json c o keys w1).0 ≡ err e
      → Same view w (Client.install_ssh_keys spawn json c o keys w1).1
  keys_fail o [] w w1 e a h = absurd (cc h)
  keys_fail o (k ∷ ks) w w1 e a h = install_fails o _ w w1 _ e a (laws.reads _ w1 (execs _)) h

  keys_work :
      (o : CreateOpts) (keys : List Text) (w1 : W)
      → (Client.install_ssh_keys spawn json c o keys w1).0 ≡ ok tt
      → Same view w1 (Client.install_ssh_keys spawn json c o keys w1).1
  keys_work o [] w1 h = record { running = λ n up. up; volumes = λ n up. refl }
  keys_work o (k ∷ ks) w1 h =
      subst (λ v. Same view w1 v) (sym (install_works o _ _ h)) (laws.reads _ w1 (execs _))

  after_create_fails :
      (o : CreateOpts) (r : Option Error) (w w1 : W) (e : Error)
      → (r ≡ none → Booted view o.name w w1)
      → ((x : Error) → r ≡ some x → Same view w w1)
      → (Client.after_create spawn json c o r w1).0 ≡ err e
      → Same view w (Client.after_create spawn json c o r w1).1
  after_create_fails o none w w1 e a b h = keys_fail o o.ssh_keys w w1 e (a refl) h
  after_create_fails o (some x) w w1 e a b h = b x refl

  after_create_works :
      (o : CreateOpts) (r : Option Error) (w1 : W)
      → (Client.after_create spawn json c o r w1).0 ≡ ok tt
      → (r ≡ none) × Same view w1 (Client.after_create spawn json c o r w1).1
  after_create_works o none w1 h = (refl, keys_work o o.ssh_keys w1 h)
  after_create_works o (some x) w1 h = absurd (cc h)

  create_failed :
      (o : CreateOpts) (w : W) (e : Error)
      → (Client.create spawn json c o w).0 ≡ err e
      → Same view w (Client.create spawn json c o w).1
  unfolding Client.create
  create_failed o w e h =
      after_create_fails o _ w _ e (λ n. laws.create_boots o w (wrap-none _ _ n))
        (λ x k. let (y, f) = wrap-some _ _ x k in laws.create_fails o w y f) h

  create-Booted :
      (o : CreateOpts) (w : W)
      → (Client.create spawn json c o w).0 ≡ ok tt
      → Booted view o.name w (Client.create spawn json c o w).1
  unfolding Client.create
  create-Booted o w h =
      let (n, s) = after_create_works o _ _ h in
      Booted-Same view o.name w _ _ (laws.create_boots o w (wrap-none _ _ n)) s

  create_mounted :
      (o : CreateOpts) (w : W)
      → (Client.create spawn json c o w).0 ≡ ok tt
      → view.running (Client.create spawn json c o w).1 o.name ≡ true
      → view.volumes_of (Client.create spawn json c o w).1 o.name ≡ mounted o.volume
  unfolding Client.create
  create_mounted o w h up =
      let (n, s) = after_create_works o _ _ h in
      s.volumes o.name up ∙ laws.create_mounts o w (wrap-none _ _ n) (s.running o.name up)

  -- The client of internal/msb keeps what the server relies on, given what the commands of msb do and
  -- that the removal of a sandbox whose keys could not be installed succeeds.
  pub adapter-MsbLaws : MsbLaws view (adapter spawn json c)
  unfolding Client.list Client.inspect Client.start Client.stop Client.rm Client.exec Client.logs
      Client.metrics Client.volume_list Client.volume_create Client.volume_rm Client.snapshot_list
      Client.snapshot_create Client.snapshot_rm Client.query Client.command logs_args
      snapshot_create_args
  adapter-MsbLaws = record {
    list = λ w. laws.reads _ w (ls _);
    inspect = λ n w. laws.reads _ w (inspects _);
    inspect_volumes = λ n w d h. laws.inspect_tells n w d h;
    create_fails = create_failed;
    create_boots = create-Booted;
    create_mounts = create_mounted;
    start_fails =
        λ n w e h. let (x, f) = wrap-some _ _ e (as_result-err _ e h) in laws.start_fails n w x f;
    start_boots = λ n w h. laws.start_boots n w (wrap-none _ _ (as_result-ok _ h));
    start_keeps = λ n w up. laws.start_keeps n w up;
    stop_fails =
        λ n w e h x. laws.end_fails (codes "stop") n w e (inl refl) (as_result-err _ e h) x;
    stop_not_found =
        λ n w e h x. laws.end_not_found (codes "stop") n w e (inl refl) (as_result-err _ e h) x;
    stop_ends = λ n w h. laws.ends (codes "stop") n w (inl refl) (wrap-none _ _ (as_result-ok _ h));
    rm_fails = λ n w e h x. laws.end_fails (codes "rm") n w e (inr refl) (as_result-err _ e h) x;
    rm_not_found =
        λ n w e h x. laws.end_not_found (codes "rm") n w e (inr refl) (as_result-err _ e h) x;
    rm_ends = λ n w h. laws.ends (codes "rm") n w (inr refl) (wrap-none _ _ (as_result-ok _ h));
    exec = λ n a w. laws.reads _ w (execs _);
    logs = λ n o w. laws.reads _ w (logs _);
    metrics = λ n w. laws.reads _ w (metrics _);
    volume_list = λ w. laws.reads _ w (volumes _);
    volume_create = λ n s w. laws.reads _ w (volumes _);
    volume_rm = λ n w. laws.reads _ w (volumes _);
    snapshot_list = λ w. laws.reads _ w (snapshots _);
    snapshot_create = λ a b l f w. laws.reads _ w (snapshots _);
    snapshot_rm = λ n w. laws.reads _ w (snapshots _);
  }
