-- ===== src/Msb/Client/Outcomes.antt =====
-- internal/msb/client.go: the commands that a create runs.
use msb_manager.Prelude.{
  Text, codes, Option, none, some, List, [], ◌∷◌, ◌++◌, Result, ok, err, ◌≡◌, refl,
}
use msb_manager.Msb.Errors.{Error, install_keys, wrap_run_err}
use msb_manager.Msb.Types.{CreateOpts}
use msb_manager.Msb.Redact.{redact_secrets}
use msb_manager.Msb.Args.{build_create_args, ssh_key_script_name}
use msb_manager.Msb.Parse.{Json}
use msb_manager.Msb.Client.{
  Spawn, Config, Context, request, detached, create, run, after_install, install_ssh_keys,
  after_create,
}

-- a command of msb, in the context that it is run in
abbrev pub Command : Type 0
Command = Context × List Text

-- the machine, with every command that is run written down
unfoldable pub logging : {W : Type 0} → Spawn W → Spawn (List Command × W)
logging spawn ctx t bin args (log, w) =
    let (child, w') = spawn ctx t bin args w in (child, (log ++ (ctx, args) ∷ [], w'))

abbrev pub create_command : CreateOpts → Command
create_command o = (request, build_create_args o)

abbrev pub install_command : CreateOpts → Command
install_command o = (request, codes "exec" ∷ o.name ∷ codes "--" ∷ ssh_key_script_name ∷ [])

abbrev pub rollback_command : CreateOpts → Command
rollback_command o = (detached, codes "rm" ∷ codes "-f" ∷ codes "--" ∷ o.name ∷ [])

-- the commands of a create and its result, by the errors that msb gives of the create and of the
-- script of the keys
pub data CreateRun (o : CreateOpts) (created installed : Option Error)
    : Result Error (Unit {0}) → List Command → Type 0 where
  not_created :
      (e : Error) → created ≡ some e → CreateRun o created installed (err e) (create_command o ∷ [])
  bare :
      created ≡ none
      → o.ssh_keys ≡ []
      → CreateRun o created installed (ok tt) (create_command o ∷ [])
  with_keys :
      (k : Text) (ks : List Text)
      → created ≡ none
      → o.ssh_keys ≡ k ∷ ks
      → installed ≡ none
      → CreateRun o created installed (ok tt) (create_command o ∷ install_command o ∷ [])
  undone :
      (k : Text) (ks : List Text) (e : Error)
      → created ≡ none
      → o.ssh_keys ≡ k ∷ ks
      → installed ≡ some e
      → CreateRun o created installed
          (err (install_keys e))
          (create_command o ∷ install_command o ∷ rollback_command o ∷ [])

module _ {W F : Type 0} (spawn : Spawn W) (json : Json F) (c : Config) where
  -- the error of `msb create`, with the secrets taken out of msb's stderr, and the machine after it
  abbrev pub create_error : CreateOpts → W → Option Error × W
  create_error o w =
      let (out, w') = run spawn json c request (build_create_args o) w in
      (wrap_run_err (redact_secrets out.stderr o.secrets) out.failure, w')

  -- the error of the keys' script
  abbrev pub install_error : CreateOpts → W → Option Error
  install_error o w =
      let (out, w') = run spawn json c request (install_command o).1 w in
      wrap_run_err out.stderr out.failure

  after_install-runs :
      (o : CreateOpts) (k : Text) (ks : List Text) (r : Option Error) (w : W)
      → o.ssh_keys ≡ k ∷ ks
      → CreateRun o none r
          (after_install
            (logging spawn)
            json
            c
            o
            r
            (create_command o ∷ install_command o ∷ [], w)).0
          (after_install
            (logging spawn)
            json
            c
            o
            r
            (create_command o ∷ install_command o ∷ [], w)).1.0
  unfolding run logging
  after_install-runs o k ks none w e = with_keys k ks refl e refl
  after_install-runs o k ks (some x) w e = undone k ks x refl e refl

  install-runs :
      (o : CreateOpts) (keys : List Text) (w : W)
      → o.ssh_keys ≡ keys
      → CreateRun o none
          (install_error o w)
          (install_ssh_keys (logging spawn) json c o keys (create_command o ∷ [], w)).0
          (install_ssh_keys (logging spawn) json c o keys (create_command o ∷ [], w)).1.0
  unfolding run logging
  install-runs o [] w e = bare refl e
  install-runs o (k ∷ ks) w e = after_install-runs o k ks _ _ e

  after_create-runs :
      (o : CreateOpts) (r : Option Error) (w : W)
      → CreateRun o r
          (install_error o w)
          (after_create (logging spawn) json c o r (create_command o ∷ [], w)).0
          (after_create (logging spawn) json c o r (create_command o ∷ [], w)).1.0
  after_create-runs o (some e) w = not_created e refl
  after_create-runs o none w = install-runs o o.ssh_keys w refl

  -- A create runs `msb create` first, and gives its error when it fails. When there are keys it then
  -- runs their script; when that fails it removes the sandbox again in a context that the request
  -- cannot cancel, and gives the script's error as one of the install. It runs nothing else, and
  -- succeeds otherwise.
  pub create_runs :
      (o : CreateOpts) (w : W)
      → CreateRun o
          (create_error o w).0
          (install_error o (create_error o w).1)
          (create (logging spawn) json c o ([], w)).0
          (create (logging spawn) json c o ([], w)).1.0
  unfolding create run logging
  create_runs o w = after_create-runs o _ _
