-- ===== src/Ctl/Run/Tokenless.antt =====
-- cmd/msbctl/commands.go: the commands without a token.
use msb_manager.Prelude.{
  Text, codes, Bool, true, false, Option, none, some, List, [], ◌∷◌, Result, ok, err, pos, is_empty,
  ◌++◌, Bool-cases, inl, inr, ◌≡◌, refl, if◌then◌else◌,
}
use msb_manager.Ctl.Interpolate.{InterpolateError}
use msb_manager.Ctl.Flags.{FlagSet, Parsed, parse_flags}
use msb_manager.Ctl.Client.Paths.{sandbox_path, path_escape}
use msb_manager.Ctl.Client.{Verb, post, delete, no_body, Payload, ApiResponse, has_token}
use msb_manager.Ctl.Commands.{
  Env, Ran, with_parsed, with_flags, with_name, with_spec, call, do_read, do_action,
  do_status_action, read_spec, text_flag,
}
use msb_manager.Ctl.Commands.Sandboxes.{
  cmd_list, cmd_inspect, cmd_metrics, cmd_logs, sandbox_action, cmd_start, cmd_stop, cmd_rm,
  split_at_dashes, exec_checked, exec_on, cmd_exec, create_from, create_spec, create_given,
  cmd_create,
}
use msb_manager.Ctl.Commands.Storage.{
  list_of, remove_of, create_volume, create_batch, volume_given, volume_create, create_snapshot,
  snapshot_create, cmd_volume, cmd_snapshot,
}

-- nothing was sent, and the command failed
pub record IsFailed {W : Type 0} (w : W) (r : Ran W) : Type 0 where
  pub world : r.world ≡ w
  pub code : r.code ≡ pos 1

module _ {W : Type 0} (w : W) where
  with_parsed-IsFailed :
      (r : Option Parsed) (k : FlagSet → List Text → W → Ran W)
      → ((fs : FlagSet) (args : List Text) → IsFailed w (k fs args w))
      → IsFailed w (with_parsed r k w)
  with_parsed-IsFailed none k h = record { world = refl; code = refl }
  with_parsed-IsFailed (some (err e)) k h = record { world = refl; code = refl }
  with_parsed-IsFailed (some (ok (fs, args))) k h = h fs args

  with_flags-IsFailed :
      (fs : FlagSet) (args : List Text) (k : FlagSet → List Text → W → Ran W)
      → ((fs' : FlagSet) (rest : List Text) → IsFailed w (k fs' rest w))
      → IsFailed w (with_flags fs args k w)
  unfolding with_flags
  with_flags-IsFailed fs args k h = with_parsed-IsFailed (parse_flags fs args) k h

  with_name-IsFailed :
      (noun : Text) (args : List Text) (k : Text → W → Ran W)
      → ((name : Text) → IsFailed w (k name w))
      → IsFailed w (with_name noun args k w)
  unfolding with_name
  with_name-IsFailed noun [] k h = record { world = refl; code = refl }
  with_name-IsFailed noun (n ∷ []) k h = elim (Bool-cases (is_empty n)) [
    | inl e ↦ rw e (record { world = refl; code = refl })
    | inr e ↦ rw e (h n)
  ]
  with_name-IsFailed noun (n ∷ m ∷ more) k h = record { world = refl; code = refl }

module _ {W F : Type 0} (env : Env W F) (w : W) (tokenless : has_token env.target ≡ false) where
  call-IsFailed :
      (method : Verb) (path : Text) (body : Payload) (t : Text) (k : ApiResponse → W → Ran W)
      → IsFailed w (call env method path body t k w)
  unfolding call
  call-IsFailed method path body t k = rw (tokenless, call) (record { world = refl; code = refl })

  read-IsFailed :
      (path format : Text) (columns : List Text) → IsFailed w (do_read env path format columns w)
  unfolding do_read
  read-IsFailed path format columns = call-IsFailed _ path _ _ _

  action-IsFailed :
      (method : Verb) (path : Text) (body : Payload) (t confirm : Text)
      → IsFailed w (do_action env method path body t confirm w)
  unfolding do_action
  action-IsFailed method path body t confirm = call-IsFailed method path body t _

  with_spec-IsFailed :
      (r : Result Text Text) (k : Text → W → Ran W)
      → ((raw : Text) → IsFailed w (k raw w))
      → IsFailed w (with_spec env r k w)
  with_spec-IsFailed (ok raw) k h = h raw
  with_spec-IsFailed (err m) k h = record { world = refl; code = refl }

  named_read-IsFailed :
      (fs : FlagSet) (args : List Text) (path : Text → Text) (format : FlagSet → Text)
      → IsFailed w (
          with_flags fs args
            (λ fs' pos.
              with_name (codes "sandbox") pos (λ name. do_read env (path name) (format fs') []))
            w)
  named_read-IsFailed fs args path format =
      with_flags-IsFailed w fs args _ (λ fs' pos.
        with_name-IsFailed w _ pos _ (λ name. read-IsFailed (path name) (format fs') []))

  named_action-IsFailed :
      (noun : Text) (args : List Text) (method : Verb) (path confirm : Text → Text)
      → IsFailed w (
          with_flags [] args
            (λ fs pos.
              with_name noun pos
                (λ name. do_action env method (path name) no_body [] (confirm name)))
            w)
  named_action-IsFailed noun args method path confirm = with_flags-IsFailed w [] args _ (λ fs pos.
      with_name-IsFailed w noun pos _
        (λ name. action-IsFailed method (path name) no_body [] (confirm name)))

  pub list-IsFailed : (args : List Text) → IsFailed w (cmd_list env args w)
  unfolding cmd_list
  list-IsFailed args = with_flags-IsFailed w _ args _ (λ fs pos. read-IsFailed _ _ _)

  pub inspect-IsFailed : (args : List Text) → IsFailed w (cmd_inspect env args w)
  unfolding cmd_inspect
  inspect-IsFailed args =
      named_read-IsFailed _ args (λ name. sandbox_path name []) (λ fs. text_flag "o" fs)

  pub metrics-IsFailed : (args : List Text) → IsFailed w (cmd_metrics env args w)
  unfolding cmd_metrics
  metrics-IsFailed args =
      named_read-IsFailed _ args (λ name. sandbox_path name (codes "metrics"))
        (λ fs. text_flag "o" fs)

  pub logs-IsFailed : (args : List Text) → IsFailed w (cmd_logs env args w)
  unfolding cmd_logs
  logs-IsFailed args =
      with_flags-IsFailed w _ args _
        (λ fs pos. with_name-IsFailed w _ pos _ (λ name. call-IsFailed _ _ _ _ _))

  sandbox_action-IsFailed :
      (verb confirm : Text) (args : List Text) → IsFailed w (sandbox_action env verb confirm args w)
  unfolding sandbox_action
  sandbox_action-IsFailed verb confirm args =
      named_action-IsFailed (codes "sandbox") args post (λ name. sandbox_path name verb)
        (λ name. confirm ++ codes " " ++ name)

  pub start-IsFailed : (args : List Text) → IsFailed w (cmd_start env args w)
  unfolding cmd_start
  start-IsFailed args = sandbox_action-IsFailed (codes "start") (codes "started") args

  pub stop-IsFailed : (args : List Text) → IsFailed w (cmd_stop env args w)
  unfolding cmd_stop
  stop-IsFailed args = sandbox_action-IsFailed (codes "stop") (codes "stopped") args

  pub rm-IsFailed : (args : List Text) → IsFailed w (cmd_rm env args w)
  unfolding cmd_rm
  rm-IsFailed args =
      named_action-IsFailed (codes "sandbox") args delete (λ name. sandbox_path name [])
        (λ name. codes "removed " ++ name)

  exec_on-IsFailed : (r : Option (Text × List Text)) → IsFailed w (exec_on env r w)
  exec_on-IsFailed none = record { world = refl; code = refl }
  exec_on-IsFailed (some (name, command)) = call-IsFailed _ _ _ _ _

  pub exec-IsFailed : (args : List Text) → IsFailed w (cmd_exec env args w)
  unfolding cmd_exec
  exec-IsFailed args = exec_on-IsFailed (exec_checked (split_at_dashes args))

  create_from-IsFailed : (r : Result InterpolateError Text) → IsFailed w (create_from env r w)
  create_from-IsFailed (ok body) = action-IsFailed _ _ _ _ _
  create_from-IsFailed (err e) = record { world = refl; code = refl }

  if-IsFailed :
      (b : Bool) (r s : Ran W) → IsFailed w r → IsFailed w s → IsFailed w (if b then r else s)
  if-IsFailed true r s h k = h
  if-IsFailed false r s h k = k

  pub create-IsFailed : (args : List Text) → IsFailed w (cmd_create env args w)
  unfolding cmd_create create_spec
  create-IsFailed args = with_flags-IsFailed w _ args (create_given env) (λ fs pos.
      if-IsFailed (is_empty (text_flag "f" fs)) _ _ (record { world = refl; code = refl })
        (with_spec-IsFailed (read_spec env (text_flag "f" fs)) (create_spec env fs)
          (λ raw. create_from-IsFailed _)))

  list_of-IsFailed :
      (path : Text) (columns args : List Text) → IsFailed w (list_of env path columns args w)
  unfolding list_of
  list_of-IsFailed path columns args =
      with_flags-IsFailed w _ args _ (λ fs pos. read-IsFailed path _ columns)

  remove_of-IsFailed :
      (noun path : Text) (args : List Text) → IsFailed w (remove_of env noun path args w)
  unfolding remove_of
  remove_of-IsFailed noun path args =
      named_action-IsFailed noun args delete (λ name. path ++ path_escape name)
        (λ name. codes "removed " ++ noun ++ codes " " ++ name)

  volume_create-IsFailed : (args : List Text) → IsFailed w (volume_create env args w)
  unfolding volume_create
  volume_create-IsFailed args = with_flags-IsFailed w _ args (volume_given env) (λ fs pos.
      if-IsFailed (is_empty (text_flag "f" fs)) _ _
        (with_name-IsFailed w _ pos (create_volume env (text_flag "size" fs)) (λ name.
          if-IsFailed (is_empty (text_flag "size" fs)) _ _ (record { world = refl; code = refl })
            (action-IsFailed _ _ _ _ _)))
        (with_spec-IsFailed (read_spec env (text_flag "f" fs)) (create_batch env)
          (λ raw. unfold do_status_action in call-IsFailed _ _ _ _ _)))

  snapshot_create-IsFailed : (args : List Text) → IsFailed w (snapshot_create env args w)
  unfolding snapshot_create
  snapshot_create-IsFailed args = with_flags-IsFailed w _ args _ (λ fs pos.
      with_name-IsFailed w _ pos (create_snapshot env fs) (λ name.
        if-IsFailed (is_empty (text_flag "from" fs)) _ _ (record { world = refl; code = refl })
          (action-IsFailed _ _ _ _ _)))

  pub volume-IsFailed : (args : List Text) → IsFailed w (cmd_volume env args w)
  unfolding cmd_volume
  volume-IsFailed [] = record { world = refl; code = refl }
  volume-IsFailed (sub ∷ rest) = if-IsFailed _ _ _ (list_of-IsFailed _ _ rest) (
      if-IsFailed _ _ _ (volume_create-IsFailed rest)
        (if-IsFailed _ _ _ (remove_of-IsFailed _ _ rest) (record { world = refl; code = refl })))

  pub snapshot-IsFailed : (args : List Text) → IsFailed w (cmd_snapshot env args w)
  unfolding cmd_snapshot
  snapshot-IsFailed [] = record { world = refl; code = refl }
  snapshot-IsFailed (sub ∷ rest) = if-IsFailed _ _ _ (list_of-IsFailed _ _ rest) (
      if-IsFailed _ _ _ (snapshot_create-IsFailed rest)
        (if-IsFailed _ _ _ (remove_of-IsFailed _ _ rest) (record { world = refl; code = refl })))
