-- ===== src/Ctl/Commands/Storage.antt =====
-- cmd/msbctl/commands.go: the commands on volumes and snapshots.
use msb_manager.Prelude.{
  Text, codes, Bool, false, List, [], ◌∷◌, ◌++◌, is_empty, text_eq, ◌||◌, if◌then◌else◌,
}
use msb_manager.Ctl.Flags.{text, switch, pairs, FlagSet}
use msb_manager.Ctl.Client.{post, delete, no_body, bytes, volume_json, snapshot_json}
use msb_manager.Ctl.Client.Paths.{path_escape}
use msb_manager.Ctl.Commands.{
  Env, Ran, Command, error_note, failed, with_flags, with_name, text_flag, switch_flag, pairs_flag,
  do_read, do_action, do_status_action, read_spec, with_spec,
}
use msb_manager.Ctl.Commands.Sandboxes.{output_flag}

abbrev volume_flags : FlagSet
volume_flags = (codes "size", text []) ∷ (codes "f", text []) ∷ []

abbrev snapshot_flags : FlagSet
snapshot_flags =
    (codes "from", text []) ∷ (codes "force", switch false) ∷ (codes "label", pairs []) ∷ []

abbrev is_ls : Text → Bool
is_ls sub = text_eq sub (codes "ls") || text_eq sub (codes "list")

module _ {W F : Type 0} (env : Env W F) where
  -- volume ls and snapshot ls
  unfoldable pub list_of : Text → List Text → Command W
  list_of path columns args w =
      with_flags output_flag args (λ fs pos. do_read env path (text_flag "o" fs) columns) w

  -- volume rm and snapshot rm
  unfoldable pub remove_of : Text → Text → Command W
  remove_of noun path args w =
      with_flags [] args
        (λ fs pos. with_name noun pos (λ name.
          do_action env delete (path ++ path_escape name) no_body []
            (codes "removed " ++ noun ++ codes " " ++ name)))
        w

  abbrev pub create_volume : Text → Text → W → Ran W
  create_volume size name w =
      if is_empty size
      then failed
          (error_note (codes "volume create requires --size (or -f <manifest> for a batch)")) w
      else do_action env post (codes "/volumes") (volume_json name size) (codes "application/json")
          (codes "created volume " ++ name) w

  abbrev pub create_batch : Text → W → Ran W
  create_batch raw w =
      do_status_action env post (codes "/volumes") (bytes raw) (codes "application/yaml") w

  abbrev pub volume_given : FlagSet → List Text → W → Ran W
  volume_given fs pos w =
      if is_empty (text_flag "f" fs)
      then with_name (codes "volume") pos (create_volume (text_flag "size" fs)) w
      else with_spec env (read_spec env (text_flag "f" fs)) create_batch w

  -- volume create
  unfoldable pub volume_create : Command W
  volume_create args w = with_flags volume_flags args volume_given w

  abbrev pub create_snapshot : FlagSet → Text → W → Ran W
  create_snapshot fs name w =
      if is_empty (text_flag "from" fs)
      then failed (error_note (codes "snapshot create requires --from <sandbox>")) w
      else do_action env post (codes "/snapshots")
          (snapshot_json (text_flag "from" fs) name (switch_flag "force" fs)
            (pairs_flag "label" fs))
          (codes "application/json") (codes "created snapshot " ++ name) w

  -- snapshot create
  unfoldable pub snapshot_create : Command W
  snapshot_create args w =
      with_flags snapshot_flags args
        (λ fs pos. with_name (codes "snapshot") pos (create_snapshot fs)) w

  -- cmdVolume
  unfoldable pub cmd_volume : Command W
  cmd_volume [] w = failed (error_note (codes "volume needs a subcommand: ls|create|rm")) w
  cmd_volume (sub ∷ rest) w =
      if is_ls sub
      then list_of (codes "/volumes")
          (codes "name" ∷ codes "quota_mib" ∷ codes "used_bytes" ∷ codes "created_at" ∷ []) rest w
      else if text_eq sub (codes "create")
      then volume_create rest w
      else if text_eq sub (codes "rm")
      then remove_of (codes "volume") (codes "/volumes/") rest w
      else failed (error_note (codes "unknown volume subcommand " ++ sub)) w

  -- cmdSnapshot
  unfoldable pub cmd_snapshot : Command W
  cmd_snapshot [] w = failed (error_note (codes "snapshot needs a subcommand: ls|create|rm")) w
  cmd_snapshot (sub ∷ rest) w =
      if is_ls sub
      then list_of (codes "/snapshots")
          (codes "name"
            ∷ codes "image_ref"
            ∷ codes "size_bytes"
            ∷ codes "created_at"
            ∷ codes "parent_digest"
            ∷ [])
          rest w
      else if text_eq sub (codes "create")
      then snapshot_create rest w
      else if text_eq sub (codes "rm")
      then remove_of (codes "snapshot") (codes "/snapshots/") rest w
      else failed (error_note (codes "unknown snapshot subcommand " ++ sub)) w
