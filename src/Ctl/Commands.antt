-- ===== src/Ctl/Commands.antt =====
-- cmd/msbctl/commands.go: what the commands share. A command takes its arguments and the world, and
-- gives its exit code, what it prints, and the world after its requests.
pub mod Sandboxes
pub mod Storage
use msb_manager.Prelude.{
  ℕ, Text, codes, Bool, true, false, Option, none, some, List, [], ◌∷◌, ◌++◌, Map, lookup, Result,
  ok, err, ℤ, pos, ◌==◌, leb, is_empty, text_eq, trim_space, if◌then◌else◌,
}
use Prim.Native.String.{String}
use msb_manager.Ctl.Target.{Target, TargetError}
use msb_manager.Ctl.Status.{exit_code_for_status}
use msb_manager.Ctl.Interpolate.{Node, InterpolateError}
use msb_manager.Ctl.Flags.{FlagValue, text, switch, pairs, FlagSet, FlagError, parse_flags, Parsed}
use msb_manager.Ctl.Client.{
  Verb, get, Payload, no_body, ApiResponse, Transport, HttpClient, send, server_error_message,
  has_token,
}
use msb_manager.Ctl.Render.{Codec, RenderError, render_read, write_json_out}

-- a message on stderr
pub data Note : Type 0 where
  error_note : Text → Note
  no_token : Note
  of_flags : FlagError → Note
  of_render : RenderError → Note
  of_interpolation : InterpolateError → Note
  of_target : TargetError → Note
  -- renderServerError; http.StatusText stands for an empty message
  server_error : Text → ℕ → Note
  unknown_command : Text → Note
  usage_note : Note
  cleartext_warning : Text → Note
  -- the stderr of a command in a sandbox
  remote : Text → Note

pub record Ran (W : Type 0) : Type 0 where
  pub code : ℤ
  pub out : Text
  pub notes : List Note
  pub world : W

-- runEnv, with what a command uses of the system and of the libraries
pub record Env (W F : Type 0) : Type 0 where
  pub transport : Transport W
  pub client : HttpClient
  pub target : Target
  pub getenv : Text → Text
  pub stdin : Result Text Text
  pub read_file : Text → Result Text Text
  pub codec : Codec F
  pub read_yaml : Text → Result Text Node
  pub write_yaml : Node → Result Text Text

abbrev pub Command : Type 0 → Type 0
Command W = List Text → W → Ran W

-- return exitGeneric, with a message
abbrev pub failed : {W : Type 0} → Note → W → Ran W
failed n w = record { code = pos 1; out = []; notes = n ∷ []; world = w }

abbrev pub printed : {W : Type 0} → ℕ → Text → W → Ran W
printed code out w = record { code = pos code; out = out; notes = []; world = w }

abbrev of_text : Option FlagValue → Text
of_text (some (text s)) = s
of_text _ = []

abbrev of_switch : Option FlagValue → Bool
of_switch (some (switch b)) = b
of_switch _ = false

abbrev of_pairs : Option FlagValue → Map Text
of_pairs (some (pairs m)) = m
of_pairs _ = []

abbrev pub text_flag : String → FlagSet → Text
text_flag name fs = of_text (lookup (codes name) fs)

abbrev pub switch_flag : String → FlagSet → Bool
switch_flag name fs = of_switch (lookup (codes name) fs)

abbrev pub pairs_flag : String → FlagSet → Map Text
pairs_flag name fs = of_pairs (lookup (codes name) fs)

abbrev pub with_parsed :
    {W : Type 0} → Option Parsed → (FlagSet → List Text → W → Ran W) → W → Ran W
with_parsed none k w = failed usage_note w
with_parsed (some (err e)) k w = failed (of_flags e) w
with_parsed (some (ok (fs, positionals))) k w = k fs positionals w

-- env.parseFlags, and the return where it fails
unfoldable pub with_flags :
    {W : Type 0} → FlagSet → List Text → (FlagSet → List Text → W → Ran W) → W → Ran W
with_flags fs args k w = with_parsed (parse_flags fs args) k w

-- oneName, and the return where it fails
unfoldable pub with_name : {W : Type 0} → Text → List Text → (Text → W → Ran W) → W → Ran W
with_name noun [] k w =
    failed (error_note (codes "expected exactly one " ++ noun ++ codes " name")) w
with_name noun (n ∷ []) k w =
    if is_empty n
    then failed (error_note (codes "expected exactly one " ++ noun ++ codes " name")) w
    else k n w
with_name noun (n ∷ m ∷ more) k w =
    failed (error_note (codes "expected exactly one " ++ noun ++ codes " name")) w

module _ {W F : Type 0} (env : Env W F) where
  -- a status of 400 or more
  unfoldable pub refused : ApiResponse → W → Ran W
  refused r w = record {
    code = pos (exit_code_for_status r.status);
    out = [];
    notes = server_error (server_error_message env.codec.error_field r.body) r.status ∷ [];
    world = w;
  }

  unfoldable pub answered : Result Text ApiResponse → (ApiResponse → W → Ran W) → W → Ran W
  unfolding refused
  answered (err m) k w = failed (error_note m) w
  answered (ok r) k w = if leb 400 r.status then refused r w else k r w

  -- ensureToken, client.do, and what every command does with an error
  unfoldable pub call : Verb → Text → Payload → Text → (ApiResponse → W → Ran W) → W → Ran W
  unfolding answered
  call method path body content_type k w =
      if has_token env.target
      then (let (r, w') = send env.transport env.client method path body content_type w in
          answered r k w')
      else failed no_token w

  abbrev read_out : Result RenderError Text → W → Ran W
  read_out (ok out) w = printed 0 out w
  read_out (err e) w = failed (of_render e) w

  -- doRead
  unfoldable pub do_read : Text → Text → List Text → W → Ran W
  do_read path format columns =
      call get path no_body [] (λ r w. read_out (render_read env.codec format r.body columns) w)

  abbrev or_confirm : Text → Text → Text
  or_confirm confirm [] = confirm ++ 10 ∷ []
  or_confirm confirm (c ∷ s) = write_json_out (c ∷ s)

  -- doAction
  unfoldable pub do_action : Verb → Text → Payload → Text → Text → W → Ran W
  do_action method path body content_type confirm =
      call method path body content_type
        (λ r w. printed 0 (or_confirm confirm (trim_space r.body)) w)

  -- doStatusAction
  unfoldable pub do_status_action : Verb → Text → Payload → Text → W → Ran W
  do_status_action method path body content_type =
      call method path body content_type
        (λ r w. printed (exit_code_for_status r.status) (write_json_out (trim_space r.body)) w)

  -- env.readSpec
  unfoldable pub read_spec : Text → Result Text Text
  read_spec path = if text_eq path (codes "-") then env.stdin else env.read_file path

  abbrev pub with_spec : Result Text Text → (Text → W → Ran W) → W → Ran W
  with_spec (err m) k w = failed (error_note m) w
  with_spec (ok raw) k w = k raw w
