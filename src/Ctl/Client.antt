-- ===== src/Ctl/Client.antt =====
-- cmd/msbctl/client.go: the transport. A request keeps the value that json.Marshal is given, and what
-- the network does to the world `W` is a parameter.
pub mod Paths
use msb_manager.Prelude.{
  ℕ, Text, codes, Bool, true, false, Option, none, some, List, [], ◌∷◌, ◌++◌, Map, Result, ok, err,
  ◌==◌, is_empty, trim_space, if◌then◌else◌,
}
use msb_manager.Ctl.Target.{Target}

pub data Verb : Type 0 where
  get post delete : Verb

-- the body of a request: none, bytes, or a struct that json.Marshal encodes
pub data Payload : Type 0 where
  no_body : Payload
  bytes : Text → Payload
  exec_json : List Text → Payload
  volume_json : Text → Text → Payload
  snapshot_json : Text → Text → Bool → Map Text → Payload

-- a header that is not set is empty
pub record HttpRequest : Type 0 where
  pub method : Verb
  pub url : Text
  pub authorization : Text
  pub content_type : Text
  pub body : Payload

-- apiResponse
pub record ApiResponse : Type 0 where
  pub status : ℕ
  pub body : Text

-- http.Client.Do with io.ReadAll, or the message of what went wrong
abbrev pub Transport : Type 0 → Type 0
Transport W = HttpRequest → W → Result Text ApiResponse × W

pub record HttpClient : Type 0 where
  pub base_url : Text
  pub token : Text

abbrev skip_slash : ℕ → Text → Text
skip_slash c [] = if c == b'/' then [] else c ∷ []
skip_slash c (d ∷ s) = c ∷ d ∷ s

-- strings.TrimRight(s, "/")
unfoldable pub trim_slashes : Text → Text
trim_slashes [] = []
trim_slashes (c ∷ s) = skip_slash c (trim_slashes s)

-- newClient
unfoldable pub new_client : Target → HttpClient
unfolding trim_slashes
new_client t = record { base_url = trim_slashes t.url; token = t.token }

-- the request that client.do makes
unfoldable pub request_of : HttpClient → Verb → Text → Payload → Text → HttpRequest
request_of c method path body content_type = record {
  method = method;
  url = c.base_url ++ path;
  authorization = if is_empty c.token then [] else codes "Bearer " ++ c.token;
  content_type = content_type;
  body = body;
}

-- client.do
unfoldable pub send :
    {W : Type 0}
    → Transport W
    → HttpClient
    → Verb
    → Text
    → Payload
    → Text
    → W
    → Result Text ApiResponse × W
unfolding request_of
send transport c method path body content_type w =
    transport (request_of c method path body content_type) w

-- serverErrorMessage: the decoder of {"error": ...} is a parameter
unfoldable pub server_error_message : (Text → Option Text) → Text → Text
server_error_message decode body = elim (decode body) [
  | none ↦ trim_space body
  | some m ↦ if is_empty m then trim_space body else m
]

-- requireToken
abbrev pub has_token : Target → Bool
has_token t = if is_empty t.token then false else true
