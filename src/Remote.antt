-- ===== src/Remote.antt =====
-- cmd/msbctl and internal/server together: the transport of msbctl is the server itself. What net/http
-- does in between is written out for the paths that have no dot segment.
pub mod Paths
pub mod Names
pub mod Actions
mod Tests
use msb_manager.Prelude.{
  ℕ, ◌+◌, ◌-◌, ◌*◌, Text, codes, Bool, true, false, Option, none, some, List, [], ◌∷◌, Result, ok,
  err, drop, length, ◌==◌, ltb, if◌then◌else◌,
}
use msb_manager.Server.{MsbClient, Body, State}
use msb_manager.Server.Observability.{LogsQuery}
use msb_manager.Server.Routes
use msb_manager.Server.Routes.{Yaml, serve}
use msb_manager.Ctl.Client.{
  Verb, get, post, delete, Payload, no_body, HttpRequest, ApiResponse, Transport,
}

-- the value of a hexadecimal digit
unfoldable pub unhex : ℕ → ℕ
unhex c = if ltb c 58 then c - 48 else if ltb c 71 then c - 55 else c - 87

-- url.PathUnescape, on a well-formed segment
unfoldable pub path_unescape : Text → Text
path_unescape [] = []
path_unescape (c ∷ []) = c ∷ []
path_unescape (c ∷ d ∷ []) = c ∷ d ∷ []
path_unescape (c ∷ d ∷ e ∷ s) =
    let plain = path_unescape (d ∷ e ∷ s) in
    let escaped = path_unescape s in
    if c == b'%' then (unhex d * 16 + unhex e) ∷ escaped else c ∷ plain

abbrev onto_first : ℕ → List Text → List Text
onto_first c [] = (c ∷ []) ∷ []
onto_first c (s ∷ segments) = (c ∷ s) ∷ segments

-- the segments of a path, cut at each slash
unfoldable pub split_slash : Text → List Text
split_slash [] = [] ∷ []
split_slash (c ∷ s) = let rest = split_slash s in if c == b'/' then [] ∷ rest else onto_first c rest

-- the path without its query
unfoldable pub without_query : Text → Text
without_query [] = []
without_query (c ∷ s) = let rest = without_query s in if c == b'?' then [] else c ∷ rest

abbrev decoded : List Text → List Text
decoded [] = []
decoded (s ∷ segments) = path_unescape s ∷ decoded segments

abbrev rooted : List Text → List Text
rooted [] = []
rooted (s ∷ segments) = decoded segments

-- the segments that ServeMux matches: what is before the first slash is empty
unfoldable pub segments_of : Text → List Text
unfolding split_slash without_query path_unescape
segments_of path = rooted (split_slash (without_query path))

abbrev method_of : Verb → Routes.Method
method_of get = Routes.get
method_of post = Routes.post
method_of delete = Routes.delete_method

abbrev body_of : (Payload → Text) → Payload → Option Text
body_of marshal no_body = some []
body_of marshal p = some (marshal p)

-- the request as the server sees it: `base` is the server's own address
unfoldable pub received :
    Text → (Payload → Text) → (Text → LogsQuery) → HttpRequest → Routes.Request
unfolding segments_of
received base marshal parse_query q =
    let path = drop (length base) q.url in
    record {
      method = method_of q.method;
      path = segments_of path;
      authorization = q.authorization;
      body = body_of marshal q.body;
      query = parse_query path;
      now = 0;
      later = 0;
    }

-- a network that brings every request to the server, and its response back
unfoldable pub over_network :
    {W F : Type 0}
    → MsbClient W F
    → Yaml
    → (Text → Text)
    → Text
    → (Body F → Text)
    → Text
    → (Payload → Text)
    → (Text → LogsQuery)
    → Transport (State W)
unfolding received
over_network client yaml sha256 token encode base marshal parse_query q st =
    let (r, st') = serve client yaml sha256 token (received base marshal parse_query q) st in
    (ok (record { status = r.status; body = encode r.body }), st')
