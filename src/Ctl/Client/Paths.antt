-- ===== src/Ctl/Client/Paths.antt =====
-- cmd/msbctl/commands.go, sandboxPath, with url.PathEscape.
use msb_manager.Prelude.{
  ℕ, ◌/◌, ◌%◌, ◌+◌, Text, codes, Bool, List, [], ◌∷◌, ◌++◌, any, ◌==◌, ltb, leb, ◌||◌, ◌&&◌,
  is_empty, if◌then◌else◌,
}

-- a byte that url.PathEscape leaves as it is
unfoldable pub is_plain : ℕ → Bool
is_plain c =
    leb b'a' c && leb c b'z'
    || leb b'A' c && leb c b'Z'
    || leb b'0' c && leb c b'9'
    || any (λ d. c == d) (codes "-_.~$&+=:@")

unfoldable pub hex_digit : ℕ → ℕ
hex_digit n = if ltb n 10 then 48 + n else 55 + n

-- url.PathEscape
unfoldable pub path_escape : Text → Text
path_escape [] = []
path_escape (c ∷ s) =
    let rest = path_escape s in
    if is_plain c then c ∷ rest else b'%' ∷ hex_digit (c / 16) ∷ hex_digit (c % 16) ∷ rest

-- sandboxPath
unfoldable pub sandbox_path : Text → Text → Text
unfolding path_escape
sandbox_path name suffix =
    let p = codes "/sandboxes/" ++ path_escape name in
    if is_empty suffix then p else p ++ (codes "/" ++ suffix)

-- a byte that url.QueryEscape leaves as it is
unfoldable pub is_query_plain : ℕ → Bool
is_query_plain c =
    leb b'a' c && leb c b'z'
    || leb b'A' c && leb c b'Z'
    || leb b'0' c && leb c b'9'
    || any (λ d. c == d) (codes "-_.~")

-- url.QueryEscape
unfoldable pub query_escape : Text → Text
query_escape [] = []
query_escape (c ∷ s) =
    let rest = query_escape s in
    if is_query_plain c
    then c ∷ rest
    else if c == 32
    then b'+' ∷ rest
    else b'%' ∷ hex_digit (c / 16) ∷ hex_digit (c % 16) ∷ rest

abbrev parameter : Text × Text → Text
parameter (k, v) = query_escape k ++ codes "=" ++ query_escape v

-- url.Values.Encode, on keys in sorted order that have one value each
unfoldable pub encode_query : List (Text × Text) → Text
unfolding query_escape
encode_query [] = []
encode_query (p ∷ []) = parameter p
encode_query (p ∷ q ∷ ps) = parameter p ++ codes "&" ++ encode_query (q ∷ ps)
