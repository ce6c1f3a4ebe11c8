-- ===== src/Server/Observability.antt =====
-- internal/server/observability.go: logs and metrics.
pub mod Queries
mod Tests
use msb_manager.Prelude.{
  ℕ, zero, suc, ◌^◌, Text, codes, Bool, not, ◌&&◌, Option, none, some, List, [], ◌∷◌, ◌++◌, all,
  any, text_eq, has_prefix, if◌then◌else◌, ℤ, pos, negsuc, is_neg, is_digit, ltb, decimal, ◌==◌,
  Result, ok, err, ◌>>=◌, ◌>>◌, reject_if, is_empty,
}
use msb_manager.Msb.Types.{LogsOpts}
use msb_manager.Api.{new_metrics}
use msb_manager.Server.{
  MsbClient, Response, State, text, metrics_body, ndjson, bad_request, answer, check_path_name,
  or_respond,
}

-- logsSources
abbrev pub logs_sources : List Text
logs_sources = codes "stdout" ∷ codes "stderr" ∷ codes "output" ∷ codes "system" ∷ codes "all" ∷ []

abbrev pub onto_head : ℕ → List Text → List Text
onto_head c [] = (c ∷ []) ∷ []
onto_head c (p ∷ ps) = (c ∷ p) ∷ ps

-- strings.Split(s, ",")
unfoldable pub split_commas : Text → List Text
split_commas [] = [] ∷ []
split_commas (c ∷ s) =
    let rest = split_commas s in if c == b',' then [] ∷ rest else onto_head c rest

-- validLogsSource
unfoldable pub valid_logs_source : Text → Bool
unfolding split_commas
valid_logs_source s = all (λ part. any (λ known. text_eq known part) logs_sources) (split_commas s)

-- the query parameters that q.Get reads
pub record LogsQuery : Type 0 where
  pub tail : Text
  pub since : Text
  pub until : Text
  pub source : Text
  pub grep : Text

abbrev unsigned : Text → Option ℕ
unsigned ds = if not (is_empty ds) && all is_digit ds then some (decimal 0 ds) else none

abbrev positive_int : Option ℕ → Option ℤ
positive_int (some n) = if ltb n (2 ^ 63) then some (pos n) else none
positive_int none = none

abbrev negative_int : Option ℕ → Option ℤ
negative_int (some n) = elim n [
  | zero ↦ some (pos 0)
  | suc m ↦ if ltb m (2 ^ 63) then some (negsuc m) else none
]
negative_int none = none

-- strconv.Atoi
unfoldable pub atoi : Text → Option ℤ
atoi [] = none
atoi (c ∷ s) =
    if c == b'+'
    then positive_int (unsigned s)
    else if c == b'-'
    then negative_int (unsigned s)
    else positive_int (unsigned (c ∷ s))

module _ {F : Type 0} where
  abbrev flag_shaped : Text → Text → Result (Response F) (Unit {0})
  flag_shaped name value =
      reject_if (has_prefix value (codes "-"))
        (bad_request (text (name ++ codes " must not start with '-'")))

  abbrev tail_error : Response F
  tail_error = bad_request (text (codes "tail must be a non-negative integer"))

  abbrev not_negative : Option ℤ → Result (Response F) ℤ
  not_negative none = err tail_error
  not_negative (some n) = if is_neg n then err tail_error else ok n

  abbrev parse_tail : Text → Result (Response F) ℤ
  parse_tail [] = ok (pos 0)
  parse_tail (c ∷ s) = not_negative (atoi (c ∷ s))

  -- the tests of handleLogs
  unfoldable pub check_query : LogsQuery → Result (Response F) LogsOpts
  unfolding atoi valid_logs_source
  check_query q = do
    flag_shaped (codes "since") q.since
    flag_shaped (codes "until") q.until
    flag_shaped (codes "grep") q.grep
    reject_if (not (is_empty q.source) && not (valid_logs_source q.source)) (
        bad_request (
          text
            (codes "source must be a comma-separated subset of stdout,stderr,output,system,all")))
    n ← parse_tail q.tail
    ok (record { tail = n; since = q.since; until = q.until; source = q.source; grep = q.grep })

module _ {W F : Type 0} (client : MsbClient W F) where
  unfoldable pub read_logs : Text → LogsOpts → State W → Response F × State W
  read_logs name opts st =
      let (r, w) = client.logs name opts st.world in
      answer (codes "read logs") r (λ body. record { status = 200; body = ndjson body })
        (record st { world = w })

  -- handleLogs
  unfoldable pub handle_logs : Text → LogsQuery → State W → Response F × State W
  unfolding check_path_name check_query read_logs
  handle_logs name q st =
      or_respond (check_path_name name) st (λ _ st. or_respond (check_query q) st (read_logs name))

  unfoldable pub read_metrics : Text → State W → Response F × State W
  read_metrics name st =
      let (r, w) = client.metrics name st.world in
      answer (codes "read metrics") r
        (λ m. record { status = 200; body = metrics_body (new_metrics m) })
        (record st { world = w })

  -- handleMetrics
  unfoldable pub handle_metrics : Text → State W → Response F × State W
  unfolding check_path_name read_metrics
  handle_metrics name st = or_respond (check_path_name name) st (λ _. read_metrics name)
