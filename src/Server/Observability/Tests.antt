-- ===== src/Server/Observability/Tests.antt =====
-- the theorem on the query for logs, at a query.
use msb_manager.Prelude.{ℕ, codes, ◌++◌, has_prefix, decimal, text_eq, [], ◌∷◌, pos, ok, ◌≡◌, refl}
use msb_manager.Msb.Types.{LogsOpts}
use msb_manager.Msb.Args.{logs_args}
use msb_manager.Msb.Args.Flagged.{FlaggedBy}
use msb_manager.Server.Observability
use msb_manager.Server.Observability.{LogsQuery, check_query, valid_logs_source, split_commas}
use msb_manager.Server.Observability.Queries.{logs_flags, logs_options, logs_args-Flagged}

-- `?tail=10&since=5m&source=stdout,stderr`
abbrev logs_query : LogsQuery
logs_query = record {
  tail = codes "10";
  since = codes "5m";
  until = [];
  source = codes "stdout,stderr";
  grep = [];
}

abbrev logs_opts : LogsOpts
logs_opts = record {
  tail = pos 10;
  since = codes "5m";
  until = [];
  source = codes "stdout,stderr";
  grep = [];
}

query_accepted : check_query {F = ℕ} logs_query ≡ ok logs_opts
unfolding check_query valid_logs_source split_commas Observability.atoi text_eq has_prefix decimal
query_accepted = refl

logs_args-Flagged_example :
    (logs_args (codes "a") logs_opts
      ≡ codes "logs" ∷ (logs_options logs_opts ++ (codes "--json" ∷ codes "--" ∷ codes "a" ∷ [])))
    × FlaggedBy logs_flags (logs_options logs_opts)
logs_args-Flagged_example = logs_args-Flagged logs_query logs_opts (codes "a") query_accepted
