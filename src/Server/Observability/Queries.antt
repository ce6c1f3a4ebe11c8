-- ===== src/Server/Observability/Queries.antt =====
-- internal/server/observability.go with Client.Logs of internal/msb/client.go: no parameter of an
-- accepted query for logs can be read as a flag of msb.
use msb_manager.Prelude.{
  ℕ, Text, codes, Bool, true, false, ◌&&◌, not, List, [], ◌∷◌, ◌++◌, any, has_prefix, is_empty,
  text_eq, ℤ, Result, ok, err, reject_if, ◌>>◌, ◌>>=◌, all, append_assoc, ◌==◌, Bool-cases, inl,
  inr, ◌≡◌, refl, arith,
}
use msb_manager.Msb.Types.{LogsOpts}
use msb_manager.Server.{Response}
use msb_manager.Server.Observability.{
  LogsQuery, logs_sources, onto_head, split_commas, valid_logs_source, check_query,
}
use msb_manager.Msb.Args.{number_args, text_args, logs_args}
use msb_manager.Msb.Args.Flagged.{
  is_dashed, FlaggedBy, Flagged-append, number-Flagged, text-Flagged,
}

-- what an accepted query is read as
pub record IsAccepted (q : LogsQuery) (o : LogsOpts) : Type 0 where
  pub since : is_dashed q.since ≡ false
  pub until : is_dashed q.until ≡ false
  pub grep : is_dashed q.grep ≡ false
  pub source : (not (is_empty q.source) && not (valid_logs_source q.source)) ≡ false
  pub same : (o.since ≡ q.since) × (o.until ≡ q.until) × (o.grep ≡ q.grep) × (o.source ≡ q.source)

passed :
    {F A : Type 0} (b : Bool) (e : Response F) (k : Result (Response F) A) (a : A)
    → (reject_if b e >> k) ≡ ok a
    → (b ≡ false) × (k ≡ ok a)
passed true e k a h = absurd (cc h)
passed false e k a h = (refl, h)

ok_inj :
    (F : Type 0) (a b : LogsOpts) → ◌≡◌ {A = Result (Response F) LogsOpts} (ok a) (ok b) → a ≡ b
ok_inj F a b h = cc h

abbrev opts_of : LogsQuery → ℤ → LogsOpts
opts_of q n = record {
  tail = n;
  since = q.since;
  until = q.until;
  source = q.source;
  grep = q.grep;
}

read :
    (F : Type 0) (q : LogsQuery) (o : LogsOpts) (r : Result (Response F) ℤ)
    → (r >>= λ n. ok (opts_of q n)) ≡ ok o
    → (o.since ≡ q.since) × (o.until ≡ q.until) × (o.grep ≡ q.grep) × (o.source ≡ q.source)
read F q o (err e) h = absurd (cc h)
read F q o (ok n) h = let e = ok_inj F (opts_of q n) o h in (cc e, cc e, cc e, cc e)

check_query-IsAccepted :
    (F : Type 0) (q : LogsQuery) (o : LogsOpts) → check_query {F = F} q ≡ ok o → IsAccepted q o
unfolding check_query
check_query-IsAccepted F q o h =
    let (a, h1) = passed (is_dashed q.since) _ _ o h in
    let (b, h2) = passed (is_dashed q.until) _ _ o h1 in
    let (c, h3) = passed (is_dashed q.grep) _ _ o h2 in
    let (d, h4) = passed (not (is_empty q.source) && not (valid_logs_source q.source)) _ _ o h3 in
    record { since = a; until = b; grep = c; source = d; same = read F q o _ h4 }

no_source :
    (ps : List Text)
    → all (λ part. any (λ known. text_eq known part) logs_sources) (onto_head b'-' ps) ≡ false
unfolding text_eq
no_source [] = refl
no_source (p ∷ ps) = refl

dash : (c : ℕ) → (c == b'-') ≡ true → c ≡ b'-'
dash c h = ground arith

dashed_source : (s : Text) → is_dashed s ≡ true → valid_logs_source s ≡ false
unfolding valid_logs_source split_commas has_prefix
dashed_source [] h = absurd (cc h)
dashed_source (c ∷ s) h = elim (Bool-cases (c == b'-')) [
  | inr e ↦ absurd (cc (rw e at h))
  | inl e ↦ rw (dash c e) (no_source (split_commas s))
]

dashed_filled : (s : Text) → is_dashed s ≡ true → is_empty s ≡ false
unfolding has_prefix
dashed_filled [] h = absurd (cc h)
dashed_filled (c ∷ s) h = refl

source_undashed : (q : LogsQuery) (o : LogsOpts) → IsAccepted q o → is_dashed q.source ≡ false
source_undashed q o a = elim (Bool-cases (is_dashed q.source)) [
  | inr e ↦ e
  | inl e ↦ absurd (cc (rw (dashed_source q.source e, dashed_filled q.source e) at a.source))
]

-- the flags of `msb logs` that take a value
abbrev pub logs_flags : List Text
logs_flags =
    codes "--tail" ∷ codes "--since" ∷ codes "--until" ∷ codes "--source" ∷ codes "--grep" ∷ []

abbrev pub logs_options : LogsOpts → List Text
logs_options o =
    number_args (codes "--tail") o.tail
    ++ (text_args (codes "--since") o.since
        ++ (text_args (codes "--until") o.until
            ++ (text_args (codes "--source") o.source ++ text_args (codes "--grep") o.grep)))

logs_args_lem :
    (name : Text) (o : LogsOpts)
    → logs_args name o
      ≡ codes "logs" ∷ (logs_options o ++ (codes "--json" ∷ codes "--" ∷ name ∷ []))
unfolding logs_args
logs_args_lem name o = simp append_assoc

logs_options-Flagged :
    (q : LogsQuery) (o : LogsOpts) → IsAccepted q o → FlaggedBy logs_flags (logs_options o)
unfolding text_eq
logs_options-Flagged q o a =
    let (since, until, grep, source) = a.same in
    Flagged-append (number-Flagged (codes "--tail") o.tail refl) (
      Flagged-append (text-Flagged (codes "--since") o.since refl (rw since a.since)) (
        Flagged-append (text-Flagged (codes "--until") o.until refl (rw until a.until)) (
          Flagged-append
            (text-Flagged (codes "--source") o.source refl (rw source (source_undashed q o a)))
            (text-Flagged (codes "--grep") o.grep refl (rw grep a.grep)))))

-- The command line for the logs of a sandbox, when the query is accepted, has before its "--json"
-- only flags of `msb logs`, each with one value that does not begin with a dash, and the name stands
-- behind "--". So no parameter of the query is read as a flag.
pub logs_args-Flagged :
    {F : Type 0} (q : LogsQuery) (o : LogsOpts) (name : Text)
    → check_query {F = F} q ≡ ok o
    → (logs_args name o
        ≡ codes "logs" ∷ (logs_options o ++ (codes "--json" ∷ codes "--" ∷ name ∷ [])))
      × FlaggedBy logs_flags (logs_options o)
logs_args-Flagged {F = F} q o name h =
    (logs_args_lem name o, logs_options-Flagged q o (check_query-IsAccepted F q o h))
