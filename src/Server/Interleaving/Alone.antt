-- ===== src/Server/Interleaving/Alone.antt =====
-- internal/server/sandboxes.go: a handler that nothing interrupts.
use msb_manager.Prelude.{
  ℕ, zero, suc, Text, codes, List, Result, ok, err, Result-cases, Bool-cases, inl, inr, ◌≡◌, refl,
}
use msb_manager.Lock.Claims.{acquire_many_outcome}
use msb_manager.Msb.Errors.{Error, sandbox_not_found, is_error}
use msb_manager.Msb.Types.{volume_names}
use msb_manager.Spec.{Spec, validate, to_create_opts}
use msb_manager.Server.{MsbClient, Response, State, read_body, check_path_name, or_respond}
use msb_manager.Server.Sandboxes.{
  volumes_from_spec, parse_spec, create_claimed, create_valid, create_parsed, create_read,
  handle_create_sandbox, start_claimed, start_found, start_named, handle_start_sandbox, ended,
  stopped, handle_stop_sandbox, removed, handle_delete_sandbox,
}
use msb_manager.Server.Interleaving.{
  Point, claiming, creating, finding, found, starting, stopping, removing, done, Call, create,
  start, stop, delete, begin, begin_read, begin_parsed, or_done, advance, after_end,
}

module _ {W F : Type 0} (client : MsbClient W F) where
  -- some steps of one handler
  unfoldable pub settle : ℕ → Point F → State W → Point F × State W
  settle zero p st = (p, st)
  settle (suc n) p st = let (q, st') = advance client p st in settle n q st'

  -- the handler as one function
  unfoldable pub handled : (Text → Result Text Spec) → Call → State W → Response F × State W
  handled decode (create body) = handle_create_sandbox client decode body
  handled decode (start name) = handle_start_sandbox client name
  handled decode (stop name) = handle_stop_sandbox client name
  handled decode (delete name) = handle_delete_sandbox client name

  -- the handler has responded
  abbrev pub responded : Response F × State W → Point F × State W
  responded (r, st) = (done r, st)

  settle-done : (n : ℕ) (r : Response F) (st : State W) → settle n (done r) st ≡ (done r, st)
  unfolding settle advance
  settle-done zero r st = refl
  settle-done (suc n) r st = settle-done n r st

  settle-creating :
      (s : Spec) (newly : List Text) (st : State W)
      → settle 3 (creating s newly) st ≡ responded (create_claimed client s newly st)
  unfolding settle advance create_claimed
  settle-creating s newly st = elim (Result-cases (client.create (to_create_opts s) st.world).0) [
    | inl (a, e) ↦ rw (e, settle, advance, create_claimed) refl
    | inr (x, e) ↦ rw (e, settle, advance, create_claimed) refl
  ]

  settle-claiming :
      (s : Spec) (st : State W) → settle 4 (claiming s) st ≡ responded (create_valid client s st)
  unfolding settle advance create_valid
  settle-claiming s st = elim (acquire_many_outcome (volumes_from_spec s.volume) s.name st.held) [
    | inl (newly, o, e) ↦ rw (o, create_valid) (settle-creating s newly _)
    | inr (b, o, e) ↦ rw (o, create_valid) refl
  ]

  settle-begin_read :
      (decode : Text → Result Text Spec) (body : Text) (st : State W)
      → settle 4 (begin_read decode body) st ≡ responded (create_read client decode body st)
  unfolding begin_read begin_parsed create_read create_parsed
  settle-begin_read decode body st = elim (Result-cases (parse_spec decode body)) [
    | inr (m, e) ↦ rw (e, begin_read, create_read) (settle-done 4 _ st)
    | inl (s, e) ↦
        rw (e, begin_read, create_read)
          (elim (Result-cases (validate s)) [
            | inr (m, v) ↦ rw (v, begin_parsed, create_parsed) (settle-done 4 _ st)
            | inl (t, v) ↦ rw (v, begin_parsed, create_parsed) (settle-claiming s st)
          ])
  ]

  settle-starting :
      (n : Text) (newly : List Text) (st : State W)
      → settle 2 (starting n newly) st ≡ responded (start_claimed client n newly st)
  unfolding settle advance start_claimed
  settle-starting n newly st = elim (Result-cases (client.start n st.world).0) [
    | inl (a, e) ↦ rw (e, settle, advance, start_claimed) refl
    | inr (x, e) ↦ rw (e, settle, advance, start_claimed) refl
  ]

  settle-found :
      (n : Text) (vs : List Text) (st : State W)
      → settle 3 (found n vs) st ≡ responded (start_found client n vs st)
  unfolding settle advance start_found
  settle-found n vs st = elim (acquire_many_outcome vs n st.held) [
    | inl (newly, o, e) ↦ rw (o, start_found) (settle-starting n newly _)
    | inr (b, o, e) ↦ rw (o, start_found) refl
  ]

  settle-finding :
      (n : Text) (st : State W) → settle 4 (finding n) st ≡ responded (start_named client n st)
  unfolding settle advance start_named
  settle-finding n st = elim (Result-cases (client.inspect n st.world).0) [
    | inl (d, e) ↦ rw (e, start_named) (settle-found n (volume_names d) _)
    | inr (x, e) ↦ rw (e, start_named) refl
  ]

  -- the end of a stop or a delete
  settle-after_end :
      (op n : Text) (r : Result Error (Unit {0})) (st : State W)
      → settle 3 (after_end op n r) st ≡ responded (ended client op n r st)
  unfolding settle advance after_end ended
  settle-after_end op n (ok a) st = refl
  settle-after_end op n (err e) st = elim (Bool-cases (is_error e sandbox_not_found)) [
    | inl g ↦ rw (g, after_end, ended) refl
    | inr g ↦ rw (g, after_end, ended) refl
  ]

  settle-or_done {ℓ} :
      {A : Type ℓ} (r : Result (Response F) A) (k : A → Point F)
      (h : A → State W → Response F × State W) (st : State W)
      → ((a : A) → settle 4 (k a) st ≡ responded (h a st))
      → settle 4 (or_done r k) st ≡ responded (or_respond r st h)
  settle-or_done (ok a) k h st same = same a
  settle-or_done (err r) k h st same = settle-done 4 r st

  -- A handler that nothing interrupts has responded after four steps, and has responded what the
  -- handler read as one function responds, with the same lock and the same machine.
  pub settle-begin :
      (decode : Text → Result Text Spec) (c : Call) (st : State W)
      → settle 4 (begin decode c) st ≡ responded (handled decode c st)
  unfolding begin handled handle_create_sandbox handle_start_sandbox handle_stop_sandbox
      handle_delete_sandbox stopped removed
  settle-begin decode (create body) st =
      settle-or_done (read_body (codes "spec too large") body) (begin_read decode)
        (create_read client decode) st (λ b. settle-begin_read decode b st)
  settle-begin decode (start n) st =
      settle-or_done (check_path_name n) (λ _. finding n) (λ _. start_named client n) st
        (λ _. settle-finding n st)
  settle-begin decode (stop n) st =
      settle-or_done (check_path_name n) (λ _. stopping n) (λ _. stopped client n) st
        (λ _.
          unfold settle advance in
          settle-after_end (codes "stop sandbox") n (client.stop n st.world).0 _)
  settle-begin decode (delete n) st =
      settle-or_done (check_path_name n) (λ _. removing n) (λ _. removed client n) st
        (λ _.
          unfold settle advance in
          settle-after_end (codes "remove sandbox") n (client.rm n st.world).0 _)
