-- ===== src/Server/Interleaving/Exclusion.antt =====
-- internal/server under net/http: handlers that run at the same time, on different sandboxes.
use msb_manager.Prelude.{
  ℕ, Text, codes, some, Result, ok, err, Result-cases, Bool-cases, inl, inr, ◌≡◌, ◌≢◌, ◌==◌, ==_iff,
  sym, ◌∙◌,
}
use msb_manager.Spec.{Spec, validate}
use msb_manager.Server.{MsbClient, Response, State, read_body, check_path_name}
use msb_manager.Server.Sandboxes.{parse_spec}
use msb_manager.Server.Safety.{View, Covers, Covers-Same, MsbLaws}
use msb_manager.Server.Safety.Serving.{IsExclusive, Covers-IsExclusive}
use msb_manager.Server.Interleaving.{
  Point, idle, finding, stopping, removing, Call, create, start, stop, delete, acts_on, begin,
  begin_read, begin_parsed, or_done, advance, System, update, Unused, Drift, moved, Step, take, go,
  drift, Reach, here, next,
}
use msb_manager.Server.Interleaving.Frames.{MountLaws, IsReady, Frame-IsReady, Frame-moved}
use msb_manager.Server.Interleaving.Moves.{IsKept}
use msb_manager.Server.Interleaving.Steps.{advance-IsKept}

-- no two handlers act on one sandbox
abbrev pub IsApart : {F : Type 0} → (ℕ → Point F) → Type 0
IsApart at = (i j : ℕ) (n : Text) → acts_on (at i) ≡ some n → acts_on (at j) ≡ some n → i ≡ j

update-IsApart :
    {F : Type 0} (at : ℕ → Point F) (i : ℕ) (p : Point F)
    → ((j : ℕ) (n : Text) → j ≢ i → acts_on p ≡ some n → acts_on (at j) ≢ some n)
    → IsApart at
    → IsApart (update at i p)
update-IsApart at i p free h j k n a b = elim (Bool-cases (j == i)) [
  | inl e ↦ elim (Bool-cases (k == i)) [
    | inl f ↦ (==_iff j i).0 e ∙ sym ((==_iff k i).0 f)
    | inr f ↦ absurd (free k n (λ q. cc (f, (==_iff k i).1 q)) (rw e at a) (rw f at b))
  ]
  | inr e ↦ elim (Bool-cases (k == i)) [
    | inl f ↦ absurd (free j n (λ q. cc (e, (==_iff j i).1 q)) (rw f at b) (rw e at a))
    | inr f ↦ h j k n (rw e at a) (rw f at b)
  ]
]

module _ {W : Type 0} (F : Type 0) (view : View W) where
  begin_parsed-IsReady : (s : Spec) (st : State W) → IsReady view (begin_parsed {F = F} s) st
  unfolding begin_parsed
  begin_parsed-IsReady s st = elim (Result-cases (validate s)) [
    | inl (a, e) ↦ rw (e, begin_parsed) tt
    | inr (x, e) ↦ rw (e, begin_parsed) tt
  ]

  begin_read-IsReady :
      (decode : Text → Result Text Spec) (body : Text) (st : State W)
      → IsReady view (begin_read {F = F} decode body) st
  unfolding begin_read
  begin_read-IsReady decode body st = elim (Result-cases (parse_spec decode body)) [
    | inl (s, e) ↦ rw (e, begin_read) (begin_parsed-IsReady s st)
    | inr (x, e) ↦ rw (e, begin_read) tt
  ]

  or_done-IsReady {ℓ} :
      {A : Type ℓ} (r : Result (Response F) A) (k : A → Point F) (st : State W)
      → ((a : A) → IsReady view (k a) st)
      → IsReady view (or_done r k) st
  or_done-IsReady (ok a) k st h = h a
  or_done-IsReady (err r) k st h = tt

  -- a handler starts with nothing to rely on
  begin-IsReady :
      (decode : Text → Result Text Spec) (c : Call) (st : State W)
      → IsReady view (begin {F = F} decode c) st
  unfolding begin
  begin-IsReady decode (create body) st =
      or_done-IsReady (read_body (codes "spec too large") body) (begin_read decode) st
        (λ b. begin_read-IsReady decode b st)
  begin-IsReady decode (start n) st =
      or_done-IsReady (check_path_name n) (λ _. finding n) st (λ _. tt)
  begin-IsReady decode (stop n) st =
      or_done-IsReady (check_path_name n) (λ _. stopping n) st (λ _. tt)
  begin-IsReady decode (delete n) st =
      or_done-IsReady (check_path_name n) (λ _. removing n) st (λ _. tt)

module _ {W F : Type 0} (view : View W) where
  -- what holds while handlers are in flight
  pub record IsSafe (s : System W F) : Type 0 where
    pub covers : Covers view s.state
    pub ready : (i : ℕ) → IsReady view (s.at i) s.state
    pub apart : IsApart s.at

  module _ (client : MsbClient W F) (laws : MsbLaws view client) (mounts : MountLaws view client)
      (decode : Text → Result Text Spec) where
    taken-IsSafe :
        (s : System W F) (i : ℕ) (p : Point F)
        → Unused s p
        → IsReady view p s.state
        → IsSafe s
        → IsSafe (record s { at = update s.at i p })
    taken-IsSafe s i p free r h = record {
      covers = h.covers;
      ready = λ j. elim (Bool-cases (j == i)) [ inl e ↦ rw e r | inr e ↦ rw e (h.ready j) ];
      apart = update-IsApart s.at i p (λ j n ne a. free j n a) h.apart;
    }

    gone_on-IsSafe :
        (s : System W F) (i : ℕ) (q : Point F × State W)
        → IsKept view (s.at i) s.state q
        → IsSafe s
        → IsSafe (record { state = q.1; at = update s.at i q.0 })
    gone_on-IsSafe s i q k h = record {
      covers = k.covers;
      ready = λ j. elim (Bool-cases (j == i)) [
        | inl e ↦ rw e k.ready
        | inr e ↦ rw e (
            Frame-IsReady view (s.at j)
              (λ n a. k.frame n (λ b. cc (e, (==_iff j i).1 (h.apart j i n a b)))) (h.ready j))
      ];
      apart = update-IsApart s.at i q.0 (λ j n ne a b. ne (h.apart j i n b (k.acts n a))) h.apart;
    }

    drifted-IsSafe :
        (s : System W F) (w : W)
        → Drift view s.state.world w
        → IsSafe s
        → IsSafe (record s { state = moved s.state w })
    drifted-IsSafe s w d h = record {
      covers = Covers-Same view s.state w d.same h.covers;
      ready = λ j.
          Frame-IsReady view (s.at j)
            (λ n a. Frame-moved view n s.state w (d.same.running n) (d.mounts n)) (h.ready j);
      apart = h.apart;
    }

    Step-IsSafe : {s t : System W F} → Step view client decode Unused s t → IsSafe s → IsSafe t
    Step-IsSafe {s} (take i c idle_ free) h =
        taken-IsSafe s i (begin decode c) free (begin-IsReady F view decode c s.state) h
    Step-IsSafe {s} (go i) h =
        gone_on-IsSafe s i (advance client (s.at i) s.state)
          (advance-IsKept view client laws mounts (s.at i) s.state (h.ready i) h.covers) h
    Step-IsSafe {s} (drift w d) h = drifted-IsSafe s w d h

    Reach-IsSafe : {s t : System W F} → Reach view client decode Unused s t → IsSafe s → IsSafe t
    Reach-IsSafe here h = h
    Reach-IsSafe (next r st) h = Step-IsSafe st (Reach-IsSafe r h)

    -- Handlers for create, start, stop and delete run at the same time, cut wherever they touch the
    -- lock or the machine, and the machine may move by itself. While no two of them act on one
    -- sandbox, no volume is ever mounted by two running sandboxes, given that every claim is in
    -- place at the start and that msb's calls have the effect of their names.
    pub in_flight-IsExclusive :
        (st : State W) (t : System W F)
        → Covers view st
        → Reach view client decode Unused (record { state = st; at = λ _. idle }) t
        → IsExclusive view t.state.world
    in_flight-IsExclusive st t c r =
        Covers-IsExclusive view t.state
          (Reach-IsSafe r
            (record { covers = c; ready = λ i. tt; apart = λ i j n a b. absurd (cc a) })).covers
