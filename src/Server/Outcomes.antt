-- ===== src/Server/Outcomes.antt =====
-- internal/server/sandboxes.go: what a create and a start do to the volume lock, on every branch.
use msb_manager.Prelude.{
  ℕ, ◌≤◌, Text, codes, Option, none, some, List, Result, ok, err, Result-cases, inl, inr, ◌⊎◌, ◌≡◌,
  refl, lookup, arith,
}
use msb_manager.Lock.{Held, acquire_many, release_volumes}
use msb_manager.Lock.Claims.{
  IsClaimed, acquire_many_outcome, acquire_many-IsClaimed, release_volumes-acquire_many,
}
use msb_manager.Msb.Errors.{Error}
use msb_manager.Msb.Types
use msb_manager.Msb.Types.{volume_names}
use msb_manager.Server.Mounting.{IsMountedBy, volume_names-IsMountedBy}
use msb_manager.Spec.{Spec, validate, to_create_opts}
use msb_manager.Server.{
  MsbClient, Response, State, read_body, check_path_name, or_respond, adapter_error,
  status_for_adapter_error,
}
use msb_manager.Server.Sandboxes.{
  volumes_from_spec, parse_spec, create_claimed, create_valid, create_parsed, create_read,
  handle_create_sandbox, start_claimed, start_found, start_named, handle_start_sandbox,
  created_body,
}

-- an error status, and every volume with the holder it had
pub record IsRefused {W F : Type 0} (st : State W) (p : Response F × State W) : Type 0 where
  pub status : 400 ≤ p.0.status
  pub keeps : (j : Text) → lookup j p.1.held ≡ lookup j st.held

-- the status of a success, with the volumes claimed for the sandbox
pub record IsClaiming {W F : Type 0} (code : ℕ) (name : Text) (vs : List Text) (st : State W)
    (p : Response F × State W) : Type 0 where
  pub status : p.0.status ≡ code
  pub newly : List Text
  pub claims : IsClaimed vs name st.held newly p.1.held

-- Whatever the adapter's error is, the response to it has an error status.
pub adapter_error_status :
    (F : Type 0) (op : Text) (e : Error) → 400 ≤ (adapter_error {F = F} op e).status
unfolding adapter_error status_for_adapter_error
adapter_error_status F op e = ground arith

module _ {F : Type 0} where
  path_refused : (name : Text) (x : Response F) → check_path_name name ≡ err x → 400 ≤ x.status
  unfolding check_path_name
  path_refused name x h = ground arith

  body_refused :
      (m : Text) (body : Option Text) (x : Response F) → read_body m body ≡ err x → 400 ≤ x.status
  unfolding read_body
  body_refused m none x h = ground arith
  body_refused m (some b) x h = ground arith

module _ {W F : Type 0} where
  IsRefused-as_is : (r : Response F) (st : State W) → 400 ≤ r.status → IsRefused st (r, st)
  IsRefused-as_is r st h = record { status = h; keeps = λ j. refl }

  pub or_respond-cases {ℓ} :
      {A : Type ℓ} (P : Response F × State W → Type 0) (r : Result (Response F) A) (st : State W)
      (k : A → State W → Response F × State W)
      → ((x : Response F) → r ≡ err x → P (x, st))
      → ((a : A) → r ≡ ok a → P (k a st))
      → P (or_respond r st k)
  or_respond-cases P (ok a) st k f g = g a refl
  or_respond-cases P (err x) st k f g = f x refl

  -- the roll-back of what was claimed
  rolled_back :
      (r : Response F) (vs newly : List Text) (name : Text) (st : State W) (m' : Held) (w : W)
      → acquire_many vs name st.held ≡ (ok newly, m')
      → 400 ≤ r.status
      → IsRefused st (r, record st { held = release_volumes newly name m'; world = w })
  rolled_back r vs newly name st m' w e h = record {
    status = h;
    keeps = λ j. release_volumes-acquire_many vs name st.held newly m' j e;
  }

  claiming :
      (r : Response F) (vs newly : List Text) (name : Text) (st : State W) (m' : Held) (w : W)
      → acquire_many vs name st.held ≡ (ok newly, m')
      → IsClaiming r.status name vs st (r, record st { held = m'; world = w })
  claiming r vs newly name st m' w e = record {
    status = refl;
    newly = newly;
    claims = acquire_many-IsClaimed vs name st.held newly m' e;
  }

module _ {W F : Type 0} (client : MsbClient W F) where
  create_claimed-cases :
      (s : Spec) (newly : List Text) (st : State W) (m' : Held)
      → acquire_many (volumes_from_spec s.volume) s.name st.held ≡ (ok newly, m')
      → IsClaiming 201 s.name
          (volumes_from_spec s.volume)
          st
          (create_claimed client s newly (record st { held = m' }))
        ⊎ IsRefused st (create_claimed client s newly (record st { held = m' }))
  unfolding create_claimed created_body
  create_claimed-cases s newly st m' e =
      elim (Result-cases (client.create (to_create_opts s) st.world).0) [
        | inl (t, r) ↦ rw (r, create_claimed) (inl (claiming _ _ newly s.name st m' _ e))
        | inr (x, r) ↦
            rw (r, create_claimed)
              (inr (rolled_back _ _ newly s.name st m' _ e (adapter_error_status F _ x)))
      ]

  create_valid-cases :
      (s : Spec) (st : State W)
      → IsClaiming 201 s.name (volumes_from_spec s.volume) st (create_valid client s st)
        ⊎ IsRefused st (create_valid client s st)
  unfolding create_valid
  create_valid-cases s st =
      elim (acquire_many_outcome (volumes_from_spec s.volume) s.name st.held) [
        | inl (newly, r, e) ↦ rw (r, create_valid) (create_claimed-cases s newly st _ e)
        | inr (b, r, e) ↦
            rw (r, create_valid) (inr (record { status = ground arith; keeps = λ j. rw e refl }))
      ]

  -- the spec that a create was asked for
  pub record IsAsked (decode : Text → Result Text Spec) (body : Option Text) (s : Spec)
      : Type 0 where
    pub sent : Text
    pub read : read_body {F = F} (codes "spec too large") body ≡ ok sent
    pub decoded : parse_spec decode sent ≡ ok s
    pub valid : validate s ≡ ok tt

  Creates :
      (decode : Text → Result Text Spec) (body : Option Text) (st : State W)
      (p : Response F × State W)
      → Type 0
  Creates decode body st p =
      ((s : Spec) × IsAsked decode body s × IsClaiming 201 s.name (volumes_from_spec s.volume) st p)
      ⊎ IsRefused st p

  create_read-Creates :
      (decode : Text → Result Text Spec) (body : Option Text) (sent : Text) (st : State W)
      → read_body {F = F} (codes "spec too large") body ≡ ok sent
      → Creates decode body st (create_read client decode sent st)
  unfolding create_read create_parsed Creates
  create_read-Creates decode body sent st r = elim (Result-cases (parse_spec decode sent)) [
    | inr (m, e) ↦ rw (e, create_read) (inr (IsRefused-as_is _ st (ground arith)))
    | inl (s, e) ↦
        rw (e, create_read)
          (elim (Result-cases (validate s)) [
            | inr (m, v) ↦ rw (v, create_parsed) (inr (IsRefused-as_is _ st (ground arith)))
            | inl (tt, v) ↦
                rw (v, create_parsed)
                  (elim (create_valid-cases s st) [
                    | inr f ↦ inr f
                    | inl c ↦ inl (s, record { sent = sent; read = r; decoded = e; valid = v }, c)
                  ])
          ])
  ]

  -- A create answers 201 and has claimed the volume of the spec it was sent, which is valid, for the
  -- sandbox of that name; or it answers with an error status and every volume has the holder that
  -- it had before, also when msb failed after the claim.
  pub create_sandbox_lem :
      (decode : Text → Result Text Spec) (body : Option Text) (st : State W)
      → ((s : Spec) × IsAsked decode body s
          × IsClaiming 201 s.name
              (volumes_from_spec s.volume)
              st
              (handle_create_sandbox client decode body st))
        ⊎ IsRefused st (handle_create_sandbox client decode body st)
  unfolding handle_create_sandbox Creates
  create_sandbox_lem decode body st =
      or_respond-cases (Creates decode body st) (read_body (codes "spec too large") body) st
        (create_read client decode) (λ x h. inr (IsRefused-as_is x st (body_refused _ body x h)))
        (λ b h. create_read-Creates decode body b st h)

  start_claimed-cases :
      (name : Text) (vs newly : List Text) (st : State W) (m' : Held)
      → acquire_many vs name st.held ≡ (ok newly, m')
      → IsClaiming 204 name vs st (start_claimed client name newly (record st { held = m' }))
        ⊎ IsRefused st (start_claimed client name newly (record st { held = m' }))
  unfolding start_claimed
  start_claimed-cases name vs newly st m' e = elim (Result-cases (client.start name st.world).0) [
    | inl (t, r) ↦ rw (r, start_claimed) (inl (claiming _ vs newly name st m' _ e))
    | inr (x, r) ↦
        rw (r, start_claimed)
          (inr (rolled_back _ vs newly name st m' _ e (adapter_error_status F _ x)))
  ]

  start_found-cases :
      (name : Text) (vs : List Text) (st : State W)
      → IsClaiming 204 name vs st (start_found client name vs st)
        ⊎ IsRefused st (start_found client name vs st)
  unfolding start_found
  start_found-cases name vs st = elim (acquire_many_outcome vs name st.held) [
    | inl (newly, r, e) ↦ rw (r, start_found) (start_claimed-cases name vs newly st _ e)
    | inr (b, r, e) ↦
        rw (r, start_found) (inr (record { status = ground arith; keeps = λ j. rw e refl }))
  ]

  Starts : (name : Text) (st : State W) (p : Response F × State W) → Type 0
  Starts name st p =
      ((d : Types.SandboxDetail) × ((client.inspect name st.world).0 ≡ ok d)
        × ((vs : List Text) × IsMountedBy d.mounts vs × IsClaiming 204 name vs st p))
      ⊎ IsRefused st p

  start_named-Starts : (name : Text) (st : State W) → Starts name st (start_named client name st)
  unfolding start_named Starts
  start_named-Starts name st = elim (Result-cases (client.inspect name st.world).0) [
    | inr (x, r) ↦
        rw (r, start_named)
          (inr (record { status = adapter_error_status F _ x; keeps = λ j. refl }))
    | inl (d, r) ↦
        rw (r, start_named)
          (elim (start_found-cases name (volume_names d)
            (record st { world = (client.inspect name st.world).1 })) [
              | inr f ↦ inr (record { status = f.status; keeps = f.keeps })
              | inl c ↦ inl (
                d,
                refl,
                (
                  volume_names d,
                  unfold volume_names in volume_names-IsMountedBy d.mounts,
                  record { status = c.status; newly = c.newly; claims = c.claims },
                ),
              )
            ])
  ]

  -- A start answers 204 and has claimed for the sandbox the volumes that msb says it mounts, those of
  -- its mounts of the kind "Named" and no others;
  -- or it answers with an error status and every volume has the holder that it had before.
  pub start_sandbox_lem :
      (name : Text) (st : State W)
      → ((d : Types.SandboxDetail) × ((client.inspect name st.world).0 ≡ ok d)
          × ((vs : List Text) × IsMountedBy d.mounts vs
              × IsClaiming 204 name vs st (handle_start_sandbox client name st)))
        ⊎ IsRefused st (handle_start_sandbox client name st)
  unfolding handle_start_sandbox Starts
  start_sandbox_lem name st =
      or_respond-cases (Starts name st) (check_path_name name) st (λ _. start_named client name)
        (λ x h. inr (IsRefused-as_is x st (path_refused name x h)))
        (λ _ _. start_named-Starts name st)
