-- ===== src/Server/Handover.antt =====
-- internal/server/sandboxes.go: a volume passes from a sandbox that has been stopped to the next one
-- that is created with it.
use msb_manager.Prelude.{
  Text, true, Option, none, some, List, [], ◌∷◌, Result, ok, err, Result-cases, Bool-cases, inl,
  inr, ◌≡◌, ◌≢◌, refl, ap, ◌∙◌, lookup, insert, lookup-insert, Distinct, text_eq, text_eq_refl,
  text_eq_iff,
}
use msb_manager.Lock.{Held, Busy, acquire_many, find_conflict, claim_all, release}
use msb_manager.Lock.Laws.{lookup-release}
use msb_manager.Msb.Validate.{valid_name}
use msb_manager.Spec
use msb_manager.Spec.{Spec, validate, to_create_opts}
use msb_manager.Server.{MsbClient, State, check_path_name}
use msb_manager.Server.Sandboxes.{
  volumes_from_spec, created_body, create_claimed, create_valid, create_parsed, create_read,
  handle_create_sandbox, ended, stopped, handle_stop_sandbox,
}
use msb_manager.Server.Endings.{is_gone}
use msb_manager.Server.Outcomes.{IsAsked}

-- one volume that nobody holds is claimed
claim_all-free :
    (v s : Text) (m : Held) → lookup v m ≡ none → claim_all (v ∷ []) s m [] ≡ (v ∷ [], insert v s m)
unfolding claim_all
claim_all-free v s m h = rw (h, claim_all) refl

acquire_many-free :
    (v s : Text) (m : Held)
    → lookup v m ≡ none
    → acquire_many (v ∷ []) s m ≡ (ok (v ∷ []), insert v s m)
unfolding acquire_many find_conflict
acquire_many-free v s m h = rw (h, acquire_many, claim_all-free v s m h) refl

-- one volume that another sandbox holds is not
acquire_many-held :
    (v s h : Text) (m : Held)
    → lookup v m ≡ some h
    → h ≢ s
    → (b : Busy) × (acquire_many (v ∷ []) s m ≡ (err b, m))
unfolding acquire_many find_conflict claim_all
acquire_many-held v s h m e ne = elim (Bool-cases (text_eq h s)) [
  | inl k ↦ absurd (ne ((text_eq_iff h s).0 k))
  | inr k ↦ rw (e, k, acquire_many) (_, refl)
]

abbrev lock_after : Result Busy (List Text) × Held → Held
lock_after q = q.1

module _ {W F : Type 0} (client : MsbClient W F) where
  -- the state after a stop that msb made, or found nothing to do for
  after_stop :
      (a : Text) (st : State W)
      → valid_name a ≡ true
      → is_gone (client.stop a st.world).0 ≡ true
      → (handle_stop_sandbox client a st).1
        ≡ record st { held = release a st.held; world = (client.stop a st.world).1 }
  unfolding handle_stop_sandbox check_path_name stopped ended
  after_stop a st v g = elim (Result-cases (client.stop a st.world).0) [
    | inl (t, r) ↦ rw (v, r, ended) refl
    | inr (e, r) ↦ rw (v, r, ended, (rw r at g)) refl
  ]

  create_asked :
      (decode : Text → Result Text Spec) (body : Option Text) (s : Spec) (st : State W)
      → IsAsked client decode body s
      → handle_create_sandbox client decode body st ≡ create_valid client s st
  unfolding handle_create_sandbox create_read create_parsed
  create_asked decode body s st a =
      rw (a.read, handle_create_sandbox, a.decoded, create_read, a.valid, create_parsed) refl

  create_granted :
      (s : Spec) (newly : List Text) (st : State W) (m : Held)
      → acquire_many (volumes_from_spec s.volume) s.name st.held ≡ (ok newly, m)
      → (client.create (to_create_opts s) st.world).0 ≡ ok tt
      → ((create_valid client s st).0.status ≡ 201) × ((create_valid client s st).1.held ≡ m)
  unfolding create_valid create_claimed created_body
  create_granted s newly st m k r = rw (k, create_valid, r, create_claimed) (refl, ap lock_after k)

  create_denied :
      (s : Spec) (b : Busy) (st : State W)
      → acquire_many (volumes_from_spec s.volume) s.name st.held ≡ (err b, st.held)
      → ((create_valid client s st).0.status ≡ 409) × ((create_valid client s st).1 ≡ st)
  unfolding create_valid
  create_denied s b st k =
      rw (k, create_valid) (refl, ap (λ q. record st { held = lock_after q }) k)

  -- A create whose volume another sandbox holds is refused with 409 and changes nothing. Once that
  -- sandbox has been stopped, or msb does not know it, the same create answers 201 and has the
  -- volume, when msb makes the sandbox.
  pub handed_over :
      (decode : Text → Result Text Spec) (body : Option Text) (s : Spec) (v : Spec.Volume)
      (a : Text) (st : State W)
      → IsAsked client decode body s
      → s.volume ≡ some v
      → Distinct st.held
      → lookup v.name st.held ≡ some a
      → a ≢ s.name
      → valid_name a ≡ true
      → is_gone (client.stop a st.world).0 ≡ true
      → (client.create (to_create_opts s) (client.stop a st.world).1).0 ≡ ok tt
      → let before = handle_create_sandbox client decode body st in
        let after = handle_create_sandbox client decode body (handle_stop_sandbox client a st).1 in
        (before.0.status ≡ 409)
        × (before.1 ≡ st)
        × (after.0.status ≡ 201)
        × (lookup v.name after.1.held ≡ some s.name)
  handed_over decode body s v a st asked e d h ne va g m =
      let free = lookup-release a st.held v.name d ∙ rw (h, text_eq_refl a) refl in
      let (b, denied) = acquire_many-held v.name s.name a st.held h ne in
      let (refused, kept) = create_denied s b st (wants st ∙ denied) in
      let freed : State W = record st {
        held = release a st.held;
        world = (client.stop a st.world).1;
      } in
      let (made, has) =
        create_granted s _ freed _ (wants freed ∙ acquire_many-free v.name s.name freed.held free)
          m in
      rw
        (
          after_stop a st va g,
          create_asked decode body s st asked,
          create_asked decode body s freed asked,
        )
        (
          refused,
          kept,
          made,
          ap (lookup v.name) has
              ∙ lookup-insert v.name v.name s.name freed.held
              ∙ rw (text_eq_refl v.name) refl,
        )
    where
      wants :
          (st : State W)
          → acquire_many (volumes_from_spec s.volume) s.name st.held
            ≡ acquire_many (v.name ∷ []) s.name st.held
      wants st = ap (λ o. acquire_many (volumes_from_spec o) s.name st.held) e
