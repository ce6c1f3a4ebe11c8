-- ===== src/Server/Safety/Mutations.antt =====
-- internal/server/sandboxes.go: the handlers that start and stop sandboxes keep every claim covered.
use msb_manager.Prelude.{
  Text, codes, true, false, Option, none, some, List, Result, ok, err, Result-cases, Bool-cases,
  inl, inr, ◌≡◌, refl, ◌∙◌, Distinct,
}
use msb_manager.Lock.{Held, acquire_many}
use msb_manager.Lock.Claims.{acquire_many_outcome, acquire_many-IsClaimed, acquire_many-Distinct}
use msb_manager.Msb.Errors.{Error, sandbox_not_found, is_error}
use msb_manager.Msb.Types.{volume_names}
use msb_manager.Spec
use msb_manager.Spec.{Spec, validate, to_create_opts, to_mount}
use msb_manager.Server.{MsbClient, State, read_body, check_path_name}
use msb_manager.Server.Sandboxes.{
  volumes_from_spec, parse_spec, create_claimed, create_valid, create_parsed, create_read,
  handle_create_sandbox, start_claimed, start_found, start_named, handle_start_sandbox, ended,
  stopped, handle_stop_sandbox, removed, handle_delete_sandbox,
}
use msb_manager.Server.Safety.{
  View, Same, Booted, Ended, Covers, Covers-Same, MsbLaws, mounted, or_respond-keeps,
}
use msb_manager.Server.Safety.Claims.{Covers-Booted, Covers-rolled_back, Covers-Ended}

module _ {W F : Type 0} (view : View W) (client : MsbClient W F) (laws : MsbLaws view client) where
  ended-Covers :
      (op name : Text) (r : Result Error (Unit {0})) (st : State W) (w' : W)
      → (r ≡ ok tt → Ended view name st.world w')
      → ((e : Error)
          → r ≡ err e
          → is_error e sandbox_not_found ≡ true
          → Ended view name st.world w')
      → ((e : Error) → r ≡ err e → is_error e sandbox_not_found ≡ false → Same view st.world w')
      → Covers view st
      → Covers view (ended client op name r (record st { world = w' })).1
  unfolding ended
  ended-Covers op name (ok tt) st w' done gone failed c = Covers-Ended view name st w' (done refl) c
  ended-Covers op name (err e) st w' done gone failed c =
      elim (Bool-cases (is_error e sandbox_not_found)) [
        | inl g ↦ rw g (Covers-Ended view name st w' (gone e refl g) c)
        | inr g ↦ rw g (Covers-Same view st w' (failed e refl g) c)
      ]

  pub stop-Covers :
      (name : Text) (st : State W)
      → Covers view st
      → Covers view (handle_stop_sandbox client name st).1
  unfolding handle_stop_sandbox stopped
  stop-Covers name st c =
      or_respond-keeps (Covers view) (check_path_name name) st (λ _. stopped client name) c
        (λ _.
          ended-Covers _ name (client.stop name st.world).0 st _ (laws.stop_ends name st.world)
            (laws.stop_not_found name st.world) (laws.stop_fails name st.world) c)

  pub delete-Covers :
      (name : Text) (st : State W)
      → Covers view st
      → Covers view (handle_delete_sandbox client name st).1
  unfolding handle_delete_sandbox removed
  delete-Covers name st c =
      or_respond-keeps (Covers view) (check_path_name name) st (λ _. removed client name) c
        (λ _.
          ended-Covers _ name (client.rm name st.world).0 st _ (laws.rm_ends name st.world)
            (laws.rm_not_found name st.world) (laws.rm_fails name st.world) c)

  mounted-to_mount : (v : Option Spec.Volume) → mounted (to_mount v) ≡ volumes_from_spec v
  mounted-to_mount none = refl
  mounted-to_mount (some v) = refl

  pub create_boots :
      (s : Spec) (w : W)
      → (client.create (to_create_opts s) w).0 ≡ ok tt
      → Booted view s.name w (client.create (to_create_opts s) w).1
  unfolding to_create_opts
  create_boots s w r = laws.create_boots (to_create_opts s) w r

  pub create_mounts :
      (s : Spec) (w : W)
      → (client.create (to_create_opts s) w).0 ≡ ok tt
      → view.running (client.create (to_create_opts s) w).1 s.name ≡ true
      → view.volumes_of (client.create (to_create_opts s) w).1 s.name ≡ volumes_from_spec s.volume
  unfolding to_create_opts
  create_mounts s w r up = laws.create_mounts (to_create_opts s) w r up ∙ mounted-to_mount s.volume

  claimed-Distinct :
      (vs : List Text) (name : Text) (st : State W) (newly : List Text) (m' : Held)
      → acquire_many vs name st.held ≡ (ok newly, m')
      → Covers view st
      → Distinct m'
  claimed-Distinct vs name st newly m' e c =
      rw e at (acquire_many-Distinct vs name st.held c.distinct)

  create_claimed-Covers :
      (s : Spec) (newly : List Text) (st : State W) (m' : Held)
      → acquire_many (volumes_from_spec s.volume) s.name st.held ≡ (ok newly, m')
      → Covers view st
      → Covers view (create_claimed client s newly (record st { held = m' })).1
  unfolding create_claimed
  create_claimed-Covers s newly st m' e c =
      let o = to_create_opts s in
      let vs = volumes_from_spec s.volume in
      let d = claimed-Distinct vs s.name st newly m' e c in
      elim (Result-cases (client.create o st.world).0) [
        | inl (t, r) ↦
            rw (r, create_claimed)
              (Covers-Booted view s.name vs newly st m' (client.create o st.world).1
                (acquire_many-IsClaimed vs s.name st.held newly m' e) d (create_boots s st.world r)
                (create_mounts s st.world r) c)
        | inr (x, r) ↦
            rw (r, create_claimed)
              (Covers-rolled_back view s.name vs newly st m' (client.create o st.world).1 e d
                (laws.create_fails o st.world x r) c)
      ]

  create_valid-Covers :
      (s : Spec) (st : State W) → Covers view st → Covers view (create_valid client s st).1
  unfolding create_valid
  create_valid-Covers s st c =
      let vs = volumes_from_spec s.volume in
      elim (acquire_many_outcome vs s.name st.held) [
        | inl (newly, r, e) ↦ rw (r, create_valid) (create_claimed-Covers s newly st _ e c)
        | inr (b, r, e) ↦ rw (r, create_valid) (rw e c)
      ]

  create_read-Covers :
      (decode : Text → Result Text Spec) (body : Text) (st : State W)
      → Covers view st
      → Covers view (create_read client decode body st).1
  unfolding create_read create_parsed
  create_read-Covers decode body st c = elim (Result-cases (parse_spec decode body)) [
    | inr (m, e) ↦ rw (e, create_read) c
    | inl (s, e) ↦
        rw (e, create_read)
          (elim (Result-cases (validate s)) [
            | inr (m, v) ↦ rw (v, create_parsed) c
            | inl (t, v) ↦ rw (v, create_parsed) (create_valid-Covers s st c)
          ])
  ]

  pub create-Covers :
      (decode : Text → Result Text Spec) (body : Option Text) (st : State W)
      → Covers view st
      → Covers view (handle_create_sandbox client decode body st).1
  unfolding handle_create_sandbox
  create-Covers decode body st c =
      or_respond-keeps (Covers view) (read_body (codes "spec too large") body) st
        (create_read client decode) c (λ b. create_read-Covers decode b st c)

  start_claimed-Covers :
      (name : Text) (vs newly : List Text) (st : State W) (m' : Held)
      → acquire_many vs name st.held ≡ (ok newly, m')
      → view.volumes_of st.world name ≡ vs
      → Covers view st
      → Covers view (start_claimed client name newly (record st { held = m' })).1
  unfolding start_claimed
  start_claimed-Covers name vs newly st m' e vols c =
      let d = claimed-Distinct vs name st newly m' e c in
      elim (Result-cases (client.start name st.world).0) [
        | inl (t, r) ↦
            rw (r, start_claimed)
              (Covers-Booted view name vs newly st m' (client.start name st.world).1
                (acquire_many-IsClaimed vs name st.held newly m' e) d
                (laws.start_boots name st.world r) (λ up. laws.start_keeps name st.world up ∙ vols)
                c)
        | inr (x, r) ↦
            rw (r, start_claimed)
              (Covers-rolled_back view name vs newly st m' (client.start name st.world).1 e d
                (laws.start_fails name st.world x r) c)
      ]

  start_found-Covers :
      (name : Text) (vs : List Text) (st : State W)
      → view.volumes_of st.world name ≡ vs
      → Covers view st
      → Covers view (start_found client name vs st).1
  unfolding start_found
  start_found-Covers name vs st vols c = elim (acquire_many_outcome vs name st.held) [
    | inl (newly, r, e) ↦ rw (r, start_found) (start_claimed-Covers name vs newly st _ e vols c)
    | inr (b, r, e) ↦ rw (r, start_found) (rw e c)
  ]

  start_named-Covers :
      (name : Text) (st : State W) → Covers view st → Covers view (start_named client name st).1
  unfolding start_named
  start_named-Covers name st c =
      let w1 = (client.inspect name st.world).1 in
      let c1 = Covers-Same view st w1 (laws.inspect name st.world) c in
      elim (Result-cases (client.inspect name st.world).0) [
        | inl (d, r) ↦
            rw (r, start_named)
              (start_found-Covers name (volume_names d) (record st { world = w1 })
                (laws.inspect_volumes name st.world d r) c1)
        | inr (x, r) ↦ rw (r, start_named) c1
      ]

  pub start-Covers :
      (name : Text) (st : State W)
      → Covers view st
      → Covers view (handle_start_sandbox client name st).1
  unfolding handle_start_sandbox
  start-Covers name st c =
      or_respond-keeps (Covers view) (check_path_name name) st (λ _. start_named client name) c
        (λ _. start_named-Covers name st c)
