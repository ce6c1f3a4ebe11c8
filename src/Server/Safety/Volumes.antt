-- ===== src/Server/Safety/Volumes.antt =====
-- internal/server/volumes.go: creating volumes keeps every claim covered.
use msb_manager.Prelude.{
  Text, codes, Bool, true, false, Option, List, [], ◌∷◌, Result-cases, Bool-cases, inl, inr,
  if◌then◌else◌, refl, ◌∙◌,
}
use msb_manager.Server.{VolumeResult, MsbClient, State, read_body}
use msb_manager.Server.Volumes.{
  VolumeYaml, VolumeRequest, is_created, execute_one, execute_batch, run_batch, plan_volume_batch,
  index_volumes, validate_manifest, handle_create_volume, handle_create_volume_batch, create_one,
  create_single, volume_body, check_request,
}
use msb_manager.Server.Safety.{View, Same, Covers, Covers-Same, MsbLaws, or_respond-keeps}
use msb_manager.Server.Safety.Reads.{answered}

module _ {W F : Type 0} (view : View W) (client : MsbClient W F) (laws : MsbLaws view client) where
  -- the batch: each round is quiet, so the whole is
  Same-trans : {w w' w'' : W} → Same view w w' → Same view w' w'' → Same view w w''
  Same-trans a b = record {
    running = λ n up. a.running n (b.running n up);
    volumes = λ n up. b.volumes n up ∙ a.volumes n (b.running n up);
  }

  Same-refl : (w : W) → Same view w w
  Same-refl w = record { running = λ n up. up; volumes = λ n up. refl }

  execute_one-Same : (r : VolumeResult) (w : W) → Same view w (execute_one client r w).1
  unfolding execute_one
  execute_one-Same r w = elim (Bool-cases (is_created r.status)) [
    | inr skip ↦ rw skip (Same-refl w)
    | inl run ↦ rw run (elim (Result-cases (client.volume_create r.name r.size w).0) [
      | inl (t, e) ↦ rw e (laws.volume_create r.name r.size w)
      | inr (x, e) ↦ rw e (laws.volume_create r.name r.size w)
    ])
  ]

  execute_batch-Same : (rs : List VolumeResult) (w : W) → Same view w (execute_batch client rs w).1
  unfolding execute_batch
  execute_batch-Same [] w = Same-refl w
  execute_batch-Same (r ∷ rs) w =
      Same-trans (execute_one-Same r w) (execute_batch-Same rs (execute_one client r w).1)

  run_batch-Covers :
      (vs : List VolumeRequest) (st : State W)
      → Covers view st
      → Covers view (run_batch client vs st).1
  unfolding run_batch
  run_batch-Covers vs st c = elim (Result-cases (client.volume_list st.world).0) [
    | inr (x, e) ↦ rw (e, run_batch) (Covers-Same view st _ (laws.volume_list st.world) c)
    | inl (l, e) ↦
        rw (e, run_batch)
          (Covers-Same view st _
            (Same-trans (laws.volume_list st.world)
              (execute_batch-Same (plan_volume_batch vs (index_volumes l [])) _))
            c)
  ]

  volume_batch-Covers :
      (yaml : VolumeYaml) (body : Text) (st : State W)
      → Covers view st
      → Covers view (handle_create_volume_batch client yaml body st).1
  unfolding handle_create_volume_batch
  volume_batch-Covers yaml body st c = elim (Result-cases (yaml.manifest body)) [
    | inr (m, e) ↦ rw (e, handle_create_volume_batch) c
    | inl (vs, e) ↦
        rw (e, handle_create_volume_batch)
          (elim (Result-cases (validate_manifest vs)) [
            | inr (m, v) ↦ rw (v, handle_create_volume_batch) c
            | inl (t, v) ↦ rw (v, handle_create_volume_batch) (run_batch-Covers vs st c)
          ])
  ]

  create_single-Covers :
      (yaml : VolumeYaml) (body : Text) (st : State W)
      → Covers view st
      → Covers view (create_single client yaml body st).1
  unfolding create_single create_one
  create_single-Covers yaml body st c = elim (Result-cases (yaml.request body)) [
    | inr (m, e) ↦ rw (e, create_single) c
    | inl (q, e) ↦
        rw (e, create_single)
          (or_respond-keeps (Covers view) (check_request client q) st (λ _. create_one client q) c
            (λ _.
              answered view client laws _ _ _ st _ (laws.volume_create q.name q.size st.world) c))
  ]

  volume_body-Covers :
      (yaml : VolumeYaml) (body : Text) (st : State W)
      → Covers view st
      → Covers view (volume_body client yaml body st).1
  unfolding volume_body
  volume_body-Covers yaml body st c = elim (Result-cases (yaml.probe body)) [
    | inr (m, e) ↦ rw (e, volume_body) c
    | inl (b, e) ↦ rw (e, volume_body) (by_shape b)
  ]
    where
      by_shape :
          (b : Bool)
          → Covers view
              (if b
                then handle_create_volume_batch client yaml body st
                else create_single client yaml body st).1
      by_shape true = volume_batch-Covers yaml body st c
      by_shape false = create_single-Covers yaml body st c

  pub create_volume-Covers :
      (yaml : VolumeYaml) (body : Option Text) (st : State W)
      → Covers view st
      → Covers view (handle_create_volume client yaml body st).1
  unfolding handle_create_volume
  create_volume-Covers yaml body st c =
      or_respond-keeps (Covers view) (read_body (codes "body too large") body) st
        (volume_body client yaml) c (λ b. volume_body-Covers yaml b st c)
