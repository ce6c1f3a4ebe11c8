-- ===== src/Manager/Collecting.antt =====
-- cmd/msb-manager/main.go: what the loop over the listed sandboxes collects.
use msb_manager.Prelude.{
  Text, Bool, true, false, ◌||◌, ◌&&◌, some, List, [], ◌∷◌, Map, insert, lookup, lookup-insert,
  Distinct, insert-Distinct, Result, ok, err, Result-cases, Bool-cases, inl, inr, text_eq,
  text_eq_iff, text_eq_refl, text_neq, if◌then◌else◌, ◌≡◌, refl, ◌∙◌, arith,
}
use mathlib.Core.Path.{subst}
use msb_manager.Lock.{has_name}
use msb_manager.Msb.Errors.{Error}
use msb_manager.Msb.Types
use msb_manager.Msb.Types.{volume_names}
use msb_manager.Server.{MsbClient}
use msb_manager.Server.Safety.{View}
use msb_manager.Server.Safety.Serving.{IsExclusive}
use msb_manager.Manager.{set_all, is_running, collect}

-- is a sandbox of this name listed as running?
abbrev pub lists : Text → List Types.Sandbox → Bool
lists n [] = false
lists n (sb ∷ sbs) = (is_running sb && text_eq sb.name n) || lists n sbs

-- what the startup relies on: the reads of msb change nothing, the list tells which sandboxes run,
-- and inspect tells the volumes
pub record StartupLaws {W F : Type 0} (view : View W) (client : MsbClient W F) : Type 0 where
  pub list_reads : (w : W) → (client.list w).1 ≡ w
  pub inspect_reads : (name : Text) (w : W) → (client.inspect name w).1 ≡ w
  pub list_tells :
      (w : W) (l : List Types.Sandbox) (n : Text)
      → (client.list w).0 ≡ ok l
      → view.running w n ≡ lists n l
  pub inspect_tells :
      (name : Text) (w : W) (d : Types.SandboxDetail)
      → (client.inspect name w).0 ≡ ok d
      → view.volumes_of w name ≡ volume_names d

lookup-set_all :
    (vs : List Text) (s : Text) (m : Map Text) (j : Text)
    → lookup j (set_all vs s m) ≡ (if has_name j vs then some s else lookup j m)
unfolding set_all
lookup-set_all [] s m j = refl
lookup-set_all (v ∷ vs) s m j =
    ground (arith, lookup-set_all vs s (insert v s m) j, lookup-insert v j s m, text_eq_iff v j)

set_all-Distinct :
    (vs : List Text) (s : Text) (m : Map Text) → Distinct m → Distinct (set_all vs s m)
unfolding set_all
set_all-Distinct [] s m d = d
set_all-Distinct (v ∷ vs) s m d = set_all-Distinct vs s (insert v s m) (insert-Distinct v s m d)

or_right : (a b : Bool) → b ≡ true → (a || b) ≡ true
or_right true b h = refl
or_right false b h = h

ok_inj : {x y : Map Text} → ◌≡◌ {A = Result Error (Map Text)} (ok x) (ok y) → x ≡ y
ok_inj h = cc

module _ {W F : Type 0} (view : View W) (client : MsbClient W F)
    (laws : StartupLaws view client) where
  -- the state claims the volumes of the sandboxes for which the test holds
  pub record Claims (w : W) (done : Text → Bool) (state : Map Text) : Type 0 where
    pub distinct : Distinct state
    pub claimed :
        (n v : Text)
        → done n ≡ true
        → has_name v (view.volumes_of w n) ≡ true
        → lookup v state ≡ some n

  -- after one more sandbox
  Claims-set_all :
      (w : W) (done : Text → Bool) (state : Map Text) (s : Text)
      → IsExclusive view w
      → view.running w s ≡ true
      → ((n : Text) → done n ≡ true → view.running w n ≡ true)
      → Claims w done state
      → Claims w (λ n. text_eq s n || done n) (set_all (view.volumes_of w s) s state)
  unfolding IsExclusive
  Claims-set_all w done state s ex up run c = record {
    distinct = set_all-Distinct (view.volumes_of w s) s state c.distinct;
    claimed = λ n v d on.
        lookup-set_all (view.volumes_of w s) s state v ∙ (elim (Bool-cases (text_eq s n)) [
          | inl e ↦ this n v ((text_eq_iff s n).0 e) on
          | inr e ↦ another n v e (rw e at d) on
        ]);
  }
    where
      this :
          (n v : Text)
          → s ≡ n
          → has_name v (view.volumes_of w n) ≡ true
          → (if has_name v (view.volumes_of w s) then some s else lookup v state) ≡ some n
      this n v e on = rw (e, on) refl

      another :
          (n v : Text)
          → text_eq s n ≡ false
          → done n ≡ true
          → has_name v (view.volumes_of w n) ≡ true
          → (if has_name v (view.volumes_of w s) then some s else lookup v state) ≡ some n
      another n v e d on = elim (Bool-cases (has_name v (view.volumes_of w s))) [
        | inr h ↦ rw h (c.claimed n v d on)
        | inl h ↦ absurd (text_neq s n e (ex s n v up (run n d) h on))
      ]

  Claims-imp :
      (w : W) (done done' : Text → Bool) (state : Map Text)
      → ((n : Text) → done' n ≡ true → done n ≡ true)
      → Claims w done state
      → Claims w done' state
  Claims-imp w done done' state f c = record {
    distinct = c.distinct;
    claimed = λ n v d on. c.claimed n v (f n d) on;
  }

  collect-skips :
      (sb : Types.Sandbox) (sbs : List Types.Sandbox) (state : Map Text) (w : W)
      → is_running sb ≡ false
      → collect client (sb ∷ sbs) state w ≡ collect client sbs state w
  unfolding collect
  collect-skips sb sbs state w e = rw e refl

  collect-takes :
      (sb : Types.Sandbox) (sbs : List Types.Sandbox) (state : Map Text) (w : W)
      (d : Types.SandboxDetail)
      → is_running sb ≡ true
      → (client.inspect sb.name w).0 ≡ ok d
      → collect client (sb ∷ sbs) state w
        ≡ collect client sbs (set_all (view.volumes_of w sb.name) sb.name state) w
  unfolding collect
  collect-takes sb sbs state w d e r =
      rw (e, r, laws.inspect_tells sb.name w d r, laws.inspect_reads sb.name w) refl

  collect-fails :
      (sb : Types.Sandbox) (sbs : List Types.Sandbox) (state : Map Text) (w : W) (x : Error)
      → is_running sb ≡ true
      → (client.inspect sb.name w).0 ≡ err x
      → (collect client (sb ∷ sbs) state w).0 ≡ err x
  unfolding collect
  collect-fails sb sbs state w x e r = rw (e, r) refl

  -- the rest of the list is collected
  pub collect-Claims :
      (sbs : List Types.Sandbox) (done : Text → Bool) (state : Map Text) (w : W) (got : Map Text)
      → IsExclusive view w
      → ((n : Text) → done n ≡ true → view.running w n ≡ true)
      → ((n : Text) → lists n sbs ≡ true → view.running w n ≡ true)
      → Claims w done state
      → (collect client sbs state w).0 ≡ ok got
      → Claims w (λ n. lists n sbs || done n) got × ((collect client sbs state w).1 ≡ w)
  unfolding collect
  collect-Claims [] done state w got ex run rest c h =
      (subst (λ m. Claims w done m) (ok_inj h) c, refl)
  collect-Claims (sb ∷ sbs) done state w got ex run rest c h = elim (Bool-cases (is_running sb)) [
    | inr e ↦
        let (c', s) =
          collect-Claims sbs done state w got ex run (λ n l. rest n (or_right _ _ l)) c
            (rw (collect-skips sb sbs state w e) at h) in
        (Claims-imp w _ _ got (λ n l. ground arith) c', rw (collect-skips sb sbs state w e) s)
    | inl e ↦ elim (Result-cases (client.inspect sb.name w).0) [
      | inr (x, r) ↦ absurd (cc (h, collect-fails sb sbs state w x e r))
      | inl (d, r) ↦
          let up = rest sb.name (ground (arith, text_eq_refl sb.name)) in
          let (c', s) =
            collect-Claims sbs (λ n. text_eq sb.name n || done n)
              (set_all (view.volumes_of w sb.name) sb.name state) w got ex
              (λ n l. now_runs sb.name n (done n) up (run n) l) (λ n l. rest n (or_right _ _ l))
              (Claims-set_all w done state sb.name ex up run c)
              (rw (collect-takes sb sbs state w d e r) at h) in
          (Claims-imp w _ _ got (λ n l. ground arith) c', rw (collect-takes sb sbs state w d e r) s)
    ]
  ]
    where
      now_runs :
          (s n : Text) (b : Bool)
          → view.running w s ≡ true
          → (b ≡ true → view.running w n ≡ true)
          → (text_eq s n || b) ≡ true
          → view.running w n ≡ true
      now_runs s n b up f l = elim (Bool-cases (text_eq s n)) [
        | inl e ↦ rw ((text_eq_iff s n).0 e) at up
        | inr e ↦ f (rw e at l)
      ]

  pub collect-world :
      (sbs : List Types.Sandbox) (state : Map Text) (w : W) → (collect client sbs state w).1 ≡ w
  unfolding collect
  collect-world [] state w = refl
  collect-world (sb ∷ sbs) state w = elim (Bool-cases (is_running sb)) [
    | inr e ↦ rw (collect-skips sb sbs state w e) (collect-world sbs state w)
    | inl e ↦ elim (Result-cases (client.inspect sb.name w).0) [
      | inr (x, r) ↦ rw (e, r, collect) (laws.inspect_reads sb.name w)
      | inl (d, r) ↦
          rw (collect-takes sb sbs state w d e r)
            (collect-world sbs (set_all (view.volumes_of w sb.name) sb.name state) w)
    ]
  ]
