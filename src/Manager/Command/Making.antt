-- ===== src/Manager/Command/Making.antt =====
-- what the client of internal/msb sees of the small msb command, and what a create does.
use msb_manager.Prelude.{
  Text, Option, none, some, [], ◌∷◌, ◌++◌, Result, ok, err, ltb, length, ◌-◌, contains_byte,
  Bool-cases, inl, inr, ◌≡◌, ◌≢◌, refl, sym, ap, ◌∙◌,
}
use mathlib.Core.Path.{subst}
use msb_manager.Msb.Errors.{Error, wrap_run_err}
use msb_manager.Msb.Types
use msb_manager.Msb.Types.{CreateOpts, volume_names, volume_names_of}
use msb_manager.Msb.Runner.{Child, run_child, write, write_all, capture_limit, Outcome}
use msb_manager.Msb.Client.{Config, run_outcome}
use msb_manager.Server.Adapter.Commands.{told}
use msb_manager.Server.Safety.{Same, Booted, Ended, mounted}
use msb_manager.Manager.Machine.{Machine, machine_view, up, boot, halt}
use msb_manager.Manager.Machine.Laws.{same, boot_boots, boot_fails, boot_mounts, halt-Ended}
use msb_manager.Manager.Command.{silent, failed, replied, makes, ends, after_colon}
use msb_manager.Manager.Command.Parsing.{volume_value, before_colon-append}

pub err_neq_ok {ℓ} : {A : Type ℓ} {e : Error} {a : A} → ◌≢◌ {A = Result Error A} (err e) (ok a)
err_neq_ok h = cc h

pub replied-machine : (why : Text) (r : Result Error (Unit {0}) × Machine) → (replied why r).1 ≡ r.1
replied-machine why (ok a, w) = refl
replied-machine why (err e, w) = refl

pub halt_err : (n : Text) (w : Machine) (x : Error) → (halt n w).0 ≡ err x → (halt n w).1 ≡ w
unfolding halt
halt_err n w x h = elim (Bool-cases (up w n)) [
  | inl e ↦ absurd (err_neq_ok (sym (rw (e, halt) at h)))
  | inr e ↦ rw (e, halt) refl
]

module _ (c : Config) where
  -- what the client sees of a child
  abbrev pub seen : Child → Outcome
  seen ch = run_outcome (run_child c.max_capture_bytes ch)

  silent_failure : (seen silent).failure ≡ none
  unfolding run_outcome run_child write_all
  silent_failure = refl

  silent_error : told (seen silent) ≡ none
  unfolding run_outcome run_child write_all wrap_run_err
  silent_error = refl

  failed_failure : (why : Text) → ¬ ((seen (failed why)).failure ≡ none)
  unfolding run_outcome run_child write_all write
  failed_failure why h =
      elim (Bool-cases (ltb (capture_limit c.max_capture_bytes - 0) (length why))) [
        | inl e ↦ elim (Bool-cases (ltb 0 (capture_limit c.max_capture_bytes - 0))) [
          | inl k ↦ absurd (cc (rw (e, k, run_child) at h))
          | inr k ↦ absurd (cc (rw (e, k, run_child) at h))
        ]
        | inr e ↦ absurd (cc (rw (e, run_child) at h))
      ]

  -- what a reply does, by what the client sees of it
  pub replied_same :
      (why : Text) (r : Result Error (Unit {0}) × Machine) (w : Machine) (e : Error)
      → ((x : Error) → r.0 ≡ err x → Same machine_view w r.1)
      → (seen (replied why r).0).failure ≡ some e
      → Same machine_view w (replied why r).1
  replied_same why (ok a, w') w e keeps h = absurd (cc (sym silent_failure ∙ h))
  replied_same why (err x, w') w e keeps h = keeps x refl

  pub replied_error :
      (why : Text) (r : Result Error (Unit {0}) × Machine) (w : Machine) (e : Error)
      → ((x : Error) → r.0 ≡ err x → Same machine_view w r.1)
      → told (seen (replied why r).0) ≡ some e
      → Same machine_view w (replied why r).1
  replied_error why (ok a, w') w e keeps h = absurd (cc (sym silent_error ∙ h))
  replied_error why (err x, w') w e keeps h = keeps x refl

  pub replied_ok {ℓ} :
      (why : Text) (r : Result Error (Unit {0}) × Machine) (P : Machine → Type ℓ)
      → (r.0 ≡ ok tt → P r.1)
      → (seen (replied why r).0).failure ≡ none
      → P (replied why r).1
  replied_ok why (ok tt, w') P goes h = goes refl
  replied_ok why (err x, w') P goes h = absurd (failed_failure why h)

  pub ends-Ended : (name : Text) (w : Machine) → Ended machine_view name w (ends name w).1
  ends-Ended name w =
      subst (Ended machine_view name w) (sym (replied-machine _ (halt name w))) (halt-Ended name w)

  pub makes_fails :
      (name : Text) (v : Option Types.VolumeMount) (w : Machine) (e : Error)
      → (seen (makes name (volume_value v) w).0).failure ≡ some e
      → Same machine_view w (makes name (volume_value v) w).1
  makes_fails name none w e h =
      replied_same _ (boot name none w) w e (λ x. boot_fails name none w x) h
  makes_fails name (some v) w e h =
      elim (Bool-cases (contains_byte b':' (after_colon (v.name ++ (b':' ∷ v.mount))))) [
        | inl k ↦ rw k (same w)
        | inr k ↦ rw k (
            replied_same _ (boot name (some _) w) w e (λ x. boot_fails name (some _) w x)
              (rw k at h))
      ]

  pub makes_boots :
      (name : Text) (v : Option Types.VolumeMount) (w : Machine)
      → (seen (makes name (volume_value v) w).0).failure ≡ none
      → Booted machine_view name w (makes name (volume_value v) w).1
  makes_boots name none w h =
      replied_ok _ (boot name none w) (Booted machine_view name w) (boot_boots name none w) h
  makes_boots name (some v) w h =
      elim (Bool-cases (contains_byte b':' (after_colon (v.name ++ (b':' ∷ v.mount))))) [
        | inl k ↦ absurd (failed_failure _ (rw k at h))
        | inr k ↦ rw k (
            replied_ok _ (boot name (some _) w) (Booted machine_view name w)
              (boot_boots name (some _) w) (rw k at h))
      ]

  pub makes_mounts :
      (name : Text) (v : Option Types.VolumeMount) (w : Machine)
      → (seen (makes name (volume_value v) w).0).failure ≡ none
      → volume_names_of ((makes name (volume_value v) w).1.mounts name) ≡ mounted v
  makes_mounts name none w h =
      replied_ok _ (boot name none w) (λ w'. volume_names_of (w'.mounts name) ≡ [])
        (boot_mounts name none w) h
  makes_mounts name (some v) w h =
      elim (Bool-cases (contains_byte b':' (after_colon (v.name ++ (b':' ∷ v.mount))))) [
        | inl k ↦ absurd (failed_failure _ (rw k at h))
        | inr k ↦ rw k (
            replied_ok _ (boot name (some _) w)
              (λ w'. volume_names_of (w'.mounts name) ≡ v.name ∷ [])
              (λ b.
                boot_mounts name (some _) w b
                ∙ ap (λ n. n ∷ []) (before_colon-append v.name v.mount k))
              (rw k at h))
      ]
