-- ===== src/Config/Bounds.antt =====
-- internal/config/config.go: what a configuration that loads promises, and when one loads.
use msb_manager.Prelude.{
  ℕ, ◌≤◌, ◌<◌, Text, codes, false, Option, Result, ok, Result-cases, is_empty, ℤ, pos, negsuc, ltb,
  ◌≡◌, refl, ◌∙◌, sym, ap, arith, Bool-cases, Option-cases, inl, inr,
}
use mathlib.Core.Path.{subst}
use msb_manager.Config.{
  Config, ConfigError, load, parse_timeout, default_cmd_timeout, max_cmd_timeout, bounded,
}

-- writeTimeout of cmd/msb-manager/main.go
abbrev pub write_timeout : ℕ
write_timeout = 120000000000

-- the timeout is within its bounds
pub record IsBounded (t : ℤ) : Type 0 where
  pub nanoseconds : ℕ
  pub is : t ≡ pos nanoseconds
  pub positive : 0 < nanoseconds
  pub capped : nanoseconds ≤ 90000000000

bounded_lem : (d t : ℤ) → bounded d ≡ ok t → IsBounded t
bounded_lem (pos n) t h = elim (Bool-cases (ltb 0 n)) [
  | inr e ↦ absurd (cc (rw e at h))
  | inl e ↦ elim (Bool-cases (ltb max_cmd_timeout n)) [
    | inl f ↦ absurd (cc (rw (e, f) at h))
    | inr f ↦ record {
      nanoseconds = n;
      is = sym (cc (rw (e, f) at h));
      positive = ground arith;
      capped = ground arith;
    }
  ]
]
bounded_lem (negsuc n) t h = absurd (cc h)

default-IsBounded : IsBounded default_cmd_timeout
default-IsBounded = record {
  nanoseconds = 60000000000;
  is = refl;
  positive = ground arith;
  capped = ground arith;
}

parse_timeout-IsBounded :
    (p : Text → Option ℤ) (v : Text) (t : ℤ) → parse_timeout p v ≡ ok t → IsBounded t
unfolding parse_timeout
parse_timeout-IsBounded p v t h = elim (Bool-cases (is_empty v)) [
  | inl e ↦ subst IsBounded (ok_inj (rw e at h)) default-IsBounded
  | inr e ↦ elim (Option-cases (p v)) [
    | inl n ↦ absurd (cc (rw (e, n) at h))
    | inr (d, n) ↦ bounded_lem d t (rw (e, n) at h)
  ]
]
  where
    ok_inj : {x y : ℤ} → ◌≡◌ {A = Result ConfigError ℤ} (ok x) (ok y) → x ≡ y
    ok_inj h = cc h

bounded_below : (n : ℕ) → n ≤ 90000000000 → n < write_timeout
bounded_below n h = omega arith

-- A configuration that loads has the token of the environment, which is not empty, and a positive
-- timeout that is below the time the HTTP server gives a response.
pub load_lem :
    (p : Text → Option ℤ) (getenv : Text → Text) (c : Config)
    → load p getenv ≡ ok c
    → (is_empty c.token ≡ false)
      × (c.token ≡ getenv (codes "MSB_MANAGER_TOKEN"))
      × ((n : ℕ) × (c.cmd_timeout ≡ pos n) × (0 < n) × (n < write_timeout))
unfolding load
load_lem p getenv c h = elim (Bool-cases (is_empty (getenv (codes "MSB_MANAGER_TOKEN")))) [
  | inl e ↦ absurd (cc (rw e at h))
  | inr e ↦ elim (Result-cases (parse_timeout p (getenv (codes "MSB_MANAGER_CMD_TIMEOUT")))) [
    | inr (x, r) ↦ absurd (cc (rw (e, r) at h))
    | inl (t, r) ↦
        let q = loaded_inj (rw (e, r) at h) in
        let b = parse_timeout-IsBounded p (getenv (codes "MSB_MANAGER_CMD_TIMEOUT")) t r in
        (
          ap (λ (x : Config). is_empty x.token) (sym q) ∙ e,
          ap (λ (x : Config). x.token) (sym q),
          (b.nanoseconds, ap (λ (x : Config). x.cmd_timeout) (sym q) ∙ b.is, b.positive, below b),
        )
  ]
]
  where
    loaded_inj : {x y : Config} → ◌≡◌ {A = Result ConfigError Config} (ok x) (ok y) → x ≡ y
    loaded_inj h = cc h

    below : {t : ℤ} (b : IsBounded t) → b.nanoseconds < write_timeout
    below b = bounded_below b.nanoseconds b.capped
