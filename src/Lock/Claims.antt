-- ===== src/Lock/Claims.antt =====
-- internal/lock/volume.go: AcquireMany is all or nothing, and its rollback restores every holder.
use msb_manager.Prelude.{
  Text, Bool, true, false, ◌&&◌, none, some, List, [], Result, ok, err, lookup, text_eq_refl,
  text_eq_iff, sym, ap, ◌∙◌, if◌then◌else◌, ◌≡◌, ◌≢◌, refl, arith, inl, inr, ◌⊎◌, Option-cases,
  Option, Distinct,
}
use mathlib.Core.Path.{subst}
use msb_manager.Lock.{
  Held, Busy, other_holder, find_conflict, claim_all, acquire_many, release_volumes, has_name,
  claim_result,
}
use msb_manager.Lock.Laws.{
  lookup-claim_all, claim_all_newly, claim_all-Distinct, find_conflict-none, find_conflict-some,
  lookup-release_volumes, is_absent, owns,
}

-- what a successful AcquireMany has done: nobody else held a listed volume, every listed volume is
-- now the sandbox's, no other claim moved, and the list returned names the listed volumes that
-- were free
pub record IsClaimed (vs : List Text) (s : Text) (m : Held) (newly : List Text) (m' : Held)
    : Type 0 where
  pub was_free : (j : Text) → has_name j vs ≡ true → other_holder s (lookup j m) ≡ false
  pub claims : (j : Text) → lookup j m' ≡ (if has_name j vs then some s else lookup j m)
  pub fresh : (j : Text) → has_name j newly ≡ (has_name j vs && is_absent (lookup j m))

-- what a refused AcquireMany says: the volume it names is listed and another sandbox holds it
pub record IsBusy (vs : List Text) (s : Text) (m : Held) (b : Busy) : Type 0 where
  pub listed : has_name b.volume vs ≡ true
  pub held : lookup b.volume m ≡ some b.holder
  pub foreign : b.holder ≢ s

acquire_many-none :
    (vs : List Text) (s : Text) (m : Held)
    → find_conflict vs s m ≡ none
    → acquire_many vs s m ≡ claim_result (claim_all vs s m [])
unfolding acquire_many
acquire_many-none vs s m e = rw (e, acquire_many)

acquire_many-some :
    (vs : List Text) (s : Text) (m : Held) (b : Busy)
    → find_conflict vs s m ≡ some b
    → acquire_many vs s m ≡ (err b, m)
unfolding acquire_many
acquire_many-some vs s m b e = rw (e, acquire_many)

claimed_lem :
    (vs : List Text) (s : Text) (m : Held)
    → find_conflict vs s m ≡ none
    → IsClaimed vs s m (claim_all vs s m []).0 (claim_all vs s m []).1
claimed_lem vs s m e = record {
  was_free = λ j h. find_conflict-none vs s m j e h;
  claims = λ j. lookup-claim_all vs s m [] j;
  fresh = λ j. claim_all_newly vs s m [] j;
}

-- AcquireMany is all or nothing: it succeeds and has claimed every listed volume, or it is refused
-- because another sandbox holds the listed volume that the error names, and nothing has changed.
pub acquire_many_atomic :
    (vs : List Text) (s : Text) (m : Held)
    → ((newly : List Text) × ((acquire_many vs s m).0 ≡ ok newly)
        × IsClaimed vs s m newly (acquire_many vs s m).1)
      ⊎ ((b : Busy) × (acquire_many vs s m ≡ (err b, m)) × IsBusy vs s m b)
acquire_many_atomic vs s m = elim (Option-cases (find_conflict vs s m)) [
  | inl e ↦
      rw (acquire_many-none vs s m e) (inl ((claim_all vs s m []).0, refl, claimed_lem vs s m e))
  | inr (b, e) ↦ inr (b, acquire_many-some vs s m b e, busy b e)
]
  where
    busy : (b : Busy) → find_conflict vs s m ≡ some b → IsBusy vs s m b
    busy b e =
        let (x, y, z) = find_conflict-some vs s m b e in
        record { listed = x; held = y; foreign = z }

restored :
    {after now : Option Text} {new : Bool} (s : Text) (before : Option Text) (listed : Bool)
    → (listed ≡ true → other_holder s before ≡ false)
    → after ≡ (if new && owns s now then none else now)
    → now ≡ (if listed then some s else before)
    → new ≡ (listed && is_absent before)
    → after ≡ before
restored s none true w a n f = ground (arith, text_eq_refl s)
restored s none false w a n f = ground arith
restored s (some h) true w a n f = ground (arith, text_eq_iff h s, w refl)
restored s (some h) false w a n f = ground arith

ok-injective : {x y : List Text} → ◌≡◌ {A = Result Busy (List Text)} (ok x) (ok y) → x ≡ y
ok-injective h = cc

pub acquire_many-IsClaimed :
    (vs : List Text) (s : Text) (m : Held) (newly : List Text) (m' : Held)
    → acquire_many vs s m ≡ (ok newly, m')
    → IsClaimed vs s m newly m'
acquire_many-IsClaimed vs s m newly m' h = elim (acquire_many_atomic vs s m) [
  | inl (n, e, c) ↦
      subst (λ k. IsClaimed vs s m k m')
        (ok-injective (sym e ∙ ap (λ (r : Result Busy (List Text) × Held). r.0) h)) (rw h at c)
  | inr (b, e, x) ↦ absurd (
      cc (
        ap (λ (r : Result Busy (List Text) × Held). r.0) h,
        ap (λ (r : Result Busy (List Text) × Held). r.0) e,
      ))
]

-- AcquireMany gives a list of newly claimed volumes and a new map, or the busy volume and the old one
pub acquire_many_outcome :
    (vs : List Text) (s : Text) (m : Held)
    → ((newly : List Text) × ((acquire_many vs s m).0 ≡ ok newly)
        × (acquire_many vs s m ≡ (ok newly, (acquire_many vs s m).1)))
      ⊎ ((b : Busy) × ((acquire_many vs s m).0 ≡ err b) × ((acquire_many vs s m).1 ≡ m))
acquire_many_outcome vs s m = elim (Option-cases (find_conflict vs s m)) [
  | inl e ↦ rw (acquire_many-none vs s m e) (inl ((claim_all vs s m []).0, refl, refl))
  | inr (b, e) ↦ rw (acquire_many-some vs s m b e) (inr (b, refl, refl))
]

pub acquire_many-Distinct :
    (vs : List Text) (s : Text) (m : Held) → Distinct m → Distinct (acquire_many vs s m).1
acquire_many-Distinct vs s m d = elim (Option-cases (find_conflict vs s m)) [
  | inl e ↦ rw (acquire_many-none vs s m e) (claim_all-Distinct vs s m [] d)
  | inr (b, e) ↦ rw (acquire_many-some vs s m b e) d
]

-- A failed create or start that releases what AcquireMany newly claimed leaves every volume with
-- the holder it had before the request.
pub release_volumes-acquire_many :
    (vs : List Text) (s : Text) (m : Held) (newly : List Text) (m' : Held) (j : Text)
    → acquire_many vs s m ≡ (ok newly, m')
    → lookup j (release_volumes newly s m') ≡ lookup j m
release_volumes-acquire_many vs s m newly m' j h =
    let c : IsClaimed vs s m newly m' = acquire_many-IsClaimed vs s m newly m' h in
    restored s (lookup j m) (has_name j vs) (c.was_free j) (lookup-release_volumes newly s m' j)
      (c.claims j) (c.fresh j)
