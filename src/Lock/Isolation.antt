-- ===== src/Lock/Isolation.antt =====
-- internal/lock/volume.go: no method run for one sandbox touches a claim of another.
use msb_manager.Prelude.{
  Text, Bool, true, false, none, some, List, lookup, text_eq, text_eq_iff, sym, ◌∙◌, ◌&&◌, and-true,
  ◌≡◌, ◌≢◌, refl, arith, inl, inr, Distinct, if◌then◌else◌, Option, insert-Distinct, Bool-cases,
}
use msb_manager.Lock.{Held, acquire, acquire_many, release, release_volumes, has_name, other_holder}
use msb_manager.Lock.Laws.{
  acquire_lem, lookup-release, lookup-release_volumes, release-Distinct, release_volumes-Distinct,
  owns,
}
use msb_manager.Lock.Claims.{acquire_many_atomic, acquire_many-Distinct}

-- one method call made for the sandbox `s`
pub data Call (s : Text) : Held → Held → Type 0 where
  acquires : (v : Text) (m : Held) → Call s m (acquire v s m).1
  acquires_many : (vs : List Text) (m : Held) → Call s m (acquire_many vs s m).1
  releases : (m : Held) → Call s m (release s m)
  releases_volumes : (vs : List Text) (m : Held) → Call s m (release_volumes vs s m)

-- calls made for any sandboxes but `h`, in any order
pub data Others (h : Text) (m : Held) : Held → Type 0 where
  here : Others h m m
  next : {n n' : Held} (s : Text) → s ≢ h → Others h m n → Call s n n' → Others h m n'

pub acquire-Distinct : (v s : Text) (m : Held) → Distinct m → Distinct (acquire v s m).1
unfolding acquire
acquire-Distinct v s m d = elim (Bool-cases (other_holder s (lookup v m))) [
  | inl e ↦ rw e d
  | inr e ↦ rw e (insert-Distinct v s m d)
]

-- Every call keeps one holder to a volume.
pub Call-Distinct : {s : Text} {m n : Held} → Call s m n → Distinct m → Distinct n
Call-Distinct {s} (acquires v m) d = acquire-Distinct v s m d
Call-Distinct {s} (acquires_many vs m) d = acquire_many-Distinct vs s m d
Call-Distinct {s} (releases m) d = release-Distinct s m d
Call-Distinct {s} (releases_volumes vs m) d = release_volumes-Distinct vs s m d

same_holder : (h s : Text) → other_holder s (some h) ≡ false → h ≡ s
same_holder h s e = (text_eq_iff h s).0 (ground arith)

pub kept_by_if :
    {now before : Option Text} (s h : Text) (b : Bool)
    → s ≢ h
    → before ≡ some h
    → now ≡ (if b then none else before)
    → (b ≡ true → owns s before ≡ true)
    → now ≡ some h
kept_by_if s h true ne e n o = absurd (ne (sym ((text_eq_iff h s).0 (rw e at (o refl)))))
kept_by_if s h false ne e n o = n ∙ e

pub kept_by_claim :
    {now before : Option Text} (s h : Text) (b : Bool)
    → s ≢ h
    → before ≡ some h
    → now ≡ (if b then some s else before)
    → (b ≡ true → other_holder s before ≡ false)
    → now ≡ some h
kept_by_claim s h true ne e n o = absurd (ne (sym (same_holder h s (rw e at (o refl)))))
kept_by_claim s h false ne e n o = n ∙ e

-- a call for one sandbox leaves the claims of every other
Call-keeps :
    {s : Text} {m n : Held} (h v : Text)
    → s ≢ h
    → Call s m n
    → Distinct m
    → lookup v m ≡ some h
    → lookup v n ≡ some h
Call-keeps {s} h v ne (acquires w m) d e = elim (acquire_lem w s m v) [
  | inl (r, free, l) ↦
      kept_by_claim s h (text_eq w v) ne e l (λ b. rw (← (text_eq_iff w v).0 b) free)
  | inr (x, r, f, same) ↦ rw same e
]
Call-keeps {s} h v ne (acquires_many vs m) d e = elim (acquire_many_atomic vs s m) [
  | inl (n, r, c) ↦ kept_by_claim s h (has_name v vs) ne e (c.claims v) (c.was_free v)
  | inr (b, r, c) ↦ rw r e
]
Call-keeps {s} h v ne (releases m) d e =
    kept_by_if s h (owns s (lookup v m)) ne e (lookup-release s m v d) (λ o. o)
Call-keeps {s} h v ne (releases_volumes vs m) d e =
    kept_by_if s h (has_name v vs && owns s (lookup v m)) ne e (lookup-release_volumes vs s m v)
      (λ o. (and-true (has_name v vs) (owns s (lookup v m)) o).1)

persists :
    (h v : Text) {m n : Held}
    → Distinct m
    → lookup v m ≡ some h
    → Others h m n
    → (lookup v n ≡ some h) × Distinct n
persists h v d e here = (e, d)
persists h v d e (next s ne o c) =
    let (e', d') = persists h v d e o in (Call-keeps h v ne c d' e', Call-Distinct c d')

-- A volume claimed by a sandbox stays its own through any calls, in any order, that other
-- sandboxes' requests make: only calls for the sandbox itself, or Reconcile, can take it away.
pub claim_persists :
    (h v : Text) {m n : Held}
    → Distinct m
    → lookup v m ≡ some h
    → Others h m n
    → lookup v n ≡ some h
claim_persists h v d e o = (persists h v d e o).0
