-- ===== src/Lock/Contract.antt =====
-- internal/lock/volume.go: what the lock promises, as a state machine on who owns each volume, and
-- that the methods keep it. The contract does not know the map, nor the order of its entries.
use msb_manager.Prelude.{
  Text, true, false, ◌&&◌, Option, none, some, List, [], ◌∷◌, Result, ok, err, lookup, Map,
  Distinct, text_eq, if◌then◌else◌, inl, inr, Bool-cases, lookup-insert, ◌≡◌, ◌≢◌,
}
use msb_manager.Lock.{
  Held, Busy, other_holder, has_name, acquire, acquire_many, release, release_volumes, holder,
  reconcile,
}
use msb_manager.Lock.Laws.{
  is_absent, owns, other_holder-true, lookup-release, lookup-release_volumes, lookup-reconcile,
  release-Distinct, release_volumes-Distinct, reconcile-Distinct,
}
use msb_manager.Lock.Claims.{acquire_many_atomic, acquire_many-Distinct}
use msb_manager.Lock.Isolation.{acquire-Distinct}

-- who owns each volume
abbrev pub Owners : Type 0
Owners = Text → Option Text

abbrev pub owners : Held → Owners
owners held v = lookup v held

-- a call of a method; the state given to Reconcile is a Go map, which has each key once
pub data Call : Type 0 where
  acquiring : Text → Text → Call
  acquiring_many : List Text → Text → Call
  releasing : Text → Call
  releasing_volumes : List Text → Text → Call
  asking : Text → Call
  reconciling : (state : Map Text) → Distinct state → Call

-- what the caller sees of it
pub data Answer : Type 0 where
  done : Answer
  -- AcquireMany: the volumes that it newly claimed
  claimed : List Text → Answer
  busy : Busy → Answer
  told : Option Text → Answer

abbrev answer {ℓ} : {A : Type ℓ} → Result Busy A → Answer
answer (ok a) = done
answer (err b) = busy b

abbrev answer_many : Result Busy (List Text) → Answer
answer_many (ok newly) = claimed newly
answer_many (err b) = busy b

-- the method that a call names
unfoldable pub perform : Call → Held → Answer × Held
perform (acquiring v s) m = (answer (acquire v s m).0, (acquire v s m).1)
perform (acquiring_many vs s) m = (answer_many (acquire_many vs s m).0, (acquire_many vs s m).1)
perform (releasing s) m = (done, release s m)
perform (releasing_volumes vs s) m = (done, release_volumes vs s m)
perform (asking v) m = (told (holder v m), m)
perform (reconciling state d) m = (done, reconcile state m)

-- the listed volumes have become the sandbox's, and the others have kept their owners
abbrev pub Claimed : List Text → Text → Owners → Owners → Type 0
Claimed vs s o o' = (j : Text) → o' j ≡ (if has_name j vs then some s else o j)

-- the contract of one call: the answers that it may give, and the owners after it
pub data Allowed (o : Owners) : Call → Answer → Owners → Type 0 where
  claims :
      (vs newly : List Text) (s : Text) (o' : Owners)
      → ((j : Text) → has_name j vs ≡ true → other_holder s (o j) ≡ false)
      → Claimed vs s o o'
      → ((j : Text) → has_name j newly ≡ (has_name j vs && is_absent (o j)))
      → Allowed o (acquiring_many vs s) (claimed newly) o'
  refuses :
      (vs : List Text) (s : Text) (b : Busy)
      → has_name b.volume vs ≡ true
      → o b.volume ≡ some b.holder
      → b.holder ≢ s
      → Allowed o (acquiring_many vs s) (busy b) o
  claims_one :
      (v s : Text) (o' : Owners)
      → other_holder s (o v) ≡ false
      → ((j : Text) → o' j ≡ (if text_eq v j then some s else o j))
      → Allowed o (acquiring v s) done o'
  refuses_one :
      (v s h : Text)
      → o v ≡ some h
      → h ≢ s
      → Allowed o (acquiring v s) (busy (record { volume = v; holder = h })) o
  frees :
      (s : Text) (o' : Owners)
      → ((j : Text) → o' j ≡ (if owns s (o j) then none else o j))
      → Allowed o (releasing s) done o'
  frees_listed :
      (vs : List Text) (s : Text) (o' : Owners)
      → ((j : Text) → o' j ≡ (if has_name j vs && owns s (o j) then none else o j))
      → Allowed o (releasing_volumes vs s) done o'
  tells : (v : Text) → Allowed o (asking v) (told (o v)) o
  replaces :
      (state : Map Text) (d : Distinct state) (o' : Owners)
      → ((j : Text) → o' j ≡ lookup j state)
      → Allowed o (reconciling state d) done o'

-- calls one after another, with their answers, that the contract allows
pub data Behaves : Owners → List (Call × Answer) → Owners → Type 0 where
  here : {o : Owners} → Behaves o [] o
  call :
      {c : Call} {a : Answer} {o o' o'' : Owners} {trace : List (Call × Answer)}
      → Allowed o c a o'
      → Behaves o' trace o''
      → Behaves o ((c, a) ∷ trace) o''

-- the calls on the lock, one after another
unfoldable pub perform_all : List Call → Held → List (Call × Answer) × Held
perform_all [] m = ([], m)
perform_all (c ∷ cs) m =
    let (trace, m') = perform_all cs (perform c m).1 in ((c, (perform c m).0) ∷ trace, m')

perform-Distinct : (c : Call) (m : Held) → Distinct m → Distinct (perform c m).1
unfolding perform
perform-Distinct (acquiring v s) m d = acquire-Distinct v s m d
perform-Distinct (acquiring_many vs s) m d = acquire_many-Distinct vs s m d
perform-Distinct (releasing s) m d = release-Distinct s m d
perform-Distinct (releasing_volumes vs s) m d = release_volumes-Distinct vs s m d
perform-Distinct (asking v) m d = d
perform-Distinct (reconciling state e) m d = reconcile-Distinct state m

perform-Allowed :
    (c : Call) (m : Held)
    → Distinct m
    → Allowed (owners m) c (perform c m).0 (owners (perform c m).1)
unfolding perform holder acquire
perform-Allowed (acquiring v s) m d = elim (Bool-cases (other_holder s (lookup v m))) [
  | inl b ↦
      let (is, foreign) = other_holder-true s (lookup v m) b in rw b (refuses_one v s _ is foreign)
  | inr f ↦ rw f (claims_one v s _ f (λ j. lookup-insert v j s m))
]
perform-Allowed (acquiring_many vs s) m d = elim (acquire_many_atomic vs s m) [
  | inl (newly, e, c) ↦ rw e (claims vs newly s _ c.was_free c.claims c.fresh)
  | inr (b, e, x) ↦ rw e (refuses vs s b x.listed x.held x.foreign)
]
perform-Allowed (releasing s) m d = frees s _ (λ j. lookup-release s m j d)
perform-Allowed (releasing_volumes vs s) m d = frees_listed vs s _ (lookup-release_volumes vs s m)
perform-Allowed (asking v) m d = tells v
perform-Allowed (reconciling state e) m d = replaces state e _ (λ j. lookup-reconcile state m j e)

-- Whatever calls are made of the lock's methods, in whatever order, their answers and the owners
-- after each of them are those that the contract allows, when the map has each volume once.
pub perform_all-Behaves :
    (cs : List Call) (m : Held)
    → Distinct m
    → Behaves (owners m) (perform_all cs m).0 (owners (perform_all cs m).1)
unfolding perform_all
perform_all-Behaves [] m d = here
perform_all-Behaves (c ∷ cs) m d =
    call (perform-Allowed c m d) (perform_all-Behaves cs (perform c m).1 (perform-Distinct c m d))
