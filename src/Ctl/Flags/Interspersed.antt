-- ===== src/Ctl/Flags/Interspersed.antt =====
-- cmd/msbctl/commands.go, parseFlags: flags and positional arguments in any order, and the end of its
-- loop.
use msb_manager.Prelude.{
  ℕ, zero, suc, ◌≤◌, ◌<◌, Text, none, some, List, [], ◌∷◌, ◌++◌, append_assoc, append-nil, length,
  lookup, insert, lookup-insert, Result, ok, err, Bool-cases, inl, inr, ==_iff, text_eq, All, Lacks,
  ◌>>=◌, ◌≡◌, ◌≢◌, refl, ap, ◌∙◌, arith,
}
use msb_manager.Ctl.Pairs.{split_key_value}
use msb_manager.Ctl.Flags.{
  text, FlagSet, FlagError, Token, positional, terminator, malformed, Parsed, on_last, on_next,
  undefined, sets, wants, classify, named, set_flag, set_value, parse, parse_loop, parse_flags,
}

-- an argument, or a flag with its value in the next argument
pub data Arg : Type 0 where
  word : Text → Arg
  option : Text → Text → Arg

abbrev pub written : List Arg → List Text
written [] = []
written (word w ∷ args) = w ∷ written args
written (option name v ∷ args) = (b'-' ∷ b'-' ∷ name) ∷ v ∷ written args

abbrev pub words : List Arg → List Text
words [] = []
words (word w ∷ args) = w ∷ words args
words (option name v ∷ args) = words args

-- the flags in the order in which they are given: the last one wins
abbrev pub assigned : List Arg → FlagSet → FlagSet
assigned [] fs = fs
assigned (word w ∷ args) fs = assigned args fs
assigned (option name v ∷ args) fs = assigned args (insert name (text v) fs)

-- no dash at the head, but for a dash alone
abbrev pub IsWord : Text → Type 0
IsWord [] = Unit
IsWord (c ∷ []) = Unit
IsWord (c ∷ d ∷ s) = c ≢ b'-'

abbrev pub IsFlagName : Text → Type 0
IsFlagName [] = ⊥
IsFlagName (c ∷ s) = (c ≢ b'-') × Lacks b'=' (c ∷ s)

-- a flag of fs.String
abbrev pub IsText : FlagSet → Text → Type 0
IsText fs name = (old : Text) × (lookup name fs ≡ some (text old))

abbrev pub IsArg : FlagSet → Arg → Type 0
IsArg fs (word w) = IsWord w
IsArg fs (option name v) = IsFlagName name × IsText fs name

classify-word : (fs : FlagSet) (w : Text) → IsWord w → classify fs w ≡ positional
unfolding classify
classify-word fs [] h = refl
classify-word fs (c ∷ []) h = refl
classify-word fs (c ∷ d ∷ s) h = ground (arith, ==_iff c b'-')

split-none : (s : Text) → Lacks b'=' s → split_key_value s ≡ none
unfolding split_key_value
split-none [] h = refl
split-none (c ∷ s) h = rw (split-none s h.1) (ground (arith, ==_iff c b'='))

classify-option :
    (fs : FlagSet) (name : Text)
    → IsFlagName name
    → IsText fs name
    → classify fs (b'-' ∷ b'-' ∷ name) ≡ wants name
unfolding classify named
classify-option fs [] h t = absurd h
classify-option fs (c ∷ s) h t =
    rw (split-none (c ∷ s) h.1, t.1) (ground (arith, ==_iff c b'-', ==_iff c b'='))

IsText-insert : (fs : FlagSet) (name n v : Text) → IsText fs n → IsText (insert name (text v) fs) n
IsText-insert fs name n v (old, e) = elim (Bool-cases (text_eq name n)) [
  | inl q ↦ (v, rw (lookup-insert name n (text v) fs, q) refl)
  | inr q ↦ (old, rw (lookup-insert name n (text v) fs, q) e)
]

IsArg-insert :
    (fs : FlagSet) (name v : Text) (args : List Arg)
    → All (IsArg fs) args
    → All (IsArg (insert name (text v) fs)) args
IsArg-insert fs name v [] h = tt
IsArg-insert fs name v (word w ∷ args) h = (h.0, IsArg-insert fs name v args h.1)
IsArg-insert fs name v (option n x ∷ args) h =
    ((h.0.0, IsText-insert fs name n v h.0.1), IsArg-insert fs name v args h.1)

set_flag-text :
    (fs : FlagSet) (name v : Text)
    → IsText fs name
    → set_flag name v fs ≡ ok (insert name (text v) fs)
unfolding set_flag set_value
set_flag-text fs name v (old, e) = rw (e, set_flag) refl

parse-word :
    (fs : FlagSet) (w : Text) (args : List Text)
    → IsWord w
    → parse fs (w ∷ args) ≡ ok (fs, w ∷ args)
unfolding parse
parse-word fs w [] h = rw (classify-word fs w h, parse) refl
parse-word fs w (a ∷ args) h = rw (classify-word fs w h, parse) refl

parse-option :
    (fs : FlagSet) (name v : Text) (args : List Text)
    → IsFlagName name
    → IsText fs name
    → parse fs ((b'-' ∷ b'-' ∷ name) ∷ v ∷ args) ≡ parse (insert name (text v) fs) args
unfolding parse
parse-option fs name v args h t =
    rw (classify-option fs name h t, parse) (rw (set_flag-text fs name v t) refl)

parse_loop-parse :
    (n : ℕ) (fs fs' : FlagSet) (args args' before : List Text)
    → parse fs args ≡ parse fs' args'
    → parse_loop (suc n) fs args before ≡ parse_loop (suc n) fs' args' before
unfolding parse_loop
parse_loop-parse n fs fs' args args' before h = rw (h, parse_loop) refl

parse_loop-word :
    (n : ℕ) (fs : FlagSet) (w : Text) (args before : List Text)
    → IsWord w
    → parse_loop (suc n) fs (w ∷ args) before ≡ parse_loop n fs args (before ++ w ∷ [])
unfolding parse_loop
parse_loop-word n fs w args before h = rw (parse-word fs w args h, parse_loop) refl

parse_loop-written :
    (n : ℕ) (fs : FlagSet) (args : List Arg) (before : List Text)
    → length (words args) < n
    → All (IsArg fs) args
    → parse_loop n fs (written args) before ≡ some (ok (assigned args fs, before ++ words args))
parse_loop-written zero fs args before lt h = absurd (omega arith)
parse_loop-written (suc n) fs [] before lt h =
    unfold parse_loop parse in rw (append-nil before) refl
parse_loop-written (suc n) fs (word w ∷ args) before lt h =
    parse_loop-word n fs w (written args) before h.0
    ∙ parse_loop-written n fs args (before ++ w ∷ []) (omega arith) h.1
    ∙ ap (λ t. some (ok (assigned args fs, t))) (append_assoc before (w ∷ []) (words args))
parse_loop-written (suc n) fs (option name v ∷ args) before lt h =
    parse_loop-parse n fs (insert name (text v) fs) _ (written args) before
      (parse-option fs name v (written args) h.0.0 h.0.1)
    ∙ parse_loop-written (suc n) (insert name (text v) fs) args before lt
        (IsArg-insert fs name v args h.1)

words-length : (args : List Arg) → length (words args) ≤ length (written args)
words-length [] = omega arith
words-length (word w ∷ args) = omega (arith, words-length args)
words-length (option name v ∷ args) = omega (arith, words-length args)

-- Positional arguments and text flags may be mixed in any order: the positional ones are returned in
-- theirs, and a flag that is given twice has its last value.
pub parse_flags-written :
    (fs : FlagSet) (args : List Arg)
    → All (IsArg fs) args
    → parse_flags fs (written args) ≡ some (ok (assigned args fs, words args))
unfolding parse_flags
parse_flags-written fs args h =
    parse_loop-written (suc (length (written args))) fs args [] (omega (arith, words-length args)) h

-- what is left is no longer than what there was
abbrev Shrinks : ℕ → Parsed → Type 0
Shrinks n (ok (fs, rest)) = length rest ≤ n
Shrinks n (err e) = Unit

set-Shrinks :
    (r : Result FlagError FlagSet) (k : FlagSet → Parsed) (n : ℕ)
    → ((fs : FlagSet) → Shrinks n (k fs))
    → Shrinks n (r >>= k)
set-Shrinks (ok fs) k n h = h fs
set-Shrinks (err e) k n h = tt

Shrinks-le : (r : Parsed) (m n : ℕ) → m ≤ n → Shrinks m r → Shrinks n r
Shrinks-le (ok (fs, rest)) m n le h = omega arith
Shrinks-le (err e) m n le h = tt

on_last-Shrinks : (fs : FlagSet) (s : Text) (t : Token) → Shrinks 1 (on_last fs s t)
on_last-Shrinks fs s positional = omega arith
on_last-Shrinks fs s terminator = omega arith
on_last-Shrinks fs s malformed = tt
on_last-Shrinks fs s (undefined name) = tt
on_last-Shrinks fs s (sets name v) =
    set-Shrinks (set_flag name v fs) (λ fs'. ok (fs', [])) 1 (λ fs'. omega arith)
on_last-Shrinks fs s (wants name) = tt

on_next-Shrinks :
    (fs : FlagSet) (s v : Text) (args : List Text) (to_come taken : FlagSet → Parsed) (t : Token)
    → ((fs' : FlagSet) → Shrinks (suc (length args)) (to_come fs'))
    → ((fs' : FlagSet) → Shrinks (length args) (taken fs'))
    → Shrinks (suc (suc (length args))) (on_next fs s v args to_come taken t)
on_next-Shrinks fs s v args to_come taken positional h k = omega arith
on_next-Shrinks fs s v args to_come taken terminator h k = omega arith
on_next-Shrinks fs s v args to_come taken malformed h k = tt
on_next-Shrinks fs s v args to_come taken (undefined name) h k = tt
on_next-Shrinks fs s v args to_come taken (sets name w) h k =
    set-Shrinks (set_flag name w fs) to_come (suc (suc (length args)))
      (λ fs'. Shrinks-le (to_come fs') (suc (length args)) _ (omega arith) (h fs'))
on_next-Shrinks fs s v args to_come taken (wants name) h k =
    set-Shrinks (set_flag name v fs) taken (suc (suc (length args)))
      (λ fs'. Shrinks-le (taken fs') (length args) _ (omega arith) (k fs'))

-- FlagSet.Parse leaves a part of the arguments
parse-Shrinks : (fs : FlagSet) (args : List Text) → Shrinks (length args) (parse fs args)
unfolding parse
parse-Shrinks fs [] = omega arith
parse-Shrinks fs (s ∷ []) = on_last-Shrinks fs s (classify fs s)
parse-Shrinks fs (s ∷ v ∷ args) =
    on_next-Shrinks fs s v args (λ fs'. parse fs' (v ∷ args)) (λ fs'. parse fs' args)
      (classify fs s) (λ fs'. parse-Shrinks fs' (v ∷ args)) (λ fs'. parse-Shrinks fs' args)

parse_loop-ends :
    (n : ℕ) (fs : FlagSet) (args before : List Text)
    → length args < n
    → (r : Parsed) × (parse_loop n fs args before ≡ some r)
unfolding parse_loop
parse_loop-ends zero fs args before lt = absurd (omega arith)
parse_loop-ends (suc n) fs args before lt =
    rest (parse_loop-ends n) (parse fs args) refl (parse-Shrinks fs args)
  where
    rest :
        ((fs' : FlagSet) (xs ys : List Text)
          → length xs < n
          → (r : Parsed) × (parse_loop n fs' xs ys ≡ some r))
        → (p : Parsed) → parse fs args ≡ p
        → Shrinks (length args) p
        → (r : Parsed) × (parse_loop (suc n) fs args before ≡ some r)
    rest ih (err e) q h = (err e, rw (q, parse_loop) refl)
    rest ih (ok (fs', [])) q h = (ok (fs', before), rw (q, parse_loop) refl)
    rest ih (ok (fs', x ∷ xs)) q h = rw (q, parse_loop) (ih fs' xs (before ++ x ∷ []) (omega arith))

-- The loop of parseFlags ends, whatever the flags and the arguments: with the flags and the
-- positional arguments, or with an error of the package flag.
pub parse_flags-ends :
    (fs : FlagSet) (args : List Text) → (r : Parsed) × (parse_flags fs args ≡ some r)
unfolding parse_flags
parse_flags-ends fs args = parse_loop-ends (suc (length args)) fs args [] (omega arith)
