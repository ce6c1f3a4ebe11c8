-- ===== src/Ctl/Interpolate/Templates.antt =====
-- cmd/msbctl/interpolate.go: what a scalar that is built of literals and references becomes.
use msb_manager.Prelude.{
  ℕ, ◌+◌, Text, codes, Bool, true, false, ◌&&◌, Option, none, some, List, [], ◌∷◌, ◌++◌, length,
  length-append, has_prefix, all, All, Lacks, and-true, ◌≡◌, ◌≢◌, refl, ◌∙◌, ap, arith, ==_iff,
  if◌then◌else◌,
}
use mathlib.Core.List.{append_assoc}
use msb_manager.Msb.Validate.{is_env_first, is_env_byte}
use msb_manager.Ctl.Interpolate.{span_name, closing, placeholder_at, filled, substitute, Missing}

-- a name by placeholderRE
abbrev pub is_name : Text → Bool
is_name [] = false
is_name (c ∷ s) = is_env_first c && all is_env_byte (c ∷ s)

pub data Piece : Type 0 where
  literal : Text → Piece
  reference : Text → Piece

-- how a piece is written
abbrev pub written : Piece → Text
written (literal s) = s
written (reference name) = codes "${" ++ (name ++ codes "}")

pub render : List Piece → Text
render [] = []
render (p ∷ ps) = written p ++ render ps

-- literals without a dollar sign, and names that have values
abbrev pub IsPiece : (Text → Option Text) → Piece → Type 0
IsPiece vars (literal s) = Lacks b'$' s
IsPiece vars (reference name) = (is_name name ≡ true) × ((v : Text) × (vars name ≡ some v))

-- what a piece stands for
abbrev or_nothing : Option Text → Text
or_nothing none = []
or_nothing (some v) = v

abbrev pub meaning : (Text → Option Text) → Piece → Text
meaning vars (literal s) = s
meaning vars (reference name) = or_nothing (vars name)

pub fill : (Text → Option Text) → List Piece → Text
fill vars [] = []
fill vars (p ∷ ps) = meaning vars p ++ fill vars ps

span_name-append :
    (name rest : Text)
    → all is_env_byte name ≡ true
    → span_name (name ++ b'}' ∷ rest) ≡ (name, b'}' ∷ rest)
unfolding span_name
span_name-append [] rest h = refl
span_name-append (c ∷ name) rest h =
    let (a, b) = and-true (is_env_byte c) (all is_env_byte name) h in
    rw (a, span_name-append name rest b) refl

-- bytes that are passed over
substitute-skip :
    (vars : Text → Option Text) (s rest : Text) (missing : Missing)
    → substitute vars (length s) (s ++ rest) missing ≡ substitute vars 0 rest missing
unfolding substitute
substitute-skip vars [] rest missing = refl
substitute-skip vars (c ∷ s) rest missing = substitute-skip vars s rest missing

no_dollar : (c : ℕ) (s : Text) → c ≢ b'$' → placeholder_at (c ∷ s) ≡ none
unfolding placeholder_at has_prefix
no_dollar c s ne = ground (arith, ==_iff c 36)

-- a byte that is no dollar sign stands for itself
substitute-literal :
    (vars : Text → Option Text) (s rest : Text) (missing : Missing)
    → Lacks b'$' s
    → substitute vars 0 (s ++ rest) missing
      ≡ (s ++ (substitute vars 0 rest missing).0, (substitute vars 0 rest missing).1)
unfolding substitute
substitute-literal vars [] rest missing a = refl
substitute-literal vars (c ∷ s) rest missing a =
    rw (no_dollar c (s ++ rest) a.0, substitute, substitute-literal vars s rest missing a.1) refl

closed_name :
    (name rest : Text) → is_name name ≡ true → closing (span_name (name ++ b'}' ∷ rest)) ≡ some name
closed_name [] rest h = absurd (cc h)
closed_name (c ∷ name) rest h =
    let (a, b) = and-true (is_env_first c) (all is_env_byte (c ∷ name)) h in
    rw (span_name-append (c ∷ name) rest b, a) (closed_at c name rest)
  where
    closed_at :
        (c : ℕ) (name rest : Text)
        → (if true && has_prefix (b'}' ∷ rest) (codes "}") then some (c ∷ name) else none)
          ≡ some (c ∷ name)
    closed_at c name rest = unfold has_prefix in refl

-- a reference is found where it stands
placeholder_at-reference :
    (name rest : Text)
    → is_name name ≡ true
    → placeholder_at (b'$' ∷ b'{' ∷ (name ++ b'}' ∷ rest)) ≡ some name
unfolding placeholder_at has_prefix
placeholder_at-reference name rest h = closed_name name rest h

length-braces : (name : Text) → length (b'{' ∷ (name ++ codes "}")) ≡ length name + 2
length-braces name = omega (arith, length-append name (codes "}"))

after_reference :
    (vars : Text → Option Text) (name rest : Text) (missing : Missing)
    → substitute vars (length name + 2) (b'{' ∷ (name ++ b'}' ∷ rest)) missing
      ≡ substitute vars 0 rest missing
after_reference vars name rest missing =
    rw (← length-braces name, ← append_assoc name (codes "}") rest)
      (substitute-skip vars (b'{' ∷ (name ++ codes "}")) rest missing)

substitute-reference :
    (vars : Text → Option Text) (name v rest : Text) (missing : Missing)
    → is_name name ≡ true
    → vars name ≡ some v
    → substitute vars 0 (b'$' ∷ b'{' ∷ (name ++ b'}' ∷ rest)) missing
      ≡ (v ++ (substitute vars 0 rest missing).0, (substitute vars 0 rest missing).1)
unfolding substitute filled
substitute-reference vars name v rest missing h k =
    rw
      (
        placeholder_at-reference name rest h,
        substitute,
        k,
        filled,
        after_reference vars name rest missing,
      )
      refl

written-append :
    (name rest : Text) → written (reference name) ++ rest ≡ b'$' ∷ b'{' ∷ (name ++ b'}' ∷ rest)
written-append name rest = ap (λ t. b'$' ∷ b'{' ∷ t) (append_assoc name (codes "}") rest)

substitute-piece :
    (vars : Text → Option Text) (p : Piece) (rest : Text) (missing : Missing)
    → IsPiece vars p
    → substitute vars 0 (written p ++ rest) missing
      ≡ (meaning vars p ++ (substitute vars 0 rest missing).0, (substitute vars 0 rest missing).1)
substitute-piece vars (literal s) rest missing a = substitute-literal vars s rest missing a
substitute-piece vars (reference name) rest missing (n, (v, k)) =
    rw (written-append name rest, k) (substitute-reference vars name v rest missing n k)

-- A scalar written as literals without a dollar sign and references to names that have values becomes
-- the literals and the values, in their order: a value is taken as it is, also where it looks like a
-- reference itself, and no name is missing.
pub substitute-render :
    (vars : Text → Option Text) (ps : List Piece) (missing : Missing)
    → All (IsPiece vars) ps
    → substitute vars 0 (render ps) missing ≡ (fill vars ps, missing)
unfolding render fill
substitute-render vars [] missing a = unfold substitute in refl
substitute-render vars (p ∷ ps) missing a =
    substitute-piece vars p (render ps) missing a.0
    ∙ ap (λ (r : Text × Missing). (meaning vars p ++ r.0, r.1))
        (substitute-render vars ps missing a.1)
