-- ===== src/Ctl/Interpolate/Shapes.antt =====
-- cmd/msbctl/interpolate.go: filling in leaves the structure of the document as it is.
use msb_manager.Prelude.{
  Text, codes, true, false, Option, Bool-cases, inl, inr, ◌≡◌, refl, ap, [], ◌∷◌, Result, ok, err,
  Result-cases, is_empty, trim_space,
}
use msb_manager.Ctl.Interpolate.Expansion.{Expands, substitute_none, substitute-Expands}
use msb_manager.Ctl.Interpolate.{
  Kind, document, sequence, mapping, scalar, alias, Style, double_quoted, Node, Nodes, node,
  none_left, more, Missing, has_placeholder, rewrite_head, walk, walk_all, interpolate, if_complete,
  encoded,
}

mutual
  -- each node of the second document is the one of the first, which is no scalar with a reference;
  -- or a scalar with a reference that is a double-quoted string now, with a value in the place of each
  -- reference
  pub data Filled (vars : Text → Option Text) : Node → Node → Type 0 where
    kept :
        (k : Kind) (tag : Text) (style : Style) (value : Text) {ns ns' : Nodes}
        → (k ≡ scalar → has_placeholder value ≡ false)
        → AllFilled vars ns ns'
        → Filled vars (node k tag style value ns) (node k tag style value ns')
    pinned :
        (tag value value' : Text) (style : Style) {ns ns' : Nodes}
        → has_placeholder value ≡ true
        → Expands vars value value'
        → AllFilled vars ns ns'
        → Filled vars
            (node scalar tag style value ns)
            (node scalar (codes "!!str") double_quoted value' ns')

  pub data AllFilled (vars : Text → Option Text) : Nodes → Nodes → Type 0 where
    end_filled : AllFilled vars none_left none_left
    more_filled :
        {n n' : Node} {ns ns' : Nodes}
        → Filled vars n n'
        → AllFilled vars ns ns'
        → AllFilled vars (more n ns) (more n' ns')

-- the node itself
head-Filled :
    (vars : Text → Option Text) (k : Kind) (tag : Text) (style : Style) (value : Text)
    (missing : Missing) (ns ns' : Nodes)
    → (rewrite_head vars k tag style value missing).1 ≡ []
    → AllFilled vars ns ns'
    → Filled vars (node k tag style value ns) (
        node k
          (rewrite_head vars k tag style value missing).0.0
          (rewrite_head vars k tag style value missing).0.1.0
          (rewrite_head vars k tag style value missing).0.1.1
          ns')
unfolding rewrite_head
head-Filled vars document tag style value missing ns ns' h a =
    kept document tag style value (λ e. absurd (cc e)) a
head-Filled vars sequence tag style value missing ns ns' h a =
    kept sequence tag style value (λ e. absurd (cc e)) a
head-Filled vars mapping tag style value missing ns ns' h a =
    kept mapping tag style value (λ e. absurd (cc e)) a
head-Filled vars alias tag style value missing ns ns' h a =
    kept alias tag style value (λ e. absurd (cc e)) a
head-Filled vars scalar tag style value missing ns ns' h a =
    elim (Bool-cases (has_placeholder value)) [
      | inl e ↦ rw e (
          pinned tag value _ style e
            (substitute-Expands vars 0 value missing (rw (e, rewrite_head) at h)) a)
      | inr e ↦ rw e (kept scalar tag style value (λ k. e) a)
    ]

-- when no name is missing behind a node, none was before it
head_none :
    (vars : Text → Option Text) (k : Kind) (tag : Text) (style : Style) (value : Text)
    (missing : Missing)
    → (rewrite_head vars k tag style value missing).1 ≡ []
    → missing ≡ []
unfolding rewrite_head
head_none vars document tag style value missing h = h
head_none vars sequence tag style value missing h = h
head_none vars mapping tag style value missing h = h
head_none vars alias tag style value missing h = h
head_none vars scalar tag style value missing h = elim (Bool-cases (has_placeholder value)) [
  | inl e ↦ substitute_none vars 0 value missing (rw (e, rewrite_head) at h)
  | inr e ↦ rw (e, rewrite_head) at h
]

mutual
  unfolding walk

  walk_none :
      (vars : Text → Option Text) (n : Node) (missing : Missing)
      → (walk vars n missing).1 ≡ []
      → missing ≡ []
  walk_none vars (node k tag style value content) missing h =
      head_none vars k tag style value missing (walk_all_none vars content _ h)

  walk_all_none :
      (vars : Text → Option Text) (ns : Nodes) (missing : Missing)
      → (walk_all vars ns missing).1 ≡ []
      → missing ≡ []
  walk_all_none vars none_left missing h = h
  walk_all_none vars (more n ns) missing h = walk_none vars n missing (walk_all_none vars ns _ h)

mutual
  unfolding walk

  node-Filled :
      (vars : Text → Option Text) (n : Node) (missing : Missing)
      → (walk vars n missing).1 ≡ []
      → Filled vars n (walk vars n missing).0
  node-Filled vars (node k tag style value content) missing h =
      head-Filled vars k tag style value missing content _ (walk_all_none vars content _ h)
        (nodes-AllFilled vars content (rewrite_head vars k tag style value missing).1 h)

  nodes-AllFilled :
      (vars : Text → Option Text) (ns : Nodes) (missing : Missing)
      → (walk_all vars ns missing).1 ≡ []
      → AllFilled vars ns (walk_all vars ns missing).0
  nodes-AllFilled vars none_left missing h = end_filled
  nodes-AllFilled vars (more n ns) missing h =
      more_filled (node-Filled vars n missing (walk_all_none vars ns _ h))
        (nodes-AllFilled vars ns (walk vars n missing).1 h)

if_complete-ok :
    (write : Node → Result Text Text) (r : Node × Missing) (out : Text)
    → if_complete write r ≡ ok out
    → (write r.0 ≡ ok out) × (r.1 ≡ [])
if_complete-ok write (doc, []) out h = (encoded-ok (write doc) h, refl)
  where
    encoded-ok : (e : Result Text Text) → encoded e ≡ ok out → e ≡ ok out
    encoded-ok (ok t) h = ap ok (cc h)
    encoded-ok (err m) h = absurd (cc h)
if_complete-ok write (doc, (name, u) ∷ missing) out h = absurd (cc h)

-- What interpolate writes is the document that it read with the same nodes, of the same kinds, but
-- that the scalars which hold a reference, and only these, are double-quoted strings, in which each
-- reference has a value that stands in its place: no value that is filled in adds or removes a node.
pub interpolate-Filled :
    (read : Text → Result Text Node) (write : Node → Result Text Text) (raw : Text)
    (vars : Text → Option Text) (out : Text)
    → interpolate read write raw vars ≡ ok out
    → (doc : Node) × (filled : Node) × (read raw ≡ ok doc)
      × (write filled ≡ ok out)
      × Filled vars doc filled
unfolding interpolate
interpolate-Filled read write raw vars out h = elim (Bool-cases (is_empty (trim_space raw))) [
  | inl e ↦ absurd (cc (rw (e, interpolate) at h))
  | inr e ↦ elim (Result-cases (read raw)) [
    | inr (m, r) ↦ absurd (cc (rw (e, r, interpolate) at h))
    | inl (doc, r) ↦
        let (w, complete) =
          if_complete-ok write (walk vars doc []) out (rw (e, r, interpolate) at h) in
        (doc, (walk vars doc []).0, r, w, node-Filled vars doc [] complete)
  ]
]
