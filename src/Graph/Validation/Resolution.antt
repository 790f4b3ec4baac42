-- ===== src/Graph/Validation/Resolution.antt =====
-- The first stage: which node types are known, and what the mapping holds in the end.
use orqent.Base.{
  ℕ, String, List, [], ◌∷◌, ◌++◌, Option, none, Bool, true, false, not, ◌||◌, ◌==◌, if◌then◌else◌,
  filter, any, is_some, Dict, lookup, insert, lookup-insert, In, ◌≡◌, refl, sym, ap, ◌∙◌, arith,
  inl, inr, Bool-cases, Option-cases, eq_iff, Unique, any-In,
}
use mathlib.Core.Path.{subst}
use orqent.Graph.Model.{GraphNode}
use orqent.Graph.Issues.{Severity, IssueCode, ValidationIssue, at_node}
use orqent.Graph.Validation.{Declaration, resolve}
use orqent.Graph.Validation.Clean.{blocks, blocks-append}

-- `_resolve`: which node types are known, and what the mapping holds in the end.
module _ {V : Type 0} where
  abbrev pub same_key : GraphNode V → GraphNode V → Bool
  same_key a b = a.key == b.key

module _ {V : Type 0} (find : String → ℕ → Option (Declaration V)) where
  abbrev pub is_unknown : GraphNode V → Bool
  is_unknown node = not (is_some (find node.node_type node.version))

  pub blocks-resolve :
      (nodes : List (GraphNode V)) (descriptors : Dict (Declaration V))
      (issues : List ValidationIssue)
      → blocks (resolve find descriptors issues nodes).1 ≡ (blocks issues || any is_unknown nodes)
  unfolding resolve
  blocks-resolve [] descriptors issues = ground arith
  blocks-resolve (node ∷ nodes) descriptors issues =
      elim (Option-cases (find node.node_type node.version)) [
        | inl e ↦
            let unknown = at_node IssueCode.unknown_node_type Severity.error node.key ∷ [] in
            let ih = blocks-resolve nodes descriptors (issues ++ unknown) in
            rw (e, resolve) (ground (arith, blocks-append issues unknown))
        | inr (d, e) ↦
            let old = at_node IssueCode.deprecated_node_type Severity.warning node.key ∷ [] in
            let ih =
              blocks-resolve nodes (insert node.key d descriptors)
                (if d.deprecated then issues ++ old else issues) in
            rw (e, resolve) (ground (arith, blocks-append issues old))
      ]

  resolve_other :
      (nodes : List (GraphNode V)) (descriptors : Dict (Declaration V))
      (issues : List ValidationIssue) (node : GraphNode V)
      → any (same_key node) nodes ≡ false
      → lookup node.key (resolve find descriptors issues nodes).0 ≡ lookup node.key descriptors
  unfolding resolve
  resolve_other [] descriptors issues node h = refl
  resolve_other (first ∷ nodes) descriptors issues node h =
      elim (Option-cases (find first.node_type first.version)) [
        | inl e ↦ rw (e, resolve) (resolve_other nodes descriptors _ node (ground arith))
        | inr (d, e) ↦
            let ih =
              resolve_other nodes (insert first.key d descriptors)
                (if d.deprecated
                  then issues
                    ++ at_node IssueCode.deprecated_node_type Severity.warning first.key ∷ []
                  else issues)
                node (ground arith) in
            rw (e, resolve)
              (ih
                ∙ lookup-insert first.key node.key d descriptors
                ∙ ground (arith, eq_iff first.key node.key, eq_iff node.key first.key))
      ]

  pub resolve_lem :
      (nodes : List (GraphNode V)) (descriptors : Dict (Declaration V))
      (issues : List ValidationIssue) (node : GraphNode V)
      → Unique same_key nodes
      → In node nodes
      → lookup node.key descriptors ≡ none
      → lookup node.key (resolve find descriptors issues nodes).0 ≡ find node.node_type node.version
  unfolding resolve
  resolve_lem [] descriptors issues node unique m new = absurd m
  resolve_lem (first ∷ nodes) descriptors issues node (here, later) m new =
      elim (Option-cases (find first.node_type first.version)) [
        | inl e ↦ elim m [
          | inl same ↦
              let apart : any (same_key node) nodes ≡ false =
                subst (λ (n : GraphNode V). any (same_key n) nodes ≡ false) (sym same) here in
              rw (e, resolve)
                (resolve_other nodes descriptors _ node apart
                  ∙ new
                  ∙ sym e
                  ∙ ap (λ (n : GraphNode V). find n.node_type n.version) (sym same))
          | inr m' ↦ rw (e, resolve) (resolve_lem nodes descriptors _ node later m' new)
        ]
        | inr (d, e) ↦
            let inserted = lookup-insert first.key node.key d descriptors in
            elim m [
              | inl same ↦
                  let apart : any (same_key node) nodes ≡ false =
                    subst (λ (n : GraphNode V). any (same_key n) nodes ≡ false) (sym same) here in
                  let alike : first.key == node.key ≡ true =
                    (eq_iff first.key node.key).1 (ap (λ (n : GraphNode V). n.key) (sym same)) in
                  rw (e, resolve)
                    (resolve_other nodes (insert first.key d descriptors) _ node apart
                      ∙ inserted
                      ∙ rw alike refl
                      ∙ sym e
                      ∙ ap (λ (n : GraphNode V). find n.node_type n.version) (sym same))
              | inr m' ↦
                  let apart = any-In (same_key first) node nodes here m' in
                  rw (e, resolve)
                    (resolve_lem nodes (insert first.key d descriptors) _ node later m'
                      (inserted ∙ rw apart new))
            ]
      ]

-- Exactly one item passes a test.
module _ {A : Type 0} (test : A → Bool) (clash : A → A → Bool)
    (clash_refl : (a : A) → clash a a ≡ true) where
  no_other :
      (item : A) (items : List A)
      → any (clash item) items ≡ false
      → ((a : A) → In a items → test a ≡ true → a ≡ item)
      → filter test items ≡ []
  no_other item [] apart only = refl
  no_other item (first ∷ items) apart only = elim (Bool-cases (test first)) [
    | inl e ↦
        let same = only first (inl refl) e in
        let self : clash item first ≡ true =
          subst (λ a. clash item a ≡ true) (sym same) (clash_refl item) in
        cc (any-In (clash item) first (first ∷ items) apart (inl refl))
    | inr e ↦ rw e (no_other item items (ground arith) (λ a m. only a (inr m)))
  ]

  pub filter_one :
      (item : A) (items : List A)
      → Unique clash items
      → In item items
      → test item ≡ true
      → ((a : A) → In a items → test a ≡ true → a ≡ item)
      → filter test items ≡ item ∷ []
  filter_one item [] unique m passes only = absurd m
  filter_one item (first ∷ items) (here, later) m passes only = elim (Bool-cases (test first)) [
    | inl e ↦
        let same = only first (inl refl) e in
        let apart = subst (λ a. any (clash a) items ≡ false) same here in
        rw e (
          ap (λ rest. first ∷ rest) (no_other item items apart (λ a n. only a (inr n)))
          ∙ ap (λ a. a ∷ []) same)
    | inr e ↦ elim m [
      | inl same ↦ cc (ap test same)
      | inr m' ↦ rw e (filter_one item items later m' passes (λ a n. only a (inr n)))
    ]
  ]
