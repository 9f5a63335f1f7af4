-- ===== src/Manager/Diff/Difference.antt =====
-- NodePoolsDiff: what the four views hold, by the name of a nodepool.
use claudie.Prelude.{
  ◌≡◌, refl, List, [], ◌∷◌, Option, none, some, String, lookup, if◌then◌else◌, keys, Distinct, ap,
  subst, ◌∙◌, ap₂, is_some,
}
use claudie.Manager.Diff.{
  NodePoolsViewType, absent, without, nodes_of, missing_nodes, partial, drop_nodes, node_pools_diff,
}
use claudie.Manager.Diff.Views.{
  lookup-without, lookup-absent, lookup-partial, lookup-drop_nodes, without-Distinct,
  partial-Distinct, missing_nodes_left, absent_of, partial_of, or_found, non_empty,
}

-- The nodes that a nodepool of both views has in the first and lacks in the second, if any.
abbrev pub changed : Option (List String) → Option (List String) → Option (List String)
changed (some ns) (some ms) = non_empty (missing_nodes ms ns)
changed _ _ = none

-- The nodes of a nodepool that the other view lacks.
abbrev pub only : Option (List String) → Option (List String) → Option (List String)
only found (some _) = none
only found none = found

-- The nodes of a nodepool that the other view has too.
abbrev pub common : Option (List String) → Option (List String) → Option (List String)
common (some ns) (some _) = some ns
common _ _ = none

abbrev listed : Option (List String) → List String
listed o = elim o [ none ↦ [] | some ns ↦ ns ]

absent_only : (a b : Option (List String)) → absent_of (is_some b) a none ≡ only a b
absent_only none none = refl
absent_only none (some _) = refl
absent_only (some _) none = refl
absent_only (some _) (some _) = refl

only-common : (a b : Option (List String)) → (if is_some (only a b) then none else a) ≡ common a b
only-common none none = refl
only-common none (some _) = refl
only-common (some _) none = refl
only-common (some _) (some _) = refl

common-only : (a b : Option (List String)) → absent_of (is_some (common a b)) b none ≡ only b a
common-only none none = refl
common-only none (some _) = refl
common-only (some _) none = refl
common-only (some _) (some _) = refl

or_none : (o : Option (List String)) → or_found o none ≡ o
or_none none = refl
or_none (some _) = refl

common-changed :
    (a b : Option (List String)) → partial_of (listed (common b a)) (common a b) none ≡ changed a b
common-changed none none = refl
common-changed none (some _) = refl
common-changed (some _) none = refl
common-changed (some ns) (some ms) = or_none (non_empty (missing_nodes ms ns))

-- What the nodes that are gone leave of a list.
abbrev left_of : Option (List String) → Option (List String) → Option (List String)
left_of none o = o
left_of (some gone) o = some (missing_nodes gone (listed o))

missing_left :
    (ns ms : List String)
    → or_found
        (non_empty
          (missing_nodes (listed (left_of (non_empty (missing_nodes ms ns)) (some ns))) ms))
        none
      ≡ non_empty (missing_nodes ns ms)
missing_left ns ms = by (missing_nodes ms ns) refl
  where
    by :
        (x : List String)
        → missing_nodes ms ns ≡ x
        → or_found (non_empty (missing_nodes (listed (left_of (non_empty x) (some ns))) ms)) none
          ≡ non_empty (missing_nodes ns ms)
    by [] h = or_none (non_empty (missing_nodes ns ms))
    by (n ∷ r) h =
        or_none (non_empty (missing_nodes (missing_nodes (n ∷ r) ns) ms))
        ∙ ap non_empty (
            subst (λ x. missing_nodes (missing_nodes x ns) ms ≡ missing_nodes ns ms) h
              (missing_nodes_left ns ms))

left_changed :
    (a b : Option (List String))
    → partial_of (listed (left_of (changed a b) (common a b))) (common b a) none ≡ changed b a
left_changed none none = refl
left_changed none (some _) = refl
left_changed (some _) none = refl
left_changed (some ns) (some ms) = missing_left ns ms

module _ (old desired : NodePoolsViewType) (d : Distinct (keys old))
    (e : Distinct (keys desired)) where
  abbrev deleted : NodePoolsViewType
  deleted = absent desired old []

  abbrev old1 : NodePoolsViewType
  old1 = without deleted old

  abbrev added : NodePoolsViewType
  added = absent old1 desired []

  abbrev desired1 : NodePoolsViewType
  desired1 = without added desired

  abbrev gone : NodePoolsViewType
  gone = partial desired1 old1 []

  abbrev old2 : NodePoolsViewType
  old2 = drop_nodes gone old1

  lookup-deleted :
      (name : String) → lookup name deleted ≡ only (lookup name old) (lookup name desired)
  unfolding lookup
  lookup-deleted name =
      lookup-absent name desired old [] d ∙ absent_only (lookup name old) (lookup name desired)

  lookup-old1 : (name : String) → lookup name old1 ≡ common (lookup name old) (lookup name desired)
  lookup-old1 name =
      lookup-without name deleted old
      ∙ ap (λ x. if is_some x then none else lookup name old) (lookup-deleted name)
      ∙ only-common (lookup name old) (lookup name desired)

  lookup-added : (name : String) → lookup name added ≡ only (lookup name desired) (lookup name old)
  unfolding lookup
  lookup-added name =
      lookup-absent name old1 desired [] e
      ∙ ap (λ x. absent_of (is_some x) (lookup name desired) none) (lookup-old1 name)
      ∙ common-only (lookup name old) (lookup name desired)

  lookup-desired1 :
      (name : String) → lookup name desired1 ≡ common (lookup name desired) (lookup name old)
  lookup-desired1 name =
      lookup-without name added desired
      ∙ ap (λ x. if is_some x then none else lookup name desired) (lookup-added name)
      ∙ only-common (lookup name desired) (lookup name old)

  lookup-gone : (name : String) → lookup name gone ≡ changed (lookup name old) (lookup name desired)
  unfolding lookup
  lookup-gone name =
      lookup-partial name desired1 old1 [] (without-Distinct deleted old d)
      ∙ ap₂ (λ x y. partial_of (listed x) y none) (lookup-desired1 name) (lookup-old1 name)
      ∙ common-changed (lookup name old) (lookup name desired)

  lookup-old2 :
      (name : String)
      → lookup name old2
        ≡ left_of
            (changed (lookup name old) (lookup name desired))
            (common (lookup name old) (lookup name desired))
  lookup-old2 name =
      lookup-drop_nodes name gone old1 (partial-Distinct desired1 old1 [] tt)
      ∙ as_left (lookup name gone)
      ∙ ap₂ left_of (lookup-gone name) (lookup-old1 name)
    where
      as_left :
          (o : Option (List String))
          → (elim o [
            | none ↦ lookup name old1
            | some ns ↦ some (missing_nodes ns (nodes_of name old1))
          ])
            ≡ left_of o (lookup name old1)
      as_left none = refl
      as_left (some ns) = refl

  -- The difference of two views whose names are distinct, by the name of a nodepool: deleted are the
  -- nodepools that only the old view has and added those that only the desired view has, with
  -- their nodes; of a nodepool that both have, the nodes that only the old or only the desired
  -- view has are partially deleted or added, and it has no entry where there are none.
  pub lookup-node_pools_diff :
      (name : String)
      → (lookup name (node_pools_diff old desired).0.deleted
          ≡ only (lookup name old) (lookup name desired))
        × (lookup name (node_pools_diff old desired).0.added
            ≡ only (lookup name desired) (lookup name old))
        × (lookup name (node_pools_diff old desired).0.partially_deleted
            ≡ changed (lookup name old) (lookup name desired))
        × (lookup name (node_pools_diff old desired).0.partially_added
            ≡ changed (lookup name desired) (lookup name old))
  unfolding node_pools_diff lookup
  lookup-node_pools_diff name = (
    lookup-deleted name,
    lookup-added name,
    lookup-gone name,
    lookup-partial name old2 desired1 [] (without-Distinct added desired e)
        ∙ ap₂ (λ x y. partial_of (listed x) y none) (lookup-old2 name) (lookup-desired1 name)
        ∙ left_changed (lookup name old) (lookup name desired),
  )
