-- ===== src/Examples/Diffs.antt =====
-- The difference of two views: a witness, and a test that the views are as expected.
use claudie.Prelude.{
  ◌≡◌, refl, [], ◌∷◌, lookup, keys, Distinct, contains, insert, erase, delete_func,
}
use claudie.Manager.Diff.{NodePoolsViewType, NodePoolsDiffResult, node_pools_diff}
use claudie.Manager.Diff.Difference.{only, changed, lookup-node_pools_diff}

abbrev old : NodePoolsViewType
old = ("a", "a-1" ∷ "a-2" ∷ []) ∷ ("b", "b-1" ∷ []) ∷ []

abbrev desired : NodePoolsViewType
desired = ("a", "a-2" ∷ "a-3" ∷ []) ∷ ("c", "c-1" ∷ []) ∷ []

abbrev expected : NodePoolsDiffResult
expected = record {
  partially_deleted = ("a", "a-1" ∷ []) ∷ [];
  deleted = ("b", "b-1" ∷ []) ∷ [];
  partially_added = ("a", "a-3" ∷ []) ∷ [];
  added = ("c", "c-1" ∷ []) ∷ [];
}

as_expected : (node_pools_diff old desired).0 ≡ expected
unfolding node_pools_diff lookup insert erase delete_func contains
as_expected = refl

old_names : Distinct (keys old)
unfolding contains
old_names = (refl, (refl, tt))

desired_names : Distinct (keys desired)
unfolding contains
desired_names = (refl, (refl, tt))

lookup-node_pools_diff_example :
    (lookup "a" (node_pools_diff old desired).0.deleted
      ≡ only (lookup "a" old) (lookup "a" desired))
    × (lookup "a" (node_pools_diff old desired).0.added
        ≡ only (lookup "a" desired) (lookup "a" old))
    × (lookup "a" (node_pools_diff old desired).0.partially_deleted
        ≡ changed (lookup "a" old) (lookup "a" desired))
    × (lookup "a" (node_pools_diff old desired).0.partially_added
        ≡ changed (lookup "a" desired) (lookup "a" old))
lookup-node_pools_diff_example = lookup-node_pools_diff old desired old_names desired_names "a"
