-- ===== src/Manager/Diff/Labels.antt =====
-- services/manager/internal/service/diff.go: the difference of labels, taints and annotations in
-- KubernetesDiff. A nodepool is compared with the first desired one of its name.
use claudie.Prelude.{
  Bool, false, ◌&&◌, List, [], ◌∷◌, ◌++◌, Option, none, some, String, Dict, lookup, insert, has,
  str_eq, contains_func, if◌then◌else◌,
}
use claudie.Spec.{NodePool, Taint}
use claudie.Manager.Diff.{NodePoolsViewType}
use claudie.Manager.Diff.Pools.{append_at}

-- The annotations have the shape of the labels.
pub record LabelsTaintsAnnotationsDiffResult : Type 0 where
  pub deleted_labels : NodePoolsViewType
  pub deleted_annotations : NodePoolsViewType
  pub deleted_taints : Dict (List Taint)
  pub added_labels : Dict (Dict String)
  pub added_annotations : Dict (Dict String)
  pub added_taints : Dict (List Taint)

-- `for k := range c.Labels`: the keys that the desired labels lack.
unfoldable pub gone_keys :
    String → Dict String → Dict String → NodePoolsViewType → NodePoolsViewType
gone_keys pool desired [] acc = acc
gone_keys pool desired ((k, _) ∷ entries) acc =
    gone_keys pool desired entries (if has k desired then acc else append_at pool k acc)

-- `ok && nv == ov`
abbrev pub is_kept : Option String → String → Bool
is_kept none v = false
is_kept (some old) v = str_eq v old

-- `diff.Added.Labels[c.Name][k] = nv`, with the inner map made where it is missing.
abbrev pub put_in : String → String → String → Dict (Dict String) → Dict (Dict String)
put_in pool k v acc = elim (lookup pool acc) [
  | none ↦ insert pool ((k, v) ∷ []) acc
  | some m ↦ insert pool (insert k v m) acc
]

-- `for k, nv := range n.Labels`: the labels that are new or have another value.
unfoldable pub new_values :
    String → Dict String → Dict String → Dict (Dict String) → Dict (Dict String)
new_values pool current [] acc = acc
new_values pool current ((k, v) ∷ entries) acc =
    new_values pool current entries
      (if is_kept (lookup k current) v then acc else put_in pool k v acc)

abbrev pub taint_eq : Taint → Taint → Bool
taint_eq t other =
    (str_eq other.key t.key && str_eq other.value t.value) && str_eq other.effect t.effect

abbrev pub append_taint : String → Taint → Dict (List Taint) → Dict (List Taint)
append_taint pool t acc = elim (lookup pool acc) [
  | none ↦ insert pool (t ∷ []) acc
  | some ts ↦ insert pool (ts ++ t ∷ []) acc
]

-- The taints that the others lack.
unfoldable pub taints_without :
    String → List Taint → List Taint → Dict (List Taint) → Dict (List Taint)
unfolding contains_func
taints_without pool others [] acc = acc
taints_without pool others (t ∷ ts) acc =
    taints_without pool others ts
      (if contains_func (taint_eq t) others then acc else append_taint pool t acc)

unfoldable pub diff_labels :
    NodePool → NodePool → LabelsTaintsAnnotationsDiffResult → LabelsTaintsAnnotationsDiffResult
unfolding gone_keys new_values taints_without
diff_labels c n acc = record {
  deleted_labels = gone_keys n.name n.labels c.labels acc.deleted_labels;
  deleted_annotations = gone_keys n.name n.annotations c.annotations acc.deleted_annotations;
  deleted_taints = taints_without n.name n.taints c.taints acc.deleted_taints;
  added_labels = new_values c.name c.labels n.labels acc.added_labels;
  added_annotations = new_values c.name c.annotations n.annotations acc.added_annotations;
  added_taints = taints_without c.name c.taints n.taints acc.added_taints;
}

-- The inner loop, which stops at the first nodepool of the name.
unfoldable pub with_first :
    NodePool → List NodePool → LabelsTaintsAnnotationsDiffResult → LabelsTaintsAnnotationsDiffResult
unfolding diff_labels
with_first c [] acc = acc
with_first c (n ∷ ns) acc =
    let rest = with_first c ns acc in if str_eq c.name n.name then diff_labels c n acc else rest

unfoldable pub labels_diff :
    List NodePool
    → List NodePool
    → LabelsTaintsAnnotationsDiffResult
    → LabelsTaintsAnnotationsDiffResult
unfolding with_first
labels_diff [] ns acc = acc
labels_diff (c ∷ cs) ns acc = labels_diff cs ns (with_first c ns acc)

abbrev pub no_labels : LabelsTaintsAnnotationsDiffResult
no_labels = record {
  deleted_labels = [];
  deleted_annotations = [];
  deleted_taints = [];
  added_labels = [];
  added_annotations = [];
  added_taints = [];
}
