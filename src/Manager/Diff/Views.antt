-- ===== src/Manager/Diff/Views.antt =====
-- The loops of NodePoolsDiff, by the name of a nodepool.
use claudie.Prelude.{
  ◌≡◌, refl, Bool, true, false, List, [], ◌∷◌, Option, none, some, String, lookup, insert, erase,
  lookup-insert, lookup-erase, contains, delete_func, has, if◌then◌else◌, keys, Distinct,
  contains-keys, contains-delete_func, arith, eq_iff, Bool-cases, Option-cases, inl, inr, subst,
  str_eq, str_eq-eq,
}
use claudie.Manager.Diff.{
  NodePoolsViewType, absent, without, nodes_of, missing_nodes, note, partial, drop_nodes,
}

pub lookup-without :
    (name : String) (gone view : NodePoolsViewType)
    → lookup name (without gone view) ≡ (if has name gone then none else lookup name view)
unfolding without lookup
lookup-without name [] view = refl
lookup-without name ((k, ns) ∷ gone) view =
    ground (arith, eq_iff k name, lookup-without name gone (erase k view), lookup-erase k name view)

abbrev pub absent_of : Bool → Option (List String) → Option (List String) → Option (List String)
absent_of b none found = found
absent_of true (some ns) found = found
absent_of false (some ns) found = some ns

pub lookup-absent :
    (name : String) (other entries acc : NodePoolsViewType)
    → Distinct (keys entries)
    → lookup name (absent other entries acc)
      ≡ absent_of (has name other) (lookup name entries) (lookup name acc)
unfolding absent lookup
lookup-absent name other [] acc d = ground arith
lookup-absent name other ((k, ns) ∷ entries) acc (fresh, d) = elim (Bool-cases (str_eq k name)) [
  | inl e ↦
      let same = str_eq-eq k name e in
      ground (
        arith,
        same,
        eq_iff k name,
        contains-keys k entries,
        lookup-absent name other entries (if has k other then acc else insert k ns acc) d,
        lookup-insert k name ns acc,
      )
  | inr e ↦ ground (
    arith,
    e,
    lookup-absent name other entries (if has k other then acc else insert k ns acc) d,
    lookup-insert k name ns acc,
  )
]

lookup-none :
    (k : String) (view : NodePoolsViewType) → contains k (keys view) ≡ false → lookup k view ≡ none
lookup-none k view h = elim (Option-cases (lookup k view)) [
  | inl n ↦ n
  | inr (ns, n) ↦ absurd (ground (arith, contains-keys k view, n, h))
]

-- A list that has an element.
abbrev pub non_empty : List String → Option (List String)
non_empty [] = none
non_empty (n ∷ ns) = some (n ∷ ns)

abbrev pub or_found : Option (List String) → Option (List String) → Option (List String)
or_found none found = found
or_found (some ns) found = some ns

lookup-note :
    (name k : String) (ns : List String) (acc : NodePoolsViewType)
    → lookup name (note k ns acc)
      ≡ (if str_eq k name then or_found (non_empty ns) (lookup name acc) else lookup name acc)
unfolding lookup
lookup-note name k [] acc = ground arith
lookup-note name k (n ∷ ns) acc = lookup-insert k name (n ∷ ns) acc

abbrev pub partial_of :
    List String → Option (List String) → Option (List String) → Option (List String)
partial_of others none found = found
partial_of others (some ns) found = or_found (non_empty (missing_nodes others ns)) found

pub lookup-partial :
    (name : String) (other entries acc : NodePoolsViewType)
    → Distinct (keys entries)
    → lookup name (partial other entries acc)
      ≡ partial_of (nodes_of name other) (lookup name entries) (lookup name acc)
unfolding partial lookup
lookup-partial name other [] acc d = refl
lookup-partial name other ((k, ns) ∷ entries) acc (fresh, d) =
    let acc' = note k (missing_nodes (nodes_of k other) ns) acc in
    elim (Bool-cases (str_eq k name)) [
      | inl e ↦
          let same = str_eq-eq k name e in
          let gone = lookup-none k entries fresh in
          subst
            (λ x.
              lookup x (partial other entries acc')
              ≡ partial_of (nodes_of x other) (if str_eq k x then some ns else lookup x entries)
                  (lookup x acc))
            same
            (ground (
              arith,
              eq_iff k k,
              gone,
              lookup-partial k other entries acc' d,
              lookup-note k k (missing_nodes (nodes_of k other) ns) acc,
            ))
      | inr e ↦ ground (
        arith,
        e,
        lookup-partial name other entries acc' d,
        lookup-note name k (missing_nodes (nodes_of k other) ns) acc,
      )
    ]

pub lookup-drop_nodes :
    (name : String) (gone view : NodePoolsViewType)
    → Distinct (keys gone)
    → lookup name (drop_nodes gone view) ≡ (elim (lookup name gone) [
      | none ↦ lookup name view
      | some ns ↦ some (missing_nodes ns (nodes_of name view))
    ])
unfolding drop_nodes lookup
lookup-drop_nodes name [] view d = refl
lookup-drop_nodes name ((k, ns) ∷ gone) view (fresh, d) =
    let view' = insert k (missing_nodes ns (nodes_of k view)) view in
    elim (Bool-cases (str_eq k name)) [
      | inl e ↦
          let same = str_eq-eq k name e in
          let none_left = lookup-none k gone fresh in
          subst
            (λ x.
              lookup x (drop_nodes gone view')
              ≡ (elim (if str_eq k x then some ns else lookup x gone)
                  as (λ _. Option (List String)) [
                    | none ↦ lookup x view
                    | some l ↦ some (missing_nodes l (nodes_of x view))
                  ]))
            same
            (ground (
              arith,
              eq_iff k k,
              none_left,
              lookup-drop_nodes k gone view' d,
              lookup-insert k k (missing_nodes ns (nodes_of k view)) view,
            ))
      | inr e ↦ ground (
        arith,
        e,
        lookup-drop_nodes name gone view' d,
        lookup-insert k name (missing_nodes ns (nodes_of k view)) view,
      )
    ]

has-insert :
    (k name : String) (ns : List String) (view : NodePoolsViewType)
    → contains name (keys (insert k ns view))
      ≡ (if str_eq k name then true else contains name (keys view))
has-insert k name ns view = ground (
  arith,
  contains-keys name (insert k ns view),
  contains-keys name view,
  lookup-insert k name ns view,
)

insert-Distinct :
    (k : String) (ns : List String) (view : NodePoolsViewType)
    → Distinct (keys view)
    → Distinct (keys (insert k ns view))
unfolding insert contains
insert-Distinct k ns [] d = (refl, tt)
insert-Distinct k ns ((j, w) ∷ view) (fresh, d) = elim (Bool-cases (str_eq j k)) [
  | inl e ↦ rw (e, insert) (fresh, d)
  | inr e ↦
      rw (e, insert)
        (
          ground (arith, has-insert k j ns view, fresh, e, eq_iff j k, eq_iff k j),
          insert-Distinct k ns view d,
        )
]

erase-Distinct :
    (k : String) (view : NodePoolsViewType) → Distinct (keys view) → Distinct (keys (erase k view))
unfolding erase contains
erase-Distinct k [] d = tt
erase-Distinct k ((j, w) ∷ view) (fresh, d) = elim (Bool-cases (str_eq j k)) [
  | inl e ↦ rw (e, erase) (erase-Distinct k view d)
  | inr e ↦
      rw (e, erase)
        (
          ground (
            arith,
            contains-keys j (erase k view),
            contains-keys j view,
            lookup-erase k j view,
            fresh,
          ),
          erase-Distinct k view d,
        )
]

pub without-Distinct :
    (gone view : NodePoolsViewType) → Distinct (keys view) → Distinct (keys (without gone view))
unfolding without
without-Distinct [] view d = d
without-Distinct ((k, _) ∷ gone) view d =
    without-Distinct gone (erase k view) (erase-Distinct k view d)

note-Distinct :
    (k : String) (ns : List String) (acc : NodePoolsViewType)
    → Distinct (keys acc)
    → Distinct (keys (note k ns acc))
note-Distinct k [] acc d = d
note-Distinct k (n ∷ ns) acc d = insert-Distinct k (n ∷ ns) acc d

pub partial-Distinct :
    (other entries acc : NodePoolsViewType)
    → Distinct (keys acc)
    → Distinct (keys (partial other entries acc))
unfolding partial
partial-Distinct other [] acc d = d
partial-Distinct other ((k, ns) ∷ entries) acc d =
    partial-Distinct other entries _ (note-Distinct k (missing_nodes (nodes_of k other) ns) acc d)

-- Deleting by tests that agree on the elements.
delete_func_same :
    (p q : String → Bool) (xs : List String)
    → ((n : String) → contains n xs ≡ true → p n ≡ q n)
    → delete_func p xs ≡ delete_func q xs
unfolding delete_func contains
delete_func_same p q [] h = refl
delete_func_same p q (x ∷ xs) h = ground (
  arith,
  h x (ground (arith, eq_iff x x)),
  delete_func_same p q xs (λ n c. h n (ground (arith, c))),
)

-- Against what is left of the other list, the same nodes are missing as against all of it.
pub missing_nodes_left :
    (ns ms : List String)
    → missing_nodes (missing_nodes (missing_nodes ms ns) ns) ms ≡ missing_nodes ns ms
unfolding missing_nodes
missing_nodes_left ns ms =
    delete_func_same (λ n. contains n (missing_nodes (missing_nodes ms ns) ns)) (λ n. contains n ns)
      ms
      (λ n c. ground (
        arith,
        c,
        contains-delete_func n (λ k. contains k (missing_nodes ms ns)) ns,
        contains-delete_func n (λ k. contains k ms) ns,
      ))
