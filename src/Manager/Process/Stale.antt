-- ===== src/Manager/Process/Stale.antt =====
-- ProcessTask: the messages that are dropped.
use claudie.Prelude.{
  ◌≡◌, ◌≢◌, refl, true, List, ◌∷◌, some, lookup, get_elem?, arith, Bool-cases, inl, inr, subst, sym,
  ◌⊎◌, ap, str_eq-eq, eq_iff,
}
use claudie.Store.{
  Store, Config, ClusterState, TaskEvent, Stage, StageKind, unknown, terraformer, ansibler,
  kube_eleven, kuber, other, kind_eq, Reply,
}
use claudie.Store.Convert.{Codec}
use claudie.Manager.Process.{Work, Around, discard, is_for, handle, handle_from, process_task, ack}

kind_eq-eq : (k l : StageKind) → kind_eq k l ≡ true → k ≡ l
kind_eq-eq unknown unknown e = refl
kind_eq-eq terraformer terraformer e = refl
kind_eq-eq ansibler ansibler e = refl
kind_eq-eq kube_eleven kube_eleven e = refl
kind_eq-eq kuber kuber e = refl
kind_eq-eq (other s) (other t) e = ap other (str_eq-eq s t e)
kind_eq-eq _ _ e = absurd (cc e)

-- A message for another task, another place in its pipeline, or another kind of stage than the event is at.
abbrev pub IsStale : Work → TaskEvent → Stage → Type 0
IsStale w e stage = (e.id ≢ w.task_id) ⊎ (e.current_stage ≢ w.task_stage) ⊎ (stage.kind ≢ w.stage)

handle_from-stale :
    (c : Codec) (env : Around) (w : Work) (cs : ClusterState) (e : TaskEvent)
    (rest : List TaskEvent) (stage : Stage)
    → get_elem? e.pipeline e.current_stage ≡ some stage
    → IsStale w e stage
    → handle_from c env w cs (e ∷ rest) ≡ discard
handle_from-stale c env w cs e rest stage at stale = elim (Bool-cases (is_for c env w e)) [
  | inl right ↦ elim (Bool-cases (kind_eq stage.kind w.stage)) [
    | inl same ↦
        absurd (ground (arith, stale, eq_iff e.id w.task_id, kind_eq-eq stage.kind w.stage same))
    | inr differs ↦ rw (right, at, differs) refl
  ]
  | inr wrong ↦ rw wrong refl
]

-- A message that names another task, another index or another kind of stage than the cluster is
-- at is acknowledged, and the database stays as it is.
pub process_task_stale :
    (st : Store) (c : Codec) (env : Around) (db : st.Db) (w : Work) (im : Config)
    (cs : ClusterState) (e : TaskEvent) (rest : List TaskEvent) (stage : Stage)
    → st.get_config db w.input_manifest ≡ Reply.ok im
    → lookup w.cluster im.clusters ≡ some cs
    → cs.in_flight ≡ e ∷ rest
    → get_elem? e.pipeline e.current_stage ≡ some stage
    → IsStale w e stage
    → process_task st c env db w ≡ (db, ack)
unfolding process_task handle
process_task_stale st c env db w im cs e rest stage got found now at stale =
    let dropped : handle c env w cs ≡ discard =
      subst (λ es. handle_from c env w cs es ≡ discard) (sym now)
        (handle_from-stale c env w cs e rest stage at stale) in
    rw (process_task, got, found, dropped) refl
