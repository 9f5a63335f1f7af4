-- ===== src/Manager/Process/Errored.antt =====
-- processTaskWithError: a fatal error at a stage whose errors are fatal.
use claudie.Prelude.{
  ℕ, ◌≡◌, refl, true, false, List, ◌∷◌, some, String, arith, get_elem?, sym, subst, Dict,
}
use claudie.Spec.Task.{fatal}
use claudie.Store.{ClusterState, TaskEvent, Stage, kind_eq, error}
use claudie.Store.Convert.{Codec}
use claudie.Manager.Process.{
  Work, Around, commit, handle, handle_from, process_task_with_error, counted, is_warn, is_for,
  errored, remembered,
}

-- The message is for the stage that the cluster is at, where errors are fatal, and reports one.
pub record IsFatal (c : Codec) (env : Around) (w : Work) (cs : ClusterState) (d : String)
    : Type 0 where
  pub event : TaskEvent
  pub behind : List TaskEvent
  pub stage : Stage
  pub now : cs.in_flight ≡ event ∷ behind
  pub meant : is_for c env w event ≡ true
  pub at : get_elem? event.pipeline event.current_stage ≡ some stage
  pub kind : kind_eq stage.kind w.stage ≡ true
  pub level : is_warn c env stage.description.error_level ≡ false
  pub reported : w.result.error ≡ some (fatal, d)

module _ (c : Codec) (env : Around) (w : Work) where
  handle-IsFatal :
      (cs : ClusterState) (d : String) (m : Dict ℕ) (f : IsFatal c env w cs d)
      → counted c env cs ≡ some m
      → handle c env w cs ≡ commit (errored c env d m (remembered c env error f.stage cs))
  unfolding handle process_task_with_error
  handle-IsFatal cs d m f counts =
      subst
        (λ es.
          handle_from c env w cs es
          ≡ commit (errored c env d m (remembered c env error f.stage cs)))
        (sym f.now) (ground (arith, f.meant, f.at, f.kind, f.level, f.reported, counts))

  -- A fatal error at a stage where errors are fatal is written back: the task stays where it is,
  -- the status is an error with the reported description, and the counters are those that counting the
  -- error gives. The same message delivered again is written back too, with the task and the
  -- counters as the first delivery left them.
  pub handle_fatal :
      (cs : ClusterState) (d : String) (m : Dict ℕ)
      → IsFatal c env w cs d
      → counted c env cs ≡ some m
      → (cs' cs'' : ClusterState) × (handle c env w cs ≡ commit cs')
        × (cs'.in_flight ≡ cs.in_flight)
        × (cs'.state.status ≡ error)
        × (cs'.state.description ≡ d)
        × (cs'.scale_up_failed ≡ m)
        × (handle c env w cs' ≡ commit cs'')
        × (cs''.in_flight ≡ cs.in_flight)
        × (cs''.scale_up_failed ≡ m)
  unfolding counted
  handle_fatal cs d m f counts =
      let cs' = errored c env d m (remembered c env error f.stage cs) in
      let f' : IsFatal c env w cs' d = record {
        event = f.event;
        behind = f.behind;
        stage = f.stage;
        now = f.now;
        meant = f.meant;
        at = f.at;
        kind = f.kind;
        level = f.level;
        reported = f.reported;
      } in
      (
        cs',
        errored c env d m (remembered c env error f.stage cs'),
        handle-IsFatal cs d m f counts,
        refl,
        refl,
        refl,
        refl,
        handle-IsFatal cs' d m f' refl,
        refl,
        refl,
      )
