-- ===== src/Manager/Messages.antt =====
-- services/manager/internal/service/watchers.go (messageForStage), handler_msg.go
-- (taskStageFromNatsSubject) and internal/natsutils/subjects.go: the messages to the work queues.
-- Protobuf's Marshal, anypb's New and the decimal form of an index are parameters.
use claudie.Prelude.{
  ℕ, ◌≡◌, refl, List, [], ◌∷◌, Option, none, some, String, str_append, str_eq, get_elem?,
  if◌then◌else◌, arith, Option-cases, inl, inr,
}
use claudie.Spec.Task.{Task}
use claudie.Store.{Bytes, StageKind, terraformer, ansibler, kube_eleven, kuber}
use claudie.Store.Stages.{
  PbKind, unset, pb_terraformer, pb_ansibler, pb_kube_eleven, pb_kuber, PbSubPass, PbStage,
  kind_from_grpc, all_or_none,
}
use claudie.Store.Convert.{Codec, ◌>>=◌}
use claudie.Manager.Subject

-- What is sent for a task: `spec.Work`.
pub record WorkMessage : Type 0 where
  pub task : Task
  pub passes : List Bytes

pub record Wire : Type 0 where
  pub any_new : PbKind → PbSubPass → Option Bytes
  pub marshal_work : WorkMessage → Option Bytes
  pub show : ℕ → String

pub record Msg : Type 0 where
  pub subject : String
  pub msg_id : String
  pub reply_to : String
  pub input_manifest_name : String
  pub cluster_name : String
  pub payload : Bytes

-- A message with its description, an error, or an index out of range.
pub data Made : Type 0 where
  made : Msg → String → Made
  unmade out_of_range : Made

-- The request and the reply subject of a stage; `none` is "no mapping exists".
abbrev pub subjects : PbKind → Option (String × String)
subjects unset = none
subjects pb_terraformer = some (Subject.terraformer_requests, Subject.terraformer_response)
subjects pb_ansibler = some (Subject.ansibler_requests, Subject.ansibler_response)
subjects pb_kube_eleven = some (Subject.kube_eleven_requests, Subject.kube_eleven_response)
subjects pb_kuber = some (Subject.kuber_requests, Subject.kuber_response)

-- What the string builder holds after the passes.
abbrev pub describe : String → List PbSubPass → String
describe b [] = b
describe b (p ∷ ps) = describe (str_append b (str_append "\n  - " p.description.about)) ps

module _ (c : Codec) (wire : Wire) where
  abbrev pub stage_id : String → String → ℕ → String
  stage_id event_id subject stage =
      str_append event_id (str_append "-" (str_append subject (str_append "-" (wire.show stage))))

  -- The message for a stage, once the task is unmarshalled.
  abbrev pub message_of : String → String → String → Task → ℕ → PbStage → Option (Msg × String)
  message_of input_manifest cluster event_id task stage st = do
    ss ← subjects st.kind
    passes ← all_or_none (wire.any_new st.kind) st.sub_passes
    payload ← wire.marshal_work (record { task = task; passes = passes })
    some (
      record {
        subject = ss.0;
        msg_id = stage_id event_id ss.0 stage;
        reply_to = ss.1;
        input_manifest_name = input_manifest;
        cluster_name = cluster;
        payload = payload;
      },
      describe st.description.about st.sub_passes,
    )

  -- `messageForStage`
  unfoldable pub message_for_stage : String → String → String → Bytes → ℕ → List PbStage → Made
  message_for_stage input_manifest cluster event_id marshalled stage pipeline =
      elim (c.unmarshal_task marshalled) [
        | none ↦ unmade
        | some task ↦ elim (get_elem? pipeline stage) [
          | none ↦ out_of_range
          | some st ↦ elim (message_of input_manifest cluster event_id task stage st) [
            | none ↦ unmade
            | some r ↦ made r.0 r.1
          ]
        ]
      ]

-- `taskStageFromNatsSubject`; `none` for "not ok".
unfoldable pub task_stage_from_nats_subject : String → Option StageKind
task_stage_from_nats_subject subject =
    if str_eq subject Subject.terraformer_response
    then some terraformer
    else if str_eq subject Subject.ansibler_response
    then some ansibler
    else if str_eq subject Subject.kube_eleven_response
    then some kube_eleven
    else if str_eq subject Subject.kuber_response
    then some kuber
    else none

reply_kind :
    (k : PbKind) (ss : String × String)
    → subjects k ≡ some ss
    → task_stage_from_nats_subject ss.1 ≡ kind_from_grpc k
unfolding task_stage_from_nats_subject
reply_kind unset ss e = absurd (cc e)
reply_kind pb_terraformer ss e =
    let same : (Subject.terraformer_requests, Subject.terraformer_response) ≡ ss = ground arith in
    rw (← same) refl
reply_kind pb_ansibler ss e =
    let same : (Subject.ansibler_requests, Subject.ansibler_response) ≡ ss = ground arith in
    rw (← same) refl
reply_kind pb_kube_eleven ss e =
    let same : (Subject.kube_eleven_requests, Subject.kube_eleven_response) ≡ ss = ground arith in
    rw (← same) refl
reply_kind pb_kuber ss e =
    let same : (Subject.kuber_requests, Subject.kuber_response) ≡ ss = ground arith in
    rw (← same) refl

-- The message for a stage carries the stored task, and a reply to the subject that it names is
-- taken for a result of that stage: the kinds agree once the stage is converted back.
pub message_for_stage_reply :
    (c : Codec) (wire : Wire) (input_manifest cluster event_id : String) (b : Bytes) (stage : ℕ)
    (pipeline : List PbStage) (msg : Msg) (d : String)
    → message_for_stage c wire input_manifest cluster event_id b stage pipeline ≡ made msg d
    → (t : Task) × (st : PbStage) × (passes : List Bytes) × (c.unmarshal_task b ≡ some t)
      × (get_elem? pipeline stage ≡ some st)
      × (wire.marshal_work (record { task = t; passes = passes }) ≡ some msg.payload)
      × (task_stage_from_nats_subject msg.reply_to ≡ kind_from_grpc st.kind)
unfolding message_for_stage
message_for_stage_reply c wire input_manifest cluster event_id b stage pipeline msg d e =
    elim (Option-cases (c.unmarshal_task b)) [
      | inl n ↦ absurd (ground arith)
      | inr (t, n) ↦ elim (Option-cases (get_elem? pipeline stage)) [
        | inl m ↦ absurd (ground arith)
        | inr (st, m) ↦ elim (Option-cases (subjects st.kind)) [
          | inl q ↦ absurd (ground arith)
          | inr (ss, q) ↦ elim (Option-cases (all_or_none (wire.any_new st.kind) st.sub_passes)) [
            | inl r ↦ absurd (ground arith)
            | inr (ps, r) ↦
                elim (Option-cases (wire.marshal_work (record { task = t; passes = ps }))) [
                  | inl x ↦ absurd (ground arith)
                  | inr (y, x) ↦
                      (t, st, ps, n, m, ground arith, ground (arith, reply_kind st.kind ss q))
                ]
          ]
        ]
      ]
    ]
