-- ===== src/Examples/Messages.antt =====
-- The message of a stage: a witness.
use claudie.Prelude.{◌≡◌, refl, List, [], ◌∷◌, some, get_elem?}
use claudie.Spec.Task.{Task}
use claudie.Store.{Bytes}
use claudie.Store.Stages.{PbStage, kind_from_grpc}
use claudie.Manager.Messages.{
  Wire, Msg, made, message_for_stage, task_stage_from_nats_subject, message_for_stage_reply,
}
use claudie.Manager.Subject
use claudie.Examples.Codecs.{codec, stage, plain_state}

abbrev pub wire : Wire
wire = record {
  any_new = λ k p. some (p.kind ∷ []);
  marshal_work = λ w. some (9 ∷ []);
  show = λ n. "0";
}

abbrev msg : Msg
msg = record {
  subject = Subject.kuber_requests;
  msg_id = "task-1-claudie-internal-cluster-requests-kuber-0";
  reply_to = Subject.kuber_response;
  input_manifest_name = "main";
  cluster_name = "prod";
  payload = 9 ∷ [];
}

sent :
    message_for_stage codec wire "main" "prod" "task-1" (2 ∷ []) 0 (stage ∷ [])
    ≡ made msg "kuber\n  - patch"
unfolding message_for_stage
sent = refl

message_for_stage_reply_example :
    (t : Task) × (st : PbStage) × (passes : List Bytes) × (some (Task.create plain_state) ≡ some t)
    × (get_elem? (stage ∷ []) 0 ≡ some st)
    × (wire.marshal_work (record { task = t; passes = passes }) ≡ some (9 ∷ []))
    × (task_stage_from_nats_subject Subject.kuber_response ≡ kind_from_grpc st.kind)
message_for_stage_reply_example =
    message_for_stage_reply codec wire "main" "prod" "task-1" (2 ∷ []) 0 (stage ∷ []) msg
      "kuber\n  - patch" sent
