-- ===== src/Store/Stages.antt =====
-- services/manager/internal/store/convert_db_grpc.go: the stages of a pipeline, between the
-- database and gRPC. A `oneof StageKind` with four messages of one shape is a kind and that shape;
-- the tables of generated enum names are a parameter.
use claudie.Prelude.{ℕ, List, [], ◌∷◌, Option, none, some, String, map}
use claudie.Store.{
  StageKind, terraformer, ansibler, kube_eleven, kuber, ErrorLevel, error_fatal, error_warn,
  other_level, StageDescription, SubPass, Stage,
}

-- The message that is set in a `spec.Stage`.
pub data PbKind : Type 0 where
  unset pb_terraformer pb_ansibler pb_kube_eleven pb_kuber : PbKind

pub data PbLevel : Type 0 where
  fatal warn : PbLevel

pub record PbDescription : Type 0 where
  pub about : String
  pub error_level : PbLevel

pub record PbSubPass : Type 0 where
  pub kind : ℕ
  pub description : PbDescription

pub record PbStage : Type 0 where
  pub kind : PbKind
  pub description : PbDescription
  pub sub_passes : List PbSubPass

-- The enums of sub passes: `SubPassKind_value` (0 for a name it lacks) and `String`.
pub record EnumNames : Type 0 where
  pub kind_value : PbKind → String → ℕ
  pub kind_name : PbKind → ℕ → String

-- `spec.ErrorLevel_value`, 0 for a name it lacks.
abbrev pub level_value : ErrorLevel → PbLevel
level_value error_fatal = fatal
level_value error_warn = warn
level_value (other_level _) = fatal

-- `ErrorLevel.String`
abbrev pub level_name : PbLevel → ErrorLevel
level_name fatal = error_fatal
level_name warn = error_warn

abbrev pub description_value : StageDescription → PbDescription
description_value d = record { about = d.about; error_level = level_value d.error_level }

abbrev pub description_name : PbDescription → StageDescription
description_name d = record { about = d.about; error_level = level_name d.error_level }

-- The `switch dbStage.Kind`; `none` is "unrecognized stage kind".
abbrev pub kind_to_grpc : StageKind → Option PbKind
kind_to_grpc terraformer = some pb_terraformer
kind_to_grpc ansibler = some pb_ansibler
kind_to_grpc kube_eleven = some pb_kube_eleven
kind_to_grpc kuber = some pb_kuber
kind_to_grpc _ = none

-- The `switch typ := stage.StageKind`; `none` is the unknown kind.
abbrev pub kind_from_grpc : PbKind → Option StageKind
kind_from_grpc pb_terraformer = some terraformer
kind_from_grpc pb_ansibler = some ansibler
kind_from_grpc pb_kube_eleven = some kube_eleven
kind_from_grpc pb_kuber = some kuber
kind_from_grpc unset = none

module _ (names : EnumNames) where
  abbrev pub sub_pass_to_grpc : PbKind → SubPass → PbSubPass
  sub_pass_to_grpc k p = record {
    kind = names.kind_value k p.kind;
    description = description_value p.description;
  }

  abbrev pub sub_pass_from_grpc : PbKind → PbSubPass → SubPass
  sub_pass_from_grpc k p = record {
    kind = names.kind_name k p.kind;
    description = description_name p.description;
  }

  abbrev pub stage_to_grpc : Stage → Option PbStage
  stage_to_grpc st = elim (kind_to_grpc st.kind) [
    | none ↦ none
    | some k ↦ some (record {
      kind = k;
      description = description_value st.description;
      sub_passes = map (sub_pass_to_grpc k) st.sub_passes;
    })
  ]

  abbrev pub stage_from_grpc : PbStage → Option Stage
  stage_from_grpc st = elim (kind_from_grpc st.kind) [
    | none ↦ none
    | some k ↦ some (record {
      kind = k;
      description = description_name st.description;
      sub_passes = map (sub_pass_from_grpc st.kind) st.sub_passes;
    })
  ]

-- A loop that fails at the first element that cannot be converted.
abbrev pub all_or_none {ℓ} : {A B : Type ℓ} → (A → Option B) → List A → Option (List B)
all_or_none f [] = some []
all_or_none f (x ∷ xs) =
    let rest = all_or_none f xs in
    elim (f x) [ none ↦ none | some y ↦ elim rest [ none ↦ none | some ys ↦ some (y ∷ ys) ] ]

module _ (names : EnumNames) where
  -- `ConvertToGRPCStages`
  unfoldable pub convert_to_grpc_stages : List Stage → Option (List PbStage)
  convert_to_grpc_stages = all_or_none (stage_to_grpc names)

  -- `ConvertFromGRPCStages`
  unfoldable pub convert_from_grpc_stages : List PbStage → Option (List Stage)
  convert_from_grpc_stages = all_or_none (stage_from_grpc names)
