-- ===== src/Validation.antt =====
-- app/services/compile_validator_service.py: whether the parts of a project can be compiled. Ids are
-- texts.
pub mod Bindings
use ai_video_replication.Common.{
  ℕ, Bool, true, false, not, if◌then◌else◌, Option, none, some, List, [], ◌∷◌, ◌++◌, String, ◌==◌,
  any, select, find, length,
}
use ai_video_replication.Common.Text.{Text, codes}
use ai_video_replication.Projects.{Sequence, Spu, Vbu, Bridge, Database}
use ai_video_replication.Store.{Exn, value_error, Result, ok, err}

pub record Counts : Type 0 where
  pub sequences : ℕ
  pub spus : ℕ
  pub vbus : ℕ
  pub bridges : ℕ

pub record Validation : Type 0 where
  pub project_id : String
  pub is_valid : Bool
  pub errors : List Text
  pub warnings : List Text
  pub counts : Counts

abbrev pub is_empty : {A : Type 0} → List A → Bool
is_empty [] = true
is_empty (_ ∷ _) = false

-- `if not rows: messages.append(code)`
abbrev pub missing : {A : Type 0} → List A → String → List Text
missing [] code = codes code ∷ []
missing (_ ∷ _) code = []

-- `x in sequence_ids`
abbrev pub is_sequence : List Sequence → String → Bool
is_sequence sequences id = any (λ s. s.id == id) sequences

-- `x.sequence_id and x.sequence_id not in sequence_ids`: a UUID is never false
abbrev pub dangling : List Sequence → Option String → Bool
dangling sequences none = false
dangling sequences (some id) = not (is_sequence sequences id)

abbrev pub spu_errors : List Sequence → List Spu → List Text
spu_errors sequences [] = []
spu_errors sequences (spu ∷ rest) =
    if dangling sequences spu.sequence_id
    then (codes "spu_sequence_missing:" ++ codes spu.spu_code) ∷ spu_errors sequences rest
    else spu_errors sequences rest

abbrev pub vbu_errors : List Sequence → List Vbu → List Text
vbu_errors sequences [] = []
vbu_errors sequences (vbu ∷ rest) =
    if dangling sequences vbu.sequence_id
    then (codes "vbu_sequence_missing:" ++ codes vbu.vbu_code) ∷ vbu_errors sequences rest
    else vbu_errors sequences rest

abbrev pub bridge_errors : List Sequence → List Bridge → List Text
bridge_errors sequences [] = []
bridge_errors sequences (bridge ∷ rest) =
    if not (is_sequence sequences bridge.sequence_id)
    then (codes "bridge_sequence_missing:" ++ codes bridge.bridge_code)
      ∷ bridge_errors sequences rest
    else bridge_errors sequences rest

abbrev pub errors_of : List Sequence → List Spu → List Vbu → List Bridge → List Text
errors_of sequences spus vbus bridges =
    missing sequences "missing_sequences"
    ++ (missing spus "missing_spus"
        ++ (spu_errors sequences spus
            ++ (vbu_errors sequences vbus ++ bridge_errors sequences bridges)))

-- The part of `validate_project` that follows the queries.
unfoldable pub validate : String → List Sequence → List Spu → List Vbu → List Bridge → Validation
validate project_id sequences spus vbus bridges = record {
  project_id = project_id;
  is_valid = is_empty (errors_of sequences spus vbus bridges);
  errors = errors_of sequences spus vbus bridges;
  warnings = missing vbus "missing_vbus" ++ missing bridges "missing_bridges";
  counts = record {
    sequences = length sequences;
    spus = length spus;
    vbus = length vbus;
    bridges = length bridges;
  };
}

unfoldable pub validate_project : Database → String → Result Validation
unfolding validate
validate_project db project_id = elim (find (λ p. p.id == project_id) db.projects) [
  | none ↦ err (value_error (codes "project_not_found"))
  | some _ ↦ ok (
      validate project_id (select (λ x. x.project_id == project_id) db.sequences)
        (select (λ x. x.project_id == project_id) db.spus)
        (select (λ x. x.project_id == project_id) db.vbus)
        (select (λ x. x.project_id == project_id) db.bridges))
]
