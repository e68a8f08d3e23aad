-- ===== src/Validation/Bindings.antt =====
-- The verdict on a project, said of its sequences and of what refers to them.
use ai_video_replication.Common.{◌≡◌, ◌&&◌, refl, not, List, [], ◌∷◌, ◌++◌, String, arith, all}
use ai_video_replication.Projects.{Sequence, Spu, Vbu, Bridge}
use ai_video_replication.Validation.{
  Validation, is_empty, missing, is_sequence, dangling, spu_errors, vbu_errors, bridge_errors,
  validate,
}

is_empty-append : {A : Type 0} (xs ys : List A) → is_empty (xs ++ ys) ≡ (is_empty xs && is_empty ys)
is_empty-append [] ys = refl
is_empty-append (x ∷ xs) ys = refl

is_empty-missing :
    {A : Type 0} (xs : List A) (code : String) → is_empty (missing xs code) ≡ not (is_empty xs)
is_empty-missing [] code = refl
is_empty-missing (x ∷ xs) code = refl

is_empty-spu_errors :
    (sequences : List Sequence) (spus : List Spu)
    → is_empty (spu_errors sequences spus) ≡ all (λ x. not (dangling sequences x.sequence_id)) spus
is_empty-spu_errors sequences [] = refl
is_empty-spu_errors sequences (x ∷ xs) = ground (arith, is_empty-spu_errors sequences xs)

is_empty-vbu_errors :
    (sequences : List Sequence) (vbus : List Vbu)
    → is_empty (vbu_errors sequences vbus) ≡ all (λ x. not (dangling sequences x.sequence_id)) vbus
is_empty-vbu_errors sequences [] = refl
is_empty-vbu_errors sequences (x ∷ xs) = ground (arith, is_empty-vbu_errors sequences xs)

is_empty-bridge_errors :
    (sequences : List Sequence) (bridges : List Bridge)
    → is_empty (bridge_errors sequences bridges)
      ≡ all (λ x. is_sequence sequences x.sequence_id) bridges
is_empty-bridge_errors sequences [] = refl
is_empty-bridge_errors sequences (x ∷ xs) = ground (arith, is_empty-bridge_errors sequences xs)

-- A project is valid exactly if it has a sequence and an SPU, and the sequence that an SPU or a VBU
-- names, where it names one, and that a bridge names, is one of the project's sequences.
pub validate-is_valid :
    (project_id : String) (sequences : List Sequence) (spus : List Spu) (vbus : List Vbu)
    (bridges : List Bridge)
    → Validation.is_valid (validate project_id sequences spus vbus bridges) ≡ (
        not (is_empty sequences)
        && (not (is_empty spus)
            && (all (λ x. not (dangling sequences x.sequence_id)) spus
                && (all (λ x. not (dangling sequences x.sequence_id)) vbus
                    && all (λ x. is_sequence sequences x.sequence_id) bridges))))
unfolding validate
validate-is_valid project_id sequences spus vbus bridges =
    rw
      (
        is_empty-append (missing sequences "missing_sequences") (
            missing spus "missing_spus"
            ++ (spu_errors sequences spus
                ++ (vbu_errors sequences vbus ++ bridge_errors sequences bridges))),
        is_empty-append (missing spus "missing_spus") (
            spu_errors sequences spus
            ++ (vbu_errors sequences vbus ++ bridge_errors sequences bridges)),
        is_empty-append (spu_errors sequences spus)
            (vbu_errors sequences vbus ++ bridge_errors sequences bridges),
        is_empty-append (vbu_errors sequences vbus) (bridge_errors sequences bridges),
        is_empty-missing sequences "missing_sequences",
        is_empty-missing spus "missing_spus",
        is_empty-spu_errors sequences spus,
        is_empty-vbu_errors sequences vbus,
        is_empty-bridge_errors sequences bridges,
      )
      refl
