-- ===== src/Compiler/Packet.antt =====
-- app/compilers/orchestrator/compiler_service.py: the packet of a runtime, as `model_dump` gives it.
use ai_video_replication.Common.{
  Bool, true, false, Option, none, some, List, [], ◌∷◌, String, ◌==◌, ℤ, pos, ◌+ℤ◌, leb_ℤ,
  option_is, select, find, length,
}
use ai_video_replication.Common.Json.{
  Json, null, boolean, int, str, arr, obj, Items, nil, cons, Dict, empty, entry,
}
use ai_video_replication.Projects.{Sequence, Spu, Vbu, Bridge, Database, order_by}
use ai_video_replication.Compiler.{CompileRequest}

abbrev pub text_or_null : Option String → Json
text_or_null none = null
text_or_null (some s) = str s

abbrev pub int_or_null : Option ℤ → Json
int_or_null none = null
int_or_null (some n) = int n

abbrev pub items : {A : Type 0} → (A → Dict) → List A → Items
items f [] = nil
items f (a ∷ rest) = cons (obj (f a)) (items f rest)

abbrev pub spu_packet : Spu → Dict
spu_packet item = entry "spu_id" (str item.id) (
    entry "spu_code" (str item.spu_code) (
      entry "display_name" (str item.display_name) (
        entry "asset_role" (str item.asset_role) (
          entry "duration_ms" (int item.duration_ms) (
            entry "generation_mode" (str item.generation_mode) (
              entry "prompt_text" (text_or_null item.prompt_text) (
                entry "negative_prompt_text" (text_or_null item.negative_prompt_text) (
                  entry "visual_constraints" (obj item.visual_constraints)
                    (entry "status" (str item.status) empty)))))))))

abbrev pub vbu_packet : Vbu → Dict
vbu_packet item = entry "vbu_id" (str item.id) (
    entry "vbu_code" (str item.vbu_code) (
      entry "persuasive_role" (str item.persuasive_role) (
        entry "script_text" (str item.script_text) (
          entry "voice_profile" (text_or_null item.voice_profile) (
            entry "language" (str item.language) (
              entry "duration_ms" (int_or_null item.duration_ms) (
                entry "tts_params" (obj item.tts_params)
                  (entry "status" (str item.status) empty))))))))

abbrev pub bridge_packet : Bridge → Dict
bridge_packet item = entry "bridge_id" (str item.id) (
    entry "bridge_code" (str item.bridge_code) (
      entry "bridge_type" (str item.bridge_type) (
        entry "spu_id" (text_or_null item.spu_id) (
          entry "vbu_id" (text_or_null item.vbu_id) (
            entry "execution_order" (int item.execution_order) (
              entry "transition_policy" (obj item.transition_policy)
                (entry "status" (str item.status) empty)))))))

-- The rows of a project.
pub record Parts : Type 0 where
  pub sequences : List Sequence
  pub spus : List Spu
  pub vbus : List Vbu
  pub bridges : List Bridge

abbrev pub earlier : Sequence → Sequence → Bool
earlier a b = leb_ℤ a.sequence_index b.sequence_index

abbrev pub runs_first : Bridge → Bridge → Bool
runs_first a b = leb_ℤ a.execution_order b.execution_order

abbrev pub parts_of : Database → String → Parts
parts_of db project_id = record {
  sequences = order_by earlier (select (λ s. s.project_id == project_id) db.sequences);
  spus = select (λ s. s.project_id == project_id) db.spus;
  vbus = select (λ v. v.project_id == project_id) db.vbus;
  bridges = order_by runs_first (select (λ b. b.project_id == project_id) db.bridges);
}

abbrev pub spus_of : Parts → Sequence → List Spu
spus_of parts sequence = select (λ s. option_is s.sequence_id sequence.id) parts.spus

abbrev pub vbus_of : Parts → Sequence → List Vbu
vbus_of parts sequence = select (λ v. option_is v.sequence_id sequence.id) parts.vbus

abbrev pub bridges_of : Parts → Sequence → List Bridge
bridges_of parts sequence = select (λ b. b.sequence_id == sequence.id) parts.bridges

-- The duration of the first SPU of a sequence that is its primary visual.
abbrev pub target_duration_ms : Parts → Sequence → Option ℤ
target_duration_ms parts sequence =
    elim (find (λ s. s.asset_role == "primary_visual") (spus_of parts sequence)) [
      | none ↦ none
      | some primary_spu ↦ some primary_spu.duration_ms
    ]

abbrev pub has_any : {A : Type 0} → List A → Bool
has_any [] = false
has_any (a ∷ rest) = true

abbrev pub sequence_packet : Parts → Sequence → Dict
sequence_packet parts s = entry "sequence_id" (str s.id) (
    entry "sequence_index" (int s.sequence_index) (
      entry "sequence_type" (str s.sequence_type) (
        entry "persuasive_goal" (text_or_null s.persuasive_goal) (
          entry "target_duration_ms" (int_or_null (target_duration_ms parts s)) (
            entry "has_voice" (boolean (has_any (vbus_of parts s))) (
              entry "spus" (arr (items spu_packet (spus_of parts s))) (
                entry "vbus" (arr (items vbu_packet (vbus_of parts s)))
                  (entry "bridges" (arr (items bridge_packet (bridges_of parts s))) empty))))))))

abbrev pub plus_duration : Option ℤ → ℤ → ℤ
plus_duration none total = total
plus_duration (some d) total = d +ℤ total

unfoldable pub target_total_duration_ms : Parts → List Sequence → ℤ
unfolding ◌+ℤ◌
target_total_duration_ms parts [] = pos 0
target_total_duration_ms parts (s ∷ rest) =
    plus_duration (target_duration_ms parts s) (target_total_duration_ms parts rest)

-- `RuntimePacket(...).model_dump(mode="json")`
unfoldable pub runtime_packet : CompileRequest → String → Parts → Dict
runtime_packet request runtime_version parts = entry "project_id" (str request.project_id) (
    entry "runtime_version" (str runtime_version) (
      entry "compile_reason" (str request.compile_reason) (
        entry "compile_options" (obj request.compile_options) (
          entry "visual_track_count" (int (pos (length parts.spus))) (
            entry "audio_track_count" (int (pos (length parts.vbus))) (
              entry "bridge_count" (int (pos (length parts.bridges))) (
                entry "sequence_count" (int (pos (length parts.sequences))) (
                  entry "target_total_duration_ms"
                    (int (target_total_duration_ms parts parts.sequences))
                    (entry "sequences" (arr (items (sequence_packet parts) parts.sequences))
                      empty)))))))))
