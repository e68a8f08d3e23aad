-- ===== src/Blueprint/Compile.antt =====
-- app/compilers/orchestrator/blueprint_compiler.py: the packet of a blueprint. `uuid5` gives the text of
-- the id of a name in the namespace of blueprints.
use ai_video_replication.Common.{
  ℕ, ◌+◌, Bool, false, Option, none, some, List, [], ◌∷◌, String, pos, leb_ℤ, length, given, or_str,
}
use ai_video_replication.Common.Json.{
  Json, null, boolean, int, str, arr, obj, Items, nil, cons, Dict, empty, entry, get, put,
}
use ai_video_replication.Common.Strings.{◌<>◌, join_with}
use ai_video_replication.Projects.{order_by}
use ai_video_replication.Compiler.Packet.{text_or_null, int_or_null, items}
use ai_video_replication.Blueprint.{
  ReferenceMapping, ReferenceBeat, Reference, BlueprintSpu, BlueprintVbu, BlueprintBridge,
  BlueprintSequence, BlueprintV0,
}

abbrev pub text_items : List String → Items
text_items [] = nil
text_items (s ∷ rest) = cons (str s) (text_items rest)

abbrev pub texts : List String → Json
texts l = arr (text_items l)

abbrev pub mapping_dump : ReferenceMapping → Dict
mapping_dump m = entry "source_moments" (texts m.source_moments) (
    entry "preserved_elements" (texts m.preserved_elements)
      (entry "rewrite_axes" (texts m.rewrite_axes) empty))

abbrev pub beat_dump : ReferenceBeat → Dict
beat_dump b = entry "beat_code" (str b.beat_code) (
    entry "sequence_code" (str b.sequence_code) (
      entry "structural_function" (str b.structural_function)
        (entry "summary" (str b.summary) (entry "rewrite_notes" (texts b.rewrite_notes) empty))))

unfoldable pub build_reference_payload : Reference → Dict
build_reference_payload r = entry "source_kind" (str r.source_kind) (
    entry "source_uri" (text_or_null r.source_uri) (
      entry "structural_goal" (str r.structural_goal) (
        entry "retained_axes" (texts r.retained_axes) (
          entry "swappable_axes" (texts r.swappable_axes) (
            entry "reference_beats" (arr (items beat_dump r.reference_beats))
              (entry "notes" (texts r.notes) empty))))))

-- `d.setdefault(key, value)`
abbrev pub set_default : String → Json → Dict → Dict
set_default key value d = elim (get key d) [ none ↦ put key value d | some _ ↦ d ]

unfoldable pub blueprint_options : BlueprintV0 → Dict
blueprint_options b = set_default "reference" (obj (build_reference_payload b.reference)) (
    set_default "target_duration_ms" (int_or_null b.global_constraints.target_duration_ms) (
      set_default "banned_elements" (texts b.global_constraints.banned_elements) (
        set_default "style_tags" (texts b.global_constraints.style_tags) (
          set_default "aspect_ratio" (str b.global_constraints.aspect_ratio) (
            set_default "blueprint_version" (str b.blueprint_version) (
              set_default "blueprint_id" (str b.blueprint_id)
                b.compile_preferences.compile_options))))))

abbrev pub by_index : BlueprintSequence → BlueprintSequence → Bool
by_index a b = leb_ℤ a.sequence_index b.sequence_index

abbrev pub by_order : BlueprintBridge → BlueprintBridge → Bool
by_order a b = leb_ℤ a.execution_order b.execution_order

abbrev pub spu_total : List BlueprintSequence → ℕ
spu_total [] = 0
spu_total (s ∷ rest) = length s.spus + spu_total rest

abbrev pub vbu_total : List BlueprintSequence → ℕ
vbu_total [] = 0
vbu_total (s ∷ rest) = length s.vbus + vbu_total rest

abbrev pub bridge_total : List BlueprintSequence → ℕ
bridge_total [] = 0
bridge_total (s ∷ rest) = length s.bridges + bridge_total rest

module _ (uuid5 : String → String) where
  abbrev pub stable_uuid : String → List String → String
  stable_uuid kind parts = uuid5 (join_with "::" (kind ∷ parts))

  -- The id of a unit of a sequence, by its kind and its code
  abbrev pub unit_id : String → BlueprintV0 → BlueprintSequence → String → String
  unit_id kind blueprint sequence code =
      stable_uuid kind (blueprint.blueprint_id ∷ sequence.sequence_code ∷ code ∷ [])

  -- `str(_stable_uuid(...)) if code else None`
  abbrev pub bound_id : String → BlueprintV0 → BlueprintSequence → Option String → Json
  bound_id kind blueprint sequence code = elim (given code) [
    | none ↦ null
    | some c ↦ str (unit_id kind blueprint sequence c)
  ]

  unfoldable pub compile_spu : BlueprintV0 → BlueprintSequence → BlueprintSpu → Dict
  compile_spu blueprint sequence spu =
      entry "spu_id" (str (unit_id "spu" blueprint sequence spu.spu_code)) (
        entry "spu_code" (str spu.spu_code) (
          entry "display_name" (str spu.display_name) (
            entry "asset_role" (str spu.asset_role) (
              entry "duration_ms" (int spu.duration_ms) (
                entry "generation_mode" (str spu.generation_mode) (
                  entry "prompt_text" (text_or_null spu.prompt_text) (
                    entry "negative_prompt_text" (text_or_null spu.negative_prompt_text) (
                      entry "visual_constraints" (obj spu.visual_constraints) (
                        entry "status" (str spu.status) (
                          entry "reference_mapping" (obj (mapping_dump spu.reference_mapping))
                            (entry "sequence_code" (str sequence.sequence_code) empty)))))))))))

  unfoldable pub compile_vbu : BlueprintV0 → BlueprintSequence → BlueprintVbu → Dict
  compile_vbu blueprint sequence vbu =
      entry "vbu_id" (str (unit_id "vbu" blueprint sequence vbu.vbu_code)) (
        entry "vbu_code" (str vbu.vbu_code) (
          entry "persuasive_role" (str vbu.persuasive_role) (
            entry "script_text" (str vbu.script_text) (
              entry "voice_profile" (text_or_null vbu.voice_profile) (
                entry "language" (str (or_str vbu.language blueprint.source_language)) (
                  entry "duration_ms" (int_or_null vbu.duration_ms) (
                    entry "tts_params" (obj vbu.tts_params) (
                      entry "status" (str vbu.status) (
                        entry "reference_mapping" (obj (mapping_dump vbu.reference_mapping))
                          (entry "sequence_code" (str sequence.sequence_code) empty))))))))))

  unfoldable pub compile_bridge : BlueprintV0 → BlueprintSequence → BlueprintBridge → Dict
  compile_bridge blueprint sequence bridge =
      entry "bridge_id" (str (unit_id "bridge" blueprint sequence bridge.bridge_code)) (
        entry "bridge_code" (str bridge.bridge_code) (
          entry "bridge_type" (str bridge.bridge_type) (
            entry "execution_order" (int bridge.execution_order) (
              entry "spu_id" (bound_id "spu" blueprint sequence bridge.spu_code) (
                entry "vbu_id" (bound_id "vbu" blueprint sequence bridge.vbu_code) (
                  entry "spu_code" (text_or_null bridge.spu_code) (
                    entry "vbu_code" (text_or_null bridge.vbu_code) (
                      entry "transition_policy" (obj bridge.transition_policy) (
                        entry "status" (str bridge.status)
                          (entry "sequence_code" (str sequence.sequence_code) empty))))))))))

  unfoldable pub compile_sequence : BlueprintV0 → BlueprintSequence → Dict
  compile_sequence blueprint s =
      entry "sequence_id"
        (str (stable_uuid "sequence" (blueprint.blueprint_id ∷ s.sequence_code ∷ [])))
        (entry "sequence_index" (int s.sequence_index) (
          entry "sequence_type" (str s.sequence_type) (
            entry "persuasive_goal" (text_or_null s.persuasive_goal) (
              entry "target_duration_ms" null (
                entry "has_voice" (boolean false) (
                  entry "spus" (arr (items (compile_spu blueprint s) s.spus)) (
                    entry "vbus" (arr (items (compile_vbu blueprint s) s.vbus)) (
                      entry "bridges"
                        (arr (items (compile_bridge blueprint s) (order_by by_order s.bridges)))
                        empty))))))))

  -- The packet's `sequence_count` and `target_total_duration_ms` keep their defaults.
  unfoldable pub compile_blueprint_v0_to_runtime_packet : BlueprintV0 → Dict
  compile_blueprint_v0_to_runtime_packet b =
      entry "project_id" (str (stable_uuid "project" (b.blueprint_id ∷ []))) (
        entry "runtime_version"
          (str (or_str b.compile_preferences.requested_runtime_version (b.blueprint_id <> ".stub")))
          (entry "compile_reason" (str b.compile_preferences.compile_reason) (
            entry "compile_options" (obj (blueprint_options b)) (
              entry "visual_track_count" (int (pos (spu_total b.sequences))) (
                entry "audio_track_count" (int (pos (vbu_total b.sequences))) (
                  entry "bridge_count" (int (pos (bridge_total b.sequences))) (
                    entry "sequence_count" (int (pos 0)) (
                      entry "target_total_duration_ms" (int (pos 0)) (
                        entry "sequences"
                          (arr (items (compile_sequence b) (order_by by_index b.sequences)))
                          empty)))))))))
