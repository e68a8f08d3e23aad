-- ===== src/Compiler/Prompt.antt =====
-- app/compilers/orchestrator/compiler_service.py: the prompt of the image job.
use ai_video_replication.Common.{
  Bool, ◌&&◌, if◌then◌else◌, Option, none, some, List, [], ◌∷◌, ◌++◌, String, ◌==◌, pos, leb_ℤ,
  select, find, truthy,
}
use ai_video_replication.Common.Json.{Json, int, str, obj, Dict, empty, entry}
use ai_video_replication.Common.Strings.{◌<>◌, strip, nonblank, join_with, or_blank, str_ℤ}
use ai_video_replication.Projects.{Project, Sequence, Spu, Database, order_by}
use ai_video_replication.Compiler.Packet.{text_or_null, earlier}

-- `_normalize_optional_text`
abbrev pub normalize_optional_text : Option String → Option String
normalize_optional_text none = none
normalize_optional_text (some s) = nonblank (strip s)

abbrev pub older : Spu → Spu → Bool
older a b = leb_ℤ a.created_at b.created_at

-- `(spu.prompt_text or "").strip()`
abbrev pub has_prompt : Spu → Bool
has_prompt spu = truthy (strip (or_blank spu.prompt_text))

-- `if text: segments.append(label + text.strip())`
abbrev pub noted : String → Option String → List String
noted label none = []
noted label (some s) = if truthy s then (label <> strip s) ∷ [] else []

abbrev pub project_segments : Option Project → List String
project_segments none = []
project_segments (some project) =
    ("Project: " <> project.name)
    ∷ ("Target market: " <> project.source_market)
    ∷ ("Target language: " <> project.source_language)
    ∷ noted "Project notes: " project.notes

abbrev pub sequence_description : Sequence → String
sequence_description s = join_with " - " (
    select truthy
      (("Sequence " <> str_ℤ s.sequence_index) ∷ s.sequence_type ∷ noted "" s.persuasive_goal))

abbrev pub descriptions : List Sequence → List String
descriptions [] = []
descriptions (s ∷ rest) = sequence_description s ∷ descriptions rest

abbrev pub plan_segments : List Sequence → List String
plan_segments [] = []
plan_segments (s ∷ rest) = ("Sequence plan: " <> join_with " | " (descriptions (s ∷ rest))) ∷ []

abbrev pub subject : Spu → String
subject spu = "Primary visual subject: " <> spu.display_name

abbrev pub first_subject : List Spu → List String
first_subject [] = []
first_subject (spu ∷ rest) = subject spu ∷ []

module _ (repr : Json → String) where
  abbrev pub constraint_segments : Dict → List String
  constraint_segments empty = []
  constraint_segments (entry k v d) = ("Visual constraints: " <> repr (obj (entry k v d))) ∷ []

  abbrev pub spu_segments : List Spu → Option Spu → List String
  spu_segments spus none = first_subject spus
  spu_segments spus (some primary_spu) =
      subject primary_spu
      ∷ strip (or_blank primary_spu.prompt_text)
      ∷ constraint_segments primary_spu.visual_constraints

  -- `"\n".join(segment for segment in prompt_segments if ...).strip()`
  abbrev pub prompt_of : Option Project → List Sequence → List Spu → Option Spu → String
  prompt_of project sequences spus primary_spu = strip (
      join_with "\n" (
        select (λ s. truthy s && truthy (strip s))
          (project_segments project ++ (plan_segments sequences ++ spu_segments spus primary_spu))))

  abbrev pub render_image_payload : String → String → Option String → Dict
  render_image_payload runtime_version prompt negative_prompt = entry "prompt" (str prompt) (
      entry "negative_prompt" (text_or_null negative_prompt) (
        entry "provider_inputs"
          (obj (
            entry "prompt" (str prompt) (
              entry "negative_prompt" (text_or_null negative_prompt) (
                entry "sample_count" (int (pos 1)) (
                  entry "aspect_ratio" (str "9:16") (
                    entry "source" (str "compiler_minimal_render_image_prompt_v1")
                      (entry "runtime_version" (str runtime_version) empty)))))))
          empty))

  unfoldable pub build_render_image_payload : Database → String → String → Dict
  build_render_image_payload db project_id runtime_version =
      let spus = order_by older (select (λ s. s.project_id == project_id) db.spus) in
      let primary_spu = find has_prompt spus in
      render_image_payload runtime_version
        (prompt_of (find (λ p. p.id == project_id) db.projects)
          (order_by earlier (select (λ s. s.project_id == project_id) db.sequences)) spus
          primary_spu)
        (elim primary_spu [
          | none ↦ none
          | some spu ↦ normalize_optional_text spu.negative_prompt_text
        ])
