-- ===== src/Blueprint/Consistency.antt =====
-- app/schemas/blueprint.py: `validate_consistency`. A set is a list of what was added to it.
use ai_video_replication.Common.{
  ℕ, ◌+◌, Bool, false, not, ◌&&◌, ◌||◌, if◌then◌else◌, Option, none, some, List, [], ◌∷◌, String,
  ◌==◌, ℤ, leb_ℤ, nat_eq, any, map, length, given,
}
use ai_video_replication.Common.Strings.{◌<>◌, str_ℤ}
use ai_video_replication.Projects.Session.{Exn, value_error, Outcome, returned, raised, and_then}
use ai_video_replication.Validation.{is_empty}
use ai_video_replication.Blueprint.{ReferenceBeat, BlueprintBridge, BlueprintSequence, BlueprintV0}

abbrev pub has_code : String → List String → Bool
has_code code codes = any (λ c. c == code) codes

abbrev pub same_ℤ : ℤ → ℤ → Bool
same_ℤ a b = leb_ℤ a b && leb_ℤ b a

abbrev pub has_number : ℤ → List ℤ → Bool
has_number n numbers = any (λ m. same_ℤ m n) numbers

-- `len({...}) != len([...])`
abbrev pub repeats : List String → Bool
repeats [] = false
repeats (c ∷ codes) = has_code c codes || repeats codes

-- `for code in codes: if code in seen: raise ...; seen.add(code)`
abbrev pub collect : String → List String → List String → Outcome (List String)
collect message [] seen = returned seen
collect message (c ∷ codes) seen =
    let rest = collect message codes (c ∷ seen) in
    if has_code c seen then raised (value_error (message <> c)) else rest

abbrev pub spu_codes_of : BlueprintSequence → List String
spu_codes_of s = map (λ x. x.spu_code) s.spus

abbrev pub vbu_codes_of : BlueprintSequence → List String
vbu_codes_of s = map (λ x. x.vbu_code) s.vbus

-- `if code and code not in local_codes`
abbrev pub unbound : Option String → List String → Bool
unbound code codes = elim (given code) [ none ↦ false | some c ↦ not (has_code c codes) ]

abbrev pub or_none_text : Option String → String
or_none_text none = "None"
or_none_text (some s) = s

abbrev pub bridge_error : BlueprintSequence → BlueprintBridge → List String → List ℤ → Option Exn
bridge_error s b codes orders =
    if has_code b.bridge_code codes
    then some (value_error ("duplicate_bridge_code:" <> b.bridge_code))
    else if has_number b.execution_order orders
    then some (
        value_error (
          "duplicate_bridge_execution_order:" <> s.sequence_code <> ":" <> str_ℤ b.execution_order))
    else if unbound b.spu_code (spu_codes_of s)
    then some
        (value_error ("bridge_spu_missing:" <> b.bridge_code <> ":" <> or_none_text b.spu_code))
    else if unbound b.vbu_code (vbu_codes_of s)
    then some
        (value_error ("bridge_vbu_missing:" <> b.bridge_code <> ":" <> or_none_text b.vbu_code))
    else none

unfoldable pub check_bridges :
    BlueprintSequence → List BlueprintBridge → List String → List ℤ → Outcome (List String)
check_bridges s [] codes orders = returned codes
check_bridges s (b ∷ bridges) codes orders =
    let rest = check_bridges s bridges (b.bridge_code ∷ codes) (b.execution_order ∷ orders) in
    elim (bridge_error s b codes orders) [ some e ↦ raised e | none ↦ rest ]

-- The codes and indexes of the sequences that were passed.
pub record Seen : Type 0 where
  pub sequence_codes : List String
  pub sequence_indexes : List ℤ
  pub spu_codes : List String
  pub vbu_codes : List String
  pub bridge_codes : List String

abbrev pub sequence_error : BlueprintSequence → Seen → Option Exn
sequence_error s seen =
    if has_code s.sequence_code seen.sequence_codes
    then some (value_error ("duplicate_sequence_code:" <> s.sequence_code))
    else if has_number s.sequence_index seen.sequence_indexes
    then some (value_error ("duplicate_sequence_index:" <> str_ℤ s.sequence_index))
    else if is_empty s.spus && is_empty s.vbus
    then some (value_error ("sequence_requires_spu_or_vbu:" <> s.sequence_code))
    else if repeats (spu_codes_of s)
    then some (value_error ("duplicate_sequence_spu_code:" <> s.sequence_code))
    else if repeats (vbu_codes_of s)
    then some (value_error ("duplicate_sequence_vbu_code:" <> s.sequence_code))
    else none

-- One round of the loop over the sequences
unfoldable pub check_sequence : BlueprintSequence → Seen → Outcome Seen
unfolding check_bridges
check_sequence s seen = elim (sequence_error s seen) [
  | some e ↦ raised e
  | none ↦ and_then (collect "duplicate_spu_code:" (spu_codes_of s) seen.spu_codes) λ spu_codes.
      and_then (collect "duplicate_vbu_code:" (vbu_codes_of s) seen.vbu_codes) λ vbu_codes.
        and_then (check_bridges s s.bridges seen.bridge_codes []) λ bridge_codes. returned record {
          sequence_codes = s.sequence_code ∷ seen.sequence_codes;
          sequence_indexes = s.sequence_index ∷ seen.sequence_indexes;
          spu_codes = spu_codes;
          vbu_codes = vbu_codes;
          bridge_codes = bridge_codes;
        }
]

unfoldable pub check_sequences : List BlueprintSequence → Seen → Outcome Seen
check_sequences [] seen = returned seen
check_sequences (s ∷ rest) seen = and_then (check_sequence s seen) (check_sequences rest)

unfoldable pub check_beats : List String → List ReferenceBeat → List String → Outcome (Unit {0})
check_beats sequence_codes [] seen = returned tt
check_beats sequence_codes (b ∷ beats) seen =
    let rest = check_beats sequence_codes beats (b.beat_code ∷ seen) in
    if has_code b.beat_code seen
    then raised (value_error ("duplicate_reference_beat_code:" <> b.beat_code))
    else if not (has_code b.sequence_code sequence_codes)
    then raised
        (value_error ("reference_beat_sequence_missing:" <> b.beat_code <> ":" <> b.sequence_code))
    else rest

abbrev pub total_spus : List BlueprintSequence → ℕ
total_spus [] = 0
total_spus (s ∷ rest) = length s.spus + total_spus rest

abbrev pub none_seen : Seen
none_seen = record {
  sequence_codes = [];
  sequence_indexes = [];
  spu_codes = [];
  vbu_codes = [];
  bridge_codes = [];
}

unfoldable pub validate_consistency : BlueprintV0 → Outcome (Unit {0})
validate_consistency blueprint = and_then (check_sequences blueprint.sequences none_seen) λ seen.
    if nat_eq (total_spus blueprint.sequences) 0
    then raised (value_error "blueprint_requires_at_least_one_spu")
    else check_beats seen.sequence_codes blueprint.reference.reference_beats []
