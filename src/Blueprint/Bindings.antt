-- ===== src/Blueprint/Bindings.antt =====
-- The units that the bridges of a consistent blueprint name.
use ai_video_replication.Common.{
  ◌≡◌, refl, arith, true, false, Bool-cases, not-false, none, some, List, [], ◌∷◌, String, ◌==◌, ℤ,
  eq_iff, map, find, All, given, inl, inr, Option-cases,
}
use ai_video_replication.Common.Json.{get}
use ai_video_replication.Projects.Session.{Outcome, returned, raised, and_then}
use ai_video_replication.Blueprint.{
  BlueprintSpu, BlueprintVbu, BlueprintBridge, BlueprintSequence, BlueprintV0,
}
use ai_video_replication.Blueprint.Consistency.{
  has_code, unbound, spu_codes_of, vbu_codes_of, bridge_error, check_bridges, Seen, sequence_error,
  collect, check_sequence, check_sequences, none_seen, validate_consistency,
}
use ai_video_replication.Blueprint.Compile.{bound_id, compile_spu, compile_vbu, compile_bridge}

-- The codes that a bridge names are codes of its sequence.
record Bound (s : BlueprintSequence) (b : BlueprintBridge) : Type 0 where
  spu_bound : unbound b.spu_code (spu_codes_of s) ≡ false
  vbu_bound : unbound b.vbu_code (vbu_codes_of s) ≡ false

bridge_error-Bound :
    (s : BlueprintSequence) (b : BlueprintBridge) (codes : List String) (orders : List ℤ)
    → bridge_error s b codes orders ≡ none
    → Bound s b
bridge_error-Bound s b codes orders h = record {
  spu_bound = ground arith;
  vbu_bound = ground arith;
}

check_bridges-Bound :
    (s : BlueprintSequence) (bridges : List BlueprintBridge) (codes seen : List String)
    (orders : List ℤ)
    → check_bridges s bridges codes orders ≡ returned seen
    → All (Bound s) bridges
unfolding check_bridges
check_bridges-Bound s [] codes seen orders h = tt
check_bridges-Bound s (b ∷ bridges) codes seen orders h =
    elim (Option-cases (bridge_error s b codes orders)) [
      | inl e ↦ (
        bridge_error-Bound s b codes orders e,
        check_bridges-Bound s bridges (b.bridge_code ∷ codes) seen (b.execution_order ∷ orders)
            (rw (e, check_bridges) at h),
      )
      | inr (x, e) ↦ absurd (let g = rw (e, check_bridges) at h in cc)
    ]

-- A step of a chain that returned has returned too.
and_then-returned :
    {A B : Type 0} (o : Outcome A) (f : A → Outcome B) (b : B)
    → and_then o f ≡ returned b
    → (a : A) × (o ≡ returned a) × (f a ≡ returned b)
and_then-returned (returned a) f b h = (a, refl, h)
and_then-returned (raised e) f b h = absurd cc

AllBound : BlueprintSequence → Type 0
AllBound s = All (Bound s) s.bridges

check_sequence-AllBound :
    (s : BlueprintSequence) (seen after : Seen)
    → check_sequence s seen ≡ returned after
    → AllBound s
unfolding check_sequence AllBound
check_sequence-AllBound s seen after h = elim (Option-cases (sequence_error s seen)) [
  | inl e ↦
      let (spus, _, h1) =
        and_then-returned (collect "duplicate_spu_code:" (spu_codes_of s) seen.spu_codes) _ after
          (rw (e, check_sequence) at h) in
      let (vbus, _, h2) =
        and_then-returned (collect "duplicate_vbu_code:" (vbu_codes_of s) seen.vbu_codes) _ after
          h1 in
      let (bridges, g, _) =
        and_then-returned (check_bridges s s.bridges seen.bridge_codes []) _ after h2 in
      check_bridges-Bound s s.bridges seen.bridge_codes bridges [] g
  | inr (x, e) ↦ absurd (let g = rw (e, check_sequence) at h in cc)
]

check_sequences-AllBound :
    (sequences : List BlueprintSequence) (seen after : Seen)
    → check_sequences sequences seen ≡ returned after
    → All AllBound sequences
unfolding check_sequences
check_sequences-AllBound [] seen after h = tt
check_sequences-AllBound (s ∷ rest) seen after h =
    let (one, g, k) = and_then-returned (check_sequence s seen) (check_sequences rest) after h in
    (check_sequence-AllBound s seen one g, check_sequences-AllBound rest one after k)

find-spu :
    (c : String) (spus : List BlueprintSpu)
    → has_code c (map (λ x. x.spu_code) spus) ≡ true
    → (x : BlueprintSpu) × (find (λ x. x.spu_code == c) spus ≡ some x) × (x.spu_code ≡ c)
find-spu c [] h = absurd cc
find-spu c (x ∷ spus) h = elim (Bool-cases (x.spu_code == c)) [
  | inl e ↦ (x, rw e refl, (eq_iff x.spu_code c).0 e)
  | inr e ↦ let (y, f, g) = find-spu c spus (rw e at h) in (y, rw e f, g)
]

find-vbu :
    (c : String) (vbus : List BlueprintVbu)
    → has_code c (map (λ x. x.vbu_code) vbus) ≡ true
    → (x : BlueprintVbu) × (find (λ x. x.vbu_code == c) vbus ≡ some x) × (x.vbu_code ≡ c)
find-vbu c [] h = absurd cc
find-vbu c (x ∷ vbus) h = elim (Bool-cases (x.vbu_code == c)) [
  | inl e ↦ (x, rw e refl, (eq_iff x.vbu_code c).0 e)
  | inr e ↦ let (y, f, g) = find-vbu c vbus (rw e at h) in (y, rw e f, g)
]

module _ (uuid5 : String → String) (blueprint : BlueprintV0) where
  -- The ids in the packet of a bridge are those in the packets of a unit of the same sequence.
  pub record Resolved (s : BlueprintSequence) (b : BlueprintBridge) : Type 0 where
    pub to_spu :
        (c : String)
        → given b.spu_code ≡ some c
        → (x : BlueprintSpu) × (find (λ x. x.spu_code == c) s.spus ≡ some x)
          × (get "spu_id" (compile_bridge uuid5 blueprint s b)
              ≡ get "spu_id" (compile_spu uuid5 blueprint s x))
    pub to_vbu :
        (c : String)
        → given b.vbu_code ≡ some c
        → (x : BlueprintVbu) × (find (λ x. x.vbu_code == c) s.vbus ≡ some x)
          × (get "vbu_id" (compile_bridge uuid5 blueprint s b)
              ≡ get "vbu_id" (compile_vbu uuid5 blueprint s x))

  Bound-Resolved : (s : BlueprintSequence) (b : BlueprintBridge) → Bound s b → Resolved s b
  unfolding compile_bridge compile_spu compile_vbu get
  Bound-Resolved s b h = record {
    to_spu = λ c e.
        let t : has_code c (spu_codes_of s) ≡ true =
          not-false _ (let g = rw (e, unbound) at h.spu_bound in g) in
        let (x, f, g) = find-spu c s.spus t in (x, f, rw (e, bound_id, g) refl);
    to_vbu = λ c e.
        let t : has_code c (vbu_codes_of s) ≡ true =
          not-false _ (let g = rw (e, unbound) at h.vbu_bound in g) in
        let (x, f, g) = find-vbu c s.vbus t in (x, f, rw (e, bound_id, g) refl);
  }

  bridges-Resolved :
      (s : BlueprintSequence) (bridges : List BlueprintBridge)
      → All (Bound s) bridges
      → All (Resolved s) bridges
  bridges-Resolved s [] h = tt
  bridges-Resolved s (b ∷ bridges) (h, rest) =
      (Bound-Resolved s b h, bridges-Resolved s bridges rest)

  sequences-Resolved :
      (sequences : List BlueprintSequence)
      → All AllBound sequences
      → All (λ s. All (Resolved s) s.bridges) sequences
  unfolding AllBound
  sequences-Resolved [] h = tt
  sequences-Resolved (s ∷ rest) (h, k) = (bridges-Resolved s s.bridges h, sequences-Resolved rest k)

  -- If a blueprint is consistent, then whatever the ids are, the SPU and the VBU that a bridge names
  -- are in its sequence, and in the compiled packets the bridge carries their ids.
  pub validate_consistency-Resolved :
      validate_consistency blueprint ≡ returned tt
      → All (λ s. All (Resolved s) s.bridges) blueprint.sequences
  unfolding validate_consistency
  validate_consistency-Resolved h =
      let (seen, g, _) = and_then-returned (check_sequences blueprint.sequences none_seen) _ tt h in
      sequences-Resolved blueprint.sequences
        (check_sequences-AllBound blueprint.sequences none_seen seen g)
