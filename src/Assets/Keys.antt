-- ===== src/Assets/Keys.antt =====
-- The names and the object keys of assets, as sequences of components.
use ai_video_replication.Common.{
  ℕ, ◌≡◌, refl, nat_eq, Bool, false, Option, none, some, List, [], ◌∷◌, ◌++◌, String, arith, map,
  truthy, Bool-cases, inl, inr, count, count-append, All,
}
use ai_video_replication.Common.Text.{Text, codes}
use ai_video_replication.Assets.{
  slash, onto_first, parts, is_component, last_component, path_name, underscored, safe_name,
  sequence_scope, build_project_asset_object_key, build_runtime_asset_object_key,
}

abbrev pub is_slash : ℕ → Bool
is_slash c = nat_eq c slash

abbrev pub is_blank : ℕ → Bool
is_blank c = nat_eq c b' '

abbrev Flat : Text → Type 0
Flat t = count is_slash t ≡ 0

onto_first-Flat :
    (c : ℕ) (ps : List Text) → nat_eq c slash ≡ false → All Flat ps → All Flat (onto_first c ps)
onto_first-Flat c [] h a = (ground arith, tt)
onto_first-Flat c (p ∷ ps) h (a, rest) = (ground arith, rest)

parts-Flat : (t : Text) → All Flat (parts t)
parts-Flat [] = (refl, tt)
parts-Flat (c ∷ t) = elim (Bool-cases (nat_eq c slash)) [
  | inl e ↦ rw e (refl, parts-Flat t)
  | inr e ↦ rw e (onto_first-Flat c (parts t) e (parts-Flat t))
]

last_component-Flat :
    (ps : List Text) (found : Text) → All Flat ps → Flat found → Flat (last_component ps found)
last_component-Flat [] found a f = f
last_component-Flat (p ∷ ps) found (a, rest) f = elim (Bool-cases (is_component p)) [
  | inl e ↦ rw e (last_component-Flat ps p rest a)
  | inr e ↦ rw e (last_component-Flat ps found rest f)
]

underscored-Flat : (t : Text) → Flat t → Flat (map underscored t)
underscored-Flat [] f = refl
underscored-Flat (c ∷ t) f = ground (arith, underscored-Flat t)

underscored-blank : (t : Text) → count is_blank (map underscored t) ≡ 0
underscored-blank [] = refl
underscored-blank (c ∷ t) = ground (arith, underscored-blank t)

-- safe_name gives a name without a slash and without a blank, whatever the file was called.
pub safe_name-flat :
    (filename : Option String)
    → (count is_slash (safe_name filename) ≡ 0) × (count is_blank (safe_name filename) ≡ 0)
unfolding safe_name
safe_name-flat none = (refl, refl)
safe_name-flat (some f) = elim (Bool-cases (truthy f)) [
  | inl e ↦ rw e (
    underscored-Flat (path_name (codes f))
        (last_component-Flat (parts (codes f)) [] (parts-Flat (codes f)) refl),
    underscored-blank (path_name (codes f)),
  )
  | inr e ↦ rw e (refl, refl)
]

record SameDepth (t u : Text) : Type 0 where
  same : count is_slash t ≡ count is_slash u

below : (s : Text) {t u : Text} → SameDepth t u → SameDepth (s ++ t) (s ++ u)
below s {t} {u} h = record {
  same = rw (count-append is_slash s t, count-append is_slash s u, h.same) refl;
}

same_depth : (f g : Option String) → SameDepth (safe_name f) (safe_name g)
same_depth f g = record { same = omega (arith, (safe_name-flat f).0, (safe_name-flat g).0) }

runtime-depth :
    (p v j : String) (s f g : Option String)
    → SameDepth
        (build_runtime_asset_object_key p v j f s)
        (build_runtime_asset_object_key p v j g s)
unfolding build_runtime_asset_object_key
runtime-depth p v j none f g = below (codes "projects/") (
    below (codes p) (
      below (codes "/runtime/") (
        below (codes v)
          (below (codes "/") (below (codes j) (below (codes "/") (same_depth f g)))))))
runtime-depth p v j (some s) f g = below (codes "projects/") (
    below (codes p) (
      below (codes "/runtime/") (
        below (codes v) (
          below (codes "/") (
            below (codes "sequences/") (
              below (codes s)
                (below (codes "/") (below (codes j) (below (codes "/") (same_depth f g))))))))))

project-depth :
    (p a r : String) (s f g : Option String)
    → SameDepth
        (build_project_asset_object_key p a r f s)
        (build_project_asset_object_key p a r g s)
unfolding build_project_asset_object_key
project-depth p a r s f g = below (codes "projects/") (
    below (codes p) (
      below (codes "/") (
        below (sequence_scope s) (
          below (codes "/") (
            below (codes a)
              (below (codes "/") (below (codes r) (below (codes "/") (same_depth f g)))))))))

-- The number of slashes in an object key, of a project's asset and of a runtime's, does not depend on
-- the file's name: two files of the same project, version, types and sequence are kept at the same depth.
pub build_object_key-depth :
    (project_id version job_type asset_type asset_role : String) (sequence_id f g : Option String)
    → (count is_slash (build_runtime_asset_object_key project_id version job_type f sequence_id)
        ≡ count is_slash (build_runtime_asset_object_key project_id version job_type g sequence_id))
      × (count is_slash
            (build_project_asset_object_key project_id asset_type asset_role f sequence_id)
          ≡ count is_slash
              (build_project_asset_object_key project_id asset_type asset_role g sequence_id))
build_object_key-depth p v j a r s f g =
    ((runtime-depth p v j s f g).same, (project-depth p a r s f g).same)
