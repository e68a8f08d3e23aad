-- ===== src/Jobs/Queue.antt =====
-- RuntimeJobRepository.get_claimable_job_for_update: which job a worker is offered. A row that
-- another transaction holds is passed over (SKIP LOCKED): `locked` says which. PostgreSQL may order
-- equal keys as it likes; here they keep the table's order.
pub mod Members
pub mod Order
use ai_video_replication.Common.{
  ℕ, Bool, true, false, not, ◌&&◌, if◌then◌else◌, Option, none, some, List, [], ◌∷◌, String, ◌==◌,
  option_is, truthy, ltb_ℤ, leb_ℤ, select, any, all, find, take,
}
use ai_video_replication.Jobs.Statuses.{is_claimable}
use ai_video_replication.Store.{RuntimeJob}

-- `priority DESC, created_at ASC`
abbrev pub precedes : RuntimeJob → RuntimeJob → Bool
precedes a b =
    if ltb_ℤ b.priority a.priority
    then true
    else if ltb_ℤ a.priority b.priority
    then false
    else leb_ℤ a.created_at b.created_at

pub insert : RuntimeJob → List RuntimeJob → List RuntimeJob
insert j [] = j ∷ []
insert j (k ∷ ks) = if precedes j k then j ∷ k ∷ ks else k ∷ insert j ks

pub order : List RuntimeJob → List RuntimeJob
order [] = []
order (j ∷ js) = insert j (order js)

abbrev pub is_none : {A : Type 0} → Option A → Bool
is_none none = true
is_none (some _) = false

-- `if queue_name: stmt.where(column == queue_name)`
abbrev pub matches_if_given : Option String → Option String → Bool
matches_if_given none column = true
matches_if_given (some name) column = if truthy name then option_is column name else true

unfoldable pub is_candidate :
    (RuntimeJob → Bool) → Option String → Option String → RuntimeJob → Bool
is_candidate locked queue_name routing_key j =
    is_claimable j.job_status
    && (is_none j.cancel_requested_at
        && (matches_if_given queue_name (some j.queue_name)
            && (matches_if_given routing_key j.routing_key && not (locked j))))

-- `required.issubset(capability_set)`
abbrev pub covers : List String → RuntimeJob → Bool
covers tags j = all (λ need. any (λ tag. tag == need) tags) j.worker_capability_tags_json

abbrev pub candidate_window : ℕ
candidate_window = 25

abbrev pub choose : List String → List RuntimeJob → Option RuntimeJob
choose tags [] = none
choose [] (j ∷ js) = some j
choose (t ∷ ts) (j ∷ js) = find (covers (t ∷ ts)) (j ∷ js)

unfoldable pub get_claimable_job :
    (RuntimeJob → Bool)
    → Option String
    → Option String
    → List String
    → List RuntimeJob
    → Option RuntimeJob
unfolding order insert is_candidate
get_claimable_job locked queue_name routing_key tags jobs =
    choose tags
      (take candidate_window (order (select (is_candidate locked queue_name routing_key) jobs)))
