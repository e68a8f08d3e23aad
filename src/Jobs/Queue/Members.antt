-- ===== src/Jobs/Queue/Members.antt =====
-- The job that the queue offers, as a row of the table.
use ai_video_replication.Common.{
  ◌≡◌, inl, inr, ◌⊎◌, Bool, true, Option, some, List, [], ◌∷◌, String, arith, Bool-cases, In,
  In-take, In-select, In-find, take, select,
}
use ai_video_replication.Store.{RuntimeJob}
use ai_video_replication.Jobs.Queue.{
  insert, order, precedes, choose, covers, candidate_window, is_candidate, get_claimable_job,
}

In-insert :
    (j : RuntimeJob) (ks : List RuntimeJob) (a : RuntimeJob)
    → In a (insert j ks)
    → (j ≡ a) ⊎ In a ks
unfolding insert
In-insert j [] a h = h
In-insert j (k ∷ ks) a h = elim (Bool-cases (precedes j k)) [
  | inl e ↦ let m : In a (j ∷ k ∷ ks) = rw (e, insert) at h in m
  | inr e ↦ elim (let m : In a (k ∷ insert j ks) = rw (e, insert) at h in m) [
    | inl same ↦ inr (inl same)
    | inr m ↦ elim (In-insert j ks a m) [ inl same ↦ inl same | inr n ↦ inr (inr n) ]
  ]
]

In-order : (js : List RuntimeJob) (a : RuntimeJob) → In a (order js) → In a js
unfolding order
In-order [] a h = h
In-order (j ∷ js) a h = elim (In-insert j (order js) a h) [
  | inl e ↦ inl e
  | inr m ↦ inr (In-order js a m)
]

In-choose :
    (tags : List String) (js : List RuntimeJob) (a : RuntimeJob) → choose tags js ≡ some a → In a js
In-choose tags [] a h = cc
In-choose [] (j ∷ js) a h = inl (ground arith)
In-choose (t ∷ ts) (j ∷ js) a h = In-find (covers (t ∷ ts)) (j ∷ js) a h

pub get_claimable_job-In :
    (locked : RuntimeJob → Bool) (queue_name routing_key : Option String) (tags : List String)
    (jobs : List RuntimeJob) (c : RuntimeJob)
    → get_claimable_job locked queue_name routing_key tags jobs ≡ some c
    → In c jobs × (is_candidate locked queue_name routing_key c ≡ true)
unfolding get_claimable_job
get_claimable_job-In locked queue_name routing_key tags jobs c h =
    let candidates = select (is_candidate locked queue_name routing_key) jobs in
    In-select (is_candidate locked queue_name routing_key) jobs c (
      In-order candidates c (
        In-take candidate_window (order candidates) c
          (In-choose tags (take candidate_window (order candidates)) c h)))
