-- ===== src/Jobs/Queue/Order.antt =====
-- The order of the queue, by priority and by age, and the first job in it.
use ai_video_replication.Common.{
  ◌≤ℤ◌, ◌+◌, ◌≡◌, refl, inl, inr, ◌⊎◌, Bool, true, false, Option, some, List, [], ◌∷◌, String,
  arith, Bool-cases, In, All, find-holds, take, select, count, bit, any, all, ◌==◌, eq_iff,
}
use ai_video_replication.Store.{RuntimeJob}
use ai_video_replication.Jobs.Queue.{
  insert, order, precedes, choose, covers, candidate_window, is_candidate, get_claimable_job,
}

pub precedes_total : (a b : RuntimeJob) → precedes a b ≡ false → precedes b a ≡ true
precedes_total a b h = ground arith

pub precedes_trans :
    (a b c : RuntimeJob) → precedes a b ≡ true → precedes b c ≡ true → precedes a c ≡ true
precedes_trans a b c h k = ground arith

abbrev pub Sorted : List RuntimeJob → Type 0
Sorted [] = Unit
Sorted (j ∷ js) = All (λ k. precedes j k ≡ true) js × Sorted js

first-before :
    (j k : RuntimeJob) (ks : List RuntimeJob)
    → precedes j k ≡ true
    → All (λ l. precedes k l ≡ true) ks
    → All (λ l. precedes j l ≡ true) ks
first-before j k [] h a = tt
first-before j k (l ∷ ks) h (a, rest) = (precedes_trans j k l h a, first-before j k ks h rest)

insert-All :
    (k j : RuntimeJob) (ks : List RuntimeJob)
    → precedes k j ≡ true
    → All (λ l. precedes k l ≡ true) ks
    → All (λ l. precedes k l ≡ true) (insert j ks)
unfolding insert
insert-All k j [] h a = (h, tt)
insert-All k j (l ∷ ks) h (a, rest) = elim (Bool-cases (precedes j l)) [
  | inl e ↦ rw (e, insert) (h, (a, rest))
  | inr e ↦ rw (e, insert) (a, insert-All k j ks h rest)
]

insert-Sorted : (j : RuntimeJob) (ks : List RuntimeJob) → Sorted ks → Sorted (insert j ks)
unfolding insert
insert-Sorted j [] s = (tt, tt)
insert-Sorted j (k ∷ ks) (a, s) = elim (Bool-cases (precedes j k)) [
  | inl e ↦ rw (e, insert) ((e, first-before j k ks e a), (a, s))
  | inr e ↦ rw (e, insert) (insert-All k j ks (precedes_total j k e) a, insert-Sorted j ks s)
]

order-Sorted_all : (js : List RuntimeJob) → Sorted (order js)
unfolding order
order-Sorted_all [] = tt
order-Sorted_all (j ∷ js) = insert-Sorted j (order js) (order-Sorted_all js)

count-insert :
    (p : RuntimeJob → Bool) (j : RuntimeJob) (ks : List RuntimeJob)
    → count p (insert j ks) ≡ bit (p j) + count p ks
unfolding insert
count-insert p j [] = refl
count-insert p j (k ∷ ks) = ground (arith, count-insert p j ks)

count-order : (p : RuntimeJob → Bool) (js : List RuntimeJob) → count p (order js) ≡ count p js
unfolding order
count-order p [] = refl
count-order p (j ∷ js) = omega (arith, count-insert p j (order js), count-order p js)

-- The ordering of the candidates is sorted, by priority from high to low and then by creation from
-- old to new, and has every candidate as often as before.
pub order-Sorted :
    (js : List RuntimeJob)
    → Sorted (order js) × ((p : RuntimeJob → Bool) → count p (order js) ≡ count p js)
order-Sorted js = (order-Sorted_all js, λ p. count-order p js)

In-insert_all :
    (j : RuntimeJob) (ks : List RuntimeJob) (a : RuntimeJob)
    → (j ≡ a) ⊎ In a ks
    → In a (insert j ks)
unfolding insert
In-insert_all j [] a h = h
In-insert_all j (k ∷ ks) a h = elim (Bool-cases (precedes j k)) [
  | inl e ↦ rw (e, insert) h
  | inr e ↦
      rw (e, insert)
        (elim h [
          | inl same ↦ inr (In-insert_all j ks a (inl same))
          | inr (inl here) ↦ inl here
          | inr (inr m) ↦ inr (In-insert_all j ks a (inr m))
        ])
]

In-order_all : (js : List RuntimeJob) (a : RuntimeJob) → In a js → In a (order js)
unfolding order
In-order_all [] a h = h
In-order_all (j ∷ js) a (inl e) = In-insert_all j (order js) a (inl e)
In-order_all (j ∷ js) a (inr m) = In-insert_all j (order js) a (inr (In-order_all js a m))

In-select_all :
    (p : RuntimeJob → Bool) (js : List RuntimeJob) (a : RuntimeJob)
    → In a js
    → p a ≡ true
    → In a (select p js)
In-select_all p [] a h e = h
In-select_all p (j ∷ js) a (inl same) e =
    let here : p j ≡ true = rw same e in rw (here, select) (inl same)
In-select_all p (j ∷ js) a (inr m) e = elim (Bool-cases (p j)) [
  | inl e' ↦ rw (e', select) (inr (In-select_all p js a m e))
  | inr e' ↦ rw (e', select) (In-select_all p js a m e)
]

All-In :
    (P : RuntimeJob → Type 0) (js : List RuntimeJob) (a : RuntimeJob) → All P js → In a js → P a
All-In P [] a h m = elim m [ ]
All-In P (j ∷ js) a (h, rest) (inl same) = rw (← same) h
All-In P (j ∷ js) a (h, rest) (inr m) = All-In P js a rest m

precedes_refl : (a : RuntimeJob) → precedes a a ≡ true
precedes_refl a = ground arith

-- The choice without capability tags, on a sorted list: the first, which precedes all.
first-precedes :
    (js : List RuntimeJob) (b : RuntimeJob)
    → Sorted js
    → In b js
    → (c : RuntimeJob) × (choose [] (take candidate_window js) ≡ some c) × (precedes c b ≡ true)
first-precedes [] b s m = elim m [ ]
first-precedes (j ∷ js) b (a, s) (inl same) = (j, refl, rw (← same) (precedes_refl j))
first-precedes (j ∷ js) b (a, s) (inr m) = (j, refl, All-In (λ k. precedes j k ≡ true) js b a m)

precedes-priority :
    (c b : RuntimeJob)
    → precedes c b ≡ true
    → (b.priority ≤ℤ c.priority) × (c.priority ≤ℤ b.priority → c.created_at ≤ℤ b.created_at)
precedes-priority c b h = (ground (arith, h), λ same. ground (arith, h))

-- If any row of the table passes the conditions of the query, a worker without capability tags is
-- offered a job; no row that passes them has a higher priority than the offer, and none of the same
-- priority is older.
pub get_claimable_job-first :
    (locked : RuntimeJob → Bool) (queue_name routing_key : Option String) (jobs : List RuntimeJob)
    (b : RuntimeJob)
    → In b jobs
    → is_candidate locked queue_name routing_key b ≡ true
    → (c : RuntimeJob) × (get_claimable_job locked queue_name routing_key [] jobs ≡ some c)
      × (b.priority ≤ℤ c.priority)
      × (c.priority ≤ℤ b.priority → c.created_at ≤ℤ b.created_at)
unfolding get_claimable_job
get_claimable_job-first locked queue_name routing_key jobs b m ok =
    let candidates = select (is_candidate locked queue_name routing_key) jobs in
    let (c, offer, before) = first-precedes (order candidates) b (order-Sorted candidates).0 (
      In-order_all candidates b
        (In-select_all (is_candidate locked queue_name routing_key) jobs b m ok)) in
    let (above, older) = precedes-priority c b before in (c, offer, above, older)

choose-tags :
    (t : String) (ts : List String) (js : List RuntimeJob) (c : RuntimeJob)
    → choose (t ∷ ts) js ≡ some c
    → covers (t ∷ ts) c ≡ true
choose-tags t ts [] c h = cc
choose-tags t ts (j ∷ js) c h = find-holds (covers (t ∷ ts)) (j ∷ js) c h

any-In : (need : String) (ts : List String) → any (λ tag. tag == need) ts ≡ true → In need ts
any-In need [] h = cc
any-In need (t ∷ ts) h = elim (Bool-cases (t == need)) [
  | inl e ↦ inl ((eq_iff t need).0 e)
  | inr e ↦ inr (let g = rw e at h in any-In need ts g)
]

all-In :
    (ts needs : List String) (need : String)
    → all (λ n. any (λ tag. tag == n) ts) needs ≡ true
    → In need needs
    → In need ts
all-In ts [] need h m = elim m [ ]
all-In ts (n ∷ needs) need h m = elim (Bool-cases (any (λ tag. tag == n) ts)) [
  | inr e ↦ absurd (let g = rw e at h in cc)
  | inl e ↦ elim m [
    | inl same ↦ rw (← same) (any-In n ts e)
    | inr later ↦ let g = rw e at h in all-In ts needs need g later
  ]
]

-- A worker that names its capabilities is offered only a job each of whose required tags is one of
-- the worker's tags.
pub get_claimable_job-covers :
    (locked : RuntimeJob → Bool) (queue_name routing_key : Option String) (t : String)
    (ts : List String) (jobs : List RuntimeJob) (c : RuntimeJob) (need : String)
    → get_claimable_job locked queue_name routing_key (t ∷ ts) jobs ≡ some c
    → In need c.worker_capability_tags_json
    → In need (t ∷ ts)
unfolding get_claimable_job
get_claimable_job-covers locked queue_name routing_key t ts jobs c need h m =
    all-In (t ∷ ts) c.worker_capability_tags_json need
      (choose-tags t ts
        (take candidate_window (order (select (is_candidate locked queue_name routing_key) jobs))) c
        h)
      m
