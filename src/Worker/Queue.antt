-- ===== src/Worker/Queue.antt =====
-- The queue of worker.py: which job is claimed, and how many a batch processes.
use compliance_wizard_engine.Prelude.{
  ℕ, ◌+◌, ◌≤◌, ◌≡◌, ◌⊎◌, inl, inr, refl, sym, ap, ◌∙◌, subst, Bool, true, false, ◌&&◌, Bool-cases,
  none, some, Option-cases, List, [], ◌∷◌, map, any, All, All-map, ltb, ◌==◌, nat_eq, nat_beq_iff,
  if◌then◌else◌, arith,
}
use compliance_wizard_engine.Store.{Job}
use compliance_wizard_engine.Worker.{is_queued, oldest, with_job, claimed, claim_one}

abbrev pub queued_count : List Job → ℕ
queued_count [] = 0
queued_count (j ∷ jobs) = (if is_queued j then 1 else 0) + queued_count jobs

abbrev pub has_id : ℕ → Job → Bool
has_id id j = j.id == id

-- No two jobs share an id.
abbrev pub IsKeyedJobs : List Job → Type 0
IsKeyedJobs [] = Unit
IsKeyedJobs (j ∷ jobs) = (any (has_id j.id) jobs ≡ false) × IsKeyedJobs jobs

abbrev pub is_queued_id : ℕ → Job → Bool
is_queued_id id j = j.id == id && is_queued j

-- A change of a job that keeps its id, and takes it off the queue.
abbrev pub Settles : (Job → Job) → Type 0
Settles change = (j : Job) → ((change j).id ≡ j.id) × (is_queued (change j) ≡ false)

pub absent_unchanged :
    (id : ℕ) (change : Job → Job) (jobs : List Job)
    → any (is_queued_id id) jobs ≡ false
    → Settles change
    → queued_count (map (with_job id change) jobs) ≡ queued_count jobs
absent_unchanged id change [] h s = refl
absent_unchanged id change (j ∷ jobs) h s =
    let rest = absent_unchanged id change jobs (ground arith) s in ground (arith, rest, s j)

pub absent-queued :
    (id : ℕ) (jobs : List Job) → any (has_id id) jobs ≡ false → any (is_queued_id id) jobs ≡ false
absent-queued id [] h = refl
absent-queued id (j ∷ jobs) h = ground (arith, absent-queued id jobs)

pub present_removed :
    (id : ℕ) (change : Job → Job) (jobs : List Job)
    → any (is_queued_id id) jobs ≡ true
    → IsKeyedJobs jobs
    → Settles change
    → queued_count (map (with_job id change) jobs) + 1 ≡ queued_count jobs
present_removed id change [] h k s = cc
present_removed id change (j ∷ jobs) h k s = elim (Bool-cases (is_queued_id id j)) [
  | inl e ↦
      let same : j.id ≡ id = ground (arith, nat_beq_iff j.id id) in
      let absent = absent-queued id jobs (subst (λ n. any (has_id n) jobs ≡ false) same k.0) in
      ground (arith, absent_unchanged id change jobs absent s, s j)
  | inr e ↦ ground (arith, present_removed id change jobs (ground arith) k.1 s, s j)
]

pub oldest-none : (jobs : List Job) → oldest jobs ≡ none → queued_count jobs ≡ 0
unfolding oldest
oldest-none [] h = refl
oldest-none (j ∷ jobs) h = ground (arith, oldest-none jobs)

pub oldest-some :
    (jobs : List Job) (j : Job) → oldest jobs ≡ some j → any (is_queued_id j.id) jobs ≡ true
unfolding oldest
oldest-some [] j h = cc
oldest-some (k ∷ jobs) j h = elim (Option-cases (oldest jobs)) [
  | inl e ↦ ground (arith, nat_beq_iff k.id k.id)
  | inr (r, e) ↦ ground (arith, oldest-some jobs r e, nat_beq_iff k.id k.id)
]

has_id-map :
    (id n : ℕ) (change : Job → Job) (jobs : List Job)
    → Settles change
    → any (has_id n) (map (with_job id change) jobs) ≡ any (has_id n) jobs
has_id-map id n change [] s = refl
has_id-map id n change (j ∷ jobs) s = ground (arith, has_id-map id n change jobs s, s j)

pub IsKeyedJobs-map :
    (id : ℕ) (change : Job → Job) (jobs : List Job)
    → Settles change
    → IsKeyedJobs jobs
    → IsKeyedJobs (map (with_job id change) jobs)
IsKeyedJobs-map id change [] s k = tt
IsKeyedJobs-map id change (j ∷ jobs) s k =
    let kept : (with_job id change j).id ≡ j.id = ground (arith, s j) in
    (
      subst (λ n. any (has_id n) (map (with_job id change) jobs) ≡ false) (sym kept)
          (has_id-map id j.id change jobs s ∙ k.0),
      IsKeyedJobs-map id change jobs s k.1,
    )

pub settled :
    (id : ℕ) (change : Job → Job) (jobs : List Job)
    → Settles change
    → any (is_queued_id id) (map (with_job id change) jobs) ≡ false
settled id change [] s = refl
settled id change (j ∷ jobs) s = ground (arith, settled id change jobs s, s j)

pub claimed-Settles : Settles claimed
claimed-Settles j = (refl, refl)

pub claim_one-none : (jobs : List Job) → oldest jobs ≡ none → claim_one jobs ≡ (jobs, none)
unfolding claim_one
claim_one-none jobs e = rw (e, claim_one)

pub claim_one-some :
    (jobs : List Job) (j : Job)
    → oldest jobs ≡ some j
    → claim_one jobs ≡ (map (with_job j.id claimed) jobs, some j.id)
unfolding claim_one
claim_one-some jobs j e = rw (e, claim_one)

oldest-none_queued : (jobs : List Job) → oldest jobs ≡ none → All (λ k. is_queued k ≡ false) jobs
unfolding oldest
oldest-none_queued [] h = tt
oldest-none_queued (j ∷ jobs) h = ground (arith, oldest-none_queued jobs)

abbrev pub NotBefore : Job → Job → Type 0
NotBefore j k = is_queued k ≡ true → j.created_at ≤ k.created_at

oldest-NotBefore : (jobs : List Job) (j : Job) → oldest jobs ≡ some j → All (NotBefore j) jobs
unfolding oldest
oldest-NotBefore [] j h = tt
oldest-NotBefore (k ∷ jobs) j h = elim (Option-cases (oldest jobs)) [
  | inl e ↦
      let same : k ≡ j = ground arith in
      (
        (λ q. subst (λ x. x.created_at ≤ k.created_at) same (omega arith)),
        All-map _ _ (λ x off on. cc (off, on)) jobs (oldest-none_queued jobs e),
      )
  | inr (r, e) ↦
      let rest = oldest-NotBefore jobs r e in
      elim (Bool-cases (is_queued k)) [
        | inr off ↦
            let same : r ≡ j = ground arith in
            ((λ on. cc (off, on)), subst (λ x. All (NotBefore x) jobs) same rest)
        | inl on ↦ elim (Bool-cases (ltb r.created_at k.created_at)) [
          | inl less ↦
              let same : r ≡ j = ground arith in
              (
                (λ q. subst (λ x. x.created_at ≤ k.created_at) same (ground arith)),
                subst (λ x. All (NotBefore x) jobs) same rest,
              )
          | inr more ↦
              let same : k ≡ j = ground arith in
              let early : k.created_at ≤ r.created_at = ground arith in
              (
                (λ q. subst (λ x. x.created_at ≤ k.created_at) same (omega arith)),
                subst (λ x. All (NotBefore x) jobs) same
                    (All-map _ _ (λ x late q. omega (arith, late q, early)) jobs rest),
              )
        ]
      ]
]

-- A claim takes a queued job before which no queued job was created, and finds one unless the queue
-- is empty; at most that one job leaves the queue.
pub claim_one_fifo :
    (jobs : List Job)
    → IsKeyedJobs jobs
    → (((claim_one jobs).1 ≡ none) × (queued_count jobs ≡ 0))
      ⊎ ((j : Job) × ((claim_one jobs).1 ≡ some j.id)
          × (any (is_queued_id j.id) jobs ≡ true)
          × All (NotBefore j) jobs
          × (queued_count (claim_one jobs).0 + 1 ≡ queued_count jobs))
claim_one_fifo jobs keyed = elim (Option-cases (oldest jobs)) [
  | inl e ↦ inl (ap (λ t. t.1) (claim_one-none jobs e), oldest-none jobs e)
  | inr (j, e) ↦
      let claims = claim_one-some jobs j e in
      inr (
        j,
        ap (λ t. t.1) claims,
        oldest-some jobs j e,
        oldest-NotBefore jobs j e,
        rw (ap (λ t. t.0) claims)
            (present_removed j.id claimed jobs (oldest-some jobs j e) keyed claimed-Settles),
      )
]
