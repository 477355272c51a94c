-- ===== src/Worker/Batch.antt =====
-- A batch of worker.py, from the queue before to the queue after.
use compliance_wizard_engine.Prelude.{
  ℕ, zero, suc, ◌+◌, ◌≤◌, ◌≡◌, ◌⊎◌, inl, inr, refl, sym, ap, subst, false, Bool-cases, none, some,
  Option-cases, List, map, any, nat_eq, arith,
}
use compliance_wizard_engine.Vocabulary.{JobStatus}
use compliance_wizard_engine.Store.{Job}
use compliance_wizard_engine.Worker.{
  oldest, with_job, claimed, with_status, State, Environment, record_failure, record_done, process,
  run_batch,
}
use compliance_wizard_engine.Worker.Queue.{
  queued_count, IsKeyedJobs, is_queued_id, Settles, absent_unchanged, present_removed, oldest-none,
  oldest-some, IsKeyedJobs-map, settled, claimed-Settles, claim_one-none, claim_one-some,
}

module _ {W : Type 0} (env : Environment W) where
  -- The job table after a job was processed: as it was, or with the job failed or done.
  process-jobs :
      (id : ℕ) (s : State W)
      → ((process env id s).jobs ≡ s.jobs)
        ⊎ (((process env id s).jobs ≡ map (with_job id (with_status JobStatus.failed)) s.jobs)
            ⊎ ((process env id s).jobs ≡ map (with_job id (with_status JobStatus.done)) s.jobs))
  unfolding process record_failure record_done
  process-jobs id s =
      let world = (env.run_pipeline id s.world).0 in
      elim (Option-cases (env.run_pipeline id s.world).1) [
        | inl e ↦ elim (Bool-cases (env.recorded id world)) [
          | inl r ↦ inr (inr (rw (e, process) (rw (r, record_done))))
          | inr r ↦ inl (rw (e, process) (rw (r, record_done)))
        ]
        | inr (m, e) ↦ elim (Bool-cases (env.recorded id world)) [
          | inl r ↦ inr (inl (rw (e, process) (rw (r, record_failure))))
          | inr r ↦ inl (rw (e, process) (rw (r, record_failure)))
        ]
      ]

  -- Recording an outcome leaves the queue as it is.
  abbrev Kept : List Job → List Job → Type 0
  Kept old new = (queued_count new ≡ queued_count old) × IsKeyedJobs new

  process-Kept :
      (id : ℕ) (s : State W)
      → any (is_queued_id id) s.jobs ≡ false
      → IsKeyedJobs s.jobs
      → Kept s.jobs (process env id s).jobs
  process-Kept id s absent k =
      let by_change : (change : Job → Job)
          → Settles change
          → Kept s.jobs (map (with_job id change) s.jobs) =
        (λ change settles. (
          absent_unchanged id change s.jobs absent settles,
          IsKeyedJobs-map id change s.jobs settles k,
        )) in
      elim (process-jobs id s) [
        | inl e ↦ subst (Kept s.jobs) (sym e) (refl, k)
        | inr (inl e) ↦
            subst (Kept s.jobs) (sym e)
              (by_change (with_status JobStatus.failed) (λ j. (refl, refl)))
        | inr (inr e) ↦
            subst (Kept s.jobs) (sym e) (by_change (with_status JobStatus.done) (λ j. (refl, refl)))
      ]

  -- How a batch of a size ends from a queue.
  abbrev Drains : ℕ → ℕ → State W → State W × ℕ → Type 0
  Drains size n s (s', m) =
      (m + queued_count s'.jobs ≡ n + queued_count s.jobs)
      × (m ≤ n + size)
      × ((m ≡ n + size) ⊎ (queued_count s'.jobs ≡ 0))

  Drains-more :
      (size n : ℕ) (s next : State W) (r : State W × ℕ) {claimed_count : ℕ}
      → queued_count next.jobs ≡ claimed_count
      → claimed_count + 1 ≡ queued_count s.jobs
      → Drains size (n + 1) next r
      → Drains (suc size) n s r
  Drains-more size n s next r same fewer (whole, most, last) = (
    omega (arith, whole, same, fewer),
    omega (arith, most),
    elim last [ inl q ↦ inl (omega (arith, q)) | inr q ↦ inr q ],
  )

  run_batch-empty :
      (size n : ℕ) (s : State W) → oldest s.jobs ≡ none → run_batch env (suc size) n s ≡ (s, n)
  unfolding run_batch
  run_batch-empty size n s e = rw (claim_one-none s.jobs e, run_batch)

  -- The state in which a claimed job is processed.
  abbrev with_claimed : ℕ → State W → State W
  with_claimed id s = record s { jobs = map (with_job id claimed) s.jobs }

  run_batch-next :
      (size n : ℕ) (s : State W) (j : Job)
      → oldest s.jobs ≡ some j
      → run_batch env (suc size) n s
        ≡ run_batch env size (n + 1) (process env j.id (with_claimed j.id s))
  unfolding run_batch
  run_batch-next size n s j e =
      let claims = claim_one-some s.jobs j e in rw (claims, run_batch) (rw (ap (λ t. t.0) claims))

  run_batch-Drains :
      (size n : ℕ) (s : State W) → IsKeyedJobs s.jobs → Drains size n s (run_batch env size n s)
  unfolding run_batch
  run_batch-Drains zero n s k = (refl, omega arith, inl (omega arith))
  run_batch-Drains (suc size) n s k = elim (Option-cases (oldest s.jobs)) [
    | inl e ↦
        let empty = oldest-none s.jobs e in
        subst (Drains (suc size) n s) (sym (run_batch-empty size n s e))
          (refl, omega arith, inr empty)
    | inr (j, e) ↦
        let next = process env j.id (with_claimed j.id s) in
        let fewer =
          present_removed j.id claimed s.jobs (oldest-some s.jobs j e) k claimed-Settles in
        let (same, keyed) =
          process-Kept j.id (with_claimed j.id s) (settled j.id claimed s.jobs claimed-Settles)
            (IsKeyedJobs-map j.id claimed s.jobs claimed-Settles k) in
        let rest = run_batch-Drains size (n + 1) next keyed in
        subst (Drains (suc size) n s) (sym (run_batch-next size n s j e))
          (Drains-more size n s next (run_batch env size (n + 1) next) same fewer rest)
  ]

  -- A batch takes exactly as many jobs off the queue as it reports, never more than its size, and
  -- fewer only when the queue is empty at the end, whatever the pipeline does and whether or not the
  -- outcomes can be recorded.
  pub run_batch_drains :
      (size : ℕ) (s : State W)
      → IsKeyedJobs s.jobs
      → let (s', m) = run_batch env size 0 s in
        (m + queued_count s'.jobs ≡ queued_count s.jobs)
        × (m ≤ size)
        × ((m ≡ size) ⊎ (queued_count s'.jobs ≡ 0))
  run_batch_drains size s k =
      let (whole, most, last) = run_batch-Drains size 0 s k in
      (
        omega (arith, whole),
        omega (arith, most),
        elim last [ inl q ↦ inl (omega (arith, q)) | inr q ↦ inr q ],
      )
