-- ===== src/Ui/Listed.antt =====
-- The lists of jobs and of regulations, page by page.
use mathlib.Core.List.{Perm}
use mathlib.Core.List.Perm
use compliance_wizard_engine.Prelude.{
  ℕ, ◌≡◌, refl, sym, subst, ap, ◌∙◌, Bool, Option, none, some, List, [], ◌∷◌, map, keep, length,
  leb, Text, IsSorted, sort-perm, sort-IsSorted, length-sort, arith,
}
use compliance_wizard_engine.Vocabulary.{JobStatus}
use compliance_wizard_engine.Store.{Job, JobError}
use compliance_wizard_engine.Ui.Pagination.{
  ℤ, pos, clamp_per_page, total_pages, build_page, page_of,
}
use compliance_wizard_engine.Ui.Jobs.{
  valid_status, status_summary, sum_of, filtered_total, passes, JobItem, job_item, listed_jobs,
  jobs,
}
use compliance_wizard_engine.Ui.Turned.{turned, turned-all, map-IsSorted}
use compliance_wizard_engine.Store.{Regulation, RegulationField, Condition, Edge}
use compliance_wizard_engine.Ui.Regulations.{
  RegulationRow, is_listed, listed_regulations, regulation_row, list_regulations,
}

-- Every job has one of the four statuses.
counts_all : (table : List Job) → sum_of (status_summary table) ≡ length table
counts_all [] = refl
counts_all (j ∷ table) = grind (arith, counts_all table)

keep-true : (table : List Job) → keep (passes none) table ≡ table
keep-true [] = refl
keep-true (j ∷ table) = ap (λ l. j ∷ l) (keep-true table)

filtered_total-length :
    (updated_at : Job → ℕ) (status : Option JobStatus) (table : List Job)
    → filtered_total status table ≡ length (listed_jobs updated_at status table)
unfolding filtered_total listed_jobs
filtered_total-length updated_at none table =
    counts_all table ∙ sym (length-sort _ (keep (passes none) table) ∙ ap length (keep-true table))
filtered_total-length updated_at (some st) table =
    sym (length-sort _ (keep (passes (some st)) table))

abbrev pub newer : JobItem → JobItem → Bool
newer a b = leb b.updated_at a.updated_at

-- The pages of the jobs are pages of the jobs that pass the filter.
jobs-page_of :
    (updated_at : Job → ℕ) (errors : List JobError) (table : List Job) (status : Text)
    (per_page page : ℤ)
    → let items = listed_jobs updated_at (valid_status status) table in
      (jobs updated_at errors table status page per_page).rows
      ≡ map
          (job_item updated_at errors)
          (page_of (build_page page (pos (clamp_per_page per_page)) (length items)) items)
unfolding jobs
jobs-page_of updated_at errors table status per_page page =
    rw (sym (filtered_total-length updated_at (valid_status status) table)) refl

jobs-turned :
    (updated_at : Job → ℕ) (errors : List JobError) (table : List Job) (status : Text)
    (per_page : ℤ) (n : ℕ)
    → n ≡ length (listed_jobs updated_at (valid_status status) table)
    → turned
        (λ page. (jobs updated_at errors table status page per_page).rows)
        (total_pages (build_page (pos 1) (pos (clamp_per_page per_page)) n))
      ≡ map (job_item updated_at errors) (listed_jobs updated_at (valid_status status) table)
jobs-turned updated_at errors table status per_page n h = rw h (
    turned-all (job_item updated_at errors) (listed_jobs updated_at (valid_status status) table)
      (pos (clamp_per_page per_page))
      (λ page. (jobs updated_at errors table status page per_page).rows)
      (jobs-page_of updated_at errors table status per_page))

item_ids :
    (updated_at : Job → ℕ) (errors : List JobError) (table : List Job)
    → map (λ (i : JobItem). i.id) (map (job_item updated_at errors) table) ≡ map (λ j. j.id) table
unfolding job_item
item_ids updated_at errors [] = refl
item_ids updated_at errors (j ∷ table) = ap (λ l. j.id ∷ l) (item_ids updated_at errors table)

-- Whatever status is asked for, the pages of the jobs, turned one after the other, show each job of
-- that status once (or each job, if the text is no status), the last updated first; and the counts of
-- the summary add up to the number of all jobs, whatever is asked for.
pub jobs_show_all :
    (updated_at : Job → ℕ) (errors : List JobError) (table : List Job) (status : Text)
    (per_page : ℤ)
    → let first = jobs updated_at errors table status (pos 1) per_page in
      let all : List JobItem =
        turned
          (λ page. (jobs updated_at errors table status page per_page).rows)
          (total_pages first.page) in
      Perm (map (λ i. i.id) all) (map (λ j. j.id) (keep (passes (valid_status status)) table))
      × IsSorted newer all
      × (sum_of first.summary ≡ length table)
unfolding jobs listed_jobs job_item
jobs_show_all updated_at errors table status per_page =
    let valid = valid_status status in
    let items = listed_jobs updated_at valid table in
    let ids : Perm (map (λ (i : JobItem). i.id) (map (job_item updated_at errors) items))
        (map (λ j. j.id) (keep (passes valid) table)) =
      subst (λ l. Perm l (map (λ j. j.id) (keep (passes valid) table)))
        (sym (item_ids updated_at errors items))
        (Perm.map (λ j. j.id) (sort-perm _ (keep (passes valid) table))) in
    let sorted : IsSorted newer (map (job_item updated_at errors) items) =
      map-IsSorted (job_item updated_at errors) newer items (
        sort-IsSorted _ (λ x y h. ground arith) (λ x y z h k. ground arith)
          (keep (passes valid) table)) in
    let whole =
      jobs-turned updated_at errors table status per_page (filtered_total valid table)
        (filtered_total-length updated_at valid table) in
    rw whole (ids, sorted, counts_all table)

-- What a reader sees of the regulations who turns all pages.
abbrev pub all_regulations :
    {F : Type 0}
    → (Regulation → ℕ)
    → List Regulation
    → List (RegulationField F)
    → List (Condition F)
    → List (Edge F)
    → ℤ
    → Bool
    → List RegulationRow
all_regulations created_at regs fields conds edges per_page include_stubs =
    let first =
      list_regulations created_at regs fields conds edges (pos 1) per_page include_stubs in
    turned
      (λ page.
        (list_regulations created_at regs fields conds edges page per_page include_stubs).rows)
      (total_pages first.page)

module _ {F : Type 0} where
  list_regulations-turned :
      (created_at : Regulation → ℕ) (regs : List Regulation) (fields : List (RegulationField F))
      (conds : List (Condition F)) (edges : List (Edge F)) (per_page : ℤ) (include_stubs : Bool)
      (n : ℕ)
      → n ≡ length (keep (is_listed include_stubs) regs)
      → turned
          (λ page.
            (list_regulations created_at regs fields conds edges page per_page include_stubs).rows)
          (total_pages (build_page (pos 1) (pos (clamp_per_page per_page)) n))
        ≡ map (regulation_row fields conds edges) (listed_regulations created_at include_stubs regs)
  unfolding list_regulations listed_regulations
  list_regulations-turned created_at regs fields conds edges per_page include_stubs n h =
      let newest = λ (a b : Regulation). leb (created_at b) (created_at a) in
      let count = length-sort newest (keep (is_listed include_stubs) regs) in
      rw (h ∙ sym count) (
        turned-all (regulation_row fields conds edges)
          (listed_regulations created_at include_stubs regs) (pos (clamp_per_page per_page)) _
          (λ page. rw count refl))

  row_ids :
      (fields : List (RegulationField F)) (conds : List (Condition F)) (edges : List (Edge F))
      (regs : List Regulation)
      → map (λ (r : RegulationRow). r.id) (map (regulation_row fields conds edges) regs)
        ≡ map (λ r. r.id) regs
  unfolding regulation_row
  row_ids fields conds edges [] = refl
  row_ids fields conds edges (r ∷ regs) = ap (λ l. r.id ∷ l) (row_ids fields conds edges regs)

  -- The pages of the regulations, turned one after the other, show each regulation once, and no stub
  -- unless stubs are asked for.
  pub list_regulations_show_all :
      (created_at : Regulation → ℕ) (regs : List Regulation) (fields : List (RegulationField F))
      (conds : List (Condition F)) (edges : List (Edge F)) (per_page : ℤ) (include_stubs : Bool)
      → Perm
          (map
            (λ r. r.id)
            (all_regulations created_at regs fields conds edges per_page include_stubs))
          (map (λ r. r.id) (keep (is_listed include_stubs) regs))
  unfolding list_regulations listed_regulations
  list_regulations_show_all created_at regs fields conds edges per_page include_stubs =
      let items = listed_regulations created_at include_stubs regs in
      rw
        (list_regulations-turned created_at regs fields conds edges per_page include_stubs
          (length (keep (is_listed include_stubs) regs)) refl)
        (subst (λ l. Perm l (map (λ r. r.id) (keep (is_listed include_stubs) regs)))
          (sym (row_ids fields conds edges items))
          (Perm.map (λ r. r.id) (sort-perm _ (keep (is_listed include_stubs) regs))))
