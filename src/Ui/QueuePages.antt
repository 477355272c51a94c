-- ===== src/Ui/QueuePages.antt =====
-- The review queue page by page: every pending row once, the least confident first.
use mathlib.Core.List.{Perm, map-append}
use mathlib.Core.List.Perm
use compliance_wizard_engine.Prelude.{
  ℕ, zero, suc, ◌≡◌, refl, sym, subst, ap, ◌∙◌, Bool, ◌&&◌, List, [], ◌∷◌, ◌++◌, map, length, All,
  IsSorted, sort-perm, sort-IsSorted, Floats, IsOrdered, arith, Bool-cases, inl, inr, Option,
  Option-cases, none, some, Text, true, false, ◌||◌, keep, any, is_nil, opt_text_or, or_else, ◌==◌,
  nat_eq, text_eq, text_beq, if◌then◌else◌,
}
use compliance_wizard_engine.Vocabulary.{
  ReviewStatus, pending, auto_approved, human_approved, rejected,
}
use compliance_wizard_engine.Store.{Regulation, RegulationField, Condition}
use compliance_wizard_engine.Ui.Pagination.{ℤ, pos, clamp_per_page, total_pages, build_page}
use compliance_wizard_engine.Ui.Pages.{first_pages, first_pages_cover}
use compliance_wizard_engine.Ui.Tables.{Keyed, having}
use compliance_wizard_engine.Ui.Queue.{
  Kind, field, condition, QueueItem, is_pending, Filters, in_range, joined_with, field_item,
  condition_item, field_items, condition_items, less_confident, queue_items, review_queue,
}

-- The regulations that a row's id names.
abbrev pub referred : ℕ → List Regulation → List Regulation
referred reg regs = keep (λ r. r.id == reg) regs

-- A regulation passes the filter if none was given, or if its jurisdiction is the one given.
abbrev pub admits : Text → Regulation → Bool
admits [] r = true
admits (c ∷ s) r = elim r.jurisdiction [ none ↦ false | some t ↦ t == c ∷ s ]

-- Each row names one regulation.
abbrev pub Refers : {R : Type 0} → (R → ℕ) → List Regulation → Keyed R → Type 0
Refers reg_of regs table = All (λ row. length (referred (reg_of row.1) regs) ≡ 1) table

abbrev pub is_admitted : Text → ℕ → List Regulation → Bool
is_admitted jurisdiction reg regs = any (λ r. r.id == reg && admits jurisdiction r) regs

shown_text : (t : Text) (c : ℕ) (s : Text) → (opt_text_or (some t) [] == c ∷ s) ≡ (t == c ∷ s)
unfolding text_beq
shown_text [] c s = refl
shown_text (d ∷ t) c s = refl

admits-lem :
    (jurisdiction : Text) (r : Regulation)
    → (is_nil jurisdiction || opt_text_or r.jurisdiction [] == jurisdiction) ≡ admits jurisdiction r
unfolding text_beq
admits-lem [] r = refl
admits-lem (c ∷ s) r = elim (Option-cases r.jurisdiction) [
  | inl e ↦ rw e refl
  | inr (t, e) ↦ rw e (shown_text t c s)
]

module _ {F : Type 0} ⦃fl : Floats F⦄ where
  -- What a reviewer sees who turns the first k pages of the queue.
  unfoldable pub shown :
      F
      → List Regulation
      → Keyed (RegulationField F)
      → Keyed (Condition F)
      → Filters F
      → ℤ
      → ℕ
      → List (QueueItem F)
  shown threshold regs fields conds filters per_page zero = []
  shown threshold regs fields conds filters per_page (suc k) =
      shown threshold regs fields conds filters per_page k
      ++ (review_queue threshold regs fields conds filters (pos (suc k)) per_page).items

  shown-first_pages :
      (threshold : F) (regs : List Regulation) (fields : Keyed (RegulationField F))
      (conds : Keyed (Condition F)) (filters : Filters F) (per_page : ℤ) (k : ℕ)
      → shown threshold regs fields conds filters per_page k
        ≡ first_pages
            (pos (clamp_per_page per_page))
            k
            (queue_items threshold filters regs fields conds)
  unfolding shown first_pages review_queue
  shown-first_pages threshold regs fields conds filters per_page zero = refl
  shown-first_pages threshold regs fields conds filters per_page (suc k) =
      rw (shown-first_pages threshold regs fields conds filters per_page k) refl

  abbrev pub item_key : QueueItem F → Kind × ℕ
  item_key item = (item.kind, item.id)

  -- A row waits if it is pending, its confidence lies within the two bounds, and its regulation is one
  -- of the jurisdiction that was asked for.
  abbrev pub waits : Filters F → List Regulation → ReviewStatus → Option F → ℕ → Bool
  waits filters regs status conf reg = elim status [
    | pending ↦
        let x = or_else conf (fl.milli 0) in
        fl.fle filters.min_conf x
        && fl.fle x filters.max_conf
        && is_admitted filters.jurisdiction reg regs
    | auto_approved ↦ false
    | human_approved ↦ false
    | rejected ↦ false
  ]

  abbrev pub waiting_field : Filters F → List Regulation → RegulationField F → Bool
  waiting_field filters regs f = waits filters regs f.review_status f.confidence f.regulation_id

  abbrev pub waiting_condition : Filters F → List Regulation → Condition F → Bool
  waiting_condition filters regs c = waits filters regs c.review_status c.confidence c.regulation_id

  joined_with-none :
      (filters : Filters F) (reg : ℕ) (regs : List Regulation)
      → length (referred reg regs) ≡ 0
      → (joined_with filters reg regs ≡ []) × (is_admitted filters.jurisdiction reg regs ≡ false)
  unfolding joined_with
  joined_with-none filters reg [] h = (refl, refl)
  joined_with-none filters reg (r ∷ regs) h = ground (arith, joined_with-none filters reg regs)

  joined_with-one :
      (filters : Filters F) (reg : ℕ) (regs : List Regulation)
      → length (referred reg regs) ≡ 1
      → length (joined_with filters reg regs)
        ≡ (if is_admitted filters.jurisdiction reg regs then 1 else 0)
  unfolding joined_with
  joined_with-one filters reg [] h = absurd (omega (arith, h))
  joined_with-one filters reg (r ∷ regs) h = ground (
    arith,
    joined_with-none filters reg regs,
    joined_with-one filters reg regs,
    admits-lem filters.jurisdiction r,
  )

  no_key :
      {A : Type 0} (make : A → QueueItem F) (xs : List A)
      → length xs ≡ 0
      → map item_key (map make xs) ≡ []
  no_key make [] e = refl
  no_key make (x ∷ xs) e = absurd (omega (arith, e))

  one_key :
      {A : Type 0} (make : A → QueueItem F) (key : Kind × ℕ) (xs : List A)
      → ((x : A) → item_key (make x) ≡ key)
      → length xs ≡ 1
      → map item_key (map make xs) ≡ key ∷ []
  one_key make key [] h e = absurd (omega arith)
  one_key make key (x ∷ []) h e = ap (λ k. k ∷ []) (h x)
  one_key make key (x ∷ y ∷ xs) h e = absurd (omega arith)

  append_keys :
      (xs ys : List (QueueItem F)) {k : Kind × ℕ} {ks : List (Kind × ℕ)}
      → map item_key xs ≡ k ∷ []
      → map item_key ys ≡ ks
      → map item_key (xs ++ ys) ≡ k ∷ ks
  append_keys xs ys h k = rw (map-append item_key xs ys) (rw (h, k) refl)

  no_keys :
      (xs ys : List (QueueItem F)) {ks : List (Kind × ℕ)}
      → map item_key xs ≡ []
      → map item_key ys ≡ ks
      → map item_key (xs ++ ys) ≡ ks
  no_keys xs ys h k = rw (map-append item_key xs ys) (rw (h, k) refl)

  field_items-keys :
      (threshold : F) (filters : Filters F) (regs : List Regulation)
      (fields : Keyed (RegulationField F))
      → Refers (λ f. f.regulation_id) regs fields
      → map item_key (field_items threshold filters regs fields)
        ≡ map (λ row. (field, row.0)) (having (waiting_field filters regs) fields)
  unfolding field_items field_item
  field_items-keys threshold filters regs [] h = refl
  field_items-keys threshold filters regs ((id, f) ∷ fields) h =
      let rest = field_items-keys threshold filters regs fields h.1 in
      let js = joined_with filters f.regulation_id regs in
      let size = joined_with-one filters f.regulation_id regs h.0 in
      elim (Bool-cases (is_pending f.review_status && in_range filters f.confidence)) [
        | inl p ↦ elim (Bool-cases (is_admitted filters.jurisdiction f.regulation_id regs)) [
          | inl a ↦
              let here =
                one_key (field_item threshold id f) (field, id) js (λ x. refl) (rw a at size) in
              let w : waiting_field filters regs f ≡ true = ground arith in
              rw (p, w) (append_keys _ _ here rest)
          | inr a ↦
              let none_here = no_key (field_item threshold id f) js (rw a at size) in
              let w : waiting_field filters regs f ≡ false = ground arith in
              rw (p, w) (no_keys _ _ none_here rest)
        ]
        | inr p ↦ let w : waiting_field filters regs f ≡ false = ground arith in rw (p, w) rest
      ]

  condition_items-keys :
      (threshold : F) (filters : Filters F) (regs : List Regulation) (conds : Keyed (Condition F))
      → Refers (λ c. c.regulation_id) regs conds
      → map item_key (condition_items threshold filters regs conds)
        ≡ map (λ row. (condition, row.0)) (having (waiting_condition filters regs) conds)
  unfolding condition_items condition_item
  condition_items-keys threshold filters regs [] h = refl
  condition_items-keys threshold filters regs ((id, c) ∷ conds) h =
      let rest = condition_items-keys threshold filters regs conds h.1 in
      let js = joined_with filters c.regulation_id regs in
      let size = joined_with-one filters c.regulation_id regs h.0 in
      elim (Bool-cases (is_pending c.review_status && in_range filters c.confidence)) [
        | inl p ↦ elim (Bool-cases (is_admitted filters.jurisdiction c.regulation_id regs)) [
          | inl a ↦
              let here =
                one_key (condition_item threshold id c) (condition, id) js (λ x. refl)
                  (rw a at size) in
              let w : waiting_condition filters regs c ≡ true = ground arith in
              rw (p, w) (append_keys _ _ here rest)
          | inr a ↦
              let none_here = no_key (condition_item threshold id c) js (rw a at size) in
              let w : waiting_condition filters regs c ≡ false = ground arith in
              rw (p, w) (no_keys _ _ none_here rest)
        ]
        | inr p ↦ let w : waiting_condition filters regs c ≡ false = ground arith in rw (p, w) rest
      ]

  -- The rows that wait for a reviewer and pass the filters, each with its kind.
  abbrev pub waiting :
      Filters F
      → List Regulation
      → Keyed (RegulationField F)
      → Keyed (Condition F)
      → List (Kind × ℕ)
  waiting filters regs fields conds =
      map (λ row. (field, row.0)) (having (waiting_field filters regs) fields)
      ++ map (λ row. (condition, row.0)) (having (waiting_condition filters regs) conds)

  queue_items-perm :
      (threshold : F) (regs : List Regulation) (fields : Keyed (RegulationField F))
      (conds : Keyed (Condition F)) (filters : Filters F)
      → Refers (λ f. f.regulation_id) regs fields
      → Refers (λ c. c.regulation_id) regs conds
      → Perm
          (map item_key (queue_items threshold filters regs fields conds))
          (waiting filters regs fields conds)
  unfolding queue_items
  queue_items-perm threshold regs fields conds filters hf hc =
      let fs = field_items threshold filters regs fields in
      let cs = condition_items threshold filters regs conds in
      subst (λ keys. Perm (map item_key (queue_items threshold filters regs fields conds)) keys)
        (map-append item_key fs cs
          ∙ (ap (λ l. l ++ map item_key cs) (field_items-keys threshold filters regs fields hf)
              ∙ ap
                  (λ l.
                    map (λ row. (field, row.0)) (having (waiting_field filters regs) fields) ++ l)
                  (condition_items-keys threshold filters regs conds hc)))
        (Perm.map item_key (sort-perm less_confident (fs ++ cs)))

  queue_items-IsSorted :
      (o : IsOrdered fl) (threshold : F) (regs : List Regulation)
      (fields : Keyed (RegulationField F)) (conds : Keyed (Condition F)) (filters : Filters F)
      → IsSorted less_confident (queue_items threshold filters regs fields conds)
  unfolding queue_items
  queue_items-IsSorted o threshold regs fields conds filters =
      sort-IsSorted less_confident
        (λ x y h. o.flt_fle y.confidence x.confidence (o.fle_false x.confidence y.confidence h))
        (λ x y z h k. o.fle_trans x.confidence y.confidence z.confidence h k)
        (field_items threshold filters regs fields ++ condition_items threshold filters regs conds)

  -- A reviewer who turns all pages of the queue, whatever the page size, sees every pending field and
  -- condition within the filters exactly once, the least confident first, on floats without NaN and
  -- where each row names one regulation: a row is within the filters if its confidence lies in the
  -- range and its regulation is of the jurisdiction, if one was given.
  pub review_queue_shows_all :
      (o : IsOrdered fl) (threshold : F) (regs : List Regulation)
      (fields : Keyed (RegulationField F)) (conds : Keyed (Condition F)) (filters : Filters F)
      (per_page : ℤ)
      → Refers (λ f. f.regulation_id) regs fields
      → Refers (λ c. c.regulation_id) regs conds
      → let pages =
          total_pages (review_queue threshold regs fields conds filters (pos 1) per_page).page in
        let all = shown threshold regs fields conds filters per_page pages in
        Perm (map item_key all) (waiting filters regs fields conds) × IsSorted less_confident all
  unfolding review_queue
  review_queue_shows_all o threshold regs fields conds filters per_page hf hc =
      let items = queue_items threshold filters regs fields conds in
      let size = pos (clamp_per_page per_page) in
      let count = total_pages (build_page (pos 1) size (length items)) in
      let whole : shown threshold regs fields conds filters per_page count ≡ items =
        shown-first_pages threshold regs fields conds filters per_page count
        ∙ first_pages_cover size items in
      subst
        (λ all.
          Perm (map item_key all) (waiting filters regs fields conds) × IsSorted less_confident all)
        (sym whole)
        (
          queue_items-perm threshold regs fields conds filters hf hc,
          queue_items-IsSorted o threshold regs fields conds filters,
        )
