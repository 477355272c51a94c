-- ===== src/Relations/Completeness.antt =====
-- The recursive queries find everything that can be reached, in a number of rounds that the number
-- of edges bounds.
use compliance_wizard_engine.Prelude.{
  ℕ, zero, suc, ◌+◌, ◌≤◌, ◌<◌, ◌≡◌, ◌≢◌, ◌↔◌, inl, inr, refl, sym, ap, subst, Bool, true, false,
  List, [], ◌∷◌, any_iff, Any, Any-append_left, Any-append_right, Any-map, Any-All, Any-elim,
  contains, length, nat_eq, arith,
}
use compliance_wizard_engine.Vocabulary.{RelationType, relation_beq}
use compliance_wizard_engine.Store.{Edge}
use compliance_wizard_engine.Relations.Walks.{
  Row, start_rows, extend, step, walk, all_rows, path_exists,
}
use compliance_wizard_engine.Relations.Reachability.{has_link, Reach, all_rows_sound}
use compliance_wizard_engine.Relations.SimpleWalks.{
  Simple, start, next, Simple-of_Reach, unvisited, unvisited-lt, unvisited-cons_lt,
}

module _ {F : Type 0} (ok : RelationType → Bool) (edges : List (Edge F)) (id : ℕ) where
  abbrev Ends : ℕ → List ℕ → Row → Type 0
  Ends b p row = (row.node ≡ b) × (row.path ≡ p)

  abbrev level : ℕ → List Row → List Row
  level zero rows = rows
  level (suc k) rows = step ok edges (level k rows)

  level-step : (k : ℕ) (rows : List Row) → level k (step ok edges rows) ≡ level (suc k) rows
  level-step zero rows = refl
  level-step (suc k) rows = ap (step ok edges) (level-step k rows)

  start_rows_complete :
      (b : ℕ) (es : List (Edge F))
      → has_link ok es id b ≡ true
      → Any (Ends b (b ∷ id ∷ [])) (start_rows ok id es)
  unfolding start_rows
  start_rows_complete b [] h = cc
  start_rows_complete b (e ∷ es) h = ground (arith, start_rows_complete b es)

  extend_complete :
      (row : Row) (b c : ℕ) (p : List ℕ) (es : List (Edge F))
      → Ends b p row
      → has_link ok es b c ≡ true
      → contains c p ≡ false
      → Any (Ends c (c ∷ p)) (extend ok row es)
  unfolding extend
  extend_complete row b c p [] at h new = cc
  extend_complete row b c p (e ∷ es) at h new = ground (arith, extend_complete row b c p es at)

  step_complete :
      (b c : ℕ) (p : List ℕ) (rows : List Row)
      → Any (Ends b p) rows
      → has_link ok edges b c ≡ true
      → contains c p ≡ false
      → Any (Ends c (c ∷ p)) (step ok edges rows)
  unfolding step
  step_complete b c p [] at h new = absurd at
  step_complete b c p (row ∷ rows) (inl at) h new =
      Any-append_left _ (extend ok row edges) (step ok edges rows)
        (extend_complete row b c p edges at h new)
  step_complete b c p (row ∷ rows) (inr at) h new =
      Any-append_right _ (extend ok row edges) (step ok edges rows)
        (step_complete b c p rows at h new)

  -- A simple walk stands in the round of its length, which is below the number of edges.
  Simple-level :
      {p : List ℕ} {b : ℕ}
      → Simple ok edges id p b
      → (k : ℕ) × (length p ≡ k + 2)
        × (length p + unvisited p edges ≤ length edges + 1)
        × Any (Ends b p) (level k (start_rows ok id edges))
  Simple-level (start {b = b} h) = (
    0,
    omega arith,
    omega (arith, unvisited-lt ok (b ∷ id ∷ []) id b edges h (ground arith)),
    start_rows_complete b edges h,
  )
  Simple-level (next {p = p} {b = b} {c = c} s h new) =
      let (k, len, bound, at) = Simple-level s in
      (
        suc k,
        omega (arith, len),
        omega (arith, bound, unvisited-cons_lt ok p b c edges h new),
        step_complete b c p (level k (start_rows ok id edges)) at h new,
      )

  walk-level :
      (Q : Row → Type 0) (n k : ℕ) (rows : List Row)
      → k < n
      → Any Q (level k rows)
      → Any Q (walk ok n edges rows)
  unfolding walk
  walk-level Q zero k rows lt at = elim lt [ ]
  walk-level Q (suc n) zero rows lt at =
      Any-append_left Q rows (walk ok n edges (step ok edges rows)) at
  walk-level Q (suc n) (suc k) rows lt at =
      Any-append_right Q rows (walk ok n edges (step ok edges rows)) (
        walk-level Q n k (step ok edges rows) (omega arith)
          (subst (Any Q) (sym (level-step k rows)) at))

  pub all_rows_complete :
      (b : ℕ) → Reach ok edges id b → b ≢ id → Any (λ row. row.node ≡ b) (all_rows ok id edges)
  unfolding all_rows
  all_rows_complete b r ne =
      let (p, s) = Simple-of_Reach ok edges id r ne in
      let (k, len, bound, at) = Simple-level s in
      walk-level (λ row. row.node ≡ b) (length edges) k (start_rows ok id edges)
        (omega (arith, len, bound)) (Any-map (λ row h. h.0) (level k (start_rows ok id edges)) at)

-- For two different regulations the query is true exactly when a directed path of edges of the type
-- runs from the first to the second.
pub path_exists_iff :
    {F : Type 0} (edges : List (Edge F)) (from to : ℕ) (rt : RelationType)
    → from ≢ to
    → (path_exists edges from to rt ≡ true) ↔ Reach (relation_beq rt) edges from to
unfolding path_exists
path_exists_iff edges from to rt ne = (
  λ h.
      Any-elim (λ row r. r) (all_rows (relation_beq rt) from edges)
        (Any-All (λ row r e. subst (Reach (relation_beq rt) edges from) (ground arith) r)
          (all_rows (relation_beq rt) from edges) (all_rows_sound (relation_beq rt) edges from)
          ((any_iff _ (all_rows (relation_beq rt) from edges)).0 h)),
  λ r. (any_iff _ (all_rows (relation_beq rt) from edges)).1 (
      Any-map (λ row e. ground arith) (all_rows (relation_beq rt) from edges)
        (all_rows_complete (relation_beq rt) edges from to r (λ e. ne (sym e)))),
)
