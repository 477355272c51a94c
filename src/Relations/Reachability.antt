-- ===== src/Relations/Reachability.antt =====
-- The recursive queries find exactly what can be reached, and their recursion ends: the walks of
-- `_path_exists` against reachability as an inductive relation.
use compliance_wizard_engine.Prelude.{
  ℕ, zero, suc, ◌≡◌, inl, inr, Bool, true, ◌&&◌, not, Bool-cases, List, [], ◌∷◌, any, All,
  All-append, contains, length, ◌==◌, nat_eq, arith,
}
use compliance_wizard_engine.Vocabulary.{RelationType}
use compliance_wizard_engine.Store.{Edge}
use compliance_wizard_engine.Relations.Walks.{Row, start_rows, extend, step, walk, all_rows}

module _ {F : Type 0} (ok : RelationType → Bool) where
  abbrev pub is_link : ℕ → ℕ → Edge F → Bool
  is_link a b e = e.source_reg_id == a && e.target_reg_id == b && ok e.relation_type

  abbrev pub has_link : List (Edge F) → ℕ → ℕ → Bool
  has_link edges a b = any (is_link a b) edges

  -- A directed path of at least one edge.
  pub data Reach (edges : List (Edge F)) (a : ℕ) : ℕ → Type 0 where
    one : {b : ℕ} → has_link edges a b ≡ true → Reach edges a b
    more : {b c : ℕ} → Reach edges a b → has_link edges b c ≡ true → Reach edges a c

  pub Reach-append :
      {edges : List (Edge F)} {a b c : ℕ} → Reach edges a b → Reach edges b c → Reach edges a c
  Reach-append r (one h) = more r h
  Reach-append r (more q h) = more (Reach-append r q) h

  -- More links, more paths.
  pub Reach-mono :
      {old new : List (Edge F)} {a b : ℕ}
      → ((x y : ℕ) → has_link old x y ≡ true → has_link new x y ≡ true)
      → Reach old a b
      → Reach new a b
  Reach-mono {a = a} f (one {b = b} h) = one (f a b h)
  Reach-mono f (more {b = b} {c = c} r h) = more (Reach-mono f r) (f b c h)

-- Soundness: the node of every row is reachable.
module _ {F : Type 0} (ok : RelationType → Bool) (edges : List (Edge F)) (id : ℕ) where
  abbrev IsReached : Row → Type 0
  IsReached row = Reach ok edges id row.node

  -- The edges of a part of the table are edges of the table.
  abbrev Part : List (Edge F) → Type 0
  Part es = (a b : ℕ) → has_link ok es a b ≡ true → has_link ok edges a b ≡ true

  Part-tail : (e : Edge F) (es : List (Edge F)) → Part (e ∷ es) → Part es
  Part-tail e es part a b h = part a b (ground arith)

  start_rows_sound : (es : List (Edge F)) → Part es → All IsReached (start_rows ok id es)
  unfolding start_rows
  start_rows_sound [] part = tt
  start_rows_sound (e ∷ es) part =
      let rest = start_rows_sound es (Part-tail e es part) in
      elim (Bool-cases (e.source_reg_id == id && ok e.relation_type)) [
        | inl h ↦ rw h (one (part id e.target_reg_id (ground arith)), rest)
        | inr h ↦ rw h rest
      ]

  extend_sound :
      (row : Row) (es : List (Edge F)) → IsReached row → Part es → All IsReached (extend ok row es)
  unfolding extend
  extend_sound row [] r part = tt
  extend_sound row (e ∷ es) r part =
      let rest = extend_sound row es r (Part-tail e es part) in
      elim (Bool-cases (
        e.source_reg_id == row.node
        && ok e.relation_type
        && not (contains e.target_reg_id row.path))) [
          | inl h ↦ rw h (more r (part row.node e.target_reg_id (ground arith)), rest)
          | inr h ↦ rw h rest
        ]

  step_sound : (rows : List Row) → All IsReached rows → All IsReached (step ok edges rows)
  unfolding step
  step_sound [] r = tt
  step_sound (row ∷ rows) r =
      All-append IsReached (extend ok row edges) (step ok edges rows)
        (extend_sound row edges r.0 (λ a b h. h)) (step_sound rows r.1)

  walk_sound : (n : ℕ) (rows : List Row) → All IsReached rows → All IsReached (walk ok n edges rows)
  unfolding walk
  walk_sound zero rows r = tt
  walk_sound (suc n) rows r =
      All-append IsReached rows (walk ok n edges (step ok edges rows)) r
        (walk_sound n (step ok edges rows) (step_sound rows r))

  pub all_rows_sound : All IsReached (all_rows ok id edges)
  unfolding all_rows
  all_rows_sound =
      walk_sound (length edges) (start_rows ok id edges) (start_rows_sound edges (λ a b h. h))
