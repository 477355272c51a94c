-- ===== src/Relations/Walks.antt =====
-- The recursive queries of engine/relationship_resolver.py (`_path_exists`, `get_amendment_chain`):
-- rows that walk along edges of some types and never enter a node of their own path again. A round
-- of the recursion is `step`; the number of edges bounds the rounds (Reachability).
use compliance_wizard_engine.Prelude.{
  ℕ, zero, suc, ◌+◌, Bool, true, false, ◌&&◌, not, Option, none, some, List, [], ◌∷◌, ◌++◌, Text,
  any, find, contains, length, leb, ◌==◌, nat_eq, if◌then◌else◌, sort,
}
use compliance_wizard_engine.Vocabulary.{
  RelationType, amends, amended_by, supersedes, superseded_by, relation_beq,
}
use compliance_wizard_engine.Store.{Regulation, Edge}

-- `path` holds the nodes of the walk, the last one first.
pub record Row : Type 0 where
  pub node : ℕ
  pub rel : RelationType
  pub depth : ℕ
  pub path : List ℕ

module _ {F : Type 0} (ok : RelationType → Bool) where
  -- The rows in front of the recursion: the edges out of a node.
  unfoldable pub start_rows : ℕ → List (Edge F) → List Row
  start_rows id [] = []
  start_rows id (e ∷ edges) =
      if e.source_reg_id == id && ok e.relation_type
      then record {
        node = e.target_reg_id;
        rel = e.relation_type;
        depth = 1;
        path = e.target_reg_id ∷ e.source_reg_id ∷ [];
      }
        ∷ start_rows id edges
      else start_rows id edges

  -- The join of one row with the edges.
  unfoldable pub extend : Row → List (Edge F) → List Row
  extend row [] = []
  extend row (e ∷ edges) =
      if e.source_reg_id == row.node
        && ok e.relation_type
        && not (contains e.target_reg_id row.path)
      then record {
        node = e.target_reg_id;
        rel = e.relation_type;
        depth = row.depth + 1;
        path = e.target_reg_id ∷ row.path;
      }
        ∷ extend row edges
      else extend row edges

  unfoldable pub step : List (Edge F) → List Row → List Row
  unfolding extend
  step edges [] = []
  step edges (row ∷ rows) = extend row edges ++ step edges rows

  -- The rows of that many rounds.
  unfoldable pub walk : ℕ → List (Edge F) → List Row → List Row
  unfolding step
  walk zero edges rows = []
  walk (suc n) edges rows = rows ++ walk n edges (step edges rows)

  unfoldable pub all_rows : ℕ → List (Edge F) → List Row
  unfolding start_rows walk
  all_rows id edges = walk (length edges) edges (start_rows id edges)

-- `_path_exists`
unfoldable pub path_exists : {F : Type 0} → List (Edge F) → ℕ → ℕ → RelationType → Bool
path_exists edges from to rt = any (λ row. row.node == to) (all_rows (relation_beq rt) from edges)

-- _CHAIN_TYPES
unfoldable pub is_chain_type : RelationType → Bool
is_chain_type amends = true
is_chain_type amended_by = true
is_chain_type supersedes = true
is_chain_type superseded_by = true
is_chain_type _ = false

pub record ChainRow : Type 0 where
  pub regulation_id : ℕ
  pub source_id : Text
  pub title : Option Text
  pub relation_type : RelationType
  pub depth : ℕ

-- The join with the regulations, and SELECT DISTINCT.
abbrev pub same_chain_row : ChainRow → ChainRow → Bool
same_chain_row a b =
    a.regulation_id == b.regulation_id
    && relation_beq a.relation_type b.relation_type
    && a.depth == b.depth

unfoldable pub join_rows : List Regulation → List Row → List ChainRow
join_rows regs [] = []
join_rows regs (row ∷ rows) =
    let rest = join_rows regs rows in
    elim (find (λ r. r.id == row.node) regs) [
      | none ↦ rest
      | some reg ↦
          let out : ChainRow = record {
            regulation_id = reg.id;
            source_id = reg.source_id;
            title = reg.title;
            relation_type = row.rel;
            depth = row.depth;
          } in
          if any (same_chain_row out) rest then rest else out ∷ rest
    ]

unfoldable pub get_amendment_chain :
    {F : Type 0} → List Regulation → List (Edge F) → ℕ → List ChainRow
unfolding join_rows
get_amendment_chain regs edges id =
    sort (λ a b. leb a.depth b.depth) (join_rows regs (all_rows is_chain_type id edges))
