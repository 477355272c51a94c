-- ===== src/Ui/Unmirrored.antt =====
-- What a correction of one edge does to its inverse.
use compliance_wizard_engine.Prelude.{
  ℕ, ◌≡◌, ◌≢◌, refl, sym, subst, true, false, some, [], ◌∷◌, text, ◌==◌, nat_eq, nat_beq_iff,
  text_eq, text_beq_iff, arith, Bool-cases, inl, inr,
}
use compliance_wizard_engine.Vocabulary.{
  RelationType, inverse, inverse_involutive, relation_beq_iff,
}
use compliance_wizard_engine.Store.{Edge}
use compliance_wizard_engine.Relations.Resolver.{is_edge, has_edge}
use compliance_wizard_engine.Relations.Mirrors.{IsMirrored}
use compliance_wizard_engine.Ui.Tables.{Keyed, rows, get, delete, HasKeys, has_key, delete-absent}
use compliance_wizard_engine.Ui.Corrections.{EdgeAction, edge_action, edge_clash}

module _ {F : Type 0} where
  -- No other row has the key of an edge: uq_relationship_edge.
  abbrev pub IsOnly : ℕ → Edge F → Keyed (Edge F) → Type 0
  IsOnly id e table = edge_clash id e table ≡ false

  has_edge-of_get :
      (id : ℕ) (table : Keyed (Edge F)) {e : Edge F}
      → get id table ≡ some e
      → has_edge (rows table) e.source_reg_id e.target_reg_id e.relation_type ≡ true
  unfolding get
  has_edge-of_get id [] h = cc
  has_edge-of_get id ((k, x) ∷ table) {e = e} h = ground (
    arith,
    has_edge-of_get id table {e = e},
    nat_beq_iff e.source_reg_id e.source_reg_id,
    nat_beq_iff e.target_reg_id e.target_reg_id,
    relation_beq_iff e.relation_type e.relation_type,
  )

  -- After the deletion of an edge that no other row repeats, there is no such edge.
  deleted :
      (id : ℕ) (e : Edge F) (table : Keyed (Edge F))
      → IsOnly id e table
      → has_edge (rows (delete id table)) e.source_reg_id e.target_reg_id e.relation_type ≡ false
  unfolding delete edge_clash
  deleted id e [] h = refl
  deleted id e ((k, x) ∷ table) h = ground (arith, deleted id e table)

  -- Any other edge is still there.
  still_there :
      (id : ℕ) (e : Edge F) (table : Keyed (Edge F)) (a b : ℕ) (t : RelationType)
      → HasKeys table
      → get id table ≡ some e
      → is_edge a b t e ≡ false
      → has_edge (rows table) a b t ≡ true
      → has_edge (rows (delete id table)) a b t ≡ true
  unfolding delete get
  still_there id e [] a b t u h n m = cc
  still_there id e ((k, x) ∷ table) a b t u h n m = elim (Bool-cases (k == id)) [
    | inl same ↦
        let at : k ≡ id = (nat_beq_iff k id).0 same in
        let rest : delete id table ≡ table =
          delete-absent id table (subst (λ n. has_key n table ≡ false) at u.0) in
        let own : x ≡ e = ground arith in
        let off : is_edge a b t x ≡ false = subst (λ y. is_edge a b t y ≡ false) (sym own) n in
        rw same (rw rest (ground arith))
    | inr other ↦ ground (arith, still_there id e table a b t u.1)
  ]

  not_own :
      (e : Edge F) (a : ℕ) (t : RelationType)
      → e.source_reg_id ≢ a
      → is_edge a e.source_reg_id t e ≡ false
  not_own e a t h = ground (arith, nat_beq_iff e.source_reg_id a)

  edge_action-delete :
      (id : ℕ) (b : EdgeAction) (table : Keyed (Edge F)) (e : Edge F)
      → get id table ≡ some e
      → b.action ≡ text "delete"
      → (edge_action id b table).0 ≡ delete id table
  unfolding edge_action
  edge_action-delete id b table e h act =
      rw (h, edge_action) (rw ((text_beq_iff b.action (text "delete")).1 act) refl)

  -- Deleting an edge leaves its inverse behind: the edges, each of which had its inverse, are no
  -- longer so, for an edge between two regulations that no other row repeats.
  pub edge_delete_unmirrors :
      (id : ℕ) (b : EdgeAction) (table : Keyed (Edge F)) (e : Edge F)
      → HasKeys table
      → get id table ≡ some e
      → IsOnly id e table
      → e.source_reg_id ≢ e.target_reg_id
      → IsMirrored (rows table)
      → b.action ≡ text "delete"
      → ¬ IsMirrored (rows (edge_action id b table).0)
  edge_delete_unmirrors id b table e keys h only apart mirrored act after =
      let src = e.source_reg_id in
      let tgt = e.target_reg_id in
      let t = e.relation_type in
      let there =
        still_there id e table tgt src (inverse t) keys h (not_own e tgt (inverse t) apart)
          (mirrored src tgt t (has_edge-of_get id table h)) in
      let left = subst (λ l. IsMirrored (rows l)) (edge_action-delete id b table e h act) after in
      let found =
        subst (λ u. has_edge (rows (delete id table)) src tgt u ≡ true) (inverse_involutive t)
          (left tgt src (inverse t) there) in
      cc (found, deleted id e table only)
