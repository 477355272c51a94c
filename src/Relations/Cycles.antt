-- ===== src/Relations/Cycles.antt =====
-- The cycle guard of `_write_edge`: what it keeps free of cycles, and the edges that it misses.
use compliance_wizard_engine.Prelude.{
  ℕ, ◌≡◌, ◌≢◌, ◌⊎◌, inl, inr, sym, ◌∙◌, subst, true, false, ◌||◌, Bool-cases, List, [], ◌∷◌,
  any-append, nat_eq, Text, arith,
}
use compliance_wizard_engine.Vocabulary.{
  RelationType, amends, amended_by, inverse, relation_beq, relation_beq_iff, RelationSource,
}
use compliance_wizard_engine.Store.{Edge}
use compliance_wizard_engine.Relations.Walks.{path_exists}
use compliance_wizard_engine.Relations.Resolver.{
  edge_of, is_edge, has_edge, insert_edge, is_guarded, write_edge,
}
use compliance_wizard_engine.Relations.Reachability.{Reach, one, more, Reach-append, Reach-mono}
use compliance_wizard_engine.Relations.Completeness.{path_exists_iff}

module _ {F : Type 0} where
  pub has_edge-insert :
      (edges : List (Edge F)) (e : Edge F) (a b : ℕ) (t : RelationType)
      → has_edge (insert_edge edges e) a b t ≡ (has_edge edges a b t || is_edge a b t e)
  unfolding insert_edge
  has_edge-insert edges e a b t = ground (
    arith,
    any-append (is_edge a b t) edges (e ∷ []),
    relation_beq_iff t e.relation_type,
    relation_beq_iff e.relation_type e.relation_type,
  )

  -- No directed path of edges of the type comes back to its start.
  abbrev pub IsAcyclic : RelationType → List (Edge F) → Type 0
  IsAcyclic t edges = (a : ℕ) → ¬ (Reach (relation_beq t) edges a a)

  abbrev Extends : RelationType → List (Edge F) → List (Edge F) → ℕ → ℕ → Type 0
  Extends t old new src tgt =
      (a b : ℕ) → has_edge new a b t ≡ true → (has_edge old a b t ≡ true) ⊎ ((a ≡ src) × (b ≡ tgt))

  -- A path over one more edge is an old path, or runs to the edge's start and on from its end.
  Reach-extend :
      (t : RelationType) (old new : List (Edge F)) (src tgt : ℕ)
      → Extends t old new src tgt
      → {a b : ℕ} → Reach (relation_beq t) new a b
      → Reach (relation_beq t) old a b
        ⊎ (((a ≡ src) ⊎ Reach (relation_beq t) old a src)
            × ((tgt ≡ b) ⊎ Reach (relation_beq t) old tgt b))
  Reach-extend t old new src tgt ext {a} (one {b = b} h) = elim (ext a b h) [
    | inl o ↦ inl (one o)
    | inr (p, q) ↦ inr (inl p, inl (sym q))
  ]
  Reach-extend t old new src tgt ext {a} (more {b = b} {c = c} r h) =
      elim (Reach-extend t old new src tgt ext r) [
        | inl r' ↦ elim (ext b c h) [
          | inl o ↦ inl (more r' o)
          | inr (p, q) ↦ inr (inr (subst (Reach (relation_beq t) old a) p r'), inl (sym q))
        ]
        | inr (p, q) ↦ elim (ext b c h) [
          | inl o ↦ inr (
            p,
            inr (elim q [
              | inl e ↦ one (subst (λ k. has_edge old k c t ≡ true) (sym e) o)
              | inr s ↦ more s o
            ]),
          )
          | inr (e, f) ↦ inr (p, inl (sym f))
        ]
      ]

  write_edge-Extends :
      (edges : List (Edge F)) (src tgt : ℕ) (rtype t : RelationType) (ref : Text) (conf : F)
      (source : RelationSource)
      → inverse rtype ≢ t
      → Extends t edges (write_edge edges src tgt rtype ref conf source) src tgt
  unfolding write_edge
  write_edge-Extends edges src tgt rtype t ref conf source ne a b h =
      let new = edge_of src tgt rtype ref conf source in
      let back = edge_of tgt src (inverse rtype) ref conf source in
      ground (
        arith,
        has_edge-insert edges new a b t,
        has_edge-insert (insert_edge edges new) back a b t,
        relation_beq_iff t (inverse rtype),
      )

  -- Of another type nothing is written.
  write_edge-keeps :
      (edges : List (Edge F)) (src tgt : ℕ) (rtype t : RelationType) (ref : Text) (conf : F)
      (source : RelationSource)
      → relation_beq t rtype ≡ false
      → inverse rtype ≢ t
      → (a b : ℕ) → has_edge (write_edge edges src tgt rtype ref conf source) a b t ≡ true
      → has_edge edges a b t ≡ true
  unfolding write_edge
  write_edge-keeps edges src tgt rtype t ref conf source other ne a b h =
      let new = edge_of src tgt rtype ref conf source in
      let back = edge_of tgt src (inverse rtype) ref conf source in
      ground (
        arith,
        has_edge-insert edges new a b t,
        has_edge-insert (insert_edge edges new) back a b t,
        relation_beq_iff t (inverse rtype),
      )

  -- A cycle after the write gives a path that the guard would have found.
  closing :
      (edges : List (Edge F)) (src tgt : ℕ) (rtype t : RelationType) (ref : Text) (conf : F)
      (source : RelationSource)
      → inverse rtype ≢ t
      → src ≢ tgt
      → IsAcyclic t edges
      → {a : ℕ} → Reach (relation_beq t) (write_edge edges src tgt rtype ref conf source) a a
      → Reach (relation_beq t) edges tgt src
  closing edges src tgt rtype t ref conf source ne apart acyclic {a} r =
      elim (Reach-extend t edges (write_edge edges src tgt rtype ref conf source) src tgt
        (write_edge-Extends edges src tgt rtype t ref conf source ne) r) [
          | inl old ↦ absurd (acyclic a old)
          | inr (inl p, inl q) ↦ absurd (apart (sym p ∙ sym q))
          | inr (inl p, inr q) ↦ subst (Reach (relation_beq t) edges tgt) p q
          | inr (inr p, inl q) ↦ subst (λ k. Reach (relation_beq t) edges k src) (sym q) p
          | inr (inr p, inr q) ↦ Reach-append (relation_beq t) q p
        ]

  write_edge-skipped :
      (edges : List (Edge F)) (src tgt : ℕ) (rtype t : RelationType) (ref : Text) (conf : F)
      (source : RelationSource)
      → is_guarded t ≡ true
      → t ≡ rtype
      → path_exists edges tgt src t ≡ true
      → write_edge edges src tgt rtype ref conf source ≡ edges
  unfolding write_edge
  write_edge-skipped edges src tgt rtype t ref conf source guarded e found =
      rw (← e) (rw (guarded, found))

  -- Writing an edge whose inverse is not of the guarded type t (amends or supersedes) keeps the
  -- edges of type t free of cycles; so does every write of an amends or a supersedes edge itself.
  pub write_edge-IsAcyclic :
      (edges : List (Edge F)) (src tgt : ℕ) (rtype t : RelationType) (ref : Text) (conf : F)
      (source : RelationSource)
      → is_guarded t ≡ true
      → inverse rtype ≢ t
      → src ≢ tgt
      → IsAcyclic t edges
      → IsAcyclic t (write_edge edges src tgt rtype ref conf source)
  write_edge-IsAcyclic edges src tgt rtype t ref conf source guarded ne apart acyclic a r =
      elim (Bool-cases (relation_beq t rtype)) [
        | inr other ↦ acyclic a (
            Reach-mono (relation_beq t)
              (write_edge-keeps edges src tgt rtype t ref conf source other ne) r)
        | inl same ↦
            let e : t ≡ rtype = (relation_beq_iff t rtype).0 same in
            elim (Bool-cases (path_exists edges tgt src t)) [
              | inl found ↦ acyclic a (
                  subst (λ l. Reach (relation_beq t) l a a)
                    (write_edge-skipped edges src tgt rtype t ref conf source guarded e found) r)
              | inr none_found ↦ cc (
                none_found,
                (path_exists_iff edges tgt src t (λ k. apart (sym k))).1
                    (closing edges src tgt rtype t ref conf source ne apart acyclic r),
              )
            ]
      ]

  -- The guard looks at the type that is written and not at its inverse: where a already amends b,
  -- directly or by others, an amended_by edge from a to b is written, and its inverse closes a
  -- cycle of amends edges.
  pub amended_by_closes_cycle :
      (edges : List (Edge F)) (src tgt : ℕ) (ref : Text) (conf : F) (source : RelationSource)
      → Reach (relation_beq amends) edges src tgt
      → Reach (relation_beq amends) (write_edge edges src tgt amended_by ref conf source) src src
  unfolding write_edge inverse
  amended_by_closes_cycle edges src tgt ref conf source r =
      let new = edge_of src tgt amended_by ref conf source in
      let back = edge_of tgt src amends ref conf source in
      let after = write_edge edges src tgt amended_by ref conf source in
      let kept : Reach (relation_beq amends) after src tgt =
        Reach-mono (relation_beq amends)
          (λ x y h. ground (
            arith,
            has_edge-insert edges new x y amends,
            has_edge-insert (insert_edge edges new) back x y amends,
          ))
          r in
      more kept (
        ground (
          arith,
          has_edge-insert (insert_edge edges new) back tgt src amends,
          relation_beq_iff amends amends,
        ))
