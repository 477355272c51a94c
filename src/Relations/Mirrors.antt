-- ===== src/Relations/Mirrors.antt =====
-- What `resolve_relationships` keeps of the graph: each edge has its inverse, no edge is a loop, and
-- no two regulations share an id or a source id.
use compliance_wizard_engine.Prelude.{
  ℕ, suc, ◌<◌, ◌≡◌, ◌≢◌, inl, inr, refl, sym, subst, ◌∙◌, Bool, true, false, Bool-cases, none, some,
  Option-cases, List, [], ◌∷◌, ◌++◌, any, any-append, All, All-append, All-map, find, is_nil, ◌==◌,
  nat_eq, text_eq, text_beq_iff, Text, text, Floats, arith,
}
use compliance_wizard_engine.Vocabulary.{
  RelationType, references, inverse, inverse_involutive, relation_beq_iff, RelationSource,
  text_extracted, api_sourced,
}
use compliance_wizard_engine.Store.{Regulation, Edge}
use compliance_wizard_engine.Schemas.{ApiSourcedRelationship}
use compliance_wizard_engine.Relations.Identifiers.{normalize_identifier}
use compliance_wizard_engine.Relations.Resolver.{
  Graph, stub_of, edge_of, has_edge, insert_edge, write_edge, get_or_create_stub, relate,
  resolve_mentions, resolve_api, resolve_relationships,
}
use compliance_wizard_engine.Relations.Cycles.{has_edge-insert}
use compliance_wizard_engine.Relations.Keys.{
  IsKeyed, by_id, by_source, IsKeyed-append, find-none-any, find-some_holds, find-append,
  found_twice, below-fresh,
}

module _ {F : Type 0} where
  abbrev pub IsMirrored : List (Edge F) → Type 0
  IsMirrored edges =
      (a b : ℕ) (t : RelationType)
      → has_edge edges a b t ≡ true
      → has_edge edges b a (inverse t) ≡ true

  abbrev is_loop : Edge F → Bool
  is_loop e = e.source_reg_id == e.target_reg_id

  abbrev pub has_loop : List (Edge F) → Bool
  has_loop edges = any is_loop edges

  write_edge-IsMirrored :
      (edges : List (Edge F)) (src tgt : ℕ) (rtype : RelationType) (ref : Text) (conf : F)
      (source : RelationSource)
      → IsMirrored edges
      → IsMirrored (write_edge edges src tgt rtype ref conf source)
  unfolding write_edge
  write_edge-IsMirrored edges src tgt rtype ref conf source m a b t h =
      let new = edge_of src tgt rtype ref conf source in
      let back = edge_of tgt src (inverse rtype) ref conf source in
      ground (
        arith,
        m a b t,
        has_edge-insert edges new a b t,
        has_edge-insert (insert_edge edges new) back a b t,
        has_edge-insert edges new b a (inverse t),
        has_edge-insert (insert_edge edges new) back b a (inverse t),
        relation_beq_iff t rtype,
        relation_beq_iff t (inverse rtype),
        relation_beq_iff (inverse t) rtype,
        relation_beq_iff (inverse t) (inverse rtype),
        inverse_involutive rtype,
      )

  insert_edge-loop :
      (edges : List (Edge F)) (e : Edge F)
      → has_loop edges ≡ false
      → is_loop e ≡ false
      → has_loop (insert_edge edges e) ≡ false
  unfolding insert_edge
  insert_edge-loop edges e h k = ground (arith, any-append is_loop edges (e ∷ []))

  write_edge-loop :
      (edges : List (Edge F)) (src tgt : ℕ) (rtype : RelationType) (ref : Text) (conf : F)
      (source : RelationSource)
      → src ≢ tgt
      → has_loop edges ≡ false
      → has_loop (write_edge edges src tgt rtype ref conf source) ≡ false
  unfolding write_edge
  write_edge-loop edges src tgt rtype ref conf source ne h =
      let new = edge_of src tgt rtype ref conf source in
      let back = edge_of tgt src (inverse rtype) ref conf source in
      ground (arith, insert_edge-loop edges new h, insert_edge-loop (insert_edge edges new) back)

module _ {F : Type 0} where
  pub record IsConsistent (g : Graph F) : Type 0 where
    pub mirrored : IsMirrored g.edges
    pub no_loop : has_loop g.edges ≡ false
    pub keyed : IsKeyed g.regulations
    pub below : All (λ r. r.id < g.fresh) g.regulations

  -- The regulation that the relationships start from.
  abbrev pub IsSource : ℕ → Text → Graph F → Type 0
  IsSource id source_sid g =
      (r : Regulation) × (find (by_id id) g.regulations ≡ some r) × (r.source_id ≡ source_sid)

  stub-IsConsistent :
      (g : Graph F) (sid : Text)
      → find (by_source sid) g.regulations ≡ none
      → IsConsistent g
      → IsConsistent (get_or_create_stub g sid).0
  unfolding get_or_create_stub
  stub-IsConsistent g sid missing c =
      rw (missing, get_or_create_stub)
        (record {
          mirrored = c.mirrored;
          no_loop = c.no_loop;
          keyed =
              IsKeyed-append g.regulations (stub_of g.fresh sid) c.keyed
                (below-fresh g.regulations g.fresh c.below)
                (find-none-any (by_source sid) g.regulations missing);
          below =
              All-append (λ r. r.id < suc g.fresh) g.regulations (stub_of g.fresh sid ∷ [])
                (All-map _ _ (λ r h. omega arith) g.regulations c.below) (omega arith, tt);
        })

  abbrev with_stub : Graph F → Text → Graph F
  with_stub g sid = record g {
    regulations = g.regulations ++ stub_of g.fresh sid ∷ [];
    fresh = suc g.fresh;
  }

  fresh_differs :
      (g : Graph F) (id : ℕ) (r : Regulation)
      → IsConsistent g
      → find (by_id id) g.regulations ≡ some r
      → id ≢ g.fresh
  fresh_differs g id r c found e =
      let held = find-some_holds (by_id id) g.regulations r found in
      let absent = below-fresh g.regulations g.fresh c.below in
      cc (subst (λ n. any (by_id n) g.regulations ≡ true) e held.1, absent)

  linked :
      (id target : ℕ) (source_sid : Text) (rtype : RelationType) (ref : Text) (conf : F)
      (source : RelationSource) (g : Graph F)
      → IsSource id source_sid g
      → IsConsistent g
      → id ≢ target
      → IsConsistent (record g { edges = write_edge g.edges id target rtype ref conf source })
        × IsSource id source_sid
            (record g { edges = write_edge g.edges id target rtype ref conf source })
  linked id target source_sid rtype ref conf source g from c ne = (
    record {
      mirrored = write_edge-IsMirrored g.edges id target rtype ref conf source c.mirrored;
      no_loop = write_edge-loop g.edges id target rtype ref conf source ne c.no_loop;
      keyed = c.keyed;
      below = c.below;
    },
    from,
  )

  -- One relationship keeps the graph consistent, and its source in place.
  relate-IsConsistent :
      (id : ℕ) (source_sid target_sid : Text) (rtype : RelationType) (ref : Text) (conf : F)
      (source : RelationSource) (g : Graph F)
      → IsSource id source_sid g
      → IsConsistent g
      → IsConsistent (relate id source_sid target_sid rtype ref conf source g)
        × IsSource id source_sid (relate id source_sid target_sid rtype ref conf source g)
  unfolding relate
  relate-IsConsistent id source_sid target_sid rtype ref conf source g from c =
      elim (Bool-cases (target_sid == source_sid)) [
        | inl e ↦ rw (e, relate) (c, from)
        | inr e ↦
            let apart : source_sid ≢ target_sid =
              (λ q. ground (arith, text_beq_iff target_sid source_sid)) in
            elim (Option-cases (find (by_source target_sid) g.regulations)) [
              | inr (reg, found) ↦
                  rw (e, found, relate, get_or_create_stub)
                    (linked id reg.id source_sid rtype ref conf source g from c (λ q. apart (
                      sym from.2
                      ∙ found_twice g.regulations id target_sid from.0 reg c.keyed from.1 found
                          (sym q))))
              | inl missing ↦
                  rw (e, missing, relate, get_or_create_stub)
                    (linked id g.fresh source_sid rtype ref conf source (with_stub g target_sid)
                      (from.0, find-append (by_id id) g.regulations _ from.0 from.1, from.2)
                      (rw (missing, get_or_create_stub) at
                        (stub-IsConsistent g target_sid missing c))
                      (λ q. fresh_differs g id from.0 c from.1 q))
            ]
      ]

  module _ ⦃fl : Floats F⦄ where
    resolve_mentions-IsConsistent :
        (id : ℕ) (sid : Text) (mentions : List Text) (g : Graph F)
        → IsSource id sid g
        → IsConsistent g
        → IsConsistent (resolve_mentions id sid mentions g)
          × IsSource id sid (resolve_mentions id sid mentions g)
    unfolding resolve_mentions
    resolve_mentions-IsConsistent id sid [] g from c = (c, from)
    resolve_mentions-IsConsistent id sid (m ∷ ms) g from c =
        let next =
          relate-IsConsistent id sid (normalize_identifier m) references m (fl.milli 500)
            text_extracted g from c in
        resolve_mentions-IsConsistent id sid ms _ next.1 next.0

    resolve_api-IsConsistent :
        (id : ℕ) (sid : Text) (rels : List (ApiSourcedRelationship F)) (g : Graph F)
        → IsSource id sid g
        → IsConsistent g
        → IsConsistent (resolve_api id sid rels g)
    unfolding resolve_api
    resolve_api-IsConsistent id sid [] g from c = c
    resolve_api-IsConsistent id sid (rel ∷ rels) g from c =
        let target = normalize_identifier rel.target_source_id in
        elim (Bool-cases (is_nil target)) [
          | inl e ↦ rw (e, resolve_api) (resolve_api-IsConsistent id sid rels g from c)
          | inr e ↦
              let next =
                relate-IsConsistent id sid target rel.relation_type (text "api") rel.confidence
                  api_sourced g from c in
              rw (e, resolve_api) (resolve_api-IsConsistent id sid rels _ next.1 next.0)
        ]

    -- Resolving the mentions and the relationships of a regulation keeps the graph consistent: each
    -- edge has its inverse, no edge is a loop, and ids and source ids stay unique among the
    -- regulations, the new stubs included.
    pub resolve_relationships-IsConsistent :
        (id : ℕ) (mentions : List Text) (rels : List (ApiSourcedRelationship F)) (g : Graph F)
        → IsConsistent g
        → IsConsistent (resolve_relationships id mentions rels g)
    unfolding resolve_relationships
    resolve_relationships-IsConsistent id mentions rels g c =
        elim (Option-cases (find (by_id id) g.regulations)) [
          | inl e ↦ rw (e, resolve_relationships) c
          | inr (r, e) ↦
              let next = resolve_mentions-IsConsistent id r.source_id mentions g (r, e, refl) c in
              rw (e, resolve_relationships)
                (resolve_api-IsConsistent id r.source_id rels _ next.1 next.0)
        ]
