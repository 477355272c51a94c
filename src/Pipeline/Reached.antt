-- ===== src/Pipeline/Reached.antt =====
-- The tables that any number of ingested documents can lead to, and what holds of all of them.
use compliance_wizard_engine.Prelude.{
  ℕ, suc, ◌<◌, ◌≡◌, ◌≢◌, refl, sym, ◌∙◌, subst, false, inl, inr, none, some, Option-cases, List, [],
  ◌∷◌, map, Text, any, find, All, All-append, All-map, arith, Floats, nat_eq, text_eq,
}
use compliance_wizard_engine.Store.{Regulation, Job}
use compliance_wizard_engine.Schemas.{ExtractOutput, ValidationOutput, FetchEnrichmentOutput}
use compliance_wizard_engine.Relations.Resolver.{Graph}
use compliance_wizard_engine.Relations.Keys.{
  clashes, IsKeyed, by_id, by_source, IsKeyed-append, below-fresh, find-none-any,
}
use compliance_wizard_engine.Relations.Mirrors.{IsConsistent, resolve_relationships-IsConsistent}
use compliance_wizard_engine.Pipeline.Persist.{
  Db, put_regulation, filled, blank_regulation, persist,
}
use compliance_wizard_engine.Pipeline.Regulations.{
  update, update-id, filled-id, put_regulation-new, put_regulation-old,
}
use compliance_wizard_engine.Pipeline.Document.{
  Agents, Reference, persist_and_resolve, validation_of, resolve, ingest,
}
use compliance_wizard_engine.Pipeline.Ingest.{ingest-finish, ingest-IsStorable}
use compliance_wizard_engine.Wizard.Evaluation.{Attributes}
use compliance_wizard_engine.Wizard.Results.{query}
use compliance_wizard_engine.Wizard.Totality.{IsStorable, Fits, query_total}

module _ {F : Type 0} (job : Job) (v : ValidationOutput F) (fetch : FetchEnrichmentOutput F) where
  clashes-update :
      (id : ℕ) (r : Regulation) (rs : List Regulation)
      → any (clashes (update job v fetch id r)) (map (update job v fetch id) rs)
        ≡ any (clashes r) rs
  clashes-update id r [] = refl
  clashes-update id r (q ∷ rs) =
      ground (arith, clashes-update id r rs, update-id job v fetch id r, update-id job v fetch id q)

  IsKeyed-update :
      (id : ℕ) (rs : List Regulation) → IsKeyed rs → IsKeyed (map (update job v fetch id) rs)
  IsKeyed-update id [] h = tt
  IsKeyed-update id (r ∷ rs) h = (clashes-update id r rs ∙ h.0, IsKeyed-update id rs h.1)

  below-update :
      (id n : ℕ) (rs : List Regulation)
      → All (λ r. r.id < n) rs
      → All (λ r. r.id < n) (map (update job v fetch id) rs)
  below-update id n [] h = tt
  below-update id n (r ∷ rs) h =
      (subst (λ k. k < n) (sym (update-id job v fetch id r).0) h.0, below-update id n rs h.1)

  put_regulation-IsConsistent :
      (g : Graph F) → IsConsistent g → IsConsistent (put_regulation job v fetch g).0
  put_regulation-IsConsistent g c =
      let sid = v.regulation_source_id in
      elim (Option-cases (find (by_source sid) g.regulations)) [
        | inl e ↦
            let new = filled job v fetch (blank_regulation g.fresh sid) in
            let keys = filled-id job v fetch (blank_regulation g.fresh sid) in
            rw (put_regulation-new job v fetch g e) (record {
              mirrored = c.mirrored;
              no_loop = c.no_loop;
              keyed =
                  IsKeyed-append g.regulations new c.keyed
                    (subst (λ k. any (by_id k) g.regulations ≡ false) (sym keys.0)
                      (below-fresh g.regulations g.fresh c.below))
                    (subst (λ k. any (by_source k) g.regulations ≡ false) (sym keys.1)
                      (find-none-any (by_source sid) g.regulations e));
              below =
                  All-append (λ r. r.id < suc g.fresh) g.regulations (new ∷ [])
                    (All-map _ _ (λ r h. omega (arith, h)) g.regulations c.below)
                    (omega (arith, keys.0), tt);
            })
        | inr (r, e) ↦ rw (put_regulation-old job v fetch g r e) (record {
          mirrored = c.mirrored;
          no_loop = c.no_loop;
          keyed = IsKeyed-update r.id g.regulations c.keyed;
          below = below-update r.id g.fresh g.regulations c.below;
        })
      ]

module _ {F : Type 0} ⦃fl : Floats F⦄ where
  -- Ingesting a document keeps the graph consistent.
  pub ingest-IsConsistent :
      (ref : Reference F) (agents : Agents F) (job : Job) (e : ExtractOutput F) (db db' : Db F)
      → ingest ref agents job e db ≡ some db'
      → IsConsistent db.graph
      → IsConsistent db'.graph
  unfolding persist_and_resolve resolve persist
  ingest-IsConsistent ref agents job e db db' h c =
      let (m, mapped, fetch, q) = ingest-finish ref agents job e db db' h in
      let v = validation_of ref m in
      subst (λ d. IsConsistent d.graph) q
        (resolve_relationships-IsConsistent _ e.regulation_mentions _ _
          (put_regulation-IsConsistent job v fetch db.graph c))

  -- The tables after any number of documents, from empty ones.
  pub data Reached (ref : Reference F) (agents : Agents F) : Db F → Type 0 where
    start :
        (fresh : ℕ)
        → Reached ref agents (record {
          graph = record { regulations = []; edges = []; fresh = fresh };
          fields = [];
          conditions = [];
          hs_rows = [];
        })
    next :
        {db db' : Db F} (job : Job) (e : ExtractOutput F)
        → Reached ref agents db
        → ingest ref agents job e db ≡ some db'
        → Reached ref agents db'

  Reached-sound :
      (ref : Reference F) (agents : Agents F) {db : Db F}
      → Reached ref agents db
      → IsConsistent db.graph × All IsStorable db.conditions
  Reached-sound ref agents (start fresh) =
      (record { mirrored = λ a b t h. cc; no_loop = refl; keyed = tt; below = tt }, tt)
  Reached-sound ref agents (next {db = db} {db' = db'} job e r h) =
      let (c, s) = Reached-sound ref agents r in
      (
        ingest-IsConsistent ref agents job e db db' h c,
        ingest-IsStorable ref agents job e db db' h s,
      )

  -- Whatever documents were ingested, in whatever order: each edge of the graph has its inverse and
  -- none is a loop, ids and source ids are unique, and the wizard answers
  -- every query whose attributes have no integer that is too large for a float.
  pub Reached-answers :
      (ref : Reference F) (agents : Agents F) (db : Db F)
      → Reached ref agents db
      → IsConsistent db.graph
        × ((hs_code : Text) (attrs : Attributes F)
            → All Fits attrs
            → query db.graph.regulations db.graph.edges db.conditions db.hs_rows hs_code attrs
              ≢ none)
  Reached-answers ref agents db r =
      let (consistent, storable) = Reached-sound ref agents r in
      (
        consistent,
        λ hs_code attrs fits.
            query_total db.graph.regulations db.graph.edges db.conditions db.hs_rows hs_code attrs
              storable fits,
      )
