-- ===== src/Pipeline/Regulations.antt =====
-- The regulation that `_persist` of pipeline.py finds or adds, and fills: filling it again changes
-- nothing.
use compliance_wizard_engine.Prelude.{
  ℕ, suc, ◌<◌, ◌≡◌, refl, ap, ◌∙◌, true, false, Bool-cases, inl, inr, Option, none, some,
  Option-cases, List, [], ◌∷◌, ◌++◌, map, Text, find, All, arith, ◌==◌, nat_eq, nat_beq_iff,
  text_eq, text_beq_iff, if◌then◌else◌,
}
use compliance_wizard_engine.Store.{Regulation, Job}
use compliance_wizard_engine.Schemas.{ValidationOutput, FetchEnrichmentOutput}
use compliance_wizard_engine.Relations.Resolver.{Graph}
use compliance_wizard_engine.Relations.Keys.{by_source}
use compliance_wizard_engine.Pipeline.Persist.{
  put_regulation, filled, blank_regulation, or_text, or_date, claimed_by,
}

find-new :
    (sid : Text) (rs : List Regulation) (new : Regulation)
    → find (by_source sid) rs ≡ none
    → by_source sid new ≡ true
    → find (by_source sid) (rs ++ new ∷ []) ≡ some new
find-new sid [] new h e = rw e
find-new sid (r ∷ rs) new h e = ground (arith, find-new sid rs new)

or_text_idem : (a b : Option Text) → or_text a (or_text a b) ≡ or_text a b
or_text_idem a b = ground arith

or_date_idem : (a b : Option ℕ) → or_date a (or_date a b) ≡ or_date a b
or_date_idem a b = ground arith

claimed_by_idem : (w : Option Text) → claimed_by (claimed_by w) ≡ claimed_by w
claimed_by_idem w = ground arith

module _ {F : Type 0} where
  filled_idem :
      (job : Job) (v : ValidationOutput F) (fetch : FetchEnrichmentOutput F) (r : Regulation)
      → filled job v fetch (filled job v fetch r) ≡ filled job v fetch r
  unfolding filled
  filled_idem job v fetch r = elim (Bool-cases fetch.skipped) [
    | inl e ↦ simp (e, or_text_idem, claimed_by_idem)
    | inr e ↦ simp (e, or_text_idem, or_date_idem, claimed_by_idem)
  ]

  -- The change of one row of the regulations.
  abbrev pub update :
      Job → ValidationOutput F → FetchEnrichmentOutput F → ℕ → Regulation → Regulation
  update job v fetch id r = if r.id == id then filled job v fetch r else r

  update_idem :
      (job : Job) (v : ValidationOutput F) (fetch : FetchEnrichmentOutput F) (id : ℕ)
      (r : Regulation)
      → update job v fetch id (update job v fetch id r) ≡ update job v fetch id r
  unfolding filled
  update_idem job v fetch id r = elim (Bool-cases (r.id == id)) [
    | inl e ↦
        let p : update job v fetch id r ≡ filled job v fetch r = rw e in
        rw p (rw e (filled_idem job v fetch r))
    | inr e ↦ let p : update job v fetch id r ≡ r = rw e in rw p p
  ]

  update-map_idem :
      (job : Job) (v : ValidationOutput F) (fetch : FetchEnrichmentOutput F) (id : ℕ)
      (rs : List Regulation)
      → map (update job v fetch id) (map (update job v fetch id) rs)
        ≡ map (update job v fetch id) rs
  update-map_idem job v fetch id [] = refl
  update-map_idem job v fetch id (r ∷ rs) =
      rw (update_idem job v fetch id r, update-map_idem job v fetch id rs)

  pub update-id :
      (job : Job) (v : ValidationOutput F) (fetch : FetchEnrichmentOutput F) (id : ℕ)
      (r : Regulation)
      → ((update job v fetch id r).id ≡ r.id) × ((update job v fetch id r).source_id ≡ r.source_id)
  unfolding filled
  update-id job v fetch id r = elim (Bool-cases (r.id == id)) [
    | inl e ↦ rw e (refl, refl)
    | inr e ↦ rw e (refl, refl)
  ]

  find-update :
      (job : Job) (v : ValidationOutput F) (fetch : FetchEnrichmentOutput F) (id : ℕ) (sid : Text)
      (rs : List Regulation) (r : Regulation)
      → find (by_source sid) rs ≡ some r
      → find (by_source sid) (map (update job v fetch id) rs) ≡ some (update job v fetch id r)
  find-update job v fetch id sid [] r h = cc
  find-update job v fetch id sid (q ∷ rs) r h =
      let keys = update-id job v fetch id q in
      elim (Bool-cases (by_source sid q)) [
        | inl e ↦
            let same : q ≡ r = ground arith in
            rw (keys.1, e) (ap (λ x. some (update job v fetch id x)) same)
        | inr e ↦ rw (keys.1, e) (find-update job v fetch id sid rs r (ground arith))
      ]

  -- No row has the id of a regulation that is yet to come.
  update_none :
      (job : Job) (v : ValidationOutput F) (fetch : FetchEnrichmentOutput F) (n : ℕ)
      (rs : List Regulation) (new : Regulation)
      → All (λ r. r.id < n) rs
      → update job v fetch n new ≡ new
      → map (update job v fetch n) (rs ++ new ∷ []) ≡ rs ++ new ∷ []
  update_none job v fetch n [] new h e = rw e
  update_none job v fetch n (r ∷ rs) new h e =
      let apart : (r.id == n) ≡ false = ground (arith, h.0) in
      rw (apart, update_none job v fetch n rs new h.1 e)

  -- The two branches of `put_regulation`.
  pub put_regulation-new :
      (job : Job) (v : ValidationOutput F) (fetch : FetchEnrichmentOutput F) (g : Graph F)
      → find (by_source v.regulation_source_id) g.regulations ≡ none
      → put_regulation job v fetch g ≡ (
        record g {
          regulations =
              g.regulations
              ++ filled job v fetch (blank_regulation g.fresh v.regulation_source_id) ∷ [];
          fresh = suc g.fresh;
        },
        g.fresh,
      )
  unfolding put_regulation
  put_regulation-new job v fetch g h = rw (h, put_regulation)

  pub put_regulation-old :
      (job : Job) (v : ValidationOutput F) (fetch : FetchEnrichmentOutput F) (g : Graph F)
      (r : Regulation)
      → find (by_source v.regulation_source_id) g.regulations ≡ some r
      → put_regulation job v fetch g
        ≡ (record g { regulations = map (update job v fetch r.id) g.regulations }, r.id)
  unfolding put_regulation
  put_regulation-old job v fetch g r h = rw (h, put_regulation)

  put_regulation-found :
      (job : Job) (v : ValidationOutput F) (fetch : FetchEnrichmentOutput F) (g : Graph F)
      (r : Regulation) (id : ℕ) (rs : List Regulation)
      → find (by_source v.regulation_source_id) g.regulations ≡ some r
      → r.id ≡ id
      → map (update job v fetch id) g.regulations ≡ rs
      → put_regulation job v fetch g ≡ (record g { regulations = rs }, id)
  put_regulation-found job v fetch g r id rs h e same =
      put_regulation-old job v fetch g r h ∙ rw (e, same)

  pub filled-id :
      (job : Job) (v : ValidationOutput F) (fetch : FetchEnrichmentOutput F) (r : Regulation)
      → ((filled job v fetch r).id ≡ r.id) × ((filled job v fetch r).source_id ≡ r.source_id)
  unfolding filled
  filled-id job v fetch r = (refl, refl)

  -- Putting the regulation of a record twice is putting it once.
  pub put_regulation_again :
      (job : Job) (v : ValidationOutput F) (fetch : FetchEnrichmentOutput F) (g : Graph F)
      → All (λ r. r.id < g.fresh) g.regulations
      → let (g', reg) = put_regulation job v fetch g in put_regulation job v fetch g' ≡ (g', reg)
  put_regulation_again job v fetch g below =
      let sid = v.regulation_source_id in
      elim (Option-cases (find (by_source sid) g.regulations)) [
        | inl e ↦
            let new = filled job v fetch (blank_regulation g.fresh sid) in
            let keys = filled-id job v fetch (blank_regulation g.fresh sid) in
            let found : find (by_source sid) (g.regulations ++ new ∷ []) ≡ some new =
              find-new sid g.regulations new e
                (ground (arith, text_beq_iff new.source_id sid, keys)) in
            let unchanged : update job v fetch g.fresh new ≡ new = ground (
              arith,
              filled_idem job v fetch (blank_regulation g.fresh sid),
              nat_beq_iff new.id g.fresh,
              keys,
            ) in
            let same = update_none job v fetch g.fresh g.regulations new below unchanged in
            rw (put_regulation-new job v fetch g e) (
              put_regulation-found job v fetch
                (record g { regulations = g.regulations ++ new ∷ []; fresh = suc g.fresh }) new
                g.fresh (g.regulations ++ new ∷ []) found keys.0 same)
        | inr (r, e) ↦
            let found = find-update job v fetch r.id sid g.regulations r e in
            let keys = update-id job v fetch r.id r in
            let same = update-map_idem job v fetch r.id g.regulations in
            rw (put_regulation-old job v fetch g r e) (
              put_regulation-found job v fetch
                (record g { regulations = map (update job v fetch r.id) g.regulations })
                (update job v fetch r.id r) r.id (map (update job v fetch r.id) g.regulations) found
                keys.0 same)
      ]
