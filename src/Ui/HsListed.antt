-- ===== src/Ui/HsListed.antt =====
-- The list of the pending mappings, page by page.
use mathlib.Core.List.{Perm, map-append}
use mathlib.Core.List.Perm
use compliance_wizard_engine.Prelude.{
  ℕ, ◌≡◌, refl, sym, subst, ap, ◌∙◌, List, [], ◌∷◌, ◌++◌, map, All, Text, length, length-map,
  length-sort, sort-perm, Floats, arith,
}
use compliance_wizard_engine.Store.{Regulation, HsMap}
use compliance_wizard_engine.Ui.Pagination.{ℤ, pos, clamp_per_page, total_pages, build_page}
use compliance_wizard_engine.Ui.Tables.{Keyed}
use compliance_wizard_engine.Ui.Turned.{turned, turned-all}
use compliance_wizard_engine.Ui.HsReview.{
  HsRow, PendingMap, pending_maps, regulation_of, joined_maps, ordered, hs_row, ordered_maps,
  hs_review,
}

module _ {F : Type 0} ⦃fl : Floats F⦄ where
  -- Each mapping names one regulation: the foreign key and the primary key.
  abbrev pub HaveRegulations : List Regulation → Keyed (HsMap F) → Type 0
  HaveRegulations regs table = All (λ row. length (regulation_of regs row.1) ≡ 1) table

  one_id :
      (id : ℕ) (h : HsMap F) (regs : List Regulation)
      → length regs ≡ 1
      → map
          (λ (p : PendingMap F). p.id)
          (map (λ r. record { id = id; mapping = h; regulation = r }) regs)
        ≡ id ∷ []
  one_id id h [] e = absurd (omega arith)
  one_id id h (r ∷ []) e = refl
  one_id id h (r ∷ s ∷ regs) e = absurd (omega arith)

  joined_maps-ids :
      (regs : List Regulation) (table : Keyed (HsMap F))
      → HaveRegulations regs table
      → map (λ (p : PendingMap F). p.id) (joined_maps regs table) ≡ map (λ row. row.0) table
  unfolding joined_maps
  joined_maps-ids regs [] h = refl
  joined_maps-ids regs ((id, m) ∷ table) h =
      map-append (λ (p : PendingMap F). p.id) _ (joined_maps regs table)
      ∙ (ap (λ l. l ++ map (λ (p : PendingMap F). p.id) (joined_maps regs table))
            (one_id id m (regulation_of regs m) h.0)
          ∙ ap (λ l. id ∷ l) (joined_maps-ids regs table h.1))

  row_ids :
      (nomenclature : List (Text × Text)) (maps : List (PendingMap F))
      → map (λ (r : HsRow F). r.id) (map (hs_row nomenclature) maps) ≡ map (λ p. p.id) maps
  unfolding hs_row
  row_ids nomenclature [] = refl
  row_ids nomenclature (p ∷ maps) = ap (λ l. p.id ∷ l) (row_ids nomenclature maps)

  hs_review-turned :
      (nomenclature : List (Text × Text)) (regs : List Regulation) (table : Keyed (HsMap F))
      (per_page : ℤ) (n : ℕ)
      → n ≡ length (ordered_maps regs table)
      → length (pending_maps table) ≡ length (ordered_maps regs table)
      → turned
          (λ page. (hs_review nomenclature regs table page per_page).rows)
          (total_pages (build_page (pos 1) (pos (clamp_per_page per_page)) n))
        ≡ map (hs_row nomenclature) (ordered_maps regs table)
  unfolding hs_review
  hs_review-turned nomenclature regs table per_page n h count = rw h (
      turned-all (hs_row nomenclature) (ordered_maps regs table) (pos (clamp_per_page per_page)) _
        (λ page. rw (sym count) refl))

  -- The pages of the mappings, turned one after the other, show each pending mapping once.
  pub hs_review_shows_all :
      (nomenclature : List (Text × Text)) (regs : List Regulation) (table : Keyed (HsMap F))
      (per_page : ℤ)
      → HaveRegulations regs (pending_maps table)
      → Perm
          (map
            (λ r. r.id)
            (turned
              (λ page. (hs_review nomenclature regs table page per_page).rows)
              (total_pages (hs_review nomenclature regs table (pos 1) per_page).page)))
          (map (λ row. row.0) (pending_maps table))
  unfolding hs_review ordered_maps
  hs_review_shows_all nomenclature regs table per_page h =
      let maps = joined_maps regs (pending_maps table) in
      let ids = joined_maps-ids regs (pending_maps table) h in
      let count : length (pending_maps table) ≡ length (ordered_maps regs table) = sym (
        length-sort ordered maps
        ∙ (sym (length-map (λ (p : PendingMap F). p.id) maps)
            ∙ (ap length ids ∙ length-map (λ row. row.0) (pending_maps table)))) in
      let whole =
        hs_review-turned nomenclature regs table per_page (length (pending_maps table)) count
          count in
      rw whole (
        subst (λ l. Perm l (map (λ row. row.0) (pending_maps table)))
          (sym (row_ids nomenclature (ordered_maps regs table)))
          (subst (λ l. Perm (map (λ (p : PendingMap F). p.id) (ordered_maps regs table)) l) ids
            (Perm.map (λ p. p.id) (sort-perm ordered maps))))
