-- ===== src/Ui/Turned.antt =====
-- The pages of a listing, turned one after the other, are the listing.
use mathlib.Core.List.{map-append}
use compliance_wizard_engine.Prelude.{
  ℕ, zero, suc, ◌≡◌, refl, sym, ap, ◌∙◌, Bool, true, List, [], ◌∷◌, ◌++◌, map, length, All,
  IsSorted,
}
use compliance_wizard_engine.Ui.Pagination.{ℤ, pos, total_pages, build_page, page_of}
use compliance_wizard_engine.Ui.Pages.{first_pages, first_pages_cover}

-- What a reader sees who turns the first k pages of a listing.
unfoldable pub turned : {B : Type 0} → (ℤ → List B) → ℕ → List B
turned listing zero = []
turned listing (suc k) = turned listing k ++ listing (pos (suc k))

module _ {A B : Type 0} where
  turned-first_pages :
      (row : A → B) (items : List A) (per_page : ℤ) (listing : ℤ → List B)
      → ((page : ℤ)
          → listing page ≡ map row (page_of (build_page page per_page (length items)) items))
      → (k : ℕ) → turned listing k ≡ map row (first_pages per_page k items)
  unfolding turned first_pages
  turned-first_pages row items per_page listing h zero = refl
  turned-first_pages row items per_page listing h (suc k) =
      rw (turned-first_pages row items per_page listing h k)
        (rw (h (pos (suc k))) (sym (map-append row _ _)))

  -- All the pages of a listing whose pages are cut out of the same items.
  pub turned-all :
      (row : A → B) (items : List A) (per_page : ℤ) (listing : ℤ → List B)
      → ((page : ℤ)
          → listing page ≡ map row (page_of (build_page page per_page (length items)) items))
      → turned listing (total_pages (build_page (pos 1) per_page (length items))) ≡ map row items
  turned-all row items per_page listing h =
      turned-first_pages row items per_page listing h _
      ∙ ap (map row) (first_pages_cover per_page items)

All-of_map :
    {A B : Type 0} (row : A → B) (P : B → Type 0) (xs : List A)
    → All (λ x. P (row x)) xs
    → All P (map row xs)
All-of_map row P [] h = tt
All-of_map row P (x ∷ xs) h = (h.0, All-of_map row P xs h.1)

-- An order that a row keeps is kept by a listing.
pub map-IsSorted :
    {A B : Type 0} (row : A → B) (before : B → B → Bool) (xs : List A)
    → IsSorted (λ x y. before (row x) (row y)) xs
    → IsSorted before (map row xs)
map-IsSorted row before [] h = tt
map-IsSorted row before (x ∷ xs) h =
    (All-of_map row (λ z. before (row x) z ≡ true) xs h.0, map-IsSorted row before xs h.1)
