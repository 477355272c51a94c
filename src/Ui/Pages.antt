-- ===== src/Ui/Pages.antt =====
-- The pages of a list: where each lies, and that together they are the list.
use compliance_wizard_engine.Prelude.{
  ℕ, zero, suc, ◌+◌, ◌-◌, ◌*◌, ◌≤◌, ◌<◌, ◌≡◌, ◌⊎◌, ◌↔◌, refl, ap, true, List, [], ◌∷◌, ◌++◌, length,
  take, drop, Bool-cases, inl, inr, ltb, sym, subst, ◌∙◌, arith,
}
use compliance_wizard_engine.Ui.Pagination.{
  ℤ, pos, negsuc, clamp_per_page, page_count, clamp_page, Page, total_pages, offset, has_next,
  has_prev, start_index, end_index, build_page, page_of,
}

pub clamp_per_page_bounds : (n : ℤ) → (1 ≤ clamp_per_page n) × (clamp_per_page n ≤ 200)
unfolding clamp_per_page
clamp_per_page_bounds (negsuc n) = omega arith
clamp_per_page_bounds (pos n) = ground arith

page_count_pos : (p n : ℕ) → 1 ≤ page_count p n
unfolding page_count
page_count_pos p n = ground arith

page_count-covers : (p n : ℕ) → 1 ≤ p → n ≤ page_count p n * p
unfolding page_count
page_count-covers p n h = grind arith

clamp_page_bounds : (n : ℤ) (m : ℕ) → 1 ≤ m → (1 ≤ clamp_page n m) × (clamp_page n m ≤ m)
unfolding clamp_page
clamp_page_bounds (negsuc n) m h = omega arith
clamp_page_bounds (pos n) m h = ground arith

-- The last page starts below the end of a list that is not empty.
page_count-tight : (p n : ℕ) → 1 ≤ p → 0 < n → (page_count p n - 1) * p < n
unfolding page_count
page_count-tight p n h k = grind arith

mul_mono : (a b p : ℕ) → a ≤ b → a * p ≤ b * p
mul_mono a b p h = grind arith

pred_mul : (a p : ℕ) → 1 ≤ a → (a - 1) * p + p ≡ a * p
pred_mul zero p h = absurd (omega arith)
pred_mul (suc a) p h = let e : suc a - 1 ≡ a = omega arith in rw e (grind arith)

page_count-floor : (p n : ℕ) → 1 ≤ p → 1 < page_count p n → page_count p n * p ≤ n + p - 1
unfolding page_count
page_count-floor p n h k = grind arith

page_count-many : (p n : ℕ) → 1 ≤ p → 1 < page_count p n → 0 < n
page_count-many p n h k = omega (arith, mul_mono 2 (page_count p n) p k, page_count-floor p n h k)

last_page_lem :
    (page p n : ℕ)
    → 1 ≤ p
    → 1 ≤ page
    → page ≤ page_count p n
    → (page < page_count p n) ↔ (page * p < n)
last_page_lem page p n h k m =
    let count = page_count p n in
    let covers = page_count-covers p n h in
    (
      λ less. omega (
        arith,
        page_count-tight p n h (page_count-many p n h (omega arith)),
        mul_mono page (count - 1) p (omega arith),
      ),
      λ less. elim (Bool-cases (ltb page count)) [
        | inl e ↦ ground arith
        | inr e ↦ omega (arith, mul_mono count page p (ground arith), covers)
      ],
    )

at_page :
    (per_page : ℤ) (k n : ℕ)
    → suc k ≤ total_pages (build_page (pos 1) per_page n)
    → (build_page (pos (suc k)) per_page n).page ≡ suc k
unfolding build_page total_pages clamp_page
at_page per_page k n h = ground arith

size_at :
    (per_page : ℤ) (k n : ℕ)
    → (build_page (pos (suc k)) per_page n).per_page ≡ clamp_per_page per_page
unfolding build_page
size_at per_page k n = refl

offset_at : (p : Page) (k : ℕ) → p.page ≡ suc k → offset p ≡ k * p.per_page
unfolding offset
offset_at p k e = let prev : p.page - 1 ≡ k = omega (arith, e) in ap (λ n. n * p.per_page) prev

all_within :
    (per_page : ℤ) (n : ℕ)
    → n ≤ total_pages (build_page (pos 1) per_page n) * clamp_per_page per_page
unfolding build_page total_pages
all_within per_page n =
    page_count-covers (clamp_per_page per_page) n (clamp_per_page_bounds per_page).0

zero_or_positive : (n : ℕ) → (n ≡ 0) ⊎ (0 < n)
zero_or_positive zero = inl refl
zero_or_positive (suc n) = inr (omega arith)

-- A page that is asked for lies within the pages there are, shows rows of the list, from the first
-- to the last of its range, and has a next page exactly when rows follow and a previous one exactly
-- when rows precede.
pub build_page_bounds :
    (page per_page : ℤ) (total : ℕ)
    → let p = build_page page per_page total in
      (1 ≤ p.page)
      × (p.page ≤ total_pages p)
      × (end_index p ≤ total)
      × ((total ≡ 0) ⊎ ((1 ≤ start_index p) × (start_index p ≤ end_index p)))
      × ((has_next p ≡ true) ↔ (end_index p < total))
      × ((has_prev p ≡ true) ↔ (0 < offset p))
unfolding build_page total_pages end_index start_index has_next has_prev offset
build_page_bounds page per_page total =
    let size = clamp_per_page per_page in
    let sized = (clamp_per_page_bounds per_page).0 in
    let count = page_count size total in
    let within = clamp_page_bounds page count (page_count_pos size total) in
    let tight = page_count-tight size total sized in
    let last = last_page_lem (clamp_page page count) size total sized within.0 within.1 in
    let whole = pred_mul (clamp_page page count) size within.0 in
    let starts = mul_mono (clamp_page page count - 1) (count - 1) size (omega (arith, within.1)) in
    let positive = λ (h : has_prev (build_page page per_page total) ≡ true).
      mul_mono 1 (clamp_page page count - 1) size (ground arith) in
    let none_before =
      λ (h : clamp_page page count - 1 ≤ 0). mul_mono (clamp_page page count - 1) 0 size h in
    (
      within.0,
      within.1,
      ground arith,
      elim (zero_or_positive total) [
        | inl none_there ↦ inl none_there
        | inr some_row ↦ inr (ground (arith, tight some_row, starts, sized))
      ],
      (λ h. ground (arith, last.0, whole), λ h. ground (arith, last.1, whole)),
      (λ h. omega (arith, positive h), λ h. ground (arith, none_before)),
    )

module _ {ℓ} {A : Type ℓ} where
  take-nil : (n : ℕ) → take {A = A} n [] ≡ []
  take-nil zero = refl
  take-nil (suc n) = refl

  take-add : (m n : ℕ) (xs : List A) → take (m + n) xs ≡ take m xs ++ take n (drop m xs)
  take-add zero n xs = let e : 0 + n ≡ n = omega arith in rw e refl
  take-add (suc m) n [] = let e : suc m + n ≡ suc (m + n) = omega arith in rw e (sym (take-nil n))
  take-add (suc m) n (x ∷ xs) =
      let e : suc m + n ≡ suc (m + n) = omega arith in rw e (ap (λ l. x ∷ l) (take-add m n xs))

  take-all : (n : ℕ) (xs : List A) → length xs ≤ n → take n xs ≡ xs
  take-all zero [] h = refl
  take-all zero (x ∷ xs) h = absurd (omega arith)
  take-all (suc n) [] h = refl
  take-all (suc n) (x ∷ xs) h = ap (λ l. x ∷ l) (take-all n xs (omega arith))

  -- The first k pages of a list, one after the other.
  page_of-at :
      (p : Page) (k size : ℕ) (xs : List A)
      → p.page ≡ suc k
      → p.per_page ≡ size
      → page_of p xs ≡ take size (drop (k * size) xs)
  unfolding page_of
  page_of-at p k size xs e s =
      subst (λ n. page_of p xs ≡ take n (drop (k * n) xs)) s (rw (offset_at p k e) refl)

  unfoldable pub first_pages : ℤ → ℕ → List A → List A
  first_pages per_page zero xs = []
  first_pages per_page (suc k) xs =
      first_pages per_page k xs ++ page_of (build_page (pos (suc k)) per_page (length xs)) xs

  pub first_pages-eq-take :
      (per_page : ℤ) (k : ℕ) (xs : List A)
      → k ≤ total_pages (build_page (pos 1) per_page (length xs))
      → first_pages per_page k xs ≡ take (k * clamp_per_page per_page) xs
  unfolding first_pages
  first_pages-eq-take per_page zero xs h =
      let e : 0 * clamp_per_page per_page ≡ 0 = omega arith in rw e refl
  first_pages-eq-take per_page (suc k) xs h =
      let size = clamp_per_page per_page in
      let here = first_pages-eq-take per_page k xs (omega arith) in
      let at : (build_page (pos (suc k)) per_page (length xs)).page ≡ suc k =
        at_page per_page k (length xs) h in
      let count : suc k * size ≡ k * size + size =
        omega (arith, pred_mul (suc k) size (omega arith)) in
      rw here (
        rw count (
          rw (take-add (k * size) size xs) (
            ap (λ l. take (k * size) xs ++ l)
              (page_of-at _ k size xs at (size_at per_page k (length xs))))))

  -- For any page size asked for, the pages one after the other are the whole list: no row is left
  -- out and none is shown twice.
  pub first_pages_cover :
      (per_page : ℤ) (xs : List A)
      → first_pages per_page (total_pages (build_page (pos 1) per_page (length xs))) xs ≡ xs
  first_pages_cover per_page xs =
      let count = total_pages (build_page (pos 1) per_page (length xs)) in
      first_pages-eq-take per_page count xs (omega arith)
      ∙ take-all (count * clamp_per_page per_page) xs (all_within per_page (length xs))
