-- ===== src/Ui/Pagination.antt =====
-- ui/pagination.py: the page of a list that a request asks for. A query parameter may be negative.
use compliance_wizard_engine.Prelude.{
  ℕ, ◌+◌, ◌-◌, ◌*◌, ◌/◌, Bool, List, ltb, ◌==◌, nat_eq, if◌then◌else◌, take, drop,
}

-- A Python int: `negsuc n` is -(n + 1).
pub data ℤ : Type 0 where
  pos : ℕ → ℤ
  negsuc : ℕ → ℤ

abbrev pub default_per_page : ℕ
default_per_page = 25

abbrev pub max_per_page : ℕ
max_per_page = 200

-- `max(1, n)` and `min(m, n)`
abbrev pub at_least_one : ℕ → ℕ
at_least_one n = if ltb 1 n then n else 1

abbrev pub lesser : ℕ → ℕ → ℕ
lesser m n = if ltb n m then n else m

unfoldable pub clamp_per_page : ℤ → ℕ
clamp_per_page (negsuc n) = default_per_page
clamp_per_page (pos n) = if n == 0 then default_per_page else lesser n max_per_page

pub record Page : Type 0 where
  pub page : ℕ
  pub per_page : ℕ
  pub total : ℕ

-- `max(1, (total + per_page - 1) // per_page)`, for a positive `per_page`
unfoldable pub page_count : ℕ → ℕ → ℕ
page_count per_page total = at_least_one ((total + per_page - 1) / per_page)

unfoldable pub total_pages : Page → ℕ
unfolding page_count
total_pages p = page_count p.per_page p.total

unfoldable pub offset : Page → ℕ
offset p = (p.page - 1) * p.per_page

unfoldable pub has_prev : Page → Bool
has_prev p = ltb 1 p.page

unfoldable pub has_next : Page → Bool
unfolding total_pages
has_next p = ltb p.page (total_pages p)

unfoldable pub start_index : Page → ℕ
unfolding offset
start_index p = if p.total == 0 then 0 else offset p + 1

unfoldable pub end_index : Page → ℕ
unfolding offset
end_index p = lesser (offset p + p.per_page) p.total

-- `max(1, min(page, total_pages))`
unfoldable pub clamp_page : ℤ → ℕ → ℕ
clamp_page (negsuc n) count = 1
clamp_page (pos n) count = at_least_one (lesser n count)

unfoldable pub build_page : ℤ → ℤ → ℕ → Page
unfolding clamp_per_page page_count clamp_page
build_page page per_page total =
    let size = clamp_per_page per_page in
    record { page = clamp_page page (page_count size total); per_page = size; total = total }

-- `rows[offset:offset + per_page]`, and likewise OFFSET and LIMIT of a query
unfoldable pub page_of {ℓ} : {A : Type ℓ} → Page → List A → List A
unfolding offset
page_of p rows = take p.per_page (drop (offset p) rows)
