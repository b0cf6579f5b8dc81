-- ===== src/Web/Pages.antt =====
-- The pages of a long list, as listRecords of internal/web/records.go and listZones of zones.go make
-- them: 30 rows a page, with links to the other pages.
pub mod Bounds
use namedor.Common.{
  ℕ, zero, suc, ◌+◌, ◌-◌, ◌*◌, ◌/◌, ◌%◌, ◌^◌, Bool, true, false, not, ◌&&◌, ◌||◌, List, [], ◌∷◌,
  leb, ltb, ◌==◌, if◌then◌else◌, ℤ, pos, negsuc,
}
use namedor.Text.{Text}
use namedor.Text.Atoi.{atoi}

abbrev pub per_page : ℕ
per_page = 30

-- The number of the page: Atoi without its error, and 1 where that is below 1.
unfoldable pub at_least_1 : ℤ → ℕ
at_least_1 (pos zero) = 1
at_least_1 (pos (suc n)) = suc n
at_least_1 (negsuc n) = 1

unfoldable pub page_number : Text → ℕ
unfolding at_least_1
page_number s = at_least_1 (atoi s)

-- A product of two int64, wrapped.
unfoldable pub signed64 : ℕ → ℤ
signed64 n = if ltb n (2 ^ 63) then pos n else negsuc (2 ^ 64 - n - 1)

-- `(page - 1) * perPage`
unfoldable pub page_offset : ℕ → ℤ
unfolding signed64
page_offset page = signed64 ((page - 1) * per_page % 2 ^ 64)

-- The opposite of a natural number.
unfoldable pub negated : ℕ → ℤ
negated zero = pos 0
negated (suc n) = negsuc n

-- The division of Go, which rounds to 0.
unfoldable pub divided : ℤ → ℕ → ℤ
unfolding negated
divided (pos n) d = pos (n / d)
divided (negsuc n) d = negated ((n + 1) / d)

-- `(total + int64(perPage) - 1) / int64(perPage)`, below 0 where the sum overflows.
unfoldable pub total_pages : ℕ → ℤ
unfolding signed64 divided
total_pages total = divided (signed64 ((total + per_page - 1) % 2 ^ 64)) per_page

-- The pages that the loop of the links counts: none where the number is below 0.
unfoldable pub page_count : ℤ → ℕ
page_count (pos n) = n
page_count (negsuc n) = 0

-- What stands for a page in the row of links: the page itself, a button, dots, or nothing.
pub data Link : Type 0 where
  current : ℕ → Link
  button : ℕ → Link
  dots : Link

unfoldable pub is_near : ℕ → ℕ → ℕ → Bool
is_near page last i = i == 1 || i == last || (leb page (i + 2) && leb i (page + 2))

-- The loop over the pages from `i`.
unfoldable pub links_from : ℕ → ℕ → ℕ → ℕ → List Link
unfolding is_near
links_from page last i zero = []
links_from page last i (suc n) =
    let rest = links_from page last (i + 1) n in
    if i == page
    then current i ∷ rest
    else if is_near page last i
    then button i ∷ rest
    else if i + 3 == page || i == page + 3
    then dots ∷ rest
    else rest

pub record Paging : Type 0 where
  pub page : ℕ
  pub last : ℕ
  pub total : ℕ
  pub previous : Bool
  pub links : List Link
  pub next : Bool

-- The row of links, which is only there where there is more than one page.
unfoldable pub paging : ℕ → ℕ → Paging
unfolding links_from total_pages page_count
paging page total =
    let last = page_count (total_pages total) in
    let many = ltb 1 last in
    record {
      page = page;
      last = last;
      total = total;
      previous = many && ltb 1 page;
      links = if many then links_from page last 1 last else [];
      next = many && ltb page last;
    }
