-- ===== src/Web/Pages/Bounds.antt =====
-- Every row of a long list is on one of its pages.
use namedor.Common.{ℕ, refl, ◌%◌, ◌^◌, ◌+◌, ◌-◌, ◌*◌, ◌/◌, ◌≤◌, ◌<◌, ◌≡◌, sym, ◌∙◌, arith, pos}
use namedor.Text.Decimal.{max_int64}
use namedor.Web.Pages.{per_page, signed64, page_offset, divided, total_pages, page_count}

-- The row is among those that the database hands out for the page.
pub OnPage : ℕ → ℕ → Type 0
OnPage row page =
    (offset : ℕ) × (page_offset page ≡ pos offset) × (offset ≤ row) × (row < offset + per_page)

pub page_offset-small :
    (page : ℕ) → (page - 1) * per_page ≤ max_int64 → page_offset page ≡ pos ((page - 1) * per_page)
unfolding page_offset signed64
page_offset-small page h = ground arith

pos_inj : {m n : ℕ} → pos m ≡ pos n → m ≡ n
pos_inj e = cc

-- Up to 2 ^ 63 - 30 rows the sum does not overflow.
total_pages-small :
    (total : ℕ)
    → total + 29 ≤ max_int64
    → page_count (total_pages total) ≡ (total + per_page - 1) / per_page
unfolding total_pages divided page_count
total_pages-small total h =
    let same : signed64 ((total + per_page - 1) % 2 ^ 64) ≡ pos (total + per_page - 1) =
      unfold signed64 in ground arith in
    rw (same) refl

-- Of a list of at most 2 ^ 63 - 30 rows, each row is on one of the pages from 1 to the last, and on
-- no other of them.
pub page_offset-OnPage :
    (total row : ℕ)
    → total + 29 ≤ max_int64
    → row < total
    → (page : ℕ) × ((1 ≤ page) × (page ≤ page_count (total_pages total)) × OnPage row page)
      × ((other : ℕ)
          → 1 ≤ other
          → other ≤ page_count (total_pages total)
          → OnPage row other
          → other ≡ page)
unfolding OnPage
page_offset-OnPage total row small within =
    let count = total_pages-small total small in
    (
      row / per_page + 1,
      (
        omega arith,
        omega (arith, count),
        (
          (row / per_page + 1 - 1) * per_page,
          page_offset-small (row / per_page + 1) (omega arith),
          omega arith,
          omega arith,
        ),
      ),
      λ other low high (o, at, le, lt).
          let same : o ≡ (other - 1) * per_page =
            pos_inj (sym at ∙ page_offset-small other (omega (arith, count))) in
          omega arith,
    )
