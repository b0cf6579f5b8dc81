-- ===== src/Web/Records/Bounds.antt =====
-- Which times to live a form of the panel can store.
use namedor.Common.{ℕ, zero, suc, ◌^◌, ◌≤◌, ◌<◌, ◌≡◌, ◌↔◌, arith, ℤ, pos, negsuc}
use namedor.Text.{Text}
use namedor.Text.Atoi.{atoi, atoi-format_nat}
use namedor.Text.Decimal.{format_nat, max_int64}
use namedor.Web.Records.{ttl_of, form_ttl}

ttl_of_lt : (n : ℤ) → ttl_of n < 2 ^ 32
unfolding ttl_of
ttl_of_lt (pos zero) = omega arith
ttl_of_lt (pos (suc n)) = omega arith
ttl_of_lt (negsuc n) = omega arith

ttl_of_exact_iff : (n : ℕ) → (ttl_of (pos n) ≡ n) ↔ ((0 < n) × (n < 2 ^ 32))
unfolding ttl_of
ttl_of_exact_iff zero = (λ h. omega arith, λ h. omega arith)
ttl_of_exact_iff (suc n) = (λ h. (omega arith, omega arith), λ h. omega arith)

-- Whatever is written in the field for the time to live, the number that is stored is below 2 ^ 32;
-- and of the numbers that Atoi can read it is the number itself exactly for those from 1 to
-- 2 ^ 32 - 1.
pub form_ttl_exact_iff :
    (s : Text) (n : ℕ)
    → n ≤ max_int64
    → (form_ttl s < 2 ^ 32) × ((form_ttl (format_nat n) ≡ n) ↔ ((0 < n) × (n < 2 ^ 32)))
unfolding form_ttl
form_ttl_exact_iff s n h = (ttl_of_lt (atoi s), rw (atoi-format_nat n h) (ttl_of_exact_iff n))
