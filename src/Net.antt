-- ===== src/Net.antt =====
-- The addresses and prefixes of Go's net/netip, as far as the program uses them. An address is its
-- bits as a number; `invalid` is the zero netip.Addr, which is no valid address. The parsers of their
-- text form are arguments of the code that calls them.
use namedor.Common.{ℕ, ◌-◌, ◌/◌, ◌^◌, Bool, true, false, ◌&&◌, leb, ◌==◌, is_empty}
use namedor.Text.{Text}

pub data Addr : Type 0 where
  invalid : Addr
  v4 : ℕ → Addr
  v6 : (bits : ℕ) (zone : Text) → Addr

pub record Prefix : Type 0 where
  pub base : Addr
  pub bits : ℕ

-- Addr.IsValid
unfoldable pub is_valid : Addr → Bool
is_valid invalid = false
is_valid (v4 n) = true
is_valid (v6 n zone) = true

-- Addr.Is6
unfoldable pub is_6 : Addr → Bool
is_6 (v6 n zone) = true
is_6 _ = false

-- The first `bits` of the `width` bits of two addresses are the same.
unfoldable pub same_head : ℕ → ℕ → ℕ → ℕ → Bool
same_head width bits a b = leb bits width && (a / 2 ^ (width - bits) == b / 2 ^ (width - bits))

-- Prefix.Contains: an address of the other family, an invalid one, and one with a zone are in no
-- prefix.
unfoldable pub contains : Addr → ℕ → Addr → Bool
unfolding same_head
contains (v4 base) bits (v4 ip) = same_head 32 bits base ip
contains (v6 base zone) bits (v6 ip zone') = is_empty zone' && same_head 128 bits base ip
contains _ bits _ = false
