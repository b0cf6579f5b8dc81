-- ===== src/Dns/Key.antt =====
-- The cache key of `serveDNS` tells apart all that an answer depends on.
use namedor.Common.{
  ℕ, ◌≡◌, ◌≢◌, refl, ap, sym, ◌∙◌, some, [], ◌∷◌, ◌++◌, arith, All, append_assoc, Bool-cases, inl,
  inr,
}
use namedor.Text.{Text, to_lower}
use namedor.Text.Decimal.{
  format_nat, parse_digits, parse_digits-format_nat, IsDigit, format_nat-All,
}
use namedor.Net.{Addr, is_valid}
use namedor.Miekg.{Miekg}
use namedor.Dns.Serve.{cache_scope, cache_key}

abbrev pub NoBar : Text → Type 0
NoBar s = All (λ c. c ≢ b'|') s

not-NoBar : (a s : Text) → ¬ NoBar (a ++ b'|' ∷ s)
not-NoBar [] s (p, _) = p refl
not-NoBar (c ∷ a) s (_, h) = not-NoBar a s h

-- A text is split in one way at its last bar.
split_last :
    (a b s t : Text) → NoBar s → NoBar t → a ++ b'|' ∷ s ≡ b ++ b'|' ∷ t → (a ≡ b) × (s ≡ t)
split_last [] [] s t h k e = (refl, cc)
split_last [] (d ∷ b) s t h k e =
    let same : s ≡ b ++ b'|' ∷ t = cc in absurd (not-NoBar b t (rw same at h))
split_last (c ∷ a) [] s t h k e =
    let same : t ≡ a ++ b'|' ∷ s = cc in absurd (not-NoBar a s (rw same at k))
split_last (c ∷ a) (d ∷ b) s t h k e =
    let head : c ≡ d = cc in
    let tails = split_last a b s t h k (cc) in (cc (head, tails.0), tails.1)

pub IsDigit-NoBar : (s : Text) → All IsDigit s → NoBar s
IsDigit-NoBar [] h = tt
IsDigit-NoBar (c ∷ s) ((low, high), h) = ((λ e. omega arith), IsDigit-NoBar s h)

format_nat_inj : (m n : ℕ) → format_nat m ≡ format_nat n → m ≡ n
format_nat_inj m n e =
    let same : some m ≡ some n =
      sym (parse_digits-format_nat m) ∙ ap parse_digits e ∙ parse_digits-format_nat n in
    cc same

module _ (dns : Miekg) (addr_text : Addr → Text) where
  cache_scope-NoBar :
      ((a : Addr) → NoBar (addr_text a)) → (ip : Addr) → NoBar (cache_scope dns addr_text ip)
  unfolding cache_scope
  cache_scope-NoBar plain ip = elim (Bool-cases (is_valid ip)) [
    | inl e ↦ rw e (plain ip)
    | inr e ↦ rw e tt
  ]

  -- If the text of an address holds no bar, two queries have one cache key only if their names are
  -- the same up to letter case, their types are the same, and so is the text of the client's
  -- address, which is empty for a client with no address.
  pub cache_key_inj :
      ((a : Addr) → NoBar (addr_text a))
      → (name name' : Text) (qtype qtype' : ℕ) (ip ip' : Addr)
      → cache_key dns addr_text name qtype ip ≡ cache_key dns addr_text name' qtype' ip'
      → (to_lower name ≡ to_lower name')
        × (qtype ≡ qtype')
        × (cache_scope dns addr_text ip ≡ cache_scope dns addr_text ip')
  unfolding cache_key
  cache_key_inj plain name name' qtype qtype' ip ip' e =
      let front = λ (n : Text) (t : ℕ). to_lower n ++ b'|' ∷ format_nat t in
      let scope = λ (a : Addr). cache_scope dns addr_text a in
      let regroup = λ (n : Text) (t : ℕ) (a : Addr).
        append_assoc (to_lower n) (b'|' ∷ format_nat t) (b'|' ∷ scope a) in
      let (fronts, scopes) =
        split_last (front name qtype) (front name' qtype') (scope ip) (scope ip')
          (cache_scope-NoBar plain ip) (cache_scope-NoBar plain ip')
          (regroup name qtype ip ∙ e ∙ sym (regroup name' qtype' ip')) in
      let (names, types) =
        split_last (to_lower name) (to_lower name') (format_nat qtype) (format_nat qtype')
          (IsDigit-NoBar _ (format_nat-All qtype)) (IsDigit-NoBar _ (format_nat-All qtype'))
          fronts in
      (names, format_nat_inj qtype qtype' types, scopes)
