-- ===== src/Command/Seed/Laws.antt =====
-- The names that the seeded records get.
use namedor.Common.{
  ℕ, ◌≡◌, refl, true, false, [], ◌∷◌, ◌++◌, All, arith, append_assoc, append-nil, is_empty,
}
use namedor.Text.{Text, codes, has_suffix, has_prefix, text_eq, replace_all, replace_from}
use namedor.Text.Affix.{has_suffix-append}
use namedor.Model.{TemplateRecord}
use namedor.Web.Templates.{applied_name, filled}
use namedor.Command.Seed.{seed_record, mail_server_records, web_server_records}

-- The name that a record gets in a zone ends in the name of the zone, with its dot.
abbrev pub InZone : Text → TemplateRecord → Type 0
InZone domain t = has_suffix (applied_name domain t.name) (domain ++ codes ".") ≡ true

suffix_after :
    (domain front : Text) → has_suffix (front ++ domain ++ codes ".") (domain ++ codes ".") ≡ true
suffix_after domain front =
    rw (append_assoc front domain (codes ".")) (has_suffix-append front (domain ++ codes "."))

has_suffix-front :
    (c : ℕ) (front s : Text)
    → is_empty s ≡ false
    → has_suffix (front ++ s) (c ∷ []) ≡ has_suffix s (c ∷ [])
unfolding has_suffix text_eq
has_suffix-front c [] s h = refl
has_suffix-front c (d ∷ []) [] h = cc
has_suffix-front c (d ∷ []) (e ∷ s) h = ground arith
has_suffix-front c (d ∷ b ∷ front) s h = ground (arith, has_suffix-front c (b ∷ front) s h)

-- A name that ends in the placeholder.
applied_name-InZone :
    (domain : Text)
    → is_empty domain ≡ false
    → has_suffix domain (codes ".") ≡ false
    → (front name : Text) → filled domain name ≡ front ++ (domain ++ [])
    → has_suffix (applied_name domain name) (domain ++ codes ".") ≡ true
unfolding applied_name
applied_name-InZone domain some_domain bare front name e =
    rw (e, append-nil domain, has_suffix-front b'.' front domain some_domain, bare)
      (suffix_after domain front)

-- Every record of the two templates has in a zone to which they are applied a name inside that zone,
-- for every domain that is not empty and does not end in a dot.
seed_records-InZone :
    (domain : Text) (id : ℕ)
    → is_empty domain ≡ false
    → has_suffix domain (codes ".") ≡ false
    → All (InZone domain) (mail_server_records id ++ web_server_records id)
unfolding mail_server_records web_server_records seed_record filled replace_all replace_from
    has_prefix
seed_records-InZone domain id some_domain bare =
    let inside = applied_name-InZone domain some_domain bare in
    let apex = inside [] (codes "{domain}") refl in
    let mail = inside (codes "mail.") (codes "mail.{domain}") refl in
    let dmarc = inside (codes "_dmarc.") (codes "_dmarc.{domain}") refl in
    let dkim = inside (codes "default._domainkey.") (codes "default._domainkey.{domain}") refl in
    let www = inside (codes "www.") (codes "www.{domain}") refl in
    (apex, (mail, (apex, (dmarc, (dkim, (apex, (www, tt)))))))
