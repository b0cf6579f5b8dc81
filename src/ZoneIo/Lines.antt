-- ===== src/ZoneIo/Lines.antt =====
-- The text of a record, as the DNS library prints it, read by rdataFromRR.
use namedor.Common.{◌≡◌, refl, ap, ◌∙◌, false, List, [], ◌∷◌, ◌++◌, is_empty}
use namedor.Text.{Text}
use namedor.Text.Words.{fields, join, IsWord, fields-tab}
use namedor.ZoneIo.Bind.{rdata_words, rdata_from_rr}

-- `NAME\tTTL\tCLASS\tTYPE\tRDATA`
abbrev pub printed : (name ttl class type rdata : Text) → Text
printed name ttl class type rdata = name ++ 9 ∷ (ttl ++ 9 ∷ (class ++ 9 ∷ (type ++ 9 ∷ rdata)))

rdata_words_lem :
    (s name ttl class type : Text) (rest : List Text)
    → is_empty rest ≡ false
    → rdata_words s (name ∷ ttl ∷ class ∷ type ∷ rest) ≡ join rest
unfolding rdata_words
rdata_words_lem s name ttl class type [] h = cc
rdata_words_lem s name ttl class type (w ∷ ws) h = refl

-- Of a record that is printed as its name, TTL, class, type and data with tabs between them,
-- rdataFromRR returns the data with every run of white space made one space, inside quotes too,
-- and none at the ends, if the name, TTL, class and type are words and the data is not blank.
pub rdata_from_rr-printed :
    (name ttl class type rdata : Text)
    → IsWord name
    → IsWord ttl
    → IsWord class
    → IsWord type
    → is_empty (fields rdata) ≡ false
    → rdata_from_rr (printed name ttl class type rdata) ≡ join (fields rdata)
unfolding rdata_from_rr
rdata_from_rr-printed name ttl class type rdata n t c k some_word =
    let words : fields (printed name ttl class type rdata)
        ≡ name ∷ ttl ∷ class ∷ type ∷ fields rdata =
      rw (fields-tab name _ n, fields-tab ttl _ t, fields-tab class _ c, fields-tab type _ k)
        refl in
    ap (rdata_words (printed name ttl class type rdata)) words
    ∙ rdata_words_lem (printed name ttl class type rdata) name ttl class type (fields rdata)
        some_word
