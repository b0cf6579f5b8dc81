-- ===== src/Web/Language/Laws.antt =====
-- What a translation keeps of its key.
use namedor.Common.{
  ◌≡◌, refl, Bool, true, false, ◌&&◌, some, List, [], ◌∷◌, ◌==◌, arith, Option-cases, inl, inr,
  Bool-cases,
}
use namedor.Text.{Text, codes, text_eq}
use namedor.Text.Laws.{text_eq_iff}
use namedor.Assoc.{fetch}
use namedor.Web.Language.English.{english}
use namedor.Web.Language.Russian.{russian}
use namedor.Web.Language.{tr, table_of, translations}

-- The letters after the percent signs of a format: what fmt.Sprintf makes of its arguments.
verbs_from : (after_percent : Bool) → Text → Text
verbs_from b [] = []
verbs_from true (c ∷ s) = c ∷ verbs_from false s
verbs_from false (c ∷ s) = verbs_from (c == b'%') s

pub verbs : Text → Text
verbs s = verbs_from false s

same_verbs : List (Text × Text) → Bool
unfolding verbs text_eq
same_verbs [] = true
same_verbs ((key, text) ∷ table) = text_eq (verbs key) (verbs text) && same_verbs table

english-same_verbs : same_verbs english ≡ true
unfolding same_verbs english verbs_from
english-same_verbs = refl

russian-same_verbs : same_verbs russian ≡ true
unfolding same_verbs russian verbs_from
russian-same_verbs = refl

verbs-fetch :
    (key text : Text) (table : List (Text × Text))
    → same_verbs table ≡ true
    → fetch key table ≡ some text
    → verbs text ≡ verbs key
unfolding same_verbs fetch
verbs-fetch key text [] h e = cc
verbs-fetch key text ((k, t) ∷ table) h e =
    ground (arith, text_eq_iff k key, text_eq_iff (verbs k) (verbs t), verbs-fetch key text table)

table_of-same_verbs : (lang : Text) → same_verbs (table_of (fetch lang translations)) ≡ true
unfolding fetch same_verbs
table_of-same_verbs lang = elim (Bool-cases (text_eq (codes "en") lang)) [
  | inl e ↦ rw (e) english-same_verbs
  | inr e ↦ elim (Bool-cases (text_eq (codes "ru") lang)) [
    | inl f ↦ rw (e, f) russian-same_verbs
    | inr f ↦ rw (e, f) refl
  ]
]

-- In every language, a known one or not, the text of every key, a known one or not, has the verbs of
-- the key in the same order, so that what is formatted by it takes the arguments of the key.
pub verbs-tr : (lang key : Text) → verbs (tr lang key) ≡ verbs key
unfolding tr
verbs-tr lang key = elim (Option-cases (fetch key (table_of (fetch lang translations)))) [
  | inr (text, e) ↦
      rw (tr, e)
        (verbs-fetch key text (table_of (fetch lang translations)) (table_of-same_verbs lang) e)
  | inl e ↦ elim (Option-cases (fetch key english)) [
    | inr (text, f) ↦ rw (tr, e, f) (verbs-fetch key text english english-same_verbs f)
    | inl f ↦ rw (tr, e, f) refl
  ]
]
