-- ===== src/Text/Words.antt =====
-- strings.Fields and strings.Join with one space: words and back.
use namedor.Common.{
  ℕ, ◌≡◌, refl, ap, sym, ◌∙◌, false, List, [], ◌∷◌, ◌++◌, is_empty, if◌then◌else◌, Bool-cases, inl,
  inr, All, append_assoc, append-nil,
}
use namedor.Text.{Text, is_space}

-- The word that has been read so far is closed by white space, and by the end.
abbrev close : Text → List Text → List Text
close word rest = if is_empty word then rest else word ∷ rest

unfoldable pub fields_from : Text → Text → List Text
unfolding is_space
fields_from word [] = close word []
fields_from word (c ∷ s) =
    let closed = close word (fields_from [] s) in
    let longer = fields_from (word ++ c ∷ []) s in if is_space c then closed else longer

unfoldable pub fields : Text → List Text
unfolding fields_from
fields s = fields_from [] s

unfoldable pub join : List Text → Text
join [] = []
join (w ∷ []) = w
join (w ∷ v ∷ ws) = w ++ 32 ∷ join (v ∷ ws)

-- A word: not empty, and without white space.
abbrev pub NoSpace : Text → Type 0
NoSpace s = All (λ c. is_space c ≡ false) s

pub record IsWord (s : Text) : Type 0 where
  pub some_byte : is_empty s ≡ false
  pub no_space : NoSpace s

fields_from-append :
    (word w s : Text) → NoSpace w → fields_from word (w ++ s) ≡ fields_from (word ++ w) s
unfolding fields_from
fields_from-append word [] s h = ap (λ x. fields_from x s) (sym (append-nil word))
fields_from-append word (c ∷ w) s (p, h) = rw p (
    fields_from-append (word ++ c ∷ []) w s h
    ∙ ap (λ x. fields_from x s) (append_assoc word (c ∷ []) w))

fields_from_end : (w : Text) → IsWord w → fields_from w [] ≡ w ∷ []
unfolding fields_from
fields_from_end w h = rw (h.some_byte)

fields_from_space : (w s : Text) → IsWord w → fields_from w (32 ∷ s) ≡ w ∷ fields_from [] s
unfolding fields_from
fields_from_space w s h = rw (h.some_byte)

fields-word : (w s : Text) → NoSpace w → fields (w ++ s) ≡ fields_from w s
unfolding fields
fields-word w s h = fields_from-append [] w s h

-- Words joined by single spaces are read back as the same words.
pub fields-join : (ws : List Text) → All IsWord ws → fields (join ws) ≡ ws
unfolding join fields fields_from
fields-join [] h = refl
fields-join (w ∷ []) (h, _) =
    ap fields (sym (append-nil w)) ∙ fields-word w [] h.no_space ∙ fields_from_end w h
fields-join (w ∷ v ∷ ws) (h, hs) =
    fields-word w (32 ∷ join (v ∷ ws)) h.no_space
    ∙ fields_from_space w (join (v ∷ ws)) h
    ∙ ap (◌∷◌ w) (fields-join (v ∷ ws) hs)

-- The first word of a text.
pub fields-cons : (w s : Text) → IsWord w → fields (w ++ 32 ∷ s) ≡ w ∷ fields s
unfolding fields
fields-cons w s h = fields-word w (32 ∷ s) h.no_space ∙ fields_from_space w s h

-- The first word of a text that goes on with a tab.
pub fields-tab : (w s : Text) → IsWord w → fields (w ++ 9 ∷ s) ≡ w ∷ fields s
unfolding fields
fields-tab w s h =
    let tabbed : fields_from w (9 ∷ s) ≡ w ∷ fields_from [] s =
      unfold fields_from in rw (h.some_byte) in
    fields-word w (9 ∷ s) h.no_space ∙ tabbed

close-IsWord :
    (word : Text) (rest : List Text) → NoSpace word → All IsWord rest → All IsWord (close word rest)
close-IsWord [] rest h k = k
close-IsWord (c ∷ word) rest h k = (record { some_byte = refl; no_space = h }, k)

NoSpace-concat : (w : Text) (c : ℕ) → NoSpace w → is_space c ≡ false → NoSpace (w ++ c ∷ [])
NoSpace-concat [] c h p = (p, tt)
NoSpace-concat (d ∷ w) c (q, h) p = (q, NoSpace-concat w c h p)

fields_from-IsWord : (word s : Text) → NoSpace word → All IsWord (fields_from word s)
unfolding fields_from
fields_from-IsWord word [] h = close-IsWord word [] h tt
fields_from-IsWord word (c ∷ s) h = elim (Bool-cases (is_space c)) [
  | inl e ↦ rw e (close-IsWord word _ h (fields_from-IsWord [] s tt))
  | inr e ↦ rw e (fields_from-IsWord (word ++ c ∷ []) s (NoSpace-concat word c h e))
]

-- What Fields returns are words.
pub fields-IsWord : (s : Text) → All IsWord (fields s)
unfolding fields
fields-IsWord s = fields_from-IsWord [] s tt
