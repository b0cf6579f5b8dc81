-- ===== src/Geoip/Provider/Laws.antt =====
-- The readers that a failed load leaves in use.
use namedor.Common.{
  ◌≡◌, refl, true, false, Option, none, some, List, [], ◌∷◌, ◌++◌, inl, inr, ◌⊎◌, Bool-cases, arith,
  sym, ◌∙◌,
}
use namedor.Net.{Addr, is_6}
use namedor.Geoip.{
  Library, or_else, Kind, countries, networks, DbReader, Maxmind, Found, missing, directory, file,
  load_readers, is_unloaded, reader_for,
}
use namedor.Geoip.Provider.{Provider, opened, in_use, load_again}

module _ (lib : Library) where
  -- The reader stands in the list.
  abbrev pub IsIn : DbReader lib → List (DbReader lib) → Type 0
  IsIn r [] = ⊥
  IsIn r (s ∷ readers) = (r ≡ s) ⊎ IsIn r readers

  IsIn-left : (r : DbReader lib) (xs ys : List (DbReader lib)) → IsIn r xs → IsIn r (xs ++ ys)
  IsIn-left r [] ys none_there = elim none_there [ ]
  IsIn-left r (x ∷ xs) ys (inl e) = inl e
  IsIn-left r (x ∷ xs) ys (inr h) = inr (IsIn-left r xs ys h)

  IsIn-right : (r : DbReader lib) (xs ys : List (DbReader lib)) → IsIn r ys → IsIn r (xs ++ ys)
  IsIn-right r [] ys h = h
  IsIn-right r (x ∷ xs) ys h = inr (IsIn-right r xs ys h)

  -- A load that fails leaves the readers, or there are none after it.
  load_readers-failed :
      (found : Found lib) (m : Maxmind lib)
      → (load_readers lib found m).0 ≡ false
      → ((load_readers lib found m).1 ≡ m) ⊎ (is_unloaded lib (load_readers lib found m).1 ≡ true)
  unfolding load_readers
  load_readers-failed missing m h = inl refl
  load_readers-failed (directory none) m h = inl refl
  load_readers-failed (directory (some entries)) m h = inr (ground arith)
  load_readers-failed (file none) m h = inl refl
  load_readers-failed (file (some r)) m h = cc

  opened-IsIn : (r : DbReader lib) (o : Option (DbReader lib)) → o ≡ some r → IsIn r (opened lib o)
  opened-IsIn r none e = cc
  opened-IsIn r (some s) e = inl cc

  or_else-some :
      (r : DbReader lib) (a b : Option (DbReader lib))
      → or_else a b ≡ some r
      → IsIn r (opened lib a) ⊎ IsIn r (opened lib b)
  or_else-some r none b e = inr (opened-IsIn r b e)
  or_else-some r (some s) b e = inl (opened-IsIn r (some s) e)

  -- The countries come first.
  countries-IsIn :
      (r : DbReader lib) (m : Maxmind lib)
      → IsIn r (opened lib m.country4) ⊎ IsIn r (opened lib m.country6)
      → IsIn r (in_use lib m)
  unfolding in_use
  countries-IsIn r m (inl h) =
      IsIn-left r (opened lib m.country4)
        (opened lib m.country6 ++ (opened lib m.asn4 ++ opened lib m.asn6)) h
  countries-IsIn r m (inr h) =
      IsIn-right r (opened lib m.country4)
        (opened lib m.country6 ++ (opened lib m.asn4 ++ opened lib m.asn6))
        (IsIn-left r (opened lib m.country6) (opened lib m.asn4 ++ opened lib m.asn6) h)

  networks-IsIn :
      (r : DbReader lib) (m : Maxmind lib)
      → IsIn r (opened lib m.asn4) ⊎ IsIn r (opened lib m.asn6)
      → IsIn r (in_use lib m)
  unfolding in_use
  networks-IsIn r m h =
      IsIn-right r (opened lib m.country4)
        (opened lib m.country6 ++ (opened lib m.asn4 ++ opened lib m.asn6))
        (IsIn-right r (opened lib m.country6) (opened lib m.asn4 ++ opened lib m.asn6) (elim h [
          | inl k ↦ IsIn-left r (opened lib m.asn4) (opened lib m.asn6) k
          | inr k ↦ IsIn-right r (opened lib m.asn4) (opened lib m.asn6) k
        ]))

  swapped : {A B : Type 0} → A ⊎ B → B ⊎ A
  swapped (inl a) = inr a
  swapped (inr b) = inl b

  reader_for-IsIn :
      (m : Maxmind lib) (ip : Addr) (kind : Kind) (r : DbReader lib)
      → reader_for lib m ip kind ≡ some r
      → IsIn r (in_use lib m)
  unfolding reader_for
  reader_for-IsIn m ip countries r h = elim (Bool-cases (is_6 ip)) [
    | inl e ↦ countries-IsIn r m (swapped (or_else-some r m.country6 m.country4 (rw (e) at h)))
    | inr e ↦ countries-IsIn r m (or_else-some r m.country4 m.country6 (rw (e) at h))
  ]
  reader_for-IsIn m ip networks r h = elim (Bool-cases (is_6 ip)) [
    | inl e ↦ networks-IsIn r m (swapped (or_else-some r m.asn6 m.asn4 (rw (e) at h)))
    | inr e ↦ networks-IsIn r m (or_else-some r m.asn4 m.asn6 (rw (e) at h))
  ]

  unloaded-reader_for :
      (m : Maxmind lib) (ip : Addr) (kind : Kind)
      → is_unloaded lib m ≡ true
      → reader_for lib m ip kind ≡ none
  unfolding is_unloaded reader_for
  unloaded-reader_for m ip countries h = ground arith
  unloaded-reader_for m ip networks h = ground arith

  -- After a load that fails, every reader that a lookup uses has been closed.
  pub load_again-closed :
      (found : Found lib) (p : Provider lib) (ip : Addr) (kind : Kind) (r : DbReader lib)
      → (load_again lib found p).0 ≡ false
      → reader_for lib (load_again lib found p).1.readers ip kind ≡ some r
      → IsIn r (load_again lib found p).1.closed
  unfolding load_again
  load_again-closed found p ip kind r failed used =
      elim (load_readers-failed found p.readers failed) [
        | inl same ↦
            IsIn-left r (in_use lib p.readers) p.closed
              (reader_for-IsIn p.readers ip kind r (rw (same) at used))
        | inr unloaded ↦
            let no_reader : none ≡ some r = sym (unloaded-reader_for _ ip kind unloaded) ∙ used in
            cc
      ]
