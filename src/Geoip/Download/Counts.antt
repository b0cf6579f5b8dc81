-- ===== src/Geoip/Download/Counts.antt =====
-- What downloadMMDB counts as downloaded and as failed.
use namedor.Common.{
  ℕ, ◌+◌, ◌≡◌, ◌≢◌, refl, Bool, true, false, Option, none, some, List, [], ◌∷◌, ◌++◌, inl, inr, ◌⊎◌,
  false, length, length-append, arith, ap, ◌∙◌, Bool-cases, ◌==◌, is_empty,
}
use namedor.Text.{Text, codes, has_suffix}
use namedor.Text.Laws.{text_eq_refl}
use namedor.Geoip.Download.{
  Disk, target_path, tmp_path, renamed, copied, created, received, download_one, count,
  download_all, download_mmdb, completed,
}
use namedor.Geoip.Download.Laws.{IsPosix, tmp_path_ne}

module _ (disk : Disk) (posix : IsPosix disk) where
  open disk use {World, Body}
  open posix use {contents}

  -- Every path is as it was, but for those of temporary files.
  abbrev pub Kept : World → World → Type 0
  Kept w w' = (p : Text) → has_suffix p (codes ".tmp") ≡ false → contents p w' ≡ contents p w

  -- The target has the whole body, or the paths are as they were.
  abbrev Verdict : Text → Body → World → Bool × World → Type 0
  Verdict target body w out =
      ((out.0 ≡ true) × (contents target out.1 ≡ some body)) ⊎ ((out.0 ≡ false) × Kept w out.1)

  Verdict-later :
      (target : Text) (body : Body) (w w' : World) (out : Bool × World)
      → Kept w w'
      → Verdict target body w' out
      → Verdict target body w out
  Verdict-later target body w w' out same (inl stored) = inl stored
  Verdict-later target body w w' out same (inr (bad, kept)) = inr (bad, λ p h. kept p h ∙ same p h)

  longer_ne : (target : Text) → tmp_path disk target ≢ target
  longer_ne target e =
      let long : length (target ++ codes ".tmp") ≡ length target = ap length e in
      omega (arith, length-append {0} target (codes ".tmp"))

  renamed-Verdict :
      (target : Text) (body : Body) (w : World)
      → contents (tmp_path disk target) w ≡ some body
      → (out : Bool × World) → disk.rename (tmp_path disk target) target w ≡ out
      → Verdict target body w (renamed disk target out)
  unfolding renamed
  renamed-Verdict target body w full (true, w') e = inl (
    refl,
    ground (
      arith,
      posix.rename (tmp_path disk target) target target w (longer_ne target),
      text_eq_refl target,
    ),
  )
  renamed-Verdict target body w full (false, w') e = inr (
    refl,
    λ p h. ground (
      arith,
      posix.rename (tmp_path disk target) target p w (tmp_path_ne disk posix target p h),
      posix.remove (tmp_path disk target) p w' (tmp_path_ne disk posix target p h),
    ),
  )

  copied-Verdict :
      (target : Text) (body : Body) (w : World) (out : Bool × World)
      → disk.copy (tmp_path disk target) body w ≡ out
      → Verdict target body w (copied disk target out)
  unfolding copied
  copied-Verdict target body w (true, w') e =
      let full : contents (tmp_path disk target) w' ≡ some body =
        ground (arith, posix.copied (tmp_path disk target) body w) in
      Verdict-later target body w w' _
        (λ p h.
          ground
            (arith, posix.copy (tmp_path disk target) p body w (tmp_path_ne disk posix target p h)))
        (renamed-Verdict target body w' full (disk.rename (tmp_path disk target) target w') refl)
  copied-Verdict target body w (false, w') e = inr (
    refl,
    λ p h. ground (
      arith,
      posix.copy (tmp_path disk target) p body w (tmp_path_ne disk posix target p h),
      posix.remove (tmp_path disk target) p w' (tmp_path_ne disk posix target p h),
    ),
  )

  created-Verdict :
      (target : Text) (body : Body) (w : World) (out : Bool × World)
      → disk.create (tmp_path disk target) w ≡ out
      → Verdict target body w (created disk target body out)
  unfolding created
  created-Verdict target body w (true, w') e =
      Verdict-later target body w w' _
        (λ p h.
          ground
            (arith, posix.create (tmp_path disk target) p w (tmp_path_ne disk posix target p h)))
        (copied-Verdict target body w' (disk.copy (tmp_path disk target) body w') refl)
  created-Verdict target body w (false, w') e = inr (
    refl,
    λ p h.
        ground (arith, posix.create (tmp_path disk target) p w (tmp_path_ne disk posix target p h)),
  )

  -- The server answered with the status 200 and a body that the target now has, or the paths are as
  -- they were.
  abbrev Download : Text → Text → World → Bool × World → Type 0
  Download dir url w out =
      ((out.0 ≡ true)
        × (body : Body) × ((disk.get url w).0 ≡ some (200, body))
        × (contents (target_path disk dir url) out.1 ≡ some body))
      ⊎ ((out.0 ≡ false) × Kept w out.1)

  received-Download :
      (dir url : Text) (w : World) (out : Option (ℕ × Body) × World)
      → disk.get url w ≡ out
      → Download dir url w (received disk (target_path disk dir url) out)
  unfolding received
  received-Download dir url w (none, w') e = inr (refl, λ p h. ground (arith, posix.get url p w))
  received-Download dir url w (some (status, body), w') e =
      let before : Kept w w' = λ p h. ground (arith, posix.get url p w) in
      let target = target_path disk dir url in
      elim (Bool-cases (status == 200)) [
        | inr bad ↦ rw (bad) (inr (refl, before))
        | inl good ↦
            rw (good)
              (elim (Verdict-later target body w w' _ before
                (created-Verdict target body w' (disk.create (tmp_path disk target) w') refl)) [
                  | inl (good_out, stored) ↦ inl (good_out, body, ground arith, stored)
                  | inr kept ↦ inr kept
                ])
      ]

  -- The rounds of the loop over the URLs, with how many stored their file and how many did not: after
  -- each of the first, the target of the URL has the whole body that its server sent with the
  -- status 200; each of the others leaves every path but those of temporary files as it was.
  pub data Downloads (dir : Text) : List Text → World → (stored failed : ℕ) → World → Type 0 where
    ended : (w : World) → Downloads dir [] w 0 0 w
    one_stored :
        {url : Text} {urls : List Text} {w w' : World} {m n : ℕ} (body : Body)
        → (disk.get url w).0 ≡ some (200, body)
        → contents (target_path disk dir url) (download_one disk dir url w).1 ≡ some body
        → Downloads dir urls (download_one disk dir url w).1 m n w'
        → Downloads dir (url ∷ urls) w (m + 1) n w'
    one_failed :
        {url : Text} {urls : List Text} {w w' : World} {m n : ℕ}
        → Kept w (download_one disk dir url w).1
        → Downloads dir urls (download_one disk dir url w).1 m n w'
        → Downloads dir (url ∷ urls) w m (n + 1) w'

  -- The counts that the loop adds to those that it begins with.
  abbrev Counted : Text → List Text → ℕ × ℕ → World → (ℕ × ℕ) × World → Type 0
  Counted dir urls counts w out =
      (m : ℕ) × (n : ℕ) × (out.0.0 ≡ counts.0 + m)
      × (out.0.1 ≡ counts.1 + n)
      × (m + n ≡ length urls)
      × Downloads dir urls w m n out.1

  Counted-cons :
      (stored : Bool) (dir url : Text) (urls : List Text) (counts : ℕ × ℕ) (w : World)
      (out : (ℕ × ℕ) × World)
      → (download_one disk dir url w).0 ≡ stored
      → Counted dir urls (count stored counts) (download_one disk dir url w).1 out
      → Counted dir (url ∷ urls) counts w out
  unfolding count download_one
  Counted-cons true dir url urls counts w out e (m, n, a, b, sum, rest) =
      elim (received-Download dir url w (disk.get url w) refl) [
        | inl (good, body, sent, there) ↦
            (m + 1, n, omega arith, omega arith, omega arith, one_stored body sent there rest)
        | inr (bad, kept) ↦ cc
      ]
  Counted-cons false dir url urls counts w out e (m, n, a, b, sum, rest) =
      elim (received-Download dir url w (disk.get url w) refl) [
        | inl (good, body, sent, there) ↦ cc
        | inr (bad, kept) ↦ (m, n + 1, omega arith, omega arith, omega arith, one_failed kept rest)
      ]

  download_all-Counted :
      (dir : Text) (urls : List Text) (counts : ℕ × ℕ) (w : World)
      → Counted dir urls counts w (download_all disk dir urls counts w)
  unfolding download_all
  download_all-Counted dir [] counts w = (0, 0, omega arith, omega arith, omega arith, ended w)
  download_all-Counted dir (url ∷ urls) counts w =
      Counted-cons (download_one disk dir url w).0 dir url urls counts w _ refl (
        download_all-Counted dir urls (count (download_one disk dir url w).0 counts)
          (download_one disk dir url w).1)

  cong_completed : {a b m n : ℕ} → a ≡ 0 + m → b ≡ 0 + n → completed a b ≡ completed m n
  cong_completed p q = ground (arith, p, q)

  -- Over a file system that keeps POSIX, where there are URLs and the directory can be made,
  -- downloadMMDB comes to its end whatever else fails, with two numbers that add up to that of the
  -- URLs: each URL that is counted as downloaded has, after its round of the loop, at its target the
  -- whole body that its server sent with the status 200, and the round of each that is counted as
  -- failed leaves every path but those of temporary files as it was.
  pub download_mmdb_counts :
      (urls : List Text) (dir : Text) (w : World)
      → is_empty urls ≡ false
      → (disk.mkdir_all dir w).0 ≡ true
      → (stored : ℕ) × (failed : ℕ) × ((download_mmdb disk urls dir w).0 ≡ completed stored failed)
        × (stored + failed ≡ length urls)
        × Downloads dir urls
            (disk.mkdir_all dir w).1
            stored
            failed
            (download_mmdb disk urls dir w).1
  unfolding download_mmdb
  download_mmdb_counts urls dir w some_url made =
      let (m, n, a, b, sum, run) = download_all-Counted dir urls (0, 0) (disk.mkdir_all dir w).1 in
      (m, n, rw (some_url, made) (cong_completed a b), sum, rw (some_url, made) run)
