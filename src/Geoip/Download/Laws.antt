-- ===== src/Geoip/Download/Laws.antt =====
-- What downloadMMDB leaves in the directory.
use namedor.Common.{
  ℕ, ◌≡◌, ◌≢◌, refl, Bool, true, false, Option, none, some, List, [], ◌∷◌, inl, inr, ◌⊎◌, arith,
  Bool-cases, ◌==◌, if◌then◌else◌, ◌&&◌, sym, ◌∙◌,
}
use namedor.Text.{Text, codes, has_suffix, text_eq}
use namedor.Text.Laws.{text_eq_iff}
use namedor.Text.Affix.{has_suffix-append}
use namedor.Geoip.Download.{
  Disk, target_path, tmp_path, renamed, copied, created, received, download_one, count,
  download_all, download_mmdb,
}

-- What POSIX says of the calls: each leaves every path alone but the ones that it names, and a failed
-- rename leaves those. `contents` is what a read of the path gives.
pub record IsPosix (disk : Disk) : Type 0 where
  pub contents : Text → disk.World → Option disk.Body
  pub mkdir_all :
      (dir p : Text) (w : disk.World) → contents p (disk.mkdir_all dir w).1 ≡ contents p w
  pub get : (url p : Text) (w : disk.World) → contents p (disk.get url w).1 ≡ contents p w
  pub create : (q p : Text) (w : disk.World) → q ≢ p → contents p (disk.create q w).1 ≡ contents p w
  pub copy :
      (q p : Text) (body : disk.Body) (w : disk.World)
      → q ≢ p
      → contents p (disk.copy q body w).1 ≡ contents p w
  pub copied :
      (q : Text) (body : disk.Body) (w : disk.World)
      → (disk.copy q body w).0 ≡ true
      → contents q (disk.copy q body w).1 ≡ some body
  pub remove : (q p : Text) (w : disk.World) → q ≢ p → contents p (disk.remove q w) ≡ contents p w
  pub rename :
      (from to p : Text) (w : disk.World)
      → from ≢ p
      → contents p (disk.rename from to w).1
        ≡ (if (disk.rename from to w).0 && text_eq to p then contents from w else contents p w)

module _ (disk : Disk) (posix : IsPosix disk) where
  open disk use {World, Body}
  open posix use {contents}

  pub tmp_path_ne :
      (target p : Text) → has_suffix p (codes ".tmp") ≡ false → tmp_path disk target ≢ p
  tmp_path_ne target p h e =
      let tmp : has_suffix p (codes ".tmp") ≡ true =
        rw (sym e) (has_suffix-append target (codes ".tmp")) in
      cc

  -- The path is as it was before, or it is the target with the whole body.
  Whole : Text → Text → Body → World → World → Type 0
  Whole target p body w w' =
      (contents p w' ≡ contents p w) ⊎ ((contents p w' ≡ some body) × (target ≡ p))

  renamed-Whole :
      (target p : Text) (body : Body) (w : World)
      → has_suffix p (codes ".tmp") ≡ false
      → contents (tmp_path disk target) w ≡ some body
      → (out : Bool × World) → disk.rename (tmp_path disk target) target w ≡ out
      → Whole target p body w (renamed disk target out).1
  unfolding renamed Whole
  renamed-Whole target p body w h full (true, w') e =
      let after : contents p w'
          ≡ (if text_eq target p then contents (tmp_path disk target) w else contents p w) =
        ground (arith, posix.rename (tmp_path disk target) target p w (tmp_path_ne target p h)) in
      elim (Bool-cases (text_eq target p)) [
        | inl same ↦ inr (ground arith, (text_eq_iff target p).0 same)
        | inr other ↦ inl (ground arith)
      ]
  renamed-Whole target p body w h full (false, w') e = inl (
      ground (
        arith,
        posix.rename (tmp_path disk target) target p w (tmp_path_ne target p h),
        posix.remove (tmp_path disk target) p w' (tmp_path_ne target p h),
      ))

  copied-Whole :
      (target p : Text) (body : Body) (w : World)
      → has_suffix p (codes ".tmp") ≡ false
      → (out : Bool × World) → disk.copy (tmp_path disk target) body w ≡ out
      → Whole target p body w (copied disk target out).1
  unfolding copied Whole
  copied-Whole target p body w h (true, w') e =
      let before : contents p w' ≡ contents p w =
        ground (arith, posix.copy (tmp_path disk target) p body w (tmp_path_ne target p h)) in
      let full : contents (tmp_path disk target) w' ≡ some body =
        ground (arith, posix.copied (tmp_path disk target) body w) in
      elim (renamed-Whole target p body w' h full (disk.rename (tmp_path disk target) target w')
        refl) [ inl same ↦ inl (same ∙ before) | inr stored ↦ inr stored ]
  copied-Whole target p body w h (false, w') e = inl (
      ground (
        arith,
        posix.copy (tmp_path disk target) p body w (tmp_path_ne target p h),
        posix.remove (tmp_path disk target) p w' (tmp_path_ne target p h),
      ))

  created-Whole :
      (target p : Text) (body : Body) (w : World)
      → has_suffix p (codes ".tmp") ≡ false
      → (out : Bool × World) → disk.create (tmp_path disk target) w ≡ out
      → Whole target p body w (created disk target body out).1
  unfolding created Whole
  created-Whole target p body w h (true, w') e =
      let before : contents p w' ≡ contents p w =
        ground (arith, posix.create (tmp_path disk target) p w (tmp_path_ne target p h)) in
      elim (copied-Whole target p body w' h (disk.copy (tmp_path disk target) body w') refl) [
        | inl same ↦ inl (same ∙ before)
        | inr stored ↦ inr stored
      ]
  created-Whole target p body w h (false, w') e =
      inl (ground (arith, posix.create (tmp_path disk target) p w (tmp_path_ne target p h)))

  -- One of the URLs is stored under the path, and at one time its server answered with the body.
  pub Served : Text → Text → Body → List Text → Type 0
  Served dir p body [] = ⊥
  Served dir p body (url ∷ urls) =
      ((target_path disk dir url ≡ p) × (w : World) × ((disk.get url w).0 ≡ some (200, body)))
      ⊎ Served dir p body urls

  -- The path is as it was, or it has what one of the URLs served.
  abbrev pub Delivered : Text → Text → List Text → World → World → Type 0
  Delivered dir p urls w w' =
      (contents p w' ≡ contents p w)
      ⊎ ((body : Body) × (contents p w' ≡ some body) × Served dir p body urls)

  received-Delivered :
      (dir url p : Text) (urls : List Text) (w : World)
      → has_suffix p (codes ".tmp") ≡ false
      → (out : Option (ℕ × Body) × World) → disk.get url w ≡ out
      → Delivered dir p (url ∷ urls) w (received disk (target_path disk dir url) out).1
  unfolding received Served Whole
  received-Delivered dir url p urls w h (none, w') e = inl (ground (arith, posix.get url p w))
  received-Delivered dir url p urls w h (some (status, body), w') e =
      let before : contents p w' ≡ contents p w = ground (arith, posix.get url p w) in
      let target = target_path disk dir url in
      elim (Bool-cases (status == 200)) [
        | inr bad ↦ rw (bad) (inl before)
        | inl good ↦
            rw (good)
              (elim (created-Whole target p body w' h (disk.create (tmp_path disk target) w')
                refl) [
                  | inl same ↦ inl (same ∙ before)
                  | inr (stored, at) ↦ inr (body, stored, inl (at, w, ground arith))
                ])
      ]

  -- A body that the later URLs serve is one that the URLs serve.
  Delivered-weaken :
      (dir url p : Text) (urls : List Text) (w w' w'' : World)
      → Delivered dir p (url ∷ []) w w'
      → Delivered dir p urls w' w''
      → Delivered dir p (url ∷ urls) w w''
  unfolding Served
  Delivered-weaken dir url p urls w w' w'' (inl a) (inl b) = inl (b ∙ a)
  Delivered-weaken dir url p urls w w' w'' (inr (body, a, inl served)) (inl b) =
      inr (body, b ∙ a, inl served)
  Delivered-weaken dir url p urls w w' w'' (inr (body, a, inr none_left)) (inl b) =
      elim none_left [ ]
  Delivered-weaken dir url p urls w w' w'' a (inr (body, b, served)) = inr (body, b, inr served)

  download_all-Delivered :
      (dir p : Text) (urls : List Text) (counts : ℕ × ℕ) (w : World)
      → has_suffix p (codes ".tmp") ≡ false
      → Delivered dir p urls w (download_all disk dir urls counts w).1
  unfolding download_all download_one
  download_all-Delivered dir p [] counts w h = inl refl
  download_all-Delivered dir p (url ∷ urls) counts w h =
      Delivered-weaken dir url p urls w (download_one disk dir url w).1 _
        (received-Delivered dir url p [] w h (disk.get url w) refl)
        (download_all-Delivered dir p urls (count (download_one disk dir url w).0 counts)
          (download_one disk dir url w).1 h)

  -- Over a file system that keeps POSIX, whatever of the calls fails, a path that does not end in
  -- .tmp is after downloadMMDB as it was before, or it has the whole body that the server of one of
  -- the URLs sent with the status 200, where the path is the target of that URL.
  pub download_mmdb-Delivered :
      (urls : List Text) (dir p : Text) (w : World)
      → has_suffix p (codes ".tmp") ≡ false
      → Delivered dir p urls w (download_mmdb disk urls dir w).1
  unfolding download_mmdb
  download_mmdb-Delivered [] dir p w h = inl refl
  download_mmdb-Delivered (url ∷ urls) dir p w h =
      let before = posix.mkdir_all dir p w in
      elim (Bool-cases (disk.mkdir_all dir w).0) [
        | inr bad ↦ rw (bad) (inl before)
        | inl made ↦
            rw (made)
              (elim (download_all-Delivered dir p (url ∷ urls) (0, 0) (disk.mkdir_all dir w).1 h) [
                | inl same ↦ inl (same ∙ before)
                | inr stored ↦ inr stored
              ])
      ]
