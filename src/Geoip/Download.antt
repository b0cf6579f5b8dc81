-- ===== src/Geoip/Download.antt =====
-- downloadMMDB of internal/geoip/geoip.go. The network and the file system are the interface `Disk`:
-- each call of them has an effect on the world, and may fail. The log is left out.
pub mod Laws
pub mod Counts
use namedor.Common.{
  ℕ, ◌+◌, Bool, true, false, Option, none, some, List, [], ◌∷◌, ◌++◌, is_empty, any, ◌==◌,
  if◌then◌else◌,
}
use namedor.Text.{Text, codes, to_lower, has_suffix}

pub record Disk : Type 1 where
  pub World : Type 0
  pub Body : Type 0
  -- os.MkdirAll, without an error
  pub mkdir_all : Text → World → Bool × World
  -- client.Get: an error, or the status code with the body
  pub get : Text → World → Option (ℕ × Body) × World
  -- os.Create, io.Copy of a whole body, os.Rename, without an error; os.Remove
  pub create : Text → World → Bool × World
  pub copy : Text → Body → World → Bool × World
  pub rename : (from to : Text) → World → Bool × World
  pub remove : Text → World → World
  -- filepath.Join
  pub join : Text → Text → Text

-- The last of the parts between slashes.
unfoldable pub last_part : Text → Text
last_part [] = []
last_part (c ∷ s) =
    let rest = last_part s in
    if any (λ d. d == b'/') s then rest else if c == b'/' then s else c ∷ s

unfoldable pub file_name : Text → Text
unfolding last_part
file_name url =
    let name = last_part url in
    if has_suffix (to_lower name) (codes ".mmdb") then name else name ++ codes ".mmdb"

-- What a download comes to: nothing to do, no directory, or how many files were stored and how many
-- were not.
pub data Download : Type 0 where
  skipped : Download
  no_directory : Download
  completed : (downloaded failed : ℕ) → Download

unfoldable pub count : Bool → ℕ × ℕ → ℕ × ℕ
count true (downloaded, failed) = (downloaded + 1, failed)
count false (downloaded, failed) = (downloaded, failed + 1)

module _ (disk : Disk) where
  open disk use {World, Body}

  unfoldable pub target_path : Text → Text → Text
  unfolding file_name
  target_path dir url = disk.join dir (file_name url)

  abbrev pub tmp_path : Text → Text
  tmp_path target = target ++ codes ".tmp"

  -- From the rename on: whether the file is stored.
  unfoldable pub renamed : Text → Bool × World → Bool × World
  renamed target (true, w) = (true, w)
  renamed target (false, w) = (false, disk.remove (tmp_path target) w)

  unfoldable pub copied : Text → Bool × World → Bool × World
  unfolding renamed
  copied target (true, w) = renamed target (disk.rename (tmp_path target) target w)
  copied target (false, w) = (false, disk.remove (tmp_path target) w)

  unfoldable pub created : Text → Body → Bool × World → Bool × World
  unfolding copied
  created target body (true, w) = copied target (disk.copy (tmp_path target) body w)
  created target body (false, w) = (false, w)

  unfoldable pub received : Text → Option (ℕ × Body) × World → Bool × World
  unfolding created
  received target (none, w) = (false, w)
  received target (some (status, body), w) =
      if status == 200 then created target body (disk.create (tmp_path target) w) else (false, w)

  -- One round of the loop.
  unfoldable pub download_one : Text → Text → World → Bool × World
  unfolding received target_path
  download_one dir url w = received (target_path dir url) (disk.get url w)

  unfoldable pub download_all : Text → List Text → ℕ × ℕ → World → (ℕ × ℕ) × World
  unfolding download_one count
  download_all dir [] counts w = (counts, w)
  download_all dir (url ∷ urls) counts w =
      let (stored, w') = download_one dir url w in download_all dir urls (count stored counts) w'

  unfoldable pub download_mmdb : List Text → Text → World → Download × World
  unfolding download_all
  download_mmdb urls dir w =
      if is_empty urls
      then (skipped, w)
      else let (made, w1) = disk.mkdir_all dir w in
        if made
        then (let (counts, w2) = download_all dir urls (0, 0) w1 in
            (completed counts.0 counts.1, w2))
        else (no_directory, w1)
