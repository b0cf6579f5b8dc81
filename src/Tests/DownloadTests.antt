-- ===== src/Tests/DownloadTests.antt =====
-- Downloads, certificates and texts at concrete inputs.
use namedor.Common.{
  ℕ, pos, ◌+◌, ◌≡◌, ◌≢◌, refl, Bool, true, false, Option, none, some, List, [], ◌∷◌, ◌++◌, arith,
  if◌then◌else◌, ltb, ◌&&◌,
}
use namedor.Text.{Text, codes, text_eq, has_suffix}
use namedor.Text.Laws.{text_eq_iff}
use namedor.Assoc.{fetch, write, remove}
use namedor.Assoc.Laws.{fetch-write, fetch-remove}
use namedor.Config.{Config, is_tls_enabled}
use namedor.Tests.ConfigTests.{written}
use namedor.Geoip.Download.{Disk, download_mmdb, completed}
use namedor.Geoip.Download.Laws.{IsPosix, Delivered, download_mmdb-Delivered}
use namedor.Geoip.Download.Counts.{Downloads, download_mmdb_counts}
use namedor.Rest.Certificates.{CertReloader, start, encrypted, get_certificate}
use namedor.Rest.Certificates.Laws.{IsLatest, start-IsLatest}
use namedor.Web.Language.{tr}
use namedor.Web.Language.Laws.{verbs, verbs-tr}

abbrev Files : Type 0
Files = List (Text × Text)

abbrev moved : (from to : Text) → Option Text → Files → Bool × Files
moved from to none w = (false, w)
moved from to (some body) w = (true, write to body (remove from w))

abbrev disk : Disk
disk = record {
  World = Files;
  Body = Text;
  mkdir_all = λ dir w. (true, w);
  get = λ url w.
      (if text_eq url (codes "https://x.org/a.mmdb") then some (200, codes "data") else none, w);
  create = λ p w. (true, write p [] w);
  copy = λ p body w. (true, write p body w);
  rename = λ from to w. moved from to (fetch from w) w;
  remove = λ p w. remove p w;
  join = λ dir name. dir ++ codes "/" ++ name;
}

fetch-moved :
    (from to p : Text) (o : Option Text) (w : Files)
    → from ≢ p
    → fetch p (moved from to o w).1
      ≡ (if (moved from to o w).0 && text_eq to p then o else fetch p w)
fetch-moved from to p none w other = refl
fetch-moved from to p (some body) w other =
    ground (arith, fetch-write to p body (remove from w), fetch-remove from p w, text_eq_iff from p)

disk-IsPosix : IsPosix disk
disk-IsPosix = record {
  contents = λ p w. fetch p w;
  mkdir_all = λ dir p w. refl;
  get = λ url p w. refl;
  create = λ q p w other. ground (arith, fetch-write q p [] w, text_eq_iff q p);
  copy = λ q p body w other. ground (arith, fetch-write q p body w, text_eq_iff q p);
  copied = λ q body w done. ground (arith, fetch-write q q body w, text_eq_iff q q);
  remove = λ q p w other. ground (arith, fetch-remove q p w, text_eq_iff q p);
  rename = λ from to p w other. fetch-moved from to p (fetch from w) w other;
}

abbrev urls : List Text
urls = codes "https://x.org/a.mmdb" ∷ codes "https://x.org/b" ∷ []

download_mmdb-Delivered_example :
    Delivered disk disk-IsPosix
      (codes "geo")
      (codes "geo/a.mmdb")
      urls
      []
      (download_mmdb disk urls (codes "geo") []).1
download_mmdb-Delivered_example =
    download_mmdb-Delivered disk disk-IsPosix urls (codes "geo") (codes "geo/a.mmdb") []
      (unfold has_suffix text_eq in refl)

download_mmdb_counts_example :
    (stored : ℕ) × (failed : ℕ) × ((download_mmdb disk urls (codes "geo") []).0
      ≡ completed stored failed)
    × (stored + failed ≡ 2)
    × Downloads disk disk-IsPosix
        (codes "geo")
        urls
        []
        stored
        failed
        (download_mmdb disk urls (codes "geo") []).1
download_mmdb_counts_example =
    download_mmdb_counts disk disk-IsPosix urls (codes "geo") [] refl refl

-- The files hold a certificate named by the time, but for a while from 20 on none.
abbrev read_pair : Text → Text → ℕ → Option ℕ
read_pair cert_file key_file time = if ltb time 20 then some time else none

abbrev encrypting : Config
encrypting = record written {
  tls_cert_file = codes "cert.pem";
  tls_key_file = codes "key.pem";
  tls_reload_sec = pos 10;
}

start-IsLatest_example :
    (cr : CertReloader read_pair) × (shown : ℕ) × (start read_pair encrypting 5 (15 ∷ 25 ∷ [])
      ≡ encrypted cr)
    × (get_certificate read_pair cr ≡ some shown)
    × IsLatest read_pair (codes "cert.pem") (codes "key.pem") (5 ∷ 15 ∷ 25 ∷ []) shown
start-IsLatest_example =
    start-IsLatest read_pair encrypting 5 5 (15 ∷ 25 ∷ []) (unfold is_tls_enabled in refl) refl refl

verbs-tr_example :
    verbs (tr (codes "ru") (codes "This will create %d records:"))
    ≡ verbs (codes "This will create %d records:")
verbs-tr_example = verbs-tr (codes "ru") (codes "This will create %d records:")
