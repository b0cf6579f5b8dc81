-- ===== src/Rest/Certificates/Laws.antt =====
-- Which certificate the server shows.
use namedor.Common.{
  ℕ, ◌≡◌, refl, true, Option, none, some, List, [], ◌∷◌, ◌++◌, All, is_positive, Option-cases, inl,
  inr, ◌⊎◌, ap,
}
use namedor.Text.{Text}
use namedor.Config.{Config, is_tls_enabled}
use namedor.Rest.Certificates.{
  CertReloader, reload, new_cert_reloader, get_certificate, start_reloading, start, encrypted,
}

module _ {Cert : Type 0} (load_pair : (cert_file key_file : Text) → (time : ℕ) → Option Cert) where
  -- The certificate was read at one of the times, and at no later one could the files be read.
  pub record IsLatest (cert_file key_file : Text) (times : List ℕ) (cert : Cert) : Type 0 where
    pub earlier : List ℕ
    pub time : ℕ
    pub later : List ℕ
    pub among : times ≡ earlier ++ time ∷ later
    pub loaded : load_pair cert_file key_file time ≡ some cert
    pub no_later : All (λ t. load_pair cert_file key_file t ≡ none) later

  abbrev reader_of : Text → Text → Cert → CertReloader load_pair
  reader_of cert_file key_file cert = record {
    cert_file = cert_file;
    key_file = key_file;
    cert = some cert;
  }

  IsLatest-earlier :
      (cert_file key_file : Text) (t : ℕ) (times : List ℕ) (cert : Cert)
      → IsLatest cert_file key_file times cert
      → IsLatest cert_file key_file (t ∷ times) cert
  IsLatest-earlier cert_file key_file t times cert l = record {
    earlier = t ∷ l.earlier;
    time = l.time;
    later = l.later;
    among = ap (◌∷◌ t) l.among;
    loaded = l.loaded;
    no_later = l.no_later;
  }

  -- After the ticks, the reloader has what it had, with no load since, or the latest of the ticks.
  start_reloading-IsLatest :
      (cert_file key_file : Text) (cert : Cert) (ticks : List ℕ)
      → (shown : Cert) × (start_reloading load_pair ticks (reader_of cert_file key_file cert)
          ≡ reader_of cert_file key_file shown)
        × ((All (λ t. load_pair cert_file key_file t ≡ none) ticks × (shown ≡ cert))
            ⊎ IsLatest cert_file key_file ticks shown)
  unfolding start_reloading reload
  start_reloading-IsLatest cert_file key_file cert [] = (cert, refl, inl (tt, refl))
  start_reloading-IsLatest cert_file key_file cert (t ∷ ticks) =
      elim (Option-cases (load_pair cert_file key_file t)) [
        | inl e ↦
            let (shown, at, which) = start_reloading-IsLatest cert_file key_file cert ticks in
            (
              shown,
              rw (e) at,
              elim which [
                | inl (idle, same) ↦ inl ((e, idle), same)
                | inr latest ↦ inr (IsLatest-earlier cert_file key_file t ticks shown latest)
              ],
            )
        | inr (read, e) ↦
            let (shown, at, which) = start_reloading-IsLatest cert_file key_file read ticks in
            (
              shown,
              rw (e) at,
              inr (elim which [
                | inl (idle, same) ↦ record {
                  earlier = [];
                  time = t;
                  later = ticks;
                  among = refl;
                  loaded = rw (same) e;
                  no_later = idle;
                }
                | inr latest ↦ IsLatest-earlier cert_file key_file t ticks shown latest
              ]),
            )
      ]

  -- Where the two files are configured and can be read as the server starts, it serves with a
  -- certificate at every time after that, whichever of the reloads fail: with the one that was read
  -- at the latest of the times, that of the start included, at which the files could be read.
  pub start-IsLatest :
      (cfg : Config) (cert : Cert) (time : ℕ) (ticks : List ℕ)
      → is_tls_enabled cfg ≡ true
      → is_positive cfg.tls_reload_sec ≡ true
      → load_pair cfg.tls_cert_file cfg.tls_key_file time ≡ some cert
      → (cr : CertReloader load_pair) × (shown : Cert) × (start load_pair cfg time ticks
          ≡ encrypted cr)
        × (get_certificate load_pair cr ≡ some shown)
        × IsLatest cfg.tls_cert_file cfg.tls_key_file (time ∷ ticks) shown
  unfolding start new_cert_reloader reload get_certificate
  start-IsLatest cfg cert time ticks enabled often e =
      let (shown, at, which) =
        start_reloading-IsLatest cfg.tls_cert_file cfg.tls_key_file cert ticks in
      (
        reader_of cfg.tls_cert_file cfg.tls_key_file shown,
        shown,
        rw (enabled, e, often, at) refl,
        refl,
        elim which [
          | inl (idle, same) ↦ record {
            earlier = [];
            time = time;
            later = ticks;
            among = refl;
            loaded = rw (same) e;
            no_later = idle;
          }
          | inr latest ↦ IsLatest-earlier cfg.tls_cert_file cfg.tls_key_file time ticks shown latest
        ],
      )
