-- ===== src/Rest/Certificates.antt =====
-- internal/server/rest/tls.go, and how Start of server.go in that package uses it. What is in the
-- files of the certificate and its key at a time is the parameter `load_pair`, tls.LoadX509KeyPair;
-- the ticker is the list of the times at which it ticks before the server stops.
pub mod Laws
use namedor.Common.{
  ℕ, ℤ, Bool, true, false, Option, none, some, List, [], ◌∷◌, is_positive, if◌then◌else◌,
}
use namedor.Text.{Text}
use namedor.Config.{Config, is_tls_enabled}

module _ {Cert : Type 0} (load_pair : (cert_file key_file : Text) → (time : ℕ) → Option Cert) where
  pub record CertReloader : Type 0 where
    pub cert_file : Text
    pub key_file : Text
    pub cert : Option Cert

  abbrev with_cert : CertReloader → Option Cert → Bool × CertReloader
  with_cert cr none = (false, cr)
  with_cert cr (some cert) = (true, record cr { cert = some cert })

  -- Whether the pair was loaded, and the reloader after it.
  unfoldable pub reload : ℕ → CertReloader → Bool × CertReloader
  reload time cr = with_cert cr (load_pair cr.cert_file cr.key_file time)

  abbrev if_loaded : Bool × CertReloader → Option CertReloader
  if_loaded (true, cr) = some cr
  if_loaded (false, cr) = none

  unfoldable pub new_cert_reloader : (cert_file key_file : Text) → ℕ → Option CertReloader
  unfolding reload
  new_cert_reloader cert_file key_file time =
      if_loaded (reload time (record { cert_file = cert_file; key_file = key_file; cert = none }))

  unfoldable pub get_certificate : CertReloader → Option Cert
  get_certificate cr = cr.cert

  -- A reload that fails is logged, and the loop goes on.
  unfoldable pub start_reloading : List ℕ → CertReloader → CertReloader
  unfolding reload
  start_reloading [] cr = cr
  start_reloading (time ∷ ticks) cr = start_reloading ticks (reload time cr).1

  -- How Start serves: not at all, plainly, or with certificates.
  pub data Serving : Type 0 where
    no_certificate : Serving
    plain : Serving
    encrypted : CertReloader → Serving

  abbrev encrypted_after : Config → List ℕ → Option CertReloader → Serving
  encrypted_after cfg ticks none = no_certificate
  encrypted_after cfg ticks (some cr) =
      encrypted (if is_positive cfg.tls_reload_sec then start_reloading ticks cr else cr)

  -- Start, and the ticks after it.
  unfoldable pub start : Config → ℕ → List ℕ → Serving
  unfolding new_cert_reloader start_reloading
  start cfg time ticks =
      if is_tls_enabled cfg
      then encrypted_after cfg ticks (new_cert_reloader cfg.tls_cert_file cfg.tls_key_file time)
      else plain
