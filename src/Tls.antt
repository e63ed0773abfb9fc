-- ===== src/Tls.antt =====
-- src/lib.rs: `install_crypto_provider`, `transport_config`, `self_signed_server_config` and
-- `client_config`. rcgen, rustls and Quinn are an argument, `Library`; of their types there are the
-- fields that the code sets or passes. Certificates, keys and names are byte lists, durations are
-- milliseconds, and the errors and the crypto providers of third-party crates are numbers. The configurations' builders read
-- the installed provider, which is ring's or another one that was there first; what they do with it is
-- not told apart.
pub mod Documented
pub mod Trust
pub mod Serve
pub mod StandIn
mod Tests
use pktauth.Base.{ℕ, ◌*◌, List, [], ◌∷◌, Bool, true, false, Option, none, some}
use pktauth.Base.{Run, done, panic, ◌>>=◌, expect, Result, ok, err, if◌then◌else◌}

-- `b"pktauth-ping/1"`.
abbrev pub alpn : List ℕ
alpn = 112 ∷ 107 ∷ 116 ∷ 97 ∷ 117 ∷ 116 ∷ 104 ∷ 45 ∷ 112 ∷ 105 ∷ 110 ∷ 103 ∷ 47 ∷ 49 ∷ []

abbrev pub idle_timeout : ℕ
idle_timeout = 30 * 1000

abbrev pub keep_alive_interval : ℕ
keep_alive_interval = 5 * 1000

-- The cases of `Error` that a configuration meets.
pub data ConfigError : Type 0 where
  rcgen tls no_initial_cipher_suite : ℕ → ConfigError

pub record TransportConfig : Type 0 where
  pub max_idle_timeout : Option ℕ
  pub keep_alive_interval : Option ℕ

-- `rcgen::CertifiedKey`, its key serialized.
pub record CertifiedKey : Type 0 where
  pub cert : List ℕ
  pub signing_key : List ℕ

-- `rustls::ServerConfig`.
pub record TlsServer : Type 0 where
  pub chain : List (List ℕ)
  pub key : List ℕ
  pub alpn_protocols : List (List ℕ)

-- `rustls::ClientConfig`.
pub record TlsClient : Type 0 where
  pub roots : List (List ℕ)
  pub alpn_protocols : List (List ℕ)

-- `quinn::ServerConfig` and `quinn::ClientConfig`, of what rustls takes part with.
pub record ServerConfig : Type 0 where
  pub crypto : TlsServer
  pub transport : TransportConfig
  pub migration : Bool

pub record ClientConfig : Type 0 where
  pub crypto : TlsClient
  pub transport : TransportConfig

pub record ServerCredentials : Type 0 where
  pub config : ServerConfig
  pub cert_der : List ℕ

-- The process: whether `INSTALL` has run, and the default crypto provider.
pub record Process : Type 0 where
  pub install : Bool
  pub provider : Option ℕ

-- What the code calls of rcgen, rustls and Quinn.
pub record Library : Type 0 where
  pub ring : ℕ
  pub install_default : ℕ → Option ℕ → Option ℕ
  pub generate_simple_self_signed : List (List ℕ) → Result CertifiedKey ℕ
  pub with_single_cert : List (List ℕ) → List ℕ → Result TlsServer ℕ
  pub with_root_certificates : List (List ℕ) → TlsClient
  pub add_root : List (List ℕ) → List ℕ → Result (List (List ℕ)) ℕ
  pub server_try_from : TlsServer → Result TlsServer ℕ
  pub client_try_from : TlsClient → Result TlsClient ℕ
  pub with_crypto : TlsServer → ServerConfig
  pub new : TlsClient → ClientConfig
  pub default_transport : TransportConfig
  pub idle_timeout_try_from : ℕ → Option ℕ

module _ (lib : Library) where
  -- `INSTALL.call_once`.
  unfoldable pub install_crypto_provider : Process → Process
  install_crypto_provider process =
      if process.install
      then process
      else record { install = true; provider = lib.install_default lib.ring process.provider }

  unfoldable pub transport_config : Run TransportConfig
  transport_config = do
    timeout ← expect (lib.idle_timeout_try_from idle_timeout)
    done (record lib.default_transport {
      max_idle_timeout = some timeout;
      keep_alive_interval = some keep_alive_interval;
    })

  -- From the certificate on.
  unfoldable pub server_with : CertifiedKey → Run (Result ServerCredentials ConfigError)
  server_with certified = elim (lib.with_single_cert (certified.cert ∷ []) certified.signing_key) [
    | err e ↦ done (err (tls e))
    | ok crypto ↦ elim (lib.server_try_from (record crypto { alpn_protocols = alpn ∷ [] })) [
      | err e ↦ done (err (no_initial_cipher_suite e))
      | ok crypto ↦ transport_config >>= λ transport. done (
          ok (record {
            config = record (lib.with_crypto crypto) { transport = transport; migration = false };
            cert_der = certified.cert;
          }))
    ]
  ]

  unfoldable pub self_signed_server_config :
      List (List ℕ) → Process → Run (Result ServerCredentials ConfigError) × Process
  self_signed_server_config subject_alt_names process = (
    elim (lib.generate_simple_self_signed subject_alt_names) [
      | err e ↦ done (err (rcgen e))
      | ok certified ↦ server_with certified
    ],
    install_crypto_provider process,
  )

  unfoldable pub add_roots : List (List ℕ) → List (List ℕ) → Result (List (List ℕ)) ℕ
  add_roots roots [] = ok roots
  add_roots roots (cert ∷ certs) = elim (lib.add_root roots cert) [
    | err e ↦ err e
    | ok roots' ↦ add_roots roots' certs
  ]

  unfoldable pub client_with : List (List ℕ) → Run (Result ClientConfig ConfigError)
  client_with roots =
      let crypto = record (lib.with_root_certificates roots) { alpn_protocols = alpn ∷ [] } in
      elim (lib.client_try_from crypto) [
        | err e ↦ done (err (no_initial_cipher_suite e))
        | ok crypto ↦ transport_config >>= λ transport.
            done (ok (record (lib.new crypto) { transport = transport }))
      ]

  unfoldable pub client_config :
      List (List ℕ) → Process → Run (Result ClientConfig ConfigError) × Process
  client_config trusted_certs process = (
    elim (add_roots [] trusted_certs) [ err e ↦ done (err (tls e)) | ok roots ↦ client_with roots ],
    install_crypto_provider process,
  )
