-- ===== src/Tls/Serve.antt =====
-- What a server's credentials hold.
use pktauth.Base.{ℕ, List, [], ◌∷◌, false, ◌≡◌, inl, inr, refl, ap, ◌∙◌}
use pktauth.Base.{Run, done, Result, ok, err, Result-cases}
use pktauth.Tls.{Library, Process, CertifiedKey, ServerCredentials, TlsServer}
use pktauth.Tls.{ConfigError, rcgen, tls, no_initial_cipher_suite, alpn}
use pktauth.Tls.{server_with, self_signed_server_config}
use pktauth.Tls.Documented.{Documented}
use pktauth.Tls.Trust.{timed, Installs, install-Installs, transport_config-timed}

-- Credentials that prove a fresh certificate, to clients that trust it.
pub record Serves (certified : CertifiedKey) (creds : ServerCredentials) : Type 0 where
  pub published : creds.cert_der ≡ certified.cert
  pub chain : creds.config.crypto.chain ≡ creds.cert_der ∷ []
  pub key : creds.config.crypto.key ≡ certified.signing_key
  pub protocol : creds.config.crypto.alpn_protocols ≡ alpn ∷ []
  pub transport : creds.config.transport ≡ timed
  pub no_migration : creds.config.migration ≡ false

pub data ServerOutcome (lib : Library) (names : List (List ℕ))
    (answer : Run (Result ServerCredentials ConfigError)) : Type 0 where
  not_generated :
      (e : ℕ)
      → lib.generate_simple_self_signed names ≡ err e
      → answer ≡ done (err (rcgen e))
      → ServerOutcome lib names answer
  not_certified :
      (certified : CertifiedKey) (e : ℕ)
      → lib.generate_simple_self_signed names ≡ ok certified
      → lib.with_single_cert (certified.cert ∷ []) certified.signing_key ≡ err e
      → answer ≡ done (err (tls e))
      → ServerOutcome lib names answer
  unsuited :
      (crypto : TlsServer) (e : ℕ)
      → lib.server_try_from crypto ≡ err e
      → answer ≡ done (err (no_initial_cipher_suite e))
      → ServerOutcome lib names answer
  serving :
      (certified : CertifiedKey) (creds : ServerCredentials)
      → lib.generate_simple_self_signed names ≡ ok certified
      → answer ≡ done (ok creds)
      → Serves certified creds
      → ServerOutcome lib names answer

module _ (lib : Library) (documented : Documented lib) where
  serves-Outcome :
      (names : List (List ℕ)) (certified : CertifiedKey)
      → lib.generate_simple_self_signed names ≡ ok certified
      → ServerOutcome lib names (server_with lib certified)
  unfolding server_with
  serves-Outcome names certified made =
      elim (Result-cases (lib.with_single_cert (certified.cert ∷ []) certified.signing_key)) [
        | inr (e, bad) ↦ not_certified certified e made bad (rw (server_with, bad) refl)
        | inl (server, good) ↦
            let crypto : TlsServer = record server { alpn_protocols = alpn ∷ [] } in
            let (chain, key) =
              documented.with_single_cert (certified.cert ∷ []) certified.signing_key server good in
            elim (Result-cases (lib.server_try_from crypto)) [
              | inr (e, unfit) ↦ unsuited crypto e unfit (rw (server_with, good, unfit) refl)
              | inl (crypto', fit) ↦
                  let holds : (lib.with_crypto crypto').crypto ≡ crypto =
                    documented.with_crypto crypto'
                    ∙ documented.server_try_from crypto crypto' fit in
                  serving certified
                    (record {
                      config = record (lib.with_crypto crypto') {
                        transport = timed;
                        migration = false;
                      };
                      cert_der = certified.cert;
                    })
                    made (rw (server_with, good, fit, transport_config-timed lib documented) refl)
                    (record {
                      published = refl;
                      chain = ap (λ c. c.chain) holds ∙ chain;
                      key = ap (λ c. c.key) holds ∙ key;
                      protocol = ap (λ c. c.alpn_protocols) holds;
                      transport = refl;
                      no_migration = refl;
                    })
            ]
      ]

  -- The libraries behave as documented. A server's credentials publish the certificate just
  -- generated, which is alone in the chain that the server proves with its key; the configuration
  -- offers the one protocol, has the client's timers and refuses migration. Or the answer is the
  -- error of the step that failed. It never panics, and a crypto provider that the process had
  -- stays.
  pub self_signed_server_config-Outcome :
      (names : List (List ℕ)) (process : Process)
      → ServerOutcome lib names (self_signed_server_config lib names process).0
        × Installs lib process (self_signed_server_config lib names process).1
  unfolding self_signed_server_config
  self_signed_server_config-Outcome names process = (
    elim (Result-cases (lib.generate_simple_self_signed names)) [
      | inl (certified, made) ↦
          rw (self_signed_server_config, made) (serves-Outcome names certified made)
      | inr (e, bad) ↦ not_generated e bad (rw (self_signed_server_config, bad) refl)
    ],
    install-Installs lib documented process,
  )
