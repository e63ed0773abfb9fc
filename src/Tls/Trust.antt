-- ===== src/Tls/Trust.antt =====
-- What a client's configuration trusts.
use pktauth.Base.{
  ℕ, List, [], ◌∷◌, ◌++◌, none, some, true, ◌≡◌, ◌⊎◌, inl, inr, refl, sym, ap, ◌∙◌, subst, arith,
}
use pktauth.Base.{
  Run, done, Result, ok, err, Result-cases, append_assoc, append-nil, Bool-cases, Option-cases,
}
use pktauth.Tls.{Library, Process, TransportConfig, ClientConfig, TlsClient}
use pktauth.Tls.{ConfigError, tls, no_initial_cipher_suite, alpn, idle_timeout, keep_alive_interval}
use pktauth.Tls.{install_crypto_provider, transport_config, add_roots, client_with, client_config}
use pktauth.Tls.Documented.{Documented}

-- The timers of both ends.
abbrev pub timed : TransportConfig
timed = record {
  max_idle_timeout = some idle_timeout;
  keep_alive_interval = some keep_alive_interval;
}

-- How the provider of the process changes.
pub data Installs (lib : Library) (before after : Process) : Type 0 where
  ran : before.install ≡ true → after ≡ before → Installs lib before after
  kept :
      (provider : ℕ)
      → before.provider ≡ some provider
      → after ≡ record { install = true; provider = some provider }
      → Installs lib before after
  installed :
      before.provider ≡ none
      → after ≡ record { install = true; provider = lib.install_default lib.ring none }
      → Installs lib before after

-- A client that trusts `certs` and no other certificate.
pub record Trusts (certs : List (List ℕ)) (config : ClientConfig) : Type 0 where
  pub roots : config.crypto.roots ≡ certs
  pub protocol : config.crypto.alpn_protocols ≡ alpn ∷ []
  pub transport : config.transport ≡ timed

-- The store refused a certificate after it had taken those before it.
pub record Refused (lib : Library) (certs : List (List ℕ)) (e : ℕ) : Type 0 where
  pub front : List (List ℕ)
  pub cert : List ℕ
  pub back : List (List ℕ)
  pub split : certs ≡ front ++ (cert ∷ back)
  pub refusal : lib.add_root front cert ≡ err e

pub data ClientOutcome (lib : Library) (certs : List (List ℕ))
    (answer : Run (Result ClientConfig ConfigError)) : Type 0 where
  trusting :
      (config : ClientConfig)
      → answer ≡ done (ok config)
      → Trusts certs config
      → ClientOutcome lib certs answer
  refused :
      (e : ℕ) → Refused lib certs e → answer ≡ done (err (tls e)) → ClientOutcome lib certs answer
  no_suite :
      (crypto : TlsClient) (e : ℕ)
      → lib.client_try_from crypto ≡ err e
      → crypto.roots ≡ certs
      → answer ≡ done (err (no_initial_cipher_suite e))
      → ClientOutcome lib certs answer

module _ (lib : Library) (documented : Documented lib) where
  pub install-Installs :
      (process : Process) → Installs lib process (install_crypto_provider lib process)
  unfolding install_crypto_provider
  install-Installs process = elim (Bool-cases process.install) [
    | inl set ↦ ran set (rw set refl)
    | inr unset ↦ elim (Option-cases process.provider) [
      | inl none_yet ↦ installed none_yet (rw (unset, none_yet) refl)
      | inr (provider, had) ↦ kept provider had (
          rw (unset, had)
            (ap (λ p. record { install = true; provider = p })
              (documented.install_keeps lib.ring provider)))
    ]
  ]

  pub transport_config-timed : transport_config lib ≡ done timed
  unfolding transport_config
  transport_config-timed = rw (documented.idle_timeout idle_timeout (omega arith)) refl

  add_roots-cases :
      (taken certs : List (List ℕ))
      → (add_roots lib taken certs ≡ ok (taken ++ certs))
        ⊎ ((e : ℕ) × (add_roots lib taken certs ≡ err e) × Refused lib (taken ++ certs) e)
  unfolding add_roots
  add_roots-cases taken [] = inl (ap ok (sym (append-nil taken)))
  add_roots-cases taken (cert ∷ certs) = elim (Result-cases (lib.add_root taken cert)) [
    | inr (e, refusal) ↦ inr (
      e,
      rw (add_roots, refusal) refl,
      record { front = taken; cert = cert; back = certs; split = refl; refusal = refusal },
    )
    | inl (taken', took) ↦
        let grown : taken' ≡ taken ++ (cert ∷ []) = documented.add_root taken taken' cert took in
        let all : taken' ++ certs ≡ taken ++ (cert ∷ certs) =
          ap (λ t. t ++ certs) grown ∙ append_assoc taken (cert ∷ []) certs in
        elim (add_roots-cases taken' certs) [
          | inl e ↦ inl (rw (add_roots, took) (e ∙ ap ok all))
          | inr (e, answer, r) ↦
              inr (e, rw (add_roots, took) answer, subst (λ cs. Refused lib cs e) all r)
        ]
  ]

  client_with-Outcome : (certs : List (List ℕ)) → ClientOutcome lib certs (client_with lib certs)
  unfolding client_with
  client_with-Outcome certs =
      let crypto = record (lib.with_root_certificates certs) { alpn_protocols = alpn ∷ [] } in
      elim (Result-cases (lib.client_try_from crypto)) [
        | inr (e, unfit) ↦
            no_suite crypto e unfit (documented.with_root_certificates certs)
              (rw (client_with, unfit) refl)
        | inl (crypto', fit) ↦
            let holds : (lib.new crypto').crypto ≡ crypto =
              documented.new crypto' ∙ documented.client_try_from crypto crypto' fit in
            trusting (record (lib.new crypto') { transport = timed })
              (rw (client_with, fit, transport_config-timed) refl)
              (record {
                roots = ap (λ c. c.roots) holds ∙ documented.with_root_certificates certs;
                protocol = ap (λ c. c.alpn_protocols) holds;
                transport = refl;
              })
      ]

  -- The libraries behave as documented. A client's configuration trusts exactly the certificates
  -- given, in order, offers the one protocol and has the timers; or its error is that of the first
  -- certificate that the root store refuses, or of a missing cipher suite. It never panics, and a
  -- crypto provider that the process had stays.
  pub client_config-Outcome :
      (certs : List (List ℕ)) (process : Process)
      → ClientOutcome lib certs (client_config lib certs process).0
        × Installs lib process (client_config lib certs process).1
  unfolding client_config
  client_config-Outcome certs process = (
    elim (add_roots-cases [] certs) [
      | inl all ↦ rw (client_config, all) (client_with-Outcome certs)
      | inr (e, answer, r) ↦ refused e r (rw (client_config, answer) refl)
    ],
    install-Installs process,
  )
