-- ===== src/Tls/Documented.antt =====
-- What src/lib.rs relies on of rcgen, rustls and Quinn.
use pktauth.Base.{ℕ, ◌^◌, ◌<◌, List, [], ◌∷◌, ◌++◌, some, ◌≡◌, ok}
use pktauth.Tls.{Library, TlsServer, TlsClient}

-- A default provider stays; a configuration holds what it was built from, a conversion for QUIC
-- hands it on, a root store that takes a certificate holds it last, and a QUIC varint holds every
-- number below 2^62.
pub record Documented (lib : Library) : Type 0 where
  pub install_keeps : (p q : ℕ) → lib.install_default p (some q) ≡ some q
  pub with_single_cert :
      (chain : List (List ℕ)) (key : List ℕ) (server : TlsServer)
      → lib.with_single_cert chain key ≡ ok server
      → (server.chain ≡ chain) × (server.key ≡ key)
  pub with_root_certificates :
      (roots : List (List ℕ)) → (lib.with_root_certificates roots).roots ≡ roots
  pub add_root :
      (roots roots' : List (List ℕ)) (cert : List ℕ)
      → lib.add_root roots cert ≡ ok roots'
      → roots' ≡ roots ++ (cert ∷ [])
  pub server_try_from : (s s' : TlsServer) → lib.server_try_from s ≡ ok s' → s' ≡ s
  pub client_try_from : (c c' : TlsClient) → lib.client_try_from c ≡ ok c' → c' ≡ c
  pub with_crypto : (s : TlsServer) → (lib.with_crypto s).crypto ≡ s
  pub new : (c : TlsClient) → (lib.new c).crypto ≡ c
  pub idle_timeout : (ms : ℕ) → ms < 2 ^ 62 → lib.idle_timeout_try_from ms ≡ some ms
