-- ===== src/Tls/StandIn.antt =====
-- A library that accepts everything but an empty certificate, which behaves as documented.
use pktauth.Base.{
  ℕ, ◌^◌, ◌<◌, List, [], ◌∷◌, ◌++◌, Option, none, some, true, false, ◌≡◌, refl, sym, ap, arith,
}
use pktauth.Base.{Result, ok, err, ltb, if◌then◌else◌}
use pktauth.Tls.{Library, Process, TlsServer}
use pktauth.Tls.Documented.{Documented}

abbrev install : ℕ → Option ℕ → Option ℕ
install ring none = some ring
install ring (some provider) = some provider

abbrev add : List (List ℕ) → List ℕ → Result (List (List ℕ)) ℕ
add roots [] = err 5
add roots (b ∷ bs) = ok (roots ++ ((b ∷ bs) ∷ []))

abbrev in_varint : ℕ → Option ℕ
in_varint ms = if ltb ms (2 ^ 62) then some ms else none

abbrev pub accepting : Library
accepting = record {
  ring = 1;
  install_default = install;
  generate_simple_self_signed = λ names. ok (record { cert = 48 ∷ 130 ∷ []; signing_key = 7 ∷ [] });
  with_single_cert = λ chain key. ok (record { chain = chain; key = key; alpn_protocols = [] });
  with_root_certificates = λ roots. record { roots = roots; alpn_protocols = [] };
  add_root = add;
  server_try_from = ok;
  client_try_from = ok;
  with_crypto = λ crypto. record {
    crypto = crypto;
    transport = record { max_idle_timeout = none; keep_alive_interval = none };
    migration = true;
  };
  new = λ crypto. record {
    crypto = crypto;
    transport = record { max_idle_timeout = none; keep_alive_interval = none };
  };
  default_transport = record { max_idle_timeout = none; keep_alive_interval = none };
  idle_timeout_try_from = in_varint;
}

add-snoc :
    (roots roots' : List (List ℕ)) (cert : List ℕ)
    → add roots cert ≡ ok roots'
    → roots' ≡ roots ++ (cert ∷ [])
add-snoc roots roots' [] e = cc
add-snoc roots roots' (b ∷ bs) e = cc

in_varint-fits : (ms : ℕ) → ms < 2 ^ 62 → in_varint ms ≡ some ms
in_varint-fits ms h = ground arith

built :
    (chain : List (List ℕ)) (key : List ℕ) (server : TlsServer)
    → accepting.with_single_cert chain key ≡ ok server
    → (server.chain ≡ chain) × (server.key ≡ key)
built chain key server e =
    let same : record { chain = chain; key = key; alpn_protocols = [] } ≡ server = cc in
    (ap (λ s. s.chain) (sym same), ap (λ s. s.key) (sym same))

pub accepting-Documented : Documented accepting
accepting-Documented = record {
  install_keeps = λ p q. refl;
  with_single_cert = built;
  with_root_certificates = λ roots. refl;
  add_root = add-snoc;
  server_try_from = λ s s' e. cc;
  client_try_from = λ c c' e. cc;
  with_crypto = λ s. refl;
  new = λ c. refl;
  idle_timeout = in_varint-fits;
}

abbrev pub fresh : Process
fresh = record { install = false; provider = none }

abbrev pub localhost : List ℕ
localhost = 108 ∷ 111 ∷ 99 ∷ 97 ∷ 108 ∷ 104 ∷ 111 ∷ 115 ∷ 116 ∷ []
