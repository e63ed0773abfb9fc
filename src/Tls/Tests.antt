-- ===== src/Tls/Tests.antt =====
-- The configurations over libraries that accept everything but an empty certificate.
use pktauth.Base.{[], ◌∷◌, ◌≡◌, refl}
use pktauth.Base.{done, err}
use pktauth.Tls.{self_signed_server_config, client_config, tls, add_roots}
use pktauth.Tls.StandIn.{accepting, accepting-Documented, fresh, localhost}
use pktauth.Tls.Trust.{ClientOutcome, Installs, client_config-Outcome}
use pktauth.Tls.Serve.{ServerOutcome, self_signed_server_config-Outcome}

-- The second certificate is refused.
refuses_empty :
    (client_config accepting ((48 ∷ []) ∷ [] ∷ (49 ∷ []) ∷ []) fresh).0 ≡ done (err (tls 5))
unfolding client_config add_roots
refuses_empty = refl

self_signed_server_config-Outcome_example :
    ServerOutcome accepting
      (localhost ∷ [])
      (self_signed_server_config accepting (localhost ∷ []) fresh).0
    × Installs accepting fresh (self_signed_server_config accepting (localhost ∷ []) fresh).1
self_signed_server_config-Outcome_example =
    self_signed_server_config-Outcome accepting accepting-Documented (localhost ∷ []) fresh

client_config-Outcome_example :
    ClientOutcome accepting
      ((48 ∷ 130 ∷ []) ∷ [])
      (client_config accepting ((48 ∷ 130 ∷ []) ∷ []) fresh).0
    × Installs accepting fresh (client_config accepting ((48 ∷ 130 ∷ []) ∷ []) fresh).1
client_config-Outcome_example =
    client_config-Outcome accepting accepting-Documented ((48 ∷ 130 ∷ []) ∷ []) fresh
