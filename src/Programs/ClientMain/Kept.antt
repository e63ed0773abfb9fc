-- ===== src/Programs/ClientMain/Kept.antt =====
-- The client's `main` keeps to its phases.
use pktauth.Base.{
  ℕ, suc, ◌^◌, ◌<◌, List, [], ◌∷◌, false, Option, some, ◌≡◌, refl, ◌∙◌, inl, inr, Bool-cases, ltb,
}
use pktauth.Base.{Run, Result, ok, err}
use pktauth.Base.Actions.{act, ◌>>=◌, ◌>>◌, try_with, run}
use pktauth.Net.{IpAddr, v4, v6, SocketAddr}
use pktauth.Auth.Direction.{Peers, server_to_client}
use pktauth.Auth.Authenticator
use pktauth.Auth.Authenticator.{Authenticator}
use pktauth.Socket.Counters.{ErrorKind, bound}
use pktauth.Ping.Streams.{ConnectionError, max_ping_bytes}
use pktauth.Tls.{
  Library, Process, ConfigError, tls, no_initial_cipher_suite, ClientConfig, client_config,
}
use pktauth.Tls.Documented.{Documented}
use pktauth.Tls.Trust.{Trusts, ClientOutcome, trusting, refused, no_suite, client_config-Outcome}
use pktauth.Programs.Setup.{ClientArgs, not_ipv4, too_large, client_endpoint, client_setup}
use pktauth.Programs.Pinging.{started, ping_loop}
use pktauth.Programs.Summary.Pinged.{IsBrief, started-Summarises}
use pktauth.Programs.ClientMain.{
  ClientWorld, config, io, connecting, connection, took_socket, mounted, connected, pinged,
}
use pktauth.Programs.ClientMain.{Doing, only_v4, close_and_print, connect_and_ping, client_main}
use pktauth.Programs.ClientMain.Phases.{
  Phase, begun, holding, reaching, online, take, mount, connect, ping, close, wait, print, no_setup,
  no_file, no_socket, no_configuration, no_endpoint, no_connect, no_handshake, Runs, finished,
  stopped, doing,
}

-- A count that the loop ends at, and pings that take less than 2 ^ 32 seconds.
pub record IsFinite (world : ClientWorld) (args : ClientArgs) : Type 0 where
  pub some_ping : 0 < args.count
  pub few : args.count < 2 ^ 32
  pub brief : (seq : ℕ) (payload : List ℕ) → IsBrief (world.ping seq payload)

module _ (lib : Library) (process : Process) (world : ClientWorld) (args : ClientArgs)
    (finite : IsFinite world args) where
  abbrev RunsFrom : Phase → Doing (Unit {0}) → Type 0
  RunsFrom phase m = Runs lib process world args phase m.log m.exit

  ping_and_close : Doing (Unit {0})
  ping_and_close =
      run (ping_loop world.ping args.count args.size (suc args.count) started) >>= λ ended.
      act (pinged ended) >> close_and_print world ended

  ping_and_close-Runs : RunsFrom online ping_and_close
  unfolding ping_and_close
  ping_and_close-Runs =
      let (s, summary, ended, printed_as, is) =
        started-Summarises world.ping args.count args.size world.counts finite.some_ping finite.few
          finite.brief in
      rw (ended, printed_as)
        (doing (ping s ended)
          (doing (close s) (doing (wait s) (doing (print s summary is) finished))))

  shake : Result SocketAddr ConnectionError → Doing (Unit {0})
  shake r = try_with connection r >>= λ remote. act (connected remote) >> ping_and_close

  shake-Runs :
      (r : Result SocketAddr ConnectionError)
      → world.connect args.server args.server_name ≡ ok tt
      → world.handshake ≡ r
      → RunsFrom reaching (shake r)
  unfolding shake
  shake-Runs (ok remote) c e = doing (connect remote c e) ping_and_close-Runs
  shake-Runs (err failure) c e = stopped (no_handshake failure e)

  dial : Result (Unit {0}) ℕ → Doing (Unit {0})
  dial r = try_with connecting r >> shake world.handshake

  dial-Runs :
      (r : Result (Unit {0}) ℕ)
      → world.connect args.server args.server_name ≡ r
      → RunsFrom reaching (dial r)
  unfolding dial
  dial-Runs (ok _) e = shake-Runs world.handshake e refl
  dial-Runs (err failure) e = stopped (no_connect failure e)

  connect_and_ping-Runs : RunsFrom reaching (connect_and_ping world args (suc args.count))
  unfolding connect_and_ping dial shake ping_and_close
  connect_and_ping-Runs = dial-Runs (world.connect args.server args.server_name) refl

  abbrev local : SocketAddr
  local = record { ip = v4 args.local_ip; port = 0 }

  abbrev authenticator : Option Authenticator
  authenticator = some (Authenticator.new server_to_client args.local_ip)

  mount_and_go : Peers → ClientConfig → Result (Unit {0}) ErrorKind → Doing (Unit {0})
  mount_and_go peers configuration r =
      try_with io r
      >> (act (mounted (client_endpoint (bound authenticator) peers) configuration)
          >> connect_and_ping world args (suc args.count))

  configure : Peers → Run (Result ClientConfig ConfigError) → Doing (Unit {0})
  configure peers answer = run answer >>= λ made.
      try_with config made >>= λ configuration. mount_and_go peers configuration world.new_endpoint

  take_socket : Peers → List ℕ → Result (Unit {0}) ErrorKind → Doing (Unit {0})
  take_socket peers cert r =
      try_with io r
      >> (act (took_socket local authenticator)
          >> configure peers (client_config lib (cert ∷ []) process).0)

  read_cert : Peers → Result (List ℕ) ErrorKind → Doing (Unit {0})
  read_cert peers r = try_with io r >>= λ cert. take_socket peers cert (world.bind local)

  -- From the certificate on, at the addresses that `client_setup` takes.
  module _ (documented : Documented lib) (peers : Peers)
      (built : client_setup args ≡ ok (client_endpoint (bound authenticator) peers)) where
    mount_and_go-Runs :
        (cert : List ℕ) (configuration : ClientConfig) (r : Result (Unit {0}) ErrorKind)
        → Trusts (cert ∷ []) configuration
        → world.new_endpoint ≡ r
        → RunsFrom (holding cert) (mount_and_go peers configuration r)
    unfolding mount_and_go
    mount_and_go-Runs cert configuration (ok _) trusts e =
        doing
          (mount cert (client_endpoint (bound authenticator) peers) configuration built trusts e)
          connect_and_ping-Runs
    mount_and_go-Runs cert configuration (err kind) trusts e = stopped (no_endpoint cert kind e)

    configure-Runs :
        (cert : List ℕ) {answer : Run (Result ClientConfig ConfigError)}
        → (client_config lib (cert ∷ []) process).0 ≡ answer
        → ClientOutcome lib (cert ∷ []) answer
        → RunsFrom (holding cert) (configure peers answer)
    unfolding configure
    configure-Runs cert same (trusting configuration a trusts) =
        rw a (mount_and_go-Runs cert configuration world.new_endpoint trusts refl)
    configure-Runs cert same (refused e h a) =
        rw a (stopped (no_configuration cert (tls e) (same ∙ a)))
    configure-Runs cert same (no_suite crypto e h roots a) =
        rw a (stopped (no_configuration cert (no_initial_cipher_suite e) (same ∙ a)))

    take_socket-Runs :
        (cert : List ℕ) (r : Result (Unit {0}) ErrorKind)
        → world.read args.cert ≡ ok cert
        → world.bind local ≡ r
        → RunsFrom begun (take_socket peers cert r)
    unfolding take_socket client_endpoint
    take_socket-Runs cert (ok _) c e =
        let outcome = client_config-Outcome lib documented (cert ∷ []) process in
        doing (take cert (client_endpoint (bound authenticator) peers) authenticator built refl c e)
          (configure-Runs cert refl outcome.0)
    take_socket-Runs cert (err kind) c e = stopped (no_socket kind e)

    read_cert-Runs :
        (r : Result (List ℕ) ErrorKind)
        → world.read args.cert ≡ r
        → RunsFrom begun (read_cert peers r)
    unfolding read_cert
    read_cert-Runs (ok cert) e = take_socket-Runs cert (world.bind local) e refl
    read_cert-Runs (err kind) e = stopped (no_file kind e)

  from_ip : IpAddr → Doing (Unit {0})
  from_ip ip = only_v4 ip >>= λ server_ip.
      read_cert (record { client = args.local_ip; server = server_ip }) (world.read args.cert)

  from_ip-Runs :
      Documented lib
      → ltb max_ping_bytes args.size ≡ false
      → (ip : IpAddr) → args.server.ip ≡ ip
      → RunsFrom begun (from_ip ip)
  unfolding from_ip client_setup client_endpoint
  from_ip-Runs documented fits (v6 octets) e =
      stopped (no_setup (not_ipv4 (v6 octets)) (rw (client_setup, fits, e) refl))
  from_ip-Runs documented fits (v4 ip) e =
      read_cert-Runs documented (record { client = args.local_ip; server = ip })
        (rw (client_setup, fits, e) refl) (world.read args.cert) refl

  -- Whatever the world answers, the client's `main` does not panic, keeps to its phases, and returns
  -- without an error only after the last: no socket is taken unless the size, the server's address
  -- and the file with the certificate are right; the socket asks an authenticator for the client's
  -- address; the endpoint is that of the two addresses, and trusts the certificate that was read and
  -- no other; as many pings are made as were asked for, and the connection is closed and waited for
  -- before what was counted is printed. Each error is that of the step that failed, and nothing is
  -- done after it. The libraries behave as documented, the
  -- count is positive and below 2 ^ 32, and each ping takes less than 2 ^ 32 seconds.
  pub client_main-Runs :
      Documented lib
      → Runs lib process world args begun
          (client_main world lib process args (suc args.count)).log
          (client_main world lib process args (suc args.count)).exit
  unfolding client_main client_setup from_ip read_cert take_socket configure mount_and_go
  client_main-Runs documented = elim (Bool-cases (ltb max_ping_bytes args.size)) [
    | inl large ↦
        rw large (stopped (no_setup (too_large args.size) (rw (client_setup, large) refl)))
    | inr fits ↦ rw fits (from_ip-Runs documented fits args.server.ip refl)
  ]
