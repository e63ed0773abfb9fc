-- ===== src/Programs/ServerMain/Kept.antt =====
-- The server's `main` keeps to its phases.
use pktauth.Base.{ap}
use pktauth.Base.{[], ◌∷◌, Option, ◌≡◌, refl, ◌∙◌, inl, inr, Bool-cases}
use pktauth.Base.{Run, Result, ok, err}
use pktauth.Base.Actions.{act, ◌>>=◌, ◌>>◌, raise_if, try_with, run}
use pktauth.Net.{Ipv4Addr, IpAddr, v4, v6, SocketAddr, is_unspecified}
use pktauth.Auth.Authenticator.{Authenticator}
use pktauth.Socket.Counters.{ErrorKind, bound}
use pktauth.Tls.{
  Library, Process, ConfigError, rcgen, tls, no_initial_cipher_suite, ServerCredentials,
  CertifiedKey, self_signed_server_config,
}
use pktauth.Tls.Documented.{Documented}
use pktauth.Tls.Serve.{
  Serves, ServerOutcome, not_generated, not_certified, unsuited, serving as credentialed,
  self_signed_server_config-Outcome,
}
use pktauth.Programs.Setup.{Endpoint, ServerArgs, wildcard, authenticator_for, server_endpoint}
use pktauth.Programs.ServerMain.{
  Ended, out_of_connections, interrupted, ServerWorld, setup, config, io, wrote, took_socket,
  listening, announced, mounted, closed, waited, printed,
}
use pktauth.Programs.ServerMain.{
  Doing, serve, serve_and_close, listen_and_serve, server_main, only_v4,
}
use pktauth.Programs.ServerMain.Built.{IsBuilt, is_unspecified-eq, server_setup-IsBuilt}
use pktauth.Programs.ServerMain.Phases.{
  Phase, begun, certified, holding, announcing, serving, closing, write, take, say_where, say_how,
  mount, give_way, close_served, close_stopped, wait, print, no_ipv4, any_address, no_credentials,
  no_file, no_socket, no_address, no_endpoint, no_signal, Runs, finished, stopped, doing,
}

module _ (lib : Library) (process : Process) (world : ServerWorld) (args : ServerArgs) where
  abbrev RunsFrom : Phase → Doing (Unit {0}) → Type 0
  RunsFrom phase m = Runs lib process world args phase m.log m.exit

  closes : RunsFrom closing (act waited >> act (printed world.counts))
  closes = doing wait (doing print finished)

  serve_and_close-Runs : RunsFrom serving (serve_and_close world)
  unfolding serve_and_close
  serve_and_close-Runs = from_end world.ended refl
    where
      from_end :
          (ended : Ended)
          → world.ended ≡ ended
          → RunsFrom serving
              (serve world ended >> (act closed >> (act waited >> act (printed world.counts))))
      from_end out_of_connections e = doing (close_served e) (doing wait (doing print finished))
      from_end (interrupted (ok _)) e =
          doing (give_way e) (doing close_stopped (doing wait (doing print finished)))
      from_end (interrupted (err kind)) e = stopped (no_signal kind e)

  module _ (creds : ServerCredentials) (ip : Ipv4Addr) (setting : IsBuilt args ip) where
    abbrev authenticator : Option Authenticator
    authenticator = authenticator_for ip args.no_dcid_validation

    abbrev endpoint : Endpoint
    endpoint = server_endpoint (bound authenticator) ip

    mount_and_serve : Result (Unit {0}) ErrorKind → Doing (Unit {0})
    mount_and_serve r =
        try_with io r >> (act (mounted endpoint creds.config) >> serve_and_close world)

    mount_and_serve-Runs :
        (r : Result (Unit {0}) ErrorKind)
        → world.new_endpoint ≡ r
        → RunsFrom (announcing creds) (mount_and_serve r)
    unfolding mount_and_serve
    mount_and_serve-Runs (ok _) e =
        doing (mount creds endpoint setting.built setting.is e) serve_and_close-Runs
    mount_and_serve-Runs (err kind) e = stopped (no_endpoint creds kind e)

    say_and_mount : Result SocketAddr ErrorKind → Doing (Unit {0})
    say_and_mount r = try_with io r >>= λ address.
        act (listening address)
        >> (act (announced args.no_dcid_validation) >> mount_and_serve world.new_endpoint)

    say_and_mount-Runs :
        (r : Result SocketAddr ErrorKind)
        → world.local_addr ≡ r
        → RunsFrom (holding creds) (say_and_mount r)
    unfolding say_and_mount
    say_and_mount-Runs (ok address) e =
        doing (say_where creds address e)
          (doing (say_how creds) (mount_and_serve-Runs world.new_endpoint refl))
    say_and_mount-Runs (err kind) e = stopped (no_address creds kind e)

    take_and_say : Result (Unit {0}) ErrorKind → Doing (Unit {0})
    take_and_say r =
        try_with io r
        >> (act (took_socket args.listen authenticator) >> say_and_mount world.local_addr)

    take_and_say-Runs :
        (r : Result (Unit {0}) ErrorKind)
        → world.bind args.listen ≡ r
        → RunsFrom (certified creds) (take_and_say r)
    unfolding take_and_say server_endpoint
    take_and_say-Runs (ok _) e =
        doing (take creds endpoint authenticator setting.built refl setting.asks e)
          (say_and_mount-Runs world.local_addr refl)
    take_and_say-Runs (err kind) e = stopped (no_socket creds kind e)

    listen_and_serve-Runs : RunsFrom (certified creds) (listen_and_serve world args ip creds.config)
    unfolding listen_and_serve take_and_say say_and_mount mount_and_serve
    listen_and_serve-Runs = take_and_say-Runs (world.bind args.listen) refl

  publish : Ipv4Addr → ServerCredentials → Result (Unit {0}) ErrorKind → Doing (Unit {0})
  publish ip creds r =
      try_with io r
      >> (act (wrote args.cert_out creds.cert_der) >> listen_and_serve world args ip creds.config)

  certify : Ipv4Addr → Run (Result ServerCredentials ConfigError) → Doing (Unit {0})
  certify ip answer = run answer >>= λ made.
      try_with config made >>= λ creds. publish ip creds (world.write args.cert_out creds.cert_der)

  -- From the credentials on, at an address that `server_setup` takes.
  module _ (ip : Ipv4Addr) (setting : IsBuilt args ip) where
    publish-Runs :
        (key : CertifiedKey) (creds : ServerCredentials) (r : Result (Unit {0}) ErrorKind)
        → Serves key creds
        → world.write args.cert_out creds.cert_der ≡ r
        → RunsFrom begun (publish ip creds r)
    unfolding publish
    publish-Runs key creds (ok _) serves e =
        doing (write key creds serves e) (listen_and_serve-Runs creds ip setting)
    publish-Runs key creds (err kind) serves e = stopped (no_file creds.cert_der kind e)

    certify-Runs :
        {answer : Run (Result ServerCredentials ConfigError)}
        → (self_signed_server_config lib (args.server_name ∷ []) process).0 ≡ answer
        → ServerOutcome lib (args.server_name ∷ []) answer
        → RunsFrom begun (certify ip answer)
    unfolding certify
    certify-Runs same (not_generated e h a) = rw a (stopped (no_credentials (rcgen e) (same ∙ a)))
    certify-Runs same (not_certified key e h h' a) =
        rw a (stopped (no_credentials (tls e) (same ∙ a)))
    certify-Runs same (unsuited crypto e h a) =
        rw a (stopped (no_credentials (no_initial_cipher_suite e) (same ∙ a)))
    certify-Runs same (credentialed key creds h a serves) =
        rw a (publish-Runs key creds (world.write args.cert_out creds.cert_der) serves refl)

  from_ip : IpAddr → Doing (Unit {0})
  from_ip ip = only_v4 ip >>= λ server_ip.
      raise_if (is_unspecified server_ip) (setup wildcard)
      >> certify server_ip (self_signed_server_config lib (args.server_name ∷ []) process).0

  from_ip-Runs : Documented lib → (ip : IpAddr) → args.listen.ip ≡ ip → RunsFrom begun (from_ip ip)
  unfolding from_ip
  from_ip-Runs documented (v6 octets) e = stopped (no_ipv4 octets e)
  from_ip-Runs documented (v4 ip) e = elim (Bool-cases (is_unspecified ip)) [
    | inl unset ↦ rw unset (stopped (any_address (e ∙ ap v4 (is_unspecified-eq ip unset))))
    | inr set ↦
        let outcome =
          self_signed_server_config-Outcome lib documented (args.server_name ∷ []) process in
        rw set (certify-Runs ip (server_setup-IsBuilt args ip e set) refl outcome.0)
  ]

  -- Whatever the world answers, the server's `main` does not panic, keeps to its phases, and returns
  -- without an error only after the last: an address to listen on that is not IPv4, or is 0.0.0.0, is
  -- refused before anything is done; it writes the certificate that its endpoint proves before it
  -- takes the socket; the socket asks an authenticator for packets from clients to that address where
  -- validation is not switched off, and nobody where it is; the endpoint issues IDs for that address;
  -- and it is closed, waited for and reported on whichever way serving ends, unless waiting for the
  -- signal fails. Each error is that of the step that failed, and nothing is done after it. The
  -- libraries behave as documented.
  pub server_main-Runs :
      Documented lib
      → Runs lib process world args begun
          (server_main world lib process args).log
          (server_main world lib process args).exit
  unfolding server_main from_ip certify publish
  server_main-Runs documented = from_ip-Runs documented args.listen.ip refl
