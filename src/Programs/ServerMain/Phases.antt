-- ===== src/Programs/ServerMain/Phases.antt =====
-- The phases that a server goes through.
use pktauth.Base.{ℕ, List, [], ◌∷◌, Option, ◌≡◌}
use pktauth.Base.{done, ok, err}
use pktauth.Base.Actions.{Exit, returned, failed}
use pktauth.Base.{none, some, true, false, ◌≢◌}
use pktauth.Net.{Ipv4Addr, v4, v6, unspecified, SocketAddr}
use pktauth.Auth.Direction.{client_to_server}
use pktauth.Auth.Authenticator.{Authenticator}
use pktauth.Socket.Counters.{ErrorKind, bound}
use pktauth.Tls.{
  Library, Process, ConfigError, ServerCredentials, CertifiedKey, self_signed_server_config,
}
use pktauth.Tls.Serve.{Serves}
use pktauth.Programs.Setup.{Endpoint, ServerArgs, not_ipv4, wildcard, server_setup}
use pktauth.Programs.ServerMain.{
  out_of_connections, interrupted, ServerWorld, MainError, setup, config, io, ServerAct, wrote,
  took_socket, listening, announced, mounted, shutting_down, closed, waited, printed,
}

pub data Phase : Type 0 where
  begun : Phase
  certified holding reachable announcing : ServerCredentials → Phase
  serving stopping closing draining over : Phase

-- Whom the socket asks about a packet: an authenticator for what clients send to the address that the
-- server listens on, or nobody where validation is switched off.
pub data Asks (args : ServerArgs) : Option Authenticator → Type 0 where
  validating :
      (ip : Ipv4Addr)
      → args.listen.ip ≡ v4 ip
      → args.no_dcid_validation ≡ false
      → Asks args (some (record { inbound = client_to_server; local_ip = ip }))
  nobody : args.no_dcid_validation ≡ true → Asks args none

-- The endpoint: at a concrete IPv4 address, over a socket that asks as told and has counted nothing,
-- issuing IDs for that address, and connecting to nobody.
pub record IsEndpoint (args : ServerArgs) (endpoint : Endpoint) : Type 0 where
  pub ip : Ipv4Addr
  pub listens : args.listen.ip ≡ v4 ip
  pub concrete : ip ≢ unspecified
  pub asks : Asks args endpoint.socket.authenticator
  pub uncounted :
      endpoint.socket.counters
      ≡ record { sent = 0; sent_bytes = 0; received = 0; received_bytes = 0; rejected = 0 }
  pub issues : endpoint.generator ≡ record { direction = client_to_server; local_ip = ip }
  pub accepts_only : endpoint.initial_dst ≡ none

module _ (lib : Library) (process : Process) (world : ServerWorld) (args : ServerArgs) where
  -- What may be done in a phase, and the phase after it. A certificate is written that the server
  -- proves; the endpoint is also that of `server_setup`, over the configuration whose certificate was
  -- written.
  pub data Next : Phase → ServerAct → Phase → Type 0 where
    write :
        (certified_key : CertifiedKey) (creds : ServerCredentials)
        → Serves certified_key creds
        → world.write args.cert_out creds.cert_der ≡ ok tt
        → Next begun (wrote args.cert_out creds.cert_der) (certified creds)
    take :
        (creds : ServerCredentials) (endpoint : Endpoint) (authenticator : Option Authenticator)
        → server_setup args ≡ ok endpoint
        → endpoint.socket ≡ bound authenticator
        → Asks args authenticator
        → world.bind args.listen ≡ ok tt
        → Next (certified creds) (took_socket args.listen authenticator) (holding creds)
    say_where :
        (creds : ServerCredentials) (address : SocketAddr)
        → world.local_addr ≡ ok address
        → Next (holding creds) (listening address) (reachable creds)
    say_how :
        (creds : ServerCredentials)
        → Next (reachable creds) (announced args.no_dcid_validation) (announcing creds)
    mount :
        (creds : ServerCredentials) (endpoint : Endpoint)
        → server_setup args ≡ ok endpoint
        → IsEndpoint args endpoint
        → world.new_endpoint ≡ ok tt
        → Next (announcing creds) (mounted endpoint creds.config) serving
    give_way : world.ended ≡ interrupted (ok tt) → Next serving shutting_down stopping
    close_served : world.ended ≡ out_of_connections → Next serving closed closing
    close_stopped : Next stopping closed closing
    wait : Next closing waited draining
    print : Next draining (printed world.counts) over

  -- The errors that end a phase, and where they come from.
  pub data Fails : Phase → MainError → Type 0 where
    no_ipv4 :
        (octets : List ℕ) → args.listen.ip ≡ v6 octets → Fails begun (setup (not_ipv4 (v6 octets)))
    any_address : args.listen.ip ≡ v4 unspecified → Fails begun (setup wildcard)
    no_credentials :
        (e : ConfigError)
        → (self_signed_server_config lib (args.server_name ∷ []) process).0 ≡ done (err e)
        → Fails begun (config e)
    no_file :
        (cert : List ℕ) (kind : ErrorKind)
        → world.write args.cert_out cert ≡ err kind
        → Fails begun (io kind)
    no_socket :
        (creds : ServerCredentials) (kind : ErrorKind)
        → world.bind args.listen ≡ err kind
        → Fails (certified creds) (io kind)
    no_address :
        (creds : ServerCredentials) (kind : ErrorKind)
        → world.local_addr ≡ err kind
        → Fails (holding creds) (io kind)
    no_endpoint :
        (creds : ServerCredentials) (kind : ErrorKind)
        → world.new_endpoint ≡ err kind
        → Fails (announcing creds) (io kind)
    no_signal : (kind : ErrorKind) → world.ended ≡ interrupted (err kind) → Fails serving (io kind)

  -- A run from a phase on: what is done leads from phase to phase, and it ends at the last one, or
  -- with an error of the phase that it has come to.
  pub data Runs : Phase → List ServerAct → Exit MainError (Unit {0}) → Type 0 where
    finished : Runs over [] (returned tt)
    stopped : {phase : Phase} {e : MainError} → Fails phase e → Runs phase [] (failed e)
    doing :
        {phase phase' : Phase} {event : ServerAct} {rest : List ServerAct}
        {exit : Exit MainError (Unit {0})}
        → Next phase event phase'
        → Runs phase' rest exit
        → Runs phase (event ∷ rest) exit
