-- ===== src/Programs/ClientMain/Phases.antt =====
-- The phases that a client goes through.
use pktauth.Base.{ℕ, suc, List, [], ◌∷◌, Option, some, ◌≡◌, done, ok, err}
use pktauth.Base.Actions.{Exit, returned, failed}
use pktauth.Net.{SocketAddr, v4}
use pktauth.Auth.Authenticator.{Authenticator}
use pktauth.Socket.Counters.{ErrorKind, bound}
use pktauth.Ping.Streams.{ConnectionError}
use pktauth.Tls.{Library, Process, ConfigError, ClientConfig, client_config}
use pktauth.Tls.Trust.{Trusts}
use pktauth.Programs.Setup.{Endpoint, ClientArgs, SetupError, client_setup}
use pktauth.Programs.Pinging.{Pinging, started, ping_loop}
use pktauth.Programs.Summary.{Summary}
use pktauth.Programs.Summary.Pinged.{Summarises}
use pktauth.Programs.ClientMain.{
  ClientWorld, ClientError, setup, config, io, connecting, connection, ClientAct, took_socket,
  mounted, connected, pinged, closed, waited, printed,
}

pub data Phase : Type 0 where
  begun : Phase
  holding : (cert : List ℕ) → Phase
  reaching : Phase
  online : Phase
  leaving closing draining : Pinging → Phase
  over : Phase

module _ (lib : Library) (process : Process) (world : ClientWorld) (args : ClientArgs) where
  -- What may be done in a phase, and the phase after it. The socket is at the client's own address
  -- and has the authenticator that `client_setup` gives it; the endpoint is that of `client_setup`,
  -- and trusts the certificate that was read and no other; it connects to the server asked for; and
  -- what is printed sums up the pings that were asked for.
  pub data Next : Phase → ClientAct → Phase → Type 0 where
    take :
        (cert : List ℕ) (endpoint : Endpoint) (authenticator : Option Authenticator)
        → client_setup args ≡ ok endpoint
        → endpoint.socket ≡ bound authenticator
        → world.read args.cert ≡ ok cert
        → world.bind (record { ip = v4 args.local_ip; port = 0 }) ≡ ok tt
        → Next begun
            (took_socket (record { ip = v4 args.local_ip; port = 0 }) authenticator)
            (holding cert)
    mount :
        (cert : List ℕ) (endpoint : Endpoint) (configuration : ClientConfig)
        → client_setup args ≡ ok endpoint
        → Trusts (cert ∷ []) configuration
        → world.new_endpoint ≡ ok tt
        → Next (holding cert) (mounted endpoint configuration) reaching
    connect :
        (remote : SocketAddr)
        → world.connect args.server args.server_name ≡ ok tt
        → world.handshake ≡ ok remote
        → Next reaching (connected remote) online
    ping :
        (s : Pinging)
        → ping_loop world.ping args.count args.size (suc args.count) started ≡ done (some s)
        → Next online (pinged (some s)) (leaving s)
    close : (s : Pinging) → Next (leaving s) closed (closing s)
    wait : (s : Pinging) → Next (closing s) waited (draining s)
    print :
        (s : Pinging) (summary : Summary)
        → Summarises args.count s.rtts world.counts summary
        → Next (draining s) (printed summary) over

  -- The errors that end a phase, and where they come from.
  pub data Fails : Phase → ClientError → Type 0 where
    no_setup : (e : SetupError) → client_setup args ≡ err e → Fails begun (setup e)
    no_file : (kind : ErrorKind) → world.read args.cert ≡ err kind → Fails begun (io kind)
    no_socket :
        (kind : ErrorKind)
        → world.bind (record { ip = v4 args.local_ip; port = 0 }) ≡ err kind
        → Fails begun (io kind)
    no_configuration :
        (cert : List ℕ) (e : ConfigError)
        → (client_config lib (cert ∷ []) process).0 ≡ done (err e)
        → Fails (holding cert) (config e)
    no_endpoint :
        (cert : List ℕ) (kind : ErrorKind)
        → world.new_endpoint ≡ err kind
        → Fails (holding cert) (io kind)
    no_connect :
        (e : ℕ) → world.connect args.server args.server_name ≡ err e → Fails reaching (connecting e)
    no_handshake : (e : ConnectionError) → world.handshake ≡ err e → Fails reaching (connection e)

  -- A run from a phase on: what is done leads from phase to phase, and it ends at the last one, or
  -- with an error of the phase that it has come to.
  pub data Runs : Phase → List ClientAct → Exit ClientError (Unit {0}) → Type 0 where
    finished : Runs over [] (returned tt)
    stopped : {phase : Phase} {e : ClientError} → Fails phase e → Runs phase [] (failed e)
    doing :
        {phase phase' : Phase} {event : ClientAct} {rest : List ClientAct}
        {exit : Exit ClientError (Unit {0})}
        → Next phase event phase'
        → Runs phase' rest exit
        → Runs phase (event ∷ rest) exit
