-- ===== src/Programs/ServerMain/Built.antt =====
-- What `server_setup` builds at a concrete address.
use pktauth.Base.{Bool, true, false, ◌≡◌, ◌≢◌, refl, ap, ok, arith}
use pktauth.Net.{Ipv4Addr, v4, unspecified, is_unspecified}
use pktauth.Socket.Counters.{bound}
use pktauth.Programs.Setup.{ServerArgs, authenticator_for, server_endpoint, server_setup, listen_on}
use pktauth.Programs.ServerMain.Phases.{Asks, validating, nobody, IsEndpoint}

pub is_unspecified-eq : (ip : Ipv4Addr) → is_unspecified ip ≡ true → ip ≡ unspecified
is_unspecified-eq ip e = ground arith

is_unspecified-ne : (ip : Ipv4Addr) → is_unspecified ip ≡ false → ip ≢ unspecified
is_unspecified-ne ip set same = cc (set, ap is_unspecified same)

pub record IsBuilt (args : ServerArgs) (ip : Ipv4Addr) : Type 0 where
  pub built :
      server_setup args
      ≡ ok (server_endpoint (bound (authenticator_for ip args.no_dcid_validation)) ip)
  pub asks : Asks args (authenticator_for ip args.no_dcid_validation)
  pub is :
      IsEndpoint args (server_endpoint (bound (authenticator_for ip args.no_dcid_validation)) ip)

authenticator_for-Asks :
    (args : ServerArgs) (ip : Ipv4Addr) (off : Bool)
    → args.listen.ip ≡ v4 ip
    → args.no_dcid_validation ≡ off
    → Asks args (authenticator_for ip off)
authenticator_for-Asks args ip false listens e = validating ip listens e
authenticator_for-Asks args ip true listens e = nobody e

pub server_setup-IsBuilt :
    (args : ServerArgs) (ip : Ipv4Addr)
    → args.listen.ip ≡ v4 ip
    → is_unspecified ip ≡ false
    → IsBuilt args ip
unfolding server_setup listen_on server_endpoint
server_setup-IsBuilt args ip listens set =
    let asks = authenticator_for-Asks args ip args.no_dcid_validation listens refl in
    record {
      built = rw (server_setup, listens, listen_on, set) refl;
      asks = asks;
      is = record {
        ip = ip;
        listens = listens;
        concrete = is_unspecified-ne ip set;
        asks = asks;
        uncounted = refl;
        issues = refl;
        accepts_only = refl;
      };
    }
