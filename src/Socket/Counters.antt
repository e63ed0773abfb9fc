-- ===== src/Socket/Counters.antt =====
-- src/socket.rs: the packet counters, the socket's shared state, and the error kinds that the
-- code tells apart. The counters are 64 bits wide and wrap.
use pktauth.Base.{ℕ, ◌+◌, ◌%◌, ◌^◌, Option, Bool, true, false}
use pktauth.Auth.Authenticator.{Authenticator}

pub record Counters : Type 0 where
  pub sent : ℕ
  pub sent_bytes : ℕ
  pub received : ℕ
  pub received_bytes : ℕ
  pub rejected : ℕ

-- What `counts` returns: one load of each counter.
pub record PacketCounts : Type 0 where
  pub sent : ℕ
  pub sent_bytes : ℕ
  pub received : ℕ
  pub received_bytes : ℕ
  pub rejected : ℕ

-- `PacketSocket`, behind its `Arc`: what `Inner` holds beside the operating system's socket.
pub record PacketSocket : Type 0 where
  pub authenticator : Option Authenticator
  pub counters : Counters

-- `AtomicU64::fetch_add`.
abbrev pub fetch_add : ℕ → ℕ → ℕ
fetch_add counter n = (counter + n) % 2 ^ 64

abbrev pub zero_counters : Counters
zero_counters = record { sent = 0; sent_bytes = 0; received = 0; received_bytes = 0; rejected = 0 }

-- The state that `bind` builds over a bound socket.
abbrev pub bound : Option Authenticator → PacketSocket
bound authenticator = record { authenticator = authenticator; counters = zero_counters }

abbrev pub counts : PacketSocket → PacketCounts
counts socket = record {
  sent = socket.counters.sent;
  sent_bytes = socket.counters.sent_bytes;
  received = socket.counters.received;
  received_bytes = socket.counters.received_bytes;
  rejected = socket.counters.rejected;
}

-- `io::ErrorKind`; `other` is every kind that the code does not name.
pub data ErrorKind : Type 0 where
  would_block connection_refused connection_reset host_unreachable network_unreachable : ErrorKind
  other : ErrorKind

abbrev pub is_transient : ErrorKind → Bool
is_transient connection_refused = true
is_transient connection_reset = true
is_transient host_unreachable = true
is_transient network_unreachable = true
is_transient _ = false

-- `Poll<T>`.
pub data Poll {ℓ} (A : Type ℓ) : Type ℓ where
  ready : A → Poll A
  pending : Poll A
