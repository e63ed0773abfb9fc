-- ===== src/Auth/Cid.antt =====
-- src/auth.rs: `destination_cid`.
pub mod Format
use pktauth.Base.{ℕ, ◌+◌, List, Option, none, some, not, get_elem?, slice, ltb, ◌==◌, if◌then◌else◌}
use pktauth.Base.{bit_and}
use pktauth.Auth.Direction.{token_len}

-- Long header: flags(1) version(4) dcid_len(1) dcid.
long_header_cid : List ℕ → Option (List ℕ)
long_header_cid datagram = elim (get_elem? datagram 5) [
  | none ↦ none
  | some len ↦ if ltb token_len len then none else slice datagram 6 (6 + len)
]

unfoldable pub destination_cid : List ℕ → Option (List ℕ)
unfolding long_header_cid
destination_cid datagram = elim (get_elem? datagram 0) [
  | none ↦ none
  | some first ↦
      if not (bit_and first 0x80 == 0)
      then long_header_cid datagram
      else slice datagram 1 (1 + token_len)
]
