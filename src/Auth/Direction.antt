-- ===== src/Auth/Direction.antt =====
-- src/auth.rs: the lengths and keys of the token format, the two ends, the two directions with
-- their selectors and keys, and the errors.
use pktauth.Base.{ℕ, List, [], ◌∷◌, ◌≡◌, refl, Option, none, some, Bool, true, false}
use pktauth.Base.{◌==◌, if◌then◌else◌, length, ◌↔◌, arith}
use pktauth.Net.{Ipv4Addr, IpAddr}

abbrev pub token_len : ℕ
token_len = 20

abbrev pub selector_len : ℕ
selector_len = 2

abbrev pub nonce_len : ℕ
nonce_len = 8

abbrev pub tag_len : ℕ
tag_len = 10

abbrev pub aes_block_len : ℕ
aes_block_len = 16

abbrev pub f_ab : List ℕ
f_ab =
    0xa0 ∷ 0xb1 ∷ 0xc2 ∷ 0xd3 ∷ 0xe4 ∷ 0xf5 ∷ 0x06 ∷ 0x17 ∷ 0x28 ∷ 0x39 ∷ 0x4a ∷ 0x5b ∷ 0x6c ∷ 0x7d
    ∷ 0x8e ∷ 0x9f ∷ []

abbrev pub f_ba : List ℕ
f_ba =
    0x5f ∷ 0x4e ∷ 0x3d ∷ 0x2c ∷ 0x1b ∷ 0x0a ∷ 0xf9 ∷ 0xe8 ∷ 0xd7 ∷ 0xc6 ∷ 0xb5 ∷ 0xa4 ∷ 0x93 ∷ 0x82
    ∷ 0x71 ∷ 0x60 ∷ []

pub record Peers : Type 0 where
  pub client : Ipv4Addr
  pub server : Ipv4Addr

pub data Direction : Type 0 where
  client_to_server server_to_client : Direction

-- The derived `==` of `Direction`.
abbrev pub same_direction : Direction → Direction → Bool
same_direction client_to_server client_to_server = true
same_direction server_to_client server_to_client = true
same_direction _ _ = false

unfoldable pub selector : Direction → ℕ
selector client_to_server = 0x0001
selector server_to_client = 0x0002

unfoldable pub key : Direction → List ℕ
key client_to_server = f_ab
key server_to_client = f_ba

unfoldable pub from_selector : ℕ → Option Direction
from_selector s =
    if s == 0x0001
    then some client_to_server
    else if s == 0x0002
    then some server_to_client
    else none

unfoldable pub path : Direction → Peers → Ipv4Addr × Ipv4Addr
path client_to_server peers = (peers.client, peers.server)
path server_to_client peers = (peers.server, peers.client)

pub data AuthError : Type 0 where
  bad_length : ℕ → AuthError
  unknown_selector : ℕ → AuthError
  wrong_direction : AuthError
  bad_tag : AuthError
  not_quic : AuthError
  not_ipv4 : IpAddr → AuthError

pub length-key : (d : Direction) → length (key d) ≡ aes_block_len
unfolding key
length-key client_to_server = refl
length-key server_to_client = refl

-- A selector names a direction exactly when it is that direction's own.
pub from_selector-selector_iff :
    (s : ℕ) (d : Direction) → (from_selector s ≡ some d) ↔ (s ≡ selector d)
unfolding from_selector selector
from_selector-selector_iff s client_to_server = ground arith
from_selector-selector_iff s server_to_client = ground arith
