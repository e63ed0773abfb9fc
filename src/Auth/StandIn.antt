-- ===== src/Auth/StandIn.antt =====
-- What the tests share: a stand-in for AES-128, which is a concrete function that keeps what the
-- interface promises, and sample data.
use pktauth.Base.{
  ℕ, ◌+◌, ◌%◌, List, [], ◌∷◌, ◌++◌, ◌≡◌, refl, length, arith, length-append, length-take,
  length-drop, take, drop, sym, ◌∙◌,
}
use pktauth.Base.Bytes.{AreBytes}
use pktauth.Net.{Ipv4Addr}
use pktauth.Auth.Direction.{Peers}
use pktauth.Auth.Cipher.{Aes128}

-- The sum of two byte strings, byte by byte.
abbrev pub add_bytes : List ℕ → List ℕ → List ℕ
add_bytes [] ys = []
add_bytes (x ∷ xs) [] = []
add_bytes (x ∷ xs) (y ∷ ys) = ((x + y) % 256) ∷ add_bytes xs ys

pub length-add_bytes :
    (xs ys : List ℕ) → length xs ≡ length ys → length (add_bytes xs ys) ≡ length ys
length-add_bytes [] ys h = h
length-add_bytes (x ∷ xs) [] h = refl
length-add_bytes (x ∷ xs) (y ∷ ys) h = omega (arith, length-add_bytes xs ys)

pub add_bytes-AreBytes : (xs ys : List ℕ) → AreBytes (add_bytes xs ys)
add_bytes-AreBytes [] ys = tt
add_bytes-AreBytes (x ∷ xs) [] = tt
add_bytes-AreBytes (x ∷ xs) (y ∷ ys) = (omega arith, add_bytes-AreBytes xs ys)

-- The block's halves are swapped, so that the tag covers the addresses, and the key is added.
abbrev pub swap_halves : List ℕ → List ℕ
swap_halves block = drop 8 block ++ take 8 block

pub length-swap_halves : (block : List ℕ) → length block ≡ 16 → length (swap_halves block) ≡ 16
length-swap_halves block h =
    omega
      (arith, length-append (drop 8 block) (take 8 block), length-drop 8 block, length-take 8 block)

abbrev pub sum_cipher : Aes128
sum_cipher = record {
  encrypt_block = λ key block. add_bytes key (swap_halves block);
  block_len = λ key block k b.
      length-add_bytes key (swap_halves block) (k ∙ sym (length-swap_halves block b))
      ∙ length-swap_halves block b;
  block_AreBytes = λ key block. add_bytes-AreBytes key (swap_halves block);
}

-- Addresses, a nonce and tokens for the tests.
abbrev pub alice : Ipv4Addr
alice = record { a = 10; b = 0; c = 0; d = 1 }

abbrev pub server : Ipv4Addr
server = record { a = 10; b = 0; c = 0; d = 2 }

abbrev pub bob : Ipv4Addr
bob = record { a = 198; b = 51; c = 100; d = 7 }

abbrev pub peers : Peers
peers = record { client = alice; server = server }

abbrev pub nonce : List ℕ
nonce = 1 ∷ 2 ∷ 3 ∷ 4 ∷ 5 ∷ 6 ∷ 7 ∷ 8 ∷ []

abbrev pub token : List ℕ
token =
    0 ∷ 1 ∷ 1 ∷ 2 ∷ 3 ∷ 4 ∷ 5 ∷ 6 ∷ 7 ∷ 8 ∷ 170 ∷ 177 ∷ 194 ∷ 212 ∷ 238 ∷ 245 ∷ 6 ∷ 25 ∷ 41 ∷ 59
    ∷ []

-- The same with the source 0.0.0.0.
abbrev pub blind_token : List ℕ
blind_token =
    0 ∷ 1 ∷ 1 ∷ 2 ∷ 3 ∷ 4 ∷ 5 ∷ 6 ∷ 7 ∷ 8 ∷ 160 ∷ 177 ∷ 194 ∷ 211 ∷ 238 ∷ 245 ∷ 6 ∷ 25 ∷ 41 ∷ 59
    ∷ []

-- A short-header datagram.
abbrev pub with_token : List ℕ
with_token = 0x40 ∷ (token ++ (0xaa ∷ 0xaa ∷ []))

-- A long-header datagram.
abbrev pub with_blind_token : List ℕ
with_blind_token = 0xc3 ∷ 0 ∷ 0 ∷ 0 ∷ 1 ∷ 20 ∷ (blind_token ++ (0xaa ∷ []))
