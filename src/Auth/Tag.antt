-- ===== src/Auth/Tag.antt =====
-- src/auth.rs: `tag`, `assemble`, `mint` and `mint_between`. The bytes that the random generator
-- writes into the nonce are an argument.
pub mod Layout
use pktauth.Base.{ℕ, List, [], Run, done, ◌>>=◌, expect, copy_from_slice, slice, replicate}
use pktauth.Base.Bytes.{to_be_bytes}
use pktauth.Net.{Ipv4Addr, octets}
use pktauth.Auth.Direction.{Direction, Peers, selector, key, path}
use pktauth.Auth.Direction.{token_len, selector_len, nonce_len, tag_len, aes_block_len}
use pktauth.Auth.Cipher.{Aes128}

module _ (aes : Aes128) where
  -- `Trunc80(AES(key, nonce || src || dst))`.
  unfoldable pub tag : List ℕ → List ℕ → Ipv4Addr → Ipv4Addr → Run (List ℕ)
  tag key nonce src dst = do
    with_nonce ← copy_from_slice (replicate 16 0) 0 8 nonce
    with_src ← copy_from_slice with_nonce 8 12 (octets src)
    message ← copy_from_slice with_src 12 16 (octets dst)
    let block = aes.encrypt_block key message
    front ← expect (slice block 0 tag_len)
    copy_from_slice (replicate 10 0) 0 10 front

  unfoldable pub assemble : Direction → List ℕ → Ipv4Addr → Ipv4Addr → Run (List ℕ)
  unfolding tag selector key
  assemble direction nonce src dst = do
    with_selector ← copy_from_slice (replicate 20 0) 0 2 (to_be_bytes 2 (selector direction))
    with_nonce ← copy_from_slice with_selector 2 10 nonce
    authenticator ← tag (key direction) nonce src dst
    copy_from_slice with_nonce 10 20 authenticator

  unfoldable pub mint_between : Direction → Ipv4Addr → Ipv4Addr → List ℕ → Run (List ℕ)
  mint_between direction src dst random = assemble direction random src dst

  unfoldable pub mint : Direction → Peers → List ℕ → Run (List ℕ)
  mint direction peers random =
      let (src, dst) = path direction peers in mint_between direction src dst random
