-- ===== src/Auth/Cipher.antt =====
-- AES-128 comes from the `aes` crate, so it is a parameter: one block encryption, with the two
-- facts about its type, `[u8; 16]` under a key `[u8; 16]`, that the code relies on.
use pktauth.Base.{ℕ, List, ◌≡◌, length}
use pktauth.Base.Bytes.{AreBytes}

pub record Aes128 : Type 0 where
  pub encrypt_block : List ℕ → List ℕ → List ℕ
  pub block_len :
      (key block : List ℕ)
      → length key ≡ 16
      → length block ≡ 16
      → length (encrypt_block key block) ≡ 16
  pub block_AreBytes : (key block : List ℕ) → AreBytes (encrypt_block key block)
