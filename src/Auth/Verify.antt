-- ===== src/Auth/Verify.antt =====
-- src/auth.rs: `constant_time_eq` and `verify`.
pub mod Compare
pub mod Fields
pub mod Accepts
pub mod Rejects
pub mod Binding
use pktauth.Base.{ℕ, zero, List, [], ◌∷◌, Option, none, some, Bool, true, false, not, get_elem?}
use pktauth.Base.{Run, done, ◌>>=◌, expect, Result, ok, err, slice, length, ◌==◌, if◌then◌else◌}
use pktauth.Base.{◌+◌, bit_or, bit_xor}
use pktauth.Base.Bytes.{u16_from_be_bytes}
use pktauth.Net.{Ipv4Addr}
use pktauth.Auth.Direction.{
  Direction, AuthError, bad_length, unknown_selector, wrong_direction, bad_tag,
}
use pktauth.Auth.Direction.{key, from_selector, same_direction, token_len, selector_len, nonce_len}
use pktauth.Auth.Cipher.{Aes128}
use pktauth.Auth.Tag.{tag}
use mathlib.Core.List.{zip, foldl}

-- `a.iter().zip(b.iter()).fold(acc, |acc, (x, y)| acc | (x ^ y))`
unfoldable pub fold_differences : ℕ → List ℕ → List ℕ → ℕ
fold_differences acc a b = foldl (λ acc p. bit_or acc (bit_xor p.0 p.1)) acc (zip a b)

unfoldable pub constant_time_eq : List ℕ → List ℕ → Bool
constant_time_eq a b = if not (length a == length b) then false else fold_differences 0 a b == 0

abbrev pub Verdict : Type 0
Verdict = Result (Unit {0}) AuthError

module _ (aes : Aes128) where
  -- The end of `verify`: the tag is computed and compared.
  unfoldable pub check_tag : List ℕ → List ℕ → Direction → Ipv4Addr → Ipv4Addr → Run Verdict
  check_tag nonce claimed direction src dst = do
    expected ← tag aes (key direction) nonce src dst
    done (if constant_time_eq claimed expected then ok tt else err bad_tag)

  -- From the selector on, with the three fields at hand.
  unfoldable pub check_fields :
      List ℕ → List ℕ → List ℕ → Direction → Ipv4Addr → Ipv4Addr → Run Verdict
  check_fields selector_field nonce claimed direction src dst = do
    high ← expect (get_elem? selector_field 0)
    low ← expect (get_elem? selector_field 1)
    let selector = u16_from_be_bytes high low
    elim (from_selector selector) [
      | none ↦ done (err (unknown_selector selector))
      | some found ↦
          if not (same_direction found direction)
          then done (err wrong_direction)
          else check_tag nonce claimed direction src dst
    ]

  -- `let (Some(selector), Some(nonce), Some(claimed)) = … else { … }`
  unfoldable pub with_fields :
      List ℕ
      → Option (List ℕ)
      → Option (List ℕ)
      → Option (List ℕ)
      → Direction
      → Ipv4Addr
      → Ipv4Addr
      → Run Verdict
  with_fields token (some selector_field) (some nonce) (some claimed) direction src dst =
      check_fields selector_field nonce claimed direction src dst
  with_fields token _ _ _ direction src dst = done (err (bad_length (length token)))

  unfoldable pub verify : List ℕ → Direction → Ipv4Addr → Ipv4Addr → Run Verdict
  verify token direction src dst =
      if not (length token == token_len)
      then done (err (bad_length (length token)))
      else with_fields token (slice token 0 selector_len)
          (slice token selector_len (selector_len + nonce_len))
          (slice token (selector_len + nonce_len) token_len) direction src dst
