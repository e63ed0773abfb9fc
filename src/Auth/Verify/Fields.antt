-- ===== src/Auth/Verify/Fields.antt =====
-- A token of the right length as its three fields, and `verify` on them.
use pktauth.Base.{ℕ, List, [], ◌∷◌, ◌++◌, ◌≡◌, refl, ◌∙◌, sym, arith}
use pktauth.Base.{
  length, take, drop, slice, slice-append, take-append-drop, length-take, length-drop,
}
use pktauth.Base.{append-nil, ap, not, done, ok, err, eq→==, none, some}
use pktauth.Base.{if◌then◌else◌, length-append}
use pktauth.Base.Bytes.{u16_from_be_bytes}
use pktauth.Net.{Ipv4Addr}
use pktauth.Auth.Direction.{Direction, unknown_selector, wrong_direction, bad_tag}
use pktauth.Auth.Direction.{key, length-key, from_selector, same_direction}
use pktauth.Auth.Cipher.{Aes128}
use pktauth.Auth.Tag.Layout.{tag_of, tag-tag_of}
use pktauth.Auth.Verify.{verify, with_fields, check_fields, check_tag, constant_time_eq, Verdict}

-- The fields of a token of twenty bytes.
pub record Fields (token : List ℕ) : Type 0 where
  pub high : ℕ
  pub low : ℕ
  pub nonce : List ℕ
  pub claimed : List ℕ
  pub nonce_size : length nonce ≡ 8
  pub claimed_size : length claimed ≡ 10
  pub parts : token ≡ high ∷ low ∷ (nonce ++ claimed)

pub fields : (token : List ℕ) → length token ≡ 20 → Fields token
fields [] h = absurd (omega arith)
fields (x ∷ []) h = absurd (omega arith)
fields (x ∷ y ∷ rest) h = record {
  high = x;
  low = y;
  nonce = take 8 rest;
  claimed = drop 8 rest;
  nonce_size = omega (arith, length-take 8 rest);
  claimed_size = omega (arith, length-drop 8 rest);
  parts = ap (λ r. x ∷ y ∷ r) (sym (take-append-drop 8 rest));
}

module _ (aes : Aes128) where
  -- The verdict on a token's fields.
  unfoldable pub verdict_of : ℕ → ℕ → List ℕ → List ℕ → Direction → Ipv4Addr → Ipv4Addr → Verdict
  verdict_of high low nonce claimed direction src dst =
      elim (from_selector (u16_from_be_bytes high low)) [
        | none ↦ err (unknown_selector (u16_from_be_bytes high low))
        | some found ↦
            if not (same_direction found direction)
            then err wrong_direction
            else if constant_time_eq claimed (tag_of aes (key direction) nonce src dst)
            then ok tt
            else err bad_tag
      ]

  check_fields-verdict_of :
      (high low : ℕ) (nonce claimed : List ℕ) (d : Direction) (src dst : Ipv4Addr)
      → length nonce ≡ 8
      → check_fields aes (high ∷ low ∷ []) nonce claimed d src dst
        ≡ done (verdict_of high low nonce claimed d src dst)
  unfolding check_fields check_tag verdict_of
  check_fields-verdict_of high low nonce claimed d src dst h =
      ground (arith, tag-tag_of aes (key d) nonce src dst (length-key d) h)

  -- On twenty bytes `verify` does not panic and gives the verdict on the fields.
  pub verify-verdict_of :
      (high low : ℕ) (nonce claimed : List ℕ) (d : Direction) (src dst : Ipv4Addr)
      → length nonce ≡ 8
      → length claimed ≡ 10
      → verify aes (high ∷ low ∷ (nonce ++ claimed)) d src dst
        ≡ done (verdict_of high low nonce claimed d src dst)
  unfolding verify with_fields
  verify-verdict_of high low nonce claimed d src dst h k =
      rw
        (
          eq→== (length (high ∷ low ∷ (nonce ++ claimed))) 20
              (omega (arith, length-append nonce claimed)),
          slice-append [] (high ∷ low ∷ []) (nonce ++ claimed) 0 2 refl refl,
          slice-append (high ∷ low ∷ []) nonce claimed 2 10 refl (omega arith),
          last_slice,
        )
        (check_fields-verdict_of high low nonce claimed d src dst h)
    where
      last_slice : slice (high ∷ low ∷ (nonce ++ claimed)) 10 20 ≡ some claimed
      last_slice =
          ap (λ t. slice (high ∷ low ∷ (nonce ++ t)) 10 20) (sym (append-nil claimed))
          ∙ slice-append (high ∷ low ∷ nonce) claimed [] 10 20 (omega arith) (omega arith)
