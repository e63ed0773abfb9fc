-- ===== src/Auth/Tag/Layout.antt =====
-- What `tag` and `assemble` write, as one concatenation, and what that determines.
use pktauth.Base.{ℕ, List, [], ◌++◌, ◌≡◌, refl, ap, sym, ◌∙◌}
use pktauth.Base.{done, copy_from_slice, copy_from_slice-append, replicate}
use pktauth.Base.{length, take, length-append, length-take, append_assoc, append-nil, arith}
use pktauth.Base.{slice-some, append_injective}
use pktauth.Base.Bytes.{to_be_bytes, AreBytes, to_be_bytes-AreBytes, AreBytes-append, AreBytes-take}
use pktauth.Net.{Ipv4Addr, octets, octets_injective}
use pktauth.Auth.Direction.{Direction, selector, key, length-key, tag_len}
use pktauth.Auth.Cipher.{Aes128}
use pktauth.Auth.Tag.{tag, assemble}

-- `M = nonce64 || src_ipv4 || dst_ipv4`.
abbrev pub message : List ℕ → Ipv4Addr → Ipv4Addr → List ℕ
message nonce src dst = nonce ++ (octets src ++ octets dst)

module _ (aes : Aes128) where
  -- The first ten bytes of the encrypted message.
  unfoldable pub tag_of : List ℕ → List ℕ → Ipv4Addr → Ipv4Addr → List ℕ
  tag_of key nonce src dst = take tag_len (aes.encrypt_block key (message nonce src dst))

  -- The three fields of a token.
  unfoldable pub token_of : Direction → List ℕ → Ipv4Addr → Ipv4Addr → List ℕ
  token_of d nonce src dst = to_be_bytes 2 (selector d) ++ (nonce ++ tag_of (key d) nonce src dst)

  pub length-message :
      (nonce : List ℕ) (src dst : Ipv4Addr) → length nonce ≡ 8 → length (message nonce src dst) ≡ 16
  length-message nonce src dst h = omega (arith, length-append nonce (octets src ++ octets dst))

  pub length-tag_of :
      (key nonce : List ℕ) (src dst : Ipv4Addr)
      → length key ≡ 16
      → length nonce ≡ 8
      → length (tag_of key nonce src dst) ≡ 10
  unfolding tag_of
  length-tag_of key nonce src dst k h = omega (
    arith,
    length-take 10 (aes.encrypt_block key (message nonce src dst)),
    aes.block_len key (message nonce src dst) k (length-message nonce src dst h),
  )

  -- Ten bytes written over ten are those ten.
  write_all :
      (bytes : List ℕ)
      → length bytes ≡ 10
      → copy_from_slice (replicate 10 0) 0 10 bytes ≡ done bytes
  write_all bytes h =
      copy_from_slice-append [] (replicate 10 0) [] bytes 0 10 refl refl h
      ∙ ap done (append-nil bytes)

  -- With a nonce of eight bytes `tag` does not panic and gives the front of the encrypted message.
  pub tag-tag_of :
      (key nonce : List ℕ) (src dst : Ipv4Addr)
      → length key ≡ 16
      → length nonce ≡ 8
      → tag aes key nonce src dst ≡ done (tag_of key nonce src dst)
  unfolding tag tag_of
  tag-tag_of key nonce src dst k h = rw (
    copy_from_slice-append [] (replicate 8 0) (replicate 8 0) nonce 0 8 refl refl h,
    copy_from_slice-append nonce (replicate 4 0) (replicate 4 0) (octets src) 8 12 h refl refl,
    last_part,
    slice-some (aes.encrypt_block key (message nonce src dst)) 0 10 (omega arith) (
        omega
          (arith, aes.block_len key (message nonce src dst) k (length-message nonce src dst h))),
    write_all (tag_of key nonce src dst) (length-tag_of key nonce src dst k h),
  )
    where
      last_part :
          copy_from_slice (nonce ++ (octets src ++ replicate 4 0)) 12 16 (octets dst)
          ≡ done (message nonce src dst)
      last_part =
          ap (λ m. copy_from_slice m 12 16 (octets dst))
            (sym (append_assoc nonce (octets src) (replicate 4 0)))
          ∙ copy_from_slice-append (nonce ++ octets src) (replicate 4 0) [] (octets dst) 12 16
              (omega (arith, length-append nonce (octets src))) refl refl
          ∙ ap done (append_assoc nonce (octets src) (octets dst))

  -- With a nonce of eight bytes `assemble` does not panic and writes the three fields in order.
  pub assemble-token_of :
      (d : Direction) (nonce : List ℕ) (src dst : Ipv4Addr)
      → length nonce ≡ 8
      → assemble aes d nonce src dst ≡ done (token_of d nonce src dst)
  unfolding assemble token_of
  assemble-token_of d nonce src dst h = rw (
    copy_from_slice-append sel (replicate 8 0) (replicate 10 0) nonce 2 10 refl refl h,
    tag-tag_of (key d) nonce src dst (length-key d) h,
    last_part,
  )
    where
      sel : List ℕ
      sel = to_be_bytes 2 (selector d)

      authenticator : List ℕ
      authenticator = tag_of (key d) nonce src dst

      last_part :
          copy_from_slice (sel ++ (nonce ++ replicate 10 0)) 10 20 authenticator
          ≡ done (sel ++ (nonce ++ authenticator))
      last_part =
          copy_from_slice-append (sel ++ nonce) (replicate 10 0) [] authenticator 10 20
            (omega arith) refl (length-tag_of (key d) nonce src dst (length-key d) h)
          ∙ ap (λ t. done (sel ++ (nonce ++ t))) (append-nil authenticator)

  pub length-token_of :
      (d : Direction) (nonce : List ℕ) (src dst : Ipv4Addr)
      → length nonce ≡ 8
      → length (token_of d nonce src dst) ≡ 20
  unfolding token_of
  length-token_of d nonce src dst h = omega (
    arith,
    length-append nonce (tag_of (key d) nonce src dst),
    length-tag_of (key d) nonce src dst (length-key d) h,
  )

  pub token_of-AreBytes :
      (d : Direction) (nonce : List ℕ) (src dst : Ipv4Addr)
      → AreBytes nonce
      → AreBytes (token_of d nonce src dst)
  unfolding token_of tag_of
  token_of-AreBytes d nonce src dst h =
      AreBytes-append (to_be_bytes 2 (selector d)) _ (to_be_bytes-AreBytes 2 (selector d)) (
        AreBytes-append nonce _ h
          (AreBytes-take 10 _ (aes.block_AreBytes (key d) (message nonce src dst))))

-- The message determines the nonce and both addresses.
pub message_injective :
    (nonce nonce' : List ℕ) (src src' dst dst' : Ipv4Addr)
    → length nonce ≡ length nonce'
    → message nonce src dst ≡ message nonce' src' dst'
    → (nonce ≡ nonce') × (src ≡ src') × (dst ≡ dst')
message_injective nonce nonce' src src' dst dst' h e =
    let (same_nonce, same_path) = append_injective nonce nonce' _ _ h e in
    let (same_src, same_dst) =
      append_injective (octets src) (octets src') (octets dst) (octets dst') refl same_path in
    (same_nonce, octets_injective src src' same_src, octets_injective dst dst' same_dst)
