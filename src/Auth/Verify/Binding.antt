-- ===== src/Auth/Verify/Binding.antt =====
-- What a token is bound to: its direction, its path and its nonce.
use pktauth.Base.{ℕ, List, ◌≡◌, ◌≢◌, refl, ◌∙◌, sym, subst, Run, ap, take, drop, length}
use pktauth.Base.{done, ok, err, take-append, Bool-cases, inl, inr, if◌then◌else◌}
use pktauth.Base.Bytes.{AreBytes}
use pktauth.Net.{Ipv4Addr}
use pktauth.Auth.Direction.{Direction, client_to_server, server_to_client, wrong_direction, bad_tag}
use pktauth.Auth.Direction.{key, selector, length-key, from_selector}
use pktauth.Auth.Cipher.{Aes128}
use pktauth.Auth.Tag.{tag, assemble}
use pktauth.Auth.Tag.Layout.{tag_of, tag-tag_of, token_of, assemble-token_of, length-tag_of}
use pktauth.Auth.Verify.{Verdict, verify, constant_time_eq}
use pktauth.Auth.Verify.Compare.{constant_time_eq_iff}
use pktauth.Auth.Verify.Fields.{verdict_of, verify-verdict_of}
use pktauth.Auth.Verify.Accepts.{verify-ok_iff}

-- The verdict on a minted token by the tag of its own path and the tag of the path it came by.
pub data ByTag (own other : Run (List ℕ)) : Run Verdict → Type 0 where
  one_tag : own ≡ other → ByTag own other (done (ok tt))
  two_tags : own ≢ other → ByTag own other (done (err bad_tag))

module _ (aes : Aes128) where
  token_of-other_direction :
      (d d' : Direction) (nonce : List ℕ) (src dst src' dst' : Ipv4Addr)
      → length nonce ≡ 8
      → d' ≢ d
      → verify aes (token_of aes d nonce src dst) d' src' dst' ≡ done (err wrong_direction)
  unfolding token_of selector
  token_of-other_direction client_to_server client_to_server nonce src dst src' dst' h ne =
      absurd (ne refl)
  token_of-other_direction server_to_client server_to_client nonce src dst src' dst' h ne =
      absurd (ne refl)
  token_of-other_direction client_to_server server_to_client nonce src dst src' dst' h ne =
      verify-verdict_of aes 0 1 nonce _ server_to_client src' dst' h
        (length-tag_of aes (key client_to_server) nonce src dst (length-key client_to_server) h)
      ∙ unfold verdict_of from_selector in refl
  token_of-other_direction server_to_client client_to_server nonce src dst src' dst' h ne =
      verify-verdict_of aes 0 2 nonce _ client_to_server src' dst' h
        (length-tag_of aes (key server_to_client) nonce src dst (length-key server_to_client) h)
      ∙ unfold verdict_of from_selector in refl

  -- A token accepted for one direction is refused, on any path, for the other.
  pub verify-other_direction :
      (token : List ℕ) (d d' : Direction) (src dst src' dst' : Ipv4Addr)
      → AreBytes token
      → verify aes token d src dst ≡ done (ok tt)
      → d' ≢ d
      → verify aes token d' src' dst' ≡ done (err wrong_direction)
  verify-other_direction token d d' src dst src' dst' bytes e ne =
      let (nonce, size, minted) = (verify-ok_iff aes token d src dst bytes).0 e in
      let same : token_of aes d nonce src dst ≡ token =
        cc (minted, assemble-token_of aes d nonce src dst size) in
      rw same at (token_of-other_direction d d' nonce src dst src' dst' size ne)

  token_of-other_path :
      (d : Direction) (nonce : List ℕ) (src dst src' dst' : Ipv4Addr)
      → length nonce ≡ 8
      → verify aes (token_of aes d nonce src dst) d src' dst'
        ≡ done (
            if constant_time_eq
              (tag_of aes (key d) nonce src dst)
              (tag_of aes (key d) nonce src' dst')
            then ok tt
            else err bad_tag)
  unfolding token_of selector
  token_of-other_path client_to_server nonce src dst src' dst' h =
      verify-verdict_of aes 0 1 nonce _ client_to_server src' dst' h
        (length-tag_of aes (key client_to_server) nonce src dst (length-key client_to_server) h)
      ∙ unfold verdict_of from_selector in refl
  token_of-other_path server_to_client nonce src dst src' dst' h =
      verify-verdict_of aes 0 2 nonce _ server_to_client src' dst' h
        (length-tag_of aes (key server_to_client) nonce src dst (length-key server_to_client) h)
      ∙ unfold verdict_of from_selector in refl

  -- A minted token on another path: it is accepted where the two paths have one tag under the
  -- token's nonce, and is refused for its tag where they have not.
  pub verify-other_path :
      (d : Direction) (nonce token : List ℕ) (src dst src' dst' : Ipv4Addr)
      → length nonce ≡ 8
      → assemble aes d nonce src dst ≡ done token
      → ByTag
          (tag aes (key d) nonce src dst)
          (tag aes (key d) nonce src' dst')
          (verify aes token d src' dst')
  verify-other_path d nonce token src dst src' dst' h e =
      elim (Bool-cases (constant_time_eq here there)) [
        | inl same ↦
            subst (ByTag _ _) (sym (judged ∙ rw same refl))
              (one_tag (tags ((constant_time_eq_iff here there).0 same)))
        | inr other ↦
            subst (ByTag _ _) (sym (judged ∙ rw other refl))
              (two_tags (λ same. cc (other, (constant_time_eq_iff here there).1 (untag same))))
      ]
    where
      here : List ℕ
      here = tag_of aes (key d) nonce src dst

      there : List ℕ
      there = tag_of aes (key d) nonce src' dst'

      tags : here ≡ there → tag aes (key d) nonce src dst ≡ tag aes (key d) nonce src' dst'
      tags same =
          tag-tag_of aes (key d) nonce src dst (length-key d) h
          ∙ ap done same
          ∙ sym (tag-tag_of aes (key d) nonce src' dst' (length-key d) h)

      untag : tag aes (key d) nonce src dst ≡ tag aes (key d) nonce src' dst' → here ≡ there
      untag same = cc (
        same,
        tag-tag_of aes (key d) nonce src dst (length-key d) h,
        tag-tag_of aes (key d) nonce src' dst' (length-key d) h,
      )

      judged :
          verify aes token d src' dst'
          ≡ done (if constant_time_eq here there then ok tt else err bad_tag)
      judged =
          let same : token_of aes d nonce src dst ≡ token =
            cc (e, assemble-token_of aes d nonce src dst h) in
          rw same at (token_of-other_path d nonce src dst src' dst' h)

  -- Two byte strings accepted for one direction and path are equal if their nonces are: no change
  -- outside the nonce goes unnoticed.
  verify-same_nonce :
      (token token' : List ℕ) (d : Direction) (src dst : Ipv4Addr)
      → AreBytes token
      → AreBytes token'
      → verify aes token d src dst ≡ done (ok tt)
      → verify aes token' d src dst ≡ done (ok tt)
      → take 8 (drop 2 token) ≡ take 8 (drop 2 token')
      → token ≡ token'
  verify-same_nonce token token' d src dst bytes bytes' e e' same =
      let (nonce, size, minted) = (verify-ok_iff aes token d src dst bytes).0 e in
      let (nonce', size', minted') = (verify-ok_iff aes token' d src dst bytes').0 e' in
      let left : token ≡ token_of aes d nonce src dst =
        cc (minted, assemble-token_of aes d nonce src dst size) in
      let right : token' ≡ token_of aes d nonce' src dst =
        cc (minted', assemble-token_of aes d nonce' src dst size') in
      let agree : nonce ≡ nonce' =
        cc (same, left, right, nonce_field nonce size, nonce_field nonce' size') in
      cc
    where
      nonce_field :
          (nonce : List ℕ)
          → length nonce ≡ 8
          → take 8 (drop 2 (token_of aes d nonce src dst)) ≡ nonce
      nonce_field nonce size =
          unfold token_of in take-append nonce (tag_of aes (key d) nonce src dst) 8 size
