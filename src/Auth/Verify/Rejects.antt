-- ===== src/Auth/Verify/Rejects.antt =====
-- Why `verify` rejects, and what that says of tokens that are moved or altered.
use pktauth.Base.{ℕ, List, ◌∷◌, ◌++◌, ◌≡◌, ◌≢◌, refl, ◌∙◌, arith}
use pktauth.Base.{
  ◌⊎◌, length-append, take-append, drop-append, length, drop, take, ap, not, done, ok, err, Option,
  none, some, true, false,
}
use pktauth.Base.{if◌then◌else◌, ◌==◌, ==_iff, Bool-cases, inl, inr, ne→==}
use pktauth.Base.Bytes.{u16_from_be_bytes, AreBytes}
use pktauth.Net.{Ipv4Addr}
use pktauth.Auth.Direction.{Direction, client_to_server, server_to_client}
use pktauth.Auth.Direction.{bad_length, unknown_selector, wrong_direction, bad_tag}
use pktauth.Auth.Direction.{
  key, selector, length-key, from_selector, same_direction, from_selector-selector_iff,
}
use pktauth.Auth.Cipher.{Aes128}
use pktauth.Auth.Tag.{tag}
use pktauth.Auth.Tag.Layout.{tag_of, tag-tag_of}
use pktauth.Auth.Verify.{verify, constant_time_eq, Verdict}
use pktauth.Auth.Verify.Compare.{constant_time_eq_iff}
use pktauth.Auth.Verify.Fields.{Fields, fields, verdict_of, verify-verdict_of}
use pktauth.Auth.Verify.Accepts.{IsMinted, verify-ok_iff}

-- The selector field of a token, as a number; 0 on a token that is too short for one.
abbrev pub selector_field : List ℕ → ℕ
selector_field (high ∷ low ∷ rest) = u16_from_be_bytes high low
selector_field _ = 0

module _ (aes : Aes128) where
  -- What each verdict says of the token: the checks run in the order length, selector,
  -- direction, tag.
  pub data Reason (token : List ℕ) (d : Direction) (src dst : Ipv4Addr) (v : Verdict) : Type 0 where
    minted : IsMinted aes token d src dst → v ≡ ok tt → Reason token d src dst v
    wrong_size : length token ≢ 20 → v ≡ err (bad_length (length token)) → Reason token d src dst v
    no_direction :
        length token ≡ 20
        → ((any : Direction) → selector_field token ≢ selector any)
        → v ≡ err (unknown_selector (selector_field token))
        → Reason token d src dst v
    other_direction :
        (other : Direction)
        → length token ≡ 20
        → other ≢ d
        → selector_field token ≡ selector other
        → v ≡ err wrong_direction
        → Reason token d src dst v
    other_tag :
        length token ≡ 20
        → selector_field token ≡ selector d
        → tag aes (key d) (take 8 (drop 2 token)) src dst ≢ done (drop 10 token)
        → v ≡ err bad_tag
        → Reason token d src dst v

  verdict_unknown :
      (high low : ℕ) (nonce claimed : List ℕ) (d : Direction) (src dst : Ipv4Addr)
      → from_selector (u16_from_be_bytes high low) ≡ none
      → verdict_of aes high low nonce claimed d src dst
        ≡ err (unknown_selector (u16_from_be_bytes high low))
  unfolding verdict_of
  verdict_unknown high low nonce claimed d src dst e = ground arith

  verdict_known :
      (high low : ℕ) (nonce claimed : List ℕ) (d found : Direction) (src dst : Ipv4Addr)
      → from_selector (u16_from_be_bytes high low) ≡ some found
      → verdict_of aes high low nonce claimed d src dst ≡ (
          if not (same_direction found d)
          then err wrong_direction
          else if constant_time_eq claimed (tag_of aes (key d) nonce src dst)
          then ok tt
          else err bad_tag)
  unfolding verdict_of
  verdict_known high low nonce claimed d found src dst e = ground arith

  same_direction_cases :
      (found d : Direction)
      → ((found ≡ d) × (same_direction found d ≡ true))
        ⊎ ((found ≢ d) × (same_direction found d ≡ false))
  same_direction_cases client_to_server client_to_server = inl (refl, refl)
  same_direction_cases server_to_client server_to_client = inl (refl, refl)
  same_direction_cases client_to_server server_to_client = inr ((λ e. cc), refl)
  same_direction_cases server_to_client client_to_server = inr ((λ e. cc), refl)

  module _ (high low : ℕ) (nonce claimed : List ℕ) (d : Direction) (src dst : Ipv4Addr)
      (nonce_size : length nonce ≡ 8) (claimed_size : length claimed ≡ 10) where
    abbrev whole : List ℕ
    whole = high ∷ low ∷ (nonce ++ claimed)

    abbrev verdict : Verdict
    verdict = verdict_of aes high low nonce claimed d src dst

    length-whole : length whole ≡ 20
    length-whole = omega (arith, length-append nonce claimed)

    Reason-tag :
        AreBytes whole
        → from_selector (u16_from_be_bytes high low) ≡ some d
        → Reason whole d src dst verdict
    Reason-tag bytes known = elim (same_direction_cases d d) [
      | inr differs ↦ absurd (differs.0 refl)
      | inl own ↦ elim (Bool-cases (constant_time_eq claimed expected)) [
        | inl same ↦
            let accepted : verdict ≡ ok tt =
              verdict_known high low nonce claimed d d src dst known ∙ rw (own.1, same) in
            minted
              ((verify-ok_iff aes whole d src dst bytes).0 (
                verify-verdict_of aes high low nonce claimed d src dst nonce_size claimed_size
                ∙ ap done accepted))
              accepted
        | inr other ↦
            other_tag length-whole ((from_selector-selector_iff _ d).0 known)
              (λ e. cc (
                other,
                (constant_time_eq_iff claimed expected).1 (
                    cc (
                      e,
                      tag-tag_of aes (key d) nonce src dst (length-key d) nonce_size,
                      take-append nonce claimed 8 nonce_size,
                      drop-append nonce claimed 8 nonce_size,
                    )),
              ))
              (verdict_known high low nonce claimed d d src dst known ∙ rw (own.1, other))
      ]
    ]
      where
        expected : List ℕ
        expected = tag_of aes (key d) nonce src dst

    Reason-selector :
        AreBytes whole
        → (found : Option Direction) → from_selector (u16_from_be_bytes high low) ≡ found
        → Reason whole d src dst verdict
    Reason-selector bytes none e =
        no_direction length-whole (λ any same. cc (e, (from_selector-selector_iff _ any).1 same))
          (verdict_unknown high low nonce claimed d src dst e)
    Reason-selector bytes (some found) e = elim (same_direction_cases found d) [
      | inl same ↦ Reason-tag bytes (e ∙ ap some same.0)
      | inr differs ↦
          other_direction found length-whole differs.0 ((from_selector-selector_iff _ found).0 e)
            (verdict_known high low nonce claimed d found src dst e ∙ rw differs.1)
    ]

  verify-bad_length :
      (token : List ℕ) (d : Direction) (src dst : Ipv4Addr)
      → length token ≢ 20
      → verify aes token d src dst ≡ done (err (bad_length (length token)))
  unfolding verify
  verify-bad_length token d src dst h = rw (ne→== (length token) 20 h)

  -- `verify` never panics: it gives a verdict, and each verdict has its reason.
  pub verify-Reason :
      (token : List ℕ) (d : Direction) (src dst : Ipv4Addr)
      → AreBytes token
      → (v : Verdict) × (verify aes token d src dst ≡ done v) × Reason token d src dst v
  verify-Reason token d src dst bytes = elim (Bool-cases (length token == 20)) [
    | inr other ↦
        let size : length token ≢ 20 = ground arith in
        (
          err (bad_length (length token)),
          verify-bad_length token d src dst size,
          wrong_size size refl,
        )
    | inl same ↦
        let f : Fields token = fields token ((==_iff _ _).0 same) in
        rw f.parts (
          verdict_of aes f.high f.low f.nonce f.claimed d src dst,
          verify-verdict_of aes f.high f.low f.nonce f.claimed d src dst f.nonce_size
              f.claimed_size,
          Reason-selector f.high f.low f.nonce f.claimed d src dst f.nonce_size f.claimed_size
              (rw f.parts at bytes) _ refl,
        )
  ]
