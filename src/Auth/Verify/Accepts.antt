-- ===== src/Auth/Verify/Accepts.antt =====
-- `verify` accepts exactly what `assemble` writes, and what acceptance pins down.
use pktauth.Base.{ℕ, List, [], ◌∷◌, ◌++◌, ◌≡◌, ◌↔◌, refl, ◌∙◌, sym, arith}
use pktauth.Base.{length, ap, ap₂, done, ok}
use pktauth.Base.{◌==◌, ==_iff, Bool-cases, inl, inr}
use pktauth.Base.Bytes.{IsByte, to_be_bytes, AreBytes}
use pktauth.Net.{Ipv4Addr}
use pktauth.Auth.Direction.{Direction, client_to_server, server_to_client}
use pktauth.Auth.Direction.{key, selector, length-key, from_selector}
use pktauth.Auth.Cipher.{Aes128}
use pktauth.Auth.Tag.{assemble}
use pktauth.Auth.Tag.Layout.{tag_of, token_of, assemble-token_of, length-tag_of}
use pktauth.Auth.Verify.{verify}
use pktauth.Auth.Verify.Compare.{constant_time_eq_iff}
use pktauth.Auth.Verify.Fields.{Fields, fields, verdict_of, verify-verdict_of}

module _ (aes : Aes128) where
  -- What `assemble` writes for the direction and the path, at some nonce.
  abbrev pub IsMinted : List ℕ → Direction → Ipv4Addr → Ipv4Addr → Type 0
  IsMinted token d src dst =
      (nonce : List ℕ) × (length nonce ≡ 8) × (assemble aes d nonce src dst ≡ done token)

  verdict_own :
      (d : Direction) (high low : ℕ) (nonce : List ℕ) (src dst : Ipv4Addr)
      → high ∷ low ∷ [] ≡ to_be_bytes 2 (selector d)
      → verdict_of aes high low nonce (tag_of aes (key d) nonce src dst) d src dst ≡ ok tt
  unfolding verdict_of from_selector selector
  verdict_own client_to_server high low nonce src dst e =
      ground
        (arith, (constant_time_eq_iff (tag_of aes (key client_to_server) nonce src dst) _).1 refl)
  verdict_own server_to_client high low nonce src dst e =
      ground
        (arith, (constant_time_eq_iff (tag_of aes (key server_to_client) nonce src dst) _).1 refl)

  pub verify-token_of :
      (d : Direction) (nonce : List ℕ) (src dst : Ipv4Addr)
      → length nonce ≡ 8
      → verify aes (token_of aes d nonce src dst) d src dst ≡ done (ok tt)
  unfolding token_of
  verify-token_of d nonce src dst h =
      verify-verdict_of aes _ _ nonce (tag_of aes (key d) nonce src dst) d src dst h
        (length-tag_of aes (key d) nonce src dst (length-key d) h)
      ∙ ap done (verdict_own d _ _ nonce src dst refl)

  -- A minted token verifies on its own path and direction.
  pub verify-assemble :
      (d : Direction) (nonce token : List ℕ) (src dst : Ipv4Addr)
      → length nonce ≡ 8
      → assemble aes d nonce src dst ≡ done token
      → verify aes token d src dst ≡ done (ok tt)
  verify-assemble d nonce token src dst h e =
      let same : token_of aes d nonce src dst ≡ token =
        cc (e, assemble-token_of aes d nonce src dst h) in
      rw same at (verify-token_of d nonce src dst h)

  verdict_ok :
      (high low : ℕ) (nonce claimed : List ℕ) (d : Direction) (src dst : Ipv4Addr)
      → IsByte high
      → IsByte low
      → verdict_of aes high low nonce claimed d src dst ≡ ok tt
      → (high ∷ low ∷ [] ≡ to_be_bytes 2 (selector d))
        × (claimed ≡ tag_of aes (key d) nonce src dst)
  unfolding verdict_of from_selector selector
  verdict_ok high low nonce claimed client_to_server src dst hh hl e =
      ground (arith, constant_time_eq_iff claimed (tag_of aes (key client_to_server) nonce src dst))
  verdict_ok high low nonce claimed server_to_client src dst hh hl e =
      ground (arith, constant_time_eq_iff claimed (tag_of aes (key server_to_client) nonce src dst))

  verify-length :
      (token : List ℕ) (d : Direction) (src dst : Ipv4Addr)
      → verify aes token d src dst ≡ done (ok tt)
      → length token ≡ 20
  unfolding verify
  verify-length token d src dst e = elim (Bool-cases (length token == 20)) [
    | inl same ↦ (==_iff _ _).0 same
    | inr other ↦ cc (rw other at e)
  ]

  verify_ok-IsMinted :
      (token : List ℕ) (d : Direction) (src dst : Ipv4Addr)
      → AreBytes token
      → verify aes token d src dst ≡ done (ok tt)
      → IsMinted token d src dst
  unfolding token_of
  verify_ok-IsMinted token d src dst bytes e =
      let f : Fields token = fields token (verify-length token d src dst e) in
      let bytes' : AreBytes (f.high ∷ f.low ∷ (f.nonce ++ f.claimed)) = rw f.parts at bytes in
      let e' : verify aes (f.high ∷ f.low ∷ (f.nonce ++ f.claimed)) d src dst ≡ done (ok tt) =
        rw f.parts at e in
      let judged =
        verify-verdict_of aes f.high f.low f.nonce f.claimed d src dst f.nonce_size
          f.claimed_size in
      let accepted : verdict_of aes f.high f.low f.nonce f.claimed d src dst ≡ ok tt = cc in
      let (own_selector, own_tag) =
        verdict_ok f.high f.low f.nonce f.claimed d src dst bytes'.0 bytes'.1.0 accepted in
      (
        f.nonce,
        f.nonce_size,
        assemble-token_of aes d f.nonce src dst f.nonce_size
            ∙ ap done (sym (f.parts ∙ ap₂ (λ a b. a ++ (f.nonce ++ b)) own_selector own_tag)),
      )

  -- `verify` accepts a string of bytes exactly when `assemble` writes it, for the same direction
  -- and path and some nonce of eight bytes.
  pub verify-ok_iff :
      (token : List ℕ) (d : Direction) (src dst : Ipv4Addr)
      → AreBytes token
      → (verify aes token d src dst ≡ done (ok tt)) ↔ IsMinted token d src dst
  verify-ok_iff token d src dst bytes =
      (verify_ok-IsMinted token d src dst bytes, λ m. verify-assemble d m.0 token src dst m.1 m.2)
