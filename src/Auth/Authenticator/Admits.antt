-- ===== src/Auth/Authenticator/Admits.antt =====
-- Which datagrams `check` admits, and that it always gives a verdict.
use pktauth.Base.{List, ℕ, ◌≡◌, ◌↔◌, refl, ◌∙◌, sym, none, some, done, ok, err}
use pktauth.Base.{Option-cases, inl, inr}
use pktauth.Base.Bytes.{AreBytes, AreBytes-left, AreBytes-right}
use pktauth.Net.{Ipv4Addr, IpAddr, v4, v6}
use pktauth.Auth.Direction.{not_quic, not_ipv4}
use pktauth.Auth.Cipher.{Aes128}
use pktauth.Auth.Verify.{Verdict, verify}
use pktauth.Auth.Verify.Accepts.{IsMinted, verify-ok_iff}
use pktauth.Auth.Verify.Rejects.{Reason, verify-Reason}
use pktauth.Auth.Cid.{destination_cid}
use pktauth.Auth.Cid.Format.{Carries, long, short, destination_cid_iff}
use pktauth.Auth.Authenticator.{Authenticator, check}

-- A connection ID in a datagram of bytes is bytes.
pub Carries-AreBytes :
    (datagram cid : List ℕ) → AreBytes datagram → Carries datagram cid → AreBytes cid
Carries-AreBytes datagram cid bytes (long flags version rest high v c e) =
    AreBytes-left cid rest (AreBytes-right version _ (rw e at bytes).1).1
Carries-AreBytes datagram cid bytes (short flags rest low c e) =
    AreBytes-left cid rest (rw e at bytes).1

-- Why a datagram gets its verdict.
pub data CheckReason (aes : Aes128) (a : Authenticator) (datagram : List ℕ) (src : IpAddr)
    (v : Verdict) : Type 0 where
  other_family :
      (octets : List ℕ)
      → src ≡ v6 octets
      → v ≡ err (not_ipv4 src)
      → CheckReason aes a datagram src v
  no_cid :
      (ip : Ipv4Addr)
      → src ≡ v4 ip
      → ((cid : List ℕ) → ¬ Carries datagram cid)
      → v ≡ err not_quic
      → CheckReason aes a datagram src v
  judged :
      (ip : Ipv4Addr) (cid : List ℕ)
      → src ≡ v4 ip
      → Carries datagram cid
      → Reason aes cid a.inbound ip a.local_ip v
      → CheckReason aes a datagram src v

module _ (aes : Aes128) (a : Authenticator) where
  pub check-verify :
      (datagram : List ℕ) (src : Ipv4Addr) {cid : List ℕ}
      → destination_cid datagram ≡ some cid
      → check aes a datagram (v4 src) ≡ verify aes cid a.inbound src a.local_ip
  unfolding check
  check-verify datagram src e = rw (e, check)

  check-not_quic :
      (datagram : List ℕ) (src : Ipv4Addr)
      → destination_cid datagram ≡ none
      → check aes a datagram (v4 src) ≡ done (err not_quic)
  unfolding check
  check-not_quic datagram src e = rw (e, check)

  admitted :
      (datagram : List ℕ) (src : Ipv4Addr)
      → AreBytes datagram
      → check aes a datagram (v4 src) ≡ done (ok tt)
      → (ip : Ipv4Addr) × (cid : List ℕ) × (v4 src ≡ v4 ip)
        × Carries datagram cid
        × IsMinted aes cid a.inbound ip a.local_ip
  admitted datagram src bytes e = elim (Option-cases (destination_cid datagram)) [
    | inl nothing ↦ cc (e, check-not_quic datagram src nothing)
    | inr (cid, found) ↦
        let carried : Carries datagram cid = (destination_cid_iff datagram cid bytes).0 found in
        let cid_bytes : AreBytes cid = Carries-AreBytes datagram cid bytes carried in
        let accepted : verify aes cid a.inbound src a.local_ip ≡ done (ok tt) =
          sym (check-verify datagram src found) ∙ e in
        let minted = (verify-ok_iff aes cid a.inbound src a.local_ip cid_bytes).0 accepted in
        (src, cid, refl, carried, minted)
  ]

  pub admits :
      (datagram cid : List ℕ) (src : Ipv4Addr)
      → AreBytes datagram
      → Carries datagram cid
      → IsMinted aes cid a.inbound src a.local_ip
      → check aes a datagram (v4 src) ≡ done (ok tt)
  admits datagram cid src bytes carried minted =
      check-verify datagram src ((destination_cid_iff datagram cid bytes).1 carried)
      ∙ (verify-ok_iff aes cid a.inbound src a.local_ip
            (Carries-AreBytes datagram cid bytes carried)).1
          minted

  -- `check` admits a datagram from `src` exactly when `src` is an IPv4 address and the datagram
  -- carries a connection ID that was minted for the authenticator's direction, from `src` to its
  -- own address.
  pub check-ok_iff :
      (datagram : List ℕ) (src : IpAddr)
      → AreBytes datagram
      → (check aes a datagram src ≡ done (ok tt)) ↔ (
          (ip : Ipv4Addr) × (cid : List ℕ) × (src ≡ v4 ip)
          × Carries datagram cid
          × IsMinted aes cid a.inbound ip a.local_ip)
  unfolding check
  check-ok_iff datagram (v6 octets) bytes = ((λ e. cc), λ m. cc (m.2))
  check-ok_iff datagram (v4 src) bytes = (
    admitted datagram src bytes,
    λ (ip, cid, same, carried, minted).
        let back : ip ≡ src = cc in admits datagram cid src bytes carried (rw back at minted),
  )

  -- `check` never panics: it gives a verdict on every datagram, and each verdict has its reason.
  pub check-CheckReason :
      (datagram : List ℕ) (src : IpAddr)
      → AreBytes datagram
      → (v : Verdict) × (check aes a datagram src ≡ done v) × CheckReason aes a datagram src v
  unfolding check
  check-CheckReason datagram (v6 octets) bytes =
      (err (not_ipv4 (v6 octets)), refl, other_family octets refl refl)
  check-CheckReason datagram (v4 src) bytes = elim (Option-cases (destination_cid datagram)) [
    | inl nothing ↦ (
      err not_quic,
      check-not_quic datagram src nothing,
      no_cid src refl (λ cid c. cc (nothing, (destination_cid_iff datagram cid bytes).1 c)) refl,
    )
    | inr (cid, found) ↦
        let carried : Carries datagram cid = (destination_cid_iff datagram cid bytes).0 found in
        let (v, e, reason) =
          verify-Reason aes cid a.inbound src a.local_ip
            (Carries-AreBytes datagram cid bytes carried) in
        (v, check-verify datagram src found ∙ e, judged src cid refl carried reason)
  ]
