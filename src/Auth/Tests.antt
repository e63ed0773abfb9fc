-- ===== src/Auth/Tests.antt =====
-- Runs of src/auth.rs on concrete addresses, under a stand-in for AES, and the theorems at them.
use pktauth.Base.{ℕ, List, [], ◌∷◌, ◌≡◌, ◌↔◌, refl, done, ok, err, some, none, length, arith}
use pktauth.Base.{take, drop}
use pktauth.Base.Bytes.{AreBytes}
use pktauth.Net.{Ipv4Addr, SocketAddr, v4, unspecified}
use pktauth.Auth.Direction.{client_to_server, server_to_client, wrong_direction, bad_tag}
use pktauth.Auth.Direction.{key, path, from_selector, unknown_selector, bad_length}
use pktauth.Auth.StandIn.{
  sum_cipher, alice, bob, server, peers, nonce, token, blind_token, with_token, with_blind_token,
}
use pktauth.Auth.Tag.{tag, assemble, mint_between, mint}
use mathlib.Core.List.{zip}
use pktauth.Auth.Verify.{
  Verdict, verify, with_fields, check_fields, check_tag, constant_time_eq, fold_differences,
}
use pktauth.Auth.Verify.Accepts.{IsMinted, verify-ok_iff}
use pktauth.Auth.Verify.Rejects.{Reason, verify-Reason}
use pktauth.Auth.Verify.Binding.{ByTag, verify-other_direction, verify-other_path}
use pktauth.Auth.Cid.{destination_cid}
use pktauth.Auth.Cid.Format.{Carries, long, short, destination_cid_iff}
use pktauth.Auth.Authenticator
use pktauth.Auth.Authenticator.{check}
use pktauth.Auth.Authenticator.Admits.{CheckReason, check-ok_iff, check-CheckReason}
use pktauth.Auth.Generator
use pktauth.Auth.Generator.{generate_cid, generate_cid_for, cid_len, initial_dst_cid_provider}
use pktauth.Auth.Generator.RoundTrip.{
  check-generate_cid_for, generate_cid_for_total, check-generate_cid,
}

assemble-token : assemble sum_cipher client_to_server nonce alice server ≡ done token
unfolding assemble
assemble-token = refl

verify-token : verify sum_cipher token client_to_server alice server ≡ done (ok tt)
unfolding verify with_fields check_fields check_tag tag key from_selector constant_time_eq
    fold_differences zip
verify-token = refl

verify_unknown :
    verify sum_cipher (0xbe ∷ 0xef ∷ drop 2 token) client_to_server alice server
    ≡ done (err (unknown_selector 0xbeef))
unfolding verify with_fields check_fields check_tag tag key from_selector constant_time_eq
    fold_differences zip
verify_unknown = refl

verify_short :
    verify sum_cipher (take 19 token) client_to_server alice server ≡ done (err (bad_length 19))
unfolding verify with_fields check_fields check_tag tag key from_selector constant_time_eq
    fold_differences zip
verify_short = refl

with_token-Carries : Carries with_token token
with_token-Carries = short 0x40 (0xaa ∷ 0xaa ∷ []) (omega arith) refl refl

with_blind_token-Carries : Carries with_blind_token blind_token
with_blind_token-Carries =
    long 0xc3 (0 ∷ 0 ∷ 0 ∷ 1 ∷ []) (0xaa ∷ []) (omega arith) refl (omega arith) refl

verify-ok_iff_example :
    (verify sum_cipher token client_to_server alice server ≡ done (ok tt))
    ↔ IsMinted sum_cipher token client_to_server alice server
verify-ok_iff_example = verify-ok_iff sum_cipher token client_to_server alice server (omega arith)

check-ok_iff_example :
    (check sum_cipher (Authenticator.new client_to_server server) with_token (v4 alice)
      ≡ done (ok tt))
    ↔ ((ip : Ipv4Addr) × (cid : List ℕ) × (v4 alice ≡ v4 ip)
        × Carries with_token cid
        × IsMinted sum_cipher cid client_to_server ip server)
check-ok_iff_example =
    check-ok_iff sum_cipher (Authenticator.new client_to_server server) with_token (v4 alice)
      (omega arith)

verify-other_direction_example :
    verify sum_cipher token server_to_client server alice ≡ done (err wrong_direction)
verify-other_direction_example =
    verify-other_direction sum_cipher token client_to_server server_to_client alice server server
      alice (omega arith) verify-token (λ e. cc)

verify-other_path_example :
    ByTag
      (tag sum_cipher (key client_to_server) nonce alice server)
      (tag sum_cipher (key client_to_server) nonce bob server)
      (verify sum_cipher token client_to_server bob server)
verify-other_path_example =
    verify-other_path sum_cipher client_to_server nonce token alice server bob server refl
      assemble-token

verify-bob : verify sum_cipher token client_to_server bob server ≡ done (err bad_tag)
unfolding verify with_fields check_fields check_tag tag key from_selector constant_time_eq
    fold_differences zip
verify-bob = refl

verify-Reason_example :
    (v : Verdict) × (verify sum_cipher (take 19 token) client_to_server alice server ≡ done v)
    × Reason sum_cipher (take 19 token) client_to_server alice server v
verify-Reason_example =
    verify-Reason sum_cipher (take 19 token) client_to_server alice server (omega arith)

check-CheckReason_example :
    (v : Verdict) × (check sum_cipher
        (Authenticator.new client_to_server server)
        (0x40 ∷ 0 ∷ [])
        (v4 bob)
      ≡ done v)
    × CheckReason sum_cipher (Authenticator.new client_to_server server) (0x40 ∷ 0 ∷ []) (v4 bob) v
check-CheckReason_example =
    check-CheckReason sum_cipher (Authenticator.new client_to_server server) (0x40 ∷ 0 ∷ [])
      (v4 bob) (omega arith)

destination_cid_iff_example :
    (destination_cid with_blind_token ≡ some blind_token) ↔ Carries with_blind_token blind_token
destination_cid_iff_example = destination_cid_iff with_blind_token blind_token (omega arith)

abbrev remote : SocketAddr
remote = record { ip = v4 alice; port = 4433 }

generated :
    generate_cid_for sum_cipher (Generator.new client_to_server server) remote none nonce
    ≡ done token
unfolding generate_cid_for mint_between assemble
generated = refl

generated_blind :
    generate_cid sum_cipher (Generator.new client_to_server server) nonce ≡ done blind_token
unfolding generate_cid mint_between assemble
generated_blind = refl

provided : initial_dst_cid_provider sum_cipher peers nonce ≡ done token
unfolding initial_dst_cid_provider mint mint_between assemble path
provided = refl

check-generate_cid_for_example :
    check sum_cipher (Authenticator.new client_to_server server) with_token (v4 alice)
    ≡ done (ok tt)
check-generate_cid_for_example =
    check-generate_cid_for sum_cipher client_to_server server alice 4433 none nonce token with_token
      refl generated (omega arith) with_token-Carries

generate_cid_for_total_example :
    (cid : List ℕ) × (generate_cid_for sum_cipher
        (Generator.new client_to_server server)
        remote
        none
        nonce
      ≡ done cid)
    × (length cid ≡ 20)
    × AreBytes cid
generate_cid_for_total_example =
    generate_cid_for_total sum_cipher client_to_server server remote none nonce refl (omega arith)

check-generate_cid_example :
    (check sum_cipher (Authenticator.new client_to_server server) with_blind_token (v4 unspecified)
      ≡ done (ok tt))
    × ByTag
        (tag sum_cipher (key client_to_server) nonce unspecified server)
        (tag sum_cipher (key client_to_server) nonce alice server)
        (check sum_cipher (Authenticator.new client_to_server server) with_blind_token (v4 alice))
check-generate_cid_example =
    check-generate_cid sum_cipher client_to_server server alice nonce blind_token with_blind_token
      refl generated_blind (omega arith) with_blind_token-Carries
