-- ===== src/Ping/Echo.antt =====
-- A ping and its echo.
use pktauth.Base.{ℕ, ◌≤◌, List, [], ◌∷◌, ◌++◌, map, ◌≡◌, ◌≢◌, refl, ap, ap₂, ◌∙◌, sym, arith}
use pktauth.Base.{
  true, ◌==◌, ==_iff, eq→==, Bool-cases, inl, inr, subst, Result-cases, done, Result, ok, err,
  length,
}
use pktauth.Socket.Counters.{ready}
use pktauth.Ping.Payload.{ping_payload, ping_payload-length}
use pktauth.Ping.Streams.{
  ConnectionError, application_closed, connection_closed, locally_closed, other,
}
use pktauth.Ping.Streams.{Error, connection, echo_mismatch, same_bytes}
use pktauth.Ping.Streams.{Stream, Opened, echo_stream, ping, serve_connection, max_ping_bytes}

same_bytes_refl : (xs : List ℕ) → same_bytes xs xs ≡ true
same_bytes_refl [] = refl
same_bytes_refl (x ∷ xs) = rw (eq→== x x refl, same_bytes_refl xs) refl

same_bytes-eq : (xs ys : List ℕ) → same_bytes xs ys ≡ true → xs ≡ ys
same_bytes-eq [] [] e = refl
same_bytes-eq [] (y ∷ ys) e = cc
same_bytes-eq (x ∷ xs) [] e = cc
same_bytes-eq (x ∷ xs) (y ∷ ys) e = elim (Bool-cases (x == y)) [
  | inl same ↦
      let rest : same_bytes xs ys ≡ true = ground arith in
      ap₂ (λ h t. h ∷ t) ((==_iff x y).0 same) (same_bytes-eq xs ys rest)
  | inr differs ↦ absurd (ground arith)
]

-- The ends of a ping on an open stream, with the reason of each.
pub data PingReason (stream : Opened) (payload : List ℕ) : Result (Unit {0}) Error → Type 0 where
  no_write : (e : Error) → stream.write_all payload ≡ err e → PingReason stream payload (err e)
  no_finish :
      (e : Error)
      → stream.write_all payload ≡ ok tt
      → stream.finish payload ≡ err e
      → PingReason stream payload (err e)
  no_read :
      (e : Error)
      → stream.finish payload ≡ ok tt
      → stream.read_to_end payload 65536 ≡ err e
      → PingReason stream payload (err e)
  mismatch :
      (echoed : List ℕ)
      → stream.read_to_end payload 65536 ≡ ok echoed
      → echoed ≢ payload
      → PingReason stream payload (err (echo_mismatch payload echoed))
  answered :
      stream.finish payload ≡ ok tt
      → stream.read_to_end payload 65536 ≡ ok payload
      → PingReason stream payload (ok tt)

-- `ping` on an open stream succeeds when the bytes read back are the payload, is a mismatch of the
-- two when they are others, and otherwise passes on the error of the first step that failed.
pub ping-PingReason :
    (stream : Opened) (payload : List ℕ) → PingReason stream payload (ping (ok stream) payload)
unfolding ping
ping-PingReason stream payload = elim (Result-cases (stream.write_all payload)) [
  | inr refused ↦ let (e, w) = refused in subst P (sym (rw w refl)) (no_write e w)
  | inl written ↦
      let (_, w) = written in
      elim (Result-cases (stream.finish payload)) [
        | inr refused ↦ let (e, f) = refused in subst P (sym (rw (w, f) refl)) (no_finish e w f)
        | inl finished ↦
            let (_, f) = finished in
            elim (Result-cases (stream.read_to_end payload max_ping_bytes)) [
              | inr refused ↦
                  let (e, r) = refused in subst P (sym (rw (w, f, r) refl)) (no_read e f r)
              | inl back ↦
                  let (echoed, r) = back in
                  elim (Bool-cases (same_bytes echoed payload)) [
                    | inl same ↦
                        let equal = same_bytes-eq echoed payload same in
                        subst P (sym (rw (w, f, r, same) refl)) (answered f (r ∙ ap ok equal))
                    | inr differs ↦ subst P (sym (rw (w, f, r, differs) refl)) (
                        mismatch echoed r (λ equal.
                          cc (
                            same_bytes_refl payload,
                            differs,
                            ap (λ t. same_bytes t payload) equal,
                          )))
                  ]
            ]
      ]
]
  where
    P : Result (Unit {0}) Error → Type 0
    P = PingReason stream payload

-- A stream between two ends that loses nothing: what one end writes and finishes, the other reads
-- to its end where its limit allows.
pub record IsFaithful (payload : List ℕ) (near : Opened) (far : Stream) : Type 0 where
  pub near_write : near.write_all payload ≡ ok tt
  pub near_finish : near.finish payload ≡ ok tt
  pub far_read : (limit : ℕ) → length payload ≤ limit → far.read_to_end limit ≡ ok payload
  pub far_write : (bytes : List ℕ) → far.write_all bytes ≡ ok tt
  pub far_finish : (bytes : List ℕ) → far.finish bytes ≡ ok tt
  pub near_read :
      (limit : ℕ) (sent : List ℕ)
      → echo_stream far ≡ ok sent
      → length sent ≤ limit
      → near.read_to_end payload limit ≡ ok sent

-- A ping payload of a size that the client allows, over a stream that loses nothing, served by
-- `echo_stream`: the payload is echoed whole and `ping` succeeds.
pub ping-echo_stream :
    (seq size : ℕ) (payload : List ℕ) (near : Opened) (far : Stream)
    → ping_payload seq size ≡ done payload
    → size ≤ max_ping_bytes
    → IsFaithful payload near far
    → (echo_stream far ≡ ok payload) × (ping (ok near) payload ≡ ok tt)
unfolding ping echo_stream
ping-echo_stream seq size payload near far made allowed faithful =
    let (bytes, made', sized) = ping_payload-length seq size in
    let equal : bytes ≡ payload = cc (made, made') in
    let fits : length payload ≤ 65536 = omega (arith, ap length equal) in
    let served : echo_stream far ≡ ok payload =
      rw
        (
          echo_stream,
          faithful.far_read 65536 fits,
          faithful.far_write payload,
          faithful.far_finish payload,
        )
        refl in
    let back = faithful.near_read 65536 payload served fits in
    (served, rw (faithful.near_write, faithful.near_finish, back, same_bytes_refl payload) refl)

-- The end of service that an error of `accept_bi` is.
pub data Ending : ConnectionError → Result (Unit {0}) Error → Type 0 where
  by_application : Ending application_closed (ok tt)
  by_peer : Ending connection_closed (ok tt)
  by_us : Ending locally_closed (ok tt)
  by_failure : Ending other (err (connection other))

-- `serve_connection` spawns an echo of each stream that came before the first error, in order, and
-- ends at that error: as a success on the three ways of closing, and with the error on any other.
pub serve_connection-Ending :
    (streams : List Stream) (e : ConnectionError) (rest : List (Result Stream ConnectionError))
    → (answer : Result (Unit {0}) Error) × (serve_connection (map ok streams ++ (err e ∷ rest))
        ≡ (ready answer, streams))
      × Ending e answer
unfolding serve_connection
serve_connection-Ending [] application_closed rest = (ok tt, refl, by_application)
serve_connection-Ending [] connection_closed rest = (ok tt, refl, by_peer)
serve_connection-Ending [] locally_closed rest = (ok tt, refl, by_us)
serve_connection-Ending [] other rest = (err (connection other), refl, by_failure)
serve_connection-Ending (stream ∷ streams) e rest =
    let (answer, same, ending) = serve_connection-Ending streams e rest in
    (answer, rw same refl, ending)
