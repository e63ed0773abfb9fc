-- ===== src/Socket/Recv/Delivered.antt =====
-- The packets that the first slots describe, and what a write to the next slot does to them.
use pktauth.Base.{
  ℕ, zero, suc, ◌<◌, ◌≤◌, List, [], ◌∷◌, ◌++◌, ◌≡◌, refl, ap, arith, length, take, set,
}
use pktauth.Net.{SocketAddr}
use pktauth.Socket.Recv.{RecvMeta}

-- A packet as Quinn is handed it.
pub record Packet : Type 0 where
  pub bytes : List ℕ
  pub from : SocketAddr

-- The packets in the first `n` slots: `len` bytes of each buffer, with the sender.
unfoldable pub delivered : ℕ → List (List ℕ) → List RecvMeta → List Packet
delivered zero bufs meta = []
delivered (suc n) [] meta = []
delivered (suc n) (buf ∷ bufs) [] = []
delivered (suc n) (buf ∷ bufs) (m ∷ meta) =
    record { bytes = take m.len buf; from = m.addr } ∷ delivered n bufs meta

-- A write at or behind slot `n` leaves the first `n` packets.
pub delivered-set_buf :
    (n i : ℕ) (bufs : List (List ℕ)) (meta : List RecvMeta) (buf : List ℕ)
    → n ≤ i
    → delivered n (set bufs i buf) meta ≡ delivered n bufs meta
unfolding delivered
delivered-set_buf zero i bufs meta buf h = refl
delivered-set_buf (suc n) i [] meta buf h = refl
delivered-set_buf (suc n) zero (b ∷ bufs) meta buf h = absurd (omega arith)
delivered-set_buf (suc n) (suc i) (b ∷ bufs) [] buf h = refl
delivered-set_buf (suc n) (suc i) (b ∷ bufs) (m ∷ meta) buf h =
    ap (λ t. record { bytes = take m.len b; from = m.addr } ∷ t)
      (delivered-set_buf n i bufs meta buf (omega arith))

-- A write of slot `n` adds one packet behind the first `n`.
pub delivered-set :
    (n : ℕ) (bufs : List (List ℕ)) (meta : List RecvMeta) (buf : List ℕ) (m : RecvMeta)
    → n < length bufs
    → n < length meta
    → delivered (suc n) (set bufs n buf) (set meta n m)
      ≡ delivered n bufs meta ++ (record { bytes = take m.len buf; from = m.addr } ∷ [])
unfolding delivered
delivered-set zero [] meta buf m h k = absurd (omega arith)
delivered-set zero (b ∷ bufs) [] buf m h k = absurd (omega arith)
delivered-set zero (b ∷ bufs) (m' ∷ meta) buf m h k = refl
delivered-set (suc n) [] meta buf m h k = absurd (omega arith)
delivered-set (suc n) (b ∷ bufs) [] buf m h k = absurd (omega arith)
delivered-set (suc n) (b ∷ bufs) (m' ∷ meta) buf m h k =
    ap (λ t. record { bytes = take m'.len b; from = m'.addr } ∷ t)
      (delivered-set n bufs meta buf m (omega arith) (omega arith))
