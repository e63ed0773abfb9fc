-- ===== src/Blaster/Rng.antt =====
-- src/bin/blaster.rs: `SplitMix64`. Words are below 2 ^ 64, and the arithmetic wraps there.
pub mod Words
use pktauth.Base.{ℕ, ◌+◌, ◌*◌, ◌/◌, ◌%◌, ◌^◌, bit_xor}

pub record SplitMix64 : Type 0 where
  pub state : ℕ

abbrev pub wrapping_add : ℕ → ℕ → ℕ
wrapping_add a b = (a + b) % 2 ^ 64

abbrev pub wrapping_mul : ℕ → ℕ → ℕ
wrapping_mul a b = a * b % 2 ^ 64

-- The next word, and the generator after it.
unfoldable pub next : SplitMix64 → ℕ × SplitMix64
next rng =
    let state = wrapping_add rng.state 0x9e3779b97f4a7c15 in
    let z = wrapping_mul (bit_xor state (state / 2 ^ 30)) 0xbf58476d1ce4e5b9 in
    let z' = wrapping_mul (bit_xor z (z / 2 ^ 27)) 0x94d049bb133111eb in
    (bit_xor z' (z' / 2 ^ 31), record { state = state })
