-- ===== src/Aead/Codec/Counter.antt =====
-- `be64` (ascon/sender/main/sender.c) writes the counter in big-endian order.
use esp_network_examples.Prelude.{
  ℕ, ◌+◌, ◌*◌, ◌/◌, ◌%◌, ◌^◌, ◌≤◌, ◌<◌, List, [], ◌∷◌, ◌++◌, some, ◌≡◌, refl, ap, arith, length,
  take, drop,
}
use esp_network_examples.Aead.Codec.{be64}

-- The value of bytes that stand in big-endian order.
pub big_endian : ℕ → List ℕ → ℕ
big_endian acc [] = acc
big_endian acc (b ∷ bs) = big_endian (acc * 256 + b) bs

-- The eight bytes of a counter.
abbrev pub counter_bytes : ℕ → List ℕ
counter_bytes x =
    (x / 72057594037927936 % 256)
    ∷ (x / 281474976710656 % 256)
    ∷ (x / 1099511627776 % 256)
    ∷ (x / 4294967296 % 256)
    ∷ (x / 16777216 % 256)
    ∷ (x / 65536 % 256)
    ∷ (x / 256 % 256)
    ∷ (x % 256)
    ∷ []

-- `be64` puts the bytes of the counter at the start of a buffer with room, and nothing else.
pub be64_lem :
    (buf : List ℕ) (x : ℕ) → 8 ≤ length buf → be64 buf x ≡ some (counter_bytes x ++ drop 8 buf)
unfolding be64
be64_lem [] x h = absurd (omega arith)
be64_lem (b0 ∷ []) x h = absurd (omega arith)
be64_lem (b0 ∷ b1 ∷ []) x h = absurd (omega arith)
be64_lem (b0 ∷ b1 ∷ b2 ∷ []) x h = absurd (omega arith)
be64_lem (b0 ∷ b1 ∷ b2 ∷ b3 ∷ []) x h = absurd (omega arith)
be64_lem (b0 ∷ b1 ∷ b2 ∷ b3 ∷ b4 ∷ []) x h = absurd (omega arith)
be64_lem (b0 ∷ b1 ∷ b2 ∷ b3 ∷ b4 ∷ b5 ∷ []) x h = absurd (omega arith)
be64_lem (b0 ∷ b1 ∷ b2 ∷ b3 ∷ b4 ∷ b5 ∷ b6 ∷ []) x h = absurd (omega arith)
be64_lem (b0 ∷ b1 ∷ b2 ∷ b3 ∷ b4 ∷ b5 ∷ b6 ∷ b7 ∷ rest) x h = ground arith

-- The eight bytes stand for the counter modulo 2 ^ 64, the range of `uint64_t`.
pub big_endian-counter_bytes : (x : ℕ) → big_endian 0 (counter_bytes x) ≡ x % 2 ^ 64
unfolding big_endian
big_endian-counter_bytes x = omega arith

-- Distinct counters have distinct bytes.
pub counter_bytes_inj :
    (x y : ℕ) → x < 2 ^ 64 → y < 2 ^ 64 → counter_bytes x ≡ counter_bytes y → x ≡ y
counter_bytes_inj x y hx hy h =
    omega (arith, big_endian-counter_bytes x, big_endian-counter_bytes y, ap (big_endian 0) h)

-- `be64` writes the counter to the first eight bytes of a buffer, most significant byte first, and
-- leaves the bytes behind them alone; reading the eight bytes gives the counter modulo 2 ^ 64.
pub big_endian-be64 :
    (buf : List ℕ) (x : ℕ)
    → 8 ≤ length buf
    → (out : List ℕ) × (be64 buf x ≡ some out)
      × (big_endian 0 (take 8 out) ≡ x % 2 ^ 64)
      × (drop 8 out ≡ drop 8 buf)
big_endian-be64 buf x h =
    (counter_bytes x ++ drop 8 buf, be64_lem buf x h, big_endian-counter_bytes x, refl)
