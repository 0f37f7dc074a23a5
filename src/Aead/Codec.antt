-- ===== src/Aead/Codec.antt =====
-- The byte encodings of the demo: `be64` of ascon/sender/main/sender.c, and `bytes_to_hex`, which
-- sender.c and ascon/receiver/main/receiver.c both hold.
pub mod Counter
pub mod Hex
use esp_network_examples.Prelude.{
  ℕ, zero, suc, ◌+◌, ◌*◌, ◌/◌, ◌%◌, List, [], ◌∷◌, Option, none, some, ◌>>=◌, ltb, if◌then◌else◌,
  codes, length, get_elem?, store,
}

-- `for (int i = 7; i >= 0; --i) { out[i] = (uint8_t)(x & 0xFF); x >>= 8; }`: the argument is the
-- number of rounds that are left, `i + 1`.
unfoldable pub be64_loop : ℕ → List ℕ → ℕ → Option (List ℕ)
be64_loop zero out x = some out
be64_loop (suc i) out x = do out' ← store out i (x % 256); be64_loop i out' (x / 256)

unfoldable pub be64 : List ℕ → ℕ → Option (List ℕ)
unfolding be64_loop
be64 out x = be64_loop 8 out x

abbrev pub hex : List ℕ
hex = codes "0123456789abcdef"

-- Two digits for each byte of `in`, from `out[2 * i]` on, and a NUL behind them.
unfoldable pub hex_loop : ℕ → List ℕ → List ℕ → Option (List ℕ)
hex_loop i [] out = store out (2 * i) 0
hex_loop i (b ∷ bs) out = do
  high ← get_elem? hex (b / 16 % 16)
  out' ← store out (2 * i) high
  low ← get_elem? hex (b % 16)
  out'' ← store out' (2 * i + 1) low
  hex_loop (suc i) bs out''

-- Too small a buffer is left as it is.
unfoldable pub bytes_to_hex : List ℕ → List ℕ → ℕ → Option (List ℕ)
unfolding hex_loop
bytes_to_hex bytes out outlen =
    if ltb outlen (length bytes * 2 + 1) then some out else hex_loop 0 bytes out
