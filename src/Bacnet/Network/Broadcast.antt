-- ===== src/Bacnet/Network/Broadcast.antt =====
-- The broadcast address that backnet-sever/main/bip_init.c gives to the stack.
use esp_network_examples.Prelude.{ℕ, ◌-◌, ◌≤◌, ◌<◌, ◌≡◌, ap, ◌∙◌, arith, ◌==◌, if◌then◌else◌}
use Prim.Native.Nat.{min, max, bit_and}
use esp_network_examples.Prelude.Masks.{
  digit, digit-bit_and, digit-bit_or, digit-complement, digit_lt,
}
use esp_network_examples.Bacnet.Network.{invert, broadcast_addr}

-- A digit under the mask, or else 1.
choose : (a m : ℕ) → a < 2 → m < 2 → max (min a m) (1 - m) ≡ (if m == 1 then a else 1)
choose a m h k = ground arith

-- For any address and any mask of 32 bits: each of the 32 bits of the broadcast address is that of
-- the address where the mask has a 1, and is 1 where the mask has a 0.
pub broadcast_addr-digit :
    (ip mask i : ℕ)
    → mask ≤ 4294967295
    → i < 32
    → digit i (broadcast_addr ip mask) ≡ (if digit i mask == 1 then digit i ip else 1)
unfolding broadcast_addr
broadcast_addr-digit ip mask i h lt =
    digit-bit_or i (bit_and ip mask) (invert mask)
    ∙ ap (λ x. max x (digit i (invert mask))) (digit-bit_and i ip mask)
    ∙ ap (λ x. max (min (digit i ip) (digit i mask)) x) (digit-complement 32 i mask h lt)
    ∙ choose (digit i ip) (digit i mask) (digit_lt i ip) (digit_lt i mask)
