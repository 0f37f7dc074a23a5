-- ===== src/Prelude/Bits.antt =====
-- Exclusive or at variables: it cancels, and it keeps a byte a byte.
use Prim.Native.Nat.{
  ℕ, zero, suc, ◌+◌, ◌*◌, ◌/◌, ◌%◌, ◌≤◌, ◌<◌, bit_xor, differ, digits, bit_xor-bitwise,
}
use mathlib.Core.Path.{◌≡◌, refl, sym, ap, ◌∙◌}
use native.Mathlib.Decide.{dec_le}
use native.Mathlib.Omega.{arith}

-- Exclusive or of the digits, for so many digits of the first number.
abbrev xor_digits : ℕ → ℕ → ℕ → ℕ
xor_digits rounds x y = digits (λ low. low) differ rounds x y

-- A round more than the first number needs changes nothing.
xor_digits_spare :
    (rounds x y : ℕ) → x ≤ rounds → xor_digits (suc rounds) x y ≡ xor_digits rounds x y
xor_digits_spare zero zero y few = refl
xor_digits_spare zero (suc x) y few = absurd (omega arith)
xor_digits_spare (suc rounds) zero y few = refl
xor_digits_spare (suc rounds) (suc x) y few =
    let halves = xor_digits_spare rounds (suc x / 2) (y / 2) (omega arith) in
    ap (λ (t : ℕ). t * 2 + differ (suc x % 2) (y % 2)) halves

xor_digits_enough : (rounds x y : ℕ) → x ≤ rounds → xor_digits rounds x y ≡ bit_xor x y
xor_digits_enough zero zero y few = sym (bit_xor-bitwise 0 y)
xor_digits_enough zero (suc x) y few = absurd (omega arith)
xor_digits_enough (suc rounds) x y few = elim (dec_le x rounds) [
  | yes less ↦ xor_digits_spare rounds x y less ∙ xor_digits_enough rounds x y less
  | no more ↦
      let all : suc rounds ≡ x = omega arith in
      ap (λ (t : ℕ). xor_digits t x y) all ∙ sym (bit_xor-bitwise x y)
]

zero-bit_xor : (y : ℕ) → bit_xor 0 y ≡ y
zero-bit_xor y = bit_xor-bitwise 0 y

-- One digit of an exclusive or.
bit_xor_step : (x y : ℕ) → bit_xor x y ≡ bit_xor (x / 2) (y / 2) * 2 + differ (x % 2) (y % 2)
bit_xor_step zero y = omega (arith, zero-bit_xor y, zero-bit_xor (y / 2))
bit_xor_step (suc x) y =
    bit_xor-bitwise (suc x) y
    ∙ ap (λ (t : ℕ). t * 2 + differ (suc x % 2) (y % 2))
        (xor_digits_enough x (suc x / 2) (y / 2) (omega arith))

differ_lt : (p q : ℕ) → p < 2 → q < 2 → differ p q < 2
differ_lt zero q h k = k
differ_lt (suc zero) zero h k = omega arith
differ_lt (suc zero) (suc q) h k = omega arith
differ_lt (suc (suc p)) q h k = absurd (omega arith)

differ_cancel : (p q : ℕ) → p < 2 → q < 2 → differ (differ p q) q ≡ p
differ_cancel zero zero h k = refl
differ_cancel zero (suc zero) h k = refl
differ_cancel zero (suc (suc q)) h k = absurd (omega arith)
differ_cancel (suc zero) zero h k = refl
differ_cancel (suc zero) (suc zero) h k = refl
differ_cancel (suc zero) (suc (suc q)) h k = absurd (omega arith)
differ_cancel (suc (suc p)) q h k = absurd (omega arith)

differ-zero : (p : ℕ) → differ p 0 ≡ p
differ-zero zero = refl
differ-zero (suc p) = refl

differ_comm : (p q : ℕ) → differ p q ≡ differ q p
differ_comm zero zero = refl
differ_comm zero (suc q) = refl
differ_comm (suc p) zero = refl
differ_comm (suc p) (suc q) = differ_comm p q

bit_xor-half : (a b : ℕ) → bit_xor a b / 2 ≡ bit_xor (a / 2) (b / 2)
bit_xor-half a b =
    omega (arith, bit_xor_step a b, differ_lt (a % 2) (b % 2) (omega arith) (omega arith))

bit_xor-low : (a b : ℕ) → bit_xor a b % 2 ≡ differ (a % 2) (b % 2)
bit_xor-low a b =
    omega (arith, bit_xor_step a b, differ_lt (a % 2) (b % 2) (omega arith) (omega arith))

-- Two numbers with the same half and the same low digit are equal.
halves_eq : (a b : ℕ) → a / 2 ≡ b / 2 → a % 2 ≡ b % 2 → a ≡ b
halves_eq a b h k = omega arith

cancel_fuel : (n a b : ℕ) → a ≤ n → b ≤ n → bit_xor (bit_xor a b) b ≡ a
cancel_fuel zero zero zero h k = refl
cancel_fuel zero zero (suc b) h k = absurd (omega arith)
cancel_fuel zero (suc a) b h k = absurd (omega arith)
cancel_fuel (suc n) a b h k =
    halves_eq _ a
      (bit_xor-half (bit_xor a b) b
        ∙ rw (bit_xor-half a b) (cancel_fuel n (a / 2) (b / 2) (omega arith) (omega arith)))
      (bit_xor-low (bit_xor a b) b
        ∙ rw (bit_xor-low a b) (differ_cancel (a % 2) (b % 2) (omega arith) (omega arith)))

comm_fuel : (n a b : ℕ) → a ≤ n → b ≤ n → bit_xor a b ≡ bit_xor b a
comm_fuel zero zero zero h k = refl
comm_fuel zero zero (suc b) h k = absurd (omega arith)
comm_fuel zero (suc a) b h k = absurd (omega arith)
comm_fuel (suc n) a b h k =
    halves_eq _ _
      (bit_xor-half a b
        ∙ comm_fuel n (a / 2) (b / 2) (omega arith) (omega arith)
        ∙ sym (bit_xor-half b a))
      (bit_xor-low a b ∙ differ_comm (a % 2) (b % 2) ∙ sym (bit_xor-low b a))

differ_right_comm :
    (p q r : ℕ) → p < 2 → q < 2 → r < 2 → differ (differ p q) r ≡ differ (differ p r) q
differ_right_comm zero q r h k l = differ_comm q r
differ_right_comm (suc zero) zero r h k l = rw (differ-zero (differ 1 r))
differ_right_comm (suc zero) (suc zero) zero h k l = refl
differ_right_comm (suc zero) (suc zero) (suc zero) h k l = refl
differ_right_comm (suc zero) (suc zero) (suc (suc r)) h k l = absurd (omega arith)
differ_right_comm (suc zero) (suc (suc q)) r h k l = absurd (omega arith)
differ_right_comm (suc (suc p)) q r h k l = absurd (omega arith)

right_comm_fuel :
    (n a b c : ℕ) → a ≤ n → b ≤ n → c ≤ n → bit_xor (bit_xor a b) c ≡ bit_xor (bit_xor a c) b
right_comm_fuel zero zero zero zero h k l = refl
right_comm_fuel zero zero zero (suc c) h k l = absurd (omega arith)
right_comm_fuel zero zero (suc b) c h k l = absurd (omega arith)
right_comm_fuel zero (suc a) b c h k l = absurd (omega arith)
right_comm_fuel (suc n) a b c h k l =
    halves_eq _ _
      (bit_xor-half (bit_xor a b) c
        ∙ rw (bit_xor-half a b, bit_xor-half (bit_xor a c) b, bit_xor-half a c)
            (right_comm_fuel n (a / 2) (b / 2) (c / 2) (omega arith) (omega arith) (omega arith)))
      (bit_xor-low (bit_xor a b) c
        ∙ rw (bit_xor-low a b, bit_xor-low (bit_xor a c) b, bit_xor-low a c)
            (differ_right_comm (a % 2) (b % 2) (c % 2) (omega arith) (omega arith) (omega arith)))

-- `a ^ b ^ c` is `a ^ c ^ b`.
pub bit_xor_right_comm : (a b c : ℕ) → bit_xor (bit_xor a b) c ≡ bit_xor (bit_xor a c) b
bit_xor_right_comm a b c =
    right_comm_fuel (a + b + c) a b c (omega arith) (omega arith) (omega arith)

-- `a ^ b ^ b` is `a`.
pub bit_xor_cancel : (a b : ℕ) → bit_xor (bit_xor a b) b ≡ a
bit_xor_cancel a b = cancel_fuel (a + b) a b (omega arith) (omega arith)

pub bit_xor_comm : (a b : ℕ) → bit_xor a b ≡ bit_xor b a
bit_xor_comm a b = comm_fuel (a + b) a b (omega arith) (omega arith)

-- An exclusive or tells its arguments apart, on either side.
pub bit_xor_inj_left : (a b c : ℕ) → bit_xor a c ≡ bit_xor b c → a ≡ b
bit_xor_inj_left a b c h =
    sym (bit_xor_cancel a c) ∙ ap (λ (t : ℕ). bit_xor t c) h ∙ bit_xor_cancel b c

pub bit_xor_inj_right : (a b c : ℕ) → bit_xor c a ≡ bit_xor c b → a ≡ b
bit_xor_inj_right a b c h = bit_xor_inj_left a b c (bit_xor_comm a c ∙ h ∙ bit_xor_comm c b)
