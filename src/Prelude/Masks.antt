-- ===== src/Prelude/Masks.antt =====
-- And, or and complement of binary digits.
use Prim.Native.Nat.{
  ℕ, zero, suc, ◌+◌, ◌*◌, ◌-◌, ◌/◌, ◌%◌, ◌≤◌, ◌<◌, min, max, bit_and, bit_or, digits,
  bit_and-bitwise, bit_or-bitwise,
}
use mathlib.Core.Path.{◌≡◌, refl, sym, ap, ◌∙◌}
use native.Mathlib.Decide.{dec_le}
use native.Mathlib.Omega.{arith}

-- A digit of a number, from the lowest on.
abbrev pub digit : ℕ → ℕ → ℕ
digit zero x = x % 2
digit (suc i) x = digit i (x / 2)

-- The number of so many digits, all of them 1.
abbrev pub all_ones : ℕ → ℕ
all_ones zero = 0
all_ones (suc w) = all_ones w * 2 + 1

-- An operation by its digits: for so many of the first number, and what is left of the second.
module _ (left : ℕ → ℕ) (f : ℕ → ℕ → ℕ)
    (even : (y : ℕ) → left y ≡ left (y / 2) * 2 + f 0 (y % 2)) where
  spare : (rounds x y : ℕ) → x ≤ rounds → digits left f (suc rounds) x y ≡ digits left f rounds x y
  spare zero zero y few = refl
  spare zero (suc x) y few = absurd (omega arith)
  spare (suc rounds) zero y few = refl
  spare (suc rounds) (suc x) y few =
      let halves = spare rounds (suc x / 2) (y / 2) (omega arith) in
      ap (λ (t : ℕ). t * 2 + f (suc x % 2) (y % 2)) halves

  enough : (rounds x y : ℕ) → x ≤ rounds → digits left f rounds x y ≡ digits left f x x y
  enough zero zero y few = refl
  enough zero (suc x) y few = absurd (omega arith)
  enough (suc rounds) x y few = elim (dec_le x rounds) [
    | yes less ↦ spare rounds x y less ∙ enough rounds x y less
    | no more ↦ let all : suc rounds ≡ x = omega arith in ap (λ (t : ℕ). digits left f t x y) all
  ]

  digits_step :
      (x y : ℕ)
      → digits left f x x y ≡ digits left f (x / 2) (x / 2) (y / 2) * 2 + f (x % 2) (y % 2)
  digits_step zero y = even y
  digits_step (suc x) y =
      ap (λ (t : ℕ). t * 2 + f (suc x % 2) (y % 2)) (enough x (suc x / 2) (y / 2) (omega arith))

bit_and_step : (x y : ℕ) → bit_and x y ≡ bit_and (x / 2) (y / 2) * 2 + min (x % 2) (y % 2)
bit_and_step x y =
    bit_and-bitwise x y
    ∙ digits_step (λ b. 0) min (λ y. omega arith) x y
    ∙ ap (λ (t : ℕ). t * 2 + min (x % 2) (y % 2)) (sym (bit_and-bitwise (x / 2) (y / 2)))

bit_or_step : (x y : ℕ) → bit_or x y ≡ bit_or (x / 2) (y / 2) * 2 + max (x % 2) (y % 2)
bit_or_step x y =
    bit_or-bitwise x y
    ∙ digits_step (λ b. b) max (λ y. omega arith) x y
    ∙ ap (λ (t : ℕ). t * 2 + max (x % 2) (y % 2)) (sym (bit_or-bitwise (x / 2) (y / 2)))

bit_and-half : (x y : ℕ) → bit_and x y / 2 ≡ bit_and (x / 2) (y / 2)
bit_and-half x y = omega (arith, bit_and_step x y)

bit_or-half : (x y : ℕ) → bit_or x y / 2 ≡ bit_or (x / 2) (y / 2)
bit_or-half x y = omega (arith, bit_or_step x y)

bit_and-low : (x y : ℕ) → bit_and x y % 2 ≡ min (x % 2) (y % 2)
bit_and-low x y = omega (arith, bit_and_step x y)

bit_or-low : (x y : ℕ) → bit_or x y % 2 ≡ max (x % 2) (y % 2)
bit_or-low x y = omega (arith, bit_or_step x y)

pub digit-bit_and : (i x y : ℕ) → digit i (bit_and x y) ≡ min (digit i x) (digit i y)
digit-bit_and zero x y = bit_and-low x y
digit-bit_and (suc i) x y = ap (digit i) (bit_and-half x y) ∙ digit-bit_and i (x / 2) (y / 2)

pub digit-bit_or : (i x y : ℕ) → digit i (bit_or x y) ≡ max (digit i x) (digit i y)
digit-bit_or zero x y = bit_or-low x y
digit-bit_or (suc i) x y = ap (digit i) (bit_or-half x y) ∙ digit-bit_or i (x / 2) (y / 2)

complement_half : (ones m : ℕ) → m ≤ ones * 2 + 1 → ((ones * 2 + 1) - m) / 2 ≡ ones - m / 2
complement_half ones m h = omega arith

pub digit_lt : (i x : ℕ) → digit i x < 2
digit_lt zero x = omega arith
digit_lt (suc i) x = digit_lt i (x / 2)

-- Each digit of a complement is the other one.
pub digit-complement :
    (w i m : ℕ) → m ≤ all_ones w → i < w → digit i (all_ones w - m) ≡ 1 - digit i m
digit-complement zero i m h lt = absurd (omega arith)
digit-complement (suc w) zero m h lt = omega arith
digit-complement (suc w) (suc i) m h lt =
    ap (digit i) (complement_half (all_ones w) m h)
    ∙ digit-complement w i (m / 2) (omega arith) (omega arith)
