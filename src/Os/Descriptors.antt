-- ===== src/Os/Descriptors.antt =====
-- How often a run opens and closes each descriptor.
use esp_network_examples.Prelude.{
  ℕ, ◌+◌, ℤ, pos, negsuc, is_neg, Bool, true, false, Option, none, some, [], ◌∷◌, ◌≡◌, refl,
  if◌then◌else◌, ◌==◌,
}
use esp_network_examples.Os.{Trace}

-- Which calls open a descriptor, by their answer, and which close one.
pub record Opening (C : Type 0) : Type 0 where
  pub is_open : C → Bool
  pub closing : C → Option ℤ

abbrev pub one : ℕ → ℤ → ℕ
one d (pos n) = if d == n then 1 else 0
one d (negsuc n) = 0

abbrev pub plus_if : Bool → ℕ → ℕ → ℕ
plus_if true n m = n + m
plus_if false n m = m

abbrev pub plus_one_of : ℕ → Option ℤ → ℕ → ℕ
plus_one_of d none m = m
plus_one_of d (some fd) m = one d fd + m

pub one_neg : (d : ℕ) (s : ℤ) → is_neg s ≡ true → one d s ≡ 0
one_neg d (pos n) h = absurd (cc)
one_neg d (negsuc n) h = refl

module _ {C : Type 0} (o : Opening C) where
  abbrev pub opens : ℕ → Trace C → ℕ
  opens d [] = 0
  opens d ((c, a) ∷ t) = plus_if (o.is_open c) (one d a.ret) (opens d t)

  abbrev pub closes : ℕ → Trace C → ℕ
  closes d [] = 0
  closes d ((c, a) ∷ t) = plus_one_of d (o.closing c) (closes d t)

  -- `n` of `d` are open.
  abbrev pub Balanced : ℕ → ℕ → Trace C → Type 0
  Balanced d n t = opens d t ≡ closes d t + n
