-- ===== src/Iot/Text.antt =====
-- The functions on C strings that fuzz-me/sample/iot_parser.c calls, on the bytes before the NUL.
use esp_network_examples.Prelude.{
  ℕ, Bool, true, false, ◌||◌, ◌&&◌, List, [], ◌∷◌, ◌++◌, Option, none, some, ◌≡◌, ◌≢◌, arith, ◌>>=◌,
  leb, if◌then◌else◌, ◌==◌,
}

-- `strchr`: what stands before the first such byte, and what behind it.
unfoldable pub split_at : ℕ → List ℕ → Option (List ℕ × List ℕ)
split_at c [] = none
split_at c (x ∷ xs) =
    let rest = split_at c xs in if c == x then some ([], xs) else rest >>= λ p. some (x ∷ p.0, p.1)

-- What stands behind a prefix.
unfoldable pub starts_with : List ℕ → List ℕ → Option (List ℕ)
starts_with [] xs = some xs
starts_with (c ∷ cs) [] = none
starts_with (c ∷ cs) (x ∷ xs) = let rest = starts_with cs xs in if c == x then rest else none

abbrev first_of : Option (List ℕ) → Option (List ℕ) → Option (List ℕ)
first_of (some rest) next = some rest
first_of none next = next

-- `strstr`: what stands behind the first such text.
unfoldable pub behind_first : List ℕ → List ℕ → Option (List ℕ)
behind_first key [] = starts_with key []
behind_first key (x ∷ xs) = first_of (starts_with key (x ∷ xs)) (behind_first key xs)

-- `isspace`, in the C locale: a space, or one of the bytes 9 to 13
abbrev pub is_space : ℕ → Bool
is_space c = c == 32 || (leb 9 c && leb c 13)

unfoldable pub skip_spaces : List ℕ → List ℕ
skip_spaces [] = []
skip_spaces (x ∷ xs) = let rest = skip_spaces xs in if is_space x then rest else x ∷ xs

-- No byte of a text is `c`.
abbrev pub Avoids : ℕ → List ℕ → Type 0
Avoids c [] = Unit
Avoids c (x ∷ xs) = (c ≢ x) × Avoids c xs

not_eq : (c x : ℕ) → c ≢ x → (c == x) ≡ false
not_eq c x h = ground arith

eq_self : (c : ℕ) → (c == c) ≡ true
eq_self c = ground arith

pub split_at-append :
    (c : ℕ) (xs ys : List ℕ) → Avoids c xs → split_at c (xs ++ (c ∷ ys)) ≡ some (xs, ys)
unfolding split_at
split_at-append c [] ys h = rw (eq_self c)
split_at-append c (x ∷ xs) ys h = rw (not_eq c x h.0, split_at-append c xs ys h.1)
