-- ===== src/Prelude/Lists.antt =====
-- Lists measured and indexed by native numbers, under the library's names, and buffers of a
-- fixed size: a read or a write past the end is a fault.
use Prim.Native.Nat.{ℕ, zero, suc, ◌+◌, ◌-◌, ◌≤◌, ◌<◌}
use mathlib.Core.Path.{◌≡◌, refl, ap, ◌∙◌}
use mathlib.Core.Logic.{◌≢◌}
use mathlib.Core.List.{List, [], ◌∷◌, ◌++◌}
use mathlib.Core.List.{append_assoc}
use mathlib.Core.Option.{Option, none, some}
use native.Mathlib.Decide.{dec_lt}
use native.Mathlib.Nat.{add-zero, add-suc, suc-add}
use native.Mathlib.Omega.{arith}
use esp_network_examples.Prelude.Tests.{◌>>=◌}

module _ {ℓ} {A : Type ℓ} where
  abbrev pub length : List A → ℕ
  length [] = 0
  length (x ∷ xs) = suc (length xs)

  abbrev pub get_elem? : List A → ℕ → Option A
  get_elem? [] i = none
  get_elem? (x ∷ xs) zero = some x
  get_elem? (x ∷ xs) (suc i) = get_elem? xs i

  abbrev pub get_or : List A → ℕ → A → A
  get_or [] i d = d
  get_or (x ∷ xs) zero d = x
  get_or (x ∷ xs) (suc i) d = get_or xs i d

  abbrev pub set : List A → ℕ → A → List A
  set [] i v = []
  set (x ∷ xs) zero v = v ∷ xs
  set (x ∷ xs) (suc i) v = x ∷ set xs i v

  abbrev pub take : ℕ → List A → List A
  take zero xs = []
  take (suc n) [] = []
  take (suc n) (x ∷ xs) = x ∷ take n xs

  abbrev pub drop : ℕ → List A → List A
  drop zero xs = xs
  drop (suc n) [] = []
  drop (suc n) (x ∷ xs) = drop n xs

  abbrev pub replicate : ℕ → A → List A
  replicate zero a = []
  replicate (suc n) a = a ∷ replicate n a

  -- The first `n` elements of an array: past its end it is a fault.
  abbrev pub read : ℕ → List A → Option (List A)
  read zero xs = some []
  read (suc n) [] = none
  read (suc n) (x ∷ xs) = read n xs >>= λ ys. some (x ∷ ys)

  -- One store into a buffer: past its end it is a fault.
  abbrev pub store : List A → ℕ → A → Option (List A)
  store [] i v = none
  store (x ∷ xs) zero v = some (v ∷ xs)
  store (x ∷ xs) (suc i) v = store xs i v >>= λ ys. some (x ∷ ys)

  -- `memcpy(buf + i, bytes, length bytes)`
  abbrev pub copy_at : List A → ℕ → List A → Option (List A)
  copy_at buf i [] = some buf
  copy_at buf i (b ∷ bs) = store buf i b >>= λ buf'. copy_at buf' (suc i) bs

module _ {ℓ} {A : Type ℓ} where
  pub length-append : (xs ys : List A) → length (xs ++ ys) ≡ length xs + length ys
  length-append [] ys = omega arith
  length-append (x ∷ xs) ys = omega (arith, length-append xs ys)

  pub length-replicate : (n : ℕ) (a : A) → length (replicate n a) ≡ n
  length-replicate zero a = refl
  length-replicate (suc n) a = ap suc (length-replicate n a)

  pub length-set : (xs : List A) (i : ℕ) (v : A) → length (set xs i v) ≡ length xs
  length-set [] i v = refl
  length-set (x ∷ xs) zero v = refl
  length-set (x ∷ xs) (suc i) v = ap suc (length-set xs i v)

  pub length-drop : (n : ℕ) (xs : List A) → length (drop n xs) ≡ length xs - n
  length-drop zero xs = omega arith
  length-drop (suc n) [] = omega arith
  length-drop (suc n) (x ∷ xs) = omega (arith, length-drop n xs)

  pub length-take : (n : ℕ) (xs : List A) → n ≤ length xs → length (take n xs) ≡ n
  length-take zero xs h = refl
  length-take (suc n) [] h = elim h [ ]
  length-take (suc n) (x ∷ xs) h = ap suc (length-take n xs (omega arith))

  pub take-append-drop : (n : ℕ) (xs : List A) → take n xs ++ drop n xs ≡ xs
  take-append-drop zero xs = refl
  take-append-drop (suc n) [] = refl
  take-append-drop (suc n) (x ∷ xs) = rw (take-append-drop n xs)

  -- `take` and `drop` at the seam of an append.
  pub take-append : (xs ys : List A) → take (length xs) (xs ++ ys) ≡ xs
  take-append [] ys = refl
  take-append (x ∷ xs) ys = rw (take-append xs ys)

  pub drop-append : (xs ys : List A) → drop (length xs) (xs ++ ys) ≡ ys
  drop-append [] ys = refl
  drop-append (x ∷ xs) ys = drop-append xs ys

  pub get_elem?-some :
      (xs : List A) (i : ℕ) (d : A) → i < length xs → get_elem? xs i ≡ some (get_or xs i d)
  get_elem?-some [] i d h = elim h [ ]
  get_elem?-some (x ∷ xs) zero d h = refl
  get_elem?-some (x ∷ xs) (suc i) d h = get_elem?-some xs i d (omega arith)

  pub read-some : (n : ℕ) (xs : List A) → n ≤ length xs → read n xs ≡ some (take n xs)
  read-some zero xs h = refl
  read-some (suc n) [] h = elim h [ ]
  read-some (suc n) (x ∷ xs) h = rw (read-some n xs (omega arith))

  pub get_or-set_self :
      (xs : List A) (i : ℕ) (v d : A) → i < length xs → get_or (set xs i v) i d ≡ v
  get_or-set_self [] i v d h = elim h [ ]
  get_or-set_self (x ∷ xs) zero v d h = refl
  get_or-set_self (x ∷ xs) (suc i) v d h = get_or-set_self xs i v d (omega arith)

  pub get_or-set_ne :
      (xs : List A) (i j : ℕ) (v d : A) → i ≢ j → get_or (set xs i v) j d ≡ get_or xs j d
  get_or-set_ne [] i j v d h = refl
  get_or-set_ne (x ∷ xs) zero zero v d h = absurd (h refl)
  get_or-set_ne (x ∷ xs) zero (suc j) v d h = refl
  get_or-set_ne (x ∷ xs) (suc i) zero v d h = refl
  get_or-set_ne (x ∷ xs) (suc i) (suc j) v d h = get_or-set_ne xs i j v d (λ e. h (ap suc e))

  -- A store behind a prefix overwrites one element.
  pub store-append :
      (pre : List A) (old : A) (post : List A) (v : A)
      → store (pre ++ (old ∷ post)) (length pre) v ≡ some (pre ++ (v ∷ post))
  store-append [] old post v = refl
  store-append (x ∷ pre) old post v = rw (store-append pre old post v)

  pub store-some : (xs : List A) (i : ℕ) (v : A) → i < length xs → store xs i v ≡ some (set xs i v)
  store-some [] i v h = elim h [ ]
  store-some (x ∷ xs) zero v h = refl
  store-some (x ∷ xs) (suc i) v h = rw (store-some xs i v (omega arith))

  pub store-none : (xs : List A) (i : ℕ) (v : A) → length xs ≤ i → store xs i v ≡ none
  store-none [] i v h = refl
  store-none (x ∷ xs) zero v h = elim h [ ]
  store-none (x ∷ xs) (suc i) v h = rw (store-none xs i v (omega arith))

  pub take-set_self :
      (xs : List A) (i : ℕ) (v : A)
      → i < length xs
      → take (suc i) (set xs i v) ≡ take i xs ++ (v ∷ [])
  take-set_self [] i v h = elim h [ ]
  take-set_self (x ∷ xs) zero v h = refl
  take-set_self (x ∷ xs) (suc i) v h = ap (λ ys. x ∷ ys) (take-set_self xs i v (omega arith))

  pub drop-set_lt :
      (xs : List A) (i k : ℕ) (v : A) → drop (suc (i + k)) (set xs i v) ≡ drop (suc (i + k)) xs
  drop-set_lt [] i k v = refl
  drop-set_lt (x ∷ xs) zero k v = refl
  drop-set_lt (x ∷ xs) (suc i) k v = rw (suc-add i k) (drop-set_lt xs i k v)

  -- A copy that fits replaces the bytes from `i` on, and nothing else.
  pub copy_at-some :
      (buf : List A) (i : ℕ) (bs : List A)
      → i + length bs ≤ length buf
      → copy_at buf i bs ≡ some (take i buf ++ (bs ++ drop (i + length bs) buf))
  copy_at-some buf i [] h = rw (add-zero i, take-append-drop i buf)
  copy_at-some buf i (b ∷ bs) h =
      rw (store-some buf i b (omega arith), copy_at)
        (copy_at-some (set buf i b) (suc i) bs (rw (length-set buf i b) (omega arith))
          ∙ rw (
            take-set_self buf i b (omega arith),
            suc-add i (length bs),
            drop-set_lt buf i (length bs) b,
            append_assoc,
            add-suc i (length bs),
          ))

  -- A copy that does not fit is a fault.
  pub copy_at-none :
      (buf : List A) (i : ℕ) (bs : List A)
      → i ≤ length buf
      → length buf < i + length bs
      → copy_at buf i bs ≡ none
  copy_at-none buf i [] g h = absurd (omega arith)
  copy_at-none buf i (b ∷ bs) g h = elim (dec_lt i (length buf)) [
    | yes p ↦
        rw (store-some buf i b p, copy_at)
          (copy_at-none (set buf i b) (suc i) bs (rw (length-set buf i b) p)
            (rw (length-set buf i b) (omega arith)))
    | no p ↦ rw (store-none buf i b (omega arith), copy_at)
  ]
