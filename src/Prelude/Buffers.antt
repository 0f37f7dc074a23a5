-- ===== src/Prelude/Buffers.antt =====
-- Copies into a buffer, at its start and behind a prefix.
use Prim.Native.Nat.{ℕ, zero, suc, ◌+◌, ◌≤◌}
use mathlib.Core.Path.{◌≡◌, refl, sym, ap, ◌∙◌}
use mathlib.Core.List.{append-nil, List, [], ◌∷◌, ◌++◌}
use mathlib.Core.Option.{some}
use native.Mathlib.Nat.{zero-add, suc-add}
use native.Mathlib.Omega.{arith}
use esp_network_examples.Prelude.Lists.{
  length, read, read-some, take, drop, copy_at, copy_at-some, length-append, take-append,
  drop-append,
}

module _ {ℓ} {A : Type ℓ} where
  pub drop-drop : (m n : ℕ) (xs : List A) → drop n (drop m xs) ≡ drop (m + n) xs
  drop-drop zero n xs = rw (zero-add n)
  drop-drop (suc m) n [] = rw (suc-add m n) (drop_nil n)
    where
      drop_nil : (n : ℕ) → drop {A = A} n [] ≡ []
      drop_nil zero = refl
      drop_nil (suc n) = refl
  drop-drop (suc m) n (x ∷ xs) = rw (suc-add m n) (drop-drop m n xs)

  pub drop-append_add : (xs ys : List A) (n : ℕ) → drop (length xs + n) (xs ++ ys) ≡ drop n ys
  drop-append_add [] ys n = rw (zero-add n)
  drop-append_add (x ∷ xs) ys n = rw (suc-add (length xs) n) (drop-append_add xs ys n)

  pub copy_at_start :
      (bs buf : List A)
      → length bs ≤ length buf
      → copy_at buf 0 bs ≡ some (bs ++ drop (length bs) buf)
  copy_at_start bs buf h = copy_at-some buf 0 bs (omega arith) ∙ rw (zero-add (length bs))

  pub copy_at_behind :
      (i : ℕ) (pre bs rest : List A)
      → i ≡ length pre
      → length bs ≤ length rest
      → copy_at (pre ++ rest) i bs ≡ some (pre ++ (bs ++ drop (length bs) rest))
  copy_at_behind i pre bs rest e h =
      ap (λ (n : ℕ). copy_at (pre ++ rest) n bs) e
      ∙ copy_at-some (pre ++ rest) (length pre) bs (omega (arith, length-append pre rest))
      ∙ rw (take-append pre rest, drop-append_add pre rest (length bs))

  pub read_append : (n : ℕ) (xs ys : List A) → n ≡ length xs → read n (xs ++ ys) ≡ some xs
  read_append n xs ys e =
      ap (λ (k : ℕ). read k (xs ++ ys)) e
      ∙ read-some (length xs) (xs ++ ys) (omega (arith, length-append xs ys))
      ∙ ap some (take-append xs ys)

  pub read_all : (n : ℕ) (xs : List A) → n ≡ length xs → read n xs ≡ some xs
  read_all n xs e = ap (read n) (sym (append-nil xs)) ∙ read_append n xs [] e

  pub take_all : (n : ℕ) (xs : List A) → length xs ≤ n → take n xs ≡ xs
  take_all zero [] h = refl
  take_all (suc n) [] h = refl
  take_all zero (x ∷ xs) h = elim h [ ]
  take_all (suc n) (x ∷ xs) h = rw (take_all n xs (omega arith))

  pub drop_all : (n : ℕ) (xs : List A) → length xs ≤ n → drop n xs ≡ []
  drop_all zero [] h = refl
  drop_all (suc n) [] h = refl
  drop_all zero (x ∷ xs) h = elim h [ ]
  drop_all (suc n) (x ∷ xs) h = drop_all n xs (omega arith)

  pub drop_append : (n : ℕ) (xs ys : List A) → n ≡ length xs → drop n (xs ++ ys) ≡ ys
  drop_append n xs ys e = ap (λ (k : ℕ). drop k (xs ++ ys)) e ∙ drop-append xs ys

  -- A copy that fills a buffer replaces it.
  pub copy_at_whole : (bs buf : List A) → length bs ≡ length buf → copy_at buf 0 bs ≡ some bs
  copy_at_whole bs buf h =
      copy_at_start bs buf (omega arith)
      ∙ rw (drop_all (length bs) buf (omega arith), append-nil bs)
