-- ===== src/Prelude/CString.antt =====
-- C strings: the bytes of a buffer up to its first NUL.
use Prim.Native.Nat.{ℕ, zero, suc}
use mathlib.Core.Path.{◌≡◌, refl}
use mathlib.Core.Logic.{◌≢◌}
use mathlib.Core.List.{List, [], ◌∷◌, ◌++◌}
use mathlib.Core.Option.{Option, none, some}
use esp_network_examples.Prelude.Tests.{◌>>=◌, ◌==◌}
use mathlib.Core.Bool.{Bool, true, false, ◌&&◌}
use native.Mathlib.Omega.{arith}
use Prim.Native.Nat.{◌≤◌, ◌<◌}
use mathlib.Core.Path.{◌∙◌}
use mathlib.Core.List.{append_assoc}
use esp_network_examples.Prelude.Lists.{
  length, length-append, length-drop, drop, copy_at, copy_at-none,
}
use esp_network_examples.Prelude.Buffers.{copy_at_start}

-- A buffer with no NUL is no string: reading it runs past its end.
abbrev pub c_string : List ℕ → Option (List ℕ)
c_string [] = none
c_string (zero ∷ xs) = some []
c_string (suc c ∷ xs) = c_string xs >>= λ s. some (suc c ∷ s)

-- No byte of a text is NUL.
abbrev pub IsText : List ℕ → Type 0
IsText [] = Unit
IsText (c ∷ cs) = (c ≢ 0) × IsText cs

-- A text with a NUL behind it is read as that text.
pub c_string_lem : (s rest : List ℕ) → IsText s → c_string (s ++ (0 ∷ rest)) ≡ some s
c_string_lem [] rest h = refl
c_string_lem (zero ∷ s) rest h = absurd (h.0 refl)
c_string_lem (suc c ∷ s) rest h = rw (c_string_lem s rest h.1)

-- `strcmp(a, b) == 0`, on the bytes of both strings
unfoldable pub text_eq : List ℕ → List ℕ → Bool
text_eq [] [] = true
text_eq [] (d ∷ ds) = false
text_eq (c ∷ cs) [] = false
text_eq (c ∷ cs) (d ∷ ds) = c == d && text_eq cs ds

pub text_eq→eq : (a b : List ℕ) → text_eq a b ≡ true → a ≡ b
unfolding text_eq
text_eq→eq [] [] h = refl
text_eq→eq [] (d ∷ ds) h = absurd (cc)
text_eq→eq (c ∷ cs) [] h = absurd (cc)
text_eq→eq (c ∷ cs) (d ∷ ds) h = ground (arith, text_eq→eq cs ds)

pub text_eq_refl : (a : List ℕ) → text_eq a a ≡ true
unfolding text_eq
text_eq_refl [] = refl
text_eq_refl (c ∷ cs) = ground (arith, text_eq_refl cs)

-- `strcpy`; and `strncpy` of a text's length with a NUL put behind it, which writes the same.
unfoldable pub put_text : List ℕ → List ℕ → Option (List ℕ)
put_text buf s = copy_at buf 0 (s ++ (0 ∷ []))

-- A text that fits is what the buffer holds, up to a NUL.
pub put_text-fits :
    (buf s : List ℕ)
    → length s < length buf
    → put_text buf s ≡ some (s ++ (0 ∷ drop (length (s ++ (0 ∷ []))) buf))
unfolding put_text
put_text-fits buf s h =
    copy_at_start (s ++ (0 ∷ [])) buf (omega (arith, length-append s (0 ∷ []))) ∙ rw (append_assoc)

-- A text that does not fit is written past the end.
pub put_text-overflows : (buf s : List ℕ) → length buf ≤ length s → put_text buf s ≡ none
unfolding put_text
put_text-overflows buf s h =
    copy_at-none buf 0 (s ++ (0 ∷ [])) (omega arith) (omega (arith, length-append s (0 ∷ [])))

-- A text that fits leaves the buffer's size as it was.
pub length-put_text :
    (buf s : List ℕ)
    → length s < length buf
    → length (s ++ (0 ∷ drop (length (s ++ (0 ∷ []))) buf)) ≡ length buf
length-put_text buf s h = omega (
  arith,
  length-append s (0 ∷ drop (length (s ++ (0 ∷ []))) buf),
  length-append s (0 ∷ []),
  length-drop (length (s ++ (0 ∷ []))) buf,
)
