-- ===== src/Iot/Warning.antt =====
-- The warning of fuzz-me/sample/iot_parser.c on an empty method fits in its buffer.
use esp_network_examples.Prelude.{
  put_text-fits, ℕ, zero, suc, ◌<◌, Bool, true, false, List, [], ◌∷◌, ◌++◌, some, ◌≡◌, ◌≢◌, refl,
  arith, codes, length, length-append, replicate, drop, c_string_lem, IsText,
}
use esp_network_examples.Iot.{warning, format_of}

abbrev is_text : List ℕ → Bool
is_text [] = true
is_text (zero ∷ cs) = false
is_text (suc c ∷ cs) = is_text cs

not_zero : (c : ℕ) → suc c ≢ 0
not_zero c e = absurd (omega arith)

IsText-append : (a b : List ℕ) → is_text a ≡ true → IsText b → IsText (a ++ b)
IsText-append [] b h k = k
IsText-append (zero ∷ a) b h k = absurd (cc)
IsText-append (suc c ∷ a) b h k = (not_zero c, IsText-append a b h k)

-- For a path that fits in its own buffer of 64 bytes the warning fits in 100; and all of it, the
-- path that came with the request included, is what `printf` is given as a format.
pub format_of-path :
    (path : List ℕ)
    → IsText path
    → length path < 64
    → format_of [] path ≡ some (some (codes "Warning: Empty method in request: " ++ path))
unfolding format_of warning
format_of-path path t h =
    let nul : ℕ = 0 in
    let text = codes "Warning: Empty method in request: " ++ path in
    let fits : length text < length (replicate 100 nul) =
      omega (arith, length-append (codes "Warning: Empty method in request: ") path) in
    rw (
      put_text-fits (replicate 100 nul) text fits,
      c_string_lem text (drop (length (text ++ (0 ∷ []))) (replicate 100 nul))
          (IsText-append (codes "Warning: Empty method in request: ") path refl t),
    )
