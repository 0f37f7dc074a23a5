-- ===== src/Aead/Codec/Hex.antt =====
-- `bytes_to_hex` (ascon/sender/main/sender.c, ascon/receiver/main/receiver.c).
use esp_network_examples.Prelude.{
  c_string, c_string_lem, append_assoc, IsText, ◌≢◌, ℕ, suc, ◌+◌, ◌*◌, ◌/◌, ◌%◌, ◌≤◌, ◌<◌, List, [],
  ◌∷◌, ◌++◌, some, ◌≡◌, refl, sym, ap, ap₂, ◌∙◌, arith, length, drop, get_or, store, copy_at,
  get_elem?-some, ltb, if◌then◌else◌, ◌>>=◌, >>=-cong, >>=-some, length-append, length-drop, leb,
  ◌-◌, true, false, ◌==◌, ==_iff, table, table_at, copy_at_start, ltb→lt,
}
use native.Mathlib.Decide.{dec_lt}
use esp_network_examples.Aead.Codec.{hex, hex_loop, bytes_to_hex}

-- The two digits of each byte.
abbrev pub hex_text : List ℕ → List ℕ
hex_text [] = []
hex_text (b ∷ bs) = get_or hex (b / 16 % 16) 0 ∷ get_or hex (b % 16) 0 ∷ hex_text bs

pub length-hex_text : (bs : List ℕ) → length (hex_text bs) ≡ length bs * 2
length-hex_text [] = refl
length-hex_text (b ∷ bs) = omega (arith, length-hex_text bs)

-- The loop writes the digits and the NUL one after the other.
hex_loop-copy :
    (i : ℕ) (bs out : List ℕ) → hex_loop i bs out ≡ copy_at out (2 * i) (hex_text bs ++ (0 ∷ []))
unfolding hex_loop
hex_loop-copy i [] out = sym (>>=-some (store out (2 * i) 0))
hex_loop-copy i (b ∷ bs) out =
    let high = get_or hex (b / 16 % 16) 0 in
    let low = get_or hex (b % 16) 0 in
    rw
      (
        get_elem?-some hex (b / 16 % 16) 0 (omega arith),
        get_elem?-some hex (b % 16) 0 (omega arith),
      )
      (>>=-cong (store out (2 * i) high) _ _ (λ o.
        step o
        ∙ >>=-cong (store o (suc (2 * i)) low) _ _ (λ o'. hex_loop-copy (suc i) bs o' ∙ next o')))
  where
    step :
        (o : List ℕ)
        → (store o (2 * i + 1) (get_or hex (b % 16) 0) >>= hex_loop (suc i) bs)
          ≡ (store o (suc (2 * i)) (get_or hex (b % 16) 0) >>= hex_loop (suc i) bs)
    step o = ap (λ (n : ℕ). store o n (get_or hex (b % 16) 0) >>= hex_loop (suc i) bs) (omega arith)

    next :
        (o : List ℕ)
        → copy_at o (2 * suc i) (hex_text bs ++ (0 ∷ []))
          ≡ copy_at o (suc (suc (2 * i))) (hex_text bs ++ (0 ∷ []))
    next o = ap (λ (n : ℕ). copy_at o n (hex_text bs ++ (0 ∷ []))) (omega arith)

-- The text and its terminator stand at the start of the buffer, when the buffer is large enough.
pub bytes_to_hex-some :
    (bs out : List ℕ) (outlen : ℕ)
    → length bs * 2 + 1 ≤ outlen
    → outlen ≤ length out
    → bytes_to_hex bs out outlen ≡ some ((hex_text bs ++ (0 ∷ [])) ++ drop (length bs * 2 + 1) out)
unfolding bytes_to_hex
bytes_to_hex-some bs out outlen need room =
    let n : length (hex_text bs ++ (0 ∷ [])) ≡ length bs * 2 + 1 =
      omega (arith, length-append (hex_text bs) (0 ∷ []), length-hex_text bs) in
    let fits : ltb outlen (length bs * 2 + 1) ≡ false = ground arith in
    rw fits
      (hex_loop-copy 0 bs out ∙ copy_at_start (hex_text bs ++ (0 ∷ [])) out (omega arith) ∙ rw n)

-- Otherwise the buffer keeps what it held before.
pub bytes_to_hex_small :
    (bs out : List ℕ) (outlen : ℕ)
    → outlen < length bs * 2 + 1
    → bytes_to_hex bs out outlen ≡ some out
unfolding bytes_to_hex
bytes_to_hex_small bs out outlen h = ground arith

-- What a call with room leaves in the buffer.
abbrev pub hex_out : List ℕ → List ℕ → List ℕ
hex_out bs out = (hex_text bs ++ (0 ∷ [])) ++ drop (length bs * 2 + 1) out

pub length-hex_out :
    (bs out : List ℕ) → length bs * 2 + 1 ≤ length out → length (hex_out bs out) ≡ length out
length-hex_out bs out room = omega (
  arith,
  length-append (hex_text bs ++ (0 ∷ [])) (drop (length bs * 2 + 1) out),
  length-append (hex_text bs) (0 ∷ []),
  length-hex_text bs,
  length-drop (length bs * 2 + 1) out,
)

-- A call that is given the size of its buffer returns, and leaves a buffer of that size.
pub bytes_to_hex_total :
    (bs out : List ℕ) (outlen : ℕ)
    → outlen ≡ length out
    → (r : List ℕ) × (bytes_to_hex bs out outlen ≡ some r) × (length r ≡ outlen)
bytes_to_hex_total bs out outlen e = elim (dec_lt outlen (length bs * 2 + 1)) [
  | yes small ↦ (out, bytes_to_hex_small bs out outlen small, sym e)
  | no large ↦ (
    hex_out bs out,
    bytes_to_hex-some bs out outlen (omega arith) (omega arith),
    omega (arith, length-hex_out bs out (omega arith)),
  )
]

-- Reading the digits back.
hex_value : ℕ → ℕ
hex_value c = if leb c b'9' then c - b'0' else c - b'a' + 10

pub unhex : List ℕ → List ℕ
unhex (c ∷ d ∷ rest) = (hex_value c * 16 + hex_value d) ∷ unhex rest
unhex _ = []

digit_table : table (λ d. hex_value (get_or hex d 0) == d) 16 ≡ true
unfolding table hex_value
digit_table = refl

hex_value-hex : (d : ℕ) → d < 16 → hex_value (get_or hex d 0) ≡ d
hex_value-hex d h = (==_iff _ d).0 (table_at _ 16 d digit_table h)

-- Every element is a byte.
abbrev pub AreBytes : List ℕ → Type 0
AreBytes [] = Unit
AreBytes (b ∷ bs) = (b < 256) × AreBytes bs

-- The text of bytes reads back as the bytes.
pub unhex-hex_text : (bs : List ℕ) → AreBytes bs → unhex (hex_text bs) ≡ bs
unfolding unhex
unhex-hex_text [] h = refl
unhex-hex_text (b ∷ bs) h =
    ap₂ ◌∷◌
      (omega
        (arith, hex_value-hex (b / 16 % 16) (omega arith), hex_value-hex (b % 16) (omega arith)))
      (unhex-hex_text bs h.1)

-- A buffer of the right size holds the text of the bytes, which reads back as the bytes, behind
-- it a NUL, and then what it held before.
pub unhex-bytes_to_hex :
    (bs out : List ℕ) (outlen : ℕ)
    → AreBytes bs
    → length bs * 2 + 1 ≤ outlen
    → outlen ≤ length out
    → (text : List ℕ) × (bytes_to_hex bs out outlen
        ≡ some ((text ++ (0 ∷ [])) ++ drop (length bs * 2 + 1) out))
      × (unhex text ≡ bs)
      × (length text ≡ length bs * 2)
unhex-bytes_to_hex bs out outlen h need room = (
  hex_text bs,
  bytes_to_hex-some bs out outlen need room,
  unhex-hex_text bs h,
  length-hex_text bs,
)

digit_text_table : table (λ d. ltb 0 (get_or hex d 0)) 16 ≡ true
unfolding table
digit_text_table = refl

digit_ne_zero : (d : ℕ) → d < 16 → get_or hex d 0 ≢ 0
digit_ne_zero d h e = absurd (omega (arith, e, ltb→lt 0 _ (table_at _ 16 d digit_text_table h)))

-- The text holds no NUL.
pub hex_text-IsText : (bs : List ℕ) → IsText (hex_text bs)
hex_text-IsText [] = tt
hex_text-IsText (b ∷ bs) = (
  digit_ne_zero (b / 16 % 16) (omega arith),
  (digit_ne_zero (b % 16) (omega arith), hex_text-IsText bs),
)

-- Read as a string it is the text.
pub c_string-hex_out : (bs out : List ℕ) → c_string (hex_out bs out) ≡ some (hex_text bs)
c_string-hex_out bs out =
    ap c_string (append_assoc (hex_text bs) (0 ∷ []) (drop (length bs * 2 + 1) out))
    ∙ c_string_lem (hex_text bs) (drop (length bs * 2 + 1) out) (hex_text-IsText bs)
