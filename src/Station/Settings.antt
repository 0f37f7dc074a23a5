-- ===== src/Station/Settings.antt =====
-- The text that reflection/main/station_example_main.cpp makes of a structure, by reflection of C++26.
use esp_network_examples.Prelude.{
  ℕ, zero, suc, ◌+◌, ◌-◌, ◌*◌, ◌/◌, ◌%◌, ◌<◌, ℤ, pos, negsuc, Bool, true, false, List, [], ◌∷◌,
  ◌++◌, ◌≡◌, inl, inr, refl, ap, ap₂, ◌∙◌, arith, All, length, drop, take, drop-append, take-append,
  length-append, ltb, ◌==◌, if◌then◌else◌, Bool-cases, codes,
}
use esp_network_examples.Async.{decimal}

abbrev pub hex_digit : ℕ → ℕ
hex_digit n = if ltb n 10 then 48 + n else 87 + n

-- `std::hex` with `std::setw(2)` and the fill '0', of a byte
abbrev pub hex_byte : ℕ → List ℕ
hex_byte b = hex_digit (b / 16) ∷ hex_digit (b % 16) ∷ []

-- `if (i > 0)`, a colon
abbrev pub colon_at : ℕ → List ℕ
colon_at zero = []
colon_at (suc i) = 58 ∷ []

-- The loop of an array of six bytes, from an index on.
unfoldable pub colon_hex : ℕ → List ℕ → List ℕ
colon_hex i [] = []
colon_hex i (b ∷ bs) = colon_at i ++ (hex_byte b ++ colon_hex (suc i) bs)

abbrev pub up_to_nul : List ℕ → List ℕ
up_to_nul [] = []
up_to_nul (b ∷ bs) = if b == 0 then [] else b ∷ up_to_nul bs

-- Behind what the stream has already.
unfoldable pub append_uint8_array : List ℕ → List ℕ → List ℕ
append_uint8_array os arr =
    os ++ (if length arr == 6 then colon_hex 0 arr else 34 ∷ (up_to_nul arr ++ (34 ∷ [])))

-- The value of a member, by its type; the text of a type that is none of the first is a parameter.
pub data Member : Type 0 where
  uint8_array : List ℕ → Member
  uint8 : ℕ → Member
  int8 : ℤ → Member
  streamed : List ℕ → Member

unfoldable pub append_member : List ℕ → Member → List ℕ
append_member os (uint8_array arr) = append_uint8_array os arr
append_member os (uint8 n) = os ++ decimal 3 n
append_member os (int8 (pos n)) = os ++ decimal 3 n
append_member os (int8 (negsuc n)) = os ++ (45 ∷ decimal 3 (suc n))
append_member os (streamed text) = os ++ text

-- The members with their names, behind what the stream has already.
unfoldable pub append_members : Bool → List ℕ → List (List ℕ × Member) → List ℕ
append_members is_first os [] = os
append_members is_first os ((name, m) ∷ ms) =
    let separated = if is_first then os else os ++ codes ", \n\t" in
    append_members false (append_member (separated ++ (name ++ codes " = ")) m) ms

unfoldable pub to_string : List ℕ → List (List ℕ × Member) → List ℕ
to_string name ms = append_members true (name ++ codes " \n{\t") ms ++ codes " }"

-- The reading of such a text: two digits behind each separator, or what stands between quotes.
abbrev pub digit_value : ℕ → ℕ
digit_value c = if ltb c 58 then c - 48 else c - 87

abbrev pub read_hex : List ℕ → List ℕ
read_hex (separator ∷ high ∷ low ∷ rest) = (16 * digit_value high + digit_value low) ∷ read_hex rest
read_hex _ = []

abbrev pub read_array : ℕ → List ℕ → List ℕ
read_array n text = if n == 6 then read_hex (58 ∷ text) else take (length text - 2) (drop 1 text)

digit_value-hex_digit : (n : ℕ) → n < 16 → digit_value (hex_digit n) ≡ n
digit_value-hex_digit n h = ground arith

byte_read :
    (b : ℕ) → b < 256 → 16 * digit_value (hex_digit (b / 16)) + digit_value (hex_digit (b % 16)) ≡ b
byte_read b h =
    let high = digit_value-hex_digit (b / 16) (omega arith) in
    let low = digit_value-hex_digit (b % 16) (omega arith) in omega (arith, high, low)

-- Behind the first byte each one has its colon.
read_hex-colon_hex :
    (i : ℕ) (bs : List ℕ) → All (λ (b : ℕ). b < 256) bs → read_hex (colon_hex (suc i) bs) ≡ bs
unfolding colon_hex
read_hex-colon_hex i [] h = refl
read_hex-colon_hex i (b ∷ bs) h =
    ap₂ (λ x xs. x ∷ xs) (byte_read b h.0) (read_hex-colon_hex (suc i) bs h.1)

read_hex_first : (bs : List ℕ) → All (λ (b : ℕ). b < 256) bs → read_hex (58 ∷ colon_hex 0 bs) ≡ bs
unfolding colon_hex
read_hex_first [] h = refl
read_hex_first (b ∷ bs) h = ap₂ (λ x xs. x ∷ xs) (byte_read b h.0) (read_hex-colon_hex 0 bs h.1)

unquoted : (text : List ℕ) → take (length (text ++ (34 ∷ [])) - 1) (text ++ (34 ∷ [])) ≡ text
unquoted text =
    let n = length-append text (34 ∷ []) in
    let short : length (text ++ (34 ∷ [])) - 1 ≡ length text = omega (arith, n) in
    ap (λ k. take k (text ++ (34 ∷ []))) short ∙ take-append text (34 ∷ [])

-- What is appended for an array of bytes can be read back: all of it where it has six, and the part in
-- front of the first NUL where it has another length.
pub append_uint8_array-read_array :
    (os arr : List ℕ)
    → All (λ (b : ℕ). b < 256) arr
    → read_array (length arr) (drop (length os) (append_uint8_array os arr))
      ≡ (if length arr == 6 then arr else up_to_nul arr)
unfolding append_uint8_array
append_uint8_array-read_array os arr h =
    ap (read_array (length arr)) (drop-append os _) ∙ elim (Bool-cases (length arr == 6)) [
      | inl six ↦ rw six (read_hex_first arr h)
      | inr other ↦
          rw other
            (ap (λ k. take k (up_to_nul arr ++ (34 ∷ []))) (omega arith) ∙ unquoted (up_to_nul arr))
    ]
