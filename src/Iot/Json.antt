-- ===== src/Iot/Json.antt =====
-- A quoted value in JSON is found by fuzz-me/sample/iot_parser.c, and copied if it fits.
use esp_network_examples.Prelude.{
  put_text-fits, put_text-overflows, ℕ, ◌≤◌, ◌<◌, Bool, ltb, ltb→lt, not_ltb→le, Bool-cases, inl,
  inr, true, false, List, [], ◌∷◌, ◌++◌, Option, none, some, ◌≡◌, ◌≢◌, refl, arith, ◌==◌, length,
  take_all, length-append, c_string, c_string_lem, IsText,
}
use esp_network_examples.Iot.{
  search_key, Strtol, store_quoted, store_value, store_found, extract_json_value,
}
use esp_network_examples.Iot.Text.{Avoids, split_at-append, starts_with, behind_first, skip_spaces}

eq_self : (c : ℕ) → (c == c) ≡ true
eq_self c = ground arith

not_eq : (c x : ℕ) → c ≢ x → (c == x) ≡ false
not_eq c x h = ground arith

starts_with-append : (key rest : List ℕ) → starts_with key (key ++ rest) ≡ some rest
unfolding starts_with
starts_with-append [] rest = refl
starts_with-append (c ∷ cs) rest = rw (eq_self c) (starts_with-append cs rest)

-- A text that starts with a byte is found behind bytes that are none of it.
behind_first-append :
    (c : ℕ) (cs pre rest : List ℕ)
    → Avoids c pre
    → behind_first (c ∷ cs) (pre ++ ((c ∷ cs) ++ rest)) ≡ some rest
unfolding behind_first starts_with
behind_first-append c cs [] rest h = rw (eq_self c, starts_with-append cs rest)
behind_first-append c cs (x ∷ pre) rest h =
    rw (not_eq c x h.0) (behind_first-append c cs pre rest h.1)

-- The text of a key with its quotes and colon.
abbrev pub quoted_key : List ℕ → List ℕ
quoted_key key = (34 ∷ key) ++ (34 ∷ 58 ∷ [])

search_key_whole : (key : List ℕ) → length key ≤ 32 → search_key key ≡ quoted_key key
search_key_whole key h =
    take_all 35 (quoted_key key) (omega (arith, length-append key (34 ∷ 58 ∷ [])))

-- The value is found: what remains is to store it.
extract_json_value-found :
    (strtol : Strtol) (pre key value post buf : List ℕ)
    → Avoids 34 pre
    → Avoids 34 value
    → length key ≤ 32
    → extract_json_value strtol (pre ++ (quoted_key key ++ (34 ∷ (value ++ (34 ∷ post))))) key buf
      ≡ store_quoted (some (value, post)) buf
unfolding extract_json_value store_found store_value skip_spaces
extract_json_value-found strtol pre key value post buf a b k = rw (
  search_key_whole key k,
  behind_first-append 34 (key ++ (34 ∷ 58 ∷ [])) pre (34 ∷ (value ++ (34 ∷ post))) a,
  split_at-append 34 value post b,
)

-- A buffer holds a value, whose length is the result.
abbrev pub HoldsValue : Option (ℕ × List ℕ) → List ℕ → Type 0
HoldsValue none value = ⊥
HoldsValue (some (n, buf)) value = (n ≡ length value) × (c_string buf ≡ some value)

extract_json_value-Holds :
    (strtol : Strtol) (pre key value post buf : List ℕ)
    → Avoids 34 pre
    → Avoids 34 value
    → length key ≤ 32
    → IsText value
    → length value < length buf
    → HoldsValue
        (extract_json_value strtol
          (pre ++ (quoted_key key ++ (34 ∷ (value ++ (34 ∷ post)))))
          key
          buf)
        value
unfolding store_quoted
extract_json_value-Holds strtol pre key value post buf a b k t f =
    rw (extract_json_value-found strtol pre key value post buf a b k, put_text-fits buf value f)
      ((refl, c_string_lem value _ t))

extract_json_value-overflows :
    (strtol : Strtol) (pre key value post buf : List ℕ)
    → Avoids 34 pre
    → Avoids 34 value
    → length key ≤ 32
    → length buf ≤ length value
    → extract_json_value strtol (pre ++ (quoted_key key ++ (34 ∷ (value ++ (34 ∷ post))))) key buf
      ≡ none
unfolding store_quoted
extract_json_value-overflows strtol pre key value post buf a b k f =
    rw
      (extract_json_value-found strtol pre key value post buf a b k, put_text-overflows buf value f)

-- The result by whether the value fits: the buffer that holds it, or a fault.
abbrev pub Extracted : Bool → Option (ℕ × List ℕ) → List ℕ → Type 0
Extracted true o value = HoldsValue o value
Extracted false o value = o ≡ none

-- The value in quotes behind a key of at most 32 bytes, with no quote in front of the key, is what
-- the buffer then holds, if it fits with a NUL; otherwise it is written past the buffer's end.
pub extract_json_value-Extracted :
    (strtol : Strtol) (pre key value post buf : List ℕ)
    → Avoids 34 pre
    → Avoids 34 value
    → length key ≤ 32
    → IsText value
    → Extracted
        (ltb (length value) (length buf))
        (extract_json_value strtol
          (pre ++ (quoted_key key ++ (34 ∷ (value ++ (34 ∷ post)))))
          key
          buf)
        value
extract_json_value-Extracted strtol pre key value post buf a b k t =
    elim (Bool-cases (ltb (length value) (length buf))) [
      | inl f ↦ rw f (extract_json_value-Holds strtol pre key value post buf a b k t (ltb→lt _ _ f))
      | inr f ↦
          rw f (extract_json_value-overflows strtol pre key value post buf a b k (not_ltb→le _ _ f))
    ]
