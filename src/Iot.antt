-- ===== src/Iot.antt =====
-- fuzz-me/sample/iot_parser.c: a parser of MQTT and HTTP messages into buffers of a fixed size,
-- without tests of the lengths. A text is its bytes without the NUL; a write past the end of a
-- buffer is a fault, `none`.
pub mod Text
pub mod Messages
pub mod Json
pub mod Warning
mod Tests
use esp_network_examples.Prelude.{
  put_text, ℕ, zero, suc, ◌+◌, Bool, true, false, ◌||◌, ◌&&◌, List, [], ◌∷◌, ◌++◌, Option, none,
  some, ◌>>=◌, ltb, leb, if◌then◌else◌, ◌==◌, codes, length, take, drop, replicate, c_string,
  text_eq,
}
use esp_network_examples.Iot.Text.{split_at, starts_with, behind_first, skip_spaces}

-- `mqtt_message_t`
pub record Mqtt : Type 0 where
  pub topic : List ℕ
  pub payload : List ℕ

-- `http_message_t`
pub record Http : Type 0 where
  pub method : List ℕ
  pub path : List ℕ
  pub body : List ℕ

-- Messages of NUL bytes, as `{0}` makes them.
abbrev pub empty_mqtt : Mqtt
empty_mqtt = record { topic = replicate 64 0; payload = replicate 256 0 }

abbrev pub empty_http : Http
empty_http = record { method = replicate 8 0; path = replicate 64 0; body = replicate 256 0 }

-- Behind `strchr`, by what stands before and behind the space.
unfoldable pub store_topic : Option (List ℕ × List ℕ) → Mqtt → Option Mqtt
store_topic none msg = some msg
store_topic (some (topic, payload)) msg = do
  t ← put_text msg.topic topic
  p ← put_text msg.payload payload
  some (record { topic = t; payload = p })

-- The text has four bytes at least, "mqtt".
unfoldable pub parse_mqtt_topic : List ℕ → Mqtt → Option Mqtt
parse_mqtt_topic input msg = store_topic (split_at 32 (drop 4 input)) msg

unfoldable pub store_path : Option (List ℕ × List ℕ) → Http → Option Http
store_path none msg = some msg
store_path (some (path, body)) msg = do
  p ← put_text msg.path path
  b ← put_text msg.body body
  some (record msg { path = p; body = b })

unfoldable pub store_method : Option (List ℕ × List ℕ) → Http → Option Http
store_method none msg = some msg
store_method (some (method, rest)) msg = do
  m ← put_text msg.method method
  store_path (split_at 32 rest) (record msg { method = m })

-- The copy on the heap has the text's length, and no write to it goes past its end.
unfoldable pub parse_http_request : List ℕ → Http → Option Http
parse_http_request input msg = store_method (split_at 32 input) msg

-- `"key":`, cut to the 35 bytes that fit with a NUL.
abbrev pub search_key : List ℕ → List ℕ
search_key key = take 35 ((34 ∷ key) ++ (34 ∷ 58 ∷ []))

-- `strtol` and the printing of its result: the digits, and how many bytes were read.
abbrev pub Strtol : Type 0
Strtol = List ℕ → List ℕ × ℕ

-- A value in quotes, by what stands before and behind the closing one.
unfoldable pub store_quoted : Option (List ℕ × List ℕ) → List ℕ → Option (ℕ × List ℕ)
store_quoted none buf = some (0, buf)
store_quoted (some (value, rest)) buf = do b ← put_text buf value; some (length value, b)

unfoldable pub store_number : List ℕ × ℕ → List ℕ → Option (ℕ × List ℕ)
store_number (digits, read_bytes) buf = do b ← put_text buf digits; some (read_bytes, b)

-- A value from its first byte on.
unfoldable pub store_value : Strtol → List ℕ → List ℕ → Option (ℕ × List ℕ)
store_value strtol [] buf = store_number (strtol []) buf
store_value strtol (c ∷ rest) buf =
    if c == 34 then store_quoted (split_at 34 rest) buf else store_number (strtol (c ∷ rest)) buf

-- Behind `strstr`, by what stands behind the key.
unfoldable pub store_found : Strtol → Option (List ℕ) → List ℕ → Option (ℕ × List ℕ)
store_found strtol none buf = some (0, buf)
store_found strtol (some rest) buf = store_value strtol (skip_spaces rest) buf

-- The result, and the buffer for the value.
unfoldable pub extract_json_value : Strtol → List ℕ → List ℕ → List ℕ → Option (ℕ × List ℕ)
extract_json_value strtol json key buf = store_found strtol (behind_first (search_key key) json) buf

-- One value of a text, which is shown if its length is not 0.
unfoldable pub shown_value : Strtol → List ℕ → List ℕ → Option (Option (List ℕ))
shown_value strtol json key = do
  r ← extract_json_value strtol json key (replicate 64 0)
  (if r.0 == 0 then some none else (do v ← c_string r.1; some (some v)))

-- The topic, the payload and three values of it; `none` on a fault.
unfoldable pub print_mqtt_analysis : Strtol → Mqtt → Option (List (Option (List ℕ)))
print_mqtt_analysis strtol msg = do
  topic ← c_string msg.topic
  payload ← c_string msg.payload
  device_id ← shown_value strtol payload (codes "device_id")
  temperature ← shown_value strtol payload (codes "temperature")
  status ← shown_value strtol payload (codes "status")
  some (some topic ∷ some payload ∷ device_id ∷ temperature ∷ status ∷ [])

-- `sprintf` to `error_msg`: "Warning: Empty method in request: " and the path.
unfoldable pub warning : List ℕ → Option (List ℕ)
warning path = put_text (replicate 100 0) (codes "Warning: Empty method in request: " ++ path)

-- What `printf` is given as a format, if the method is empty.
unfoldable pub format_of : List ℕ → List ℕ → Option (Option (List ℕ))
format_of [] path = do buf ← warning path; text ← c_string buf; some (some text)
format_of (c ∷ method) path = some none

-- The method, the path, the body, the warning and two values of the body; `none` on a fault.
unfoldable pub print_http_analysis : Strtol → Http → Option (List (Option (List ℕ)))
print_http_analysis strtol msg = do
  method ← c_string msg.method
  path ← c_string msg.path
  body ← c_string msg.body
  format ← format_of method path
  action ← shown_value strtol body (codes "action")
  value ← shown_value strtol body (codes "value")
  some (some method ∷ some path ∷ some body ∷ format ∷ action ∷ value ∷ [])

abbrev is_some : Option (List ℕ) → Bool
is_some none = false
is_some (some rest) = true

-- `strncmp` of the first bytes
abbrev pub begins : List ℕ → List ℕ → Bool
begins prefix input = is_some (starts_with prefix input)

-- What is printed of a text in no known format: `none` when a null pointer is.
abbrev pub unknown_format : List ℕ → Option (List (Option (List ℕ)))
unknown_format input =
    if ltb 10 (length input) then some (some (codes "Unknown format") ∷ []) else none

-- One line without its end, as `main` takes it.
unfoldable pub analyse : Strtol → List ℕ → Option (List (Option (List ℕ)))
analyse strtol input =
    if begins (codes "mqtt") input
    then (do m ← parse_mqtt_topic input empty_mqtt; print_mqtt_analysis strtol m)
    else if begins (codes "GET") input || begins (codes "POST") input
    then (do m ← parse_http_request input empty_http; print_http_analysis strtol m)
    else unknown_format input
