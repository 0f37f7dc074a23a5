-- ===== src/Iot/Tests.antt =====
-- The theorems on the parser of messages, applied to messages.
use esp_network_examples.Prelude.{
  ℕ, ◌<◌, List, [], none, some, ◌≡◌, ◌≢◌, ◌⊎◌, inl, inr, arith, codes, replicate, IsText,
}
use esp_network_examples.Iot.{
  format_of, Strtol, empty_mqtt, empty_http, parse_mqtt_topic, parse_http_request,
  extract_json_value,
}
use esp_network_examples.Iot.Text.{Avoids}
use esp_network_examples.Iot.Warning.{format_of-path}
use esp_network_examples.Iot.Messages.{
  HoldsMqtt, HoldsHttp, parse_mqtt_topic-Parsed, parse_http_request-Parsed,
}
use esp_network_examples.Iot.Json.{extract_json_value-Extracted}

ne : (a b : ℕ) → (a < b) ⊎ (b < a) → a ≢ b
ne a b (inl h) e = absurd (omega arith)
ne a b (inr h) e = absurd (omega arith)

abbrev topic : List ℕ
topic = codes "/a"

topic-Avoids : Avoids 32 topic
topic-Avoids = (ne 32 47 (inl (omega arith)), (ne 32 97 (inl (omega arith)), tt))

topic-IsText : IsText topic
topic-IsText = (ne 47 0 (inr (omega arith)), (ne 97 0 (inr (omega arith)), tt))

parse_mqtt_topic-Parsed_example :
    HoldsMqtt (parse_mqtt_topic (codes "mqtt/a /a") empty_mqtt) topic topic
parse_mqtt_topic-Parsed_example =
    parse_mqtt_topic-Parsed topic topic empty_mqtt topic-Avoids topic-IsText topic-IsText

parse_http_request-Parsed_example :
    HoldsHttp (parse_http_request (codes "/a /a /a") empty_http) topic topic topic
parse_http_request-Parsed_example =
    parse_http_request-Parsed topic topic topic empty_http (topic-Avoids, topic-Avoids)
      (topic-IsText, (topic-IsText, topic-IsText))

abbrev no_number : Strtol
no_number text = ([], 0)

brace-Avoids : Avoids 34 (codes "{")
brace-Avoids = (ne 34 123 (inl (omega arith)), tt)

value-Avoids : Avoids 34 topic
value-Avoids = (ne 34 47 (inl (omega arith)), (ne 34 97 (inl (omega arith)), tt))

-- The buffer is too small.
extract_json_value-Extracted_example :
    extract_json_value no_number (codes "{\"id\":\"/a\"}") (codes "id") (replicate 2 0) ≡ none
extract_json_value-Extracted_example =
    extract_json_value-Extracted no_number (codes "{") (codes "id") topic (codes "}")
      (replicate 2 0) brace-Avoids value-Avoids (omega arith) topic-IsText

format_of-path_example :
    format_of [] topic ≡ some (some (codes "Warning: Empty method in request: /a"))
format_of-path_example = format_of-path topic topic-IsText (omega arith)
