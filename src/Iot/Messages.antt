-- ===== src/Iot/Messages.antt =====
-- The messages of fuzz-me/sample/iot_parser.c are parsed exactly when their parts fit.
use esp_network_examples.Prelude.{
  put_text, put_text-fits, put_text-overflows, ℕ, ◌≤◌, ◌<◌, List, ◌∷◌, ◌++◌, Option, none, some,
  ◌≡◌, ◌⊎◌, inl, inr, refl, ◌>>=◌, Bool, true, false, ◌&&◌, ltb, ltb→lt, not_ltb→le, Bool-cases,
  codes, length, c_string, c_string_lem, IsText,
}
use esp_network_examples.Iot.{
  Mqtt, Http, store_topic, parse_mqtt_topic, store_path, store_method, parse_http_request,
}
use esp_network_examples.Iot.Text.{Avoids, split_at-append}

-- A message holds a topic and a payload.
abbrev pub HoldsMqtt : Option Mqtt → List ℕ → List ℕ → Type 0
HoldsMqtt none topic payload = ⊥
HoldsMqtt (some m) topic payload =
    (c_string m.topic ≡ some topic) × (c_string m.payload ≡ some payload)

parse_mqtt_topic-Holds :
    (topic payload : List ℕ) (msg : Mqtt)
    → Avoids 32 topic
    → IsText topic
    → IsText payload
    → length topic < length msg.topic
    → length payload < length msg.payload
    → HoldsMqtt (parse_mqtt_topic (codes "mqtt" ++ (topic ++ (32 ∷ payload))) msg) topic payload
unfolding parse_mqtt_topic store_topic
parse_mqtt_topic-Holds topic payload msg a t p f g =
    rw
      (
        split_at-append 32 topic payload a,
        put_text-fits msg.topic topic f,
        put_text-fits msg.payload payload g,
      )
      ((c_string_lem topic _ t, c_string_lem payload _ p))

nothing_behind : {A B : Type 0} (o : Option A) → ◌≡◌ {A = Option B} (o >>= λ _. none) none
nothing_behind none = refl
nothing_behind (some a) = refl

parse_mqtt_topic-overflows :
    (topic payload : List ℕ) (msg : Mqtt)
    → Avoids 32 topic
    → (length msg.topic ≤ length topic) ⊎ (length msg.payload ≤ length payload)
    → parse_mqtt_topic (codes "mqtt" ++ (topic ++ (32 ∷ payload))) msg ≡ none
unfolding parse_mqtt_topic store_topic
parse_mqtt_topic-overflows topic payload msg a (inl f) =
    rw (split_at-append 32 topic payload a, put_text-overflows msg.topic topic f)
parse_mqtt_topic-overflows topic payload msg a (inr g) =
    rw (split_at-append 32 topic payload a, put_text-overflows msg.payload payload g)
      (nothing_behind (put_text msg.topic topic))

-- The result by whether the parts fit: the message that holds them, or a fault.
abbrev pub ParsedMqtt : Bool → Option Mqtt → List ℕ → List ℕ → Type 0
ParsedMqtt true o topic payload = HoldsMqtt o topic payload
ParsedMqtt false o topic payload = o ≡ none

-- A topic without a space and a payload are what the message then holds, if they fit in the buffers
-- with a NUL each; otherwise they are written past the end of a buffer.
pub parse_mqtt_topic-Parsed :
    (topic payload : List ℕ) (msg : Mqtt)
    → Avoids 32 topic
    → IsText topic
    → IsText payload
    → ParsedMqtt
        (ltb (length topic) (length msg.topic) && ltb (length payload) (length msg.payload))
        (parse_mqtt_topic (codes "mqtt" ++ (topic ++ (32 ∷ payload))) msg)
        topic
        payload
parse_mqtt_topic-Parsed topic payload msg a t p =
    elim (Bool-cases (ltb (length topic) (length msg.topic))) [
      | inl f ↦ elim (Bool-cases (ltb (length payload) (length msg.payload))) [
        | inl g ↦
            rw (f, g) (parse_mqtt_topic-Holds topic payload msg a t p (ltb→lt _ _ f) (ltb→lt _ _ g))
        | inr g ↦
            rw (f, g) (parse_mqtt_topic-overflows topic payload msg a (inr (not_ltb→le _ _ g)))
      ]
      | inr f ↦ rw f (parse_mqtt_topic-overflows topic payload msg a (inl (not_ltb→le _ _ f)))
    ]

-- A request holds a method, a path and a body.
abbrev pub HoldsHttp : Option Http → List ℕ → List ℕ → List ℕ → Type 0
HoldsHttp none method path body = ⊥
HoldsHttp (some m) method path body =
    (c_string m.method ≡ some method)
    × ((c_string m.path ≡ some path) × (c_string m.body ≡ some body))

parse_http_request-Holds :
    (method path body : List ℕ) (msg : Http)
    → Avoids 32 method × Avoids 32 path
    → IsText method × (IsText path × IsText body)
    → length method < length msg.method
    → length path < length msg.path
    → length body < length msg.body
    → HoldsHttp (parse_http_request (method ++ (32 ∷ (path ++ (32 ∷ body)))) msg) method path body
unfolding parse_http_request store_method store_path
parse_http_request-Holds method path body msg (a, b) (t, (u, v)) f g h =
    rw
      (
        split_at-append 32 method (path ++ (32 ∷ body)) a,
        put_text-fits msg.method method f,
        split_at-append 32 path body b,
        put_text-fits msg.path path g,
        put_text-fits msg.body body h,
      )
      ((c_string_lem method _ t, (c_string_lem path _ u, c_string_lem body _ v)))

-- The parts of a request are copied one behind the other.
parse_http_request-copies :
    (method path body : List ℕ) (msg : Http)
    → Avoids 32 method × Avoids 32 path
    → parse_http_request (method ++ (32 ∷ (path ++ (32 ∷ body)))) msg ≡ (
        put_text msg.method method >>= λ m. put_text msg.path path >>= λ p.
        put_text msg.body body >>= λ b. some (record { method = m; path = p; body = b }))
unfolding parse_http_request store_method store_path
parse_http_request-copies method path body msg (a, b) =
    rw (split_at-append 32 method (path ++ (32 ∷ body)) a, split_at-append 32 path body b) refl

none_behind :
    {A B C : Type 0} (o : Option A) (q : Option B)
    → ◌≡◌ {A = Option C} (o >>= λ _. q >>= λ _. none) none
none_behind none q = refl
none_behind (some a) q = nothing_behind q

-- A part that does not fit is written past the end of its buffer.
parse_http_request-overflows :
    (method path body : List ℕ) (msg : Http)
    → Avoids 32 method × Avoids 32 path
    → (length msg.method ≤ length method)
      ⊎ ((length msg.path ≤ length path) ⊎ (length msg.body ≤ length body))
    → parse_http_request (method ++ (32 ∷ (path ++ (32 ∷ body)))) msg ≡ none
parse_http_request-overflows method path body msg av (inl f) =
    rw (parse_http_request-copies method path body msg av, put_text-overflows msg.method method f)
parse_http_request-overflows method path body msg av (inr (inl f)) =
    rw (parse_http_request-copies method path body msg av, put_text-overflows msg.path path f)
      (nothing_behind (put_text msg.method method))
parse_http_request-overflows method path body msg av (inr (inr f)) =
    rw (parse_http_request-copies method path body msg av, put_text-overflows msg.body body f)
      (none_behind (put_text msg.method method) (put_text msg.path path))

-- The result by whether the parts fit: the request that holds them, or a fault.
abbrev pub ParsedHttp : Bool → Option Http → List ℕ → List ℕ → List ℕ → Type 0
ParsedHttp true o method path body = HoldsHttp o method path body
ParsedHttp false o method path body = o ≡ none

-- A method and a path without a space, and a body, are what the request then holds, if they fit in
-- the buffers with a NUL each; otherwise they are written past the end of a buffer.
pub parse_http_request-Parsed :
    (method path body : List ℕ) (msg : Http)
    → Avoids 32 method × Avoids 32 path
    → IsText method × (IsText path × IsText body)
    → ParsedHttp
        (ltb (length method) (length msg.method)
          && (ltb (length path) (length msg.path) && ltb (length body) (length msg.body)))
        (parse_http_request (method ++ (32 ∷ (path ++ (32 ∷ body)))) msg)
        method
        path
        body
parse_http_request-Parsed method path body msg av t =
    let overflows = parse_http_request-overflows method path body msg av in
    elim (Bool-cases (ltb (length method) (length msg.method))) [
      | inl f ↦ elim (Bool-cases (ltb (length path) (length msg.path))) [
        | inl g ↦ elim (Bool-cases (ltb (length body) (length msg.body))) [
          | inl h ↦
              rw (f, g, h)
                (parse_http_request-Holds method path body msg av t (ltb→lt _ _ f) (ltb→lt _ _ g)
                  (ltb→lt _ _ h))
          | inr h ↦ rw (f, g, h) (overflows (inr (inr (not_ltb→le _ _ h))))
        ]
        | inr g ↦ rw (f, g) (overflows (inr (inl (not_ltb→le _ _ g))))
      ]
      | inr f ↦ rw f (overflows (inl (not_ltb→le _ _ f)))
    ]
