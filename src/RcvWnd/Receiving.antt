-- ===== src/RcvWnd/Receiving.antt =====
-- The response of lwip/rcvwnd_issue/tcp_client/main/tcp_client_v4.c is what was received.
use esp_network_examples.Prelude.{
  ℕ, zero, suc, ◌+◌, ◌≤◌, ◌<◌, ℤ, pos, negsuc, List, [], ◌∷◌, ◌++◌, Option, none, some, ◌≡◌, inl,
  inr, refl, sym, ap, ◌∙◌, arith, append-nil, append_assoc, length, length-append, length-drop,
  take, take-append, drop, copy_at, copy_at-some, ltb, leb, Bool-cases,
}
use esp_network_examples.Os.{Env, Io, Trace}
use esp_network_examples.RcvWnd.Calls.{Call, recv, delay, Fits, ReadsAtMost}
use esp_network_examples.RcvWnd.{
  Response, fresh, tried, with_buffer, remaining_buffer, bytes_to_receive, add_bytes, if_more,
  after_recv, receive_loop,
}

-- The bytes of a `recv` that did not fail.
abbrev taken : ℤ → List ℕ → List ℕ
taken (pos n) bytes = bytes
taken (negsuc n) bytes = []

-- What was received, in order.
abbrev pub received : Trace Call → List ℕ
received [] = []
received ((recv fd n, a) ∷ t) = received t ++ taken a.ret a.bytes
received (_ ∷ t) = received t

-- A response of these bytes.
pub record Holds (s : Response) (got : List ℕ) : Type 0 where
  pub size : length s.rx_buffer ≡ 1500
  pub total : s.total_received ≡ length got
  pub room : length got < 1500
  pub content : take (length got) s.rx_buffer ≡ got

-- The response is what was received behind `base`, and `left` attempts are left.
abbrev Standing : List ℕ → ℕ → Response → Trace Call → Type 0
Standing base left s t =
    (got : List ℕ) × (received t ≡ base ++ got) × Holds s got × (s.receive_attempts + left ≤ 100)

-- The loop ends with a response of what was received, in at most 100 attempts.
abbrev pub Ends : List ℕ → Option Response × Trace Call → Type 0
Ends base (none, t) = ⊥
Ends base (some s, t) = Standing base 0 s t

fresh-Holds : Holds fresh []
fresh-Holds = record { size = refl; total = refl; room = omega arith; content = refl }

module _ (s : Response) (got bytes : List ℕ) (h : Holds s got) where
  filled : List ℕ
  filled = got ++ (bytes ++ drop (s.total_received + length bytes) s.rx_buffer)

  copied :
      length got + length bytes < 1500 → copy_at s.rx_buffer s.total_received bytes ≡ some filled
  unfolding filled
  copied fits =
      copy_at-some s.rx_buffer s.total_received bytes (omega (arith, h.size, h.total))
      ∙ rw (h.total, h.content)

  length-filled : length got + length bytes < 1500 → length filled ≡ 1500
  unfolding filled
  length-filled fits =
      let rest = drop (s.total_received + length bytes) s.rx_buffer in
      omega (
        arith,
        h.size,
        h.total,
        length-append got (bytes ++ rest),
        length-append bytes rest,
        length-drop (s.total_received + length bytes) s.rx_buffer,
      )

  take-filled : take (length (got ++ bytes)) filled ≡ got ++ bytes
  unfolding filled
  take-filled =
      ap (take (length (got ++ bytes)))
        (sym (append_assoc got bytes (drop (s.total_received + length bytes) s.rx_buffer)))
      ∙ take-append (got ++ bytes) _

  grown : ℕ → Response
  unfolding filled
  grown len = record s { rx_buffer = filled; total_received = s.total_received + len }

  add_bytes-some :
      (len : ℕ)
      → length bytes ≡ len
      → length got + len < 1500
      → add_bytes s bytes len ≡ some (grown len)
  unfolding add_bytes grown
  add_bytes-some len e fits = ap (with_buffer s len) (copied (omega arith))

  grown-Holds :
      (len : ℕ) → length bytes ≡ len → length got + len < 1500 → Holds (grown len) (got ++ bytes)
  unfolding grown
  grown-Holds len e fits = record {
    size = length-filled (omega arith);
    total = omega (arith, h.total, length-append got bytes);
    room = omega (arith, length-append got bytes);
    content = take-filled;
  }

bytes_to_receive-le : (total : ℕ) → total < 1500 → total + bytes_to_receive total < 1500
bytes_to_receive-le total h = ground arith

-- What is asked of the rest of the loop.
abbrev Continues : List ℕ → ℕ → (Response → Io Call (Option Response)) → Type 0
Continues base left next =
    (s : Response) (t : Trace Call) → Standing base left s t → Ends base (next s t)

Standing-stop :
    (base : List ℕ) (left : ℕ) (s : Response) (t : Trace Call)
    → Standing base left s t
    → Standing base 0 s t
Standing-stop base left s t (got, e, h, n) = (got, e, h, omega arith)

if_more-Ends :
    (base : List ℕ) (left : ℕ) (next : Response → Io Call (Option Response))
    → Continues base left next
    → (s : Response) (t : Trace Call) → Standing base left s t
    → Ends base (if_more next (some s) t)
if_more-Ends base left next keep s t h = elim (Bool-cases (leb 1500 s.total_received)) [
  | inl all ↦ rw all (Standing-stop base left s t h)
  | inr more ↦ rw more (keep s t h)
]

after_recv-Ends :
    (base : List ℕ) (left : ℕ) (next : Response → Io Call (Option Response))
    → Continues base left next
    → (s : Response) (got : List ℕ) → Holds s got
    → s.receive_attempts + left ≤ 100
    → (n : ℕ) (bytes : List ℕ) (ret : ℤ) → Fits n bytes ret
    → length got + n < 1500
    → (t : Trace Call) → received t ≡ base ++ (got ++ taken ret bytes)
    → Ends base (after_recv next s bytes ret t)
unfolding after_recv grown
after_recv-Ends base left next keep s got h k n bytes (negsuc e) fit room t r =
    (got, rw (append-nil got) at r, h, omega arith)
after_recv-Ends base left next keep s got h k n [] (pos zero) fit room t r =
    (got, rw (append-nil got) at r, h, omega arith)
after_recv-Ends base left next keep s got h k n (b ∷ bytes) (pos zero) fit room t r =
    absurd (omega arith)
after_recv-Ends base left next keep s got h k n bytes (pos (suc len)) fit room t r =
    rw (add_bytes-some s got bytes h (suc len) fit.0 (omega arith)) (
      if_more-Ends base left next keep (grown s got bytes h (suc len)) t
        (got ++ bytes, r, grown-Holds s got bytes h (suc len) fit.0 (omega arith), k))

tried-Holds : (s : Response) (got : List ℕ) → Holds s got → Holds (tried s) got
tried-Holds s got h = record { size = h.size; total = h.total; room = h.room; content = h.content }

receive_loop-Ends :
    (left : ℕ) (env : Env Call) (sock : ℤ) (base : List ℕ)
    → ReadsAtMost env
    → Continues base left (receive_loop left env sock)
unfolding receive_loop
receive_loop-Ends zero env sock base reads s t h = h
receive_loop-Ends (suc left) env sock base reads s t (got, e, h, k) =
    elim (Bool-cases (ltb s.total_received 1500)) [
      | inr full ↦ rw full (got, e, h, omega arith)
      | inl room ↦ rw room (elim (Bool-cases (leb (remaining_buffer s.total_received) 0)) [
        | inl none_left ↦ rw none_left (got, e, h, omega arith)
        | inr some_left ↦
            let n = bytes_to_receive s.total_received in
            let r = env t (recv sock n) in
            let t1 : Trace Call = (recv sock n, r) ∷ t in
            let t2 : Trace Call = (delay, env t1 delay) ∷ t1 in
            rw some_left (
              after_recv-Ends base left (receive_loop left env sock)
                (receive_loop-Ends left env sock base reads) (tried s) got (tried-Holds s got h)
                (omega arith) n r.bytes r.ret (reads t sock n)
                (omega (arith, h.total, h.room, bytes_to_receive-le s.total_received)) t2
                (rw e (append_assoc base got (taken r.ret r.bytes))))
      ])
    ]

-- Where `recv` writes as many bytes as it returns, and no more than it was asked for: the loop
-- never writes past its buffer, and it ends in at most 100 attempts with what was received, in
-- order, at the start of the buffer; this is always less than the 1500 bytes that are expected.
pub receive_loop-Holds :
    (env : Env Call) (sock : ℤ) (t : Trace Call)
    → ReadsAtMost env
    → Ends (received t) (receive_loop 100 env sock fresh t)
receive_loop-Holds env sock t reads =
    receive_loop-Ends 100 env sock (received t) reads fresh t
      ([], sym (append-nil (received t)), fresh-Holds, omega arith)
