-- ===== src/EchoServer/Send/Delivery.antt =====
-- What `socket_send` of lwip-intro/sockets/tcp_server.c delivers.
use esp_network_examples.Prelude.{
  ℕ, zero, suc, ◌+◌, ◌-◌, ◌≤◌, ◌<◌, ℤ, pos, negsuc, true, false, List, [], ◌∷◌, ◌++◌, ◌≡◌, ◌≢◌, ◌⊎◌,
  inl, inr, refl, sym, ap, ◌∙◌, arith, length, take, drop, length-drop, drop-drop, take-append-drop,
  append_assoc, append-nil, drop_all,
}
use esp_network_examples.Os.{Env, Trace}
use esp_network_examples.EchoServer.Calls.{Call, send, is_transient}
use esp_network_examples.EchoServer.Send.{SendResult, returned, faulted, send_loop, socket_send}

-- The bytes that one call delivers: as many as the answer says.
abbrev delivery : Call → ℤ → List ℕ
delivery (send fd xs) (pos w) = take w xs
delivery _ _ = []

-- The bytes that all calls of a trace delivered, in order.
unfoldable pub delivered : Trace Call → List ℕ
delivered [] = []
delivered ((c, r) ∷ t) = delivered t ++ delivery c r.ret

-- Each `send` of some bytes takes at least one of them and at most all, or fails for good.
abbrev pub AcceptsOrFails : Env Call → Type 0
AcceptsOrFails env =
    (t : Trace Call) (fd : ℤ) (xs : List ℕ)
    → xs ≢ []
    → ((w : ℕ) × ((env t (send fd xs)).ret ≡ pos (suc w)) × (suc w ≤ length xs))
      ⊎ ((n : ℕ) × ((env t (send fd xs)).ret ≡ negsuc n)
          × (is_transient (env t (send fd xs)).errno ≡ false))

-- How a call may end that has the bytes `left` to send, of `len` in all: with the length, and all
-- of them delivered; or with -1, and some of them, from the first on.
abbrev pub Delivers : ℕ → List ℕ → Trace Call → SendResult × Trace Call → Type 0
Delivers len left before r =
    ((r.0 ≡ returned (pos len)) × (delivered r.1 ≡ delivered before ++ left))
    ⊎ ((r.0 ≡ returned (negsuc 0)) × ((n : ℕ) × (delivered r.1 ≡ delivered before ++ take n left)))

-- One round on the bytes from `at` on.
abbrev asked : Env Call → ℤ → List ℕ → ℕ → Trace Call → Trace Call
asked env sock xs k t =
    (send sock (drop (length xs - k) xs), env t (send sock (drop (length xs - k) xs))) ∷ t

module _ (env : Env Call) (fuel : ℕ) (sock : ℤ) (xs : List ℕ) (n : ℕ) (t : Trace Call) where
  send_loop_taken :
      (w : ℕ)
      → suc n ≤ length xs
      → (env t (send sock (drop (length xs - suc n) xs))).ret ≡ pos (suc w)
      → send_loop env (suc fuel) sock xs (suc n) t
        ≡ send_loop env fuel sock xs (suc n - suc w) (asked env sock xs (suc n) t)
  unfolding send_loop
  send_loop_taken w h e = ground arith

  send_loop_failed :
      (m : ℕ)
      → suc n ≤ length xs
      → (env t (send sock (drop (length xs - suc n) xs))).ret ≡ negsuc m
      → is_transient (env t (send sock (drop (length xs - suc n) xs))).errno ≡ false
      → send_loop env (suc fuel) sock xs (suc n) t
        ≡ (returned (negsuc 0), asked env sock xs (suc n) t)
  unfolding send_loop
  send_loop_failed m h e f = ground arith

  -- The transient failure is taken for the delivery of a negative number of bytes.
  send_loop_again :
      (m : ℕ)
      → suc n ≤ length xs
      → (env t (send sock (drop (length xs - suc n) xs))).ret ≡ negsuc m
      → is_transient (env t (send sock (drop (length xs - suc n) xs))).errno ≡ true
      → send_loop env (suc fuel) sock xs (suc n) t
        ≡ send_loop env fuel sock xs (suc n + suc m) (asked env sock xs (suc n) t)
  unfolding send_loop
  send_loop_again m h e f = ground arith

-- What is left behind `w` of the bytes.
drop_rest :
    (xs : List ℕ) (k w : ℕ)
    → w ≤ k
    → k ≤ length xs
    → drop (length xs - (k - w)) xs ≡ drop w (drop (length xs - k) xs)
drop_rest xs k w h g =
    let e : length xs - (k - w) ≡ length xs - k + w = omega arith in
    ap (λ (m : ℕ). drop m xs) e ∙ sym (drop-drop (length xs - k) w xs)

-- A prefix of the bytes that are left behind `w` of them extends to a prefix of all of them.
take_join :
    (w n : ℕ) (ys : List ℕ)
    → w ≤ length ys
    → (m : ℕ) × (take w ys ++ take n (drop w ys) ≡ take m ys)
take_join zero n ys h = (n, refl)
take_join (suc w) n [] h = elim h [ ]
take_join (suc w) n (y ∷ ys) h =
    let (m, e) = take_join w n ys (omega arith) in (suc m, ap (λ zs. y ∷ zs) e)

-- Delivering `w` bytes first, and then as described.
Delivers-step :
    (len w : ℕ) (left : List ℕ) (before after : Trace Call) (r : SendResult × Trace Call)
    → w ≤ length left
    → delivered after ≡ delivered before ++ take w left
    → Delivers len (drop w left) after r
    → Delivers len left before r
Delivers-step len w left before after r h e (inl (q, d)) = inl (
  q,
  d
      ∙ rw e (
          append_assoc (delivered before) (take w left) (drop w left)
          ∙ ap (λ ys. delivered before ++ ys) (take-append-drop w left)),
)
Delivers-step len w left before after r h e (inr (q, (n, d))) =
    let (m, j) = take_join w n left h in
    inr (
      q,
      (
        m,
        d
            ∙ rw e (
                append_assoc (delivered before) (take w left) (take n (drop w left))
                ∙ ap (λ ys. delivered before ++ ys) j),
      ),
    )

-- What one call adds to what was delivered.
delivered_taken :
    (env : Env Call) (sock : ℤ) (xs : List ℕ) (k w : ℕ) (t : Trace Call)
    → (env t (send sock (drop (length xs - k) xs))).ret ≡ pos w
    → delivered (asked env sock xs k t) ≡ delivered t ++ take w (drop (length xs - k) xs)
unfolding delivered
delivered_taken env sock xs k w t e =
    ap (λ z. delivered t ++ delivery (send sock (drop (length xs - k) xs)) z) e

delivered_failed :
    (env : Env Call) (sock : ℤ) (xs : List ℕ) (k m : ℕ) (t : Trace Call)
    → (env t (send sock (drop (length xs - k) xs))).ret ≡ negsuc m
    → delivered (asked env sock xs k t) ≡ delivered t ++ []
unfolding delivered
delivered_failed env sock xs k m t e =
    ap (λ z. delivered t ++ delivery (send sock (drop (length xs - k) xs)) z) e

send_loop_done :
    (env : Env Call) (fuel : ℕ) (sock : ℤ) (xs : List ℕ) (t : Trace Call)
    → Delivers (length xs) (drop (length xs - 0) xs) t (send_loop env (suc fuel) sock xs zero t)
unfolding send_loop
send_loop_done env fuel sock xs t =
    inl (refl, rw (drop_all (length xs - 0) xs (omega arith), append-nil (delivered t)))

module _ (env : Env Call) (ok : AcceptsOrFails env) where
  send_loop-Delivers :
      (fuel : ℕ) (sock : ℤ) (xs : List ℕ) (k : ℕ) (t : Trace Call)
      → k ≤ length xs
      → k < fuel
      → Delivers (length xs) (drop (length xs - k) xs) t (send_loop env fuel sock xs k t)
  send_loop-Delivers zero sock xs k t h f = elim f [ ]
  send_loop-Delivers (suc fuel) sock xs zero t h f = send_loop_done env fuel sock xs t
  send_loop-Delivers (suc fuel) sock xs (suc n) t h f =
      let left = drop (length xs - suc n) xs in
      let size : length left ≡ suc n = omega (arith, length-drop (length xs - suc n) xs) in
      elim (ok t sock left (λ e. absurd (omega (arith, size, ap length e)))) [
        | inl (w, e, le) ↦ rw (send_loop_taken env fuel sock xs n t w h e) (
            Delivers-step (length xs) (suc w) left t (asked env sock xs (suc n) t) _ le
              (delivered_taken env sock xs (suc n) (suc w) t e)
              (rw (← drop_rest xs (suc n) (suc w) (omega (arith, size)) h) (
                send_loop-Delivers fuel sock xs (suc n - suc w) (asked env sock xs (suc n) t)
                  (omega arith) (omega arith))))
        | inr (m, e, lasting) ↦
            rw (send_loop_failed env fuel sock xs n t m h e lasting)
              (inr (refl, (0, delivered_failed env sock xs (suc n) m t e)))
      ]

  -- Where each `send` takes some of its bytes or fails for good, `socket_send` returns: with the
  -- length, and then the bytes were delivered in order and once each; or with -1, and then a
  -- prefix of them was.
  pub socket_send-Delivers :
      (fuel : ℕ) (sock : ℤ) (xs : List ℕ) (t : Trace Call)
      → length xs < fuel
      → Delivers (length xs) xs t (socket_send env fuel sock xs t)
  unfolding socket_send
  socket_send-Delivers fuel sock xs t h =
      rw (← same) at (send_loop-Delivers fuel sock xs (length xs) t (omega arith) h)
    where
      same : xs ≡ drop (length xs - length xs) xs
      same = let e : 0 ≡ length xs - length xs = omega arith in ap (λ (n : ℕ). drop n xs) e

-- More to write than there is: the bytes to send would begin in front of the data.
send_loop_over :
    (env : Env Call) (fuel : ℕ) (sock : ℤ) (xs : List ℕ) (k : ℕ) (t : Trace Call)
    → length xs < k
    → send_loop env (suc fuel) sock xs k t ≡ (faulted, t)
unfolding send_loop
send_loop_over env fuel sock xs zero t h = elim h [ ]
send_loop_over env fuel sock xs (suc k) t h = ground arith

-- A transient failure of a `send` of all bytes makes `socket_send` read in front of its data in
-- the next round: the -1 is subtracted from what is left to write.
pub socket_send_again :
    (env : Env Call) (fuel : ℕ) (sock : ℤ) (xs : List ℕ) (m : ℕ) (t : Trace Call)
    → xs ≢ []
    → (env t (send sock xs)).ret ≡ negsuc m
    → is_transient (env t (send sock xs)).errno ≡ true
    → (socket_send env (suc (suc fuel)) sock xs t).0 ≡ faulted
unfolding socket_send
socket_send_again env fuel sock [] m t ne e f = absurd (ne refl)
socket_send_again env fuel sock (x ∷ xs) m t ne e f =
    let n = length xs in
    let none_sent : suc n - suc n ≡ 0 = omega arith in
    let whole : drop (suc n - suc n) (x ∷ xs) ≡ x ∷ xs =
      ap (λ (k : ℕ). drop k (x ∷ xs)) none_sent in
    rw (
      send_loop_again env (suc fuel) sock (x ∷ xs) n t m (omega arith)
          (ap (λ ys. (env t (send sock ys)).ret) whole ∙ e)
          (ap (λ ys. is_transient (env t (send sock ys)).errno) whole ∙ f),
      send_loop_over env fuel sock (x ∷ xs) (suc n + suc m) (asked env sock (x ∷ xs) (suc n) t)
          (omega arith),
    )
