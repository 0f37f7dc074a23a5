-- ===== src/Async/Chunks.antt =====
-- What a client of async-server/server/main/async_server_pthread.c is sent.
use esp_network_examples.Prelude.{
  ℕ, zero, suc, ◌+◌, ◌-◌, ◌≤◌, ℤ, List, [], ◌∷◌, ◌++◌, ◌≡◌, inl, inr, refl, sym, ap, ◌∙◌, arith,
  append-nil, append_assoc, map, length, take, drop, drop_all, drop-drop, take_all,
  take-append-drop, length-drop, ltb, not_ltb→le, Bool-cases,
}
use esp_network_examples.Os.{Answer, Env, Trace}
use esp_network_examples.Async.{
  Call, send, close, free_args, chunk_size, header, chunk, send_chunks, handle_client,
}

-- The bytes that were handed to `send`, in order.
abbrev pub sent : Trace Call → List ℕ
sent [] = []
sent ((send fd bs, a) ∷ t) = sent t ++ bs
sent (_ ∷ t) = sent t

-- A chunk and what is left behind it are what was left before.
chunk-drop :
    (bs : List ℕ) (offset : ℕ)
    → take (chunk (length bs) offset) (drop offset bs) ++ drop (offset + chunk_size) bs
      ≡ drop offset bs
chunk-drop bs offset = elim (Bool-cases (ltb chunk_size (length bs - offset))) [
  | inl long ↦ rw long (
      ap (λ rest. take 100 (drop offset bs) ++ rest) (sym (drop-drop offset 100 bs))
      ∙ take-append-drop 100 (drop offset bs))
  | inr short ↦ rw short (
      let rest = not_ltb→le chunk_size (length bs - offset) short in
      let left = length-drop offset bs in
      let gone : drop (offset + chunk_size) bs ≡ [] =
        drop_all (offset + 100) bs (omega (arith, rest)) in
      rw gone (append-nil _ ∙ take_all (length bs - offset) (drop offset bs) (omega (arith, left))))
]

-- A chunk more was sent: what was sent and what is left are the same as before.
pub sent-chunk :
    (bs out whole : List ℕ) (offset : ℕ)
    → out ++ drop offset bs ≡ whole
    → (out ++ take (chunk (length bs) offset) (drop offset bs)) ++ drop (offset + chunk_size) bs
      ≡ whole
sent-chunk bs out whole offset e =
    append_assoc out (take (chunk (length bs) offset) (drop offset bs))
      (drop (offset + chunk_size) bs)
    ∙ ap (λ rest. out ++ rest) (chunk-drop bs offset)
    ∙ e

send_chunks-sent :
    (turns : ℕ) (env : Env Call) (fd : ℤ) (bs : List ℕ) (offset : ℕ) (t : Trace Call)
    → length bs ≤ offset + turns
    → sent (send_chunks turns env fd bs offset t).1 ≡ sent t ++ drop offset bs
unfolding send_chunks
send_chunks-sent zero env fd bs offset t h =
    let gone : drop offset bs ≡ [] = drop_all offset bs (omega arith) in
    rw gone (sym (append-nil (sent t)))
send_chunks-sent (suc turns) env fd bs offset t h = elim (Bool-cases (ltb offset (length bs))) [
  | inl more ↦ rw more (
      send_chunks-sent turns env fd bs (offset + chunk_size) _ (omega arith)
      ∙ append_assoc (sent t) (take (chunk (length bs) offset) (drop offset bs))
          (drop (offset + chunk_size) bs)
      ∙ ap (λ rest. sent t ++ rest) (chunk-drop bs offset))
  | inr done ↦
      let gone : drop offset bs ≡ [] = drop_all offset bs (not_ltb→le offset (length bs) done) in
      rw done (rw gone (sym (append-nil (sent t))))
]

-- A client is sent the header and then the whole file, in order and once, whatever the answers
-- are; then its socket is closed and its arguments are freed, each once and last.
pub handle_client-Sends :
    (env : Env Call) (fd : ℤ) (bs : List ℕ) (t : Trace Call)
    → (sent (handle_client env fd bs t).1 ≡ (sent t ++ header (length bs)) ++ bs)
      × (take 2 (map (λ (p : Call × Answer). p.0) (handle_client env fd bs t).1)
          ≡ free_args ∷ close fd ∷ [])
unfolding handle_client
handle_client-Sends env fd bs t = (send_chunks-sent (length bs) env fd bs 0 _ (omega arith), refl)
