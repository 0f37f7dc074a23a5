-- ===== src/Aead/Receiver.antt =====
-- ascon/receiver/main/receiver.c: each round takes a datagram apart into nonce, ciphertext and tag,
-- decrypts it and logs what it found.
pub mod Split
pub mod Link
pub mod Limits
use esp_network_examples.Prelude.{
  ℕ, zero, suc, ◌+◌, ◌-◌, ◌*◌, ℤ, is_zero, Bool, is_neg, List, [], ◌∷◌, ◌++◌, map, Option, none,
  some, ◌>>=◌, ltb, if◌then◌else◌, length, replicate, take, drop, read, store, copy_at, c_string,
}
use esp_network_examples.Aead.Codec.{bytes_to_hex}
use esp_network_examples.Aead.Provider.{Impl, nonce_len, tag_len, Reply, Provider}
use esp_network_examples.Aead.Sender.{g_key, len_or_zero}

-- The static buffers of `app_main`.
pub record Receiver : Type 0 where
  pub buf : List ℕ
  pub aad : List ℕ
  pub pt : List ℕ
  pub nonce_hex : List ℕ
  pub ct_hex : List ℕ

abbrev pub initial : Impl → Receiver
initial i = record {
  buf = replicate 2048 0;
  aad = replicate 8 0;
  pt = replicate 1024 0;
  nonce_hex = replicate (nonce_len i * 2 + 1) 0;
  ct_hex = replicate 1024 0;
}

pub data Log : Type 0 where
  packet_too_short : ℕ → Log
  opened : List ℕ → List ℕ → List ℕ → Log
  auth_failure : List ℕ → List ℕ → Log

module _ (p : Provider) where
  -- Behind the call of `aead_decrypt`.
  unfoldable pub log_packet : List ℕ → List ℕ → Reply → Receiver → Option (Receiver × Log)
  log_packet nonce ct r s = do
    nonce_hex ← bytes_to_hex nonce s.nonce_hex (nonce_len p.impl * 2 + 1)
    ct_hex ← bytes_to_hex ct s.ct_hex 1024
    nonce_text ← c_string nonce_hex
    ct_text ← c_string ct_hex
    (let print_len = if ltb (len_or_zero r.len) 1023 then len_or_zero r.len else 1023 in
        if is_zero r.ret
        then (do
          pt ← store r.out print_len 0
          text ← c_string pt
          some (
            record s { pt = pt; nonce_hex = nonce_hex; ct_hex = ct_hex },
            opened nonce_text ct_text text,
          ))
        else some (
          record s { pt = r.out; nonce_hex = nonce_hex; ct_hex = ct_hex },
          auth_failure nonce_text ct_text,
        ))

  -- One round of the loop, on the datagram that `recvfrom` took; the rest of a datagram that is
  -- longer than the buffer is lost. Only the bytes of the nonce are handed on.
  unfoldable pub recv_round : List ℕ → Receiver → Option (Receiver × Log)
  recv_round dgram s = do
    buf ← copy_at s.buf 0 (take 2048 dgram)
    (let r = length (take 2048 dgram) in
        if ltb r (nonce_len p.impl + tag_len p.impl)
        then some (record s { buf = buf }, packet_too_short r)
        else (do
          nonce ← read (nonce_len p.impl) buf
          ct ← read (r - nonce_len p.impl) (drop (nonce_len p.impl) buf)
          head ← read 8 nonce
          aad ← copy_at s.aad 0 head
          reply ← p.decrypt s.pt (some 0) ct aad nonce (g_key p.impl)
          log_packet nonce ct reply (record s { buf = buf; aad = aad })))

  -- The loop over the datagrams that arrive; it ends when `recvfrom` fails, behind the last one.
  unfoldable pub recv_loop : List (List ℕ) → Receiver → Option (List Log)
  recv_loop [] s = some []
  recv_loop (d ∷ ds) s = do (s', log) ← recv_round d s; logs ← recv_loop ds s'; some (log ∷ logs)

-- What the program lets see: its log, and the close of its socket.
pub data Seen : Type 0 where
  logged : Log → Seen
  socket_closed : ℤ → Seen

-- `app_main` behind the start of the network, with the results of `socket` and `bind`, and the
-- datagrams that arrive until `recvfrom` fails.
unfoldable pub receiver_main : Provider → ℤ → ℤ → List (List ℕ) → Option (List Seen)
receiver_main p sock bound ds =
    if is_neg sock
    then some []
    else if is_neg bound
    then some (socket_closed sock ∷ [])
    else recv_loop p ds (initial p.impl)
      >>= (λ logs. some (map logged logs ++ (socket_closed sock ∷ [])))
