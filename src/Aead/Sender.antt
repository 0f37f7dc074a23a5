-- ===== src/Aead/Sender.antt =====
-- ascon/sender/main/sender.c: each round encrypts the same text under a nonce that holds the
-- counter, and sends nonce, ciphertext and tag in one datagram.
pub mod Packets
use esp_network_examples.Prelude.{
  ℕ, zero, suc, ◌+◌, ◌*◌, ◌%◌, ◌^◌, ℤ, is_neg, is_zero, Bool, List, [], ◌∷◌, Option, none, some,
  ◌>>=◌, ltb, if◌then◌else◌, codes, replicate, read, copy_at, length,
}
use esp_network_examples.Aead.Codec.{be64, bytes_to_hex}
use esp_network_examples.Aead.Provider.{Impl, key_len, nonce_len, Reply, Provider}

-- `0x00, 0x01, …` up to the length of the key
abbrev pub count_up : ℕ → ℕ → List ℕ
count_up zero n = []
count_up (suc k) n = n ∷ count_up k (suc n)

abbrev pub g_key : Impl → List ℕ
g_key i = count_up (key_len i) 0

abbrev pub plaintext : List ℕ
plaintext = codes "Hello from ESP32!"

-- The variables of `app_main` that outlive a round: its counter and its static buffers.
pub record Sender : Type 0 where
  pub counter : ℕ
  pub nonce : List ℕ
  pub ct_and_tag : List ℕ
  pub packet : List ℕ
  pub nonce_hex : List ℕ
  pub ct_hex : List ℕ

abbrev pub initial : Impl → Sender
initial i = record {
  counter = 1;
  nonce = replicate (nonce_len i) 0;
  ct_and_tag = replicate 512 0;
  packet = replicate (nonce_len i + 512) 0;
  nonce_hex = replicate (nonce_len i * 2 + 1) 0;
  ct_hex = replicate 1024 0;
}

pub data StopReason : Type 0 where
  encrypt_failed ciphertext_too_large send_failed : StopReason

pub data Round : Type 0 where
  stopped : StopReason → Round
  sent : List ℕ → Sender → Round

-- `len` was given as a pointer to `clen`, which holds 0 before the call.
abbrev pub len_or_zero : Option ℕ → ℕ
len_or_zero none = 0
len_or_zero (some n) = n

module _ (p : Provider) (sendto : List ℕ → ℤ) where
  -- The end of a round, behind `sendto`: the hexadecimal texts for the log, and the counter.
  unfoldable pub log_round : List ℕ → List ℕ → List ℕ → Sender → Option Round
  log_round nonce ct datagram s = do
    nonce_hex ← bytes_to_hex nonce s.nonce_hex (nonce_len p.impl * 2 + 1)
    ct_hex ← bytes_to_hex ct s.ct_hex 1024
    some (
        sent datagram
          (record s { nonce_hex = nonce_hex; ct_hex = ct_hex; counter = (s.counter + 1) % 2 ^ 64 }))

  -- From the check of the ciphertext's length on.
  unfoldable pub send_sealed : List ℕ → ℕ → Sender → Option Round
  send_sealed nonce clen s = if ltb 512 clen then some (stopped ciphertext_too_large) else (do
    head ← read (nonce_len p.impl) nonce
    packet ← copy_at s.packet 0 head
    ct ← read clen s.ct_and_tag
    packet' ← copy_at packet (nonce_len p.impl) ct
    datagram ← read (nonce_len p.impl + clen) packet'
    (if is_neg (sendto datagram)
        then some (stopped send_failed)
        else log_round nonce ct datagram (record s { packet = packet' })))

  -- One round of the loop. The buffer for `aad` is on the stack, and all of it is written.
  unfoldable pub send_round : Sender → Option Round
  send_round s = do
    nonce ← be64 s.nonce s.counter
    aad ← be64 (replicate 8 0) s.counter
    r ← p.encrypt s.ct_and_tag (some 0) plaintext aad nonce (g_key p.impl)
    (if is_zero r.ret
        then send_sealed nonce (len_or_zero r.len) (record s { nonce = nonce; ct_and_tag = r.out })
        else some (stopped encrypt_failed))

-- What the program does to the network: datagrams, and at last the close of its socket.
pub data Event : Type 0 where
  datagram : List ℕ → Event
  closed : Event

module _ (p : Provider) (sendto : List ℕ → ℤ) where
  -- The first rounds of the loop; `none` is a fault.
  unfoldable pub send_loop : ℕ → Sender → Option (List Event)
  send_loop zero s = some []
  send_loop (suc n) s = send_round p sendto s >>= λ r. elim r [
    | stopped why ↦ some (closed ∷ [])
    | sent d s' ↦ send_loop n s' >>= λ es. some (datagram d ∷ es)
  ]

  -- `app_main` behind the start of the network, with the results of `socket` and `inet_aton`.
  unfoldable pub sender_main : ℤ → ℤ → ℕ → Option (List Event)
  unfolding send_loop
  sender_main sock aton n =
      if is_neg sock
      then some []
      else if is_zero aton
      then some (closed ∷ [])
      else send_loop n (initial p.impl)
