-- ===== src/Aead/EndToEnd.antt =====
-- Sender and receiver together: a whole run of ascon/sender/main/sender.c, received by
-- ascon/receiver/main/receiver.c.
use esp_network_examples.Prelude.{
  ℕ, zero, suc, ◌+◌, ◌-◌, ◌^◌, ◌<◌, ℤ, is_neg, is_zero, false, List, [], ◌∷◌, ◌++◌, map, some, ◌≡◌,
  refl,
}
use esp_network_examples.Aead.Codec.Hex.{hex_text}
use esp_network_examples.Aead.Provider.{Provider, IsAead}
use esp_network_examples.Aead.Sender.{plaintext, Event, datagram, closed, sender_main}
use esp_network_examples.Aead.Sender.Packets.{
  nonce_of, sealed_hello, packets_from, sender_main-packets_from,
}
use esp_network_examples.Aead.Receiver.{
  Receiver, initial, Log, opened, recv_loop, logged, socket_closed, receiver_main,
}
use esp_network_examples.Aead.Receiver.Link.{recv_round-packet_of}
use esp_network_examples.Aead.Receiver.Split.{IsSized, initial-IsSized}

-- The network hands over what was sent.
abbrev pub datagrams : List Event → List (List ℕ)
datagrams [] = []
datagrams (datagram d ∷ es) = d ∷ datagrams es
datagrams (closed ∷ es) = datagrams es

module _ (p : Provider) (law : IsAead p) where
  -- What the receiver logs of the rounds with counters `c`, `c + 1`, …
  abbrev pub logs_from : ℕ → ℕ → List Log
  logs_from c zero = []
  logs_from c (suc n) =
      opened (hex_text (nonce_of p.impl c)) (hex_text (sealed_hello p law c)) plaintext
      ∷ logs_from (c + 1) n

  recv_loop-packets_from :
      (sendto : List ℕ → ℤ) (n c : ℕ) (s : Receiver)
      → IsSized p.impl s
      → recv_loop p (datagrams (packets_from p sendto law c n)) s ≡ some (logs_from c n)
  unfolding recv_loop
  recv_loop-packets_from sendto zero c s sized = refl
  recv_loop-packets_from sendto (suc n) c s sized =
      let (s', round, sized') = recv_round-packet_of p law c s sized in
      rw (round, recv_loop-packets_from sendto n (c + 1) s' sized')

  recv_loop-sender_main :
      (sendto : List ℕ → ℤ) (sock aton : ℤ)
      → ((d : List ℕ) → is_neg (sendto d) ≡ false)
      → is_neg sock ≡ false
      → is_zero aton ≡ false
      → (n : ℕ) → n < 2 ^ 64 - 1
      → (es : List Event) × (sender_main p sendto sock aton n ≡ some es)
        × (recv_loop p (datagrams es) (initial p.impl) ≡ some (logs_from 1 n))
  recv_loop-sender_main sendto sock aton ok open_ok valid n h = (
    packets_from p sendto law 1 n,
    sender_main-packets_from p sendto law sock aton ok open_ok valid n h,
    recv_loop-packets_from sendto n 1 (initial p.impl) (initial-IsSized p.impl),
  )

  -- Over any provider that keeps the contract, with sockets that are to be had, where sendto fails
  -- for no datagram and every datagram arrives, in order: for each number of rounds below 2^64-1 that
  -- the sender runs, the receiver opens each of its packets, in order, logs the sender's text for it,
  -- and at last closes its own socket.
  pub receiver_main-sender_main :
      (sendto : List ℕ → ℤ) (sock aton : ℤ)
      → ((d : List ℕ) → is_neg (sendto d) ≡ false)
      → is_neg sock ≡ false
      → is_zero aton ≡ false
      → (receiving bound : ℤ) → is_neg receiving ≡ false
      → is_neg bound ≡ false
      → (n : ℕ) → n < 2 ^ 64 - 1
      → (es : List Event) × (sender_main p sendto sock aton n ≡ some es)
        × (receiver_main p receiving bound (datagrams es)
            ≡ some (map logged (logs_from 1 n) ++ (socket_closed receiving ∷ [])))
  unfolding receiver_main
  receiver_main-sender_main sendto sock aton ok open_ok valid receiving bound open_ok' bound_ok n
        h =
      let (es, sent, received) = recv_loop-sender_main sendto sock aton ok open_ok valid n h in
      (es, sent, rw (open_ok', bound_ok, received) refl)
