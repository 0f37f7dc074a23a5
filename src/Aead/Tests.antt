-- ===== src/Aead/Tests.antt =====
-- The theorems on ascon/ at concrete inputs.
use esp_network_examples.Prelude.{
  ◌≤◌, ℕ, ◌+◌, ◌-◌, ◌<◌, ℤ, pos, negsuc, List, [], ◌∷◌, ◌++◌, none, some, ◌≡◌, ◌⊎◌, refl, ◌++◌, map,
  arith, length, take, replicate, codes, length-append, take-append, ap, ◌∙◌,
}
use esp_network_examples.Aead.Provider.{aes_gcm, mock, tag_len, set_len, IsAead}
use esp_network_examples.Aead.Mock.{tag_init, absorb, fake_tag, decrypt, mock_provider}
use esp_network_examples.Aead.Mock.Laws.{mock_provider-IsAead, decrypt_changed}
use esp_network_examples.Aead.Mbedtls.{
  Cipher, init, free, setkey, crypt_and_tag, Run, encrypt_run, encrypt_keyed, decrypt_run,
  mbedtls_provider,
}
use esp_network_examples.Aead.Mbedtls.Laws
use esp_network_examples.Aead.Mbedtls.Laws.{mbedtls_provider-IsAead}
use esp_network_examples.Aead.Mbedtls.Contexts.{state_of, freed, runs_tidy}
use esp_network_examples.Aead.Ascon
use esp_network_examples.Aead.Ascon.{AsconC, ascon_provider, ascon_provider-IsAead}
use esp_network_examples.Aead.Sender.{Event, sender_main, g_key}
use esp_network_examples.Aead.Sender.Packets.{nonce_of_inj}
use esp_network_examples.Aead.Receiver.{initial, recv_round, logged, socket_closed, receiver_main}
use esp_network_examples.Aead.Receiver.Split.{initial-IsSized}
use esp_network_examples.Aead.Receiver.Limits.{recv_round-overflow}
use esp_network_examples.Aead.EndToEnd.{datagrams, logs_from, receiver_main-sender_main}

abbrev key : List ℕ
key = g_key mock

abbrev nonce : List ℕ
nonce = replicate 16 7

abbrev net : List ℕ → ℤ
net d = pos (length d)

receiver_main-sender_main_example :
    (es : List Event) × (sender_main mock_provider net (pos 3) (pos 1) 3 ≡ some es)
    × (receiver_main mock_provider (pos 4) (pos 0) (datagrams es)
        ≡ some (
            map logged (logs_from mock_provider mock_provider-IsAead 1 3)
            ++ (socket_closed (pos 4) ∷ [])))
receiver_main-sender_main_example =
    receiver_main-sender_main mock_provider mock_provider-IsAead net (pos 3) (pos 1) (λ d. refl)
      refl refl (pos 4) (pos 0) refl refl 3 (omega arith)

abbrev ping_tag : List ℕ
ping_tag = 119 ∷ 111 ∷ 107 ∷ 99 ∷ 3 ∷ 2 ∷ 1 ∷ 0 ∷ 15 ∷ 14 ∷ 13 ∷ 12 ∷ 11 ∷ 10 ∷ 9 ∷ 8 ∷ []

ping_tag_lem : fake_tag (codes "ping") [] nonce key ≡ some ping_tag
unfolding fake_tag tag_init absorb
ping_tag_lem = refl

pong_refused :
    decrypt (replicate 8 0) (some 0) (codes "pong" ++ ping_tag) [] nonce key
    ≡ some (record { ret = negsuc 0; out = replicate 8 0; len = some 0 })
pong_refused =
    decrypt_changed (replicate 8 0) (some 0) (codes "p") b'i' b'o' (codes "ng") ping_tag [] nonce
      key (omega arith) (omega arith) (omega arith) refl ping_tag_lem

-- A cipher that keeps the message and appends a tag of zeros.
abbrev plain_cipher : Cipher
plain_cipher = record {
  setkey = λ k. pos 0;
  encrypt_and_tag = λ k n ad m. (pos 0, m, replicate 16 0);
  auth_decrypt = λ k n ad tag ct. (pos 0, ct);
}

plain_cipher-IsDocumented : Laws.IsDocumented aes_gcm plain_cipher
plain_cipher-IsDocumented = record {
  setkey_ok = λ k h. refl;
  encrypt_ok = λ k n ad m h l. refl;
  length-ciphertext = λ k n ad m h l. refl;
  length-tag = λ k n ad m h l. refl;
  decrypt_ok = λ k n ad m h l. refl;
}

mbedtls_provider-IsAead_example : IsAead (mbedtls_provider aes_gcm plain_cipher)
mbedtls_provider-IsAead_example =
    mbedtls_provider-IsAead aes_gcm plain_cipher plain_cipher-IsDocumented

abbrev gcm_run : Run
gcm_run = record {
  reply = record { ret = pos 0; out = codes "hi" ++ replicate 16 0; len = some 18 };
  context = free ∷ crypt_and_tag (pos 0) ∷ setkey (pos 0) ∷ init ∷ [];
}

gcm_run_lem :
    encrypt_run aes_gcm plain_cipher (replicate 18 0) (some 0) (codes "hi") [] nonce key
    ≡ some gcm_run
unfolding encrypt_run encrypt_keyed
gcm_run_lem = refl

abbrev short_run : Run
short_run = record {
  reply = record { ret = negsuc 0; out = replicate 18 0; len = some 0 };
  context = [];
}

short_run_lem :
    decrypt_run aes_gcm plain_cipher (replicate 18 0) (some 0) (codes "hi") [] nonce key
    ≡ some short_run
unfolding decrypt_run
short_run_lem = refl

runs_tidy_example :
    (state_of gcm_run.context ≡ freed)
    × (((gcm_run.reply.ret ≡ pos 0)
          × (gcm_run.reply.len ≡ set_len (some 0) (length (codes "hi") + tag_len aes_gcm)))
        ⊎ (gcm_run.reply.len ≡ some 0))
    × (((length (codes "hi") < tag_len aes_gcm)
          × (short_run.context ≡ [])
          × (short_run.reply ≡ record { ret = negsuc 0; out = replicate 18 0; len = some 0 }))
        ⊎ ((tag_len aes_gcm ≤ length (codes "hi"))
            × (state_of short_run.context ≡ freed)
            × ((short_run.reply.ret ≡ pos 0) ⊎ (short_run.reply.len ≡ some 0))))
runs_tidy_example =
    runs_tidy aes_gcm plain_cipher (replicate 18 0) (some 0) (codes "hi") [] nonce key gcm_run_lem
      short_run_lem

-- An ascon-c that keeps the message and appends sixteen zeros.
abbrev plain_ascon : AsconC
plain_ascon = record {
  crypto_aead_encrypt = λ m ad n k. (pos 0, m ++ replicate 16 0, length m + 16);
  crypto_aead_decrypt = λ c ad n k. (pos 0, take (length c - 16) c, length c - 16);
}

take_message : (m : List ℕ) → take (length (m ++ replicate 16 0) - 16) (m ++ replicate 16 0) ≡ m
take_message m =
    let e : length (m ++ replicate 16 0) - 16 ≡ length m =
      omega (arith, length-append m (replicate 16 0)) in
    ap (λ (n : ℕ). take n (m ++ replicate 16 0)) e ∙ take-append m (replicate 16 0)

plain_ascon-IsDocumented : Ascon.IsDocumented plain_ascon
plain_ascon-IsDocumented = record {
  encrypt_ok = λ m ad n k h l. (refl, length-append m (replicate 16 0), refl);
  decrypt_ok = λ m ad n k h l.
      rw (take_message m)
        (ap (λ (j : ℕ). (pos 0, m, j)) (omega (arith, length-append m (replicate 16 0))));
}

ascon_provider-IsAead_example : IsAead (ascon_provider plain_ascon)
ascon_provider-IsAead_example = ascon_provider-IsAead plain_ascon plain_ascon-IsDocumented

nonce_of_inj_example : ◌≡◌ {A = ℕ} 258 258
nonce_of_inj_example = nonce_of_inj mock 258 258 (omega arith) (omega arith) refl

recv_round-overflow_example :
    recv_round
      (mbedtls_provider aes_gcm plain_cipher)
      (replicate 12 7 ++ replicate 1041 1)
      (initial aes_gcm)
    ≡ none
recv_round-overflow_example =
    recv_round-overflow aes_gcm plain_cipher (replicate 12 7) (replicate 1041 1) (initial aes_gcm)
      (λ k n ad tag c. refl) (λ k h. refl) (initial-IsSized aes_gcm) refl (omega arith)
      (omega arith)
