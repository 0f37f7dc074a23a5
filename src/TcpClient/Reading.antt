-- ===== src/TcpClient/Reading.antt =====
-- What the threads of lwip-intro/sockets/tcp_client.c show of what they receive.
use esp_network_examples.Prelude.{ℕ, ℤ, pos, true, [], ◌∷◌, none, ◌≡◌}
use esp_network_examples.Os.{Trace}
use esp_network_examples.TcpClient.Calls.{Call, recv, Net}
use esp_network_examples.TcpClient.{
  after_first, read_once, non_block_sock_thread, connect_waiting, set_nonblocking,
}

-- Where the connection is made and its first `recv` succeeds at once, the thread shows nothing of
-- what it received, and receives no more.
pub non_block_sock_thread-drops :
    (net : Net) (fd : ℤ) (t1 t2 : Trace Call) (n : ℕ)
    → set_nonblocking net fd [] ≡ (true, t1)
    → connect_waiting net fd t1 ≡ (true, t2)
    → (net.env t2 (recv fd 127)).ret ≡ pos n
    → non_block_sock_thread net fd [] ≡ (none, (recv fd 127, net.env t2 (recv fd 127)) ∷ t2)
unfolding non_block_sock_thread read_once after_first
non_block_sock_thread-drops net fd t1 t2 n h1 h2 h3 = rw (h1, h2, h3)
