-- ===== src/Disconnect/GivingUp.antt =====
-- devcon22/demo_3_sockets/main/tcp_client.c after the link was lost once.
use esp_network_examples.Prelude.{ℕ, suc, ℤ, pos, is_neg, true, [], ◌∷◌, ◌≡◌}
use esp_network_examples.Os.{Trace}
use esp_network_examples.Disconnect.Calls.{Call, connect, close, select, send, Net, is_in_progress}

-- Connections take time, and each `select` finds the signal's descriptor readable, perhaps beside
-- the socket. All else may fail.
pub record Signalled (net : Net) : Type 0 where
  pub refused : (t : Trace Call) (fd : ℤ) → is_neg (net.env t (connect fd)).ret ≡ true
  pub pending : (t : Trace Call) (fd : ℤ) → is_in_progress (net.env t (connect fd)).errno ≡ true
  pub ready : (t : Trace Call) (fd : ℤ) → (n : ℕ) × ((net.env t (select fd)).ret ≡ pos (suc n))
  pub raised : (t : Trace Call) (fd : ℤ) → net.is_signalled (net.env t (select fd)) ≡ true

-- How often something was sent.
abbrev pub sends : Trace Call → ℕ
sends [] = 0
sends ((send fd bs, a) ∷ t) = suc (sends t)
sends (_ ∷ t) = sends t

-- How often a connection was tried, and how often a socket was closed.
abbrev pub connects : Trace Call → ℕ
connects [] = 0
connects ((connect fd, a) ∷ t) = suc (connects t)
connects (_ ∷ t) = connects t

abbrev pub closings : Trace Call → ℕ
closings [] = 0
closings ((close fd, a) ∷ t) = suc (closings t)
closings (_ ∷ t) = closings t

-- Nothing was sent, and each connection that was tried was closed.
abbrev pub IsGivenUp : Trace Call → Type 0
IsGivenUp t = (sends t ≡ 0) × (connects t ≡ closings t)
