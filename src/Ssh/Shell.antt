-- ===== src/Ssh/Shell.antt =====
-- The callbacks of a channel in libssh/tests/simple_ssh_server.c: a terminal, a shell, and data.
use esp_network_examples.Prelude.{
  ℕ, ℤ, pos, negsuc, is_zero, List, [], ◌∷◌, Option, none, some, ◌≡◌, ◌⊎◌, inl, inr, length,
  if◌then◌else◌, codes,
}
use esp_network_examples.Os.{Answer, Env, Io, Trace, ask, return, ◌>>=◌}

-- `ssh_channel_write`, on a channel and the bytes
pub data Write : Type 0 where
  write : ℕ → List ℕ → Write

-- `SSH_OK`, `SSH_ERROR`
abbrev pub ssh_ok : ℤ
ssh_ok = pos 0

abbrev pub ssh_error : ℤ
ssh_error = negsuc 0

unfoldable pub pty_request : Option ℕ → ℤ
pty_request channel = ssh_ok

unfoldable pub shell_request : Option ℕ → ℤ
shell_request none = ssh_error
shell_request (some c) = ssh_ok

-- Goes on if the answer of `ssh_channel_write` is SSH_OK.
abbrev if_ok : Io Write ℤ → Answer → Io Write ℤ
if_ok next a = if is_zero a.ret then next else return ssh_error

-- The texts that are written, each if the one before was answered with SSH_OK.
unfoldable pub write_all : Env Write → ℕ → List (List ℕ) → Io Write ℤ
write_all env c [] = return ssh_ok
write_all env c (bs ∷ rest) = ask env (write c bs) >>= if_ok (write_all env c rest)

-- A channel or data that is NULL is `none`.
unfoldable pub data_function : Env Write → Option ℕ → Option (List ℕ) → Io Write ℤ
data_function env (some c) (some bs) = write_all env c (codes "Received: " ∷ bs ∷ codes "\n$ " ∷ [])
data_function env _ _ = return ssh_error

-- What libssh documents for `ssh_channel_write`: the number of bytes written, or -1.
abbrev pub WritesCount : Env Write → Type 0
WritesCount env =
    (t : Trace Write) (c : ℕ) (bs : List ℕ)
    → ((env t (write c bs)).ret ≡ pos (length bs)) ⊎ ((env t (write c bs)).ret ≡ negsuc 0)

-- Where `ssh_channel_write` answers with the number of bytes it wrote, or -1: the callback writes
-- only its first text, whatever the client sent, and reports an error.
pub data_function-stops :
    (env : Env Write) (c : ℕ) (bs : List ℕ) (t : Trace Write)
    → WritesCount env
    → data_function env (some c) (some bs) t
      ≡ (ssh_error, (write c (codes "Received: "), env t (write c (codes "Received: "))) ∷ t)
unfolding data_function write_all
data_function-stops env c bs t h = elim (h t c (codes "Received: ")) [ inl e ↦ rw e | inr e ↦ rw e ]
