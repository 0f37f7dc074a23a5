-- ===== src/Ssh/Listening.antt =====
-- The set-up of the servers in libssh/tests/simple_ssh_server.c and in
-- libssh/examples/server/main/server.c, which is the same program for the ESP32: its options are
-- fixed, and it stands in for calls of POSIX that the chip lacks.
use esp_network_examples.Prelude.{
  ℕ, is_zero, List, [], ◌∷◌, Option, none, some, ◌≡◌, refl, arith, if◌then◌else◌, codes,
}
use esp_network_examples.Os.{Env, Io, Trace, ask, return, ◌>>=◌, ◌>>◌, if_both}
use esp_network_examples.Ssh.Calls.{
  Call, bind_addr, bind_port_str, log_verbosity_str, host_key, library_init, bind_new, bind_listen,
  bind_free, options_set, pointer, Libssh,
}
use esp_network_examples.Ssh.{initial, Outcome, accept_loop}
use esp_network_examples.Ssh.Arguments.{
  Options, defaults, parse_args, use_key, parse_args-command_line,
}
use esp_network_examples.Ssh.Resources.{Resource, a_bind, as_bind, one, gifts, frees, Balanced}
use esp_network_examples.Ssh.Session.{OutcomeBalanced, accept_loop-Balanced}

-- How a run stands: it has returned a value, or it accepts clients with the `ssh_bind` object. The
-- clean-up behind the endless loop is never reached.
pub data ServerRun : Type 0 where
  returned : ℕ → ServerRun
  accepting : ℕ → Outcome → ServerRun

-- The host key's path, or the default.
abbrev pub key_path : Option (List ℕ) → List ℕ
key_path none = codes "/etc/ssh/ssh_host_rsa_key"
key_path (some path) = path

unfoldable pub set_options : Env Call → ℕ → Options → Io Call (Unit {0})
set_options env b o = do
  _ ← ask env (options_set b bind_addr (codes "0.0.0.0"))
  _ ← ask env (options_set b bind_port_str o.port)
  _ ← ask env (options_set b log_verbosity_str (codes "1"))
  _ ← ask env (options_set b host_key (key_path o.hostkey_path))
  return tt

-- Listens, and serves clients: so many turns of the accept loop.
unfoldable pub listen : ℕ → ℕ → Libssh → ℕ → Io Call ServerRun
listen turns n lib b = ask lib.env (bind_listen b) >>= λ a.
    if is_zero a.ret
    then accept_loop turns n lib initial >>= (λ o. return (accepting b o))
    else (do _ ← ask lib.env (bind_free b); return (returned 1))

unfoldable pub with_bind : ℕ → ℕ → Libssh → Options → Option ℕ → Io Call ServerRun
with_bind turns n lib o none = return (returned 1)
with_bind turns n lib o (some b) = set_options lib.env b o >> listen turns n lib b

unfoldable pub serve : ℕ → ℕ → Libssh → Options → Io Call ServerRun
serve turns n lib o = do
  _ ← ask lib.env library_init
  a ← ask lib.env bind_new
  with_bind turns n lib o (pointer a.ret)

abbrev pub if_parsed : ℕ → ℕ → Libssh → Option Options → Io Call ServerRun
if_parsed turns n lib none = return (returned 0)
if_parsed turns n lib (some o) = serve turns n lib o

-- The program, with the arguments behind its name.
unfoldable pub simple_ssh_server : ℕ → ℕ → Libssh → List (List ℕ) → Io Call ServerRun
simple_ssh_server turns n lib args = if_parsed turns n lib (parse_args args defaults)

-- `port` and `hostkey_path` of the ESP32's server.
abbrev pub esp_options : Options
esp_options = record { port = codes "2222"; hostkey_path = some (codes "ssh_host_rsa_key") }

-- The ESP32's server, which returns nothing where the other one returns 1.
unfoldable pub app_main : ℕ → ℕ → Libssh → Io Call ServerRun
app_main turns n lib = serve turns n lib esp_options

-- What a run holds: nothing once it has returned; while it accepts, the `ssh_bind` object, and what
-- is held for a client.
abbrev pub RunBalanced : Resource → ServerRun × Trace Call → Type 0
RunBalanced r (returned code, t) = gifts r t ≡ frees r t
RunBalanced r (accepting b o, t) = OutcomeBalanced r (one r (some (a_bind b))) (o, t)

module _ (turns n : ℕ) (lib : Libssh) (r : Resource) where
  listen-Balanced :
      (b : ℕ) (t : Trace Call)
      → Balanced r (one r (some (a_bind b))) t
      → RunBalanced r (listen turns n lib b t)
  unfolding listen
  listen-Balanced b t h =
      let a = lib.env t (bind_listen b) in
      let t' : Trace Call = (bind_listen b, a) ∷ t in
      if_both (RunBalanced r) (is_zero a.ret) _ _ t'
        (accept_loop-Balanced turns n lib r (one r (some (a_bind b))) t' (omega arith))
        (omega arith)

  with_bind-Balanced :
      (o : Options) (b : Option ℕ) (t : Trace Call)
      → Balanced r (one r (as_bind b)) t
      → RunBalanced r (with_bind turns n lib o b t)
  unfolding with_bind set_options
  with_bind-Balanced o none t h = omega arith
  with_bind-Balanced o (some b) t h = listen-Balanced b (set_options lib.env b o t).1 (omega arith)

  if_parsed-Balanced : (o : Option Options) → RunBalanced r (if_parsed turns n lib o [])
  unfolding serve
  if_parsed-Balanced none = refl
  if_parsed-Balanced (some o) =
      let t : Trace Call = (library_init, lib.env [] library_init) ∷ [] in
      let a = lib.env t bind_new in
      with_bind-Balanced o (pointer a.ret) ((bind_new, a) ∷ t) (omega arith)

-- Whatever the command line is, whatever libssh answers and whichever callbacks it makes: when the
-- program returns, it has freed each `ssh_bind` object, session, event and channel exactly as often
-- as libssh gave it; and after any number of clients it holds its `ssh_bind` object once, and the
-- session, the event and the channel of a client that is still served.
pub simple_ssh_server-Balanced :
    (turns n : ℕ) (lib : Libssh) (args : List (List ℕ)) (r : Resource)
    → RunBalanced r (simple_ssh_server turns n lib args [])
unfolding simple_ssh_server
simple_ssh_server-Balanced turns n lib args r =
    if_parsed-Balanced turns n lib r (parse_args args defaults)

-- The ESP32's server is the other one with `-k ssh_host_rsa_key`, call by call.
app_main-simple_ssh_server :
    (turns n : ℕ) (lib : Libssh) (t : Trace Call)
    → app_main turns n lib t
      ≡ simple_ssh_server turns n lib (codes "-k" ∷ codes "ssh_host_rsa_key" ∷ []) t
unfolding app_main simple_ssh_server
app_main-simple_ssh_server turns n lib t =
    rw (parse_args-command_line (use_key (codes "ssh_host_rsa_key") ∷ []) defaults) refl
