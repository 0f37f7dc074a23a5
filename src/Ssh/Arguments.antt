-- ===== src/Ssh/Arguments.antt =====
-- The command line of libssh/tests/simple_ssh_server.c.
use esp_network_examples.Prelude.{
  ℕ, List, [], ◌∷◌, Option, none, some, ◌≡◌, refl, if◌then◌else◌, codes, text_eq,
}

-- The port, and the path of the host key, `none` for NULL.
pub record Options : Type 0 where
  pub port : List ℕ
  pub hostkey_path : Option (List ℕ)

abbrev pub defaults : Options
defaults = record { port = codes "2222"; hostkey_path = none }

-- The arguments from `argv[i]` on; `none` when the usage is printed. A flag that is the last
-- argument has no value, and is skipped as an unknown one is.
unfoldable pub parse_args : List (List ℕ) → Options → Option Options
parse_args [] o = some o
parse_args (a ∷ []) o = if text_eq a (codes "-h") then none else some o
parse_args (a ∷ b ∷ rest) o =
    let port_set = parse_args rest (record o { port = b }) in
    let path_set = parse_args rest (record o { hostkey_path = some b }) in
    let skipped = parse_args (b ∷ rest) o in
    if text_eq a (codes "-p")
    then port_set
    else if text_eq a (codes "-k")
    then path_set
    else if text_eq a (codes "-h")
    then none
    else skipped

-- What a user asks for.
pub data Wish : Type 0 where
  use_port use_key : List ℕ → Wish

abbrev pub command_line : List Wish → List (List ℕ)
command_line [] = []
command_line (use_port p ∷ ws) = codes "-p" ∷ p ∷ command_line ws
command_line (use_key k ∷ ws) = codes "-k" ∷ k ∷ command_line ws

-- The last wish of a kind counts.
abbrev pub grant : List Wish → Options → Options
grant [] o = o
grant (use_port p ∷ ws) o = grant ws (record o { port = p })
grant (use_key k ∷ ws) o = grant ws (record o { hostkey_path = some k })

-- A command line of flags with values is read as what it says, whatever the values: a value that
-- looks like a flag is a value.
pub parse_args-command_line :
    (ws : List Wish) (o : Options) → parse_args (command_line ws) o ≡ some (grant ws o)
unfolding parse_args text_eq
parse_args-command_line [] o = refl
parse_args-command_line (use_port p ∷ ws) o = parse_args-command_line ws (record o { port = p })
parse_args-command_line (use_key k ∷ ws) o =
    parse_args-command_line ws (record o { hostkey_path = some k })
