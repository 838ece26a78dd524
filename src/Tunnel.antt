-- ===== src/Tunnel.antt =====
-- How a node announces a transaction over SSL: `send_message` (bcm-linux-console/C_part.c) reads a list
-- of addresses and a list of ports, and asks either each address or, with static tunnels, each port of
-- the node's own machine; what follows is as over I2P. What get_hash_or_blockchain leaves in the
-- buffer is a parameter, and so are the settings of the process.
pub mod Copy
pub mod Sent
use blockchain_crypto_messan.Common.{
  ℕ, zero, suc, ◌+◌, ◌-◌, Bool, true, false, Option, none, some, List, [], ◌∷◌, ◌++◌, length,
  get_or, ltb, if◌then◌else◌, text_eq,
}
use blockchain_crypto_messan.Common.Int.{ℤ, pos, ◌+ℤ◌}
use blockchain_crypto_messan.Text.{Bytes, c_str}
use blockchain_crypto_messan.Text.Decimal.{to_string, atoi}
use blockchain_crypto_messan.Program.{Outcome, Exec, pure, undefined, gets, ◌>>=◌}
use blockchain_crypto_messan.Sql.Engine.{Engine, World}
use blockchain_crypto_messan.Chain.{get_how_much_id, get_hash_id_container}
use blockchain_crypto_messan.Vote.{fgets, destination, entered, elect, ended, listed}
use blockchain_crypto_messan.Announce.{request, own_answer, answer_entry, decided}

-- "user_list_client.txt"
abbrev pub user_list_client : Bytes
user_list_client =
    b'u' ∷ b's' ∷ b'e' ∷ b'r' ∷ b'_' ∷ b'l' ∷ b'i' ∷ b's' ∷ b't' ∷ b'_' ∷ b'c' ∷ b'l' ∷ b'i' ∷ b'e'
    ∷ b'n' ∷ b't' ∷ b'.' ∷ b't' ∷ b'x' ∷ b't' ∷ []

-- "user_list_client_port_send_message.txt"
abbrev pub user_list_client_port_send_message : Bytes
user_list_client_port_send_message =
    b'u' ∷ b's' ∷ b'e' ∷ b'r' ∷ b'_' ∷ b'l' ∷ b'i' ∷ b's' ∷ b't' ∷ b'_' ∷ b'c' ∷ b'l' ∷ b'i' ∷ b'e'
    ∷ b'n' ∷ b't' ∷ b'_' ∷ b'p' ∷ b'o' ∷ b'r' ∷ b't' ∷ b'_' ∷ b's' ∷ b'e' ∷ b'n' ∷ b'd' ∷ b'_'
    ∷ b'm' ∷ b'e' ∷ b's' ∷ b's' ∷ b'a' ∷ b'g' ∷ b'e' ∷ b'.' ∷ b't' ∷ b'x' ∷ b't' ∷ []

-- "127.0.0.1"
abbrev pub localhost : Bytes
localhost = b'1' ∷ b'2' ∷ b'7' ∷ b'.' ∷ b'0' ∷ b'.' ∷ b'0' ∷ b'.' ∷ b'1' ∷ []

-- `char str[50]`, and INET_ADDRSTRLEN
abbrev pub str_size : ℕ
str_size = 50

abbrev pub inet_addrstrlen : ℕ
inet_addrstrlen = 16

-- A line of addresses keeps its end; a NUL is put behind it, in its row of the array.
unfoldable pub address : Bytes → Option Bytes
unfolding c_str
address line = if ltb (length (c_str line)) inet_addrstrlen then some (c_str line) else none

-- The loop over the lines of a file, on a fuel of the rounds left.
unfoldable pub read_lines : (Bytes → Option Bytes) → ℕ → Bytes → Option (List Bytes)
unfolding fgets
read_lines row zero text = some []
read_lines row (suc rounds) [] = some []
read_lines row (suc rounds) (c ∷ text) =
    let (line, rest) = fgets (str_size - 1) (c ∷ text) in
    entered (row line) (read_lines row rounds rest)

-- The settings of the process: the command line, with the node's own port for these requests, and the
-- address that the central server has told.
pub record Settings : Type 0 where
  pub use_static_tunnels : Bool
  pub my_global_ip : Bytes
  pub my_port : Bytes
  pub port : ℤ

-- What a call of get_hash_or_blockchain, the k-th one, to a host and a port leaves in the buffer.
abbrev pub SslNetwork : Type 0
SslNetwork = ℕ → Bytes → ℤ → Bytes → Outcome Bytes

-- The peers of the loop, the node's own entry among them, and the call to one.
abbrev pub peers_of : Settings → List Bytes → List Bytes → List Bytes
peers_of o ips ports = if o.use_static_tunnels then ports else ips

abbrev pub own_entry : Settings → Bytes
own_entry o = if o.use_static_tunnels then o.my_port else o.my_global_ip

abbrev pub called : Settings → SslNetwork → ℕ → Bytes → Bytes → Outcome Bytes
called o network j peer text =
    if o.use_static_tunnels
    then network j localhost (atoi peer) text
    else network j peer o.port text

module _ (e : Engine) (o : Settings) where
  unfoldable pub ask_peer : Bytes → Outcome Bytes → Exec (World e) Bytes
  ask_peer text call = do res_buf ← ended e call; answer_entry e text res_buf

  unfoldable pub ssl_ballot : SslNetwork → Bytes → ℕ → List Bytes → Exec (World e) (List Bytes)
  ssl_ballot network text j [] = pure []
  ssl_ballot network text j (peer ∷ peers) = do
    answer ←
        if text_eq peer (own_entry o)
        then own_answer e text
        else ask_peer text (called o network j peer text)
    answers ← ssl_ballot network text (j + 1) peers
    pure (answer ∷ answers)

  -- With no peer at all the code reads `frequence[-1]`.
  unfoldable pub voted : SslNetwork → Bytes → Bytes → List Bytes → Exec (World e) Bool
  unfolding elect c_str
  voted network encrypt_message path_to_buf_file [] = undefined
  voted network encrypt_message path_to_buf_file (peer ∷ peers) = do
    last_id_c ← get_how_much_id e
    last_id_container_hash ← get_hash_id_container e (to_string (atoi last_id_c))
    let new_last_id = to_string (atoi last_id_c +ℤ pos 1)
    answers ←
        ssl_ballot network (request new_last_id last_id_container_hash (c_str encrypt_message)) 0
          (peer ∷ peers)
    decided e path_to_buf_file (get_or answers (elect answers) [])

  abbrev pub with_ports :
      SslNetwork → Bytes → Bytes → List Bytes → Option Bytes → Exec (World e) (Option Bool)
  with_ports network encrypt_message path_to_buf_file ips none = pure none
  with_ports network encrypt_message path_to_buf_file ips (some file) = do
    ports ← listed e (read_lines destination (length file) file)
    sent ← voted network encrypt_message path_to_buf_file (peers_of o ips ports)
    pure (some sent)

  abbrev pub with_addresses :
      SslNetwork → Bytes → Bytes → Option Bytes → Exec (World e) (Option Bool)
  with_addresses network encrypt_message path_to_buf_file none = pure none
  with_addresses network encrypt_message path_to_buf_file (some file) = do
    ips ← listed e (read_lines address (length file) file)
    ports ← gets (λ w. w.files user_list_client_port_send_message)
    with_ports network encrypt_message path_to_buf_file ips ports

  -- `none` stands for the return value -1, where a list is missing.
  unfoldable pub send_message : SslNetwork → Bytes → Bytes → Exec (World e) (Option Bool)
  send_message network encrypt_message path_to_buf_file = do
    addresses ← gets (λ w. w.files user_list_client)
    with_addresses network encrypt_message path_to_buf_file addresses
