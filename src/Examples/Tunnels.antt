-- ===== src/Examples/Tunnels.antt =====
-- The theorems on the requests of bcm-linux-console over SSL, at concrete inputs.
use blockchain_crypto_messan.Common.{
  refl, true, none, some, [], ◌∷◌, ◌++◌, arith, if◌then◌else◌, text_eq,
}
use blockchain_crypto_messan.Common.Int.{pos}
use blockchain_crypto_messan.Text.{c_str}
use blockchain_crypto_messan.Text.Decimal.{to_string, atoi}
use blockchain_crypto_messan.Program.{returned}
use blockchain_crypto_messan.Sql.{same_int}
use blockchain_crypto_messan.Sql.Engine.{Files, Node, Runs}
use blockchain_crypto_messan.Chain.Links.{first_block}
use blockchain_crypto_messan.Wire.{message, no_response}
use blockchain_crypto_messan.Vote.{gag, count, destination}
use blockchain_crypto_messan.Export.{appended}
use blockchain_crypto_messan.Server.Agreement.{next_text}
use blockchain_crypto_messan.Tunnel.{
  user_list_client, user_list_client_port_send_message, Settings, SslNetwork, address, read_lines,
  send_message,
}
use blockchain_crypto_messan.Tunnel.Sent.{
  Asked, votes_all, vote_self, vote_silence, vote_answer, send_message-majority,
}
use blockchain_crypto_messan.Vote.{elect, stored, actual_blockchain}
use blockchain_crypto_messan.Vote.Fetch.{own_hash-Runs}
use blockchain_crypto_messan.Wire.{blockchain}
use blockchain_crypto_messan.Tunnel.Copy.{hash_word, copy_from}
use blockchain_crypto_messan.Tunnel.Copy.Fallback.{
  polled_all, polled_self, polled_hash, copy_from-last,
}
use blockchain_crypto_messan.Examples.{
  memory, memory_lem, alice, bob, carol, word, user_row, node_with, digest,
}

abbrev settings : Settings
settings = record {
  use_static_tunnels = true;
  my_global_ip = alice;
  my_port = b'1' ∷ [];
  port = pos 0;
}

-- The port 2 echoes, the others are silent.
abbrev echoes : SslNetwork
echoes k host port text =
    if same_int port (pos 2) then returned text else returned (no_response (message text))

abbrev lists : Files
lists name =
    if text_eq name user_list_client
    then some (alice ++ 10 ∷ [])
    else if text_eq name user_list_client_port_send_message
    then some (b'1' ∷ 10 ∷ b'2' ∷ 10 ∷ b'3' ∷ 10 ∷ [])
    else none

abbrev sender : Node
sender = record (node_with (user_row carol [] 0 ∷ []) (first_block digest carol ∷ []) []) {
  files = lists;
}

asked : Asked lists settings echoes (next_text (first_block digest carol) [] word)
unfolding text_eq read_lines address destination c_str atoi to_string no_response
asked = record {
  addresses = alice ++ 10 ∷ [];
  ips = (alice ++ 10 ∷ []) ∷ [];
  lines = b'1' ∷ 10 ∷ b'2' ∷ 10 ∷ b'3' ∷ 10 ∷ [];
  ports = (b'1' ∷ []) ∷ (b'2' ∷ []) ∷ (b'3' ∷ []) ∷ [];
  peer = b'1' ∷ [];
  peers = (b'2' ∷ []) ∷ (b'3' ∷ []) ∷ [];
  answers =
      next_text (first_block digest carol) [] word
      ∷ next_text (first_block digest carol) [] word
      ∷ gag
      ∷ [];
  addresses_file = refl;
  ips_read = refl;
  few_ips = omega arith;
  ports_file = refl;
  ports_read = refl;
  few_ports = omega arith;
  some_peers = refl;
  fits = omega arith;
  votes =
      vote_self refl (vote_answer refl refl refl (omega arith) (vote_silence refl refl votes_all));
}

send_message-majority_example :
    Runs memory memory_lem
      (send_message memory settings echoes word bob)
      sender
      (some true)
      (record sender { files = appended bob (word ++ b'~' ∷ []) lists })
unfolding asked count text_eq
send_message-majority_example =
    send_message-majority memory memory_lem settings echoes digest bob sender
      (first_block digest carol) [] word asked 1 refl (omega arith, refl, tt) (omega arith)
      (omega arith) refl (omega arith)

-- The ports 2 and 3 have one hash, the port 4 another. The port 2 is elected, and does not send.
abbrev hashes_and_chain : SslNetwork
hashes_and_chain k host port text =
    if text_eq text hash_word
    then returned (if same_int port (pos 4) then bob else alice)
    else if same_int port (pos 2)
    then returned (no_response blockchain)
    else returned (carol ++ b'~' ∷ [])

copy_from-last_example :
    Runs memory memory_lem
      (copy_from memory settings hashes_and_chain
        ((b'1' ∷ []) ∷ (b'2' ∷ []) ∷ (b'3' ∷ []) ∷ (b'4' ∷ []) ∷ []))
      sender
      tt
      (record sender { files = stored actual_blockchain (c_str (carol ++ b'~' ∷ [])) lists })
unfolding text_eq atoi elect no_response
copy_from-last_example =
    copy_from-last memory memory_lem settings hashes_and_chain sender _
      (own_hash-Runs memory memory_lem digest sender (first_block digest carol) [] refl
        (omega arith, refl, tt))
      (b'1' ∷ []) (b'2' ∷ []) ((b'3' ∷ []) ∷ (b'4' ∷ []) ∷ []) _ (carol ++ b'~' ∷ [])
      (polled_self refl (
        polled_hash refl refl refl (omega arith) (
          polled_hash refl refl refl (omega arith)
            (polled_hash refl refl refl (omega arith) polled_all))))
      refl refl refl
