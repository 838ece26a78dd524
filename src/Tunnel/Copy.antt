-- ===== src/Tunnel/Copy.antt =====
-- How a node fetches the chain of its peers over SSL: `get_actual_blockchain_copy`
-- (bcm-linux-console/C_part.c) asks the peers for their last hashes and elects one as over I2P. If that
-- one does not send its chain, it asks the peers from the last of the list to the second, and then reads
-- in front of the list.
pub mod Fallback
use blockchain_crypto_messan.Common.{
  ℕ, zero, suc, ◌+◌, Option, none, some, List, [], ◌∷◌, length, get_or, if◌then◌else◌, text_eq,
}
use blockchain_crypto_messan.Text.{Bytes, c_str}
use blockchain_crypto_messan.Program.{Outcome, returned, Exec, pure, undefined, gets, ◌>>=◌, ◌>>◌}
use blockchain_crypto_messan.Sql.Engine.{Engine, World}
use blockchain_crypto_messan.Wire.{blockchain, no_response}
use blockchain_crypto_messan.Vote.{
  destination, elect, ended, listed, own_hash, entry, stored, actual_blockchain,
}
use blockchain_crypto_messan.Tunnel.{
  user_list_client, address, read_lines, Settings, SslNetwork, peers_of, own_entry, called,
}

-- "user_list_client_port_hash_blockchain.txt"
abbrev pub user_list_client_port_hash_blockchain : Bytes
user_list_client_port_hash_blockchain =
    b'u' ∷ b's' ∷ b'e' ∷ b'r' ∷ b'_' ∷ b'l' ∷ b'i' ∷ b's' ∷ b't' ∷ b'_' ∷ b'c' ∷ b'l' ∷ b'i' ∷ b'e'
    ∷ b'n' ∷ b't' ∷ b'_' ∷ b'p' ∷ b'o' ∷ b'r' ∷ b't' ∷ b'_' ∷ b'h' ∷ b'a' ∷ b's' ∷ b'h' ∷ b'_'
    ∷ b'b' ∷ b'l' ∷ b'o' ∷ b'c' ∷ b'k' ∷ b'c' ∷ b'h' ∷ b'a' ∷ b'i' ∷ b'n' ∷ b'.' ∷ b't' ∷ b'x'
    ∷ b't' ∷ []

-- "hash" and "blockchain"
abbrev pub hash_word : Bytes
hash_word = b'h' ∷ b'a' ∷ b's' ∷ b'h' ∷ []

abbrev pub blockchain_word : Bytes
blockchain_word = b'b' ∷ b'l' ∷ b'o' ∷ b'c' ∷ b'k' ∷ b'c' ∷ b'h' ∷ b'a' ∷ b'i' ∷ b'n' ∷ []

module _ (e : Engine) (o : Settings) where
  unfoldable pub ssl_poll : SslNetwork → ℕ → List Bytes → Exec (World e) (List Bytes)
  ssl_poll network j [] = pure []
  ssl_poll network j (peer ∷ peers) = do
    h ←
        if text_eq peer (own_entry o)
        then own_hash e
        else (do res_buf ← ended e (called o network j peer hash_word); entry e res_buf)
    hs ← ssl_poll network (j + 1) peers
    pure (h ∷ hs)

  -- The repeated requests, with the place before the one that is asked last; the message on the
  -- console reads the entry in front of the one that is asked next.
  unfoldable pub fetch_back : SslNetwork → List Bytes → ℕ → ℕ → Bytes → Exec (World e) Bytes
  fetch_back network peers k zero res_buf =
      if text_eq res_buf (no_response blockchain) then undefined else pure res_buf
  fetch_back network peers k (suc left) res_buf =
      let again = (do
        answer ← ended e (called o network k (get_or peers (suc left) []) blockchain_word)
        fetch_back network peers (k + 1) left answer) in
      if text_eq res_buf (no_response blockchain) then again else pure res_buf

  abbrev pub copied : Bytes → Exec (World e) (Unit {0})
  copied res_buf w =
      (returned tt, record w { files = stored actual_blockchain (c_str res_buf) w.files })

  -- With no peer at all the code reads `frequence[-1]`.
  unfoldable pub copy_from : SslNetwork → List Bytes → Exec (World e) (Unit {0})
  unfolding elect c_str
  copy_from network [] = undefined
  copy_from network (peer ∷ peers) = do
    hashes ← ssl_poll network 0 (peer ∷ peers)
    res_buf ← ended e (
        called o network (length (peer ∷ peers)) (get_or (peer ∷ peers) (elect hashes) [])
          blockchain_word)
    chain ← fetch_back network (peer ∷ peers) (length (peer ∷ peers) + 1) (length peers) res_buf
    copied chain

  abbrev pub with_hash_ports : SslNetwork → List Bytes → Option Bytes → Exec (World e) (Option Unit)
  with_hash_ports network ips none = pure none
  with_hash_ports network ips (some file) = do
    ports ← listed e (read_lines destination (length file) file)
    copy_from network (peers_of o ips ports)
    pure (some tt)

  abbrev pub with_hash_addresses : SslNetwork → Option Bytes → Exec (World e) (Option Unit)
  with_hash_addresses network none = pure none
  with_hash_addresses network (some file) = do
    ips ← listed e (read_lines address (length file) file)
    ports ← gets (λ w. w.files user_list_client_port_hash_blockchain)
    with_hash_ports network ips ports

  -- `none` stands for the return value -1, where a list is missing.

  unfoldable pub get_actual_blockchain_copy : SslNetwork → Exec (World e) (Option Unit)
  get_actual_blockchain_copy network = do
    addresses ← gets (λ w. w.files user_list_client)
    with_hash_addresses network addresses
