-- ===== src/Tunnel/Sent.antt =====
-- The node that announces a transaction over SSL (bcm-linux-console/C_part.c, send_message).
use blockchain_crypto_messan.Common.{
  ℕ, ◌+◌, ◌≤◌, ◌<◌, ◌≡◌, refl, sym, subst, true, false, some, List, [], ◌∷◌, ◌++◌, Bool, arith,
  length, ltb, leb, text_eq, text_eq_refl,
}
use blockchain_crypto_messan.Common.Int.{pos}
use blockchain_crypto_messan.Text.{Bytes, NoNul, c_str-eq}
use blockchain_crypto_messan.Text.Decimal.{to_string, atoi-to_string}
use blockchain_crypto_messan.Transaction.RoundTrip.{IsField}
use blockchain_crypto_messan.Program.{returned}
use blockchain_crypto_messan.Sql.{BlockRow}
use blockchain_crypto_messan.Sql.Engine.{
  Engine, IsSqlite, Files, Node, Runs, Runs-pure, Runs-bind, Runs-file,
}
use blockchain_crypto_messan.Keys.Encrypt.{pos-+ℤ}
use blockchain_crypto_messan.Chain.{get_how_much_id}
use blockchain_crypto_messan.Chain.Links.{IsChain, last_hash, last_hash-IsField}
use blockchain_crypto_messan.Chain.Import.{get_how_much_id-Runs, get_hash_id_container-Runs}
use blockchain_crypto_messan.Wire.{message, no_response}
use blockchain_crypto_messan.Vote.{gag, count, elect, destination, max_peers}
use blockchain_crypto_messan.Vote.Election.{hash_at, elect-majority}
use blockchain_crypto_messan.Export.{appended}
use blockchain_crypto_messan.Server.Agreement.{next_text}
use blockchain_crypto_messan.Announce.{answer_length, answer_entry, decided, behind_separators}
use blockchain_crypto_messan.Announce.Ballot.{own_answer-Runs}
use blockchain_crypto_messan.Announce.Sent.{not_behind, decided-Runs}
use blockchain_crypto_messan.Tunnel.{
  user_list_client, user_list_client_port_send_message, address, read_lines, Settings, SslNetwork,
  peers_of, own_entry, called, ask_peer, ssl_ballot, voted, send_message,
}

-- What the peers answer to the announcement of `text`, from the `j`-th call on.
pub data Votes (o : Settings) (network : SslNetwork) (text : Bytes)
    : ℕ → List Bytes → List Bytes → Type 0 where
  votes_all : {j : ℕ} → Votes o network text j [] []
  vote_self :
      {j : ℕ} {peer : Bytes} {peers answers : List Bytes}
      → text_eq peer (own_entry o) ≡ true
      → Votes o network text (j + 1) peers answers
      → Votes o network text j (peer ∷ peers) (text ∷ answers)
  vote_silence :
      {j : ℕ} {peer : Bytes} {peers answers : List Bytes}
      → text_eq peer (own_entry o) ≡ false
      → called o network j peer text ≡ returned (no_response (message text))
      → Votes o network text (j + 1) peers answers
      → Votes o network text j (peer ∷ peers) (gag ∷ answers)
  vote_answer :
      {j : ℕ} {peer a : Bytes} {peers answers : List Bytes}
      → text_eq peer (own_entry o) ≡ false
      → called o network j peer text ≡ returned a
      → text_eq a (no_response (message text)) ≡ false
      → length a < answer_length
      → Votes o network text (j + 1) peers answers
      → Votes o network text j (peer ∷ peers) (a ∷ answers)

-- The lists of the node, and the answers of the peers in the one that counts.
pub record Asked (files : Files) (o : Settings) (network : SslNetwork) (text : Bytes) : Type 0 where
  pub addresses : Bytes
  pub ips : List Bytes
  pub lines : Bytes
  pub ports : List Bytes
  pub peer : Bytes
  pub peers : List Bytes
  pub answers : List Bytes
  pub addresses_file : files user_list_client ≡ some addresses
  pub ips_read : read_lines address (length addresses) addresses ≡ some ips
  pub few_ips : length ips ≤ max_peers
  pub ports_file : files user_list_client_port_send_message ≡ some lines
  pub ports_read : read_lines destination (length lines) lines ≡ some ports
  pub few_ports : length ports ≤ max_peers
  pub some_peers : peers_of o ips ports ≡ peer ∷ peers
  pub fits : length text + 1 < answer_length
  pub votes : Votes o network text 0 (peer ∷ peers) answers

module _ (e : Engine) (q : IsSqlite e) (o : Settings) (network : SslNetwork) where
  ask_peer-silent :
      (text : Bytes) (n : Node)
      → length text + 1 < answer_length
      → Runs e q (ask_peer e o text (returned (no_response (message text)))) n gag n
  unfolding ask_peer answer_entry
  ask_peer-silent text n fits = Runs-bind e q _ (Runs-pure e q (no_response (message text)) n) (
      rw (text_eq_refl (no_response (message text)))
        (Runs-bind e q _ (own_answer-Runs e q text n fits) (Runs-pure e q gag n)))

  ask_peer-answered :
      (text a : Bytes) (n : Node)
      → text_eq a (no_response (message text)) ≡ false
      → length a < answer_length
      → Runs e q (ask_peer e o text (returned a)) n a n
  unfolding ask_peer answer_entry
  ask_peer-answered text a n some_answer short =
      let below : leb answer_length (length a) ≡ false = ground arith in
      Runs-bind e q _ (Runs-pure e q a n) (rw (some_answer, below) (Runs-pure e q a n))

  ssl_ballot-Runs :
      {text : Bytes} {j : ℕ} {peers answers : List Bytes} (n : Node)
      → length text + 1 < answer_length
      → Votes o network text j peers answers
      → Runs e q (ssl_ballot e o network text j peers) n answers n
  unfolding ssl_ballot
  ssl_ballot-Runs n fits votes_all = Runs-pure e q _ _
  ssl_ballot-Runs {text} n fits (vote_self self rest) =
      Runs-bind e q _ (rw self (own_answer-Runs e q text n fits))
        (Runs-bind e q _ (ssl_ballot-Runs n fits rest) (Runs-pure e q _ _))
  ssl_ballot-Runs {text} n fits (vote_silence other out rest) =
      Runs-bind e q _ (rw (other, out) (ask_peer-silent text n fits))
        (Runs-bind e q _ (ssl_ballot-Runs n fits rest) (Runs-pure e q _ _))
  ssl_ballot-Runs {text} n fits (vote_answer other is some_answer short rest) =
      Runs-bind e q _ (rw (other, is) (ask_peer-answered text _ n some_answer short))
        (Runs-bind e q _ (ssl_ballot-Runs n fits rest) (Runs-pure e q _ _))

  module _ (md5 : Bytes → Bytes) (path : Bytes) (n m : Node) (b : BlockRow) (bs : List BlockRow)
      (body : Bytes) (answer : Bool) (is : n.blockchain ≡ b ∷ bs) (h : IsChain md5 (b ∷ bs))
      (clean : NoNul body) (v : Asked n.files o network (next_text b bs body)) where
    voted-Runs :
        Runs e q (decided e path (hash_at v.answers (elect v.answers))) n answer m
        → Runs e q (voted e o network body path (v.peer ∷ v.peers)) n answer m
    unfolding voted
    voted-Runs after =
        Runs-bind e q _
          (subst (λ k. Runs e q (get_how_much_id e) n (to_string (pos (length k))) n) is
            (get_how_much_id-Runs e q n))
          (rw (atoi-to_string (length (b ∷ bs)), pos-+ℤ (length (b ∷ bs)) 1, c_str-eq body clean)
            (Runs-bind e q _ (get_hash_id_container-Runs e q md5 n b bs is h)
              (Runs-bind e q _ (ssl_ballot-Runs n v.fits v.votes) after)))

    send_message-Runs :
        Runs e q (decided e path (hash_at v.answers (elect v.answers))) n answer m
        → Runs e q (send_message e o network body path) n (some answer) m
    unfolding send_message
    send_message-Runs after =
        let few_ips : ltb max_peers (length v.ips) ≡ false = ground (arith, v.few_ips) in
        let few_ports : ltb max_peers (length v.ports) ≡ false = ground (arith, v.few_ports) in
        Runs-bind e q _ (Runs-file e q user_list_client n) (
          rw (v.addresses_file, v.ips_read, few_ips)
            (Runs-bind e q _ (Runs-pure e q v.ips n) (
              Runs-bind e q _ (Runs-file e q user_list_client_port_send_message n) (
                rw (v.ports_file, v.ports_read, few_ports)
                  (Runs-bind e q _ (Runs-pure e q v.ports n) (
                    rw v.some_peers
                      (Runs-bind e q _ (voted-Runs after) (Runs-pure e q (some answer) m))))))))

  -- If more than half of the peers that answer agree with the announcement of the next block behind the
  -- node's chain, with static tunnels the ports of the one list and without them the addresses of the
  -- other, then a message without NUL stands in the buffer file, followed by `~`, for the import.
  pub send_message-majority :
      (md5 : Bytes → Bytes) (path : Bytes) (n : Node) (b : BlockRow) (bs : List BlockRow)
      (body : Bytes) (v : Asked n.files o network (next_text b bs body)) (i : ℕ)
      → n.blockchain ≡ b ∷ bs
      → IsChain md5 (b ∷ bs)
      → NoNul body
      → i < length v.answers
      → hash_at v.answers i ≡ next_text b bs body
      → length v.answers
        < count (next_text b bs body) v.answers
          + count (next_text b bs body) v.answers
          + count gag v.answers
      → Runs e q
          (send_message e o network body path)
          n
          (some true)
          (record n { files = appended path (body ++ b'~' ∷ []) n.files })
  unfolding behind_separators
  send_message-majority md5 path n b bs body v i is h clean lt agrees more =
      let field : IsField (last_hash b.transaction_hash bs) = last_hash-IsField md5 b bs h in
      let elected : hash_at v.answers (elect v.answers) ≡ next_text b bs body =
        elect-majority v.answers (next_text b bs body) i lt agrees
          (λ same. not_behind b bs body gag field same refl) more in
      send_message-Runs md5 path n _ b bs body true is h clean v (
        subst
          (λ t.
            Runs e q (decided e path t) n true
              (record n { files = appended path (body ++ b'~' ∷ []) n.files }))
          (sym elected) (decided-Runs e q path n b bs body field))
