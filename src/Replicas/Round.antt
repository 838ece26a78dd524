-- ===== src/Replicas/Round.antt =====
-- A node announces the next block, and every peer that takes it in votes for it
-- (bcm-linux-console/Cpp_part.cpp).
use blockchain_crypto_messan.Common.{
  ℕ, ◌+◌, ◌*◌, ◌≤◌, ◌<◌, ◌≡◌, refl, inl, inr, false, some, List, ◌∷◌, ◌++◌, arith, length, map,
  text_eq, text_eq→eq, Bool-cases,
}
use blockchain_crypto_messan.Common.Int.{pos}
use blockchain_crypto_messan.Text.{Bytes, NoNul}
use blockchain_crypto_messan.Transaction.RoundTrip.{IsField}
use blockchain_crypto_messan.Sql.{BlockRow}
use blockchain_crypto_messan.Sql.Engine.{Engine, IsSqlite, Node}
use blockchain_crypto_messan.Chain.Links.{last_hash}
use blockchain_crypto_messan.Wire.{message, piece_size, no_response}
use blockchain_crypto_messan.Wire.Pieces.{FullSpeed}
use blockchain_crypto_messan.Vote.{destinations, max_peers, keys_folder}
use blockchain_crypto_messan.Vote.Adopt.{own_of}
use blockchain_crypto_messan.Server.Agreement.{next_text, next_text-NoNul}
use blockchain_crypto_messan.Announce.{
  answer_length, user_list_client_i2pd_2, public_send_message, behind_separators,
}
use blockchain_crypto_messan.Announce.Sent.{Voters, not_behind}
use blockchain_crypto_messan.Replicas.{Member, joined_by}
use blockchain_crypto_messan.Replicas.Ballots.{Reached, Cast-joined_by}

-- An announcement is not taken for a missing answer.
pub some_answer :
    (b : BlockRow) (bs : List BlockRow) (body : Bytes)
    → IsField (last_hash b.transaction_hash bs)
    → text_eq (next_text b bs body) (no_response (message (next_text b bs body))) ≡ false
unfolding no_response behind_separators
some_answer b bs body field =
    let text = next_text b bs body in
    elim (Bool-cases (text_eq text (no_response (message text)))) [
      | inl same ↦ absurd (not_behind b bs body _ field (text_eq→eq _ _ same) refl)
      | inr other ↦ other
    ]

-- What the sender has: a list of peers, and its own destination.
pub record Announcer (n : Node) (name : Bytes) : Type 0 where
  pub list : Bytes
  pub peer : Bytes
  pub peers : List Bytes
  pub c : ℕ
  pub content : Bytes
  pub list_file : n.files user_list_client_i2pd_2 ≡ some list
  pub list_read : destinations (length list) list ≡ some (peer ∷ peers)
  pub few : length (peer ∷ peers) ≤ max_peers
  pub own_file : n.files (keys_folder ++ name ++ public_send_message) ≡ some (c ∷ content)

module _ (e : Engine) (q : IsSqlite e) (md5 base64_decode : Bytes → Bytes) (limit : ℕ)
    (sender : Bytes) (amounts : List ℕ) where
  -- Peers that all take in the announcement vote for it.
  abbrev pub voters_of :
      (n : Node) (name body : Bytes) (b : BlockRow) (bs : List BlockRow) (ms : List (Member e))
      (chain : List BlockRow) (a : Announcer n name)
      → IsField (last_hash b.transaction_hash bs)
      → NoNul body
      → length (next_text b bs body) + 1 < answer_length
      → FullSpeed amounts
      → length (next_text b bs body) ≤ piece_size * length amounts
      → Reached e q md5 base64_decode limit sender amounts ms
          (own_of (a.c ∷ a.content))
          (next_text b bs body)
          chain
          (a.peer ∷ a.peers)
      → Voters n.files
          (joined_by e md5 base64_decode (pos limit) sender amounts ms)
          name
          (next_text b bs body)
  voters_of n name body b bs ms chain a field nul_free fits full pieces reached =
      let text = next_text b bs body in
      record {
        list = a.list;
        peer = a.peer;
        peers = a.peers;
        c = a.c;
        content = a.content;
        answers = map (λ peer. text) (a.peer ∷ a.peers);
        list_file = a.list_file;
        list_read = a.list_read;
        few = a.few;
        own_file = a.own_file;
        fits = fits;
        cast =
            Cast-joined_by e q md5 base64_decode limit sender amounts text
              (next_text-NoNul b bs body field nul_free) (omega arith) full pieces ms
              (own_of (a.c ∷ a.content)) chain (a.peer ∷ a.peers) 0 (some_answer b bs body field)
              reached;
      }
