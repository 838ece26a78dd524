-- ===== src/Examples/Votes.antt =====
-- The theorems on the vote of the nodes of bcm-linux-console, on the wire below it and on the export
-- of a chain, at concrete inputs.
use blockchain_crypto_messan.Common.{
  ℕ, suc, zero, ◌+◌, ◌≡◌, ◌↔◌, refl, inl, false, none, some, List, [], ◌∷◌, ◌++◌, arith,
  if◌then◌else◌, text_eq, text_eq→ne, get_or, ◌==◌,
}
use blockchain_crypto_messan.Common.Int.{pos}
use blockchain_crypto_messan.Text.{Bytes, c_str}
use blockchain_crypto_messan.Program.{returned, blocked}
use blockchain_crypto_messan.Transaction.{max_transaction_length}
use blockchain_crypto_messan.Sql.{BlockRow}
use blockchain_crypto_messan.Sql.Engine.{Files, Node, Runs, World, view}
use blockchain_crypto_messan.Chain.{removed}
use blockchain_crypto_messan.Chain.Links.{
  IsChain, first_block, next_block, extend, extend-IsChain, last_hash,
}
use blockchain_crypto_messan.Chain.Import.{with_blocks}
use blockchain_crypto_messan.Chain.File.{file_of}
use blockchain_crypto_messan.Wire.{
  Request, connected, hash, blockchain, message, Call, no_response, receive_sized, sent_pieces,
  get_actual_blockchain, int_to_unsigned_char_array_4, unsigned_char_array_4_to_int,
}
use blockchain_crypto_messan.Wire.Pieces.{receive_sized-sent, join}
use blockchain_crypto_messan.Wire.Client.{answering, get_hash_or_blockchain_i2pd-answered}
use blockchain_crypto_messan.Vote.{
  Network, gag, count, elect, destinations, stored, actual_blockchain, user_list_client_i2pd,
  keys_folder, public_hash_and_blockchain, update_blockchain, hex_length, find_maximum,
  find_new_max, first_with,
}
use blockchain_crypto_messan.Vote.Election.{IsElected, elect_lem, hash_at}
use blockchain_crypto_messan.Vote.Fetch.{
  Heard, heard_all, heard_self, heard_hash, own_hash-Runs, SilentFrom,
}
use blockchain_crypto_messan.Vote.Adopt.{Neighbours, Sends, bodies, update_blockchain-majority}
use blockchain_crypto_messan.Export.{answer_request}
use blockchain_crypto_messan.Export.Answers.{answer_request-chain, answer_request-empty}
use blockchain_crypto_messan.Examples.{
  memory, memory_lem, alice, bob, carol, word, user_row, node_with, digest,
}

-- The chain of the peers, and its hash.
abbrev common_blocks : List BlockRow
common_blocks = extend digest [] (alice ∷ bob ∷ [])

common_blocks-IsChain : IsChain digest common_blocks
common_blocks-IsChain = extend-IsChain digest [] (alice ∷ bob ∷ []) tt (omega arith)

-- No connection at either attempt.
abbrev lost_call : Call
lost_call = record {
  connects = λ k. false;
  reply_size = none;
  reply = record { arriving = []; amounts = [] };
}

abbrev replies : Request → Call
replies hash = answering word (512 ∷ [])
replies blockchain = answering (file_of (bodies common_blocks)) (512 ∷ [])
replies (message text) = lost_call

-- Every peer has the common chain; the first request for it is lost.
abbrev peers_answer : Network
peers_answer k peer request = if k == 3 then lost_call else replies request

-- A file with the destinations of Alice, Bob and Carol.
abbrev destination_list : Bytes
destination_list = alice ++ 10 ∷ bob ++ 10 ∷ carol ++ 10 ∷ []

abbrev voter_files : Files
voter_files name =
    if text_eq name user_list_client_i2pd
    then some destination_list
    else if text_eq name (keys_folder ++ alice ++ public_hash_and_blockchain)
    then some (alice ++ 10 ∷ [])
    else none

-- Alice, with a chain of one block.
abbrev voter : Node
voter = record (node_with (user_row carol [] 0 ∷ []) (first_block digest carol ∷ []) []) {
  files = voter_files;
}

abbrev own_last : Bytes
own_last = last_hash (first_block digest carol).transaction_hash []

Heard-here :
    Heard peers_answer alice own_last 0 (alice ∷ bob ∷ carol ∷ []) (own_last ∷ word ∷ word ∷ [])
unfolding text_eq no_response
Heard-here = heard_self refl (
    heard_hash refl
      (get_hash_or_blockchain_i2pd-answered (hex_length + 1) hash word (512 ∷ []) (omega arith)
        (omega arith) (omega arith) (omega arith) (omega arith))
      refl (omega arith)
      (heard_hash refl
        (get_hash_or_blockchain_i2pd-answered (hex_length + 1) hash word (512 ∷ []) (omega arith)
          (omega arith) (omega arith) (omega arith) (omega arith))
        refl (omega arith) heard_all))

neighbours : Neighbours memory memory_lem voter peers_answer alice
unfolding text_eq destinations c_str
neighbours = record {
  list = destination_list;
  peer = alice;
  peers = bob ∷ carol ∷ [];
  c = b'a';
  content = 10 ∷ [];
  own = own_last;
  hashes = own_last ∷ word ∷ word ∷ [];
  list_file = refl;
  list_read = refl;
  few = omega arith;
  own_file = refl;
  mine =
      own_hash-Runs memory memory_lem digest voter (first_block digest carol) [] refl
        (omega arith, refl, tt);
  heard = Heard-here;
}

first_lost : (w : ℕ) → SilentFrom peers_answer (get_or (alice ∷ bob ∷ carol ∷ []) w []) 3 1
unfolding connected
first_lost w zero lt = inl refl
first_lost w (suc j) lt = absurd (omega arith)

sent_at :
    (w : ℕ)
    → hash_at (own_last ∷ word ∷ word ∷ []) w ≡ word
    → Sends peers_answer (alice ∷ bob ∷ carol ∷ []) w (file_of (bodies common_blocks))
sent_at w is = record {
  lost = 1;
  few_lost = omega arith;
  silent = first_lost w;
  answers =
      get_hash_or_blockchain_i2pd-answered hex_length blockchain (file_of (bodies common_blocks))
        (512 ∷ []) (omega arith) (omega arith) (omega arith) (omega arith) (omega arith);
}

update_blockchain-majority_example :
    Runs memory memory_lem
      (update_blockchain memory digest (pos 5) peers_answer alice)
      voter
      tt
      (record (with_blocks voter common_blocks) {
        files =
            removed actual_blockchain
              (stored actual_blockchain (file_of (bodies common_blocks)) voter.files);
      })
unfolding neighbours count text_eq no_response
update_blockchain-majority_example =
    update_blockchain-majority memory memory_lem digest 5 peers_answer alice voter neighbours
      common_blocks word 1 (omega arith) refl (ground arith) (omega arith) sent_at
      (text_eq→ne _ _ refl) (omega arith) common_blocks-IsChain (omega arith) (omega arith)

-- Two silent peers outnumber each hash; the one that two peers have is elected.
elect_lem_example :
    IsElected (gag ∷ bob ∷ gag ∷ word ∷ gag ∷ word ∷ []) 3
    ↔ (elect (gag ∷ bob ∷ gag ∷ word ∷ gag ∷ word ∷ []) ≡ 3)
elect_lem_example =
    elect_lem (gag ∷ bob ∷ gag ∷ word ∷ gag ∷ word ∷ []) 1 (omega arith) (ground arith) 3

elected_place : elect (gag ∷ bob ∷ gag ∷ word ∷ gag ∷ word ∷ []) ≡ 3
unfolding elect count find_maximum find_new_max first_with text_eq
elected_place = refl

receive_sized-sent_example :
    receive_sized
      (unsigned_char_array_4_to_int (int_to_unsigned_char_array_4 1))
      (record { arriving = join (sent_pieces 2 word); amounts = 600 ∷ [] })
    ≡ returned word
receive_sized-sent_example =
    receive_sized-sent word (600 ∷ []) (omega arith) (omega arith) (omega arith)

-- A node with the common chain.
abbrev exporter : Node
exporter = node_with (user_row bob [] 0 ∷ []) common_blocks []

answer_request-chain_example :
    Runs memory memory_lem
      (answer_request memory get_actual_blockchain)
      exporter
      (some (alice ++ b'~' ∷ bob ++ b'~' ∷ []))
      exporter
unfolding text_eq max_transaction_length
answer_request-chain_example =
    answer_request-chain memory memory_lem digest exporter (first_block digest alice)
      (next_block digest (first_block digest alice ∷ []) bob ∷ []) refl common_blocks-IsChain
      (omega arith) refl

abbrev newcomer : World memory
newcomer = record { db = (node_with [] [] []).tables; files = (node_with [] [] []).files }

answer_request-empty_example :
    (w' : World memory) × (answer_request memory get_actual_blockchain newcomer ≡ (blocked, w'))
    × (view memory memory_lem w' ≡ node_with [] [] [])
unfolding text_eq memory_lem
answer_request-empty_example =
    answer_request-empty memory memory_lem newcomer (node_with [] [] []) refl refl refl
