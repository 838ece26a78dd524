-- ===== src/Examples/Turns.antt =====
-- The theorems on the turns of the nodes of bcm-linux-console at concrete inputs: Alice sends a message
-- to Bob, and Carol has no key for it.
use blockchain_crypto_messan.Common.{
  ◌≡◌, refl, ◌∙◌, inl, inr, List, [], ◌∷◌, ◌++◌, arith, length, text_eq,
}
use blockchain_crypto_messan.Common.Int.{pos, ◌-ℤ◌}
use blockchain_crypto_messan.Text.{c_str}
use blockchain_crypto_messan.Text.Decimal.{to_string}
use blockchain_crypto_messan.Transaction.{compose, max_transaction_length}
use blockchain_crypto_messan.Pad.{xor_bytes}
use blockchain_crypto_messan.Sql.{BlockRow, named, has_table, update_user}
use blockchain_crypto_messan.Decrypt.{attempt, decrypted}
use blockchain_crypto_messan.Decrypt.Delivery.{attempt-cipher, compose-IsAscii, judge-compose}
use blockchain_crypto_messan.Chain.Links.{first_block}
use blockchain_crypto_messan.Vote.{destinations}
use blockchain_crypto_messan.Replicas.{Member, member_at}
use blockchain_crypto_messan.Replicas.Round.{Announcer}
use blockchain_crypto_messan.Replicas.Sending.{Turn, Agreed, Hears, CanSend, AllAct, sealed}
use blockchain_crypto_messan.Replicas.Turns.{all_members_act}
use blockchain_crypto_messan.Examples.Sendings.{
  refusals, accepted_sender, bob_known_there, bob_known_behind,
}
use blockchain_crypto_messan.Examples.Rounds.{
  member, bobs_node, carols_node, bob_knows_alice, carol_knows_bob,
}
use blockchain_crypto_messan.Examples.{
  memory, memory_lem, alice, bob, carol, time, word, key, key-IsHigh, digest, peer,
}

abbrev first : BlockRow
first = first_block digest carol

abbrev alices_turn : Turn memory memory_lem digest (λ s. s) 5 (512 ∷ [])
alices_turn = record {
  sender = member alice accepted_sender;
  updating = refusals;
  user = bob;
  key = key;
  date_time = time;
  message = word;
  seek = 1;
}

abbrev everyone : List (Member memory)
everyone = member alice accepted_sender ∷ member bob bobs_node ∷ member carol carols_node ∷ []

everyone-Agreed : Agreed memory memory_lem digest (λ s. s) 5 (512 ∷ []) (first ∷ []) everyone
unfolding memory_lem
everyone-Agreed = record {
  linked = (omega arith, refl, tt);
  all = ((refl, refl), ((refl, refl), ((refl, refl), tt)));
}

second_opened :
    attempt bob alice
      (key ++ 0 ∷ [])
      (pos (length key))
      (pos 1)
      (sealed memory memory_lem digest (λ s. s) 5 (512 ∷ []) first [] alices_turn)
    ≡ decrypted (compose (pos 2) bob alice time word)
unfolding compose to_string xor_bytes
second_opened =
    attempt-cipher key (compose (pos 2) bob alice time word) 1 key-IsHigh
      (compose-IsAscii 2 bob alice time word (omega arith) (omega arith) (omega arith)
        (omega arith))
      (omega arith) bob alice (omega arith)
    ∙ judge-compose 2 bob alice time word (omega arith) (omega arith) (omega arith) (omega arith)
        (omega arith) (omega arith)

bob-Hears :
    Hears memory memory_lem digest (λ s. s) 5 (512 ∷ []) first [] alices_turn (member bob bobs_node)
unfolding named has_table text_eq compose to_string xor_bytes max_transaction_length memory_lem
bob-Hears = (
  refl,
  inr (record {
    before = [];
    x = peer alice key 1;
    later = [];
    time = time;
    message = word;
    id = 2;
    count = 0;
    roster = (refl, omega arith, (bob_knows_alice, tt));
    over = tt;
    hit = second_opened;
    name_field = omega arith;
    user_field = omega arith;
    time_field = omega arith;
    message_field = omega arith;
    fits = omega arith;
    plain_text = refl;
    another = refl;
    accepted = (omega arith, omega arith, omega arith, omega arith, omega arith, refl);
    unread = refl;
  }),
)

carol-Hears :
    Hears memory memory_lem digest
      (λ s. s)
      5
      (512 ∷ [])
      first
      []
      alices_turn
      (member carol carols_node)
unfolding named text_eq compose to_string xor_bytes attempt ◌-ℤ◌ memory_lem
carol-Hears = (
  refl,
  inl (record {
    peers = peer bob [] 0 ∷ [];
    roster = (refl, omega arith, (carol_knows_bob, tt));
    foreign = (omega arith, (refl, tt));
  }),
)

abbrev announcer : Announcer accepted_sender alice
unfolding text_eq destinations
announcer = record {
  list = alice ++ 10 ∷ bob ++ 10 ∷ carol ++ 10 ∷ [];
  peer = alice;
  peers = bob ∷ carol ∷ [];
  c = b'a';
  content = 10 ∷ [];
  list_file = refl;
  list_read = refl;
  few = omega arith;
  own_file = refl;
}

alice-CanSend : CanSend memory memory_lem digest (λ s. s) 5 (512 ∷ []) first [] alices_turn everyone
unfolding announcer text_eq compose to_string xor_bytes attempt ◌-ℤ◌ update_user has_table
    memory_lem member_at c_str
alice-CanSend = record {
  correspondents = peer bob key 11 ∷ [];
  announcer = announcer;
  contact = bob_known_there;
  clean = omega arith;
  enough = omega arith;
  entry = omega arith;
  below = omega arith;
  empty = refl;
  roster = (refl, omega arith, (bob_known_behind, tt));
  foreign = (omega arith, (refl, tt));
  accepted = (omega arith, omega arith, omega arith, omega arith, omega arith, refl);
  small = omega arith;
  fits = omega arith;
  full = omega arith;
  pieces = omega arith;
  listed = (
    inl refl,
    (
      inr (member bob bobs_node, refl, bob-Hears),
      (inr (member carol carols_node, refl, carol-Hears), tt),
    ),
  );
}

all_members_act_example :
    (after : List (Member memory)) × AllAct memory memory_lem digest
      (λ s. s)
      5
      (512 ∷ [])
      first
      []
      alices_turn
      everyone
      everyone
      after
all_members_act_example =
    all_members_act memory memory_lem digest (λ s. s) 5 (512 ∷ []) first [] alices_turn everyone
      everyone-Agreed alice-CanSend (inl refl, (inr bob-Hears, (inr carol-Hears, tt)))
