-- ===== src/Replicas.antt =====
-- The nodes of bcm-linux-console as one system: what send_message_i2pd of a node sends to a peer is
-- what the server of that peer (send_message_server_part_function_i2pd of
-- bcm-linux-console/Cpp_part.cpp) answers.
pub mod Ballots
pub mod Members
pub mod Round
pub mod Sending
pub mod Turns
use blockchain_crypto_messan.Common.{
  ℕ, Option, none, some, List, [], ◌∷◌, false, text_eq, if◌then◌else◌,
}
use blockchain_crypto_messan.Common.Int.{ℤ}
use blockchain_crypto_messan.Text.{Bytes}
use blockchain_crypto_messan.Program.{Outcome, returned, exited, fault, blocked, Exec}
use blockchain_crypto_messan.Sql.Engine.{Engine, World}
use blockchain_crypto_messan.Wire.{Request, hash, blockchain, message, Call}
use blockchain_crypto_messan.Wire.Client.{answering}
use blockchain_crypto_messan.Vote.{Network}
use blockchain_crypto_messan.Server.{answer_announcement}

-- A call that is not taken.
abbrev pub refused_call : Call
refused_call = record {
  connects = λ k. false;
  reply_size = none;
  reply = record { arriving = []; amounts = [] };
}

module _ (e : Engine) where
  -- A node with its name, its destination, its clock and its world.
  pub record Member : Type 0 where
    pub name : Bytes
    pub destination : Bytes
    pub clock : ℤ → Bytes
    pub world : World e

  -- The first member with a destination.
  unfoldable pub member_at : Bytes → List Member → Option Member
  member_at peer [] = none
  member_at peer (m ∷ ms) =
      let later = member_at peer ms in if text_eq m.destination peer then some m else later

  module _ (md5 base64_decode : Bytes → Bytes) (limit : ℤ) (sender : Bytes) where
    -- What a member answers to the announcement of the node at the destination `sender`.
    abbrev pub reply : Member → Bytes → Exec (World e) Bytes
    reply m text =
        answer_announcement e md5 limit base64_decode m.name m.clock sender m.destination text

    -- The call that arrives; a server that does not return closes no answer.
    abbrev pub carried : List ℕ → Outcome Bytes → Call
    carried amounts (returned text) = answering text amounts
    carried amounts exited = refused_call
    carried amounts fault = refused_call
    carried amounts blocked = refused_call

    abbrev pub call_of : List ℕ → Option Member → Bytes → Call
    call_of amounts none text = refused_call
    call_of amounts (some m) text = carried amounts (reply m text m.world).0

    abbrev requested : List ℕ → Option Member → Request → Call
    requested amounts m hash = refused_call
    requested amounts m blockchain = refused_call
    requested amounts m (message text) = call_of amounts m text

    -- The network of these members, on which the reads of an answer find these amounts.
    unfoldable pub joined_by : List ℕ → List Member → Network
    unfolding member_at
    joined_by amounts ms k peer request = requested amounts (member_at peer ms) request
