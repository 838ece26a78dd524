-- ===== src/Messenger/Refused.antt =====
-- A message that most peers refuse (bcm-linux-console/Messenger.cpp).
use blockchain_crypto_messan.Common.{
  ℕ, ◌+◌, ◌≤◌, ◌<◌, ◌≡◌, refl, sym, ap, ap₂, subst, if◌then◌else◌, false, List, [], ◌∷◌, arith,
  length, take, drop, text_eq, Bool-cases, inl, inr, All,
}
use blockchain_crypto_messan.Common.Int.{ℤ, pos, ◌-ℤ◌}
use blockchain_crypto_messan.Text.{Bytes, NoNul, c_str-eq}
use blockchain_crypto_messan.Text.Decimal.{atoi-to_string}
use blockchain_crypto_messan.Transaction.{compose}
use blockchain_crypto_messan.Pad.{xor_bytes}
use blockchain_crypto_messan.Sql.{UserRow, BlockRow, named, update_user}
use blockchain_crypto_messan.Sql.Engine.{Engine, IsSqlite, Node, Runs, Runs-pure, Runs-bind}
use blockchain_crypto_messan.Keys.{set_key_seek_for_user}
use blockchain_crypto_messan.Keys.Laws.{
  Contact, with_seek, get_key_seek_for_user-Runs, set_key_seek_for_user-Runs,
}
use blockchain_crypto_messan.Keys.Encrypt.{pos-+ℤ, encrypt_text_message_lem}
use blockchain_crypto_messan.Keys.Sequence.{moved_to, Contact-with_seek}
use blockchain_crypto_messan.Chain.Links.{IsChain}
use blockchain_crypto_messan.Chain.Import.{get_how_much_id-Runs}
use blockchain_crypto_messan.Server.Agreement.{next_text}
use blockchain_crypto_messan.Vote.{Network, gag, count, elect}
use blockchain_crypto_messan.Vote.Election.{hash_at, elect-majority}
use blockchain_crypto_messan.Announce.{no_answer, decided}
use blockchain_crypto_messan.Announce.Sent.{Voters, send_message_i2pd-Runs}
use blockchain_crypto_messan.Messenger.{buf_file, give_back, renewed, numbered_message, send_text}

-- Moving an offset away and back leaves the table as it was.
moved_back :
    (user : Bytes) (s s' : ℤ) (rows : List UserRow)
    → All (λ (r : UserRow). r.key_seek ≡ s) (named user rows)
    → update_user user (moved_to s) (update_user user (moved_to s') rows) ≡ rows
unfolding named update_user
moved_back user s s' [] h = refl
moved_back user s s' (r ∷ rows) h = elim (Bool-cases (text_eq r.user_name user)) [
  | inl same ↦
      let at : All (λ (r : UserRow). r.key_seek ≡ s) (r ∷ named user rows) =
        subst
          (λ t.
            All (λ (r : UserRow). r.key_seek ≡ s)
              (if t then r ∷ named user rows else named user rows))
          same h in
      rw (same, same)
        (ap₂ ◌∷◌ (ap (λ k. record r { key_seek = k }) (sym at.0)) (moved_back user s s' rows at.1))
  | inr other ↦
      let at : All (λ (r : UserRow). r.key_seek ≡ s) (named user rows) =
        subst
          (λ t.
            All (λ (r : UserRow). r.key_seek ≡ s)
              (if t then r ∷ named user rows else named user rows))
          other h in
      rw (other, other) (ap (λ l. r ∷ l) (moved_back user s s' rows at))
]

seek_restored : (s l : ℕ) → pos (s + l) -ℤ pos l ≡ pos s
unfolding ◌-ℤ◌
seek_restored s l = ground arith

module _ (e : Engine) (q : IsSqlite e) where
  give_back-Runs :
      (n : Node) (user key text : Bytes) (seek : ℕ)
      → Contact n user key seek
      → NoNul text
      → Runs e q (give_back e user text) (with_seek n user (pos (seek + length text))) tt n
  unfolding give_back
  give_back-Runs n user key text seek c clean =
      let moved = Contact-with_seek c (seek + length text) in
      let back : with_seek (with_seek n user (pos (seek + length text))) user (pos seek) ≡ n =
        ap (λ g. record n { tables = record n.tables { general = g } })
          (moved_back user (pos seek) _ n.general
            (subst (All (λ (r : UserRow). r.key_seek ≡ pos seek)) (sym c.row) (refl, tt))) in
      Runs-bind e q _ (get_key_seek_for_user-Runs e q moved) (
        rw (c_str-eq text clean, seek_restored seek (length text))
          (subst
            (Runs e q (set_key_seek_for_user e user (pos seek))
              (with_seek n user (pos (seek + length text))) tt)
            back (set_key_seek_for_user-Runs e q moved (pos seek))))

  module _ (md5 base64_decode : Bytes → Bytes) (limit : ℤ) (announcing updating : Network)
      (my_name : Bytes) (clock : ℤ → Bytes) where
    -- The text that is sealed, and what the key makes of it.
    abbrev pub text_of : List BlockRow → Bytes → Bytes → Bytes → Bytes
    text_of bs user date_time message = compose (pos (length bs + 1)) user my_name date_time message

    abbrev pub sealed : Bytes → ℕ → Bytes → Bytes
    sealed key seek text = xor_bytes text (take (length text) (drop seek key))

    numbered_message-refused :
        (n m : Node) (b : BlockRow) (bs : List BlockRow) (user key date_time message : Bytes)
        (seek : ℕ)
        (v : Voters n.files announcing my_name
          (next_text b bs (sealed key seek (text_of (b ∷ bs) user date_time message))))
        → n.blockchain ≡ b ∷ bs
        → IsChain md5 (b ∷ bs)
        → Contact n user key seek
        → NoNul (text_of (b ∷ bs) user date_time message)
        → NoNul (sealed key seek (text_of (b ∷ bs) user date_time message))
        → seek + length (text_of (b ∷ bs) user date_time message) ≤ length key
        → hash_at v.answers (elect v.answers) ≡ no_answer
        → Runs e q (renewed e md5 base64_decode limit announcing updating my_name clock) n tt m
        → Runs e q
            (numbered_message e md5 base64_decode limit announcing updating my_name clock user
              date_time message
              (pos (length (b ∷ bs) + 1)))
            n
            tt
            m
    unfolding numbered_message text_eq
    numbered_message-refused n m b bs user key date_time message seek v is h c clean clean' enough
          elected after =
        let text = text_of (b ∷ bs) user date_time message in
        let moved = with_seek n user (pos (seek + length text)) in
        Runs-bind e q _ (encrypt_text_message_lem e q c text clean enough) (
          Runs-bind e q _
            (send_message_i2pd-Runs e q md5 announcing my_name buf_file moved moved b bs _ false v
              is h clean'
              (subst (λ t. Runs e q (decided e buf_file t) moved false moved) (sym elected)
                (Runs-pure e q false moved)))
            (Runs-bind e q _ (give_back-Runs n user key text seek c clean) after))

    -- If more than half of the listed peers that answer refuse a message, for which enough key is
    -- left and whose composed and sealed texts have no NUL, then sending it does to the node what
    -- bringing the chain up to date does from the node before: the offset of the key is as if
    -- nothing had been sealed.
    pub send_text-refused :
        (n m : Node) (b : BlockRow) (bs : List BlockRow) (user key date_time message : Bytes)
        (seek : ℕ)
        (v : Voters n.files announcing my_name
          (next_text b bs (sealed key seek (text_of (b ∷ bs) user date_time message))))
        (i : ℕ)
        → n.blockchain ≡ b ∷ bs
        → IsChain md5 (b ∷ bs)
        → Contact n user key seek
        → NoNul (text_of (b ∷ bs) user date_time message)
        → NoNul (sealed key seek (text_of (b ∷ bs) user date_time message))
        → seek + length (text_of (b ∷ bs) user date_time message) ≤ length key
        → i < length v.answers
        → hash_at v.answers i ≡ no_answer
        → length v.answers
          < count no_answer v.answers + count no_answer v.answers + count gag v.answers
        → Runs e q (renewed e md5 base64_decode limit announcing updating my_name clock) n tt m
        → Runs e q
            (send_text e md5 base64_decode limit announcing updating my_name clock user date_time
              message)
            n
            tt
            m
    unfolding send_text
    send_text-refused n m b bs user key date_time message seek v i is h c clean clean' enough lt
          refuses more after =
        Runs-bind e q _ (get_how_much_id-Runs e q n) (
          rw (atoi-to_string (length n.blockchain), pos-+ℤ (length n.blockchain) 1)
            (subst
              (λ r.
                Runs e q
                  (numbered_message e md5 base64_decode limit announcing updating my_name clock user
                    date_time message (pos (length r + 1)))
                  n tt m)
              (sym is)
              (numbered_message-refused n m b bs user key date_time message seek v is h c clean
                clean' enough (elect-majority v.answers no_answer i lt refuses (ground arith) more)
                after)))
