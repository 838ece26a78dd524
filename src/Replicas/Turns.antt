-- ===== src/Replicas/Turns.antt =====
-- The members of the system agree on one chain after any number of turns, and each turn ends
-- (bcm-linux-console/Messenger.cpp and bcm-linux-console/Cpp_part.cpp).
use blockchain_crypto_messan.Common.{
  ℕ, ◌≡◌, refl, sym, subst, ◌⊎◌, inl, inr, true, some, List, [], ◌∷◌, arith, length-map, text_eq,
  Bool-cases, All,
}
use blockchain_crypto_messan.Common.Int.{pos}
use blockchain_crypto_messan.Text.{Bytes}
use blockchain_crypto_messan.Sql.{BlockRow}
use blockchain_crypto_messan.Sql.Engine.{Engine, IsSqlite, Runs}
use blockchain_crypto_messan.Chain.Links.{last_hash-IsField}
use blockchain_crypto_messan.Chain.File.{IsEntry-NoNul}
use blockchain_crypto_messan.Vote.Adopt.{own_of}
use blockchain_crypto_messan.Server.Agreement.{next_text}
use blockchain_crypto_messan.Messenger.{send_text}
use blockchain_crypto_messan.Messenger.Accepted.{filed, send_text-accepted}
use blockchain_crypto_messan.Replicas.{Member, joined_by, member_at}
use blockchain_crypto_messan.Replicas.Members.{TakesIn, Prepared, Prepared-TakesIn}
use blockchain_crypto_messan.Replicas.Ballots.{count-same, AllPrepared, AllPrepared-Reached}
use blockchain_crypto_messan.Replicas.Round.{voters_of}
use blockchain_crypto_messan.Replicas.Sending.{
  Turn, HasAnalysed, Agreed, at, sealed, grown, Hears, CanSend, sends, answers, AllAct, none_left,
  one_more,
}

member_at-All :
    {e : Engine} (P : Member e → Type 0) (peer : Bytes) (ms : List (Member e)) (m : Member e)
    → member_at e peer ms ≡ some m
    → All P ms
    → P m
unfolding member_at
member_at-All P peer [] m found h = cc
member_at-All P peer (x ∷ ms) m found h = elim (Bool-cases (text_eq x.destination peer)) [
  | inl here ↦ let same : x ≡ m = ground arith in subst P same h.0
  | inr later ↦ member_at-All P peer ms m (ground arith) h.1
]

module _ (e : Engine) (q : IsSqlite e) (md5 base64_decode : Bytes → Bytes) (limit : ℕ)
    (amounts : List ℕ) where
  module _ (b : BlockRow) (bs : List BlockRow) (t : Turn e q md5 base64_decode limit amounts)
      (ms : List (Member e)) (g : Agreed e q md5 base64_decode limit amounts (b ∷ bs) ms)
      (c : CanSend e q md5 base64_decode limit amounts b bs t ms) where
    Hears-Prepared :
        (m : Member e)
        → HasAnalysed e q md5 base64_decode limit amounts (b ∷ bs) m
        → Hears e q md5 base64_decode limit amounts b bs t m
        → Prepared e q md5 base64_decode limit t.sender.destination b bs
            (sealed e q md5 base64_decode limit amounts b bs t)
            m
    Hears-Prepared m h k = (record { there = h.0; cursor = h.1; other = k.0 }, k.1)

    heard :
        (m : Member e)
        → HasAnalysed e q md5 base64_decode limit amounts (b ∷ bs) m
        → Hears e q md5 base64_decode limit amounts b bs t m
        → TakesIn e q md5 base64_decode limit t.sender.destination m
            (next_text b bs (sealed e q md5 base64_decode limit amounts b bs t))
            (grown e q md5 base64_decode limit amounts b bs t)
    heard m h k =
        Prepared-TakesIn e q md5 base64_decode limit t.sender.destination b bs _ m g.linked
          (IsEntry-NoNul _ c.entry) c.below c.small (Hears-Prepared m h k)

    listed-Prepared :
        (own : Bytes) (peers : List Bytes)
        → All
            (λ peer.
              (text_eq peer own ≡ true)
              ⊎ ((m : Member e) × (member_at e peer ms ≡ some m)
                  × Hears e q md5 base64_decode limit amounts b bs t m))
            peers
        → AllPrepared e q md5 base64_decode limit t.sender.destination amounts ms own b bs
            (sealed e q md5 base64_decode limit amounts b bs t)
            peers
    listed-Prepared own [] h = tt
    listed-Prepared own (peer ∷ peers) (inl self, h) = (inl self, listed-Prepared own peers h)
    listed-Prepared own (peer ∷ peers) (inr found, h) = (
      inr (
        found.0,
        found.1,
        Hears-Prepared found.0
            (member_at-All (HasAnalysed e q md5 base64_decode limit amounts (b ∷ bs)) peer ms
              found.0 found.1 g.all)
            found.2,
      ),
      listed-Prepared own peers h,
    )

    sent :
        HasAnalysed e q md5 base64_decode limit amounts (b ∷ bs) t.sender
        → Runs e q
            (send_text e md5 base64_decode
              (pos limit)
              (joined_by e md5 base64_decode (pos limit) t.sender.destination amounts ms)
              t.updating
              t.sender.name
              t.sender.clock
              t.user
              t.date_time
              t.message)
            (at e q md5 base64_decode limit amounts b bs t)
            tt
            (filed md5 t.sender.name
              (at e q md5 base64_decode limit amounts b bs t)
              b
              bs
              t.user
              t.key
              t.date_time
              t.message
              t.seek)
    sent h =
        let a = c.announcer in
        let text = next_text b bs (sealed e q md5 base64_decode limit amounts b bs t) in
        let nul_free = IsEntry-NoNul _ c.entry in
        let peers = a.peer ∷ a.peers in
        let voters =
          voters_of e q md5 base64_decode limit t.sender.destination amounts _ _ _ b bs ms _ a
            (last_hash-IsField md5 b bs g.linked) nul_free c.fits c.full c.pieces
            (AllPrepared-Reached e q md5 base64_decode limit t.sender.destination amounts ms
              (own_of (a.c ∷ a.content)) b bs _ peers g.linked nul_free c.below c.small
              (listed-Prepared (own_of (a.c ∷ a.content)) peers c.listed)) in
        send_text-accepted md5 t.sender.name _ b bs t.user t.key t.date_time t.message t.seek e q
          base64_decode limit _ t.updating t.sender.clock c.correspondents h.0 g.linked h.1 c.below
          c.empty c.entry c.roster c.foreign c.accepted voters 0 c.contact c.clean c.enough
          (omega arith) refl (omega (arith, count-same text peers, length-map (λ peer. text) peers))

    all_act :
        (rest : List (Member e))
        → All (HasAnalysed e q md5 base64_decode limit amounts (b ∷ bs)) rest
        → All (λ m. (m ≡ t.sender) ⊎ Hears e q md5 base64_decode limit amounts b bs t m) rest
        → (rest' : List (Member e)) × AllAct e q md5 base64_decode limit amounts b bs t ms rest
            rest'
    all_act [] h k = ([], none_left)
    all_act (m ∷ rest) h (inl is, k) =
        let r =
          (sent (subst (HasAnalysed e q md5 base64_decode limit amounts (b ∷ bs)) is h.0)).at
            t.sender.world refl in
        let later = all_act rest h.1 k in
        (
          _,
          subst
              (λ x.
                AllAct e q md5 base64_decode limit amounts b bs t ms (x ∷ rest)
                  (record t.sender { world = r.0 } ∷ later.0))
              (sym is) (one_more (sends r.0 r.1) later.1),
        )
    all_act (m ∷ rest) h (inr hears, k) =
        let r = (heard m h.0 hears).runs.at m.world refl in
        let later = all_act rest h.1 k in (_, one_more (answers m _ r.0 hears r.1) later.1)

    -- From members that agree, the turn of one that can send, to members that each are the sender or
    -- hear it, ends: the sender's program and every answer return.
    pub all_members_act :
        All (λ m. (m ≡ t.sender) ⊎ Hears e q md5 base64_decode limit amounts b bs t m) ms
        → (ms' : List (Member e)) × AllAct e q md5 base64_decode limit amounts b bs t ms ms ms'
    all_members_act k = all_act ms g.all k
