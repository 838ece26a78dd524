-- ===== src/Share/Placed.antt =====
-- What `share_file` (bcm-linux-console/Cpp_part.cpp) writes into the reference file.
use blockchain_crypto_messan.Common.{
  ℕ, zero, suc, ◌+◌, ◌-◌, ◌≡◌, refl, ap, subst, ◌⊎◌, Bool-cases, inl, inr, not, ◌||◌, List, [],
  length, get_or, ◌==◌, ==_iff, if◌then◌else◌,
}
use blockchain_crypto_messan.Common.Int.{ℤ}
use blockchain_crypto_messan.Text.{Bytes}
use blockchain_crypto_messan.Program.{returned, pure, >>=-inv, pure-inv}
use blockchain_crypto_messan.Share.{
  Draws, Parts, rand_mod, rand_until, first_address, next_address, place, place_all, blank, Entry,
  content_of,
}
use blockchain_crypto_messan.Share.Union.{refused, arrived, Servers, first_answer}
use blockchain_crypto_messan.Share.Copies.{Copied, Placed}

module _ (count_hash : Bytes → Bytes) (send_file_to_server : ℕ → Bytes → Bytes → ℤ)
    (recieve_from_server : Servers) where
  -- A server that answers sends what it was sent under the number that it gave.
  abbrev pub Honest : Type 0
  Honest =
      (i : ℕ) (addr content : Bytes)
      → (recieve_from_server addr (send_file_to_server i addr content) ≡ arrived content)
        ⊎ (recieve_from_server addr (send_file_to_server i addr content) ≡ refused)

  abbrev sent_to : ℕ → Bytes → Bytes → Bytes → Bytes → Entry
  sent_to i content addr_1 addr_2 addr_3 = record {
    hash_file = count_hash content;
    addr_1 = addr_1;
    addr_2 = addr_2;
    addr_3 = addr_3;
    filename_1 = send_file_to_server i addr_1 content;
    filename_2 = send_file_to_server i addr_2 content;
    filename_3 = send_file_to_server i addr_3 content;
  }

  sent_to-Copied :
      Honest
      → (i : ℕ) (content a b c : Bytes)
      → Copied count_hash recieve_from_server content (sent_to i content a b c)
  unfolding first_answer
  sent_to-Copied honest i content a b c = (
    refl,
    elim (honest i a content) [
      | inl first ↦ inl (rw first refl)
      | inr lost ↦ elim (honest i b content) [
        | inl second ↦ inl (rw (lost, second) refl)
        | inr lost' ↦ elim (honest i c content) [
          | inl third ↦ inl (rw (lost, lost', third) refl)
          | inr lost'' ↦ inr (rw (lost, lost', lost'') refl)
        ]
      ]
    ],
  )

  place-Copied :
      Honest
      → (servers_address : List Bytes) (i : ℕ) (content : Bytes) (draws rest : Draws) (e : Entry)
      → place count_hash send_file_to_server servers_address i content draws ≡ (returned e, rest)
      → Copied count_hash recieve_from_server content e
  unfolding place
  place-Copied honest servers_address i content draws rest e h =
      let (r₁, d₁, _, h₁) = >>=-inv (rand_mod (length servers_address - 1)) _ draws h in
      let (r₂, d₂, _, h₂) =
        >>=-inv (rand_until (λ r. not (r₁ == r)) (length servers_address - 1)) _ d₁ h₁ in
      let (r₃, d₃, _, h₃) =
        >>=-inv (rand_until (λ r. not (r == r₂ || r == r₁)) (length servers_address - 1)) _ d₂ h₂ in
      let (a, d₄, _, h₄) = >>=-inv (first_address (get_or servers_address r₁ [])) _ d₃ h₃ in
      subst (λ t. Copied count_hash recieve_from_server content t) (pure-inv _ d₄ h₄)
        (sent_to-Copied honest i content a (next_address (get_or servers_address r₂ []))
          (next_address (get_or servers_address r₃ [])))

  pub place_all-Placed :
      Honest
      → (servers_address : List Bytes) (part_here : ℕ) (files : Parts) (rounds i : ℕ)
        (draws rest : Draws) (entries : List Entry)
      → place_all count_hash send_file_to_server servers_address part_here files rounds i draws
        ≡ (returned entries, rest)
      → Placed count_hash recieve_from_server part_here i files entries × (length entries ≡ rounds)
  unfolding place_all
  place_all-Placed honest servers_address part_here files zero i draws rest entries h =
      subst (λ es. Placed count_hash recieve_from_server part_here i files es × (length es ≡ zero))
        (pure-inv [] draws h) (tt, refl)
  place_all-Placed honest servers_address part_here files (suc rounds) i draws rest entries h =
      let (e, d₁, e₁, h₁) =
        >>=-inv
          (if i == part_here
            then pure blank
            else place count_hash send_file_to_server servers_address i (content_of (files i)))
          _ draws h in
      let (more, d₂, e₂, h₂) =
        >>=-inv
          (place_all count_hash send_file_to_server servers_address part_here files rounds (i + 1))
          _ d₁ h₁ in
      let ih : Placed count_hash recieve_from_server part_here (i + 1) files more
          × (length more ≡ rounds) =
        place_all-Placed honest servers_address part_here files rounds (i + 1) d₁ d₂ more e₂ in
      subst
        (λ es.
          Placed count_hash recieve_from_server part_here i files es × (length es ≡ suc rounds))
        (pure-inv _ d₂ h₂)
        (
          (
            elim (Bool-cases (i == part_here)) [
              | inl stays ↦ inl ((==_iff i part_here).0 stays)
              | inr goes ↦ inr (
                  place-Copied honest servers_address i (content_of (files i)) draws d₁ e
                    (rw goes at e₁))
            ],
            ih.0,
          ),
          ap suc ih.1,
        )
