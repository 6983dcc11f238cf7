-- ===== src/Api/Kept.antt =====
-- What a client keeps from call to call, and its handlers with it.
use eth_proxy.Prelude.{
  ◌≡◌, refl, inl, inr, Bool-cases, Result-cases, String, Option, none, some, Run, pure, ◌>>=◌, ◌==◌,
  length,
}
use eth_proxy.Prelude.Int.{ℤ}
use eth_proxy.Ethereum.{Ethereum, SimpleEthClient}
use eth_proxy.Http.Delivery.{Reply}
use eth_proxy.Api.{address_key, id_key, data_key, Params}
use eth_proxy.Api.Answers.{
  Endpoint, to_status, to_health, to_balance, to_tx, to_tx_receipt, to_send_tx, answer,
}

-- A call that returns, and leaves a state in which `I` holds.
abbrev pub Stays : {S A : Type 0} → (S → Type 0) → Run S A → S → Type 0
Stays {S} {A} I m s = (r : A) × (s' : S) × (m s ≡ some (r, s')) × I s'

module _ {S : Type 0} {E : Ethereum} where
  -- In a state in which `I` holds, no method panics, and each leaves such a state.
  pub record Keeps (I : S → Type 0) (client : SimpleEthClient E S) : Type 0 where
    pub block_number : (s : S) → I s → Stays I client.block_number s
    pub balance_at :
        (a : E.Address) (n : Option ℤ) (s : S) → I s → Stays I (client.balance_at a n) s
    pub transaction_by_hash : (h : E.Hash) (s : S) → I s → Stays I (client.transaction_by_hash h) s
    pub transaction_receipt : (h : E.Hash) (s : S) → I s → Stays I (client.transaction_receipt h) s
    pub send_transaction : (t : E.Transaction) (s : S) → I s → Stays I (client.send_transaction t) s

  module _ (I : S → Type 0) (client : SimpleEthClient E S) (version : String)
      (keeps : Keeps I client) where
    then_stays :
        {A : Type 0} (m : Run S A) (f : A → Reply) (s : S)
        → Stays I m s
        → Stays I (m >>= λ x. pure (f x)) s
    then_stays m f s (r, s', called, kept) = (f r, s', rw (called, ◌>>=◌) refl, kept)

    here_stays : (a : Reply) (s : S) → I s → Stays I (pure a) s
    here_stays a s h = (a, s, refl, h)

    -- Then every handler answers, and leaves such a state.
    pub answer_stays :
        (e : Endpoint) (p : Params) (s : S) → I s → Stays I (answer client version e p) s
    unfolding answer
    answer_stays to_status p s h = here_stays _ s h
    answer_stays to_health p s h = then_stays client.block_number _ s (keeps.block_number s h)
    answer_stays to_balance p s h = elim (Bool-cases (E.is_hex_address (p address_key))) [
      | inl hex ↦ rw hex (
          then_stays (client.balance_at (E.hex_to_address (p address_key)) none) _ s
            (keeps.balance_at (E.hex_to_address (p address_key)) none s h))
      | inr other ↦ rw other (here_stays _ s h)
    ]
    answer_stays to_tx p s h =
        elim (Bool-cases (length (E.hash_bytes (E.hex_to_hash (p id_key))) == 32)) [
          | inl sized ↦ rw sized (
              then_stays (client.transaction_by_hash (E.hex_to_hash (p id_key))) _ s
                (keeps.transaction_by_hash (E.hex_to_hash (p id_key)) s h))
          | inr other ↦ rw other (here_stays _ s h)
        ]
    answer_stays to_tx_receipt p s h =
        elim (Bool-cases (length (E.hash_bytes (E.hex_to_hash (p id_key))) == 32)) [
          | inl sized ↦ rw sized (
              then_stays (client.transaction_receipt (E.hex_to_hash (p id_key))) _ s
                (keeps.transaction_receipt (E.hex_to_hash (p id_key)) s h))
          | inr other ↦ rw other (here_stays _ s h)
        ]
    answer_stays to_send_tx p s h = elim (Result-cases (E.hex_decode (p data_key))) [
      | inl (m, malformed) ↦ rw (answer, malformed) (here_stays _ s h)
      | inr (bytes, decoded) ↦ elim (Result-cases (E.unmarshal_binary bytes)) [
        | inl (m, malformed) ↦ rw (answer, decoded, malformed) (here_stays _ s h)
        | inr (t, parsed) ↦
            rw (answer, decoded, parsed)
              (then_stays (client.send_transaction t) _ s (keeps.send_transaction t s h))
      ]
    ]
