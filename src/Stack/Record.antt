-- ===== src/Stack/Record.antt =====
-- What `AddTx` keeps of the transactions that it sends.
use eth_proxy.Prelude.{
  ℕ, ◌≡◌, inl, inr, String, List, [], ◌∷◌, Option, none, some, ok, err, ◌==◌, if◌then◌else◌, arith,
  Option-cases,
}
use eth_proxy.Stack.{Backend, new_tx, EthereumStack, put_tx, tx_at, add_tx}

-- The map after a write, read at any block.
tx_at-put_tx :
    {Tx : Type 0} (n k : ℕ) (tx : Tx) (ts : List (ℕ × Tx))
    → tx_at k (put_tx n tx ts) ≡ (if k == n then some tx else tx_at k ts)
tx_at-put_tx n k tx [] = ground arith
tx_at-put_tx n k tx ((j, t) ∷ ts) = ground (arith, tx_at-put_tx n k tx ts)

module _ {S Tx : Type 0} (b : Backend S Tx) where
  -- What a call of `AddTx` may do: fail, with no transaction recorded, or record the one that `NewTx`
  -- made at one block, and nothing else.
  abbrev pub Recorded : EthereumStack S Tx → Option String → EthereumStack S Tx → Type 0
  Recorded e (some m) e' = e'.txs ≡ e.txs
  Recorded e none e' =
      (n : ℕ) × (tx : Tx) × (s : S) × (new_tx b e.backend ≡ some (ok tx, s))
      × ((k : ℕ) → tx_at k e'.txs ≡ (if k == n then some tx else tx_at k e.txs))

  recorded_at :
      (e e' : EthereumStack S Tx) (tx : Tx) (s : S)
      → new_tx b e.backend ≡ some (ok tx, s)
      → add_tx b e ≡ some (none, e')
      → (n : ℕ) × (e'.txs ≡ put_tx n tx e.txs)
  recorded_at e e' tx s made done = elim (Option-cases (b.send_transaction tx s)) [
    | inl stuck ↦ absurd (unfold add_tx in ground arith)
    | inr ((some m, s'), failed) ↦ absurd (unfold add_tx in ground arith)
    | inr ((none, s'), sent) ↦ elim (Option-cases (b.commit s')) [
      | inl stuck ↦ absurd (unfold add_tx in ground arith)
      | inr ((_, s''), committed) ↦ elim (Option-cases (b.block_number s'')) [
        | inl stuck ↦ absurd (unfold add_tx in ground arith)
        | inr ((err m, s3), failed) ↦ absurd (unfold add_tx in ground arith)
        | inr ((ok n, s3), asked) ↦ (n, unfold add_tx in ground arith)
      ]
    ]
  ]

  -- A call of `AddTx` that returns an error leaves the recorded transactions as they are; one that
  -- returns none has recorded the transaction that `NewTx` made, at one block, and has left the
  -- others.
  pub add_tx-Recorded :
      (e e' : EthereumStack S Tx) (r : Option String) → add_tx b e ≡ some (r, e') → Recorded e r e'
  add_tx-Recorded e e' (some m) done = unfold add_tx in ground arith
  add_tx-Recorded e e' none done = elim (Option-cases (new_tx b e.backend)) [
    | inl stuck ↦ absurd (unfold add_tx in ground arith)
    | inr ((err m, s), failed) ↦ absurd (unfold add_tx in ground arith)
    | inr ((ok tx, s), made) ↦
        let (n, kept) = recorded_at e e' tx s made done in
        (n, tx, s, made, λ k. rw kept (tx_at-put_tx n k tx e.txs))
  ]
