-- ===== src/Staking/Apply/Promise.antt =====
-- core/state_processor.go: what applyStakeTransaction, applyCoinBaseTransaction, applyAttestTransaction
-- and UpdateStakeValidators do to the ledger, to the gas and to the context.
use zond.Prelude.{
  ℕ, ◌+◌, ◌-◌, ◌%◌, ◌^◌, ◌<◌, ◌≡◌, ◌⊎◌, refl, sym, ap, ◌∙◌, true, none, some, List, [], ◌∷◌, arith,
  inl, inr, Bool-cases, ltb, ltb→lt,
}
use zond.Prelude.Int.{signed}
use zond.State.Account.{Address, Backend}
use zond.State.Db.{StateDb}
use zond.State.Finalise.{finalise}
use zond.State.Read.{get_stake_balance}
use zond.State.Ledger.{Ledger, change, ledger}
use zond.State.Ledger.Writes.{credit, debit}
use zond.State.Ledger.Reads.{get_stake_balance-ledger}
use zond.Gas.{sub_gas}
use zond.Gas
use zond.Transactions.{
  Bytes, Crypto, Stake, CoinBase, Attest, Transaction, dilithium_address_of, address_of, tx_hash,
  coinbase_signing_hash, attest_signing_hash,
}
use zond.Staking.{Config, Outcome, ok, error, panicked}
use zond.Staking.Epoch.{EpochMetaData}
use zond.Staking.Context.{StateContext, process_attestors_flag, process_block_proposer_flag}
use zond.Staking.Apply.{
  Receipt, Place, Applied, with_receipt, stake_changes, obtained, apply_stake_transaction,
  apply_coinbase_transaction, apply_attest_transaction, with_context, coinbase_changes,
  attest_changes, update_validator, update_stake_validators,
}
use zond.Staking.Apply.Refine.{
  staked, tip, proposed, attested, renewed, stake_changes-ledger, coinbase_changes-ledger,
  attest_changes-ledger, update_validator-ledger, obtained-ledger,
}

module _ (db : Backend) where
  -- The pool and the receipt after applyStakeTransaction
  abbrev pub IsPaid : ℕ → Applied db → Type 0
  IsPaid gp r =
      ((gp < 1000) × (r.pool ≡ gp) × (r.receipt ≡ none))
      ⊎ ((r.pool + 1000 ≡ gp)
          × (receipt : Receipt) × (r.receipt ≡ some receipt)
          × (receipt.cumulative_gas_used ≡ r.used_gas))

  limit_cases :
      (gp : ℕ)
      → ((gp < 1000) × (sub_gas gp 1000 ≡ Gas.error Gas.gas_limit_reached))
        ⊎ ((left : ℕ) × (sub_gas gp 1000 ≡ Gas.ok left) × (left + 1000 ≡ gp))
  unfolding sub_gas
  limit_cases gp = elim (Bool-cases (ltb gp 1000)) [
    | inl e ↦ inl (ltb→lt gp 1000 e, rw e refl)
    | inr e ↦ inr (gp - 1000, rw e refl, ground arith)
  ]

  with_receipt_lem :
      (s : StateDb) (used_gas gp : ℕ) (tx : Transaction) (p : Place)
      → let r = with_receipt db s used_gas gp tx p (sub_gas gp 1000) in
        (r.state ≡ s) × (r.used_gas ≡ used_gas) × IsPaid gp r
  unfolding with_receipt
  with_receipt_lem s used_gas gp tx p = elim (limit_cases gp) [
    | inl (short, e) ↦ rw e (refl, refl, inl (short, refl, refl))
    | inr (left, e, whole) ↦ rw e (refl, refl, inr (whole, _, refl, refl))
  ]

  -- applyStakeTransaction changes the ledger of nonces, balances and stakes as follows, from
  -- Finalise on: the sender's nonce grows by one, its pending stake returns to the balance, and
  -- the fee and the amount are taken and the refund given, the amount being the new pending
  -- stake; then the proposer's balance gets the tip. The gas used grows by 1000, modulo 2^64, and
  -- the pool either is below 1000, is kept, and there is no receipt, or has lost 1000, and there
  -- is one with the gas used.
  pub apply_stake_transaction-ledger :
      (c : Crypto) (gp : ℕ) (s : StateDb) (p : Place) (tx : Stake) (used_gas : ℕ) (minter : Address)
      → let a = dilithium_address_of c tx.stake_tx.pk in
        let r = apply_stake_transaction db c gp s p tx used_gas minter in
        (ledger db r.state
          ≡ change
              (change (ledger db (finalise db true s)) a (staked db tx.stake_tx tx.amount))
              minter
              (credit (tip db tx.stake_tx)))
        × (r.used_gas ≡ (used_gas + 1000) % 2 ^ 64)
        × IsPaid gp r
  unfolding apply_stake_transaction
  apply_stake_transaction-ledger c gp s p tx used_gas minter =
      let a = dilithium_address_of c tx.stake_tx.pk in
      let t = stake_changes db tx.stake_tx tx.amount a minter (finalise db true s) in
      let (state, used, paid) = with_receipt_lem t ((used_gas + 1000) % 2 ^ 64) gp tx.stake_tx p in
      (
        ap (ledger db) state
            ∙ stake_changes-ledger db tx.stake_tx tx.amount a minter (finalise db true s),
        used,
        paid,
      )

  abbrev value_of :
      StateDb × StateContext × Receipt
      → Outcome (StateDb × StateContext × Receipt)
      → StateDb × StateContext × Receipt
  value_of r (ok x) = x
  value_of r (error f) = r
  value_of r panicked = r

  with_context-ok :
      (s : StateDb) (changes : StateDb → StateDb) (p : Place) (h : ℕ) (x : Outcome StateContext)
      → (r : StateDb × StateContext × Receipt) → with_context db s changes p h x ≡ ok r
      → (r.0 ≡ changes s) × (x ≡ ok r.1)
  unfolding with_context
  with_context-ok s changes p h (ok sc) r e =
      let same = sym (ap (value_of r) e) in (ap (λ x. x.0) same, ap (λ x. ok x.1) (sym same))
  with_context-ok s changes p h (error f) r e = cc
  with_context-ok s changes p h panicked r e = cc

  -- If applyCoinBaseTransaction succeeds, the context accepted the proposer with the stake that
  -- the ledger has after Finalise, and the ledger has changed only in this: the proposer's nonce
  -- has grown by one and its balance by both rewards, and the coinbase address has then paid the
  -- block reward.
  pub apply_coinbase_transaction-ledger :
      (cfg : Config) (c : Crypto) (s : StateDb) (sc : StateContext) (p : Place) (tx : CoinBase)
      → (r : StateDb × StateContext × Receipt)
      → apply_coinbase_transaction db cfg c s sc p tx ≡ ok r
      → let a = dilithium_address_of c tx.coinbase_tx.pk in
        let l = ledger db (finalise db true s) in
        (ledger db r.0
          ≡ change
              (change l a (proposed db tx))
              cfg.coinbase_address
              (debit (signed tx.block_proposer_reward)))
        × (process_block_proposer_flag cfg sc tx.coinbase_tx.pk (l a).stake_balance ≡ ok r.1)
  unfolding apply_coinbase_transaction
  apply_coinbase_transaction-ledger cfg c s sc p tx r e =
      let a = dilithium_address_of c tx.coinbase_tx.pk in
      let u = obtained db a (finalise db true s) in
      let (answer, same) = get_stake_balance-ledger db u a in
      let whole = same ∙ obtained-ledger db a (finalise db true s) in
      let (stake, t) = get_stake_balance db u a in
      let h =
        tx_hash c (coinbase_signing_hash c tx sc.block_signing_hash) tx.coinbase_tx.signature
          tx.coinbase_tx.pk in
      let (state, context) =
        with_context-ok t (coinbase_changes db cfg tx a) p h
          (process_block_proposer_flag cfg sc tx.coinbase_tx.pk stake) r e in
      (
        ap (ledger db) state
            ∙ coinbase_changes-ledger db cfg tx a (get_stake_balance db u a).1
            ∙ ap
                (λ l.
                  change (change l a (proposed db tx)) cfg.coinbase_address
                    (debit (signed tx.block_proposer_reward)))
                whole,
        ap (process_block_proposer_flag cfg sc tx.coinbase_tx.pk) (
              ap (λ (l : Ledger). (l a).stake_balance)
                (sym (obtained-ledger db a (finalise db true s)))
              ∙ sym answer)
            ∙ context,
      )

  pub apply_attest_transaction-ledger :
      (cfg : Config) (c : Crypto) (s : StateDb) (sc : StateContext) (p : Place) (tx : Attest)
      (reward : ℕ)
      → (r : StateDb × StateContext × Receipt)
      → apply_attest_transaction db cfg c s sc p tx reward ≡ ok r
      → let a = dilithium_address_of c tx.attest_tx.pk in
        let l = ledger db (finalise db true s) in
        (ledger db r.0
          ≡ change (change l a (attested db reward)) cfg.coinbase_address (debit (signed reward)))
        × (process_attestors_flag cfg sc tx.attest_tx.pk (l a).stake_balance ≡ ok r.1)
  unfolding apply_attest_transaction
  apply_attest_transaction-ledger cfg c s sc p tx reward r e =
      let a = dilithium_address_of c tx.attest_tx.pk in
      let u = obtained db a (finalise db true s) in
      let (answer, same) = get_stake_balance-ledger db u a in
      let whole = same ∙ obtained-ledger db a (finalise db true s) in
      let (stake, t) = get_stake_balance db u a in
      let h =
        tx_hash c (attest_signing_hash c tx sc.partial_block_signing_hash) tx.attest_tx.signature
          tx.attest_tx.pk in
      let (state, context) =
        with_context-ok t (attest_changes db cfg reward a) p h
          (process_attestors_flag cfg sc tx.attest_tx.pk stake) r e in
      (
        ap (ledger db) state
            ∙ attest_changes-ledger db cfg reward a (get_stake_balance db u a).1
            ∙ ap
                (λ l.
                  change (change l a (attested db reward)) cfg.coinbase_address
                    (debit (signed reward)))
                whole,
        ap (process_attestors_flag cfg sc tx.attest_tx.pk) (
              ap (λ (l : Ledger). (l a).stake_balance)
                (sym (obtained-ledger db a (finalise db true s)))
              ∙ sym answer)
            ∙ context,
      )

  -- The ledger after the renewal of each validator in turn
  abbrev pub renew_all : Crypto → List Bytes → Ledger → Ledger
  renew_all c [] l = l
  renew_all c (pk ∷ pks) l = renew_all c pks (change l (address_of c pk) (renewed db))

  pub update_stake_validators-ledger :
      (c : Crypto) (pks : List Bytes) (s : StateDb) (e : EpochMetaData)
      → ledger db (update_stake_validators db c pks (s, e)).0 ≡ renew_all c pks (ledger db s)
  unfolding update_stake_validators
  update_stake_validators-ledger c [] s e = refl
  update_stake_validators-ledger c (pk ∷ pks) s e =
      let r = update_validator db (s, e) c pk in
      update_stake_validators-ledger c pks r.0 r.1
      ∙ ap (renew_all c pks) (update_validator-ledger db s e c pk)
