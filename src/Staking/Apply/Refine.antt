-- ===== src/Staking/Apply/Refine.antt =====
-- core/state_processor.go: the transactions of the proof of stake as changes of the ledger.
use zond.Prelude.{ℕ, ◌+◌, ◌-◌, ◌*◌, ◌%◌, ◌^◌, ◌≡◌, ap, ◌∙◌, Bool, true, false, ◌==◌, if◌then◌else◌}
use zond.Prelude.Int.{ℤ, pos, signed, to_uint64, ◌+ℤ◌, ◌-ℤ◌}
use zond.Prelude.Maps.{update, update_self, update_twice}
use zond.State.Account.{Address, Backend}
use zond.State.Db.{StateDb}
use zond.State.Ops.{add_balance, sub_balance, set_pending_stake_balance_op, set_stake_balance_op}
use zond.State.Ledger.{Holding, Ledger, change, ledger, got}
use zond.State.Read.{get_nonce, get_stake_balance, get_pending_stake_balance}
use zond.State.Ledger.Writes.{
  with_nonce, with_stake, with_pending, credit, debit, set_nonce-ledger, set_stake_balance-ledger,
  set_pending_stake_balance-ledger, add_balance-ledger, sub_balance-ledger,
}
use zond.State.Ledger.Reads.{
  get_nonce-ledger, get_stake_balance-ledger, get_pending_stake_balance-ledger,
}
use zond.Transactions.{Bytes, Crypto, Transaction, CoinBase, address_of}
use zond.Staking.{Config}
use zond.Staking.Epoch.{EpochMetaData}
use zond.Staking.Apply.{
  obtained, bump_nonce, return_pending, return_stake, stake_pending, stake_account, stake_changes,
  pay_coinbase, coinbase_changes, attest_changes, update_account, update_validator,
}

change_fuse :
    (l : Ledger) (a : Address) (f g : Holding → Holding)
    → change (change l a f) a g ≡ change l a (λ h. g (f h))
change_fuse l a f g =
    update_twice l a (f (l a)) (g (change l a f a))
    ∙ ap (λ x. update l a (g x)) (update_self l a (f (l a)))

abbrev pub next_nonce : Holding → Holding
next_nonce h = with_nonce ((h.nonce + 1) % 2 ^ 64) h

module _ (db : Backend) where
  -- A step of the database that changes the entry of one address
  record Changes (a : Address) (f : Holding → Holding) (step : StateDb → StateDb) : Type 0 where
    at : (s : StateDb) → ledger db (step s) ≡ change (ledger db s) a f

  then_change :
      {a : Address} {f g : Holding → Holding} {step next : StateDb → StateDb}
      → Changes a f step
      → Changes a g next
      → Changes a (λ h. g (f h)) (λ s. next (step s))
  then_change {a} {f} {g} {step} {next} h k = record {
    at = λ s. k.at (step s) ∙ ap (λ l. change l a g) (h.at s) ∙ change_fuse (ledger db s) a f g;
  }

  pub obtained-ledger : (a : Address) (s : StateDb) → ledger db (obtained db a s) ≡ ledger db s
  unfolding obtained
  obtained-ledger a s = (got db s a).same

  bump_nonce-Changes : (a : Address) → Changes a next_nonce (bump_nonce db a)
  unfolding bump_nonce
  bump_nonce-Changes a = record {
    at = λ s.
        let (n, t) = get_nonce db s a in
        let (answer, same) = get_nonce-ledger db s a in
        set_nonce-ledger db t a ((n + 1) % 2 ^ 64)
        ∙ ap (λ m. change (ledger db t) a (with_nonce ((m + 1) % 2 ^ 64))) answer
        ∙ ap (λ l. change l a (with_nonce (((ledger db s a).nonce + 1) % 2 ^ 64))) same;
  }

  abbrev pub pending_back : Holding → Holding
  pending_back h = credit h.pending_stake_balance h

  abbrev pub stake_back : Holding → Holding
  stake_back h = credit h.stake_balance h

  return_pending-Changes : (a : Address) → Changes a pending_back (return_pending db a)
  unfolding return_pending
  return_pending-Changes a = record {
    at = λ s.
        let (x, t) = get_pending_stake_balance db s a in
        let (answer, same) = get_pending_stake_balance-ledger db s a in
        add_balance-ledger db t a x
        ∙ ap (λ y. change (ledger db t) a (credit y)) answer
        ∙ ap (λ l. change l a (credit (ledger db s a).pending_stake_balance)) same;
  }

  return_stake-Changes : (a : Address) → Changes a stake_back (return_stake db a)
  unfolding return_stake
  return_stake-Changes a = record {
    at = λ s.
        let (x, t) = get_stake_balance db s a in
        let (answer, same) = get_stake_balance-ledger db s a in
        add_balance-ledger db t a x
        ∙ ap (λ y. change (ledger db t) a (credit y)) answer
        ∙ ap (λ l. change l a (credit (ledger db s a).stake_balance)) same;
  }

  stake_pending-Changes :
      (a : Address) → Changes a (λ h. with_stake h.pending_stake_balance h) (stake_pending db a)
  unfolding stake_pending
  stake_pending-Changes a = record {
    at = λ s.
        let (x, t) = get_pending_stake_balance db s a in
        let (answer, same) = get_pending_stake_balance-ledger db s a in
        set_stake_balance-ledger db t a x
        ∙ ap (λ y. change (ledger db t) a (with_stake y)) answer
        ∙ ap (λ l. change l a (with_stake (ledger db s a).pending_stake_balance)) same;
  }

  add-Changes : (a : Address) (x : ℤ) → Changes a (credit x) (λ s. add_balance db s a x)
  add-Changes a x = record { at = λ s. add_balance-ledger db s a x }

  sub-Changes : (a : Address) (x : ℤ) → Changes a (debit x) (λ s. sub_balance db s a x)
  sub-Changes a x = record { at = λ s. sub_balance-ledger db s a x }

  pending-Changes :
      (a : Address) (x : ℤ)
      → Changes a (with_pending x) (λ s. set_pending_stake_balance_op db s a x)
  pending-Changes a x = record { at = λ s. set_pending_stake_balance-ledger db s a x }

  -- The holding of a staker: the nonce grows by one, the fee is paid, the pending stake is returned
  -- and the amount becomes the pending one, and what was not used is refunded.
  abbrev pub staked : Transaction → ℕ → Holding → Holding
  staked tx amount h = record {
    nonce = (h.nonce + 1) % 2 ^ 64;
    balance =
        h.balance
        -ℤ signed (tx.gas * tx.gas_price % 2 ^ 64)
        +ℤ h.pending_stake_balance
        -ℤ signed amount
        +ℤ signed ((tx.gas + 2 ^ 64 - 1000) % 2 ^ 64 * tx.gas_price % 2 ^ 64);
    stake_balance = h.stake_balance;
    pending_stake_balance = signed amount;
  }

  abbrev pub tip : Transaction → ℤ
  tip tx = signed (1000 * tx.gas_price % 2 ^ 64)

  stake_account-Changes :
      (tx : Transaction) (amount : ℕ) (a : Address)
      → Changes a (staked tx amount) (stake_account db tx amount a)
  unfolding stake_account
  stake_account-Changes tx amount a = record {
    at = λ s.
        let fee = signed (tx.gas * tx.gas_price % 2 ^ 64) in
        let refund = signed ((tx.gas + 2 ^ 64 - 1000) % 2 ^ 64 * tx.gas_price % 2 ^ 64) in
        let paid = then_change (bump_nonce-Changes a) (sub-Changes a fee) in
        let back =
          then_change (then_change paid (return_pending-Changes a))
            (sub-Changes a (signed amount)) in
        let all =
          then_change (then_change back (pending-Changes a (signed amount)))
            (add-Changes a refund) in
        all.at (obtained db a s) ∙ ap (λ l. change l a (staked tx amount)) (obtained-ledger a s);
  }

  pub stake_changes-ledger :
      (tx : Transaction) (amount : ℕ) (a minter : Address) (s : StateDb)
      → ledger db (stake_changes db tx amount a minter s)
        ≡ change (change (ledger db s) a (staked tx amount)) minter (credit (tip tx))
  unfolding stake_changes
  stake_changes-ledger tx amount a minter s =
      (add-Changes minter (tip tx)).at (stake_account db tx amount a s)
      ∙ ap (λ l. change l minter (credit (tip tx))) ((stake_account-Changes tx amount a).at s)

  pay_coinbase-Changes :
      (cfg : Config) (x : ℤ) → Changes cfg.coinbase_address (debit x) (pay_coinbase db cfg x)
  unfolding pay_coinbase
  pay_coinbase-Changes cfg x = record {
    at = λ s.
        (sub-Changes cfg.coinbase_address x).at (obtained db cfg.coinbase_address s)
        ∙ ap (λ l. change l cfg.coinbase_address (debit x))
            (obtained-ledger cfg.coinbase_address s);
  }

  -- The holding of a proposer, and of an attestor
  abbrev pub proposed : CoinBase → Holding → Holding
  proposed tx h =
      next_nonce (credit (signed tx.fee_reward) (credit (signed tx.block_proposer_reward) h))

  abbrev pub attested : ℕ → Holding → Holding
  attested reward h = next_nonce (credit (signed reward) h)

  pub coinbase_changes-ledger :
      (cfg : Config) (tx : CoinBase) (a : Address) (s : StateDb)
      → ledger db (coinbase_changes db cfg tx a s)
        ≡ change
            (change (ledger db s) a (proposed tx))
            cfg.coinbase_address
            (debit (signed tx.block_proposer_reward))
  unfolding coinbase_changes
  coinbase_changes-ledger cfg tx a s =
      let rewards =
        then_change (add-Changes a (signed tx.block_proposer_reward))
          (add-Changes a (signed tx.fee_reward)) in
      let all = then_change rewards (bump_nonce-Changes a) in
      (pay_coinbase-Changes cfg (signed tx.block_proposer_reward)).at (
        bump_nonce db a (
          add_balance db (add_balance db s a (signed tx.block_proposer_reward)) a
            (signed tx.fee_reward)))
      ∙ ap (λ l. change l cfg.coinbase_address (debit (signed tx.block_proposer_reward))) (all.at s)

  pub attest_changes-ledger :
      (cfg : Config) (reward : ℕ) (a : Address) (s : StateDb)
      → ledger db (attest_changes db cfg reward a s)
        ≡ change
            (change (ledger db s) a (attested reward))
            cfg.coinbase_address
            (debit (signed reward))
  unfolding attest_changes
  attest_changes-ledger cfg reward a s =
      (pay_coinbase-Changes cfg (signed reward)).at
        (bump_nonce db a (add_balance db s a (signed reward)))
      ∙ ap (λ l. change l cfg.coinbase_address (debit (signed reward)))
          ((then_change (add-Changes a (signed reward)) (bump_nonce-Changes a)).at s)

  -- The holding of a validator at the end of an epoch: the stake returns to the balance, and the pending
  -- stake, unless it reads as 0, becomes the stake.
  abbrev pub renewed : Holding → Holding
  renewed h =
      if to_uint64 h.pending_stake_balance == 0
      then with_stake (pos 0) (stake_back h)
      else with_pending (pos 0) (with_stake h.pending_stake_balance (stake_back h))

  abbrev turned : Bool → Holding → Holding
  turned b h =
      if b
      then with_stake (pos 0) (stake_back h)
      else with_pending (pos 0) (with_stake h.pending_stake_balance (stake_back h))

  stake-Changes :
      (a : Address) (x : ℤ) → Changes a (with_stake x) (λ s. set_stake_balance_op db s a x)
  stake-Changes a x = record { at = λ s. set_stake_balance-ledger db s a x }

  update_account-Changes : (b : Bool) (a : Address) → Changes a (turned b) (update_account db b a)
  unfolding update_account
  update_account-Changes true a = then_change (return_stake-Changes a) (stake-Changes a (pos 0))
  update_account-Changes false a =
      then_change (then_change (return_stake-Changes a) (stake_pending-Changes a))
        (pending-Changes a (pos 0))

  pub update_validator-ledger :
      (s : StateDb) (e : EpochMetaData) (c : Crypto) (pk : Bytes)
      → ledger db (update_validator db (s, e) c pk).0
        ≡ change (ledger db s) (address_of c pk) renewed
  unfolding update_validator
  update_validator-ledger s e c pk =
      let a = address_of c pk in
      let (pending, t) = get_pending_stake_balance db (obtained db a s) a in
      let (answer, same) = get_pending_stake_balance-ledger db (obtained db a s) a in
      let here : pending ≡ (ledger db s a).pending_stake_balance =
        answer ∙ ap (λ (l : Ledger). (l a).pending_stake_balance) (obtained-ledger a s) in
      (update_account-Changes (to_uint64 pending == 0) a).at t
      ∙ ap (λ x. change (ledger db t) a (turned (to_uint64 x == 0))) here
      ∙ ap (λ l. change l a (turned (to_uint64 (ledger db s a).pending_stake_balance == 0)))
          (same ∙ obtained-ledger a s)
