-- ===== src/Staking/Apply.antt =====
-- core/state_processor.go: the stake, coinbase and attest transactions, and the update of the
-- validators at the end of an epoch. `Refine` and its neighbours have the proofs. `accountState`, the object that GetOrNewStateObject returned, is
-- the live object of its address, so its methods are the database's operations at the address. The
-- bloom filter of a receipt is left out, and its status, which is always successful.
pub mod Refine
pub mod Promise
pub mod Conserve
pub mod Coins
use zond.Prelude.{
  ℕ, ◌+◌, ◌-◌, ◌*◌, ◌%◌, ◌^◌, Bool, true, false, Option, none, some, List, [], ◌∷◌, ◌==◌,
  if◌then◌else◌, ltb, ◌&&◌, not, bind,
}
use zond.Prelude.Int.{ℤ, pos, signed, to_uint64}
use zond.State.Account.{Address, Hash, Backend}
use zond.State.Db.{StateDb}
use zond.State.Ops.{
  get_or_new_state_object, add_balance, sub_balance, set_stake_balance_op,
  set_pending_stake_balance_op, set_nonce_op, set_balance_op,
}
use zond.State.Read.{get_nonce, get_stake_balance, get_pending_stake_balance}
use zond.State.Finalise.{finalise}
use zond.Gas.{sub_gas}
use zond.Gas
use zond.Transactions.{
  Bytes, Crypto, Transaction, Stake, ProtocolTransaction, CoinBase, Attest, tx_hash,
  coinbase_signing_hash, attest_signing_hash, dilithium_address_of, address_of,
}
use zond.Staking.{Config, Outcome, ok, error, panicked, Fault, balance_not_loaded}
use zond.Staking.Epoch.{
  EpochMetaData, add_validators, remove_validators, add_total_stake_amount_found,
}
use zond.Staking.Context.{StateContext, process_attestors_flag, process_block_proposer_flag}

pub record Receipt : Type 0 where
  pub cumulative_gas_used : ℕ
  pub tx_hash_of : Hash
  pub gas_used_of : ℕ
  pub block_hash : Hash
  pub block_number : ℕ
  pub transaction_index : ℕ

-- where the transaction stands: the block's hash and number
pub record Place : Type 0 where
  pub at_hash : Hash
  pub at_number : ℕ

module _ (db : Backend) where
  -- accountState := statedb.GetOrNewStateObject(address)
  unfoldable pub obtained : Address → StateDb → StateDb
  unfolding get_or_new_state_object
  obtained a s = (get_or_new_state_object db s a).1

  -- accountState.SetNonce(statedb.GetNonce(address) + 1)
  unfoldable pub bump_nonce : Address → StateDb → StateDb
  unfolding get_nonce set_nonce_op
  bump_nonce a s = let (n, t) = get_nonce db s a in set_nonce_op db t a ((n + 1) % 2 ^ 64)

  -- accountState.AddBalance(accountState.PendingStakeBalance())
  unfoldable pub return_pending : Address → StateDb → StateDb
  unfolding get_pending_stake_balance add_balance
  return_pending a s = let (x, t) = get_pending_stake_balance db s a in add_balance db t a x

  -- account.AddBalance(account.StakeBalance())
  unfoldable pub return_stake : Address → StateDb → StateDb
  unfolding get_stake_balance add_balance
  return_stake a s = let (x, t) = get_stake_balance db s a in add_balance db t a x

  -- account.SetStakeBalance(account.PendingStakeBalance())
  unfoldable pub stake_pending : Address → StateDb → StateDb
  unfolding get_pending_stake_balance set_stake_balance_op
  stake_pending a s = let (x, t) = get_pending_stake_balance db s a in set_stake_balance_op db t a x

  -- The changes of the sender's account in applyStakeTransaction
  unfoldable pub stake_account : Transaction → ℕ → Address → StateDb → StateDb
  unfolding obtained bump_nonce return_pending sub_balance set_pending_stake_balance_op add_balance
  stake_account tx amount a s =
      let s1 = bump_nonce a (obtained a s) in
      let s2 = sub_balance db s1 a (signed (tx.gas * tx.gas_price % 2 ^ 64)) in
      let s3 = sub_balance db (return_pending a s2) a (signed amount) in
      let s4 = set_pending_stake_balance_op db s3 a (signed amount) in
      add_balance db s4 a (signed ((tx.gas + 2 ^ 64 - 1000) % 2 ^ 64 * tx.gas_price % 2 ^ 64))

  -- The changes of both accounts in applyStakeTransaction
  unfoldable pub stake_changes : Transaction → ℕ → Address → Address → StateDb → StateDb
  unfolding stake_account add_balance
  stake_changes tx amount a minter s =
      add_balance db (stake_account tx amount a s) minter (signed (1000 * tx.gas_price % 2 ^ 64))

  -- What applyStakeTransaction leaves; without a receipt it has failed on the gas limit.
  pub record Applied : Type 0 where
    pub state : StateDb
    pub used_gas : ℕ
    pub pool : ℕ
    pub receipt : Option Receipt

  -- the end of applyStakeTransaction, on the answer of SubGas
  unfoldable pub with_receipt : StateDb → ℕ → ℕ → Transaction → Place → Gas.Outcome ℕ → Applied
  with_receipt s used_gas gp tx p (Gas.error e) = record {
    state = s;
    used_gas = used_gas;
    pool = gp;
    receipt = none;
  }
  with_receipt s used_gas gp tx p (Gas.ok left) = record {
    state = s;
    used_gas = used_gas;
    pool = left;
    receipt = some (record {
      cumulative_gas_used = used_gas;
      tx_hash_of = tx.hash;
      gas_used_of = used_gas;
      block_hash = p.at_hash;
      block_number = p.at_number;
      transaction_index = s.tx_index;
    });
  }

  unfoldable pub apply_stake_transaction :
      Crypto → ℕ → StateDb → Place → Stake → ℕ → Address → Applied
  unfolding finalise stake_changes with_receipt sub_gas dilithium_address_of
  apply_stake_transaction c gp s p tx used_gas minter =
      let a = dilithium_address_of c tx.stake_tx.pk in
      let t = stake_changes tx.stake_tx tx.amount a minter (finalise db true s) in
      with_receipt t ((used_gas + 1000) % 2 ^ 64) gp tx.stake_tx p (sub_gas gp 1000)

  -- coinBaseAccountState.SubBalance(…)
  unfoldable pub pay_coinbase : Config → ℤ → StateDb → StateDb
  unfolding obtained sub_balance
  pay_coinbase cfg reward s =
      sub_balance db (obtained cfg.coinbase_address s) cfg.coinbase_address reward

  unfoldable pub coinbase_changes : Config → CoinBase → Address → StateDb → StateDb
  unfolding pay_coinbase bump_nonce add_balance
  coinbase_changes cfg tx a s =
      let s1 = add_balance db s a (signed tx.block_proposer_reward) in
      let s2 = add_balance db s1 a (signed tx.fee_reward) in
      pay_coinbase cfg (signed tx.block_proposer_reward) (bump_nonce a s2)

  unfoldable pub attest_changes : Config → ℕ → Address → StateDb → StateDb
  unfolding pay_coinbase bump_nonce add_balance
  attest_changes cfg reward a s =
      pay_coinbase cfg (signed reward) (bump_nonce a (add_balance db s a (signed reward)))

  -- a receipt of a protocol transaction
  abbrev pub protocol_receipt : StateDb → Place → Hash → Receipt
  protocol_receipt s p h = record {
    cumulative_gas_used = 0;
    tx_hash_of = h;
    gas_used_of = 0;
    block_hash = p.at_hash;
    block_number = p.at_number;
    transaction_index = s.tx_index;
  }

  -- The rest of a protocol transaction, on the context that the flags give: the changes, and the receipt
  unfoldable pub with_context :
      StateDb
      → (StateDb → StateDb)
      → Place
      → Hash
      → Outcome StateContext
      → Outcome (StateDb × StateContext × Receipt)
  with_context s changes p h (error e) = error e
  with_context s changes p h panicked = panicked
  with_context s changes p h (ok sc) = let t = changes s in ok (t, sc, protocol_receipt t p h)

  unfoldable pub apply_coinbase_transaction :
      Config
      → Crypto
      → StateDb
      → StateContext
      → Place
      → CoinBase
      → Outcome (StateDb × StateContext × Receipt)
  unfolding finalise obtained get_stake_balance process_block_proposer_flag with_context
      coinbase_changes tx_hash coinbase_signing_hash dilithium_address_of
  apply_coinbase_transaction cfg c s sc p tx =
      let a = dilithium_address_of c tx.coinbase_tx.pk in
      let (stake, t) = get_stake_balance db (obtained a (finalise db true s)) a in
      let h =
        tx_hash c (coinbase_signing_hash c tx sc.block_signing_hash) tx.coinbase_tx.signature
          tx.coinbase_tx.pk in
      with_context t (coinbase_changes cfg tx a) p h
        (process_block_proposer_flag cfg sc tx.coinbase_tx.pk stake)

  unfoldable pub apply_attest_transaction :
      Config
      → Crypto
      → StateDb
      → StateContext
      → Place
      → Attest
      → ℕ
      → Outcome (StateDb × StateContext × Receipt)
  unfolding finalise obtained get_stake_balance process_attestors_flag with_context attest_changes
      tx_hash attest_signing_hash dilithium_address_of
  apply_attest_transaction cfg c s sc p tx attestor_reward =
      let a = dilithium_address_of c tx.attest_tx.pk in
      let (stake, t) = get_stake_balance db (obtained a (finalise db true s)) a in
      let h =
        tx_hash c (attest_signing_hash c tx sc.partial_block_signing_hash) tx.attest_tx.signature
          tx.attest_tx.pk in
      with_context t (attest_changes cfg attestor_reward a) p h
        (process_attestors_flag cfg sc tx.attest_tx.pk stake)

  -- one round of UpdateStakeValidators, with whether the pending stake is 0
  unfoldable pub update_account : Bool → Address → StateDb → StateDb
  unfolding return_stake stake_pending set_stake_balance_op set_pending_stake_balance_op
  update_account true a s = set_stake_balance_op db (return_stake a s) a (pos 0)
  update_account false a s =
      set_pending_stake_balance_op db (stake_pending a (return_stake a s)) a (pos 0)

  unfoldable pub update_validator :
      StateDb × EpochMetaData → Crypto → Bytes → StateDb × EpochMetaData
  unfolding address_of obtained get_pending_stake_balance update_account add_validators
      remove_validators
  update_validator (s, e) c pk =
      let a = address_of c pk in
      let (pending, t) = get_pending_stake_balance db (obtained a s) a in
      let leaves = to_uint64 pending == 0 in
      (update_account leaves a t, if leaves then remove_validators e pk else add_validators e pk)

  unfoldable pub update_stake_validators :
      Crypto → List Bytes → StateDb × EpochMetaData → StateDb × EpochMetaData
  unfolding update_validator
  update_stake_validators c [] r = r
  update_stake_validators c (pk ∷ pks) r = update_stake_validators c pks (update_validator r c pk)

  -- ProcessEpochMetaData, on the keys of the protocol transactions of a block; an error leaves the epoch's
  -- data as it was counted so far, and the code throws it away
  unfoldable pub process_epoch_meta_data :
      Config → Crypto → ℕ → List Bytes → StateDb → EpochMetaData → Outcome (StateDb × EpochMetaData)
  unfolding get_stake_balance add_total_stake_amount_found dilithium_address_of
  process_epoch_meta_data cfg c slot_number [] s e = ok (s, e)
  process_epoch_meta_data cfg c slot_number (pk ∷ pks) s e =
      let (stake, t) = get_stake_balance db s (dilithium_address_of c pk) in
      let rest =
        process_epoch_meta_data cfg c slot_number pks t
          (add_total_stake_amount_found e cfg.stake_amount) in
      if ltb (to_uint64 stake) cfg.stake_amount && not (slot_number == 0)
      then error balance_not_loaded
      else rest
