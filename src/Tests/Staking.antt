-- ===== src/Tests/Staking.antt =====
-- core/state_processor.go, metadata and state/statecontext.go: the theorems at concrete transactions.
use zond.Prelude.{
  ℕ, ◌+◌, ◌%◌, ◌^◌, ◌<◌, ◌≤◌, ◌≡◌, ◌⊎◌, ◌↔◌, refl, true, false, none, some, List, [], ◌∷◌, ◌==◌,
  ◌||◌, if◌then◌else◌, length, get_elem?, arith,
}
use zond.Prelude.Int.{pos, signed, ◌+ℤ◌, ◌≤ℤ◌}
use zond.State.Account.{Address, Hash, Backend, Read, RawAccount, found, missing}
use zond.State.Account
use zond.State.Db.{StateDb}
use zond.State.Db
use zond.State.Ops
use zond.State.Read
use zond.State.Finalise.{finalise}
use zond.State.Finalise
use zond.State.Ledger.{Holding, change, ledger}
use zond.State.Ledger.Writes.{credit, debit}
use zond.Tests.Journal.{backend, start}
use zond.Transactions
use zond.Transactions.{
  stake_signing_hash, Bytes, Crypto, Transaction, Stake, ProtocolTransaction, CoinBase,
  dilithium_address_of, sized, address_of, tx_hash,
}
use zond.Staking.{Config, ok, error, panicked, same_bytes}
use zond.Staking.Keys.{are_once}
use zond.Staking.Epoch.{
  EpochMetaData, SlotInfo, has_validator, add_validators, remove_validators, allot_slots,
  SlotValidatorsMetaData,
}
use zond.Staking.Epoch
use zond.Staking.Epoch.Slots.{slot_after, allot_slots_lem}
use zond.Staking.Epoch.Validators.{IsWithout, validators_lem}
use zond.Staking.Context.{StateContext, new_state_context, process_block_proposer_flag}
use zond.Staking.Context
use zond.Staking.Context.Counted.{Counted}
use zond.Staking.Context.Reached.{Reached, Reached-Counted}
use zond.Staking.Context.Reached
use zond.Staking.Apply.{
  Receipt, Place, apply_stake_transaction, apply_coinbase_transaction, update_stake_validators,
}
use zond.Staking.Apply
use zond.Staking.Apply.Refine.{staked, tip, proposed}
use zond.Staking.Apply.Promise.{
  IsPaid, apply_stake_transaction-ledger, apply_coinbase_transaction-ledger,
}
use zond.Staking.Apply.Conserve.{total}
use zond.Staking.Apply.Coins.{stake-total, coinbase-total, update_stake_validators-total}
use zond.Staking.Validate.{stake_fault, coinbase_fault}
use zond.Staking.Validate
use zond.Staking.Validate.Accepted.{
  IsAcceptable, stake_fault-none, stake_solvent, stake_fault-overflow,
}
use zond.Staking.Validate.Protocol.{IsProposed, coinbase_fault-none}

-- A hash that counts, and keys whose first byte is the address
abbrev pub crypto : Crypto
crypto = record {
  sha256 = λ bs. length bs;
  dilithium_pk_size = 2;
  xmss_pk_size = 3;
  dilithium_address = λ pk. elim pk [ [] ↦ 0 | b ∷ bs ↦ b ];
  xmss_address = λ pk. 1;
  is_valid_dilithium_address = λ a. true;
  is_valid_xmss_address = λ a. false;
  dilithium_verify = λ h signature pk. true;
  xmss_verify = λ h signature pk. false;
}

abbrev config : Config
config = record {
  stake_amount = 10;
  blocks_per_epoch = 2;
  shor_per_quanta = 1;
  coinbase_address = 5;
}

-- An account with coins, of which some are staked
abbrev staking_account : Address → Read RawAccount
staking_account a =
    if a == 7
    then found (record {
      nonce = 3;
      balance = some (pos 6000);
      stake_balance = some (pos 20);
      pending_stake_balance = some (pos 30);
      root = 0;
      code_hash = none;
      ots_bitfield = [];
    })
    else missing

abbrev bank : Backend
bank = record backend { account = staking_account }

abbrev key : Bytes
key = 7 ∷ 1 ∷ []

-- Three validators on two slots
abbrev epoch : EpochMetaData
epoch = record {
  epoch = 0;
  prev_slot_last_block_header_hash = 0;
  validators = key ∷ (8 ∷ 1 ∷ []) ∷ (9 ∷ 1 ∷ []) ∷ [];
  slot_info =
      some (record { slot_leader = 0; attestors = 2 ∷ [] })
      ∷ some (record { slot_leader = 1; attestors = [] })
      ∷ [];
  total_stake_amount_found = 0;
  total_stake_amount_alloted = 0;
}

abbrev place : Place
place = record { at_hash = 77; at_number = 4 }

abbrev stake_of_seven : Stake
stake_of_seven = record {
  stake_tx = record {
    chain_id = 1;
    gas = 1200;
    gas_price = 2;
    nonce = 3;
    pk = key;
    signature = 9 ∷ [];
    hash = 35;
  };
  amount = 40;
}

abbrev accounts : List Address
accounts = 7 ∷ 9 ∷ 5 ∷ []

stake-total_example :
    total accounts
      (ledger bank (apply_stake_transaction bank crypto 5000 start place stake_of_seven 0 9).state)
    ≡ total accounts (ledger bank (finalise bank true start))
unfolding dilithium_address_of sized
stake-total_example =
    stake-total bank accounts refl crypto 5000 start place stake_of_seven 0 9 refl refl
      (omega arith) (omega arith) (omega arith)

apply_stake_transaction-ledger_example :
    let r = apply_stake_transaction bank crypto 5000 start place stake_of_seven 0 9 in
    (ledger bank r.state
      ≡ change
          (change
            (ledger bank (finalise bank true start))
            (dilithium_address_of crypto key)
            (staked bank stake_of_seven.stake_tx 40))
          9
          (credit (tip bank stake_of_seven.stake_tx)))
    × (r.used_gas ≡ (0 + 1000) % 2 ^ 64)
    × IsPaid bank 5000 r
apply_stake_transaction-ledger_example =
    apply_stake_transaction-ledger bank crypto 5000 start place stake_of_seven 0 9

update_stake_validators-total_example :
    total accounts (ledger bank (update_stake_validators bank crypto (key ∷ []) (start, epoch)).0)
    ≡ total accounts (ledger bank start)
update_stake_validators-total_example =
    update_stake_validators-total bank accounts crypto (key ∷ []) start epoch

allot_slots_lem_example :
    (e' : EpochMetaData) × (allot_slots config (λ vs. vs) epoch 1 6 ≡ some e')
    × (e'.validators ≡ epoch.validators)
    × (length e'.slot_info ≡ 2)
    × ((j : ℕ) → j < 2 → get_elem? e'.slot_info j ≡ some (slot_after 2 j 3))
allot_slots_lem_example = allot_slots_lem config (λ vs. vs) epoch 1 6 (omega arith) (omega arith)

validators_lem_example :
    (are_once (add_validators epoch key).validators ≡ true)
    × ((k : Bytes)
        → has_validator k (add_validators epoch key).validators
          ≡ (has_validator k epoch.validators || same_bytes k key))
    × IsWithout key epoch.validators (remove_validators epoch key).validators
unfolding has_validator
validators_lem_example = validators_lem epoch key refl

-- A context of genesis
abbrev nowhere : StateContext
nowhere = record {
  slot_number = 0;
  partial_block_signing_hash = 0;
  block_signing_hash = 0;
  current_block_total_stake_amount = pos 0;
  validators_flag = λ k. none;
  epoch_meta_data = epoch;
}

abbrev fresh : StateContext
fresh = elim (new_state_context config 4 1 2 epoch) [ none ↦ nowhere | some s ↦ s ]

abbrev counted : StateContext
counted = elim (process_block_proposer_flag config fresh key (pos 20)) [
  | ok s ↦ s
  | error e ↦ nowhere
  | panicked ↦ nowhere
]

Reached-Counted_example : Counted config counted (key ∷ []) × (counted.slot_number ≡ 4)
unfolding new_state_context Context.assigned_flags Epoch.slot_of Context.assign_attestors
    process_block_proposer_flag Context.leader_of Context.process_leader Context.process_flag
    Context.set_flag Context.process_validator_stake_amount ◌+ℤ◌
Reached-Counted_example =
    Reached-Counted config 4 1 2 epoch fresh counted (key ∷ []) (omega arith) (omega arith) refl
      (Reached.call (Reached.propose key (pos 20)) fresh counted [] Reached.start refl)

stake_fault-none_example :
    (stake_fault crypto config stake_of_seven 7 3 (pos 6000) ≡ none)
    ↔ IsAcceptable crypto config stake_of_seven 7 3 (pos 6000)
stake_fault-none_example = stake_fault-none crypto config stake_of_seven 7 3 (pos 6000)

abbrev holding : Holding
holding = record {
  nonce = 3;
  balance = pos 6000;
  stake_balance = pos 20;
  pending_stake_balance = pos 30;
}

stake_solvent_example :
    let before = ledger bank (finalise bank true start) 7 in
    let h =
      ledger bank
        (apply_stake_transaction bank crypto 5000 start place stake_of_seven 0 9).state
        7 in
    (h.nonce ≡ (before.nonce + 1) % 2 ^ 64)
    × (pos 0 ≤ℤ h.balance)
    × (h.stake_balance ≡ before.stake_balance)
    × (h.pending_stake_balance ≡ pos 40)
    × ((stake_of_seven.amount ≡ 0) ⊎ (10 ≤ 40))
unfolding stake_fault tx_hash Validate.require stake_signing_hash Transactions.stake_message
    Transactions.signed_head Transactions.to_bytes dilithium_address_of sized finalise Db.live
    Db.read_account Account.new_object
stake_solvent_example =
    stake_solvent crypto config bank start stake_of_seven 5000 0 place 9 (omega arith) (omega arith)
      (omega arith) (omega arith) refl

-- A stake that no one has: the required balance reads as negative.
abbrev giant : Stake
giant = record stake_of_seven { amount = 2 ^ 63 }

stake_fault-overflow_example : stake_fault crypto config giant 7 3 (pos 0) ≡ none
unfolding stake_fault tx_hash Validate.require stake_signing_hash Transactions.stake_message
    Transactions.signed_head Transactions.to_bytes
stake_fault-overflow_example =
    stake_fault-overflow crypto config giant 7 3 (pos 6000) (pos 0) (omega arith) (omega arith) refl

abbrev reward_of_seven : CoinBase
reward_of_seven = record {
  coinbase_tx = record { chain_id = 1; nonce = 3; pk = key; signature = 9 ∷ []; hash = 35 };
  block_proposer_reward = 5;
  attestor_reward = 2;
  fee_reward = 13;
}

abbrev roles : SlotValidatorsMetaData
roles = record {
  slot_number = 4;
  slot_leader_pk = key;
  validators_type = λ k. if same_bytes k key then some 1 else none;
}

coinbase_fault-none_example :
    (coinbase_fault crypto config reward_of_seven roles 2 4 3 false 3 (pos 20) (pos 30) ≡ none)
    ↔ IsProposed crypto config reward_of_seven roles 2 4 3 false 3 (pos 20) (pos 30)
coinbase_fault-none_example =
    coinbase_fault-none crypto config reward_of_seven roles 2 4 3 false 3 (pos 20) (pos 30)

abbrev before : StateDb
before = (Read.get_stake_balance bank (Apply.obtained bank 7 (finalise bank true start)) 7).1

abbrev rewarded : StateDb × StateContext × Receipt
rewarded =
    let t = Apply.coinbase_changes bank config reward_of_seven 7 before in
    (t, counted, Apply.protocol_receipt bank t place 35)

rewarded-run :
    apply_coinbase_transaction bank config crypto start fresh place reward_of_seven ≡ ok rewarded
unfolding apply_coinbase_transaction Apply.with_context dilithium_address_of sized tx_hash
    Transactions.coinbase_signing_hash Transactions.coinbase_message Transactions.to_bytes
    Read.get_stake_balance Read.value_or Apply.obtained Ops.get_or_new_state_object Ops.obtain
    Db.get_state_object Db.get_deleted_state_object Db.live Db.load_object Db.read_account
    Db.set_state_object Account.new_object finalise Finalise.visited Finalise.is_visited
    Finalise.clear_journal_and_refund Finalise.cleared new_state_context Context.assigned_flags
    Epoch.slot_of Context.assign_attestors process_block_proposer_flag Context.leader_of
    Context.process_leader Context.process_flag Context.set_flag
    Context.process_validator_stake_amount ◌+ℤ◌
rewarded-run = refl

coinbase-total_example :
    total accounts (ledger bank rewarded.0)
    ≡ total accounts (ledger bank (finalise bank true start)) +ℤ signed 13
unfolding dilithium_address_of sized
coinbase-total_example =
    coinbase-total bank accounts refl config crypto start fresh place reward_of_seven rewarded
      rewarded-run refl refl

apply_coinbase_transaction-ledger_example :
    let l = ledger bank (finalise bank true start) in
    let a = dilithium_address_of crypto key in
    (ledger bank rewarded.0
      ≡ change (change l a (proposed bank reward_of_seven)) 5 (debit (signed 5)))
    × (process_block_proposer_flag config fresh key (l a).stake_balance ≡ ok rewarded.1)
apply_coinbase_transaction-ledger_example =
    apply_coinbase_transaction-ledger bank config crypto start fresh place reward_of_seven rewarded
      rewarded-run
