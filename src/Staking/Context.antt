-- ===== src/Staking/Context.antt =====
-- state/statecontext.go: the flags of the validators of a slot and the stake that a block counts. The
-- database, the metadata of the chain and its hashes are left out, and so is Finalize, which only
-- moves stored data.
pub mod Counted
pub mod Reached
use zond.Prelude.{
  ℕ, ◌+◌, ◌-◌, ◌%◌, Bool, true, false, Option, none, some, List, [], ◌∷◌, ◌==◌, if◌then◌else◌,
  get_elem?, bind,
}
use zond.Prelude.Int.{ℤ, pos, ◌+ℤ◌, ltb_ℤ, signed}
use zond.State.Account.{Hash}
use zond.Transactions.{Bytes}
use zond.Staking.{
  Config, Fault, unexpected_block_proposer, not_assigned, already_processed,
  insufficient_stake_balance, Outcome, ok, error, panicked, same_bytes,
}
use zond.Staking.Epoch.{EpochMetaData, SlotInfo, slot_of, put_key}

pub record StateContext : Type 0 where
  pub slot_number : ℕ
  pub partial_block_signing_hash : Hash
  pub block_signing_hash : Hash
  pub current_block_total_stake_amount : ℤ
  pub validators_flag : Bytes → Option Bool
  pub epoch_meta_data : EpochMetaData

module _ (cfg : Config) where
  unfoldable pub process_validator_stake_amount : StateContext → ℤ → Outcome StateContext
  process_validator_stake_amount s stake_balance =
      if ltb_ℤ stake_balance (signed cfg.stake_amount)
      then error insufficient_stake_balance
      else ok (record s {
        current_block_total_stake_amount =
            s.current_block_total_stake_amount +ℤ signed cfg.stake_amount;
      })

  -- s.validatorsFlag[pk] = true, after the stake was counted
  unfoldable pub set_flag : Bytes → Outcome StateContext → Outcome StateContext
  set_flag pk (ok s) = ok (record s { validators_flag = put_key s.validators_flag pk true })
  set_flag pk (error e) = error e
  set_flag pk panicked = panicked

  -- the checks of the flag, and the count
  unfoldable pub process_flag : StateContext → Bytes → ℤ → Option Bool → Outcome StateContext
  unfolding process_validator_stake_amount set_flag
  process_flag s pk stake_balance none = error not_assigned
  process_flag s pk stake_balance (some true) = error already_processed
  process_flag s pk stake_balance (some false) =
      set_flag pk (process_validator_stake_amount s stake_balance)

  unfoldable pub process_attestors_flag : StateContext → Bytes → ℤ → Outcome StateContext
  unfolding process_flag
  process_attestors_flag s pk stake_balance =
      if s.slot_number == 0 then ok s else process_flag s pk stake_balance (s.validators_flag pk)

  -- the key of the slot's leader
  unfoldable pub leader_of : StateContext → Option Bytes
  unfolding slot_of
  leader_of s =
      bind (slot_of cfg s.epoch_meta_data s.slot_number)
        λ slot. get_elem? s.epoch_meta_data.validators slot.slot_leader

  unfoldable pub process_leader : StateContext → Bytes → ℤ → Option Bytes → Outcome StateContext
  unfolding process_flag
  process_leader s pk stake_balance none = panicked
  process_leader s pk stake_balance (some leader) =
      if same_bytes leader pk
      then process_flag s pk stake_balance (s.validators_flag pk)
      else error unexpected_block_proposer

  unfoldable pub process_block_proposer_flag : StateContext → Bytes → ℤ → Outcome StateContext
  unfolding process_leader leader_of
  process_block_proposer_flag s pk stake_balance =
      if s.slot_number == 0 then ok s else process_leader s pk stake_balance (leader_of s)

  -- the loop of NewStateContext over the attestors
  unfoldable pub assign_attestors :
      List Bytes → List ℕ → (Bytes → Option Bool) → Option (Bytes → Option Bool)
  assign_attestors validators [] m = some m
  assign_attestors validators (i ∷ is) m =
      bind (get_elem? validators i) λ pk. assign_attestors validators is (put_key m pk false)

  -- the flags of NewStateContext
  unfoldable pub assigned_flags : ℕ → EpochMetaData → Option (Bytes → Option Bool)
  unfolding assign_attestors slot_of
  assigned_flags slot_number e =
      if slot_number == 0
      then some (λ k. none)
      else bind (slot_of cfg e slot_number) λ slot.
        bind (assign_attestors e.validators slot.attestors (λ k. none)) λ m.
          bind (get_elem? e.validators slot.slot_leader) λ leader. some (put_key m leader false)

  unfoldable pub new_state_context : ℕ → Hash → Hash → EpochMetaData → Option StateContext
  unfolding assigned_flags
  new_state_context slot_number partial_hash hash e = bind (assigned_flags slot_number e) λ flags.
      some (record {
        slot_number = slot_number;
        partial_block_signing_hash = partial_hash;
        block_signing_hash = hash;
        current_block_total_stake_amount = pos 0;
        validators_flag = flags;
        epoch_meta_data = e;
      })

unfoldable pub prepare_validators : StateContext → Bytes → StateContext
prepare_validators s pk = record s { validators_flag = put_key s.validators_flag pk false }
