-- ===== src/Staking.antt =====
-- The proof-of-stake rules: metadata has the validators of an epoch and their slots (Epoch), state the
-- context of a block (Context), core/state_processor.go the transactions that move stake and rewards
-- (Apply, Validate). A Go panic (a nil pointer, an index out of range) is `panicked`.
pub mod Keys
pub mod Epoch
pub mod Context
pub mod Apply
pub mod Validate
use zond.Prelude.{ℕ, ◌*◌, ◌%◌, ◌^◌, Bool, true, false, List, [], ◌∷◌, ◌==◌, ◌&&◌, if◌then◌else◌}
use zond.State.Account.{Address}
use zond.Transactions.{Bytes}

-- The fields of config.DevConfig that the rules read
pub record Config : Type 0 where
  pub stake_amount : ℕ
  pub blocks_per_epoch : ℕ
  pub shor_per_quanta : ℕ
  pub coinbase_address : Address

-- The errors, by the checks that return them
pub data Fault : Type 0 where
  unexpected_block_proposer : Fault
  not_assigned : Fault
  already_processed : Fault
  insufficient_stake_balance : Fault
  invalid_tx_hash : Fault
  invalid_nonce : Fault
  invalid_stake_amount : Fault
  invalid_dilithium_pk_size : Fault
  insufficient_balance : Fault
  insufficient_gas : Fault
  invalid_addr_from : Fault
  invalid_addr_to : Fault
  addr_from_is_coinbase : Fault
  addr_to_is_coinbase : Fault
  data_length_exceeds_limit : Fault
  invalid_ots_index : Fault
  verification_failed : Fault
  invalid_attestor : Fault
  invalid_slot_leader : Fault
  invalid_block_reward : Fault
  invalid_attestor_reward : Fault
  balance_not_loaded : Fault

pub data Outcome {ℓ} (A : Type ℓ) : Type ℓ where
  ok : A → Outcome A
  error : Fault → Outcome A
  panicked : Outcome A

-- reflect.DeepEqual on two byte slices, and the equality of their hex strings; keys are not nil
abbrev pub same_bytes : Bytes → Bytes → Bool
same_bytes [] [] = true
same_bytes [] (y ∷ ys) = false
same_bytes (x ∷ xs) [] = false
same_bytes (x ∷ xs) (y ∷ ys) = x == y && same_bytes xs ys

-- rewards.GetBlockReward and rewards.GetAttestorReward
unfoldable pub get_block_reward : Config → ℕ
get_block_reward cfg = 5 * cfg.shor_per_quanta % 2 ^ 64

unfoldable pub get_attestor_reward : Config → ℕ
get_attestor_reward cfg = 2 * cfg.shor_per_quanta % 2 ^ 64
