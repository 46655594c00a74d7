-- ===== src/Staking/Validate.antt =====
-- core/state_processor.go: the checks of a transaction before it is applied, with misc.IsUsedOTSIndex. Each
-- returns the database, into which GetOrNewStateObject has put the sender's account, and the first
-- fault, if there is one; `none` for both is a panic.
pub mod Accepted
pub mod Protocol
use zond.Prelude.{
  ℕ, ◌+◌, ◌-◌, ◌*◌, ◌/◌, ◌%◌, ◌^◌, Bool, true, false, not, ◌&&◌, ◌||◌, Option, none, some, List, [],
  ◌∷◌, ◌==◌, ltb, if◌then◌else◌, length, get_elem?, bind,
}
use zond.Prelude.Int.{ℤ, pos, ◌+ℤ◌, ltb_ℤ, signed, to_uint64}
use zond.State.Account.{Address, Hash, Backend}
use zond.State.Db.{StateDb}
use zond.State.Read.{
  get_nonce, get_balance, get_stake_balance, get_pending_stake_balance, get_ots_bitfield,
  get_code_size,
}
use zond.Transactions.{
  Bytes, Crypto, Transaction, Stake, Transfer, ProtocolTransaction, CoinBase, Attest, sized,
  tx_hash, stake_signing_hash, transfer_signing_hash, coinbase_signing_hash, attest_signing_hash,
  dilithium_address_of, addr_from,
}
use zond.Staking.{
  Config, Fault, invalid_tx_hash, invalid_nonce, invalid_stake_amount, invalid_dilithium_pk_size,
  insufficient_balance, insufficient_gas, invalid_addr_from, invalid_addr_to, addr_from_is_coinbase,
  addr_to_is_coinbase, data_length_exceeds_limit, invalid_ots_index, verification_failed,
  invalid_attestor, invalid_slot_leader, invalid_block_reward, invalid_attestor_reward,
  insufficient_stake_balance, get_block_reward, get_attestor_reward,
}
use zond.Staking.Epoch.{SlotValidatorsMetaData, is_attestor, is_slot_leader}
use zond.Staking.Apply.{obtained}

-- if !test { return fault }
unfoldable pub require : Bool → Fault → Option Fault → Option Fault
require true fault rest = rest
require false fault rest = some fault

-- misc.IsUsedOTSIndex
unfoldable pub is_used_ots_index : ℕ → List (List ℕ) → Bool
is_used_ots_index ots_index [] = false
is_used_ots_index ots_index (r ∷ rs) = elim (get_elem? (r ∷ rs) (ots_index / 8)) [
  | none ↦ true
  | some row ↦ elim (get_elem? row (ots_index % 8)) [ none ↦ false | some b ↦ b == 1 ]
]

-- OTSIndex, which reads the first four bytes of the signature
unfoldable pub ots_index_of : Bytes → Option ℕ
ots_index_of (a ∷ b ∷ c ∷ d ∷ rest) = some (((a * 256 + b) * 256 + c) * 256 + d)
ots_index_of bs = none

module _ (c : Crypto) (cfg : Config) where
  -- the checks of ValidateStakeTxn, on the sender and what its account holds
  unfoldable pub stake_fault : Stake → Address → ℕ → ℤ → Option Fault
  unfolding require tx_hash stake_signing_hash
  stake_fault stake from nonce balance =
      let tx = stake.stake_tx in
      let h = stake_signing_hash c stake in
      let required_balance = (tx.gas * tx.gas_price % 2 ^ 64 + stake.amount) % 2 ^ 64 in
      require (tx.hash == tx_hash c h tx.signature tx.pk) invalid_tx_hash (
        require (tx.nonce == nonce) invalid_nonce (
          require (stake.amount == 0 || not (ltb stake.amount cfg.stake_amount))
            invalid_stake_amount
            (require (length tx.pk == c.dilithium_pk_size) invalid_dilithium_pk_size (
              require (not (ltb_ℤ balance (signed required_balance))) insufficient_balance (
                require (not (ltb tx.gas 1000)) insufficient_gas (
                  require (c.is_valid_dilithium_address from) invalid_addr_from (
                    require (c.dilithium_verify h tx.signature (sized c.dilithium_pk_size tx.pk))
                      verification_failed none)))))))

  unfoldable pub is_valid_address : Address → Bool
  is_valid_address a = c.is_valid_xmss_address a || c.is_valid_dilithium_address a

  -- the checks of the address that receives
  unfoldable pub to_fault : Option Address → ℕ → Option Fault → Option Fault
  unfolding require is_valid_address
  to_fault none code_size rest = rest
  to_fault (some to) code_size rest =
      require (is_valid_address to || not (code_size == 0)) invalid_addr_to rest

  -- *tx.To() is the coinbase address
  unfoldable pub is_to_coinbase : Option Address → Bool
  is_to_coinbase none = false
  is_to_coinbase (some to) = to == cfg.coinbase_address

  -- the signature of a transfer, by the size of the key
  unfoldable pub is_verified : Transaction → Hash → Bool
  unfolding sized
  is_verified tx h =
      if length tx.pk == c.dilithium_pk_size
      then c.dilithium_verify h tx.signature (sized c.dilithium_pk_size tx.pk)
      else if length tx.pk == c.xmss_pk_size
      then c.xmss_verify h tx.signature (sized c.xmss_pk_size tx.pk)
      else true

  -- the first checks of ValidateTransferTxn: the hash and the nonce
  unfoldable pub named_fault : Transfer → ℕ → Option Fault
  unfolding require tx_hash transfer_signing_hash
  named_fault transfer nonce =
      let tx = transfer.transfer_tx in
      require (tx.hash == tx_hash c (transfer_signing_hash c transfer) tx.signature tx.pk)
        invalid_tx_hash (require (tx.nonce == nonce) invalid_nonce none)

  -- the next ones: the one-time key, which `used` says is used, the balance and the sender
  unfoldable pub sender_fault : Transfer → Address → ℤ → Bool → Option Fault
  unfolding require is_valid_address
  sender_fault transfer from balance used =
      let tx = transfer.transfer_tx in
      let required_balance = (transfer.value + tx.gas * tx.gas_price % 2 ^ 64) % 2 ^ 64 in
      require (not used) invalid_ots_index (
        require (not (ltb (to_uint64 balance) required_balance)) insufficient_balance
          (require (is_valid_address from) invalid_addr_from none))

  -- and the last: the receiver, the data and the signature
  unfoldable pub receiver_fault : Transfer → Address → ℕ → Option Fault
  unfolding require to_fault is_to_coinbase is_verified transfer_signing_hash
  receiver_fault transfer from code_size = to_fault transfer.to code_size (
      require (not (from == cfg.coinbase_address)) addr_from_is_coinbase (
        require (not (is_to_coinbase transfer.to)) addr_to_is_coinbase (
          require (not (ltb (24 * 1024) (length transfer.payload))) data_length_exceeds_limit (
            require (is_verified transfer.transfer_tx (transfer_signing_hash c transfer))
              verification_failed none))))

  -- the checks of the stake of an attestor or a proposer: the pending stake counts in the first block of an
  -- epoch
  unfoldable pub is_staked : (slot_number : ℕ) → (parent_slot_number : ℕ) → ℤ → ℤ → Bool
  is_staked slot_number parent_slot_number stake pending =
      not (ltb (to_uint64 stake) cfg.stake_amount)
      || (not (parent_slot_number / cfg.blocks_per_epoch == slot_number / cfg.blocks_per_epoch)
          && not (ltb (to_uint64 pending) cfg.stake_amount))

  -- the checks of ValidateAttestTx
  unfoldable pub attest_fault :
      Attest → SlotValidatorsMetaData → Hash → ℕ → ℕ → ℕ → ℤ → ℤ → Option Fault
  unfolding require is_staked tx_hash attest_signing_hash is_attestor
  attest_fault attest meta partial_hash slot_number parent_slot_number nonce stake pending =
      let tx = attest.attest_tx in
      let h = attest_signing_hash c attest partial_hash in
      require (tx.hash == tx_hash c h tx.signature tx.pk) invalid_tx_hash (
        require (tx.nonce == nonce) invalid_nonce (
          require (length tx.pk == c.dilithium_pk_size) invalid_dilithium_pk_size (
            require (c.dilithium_verify h tx.signature (sized c.dilithium_pk_size tx.pk))
              verification_failed
              (require (is_attestor meta tx.pk) invalid_attestor (
                require (is_staked slot_number parent_slot_number stake pending)
                  insufficient_stake_balance none)))))

  -- the checks of ValidateCoinBaseTx
  unfoldable pub coinbase_fault :
      CoinBase
      → SlotValidatorsMetaData
      → Hash
      → ℕ
      → ℕ
      → (is_genesis : Bool) → ℕ
      → ℤ
      → ℤ
      → Option Fault
  unfolding require is_staked tx_hash coinbase_signing_hash is_slot_leader get_block_reward
      get_attestor_reward
  coinbase_fault coinbase meta hash slot_number parent_slot_number is_genesis nonce stake pending =
      let tx = coinbase.coinbase_tx in
      let h = coinbase_signing_hash c coinbase hash in
      require (tx.hash == tx_hash c h tx.signature tx.pk) invalid_tx_hash (
        require (tx.nonce == nonce) invalid_nonce (
          require (length tx.pk == c.dilithium_pk_size) invalid_dilithium_pk_size (
            require
              (is_genesis || c.dilithium_verify h tx.signature (sized c.dilithium_pk_size tx.pk))
              verification_failed
              (require (is_slot_leader meta tx.pk) invalid_slot_leader (
                require (coinbase.block_proposer_reward == get_block_reward cfg)
                  invalid_block_reward
                  (require (coinbase.attestor_reward == get_attestor_reward cfg)
                    invalid_attestor_reward
                    (require (is_genesis || is_staked slot_number parent_slot_number stake pending)
                      insufficient_stake_balance none)))))))

  module _ (db : Backend) where
    unfoldable pub validate_stake_txn : Stake → StateDb → Option (StateDb × Option Fault)
    unfolding stake_fault obtained get_nonce get_balance addr_from
    validate_stake_txn stake s = bind (addr_from c stake.stake_tx) λ from.
        let (nonce, t) = get_nonce db (obtained db from s) from in
        let (balance, u) = get_balance db t from in some (u, stake_fault stake from nonce balance)

    -- whether the key is an XMSS key whose one-time key is used; a short signature panics
    unfoldable pub is_spent : Transaction → List (List ℕ) → Option Bool
    unfolding ots_index_of is_used_ots_index
    is_spent tx bitfield =
        if length tx.pk == c.xmss_pk_size
        then bind (ots_index_of tx.signature) (λ i. some (is_used_ots_index i bitfield))
        else some false

    -- statedb.GetCodeSize(*tx.To()), which the code asks for if the address is no valid one
    unfoldable pub size_at : Option Address → StateDb → ℕ × StateDb
    unfolding get_code_size is_valid_address
    size_at none s = (0, s)
    size_at (some to) s = if is_valid_address to then (0, s) else get_code_size db s to

    -- return the fault, or go on
    unfoldable pub or_fault :
        StateDb → Option Fault → Option (StateDb × Option Fault) → Option (StateDb × Option Fault)
    or_fault s none rest = rest
    or_fault s (some fault) rest = some (s, some fault)

    unfoldable pub validate_transfer_txn : Transfer → StateDb → Option (StateDb × Option Fault)
    unfolding or_fault named_fault sender_fault receiver_fault obtained get_nonce get_balance
        get_ots_bitfield is_spent size_at addr_from
    validate_transfer_txn transfer s = bind (addr_from c transfer.transfer_tx) λ from.
        let (nonce, t) = get_nonce db (obtained db from s) from in
        let (balance, u) = get_balance db t from in
        let (bitfield, v) = get_ots_bitfield db u from in
        let (size, w) = size_at transfer.to v in
        or_fault v (named_fault transfer nonce) (
          bind (is_spent transfer.transfer_tx bitfield) λ used.
            or_fault v (sender_fault transfer from balance used)
              (some (w, receiver_fault transfer from size)))

    unfoldable pub validate_attest_tx :
        Attest → StateDb → SlotValidatorsMetaData → Hash → ℕ → ℕ → StateDb × Option Fault
    unfolding attest_fault obtained get_nonce get_stake_balance get_pending_stake_balance
        dilithium_address_of
    validate_attest_tx attest s meta partial_hash slot_number parent_slot_number =
        let signer = dilithium_address_of c attest.attest_tx.pk in
        let (nonce, t) = get_nonce db (obtained db signer s) signer in
        let (stake, u) = get_stake_balance db t signer in
        let (pending, v) = get_pending_stake_balance db u signer in
        (
          v,
          attest_fault attest meta partial_hash slot_number parent_slot_number nonce stake pending,
        )

    unfoldable pub validate_coinbase_tx :
        CoinBase → StateDb → SlotValidatorsMetaData → Hash → ℕ → ℕ → Bool → StateDb × Option Fault
    unfolding coinbase_fault obtained get_nonce get_stake_balance get_pending_stake_balance
        dilithium_address_of
    validate_coinbase_tx coinbase s meta hash slot_number parent_slot_number is_genesis =
        let signer = dilithium_address_of c coinbase.coinbase_tx.pk in
        let (nonce, t) = get_nonce db (obtained db signer s) signer in
        let (stake, u) = get_stake_balance db t signer in
        let (pending, v) = get_pending_stake_balance db u signer in
        (
          v,
          coinbase_fault coinbase meta hash slot_number parent_slot_number is_genesis nonce stake
              pending,
        )
