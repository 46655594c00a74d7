-- ===== src/Transactions.antt =====
-- transactions: the stake, transfer, coinbase and attest transactions, and the bytes that are hashed to
-- sign and to name them. Keys, signatures and data are lists of bytes; hashes and addresses are the
-- numbers that their bytes stand for. The fields are those of the protobuf messages.
pub mod Signing
use zond.Prelude.{
  ℕ, zero, suc, ◌+◌, ◌-◌, ◌*◌, ◌/◌, ◌%◌, Bool, Option, none, some, List, [], ◌∷◌, ◌++◌, ◌==◌,
  if◌then◌else◌, length, take, replicate,
}
use zond.State.Account.{Address, Hash}

abbrev pub Bytes : Type 0
Bytes = List ℕ

-- What the third-party packages go-qrllib and crypto/sha256 give. The sizes are those of packed public
-- keys.
pub record Crypto : Type 0 where
  pub sha256 : Bytes → Hash
  pub dilithium_pk_size : ℕ
  pub xmss_pk_size : ℕ
  pub dilithium_address : Bytes → Address
  pub xmss_address : Bytes → Address
  pub is_valid_dilithium_address : Address → Bool
  pub is_valid_xmss_address : Address → Bool
  pub dilithium_verify : Hash → Bytes → Bytes → Bool
  pub xmss_verify : Hash → Bytes → Bytes → Bool

pub record Transaction : Type 0 where
  pub chain_id : ℕ
  pub gas : ℕ
  pub gas_price : ℕ
  pub nonce : ℕ
  pub pk : Bytes
  pub signature : Bytes
  pub hash : Hash

pub record Stake : Type 0 where
  pub stake_tx : Transaction
  pub amount : ℕ

-- `to` is nil when a contract is created.
pub record Transfer : Type 0 where
  pub transfer_tx : Transaction
  pub to : Option Address
  pub value : ℕ
  pub payload : Bytes

pub record ProtocolTransaction : Type 0 where
  pub chain_id : ℕ
  pub nonce : ℕ
  pub pk : Bytes
  pub signature : Bytes
  pub hash : Hash

pub record CoinBase : Type 0 where
  pub coinbase_tx : ProtocolTransaction
  pub block_proposer_reward : ℕ
  pub attestor_reward : ℕ
  pub fee_reward : ℕ

pub record Attest : Type 0 where
  pub attest_tx : ProtocolTransaction

-- copy into an array of this size: the rest is zero
unfoldable pub sized : ℕ → Bytes → Bytes
sized size bs = take size (bs ++ replicate size 0)

-- A number on so many bytes, the most significant first
unfoldable pub to_bytes : ℕ → ℕ → Bytes
to_bytes zero x = []
to_bytes (suc width) x = to_bytes width (x / 256) ++ x % 256 ∷ []

-- The first bytes of GetSigningHash, on the fields of a transaction
unfoldable pub signed_head : Transaction → Bytes → Bytes
unfolding to_bytes
signed_head tx rest =
    to_bytes 8 tx.chain_id
    ++ (to_bytes 8 tx.nonce ++ (to_bytes 8 tx.gas ++ (to_bytes 8 tx.gas_price ++ rest)))

-- Stake.GetSigningHash, before the hash
unfoldable pub stake_message : Stake → Bytes
unfolding signed_head
stake_message tx = signed_head tx.stake_tx (to_bytes 8 tx.amount)

unfoldable pub address_bytes : Option Address → Bytes
unfolding to_bytes
address_bytes none = []
address_bytes (some a) = to_bytes 20 a

-- Transfer.GetSigningHash, before the hash
unfoldable pub transfer_message : Transfer → Bytes
unfolding signed_head address_bytes
transfer_message tx =
    signed_head tx.transfer_tx (address_bytes tx.to ++ (to_bytes 8 tx.value ++ tx.payload))

-- CoinBase.GetSigningHash, before the hash
unfoldable pub coinbase_message : CoinBase → Hash → Bytes
unfolding to_bytes
coinbase_message tx block_signing_hash =
    to_bytes 32 block_signing_hash
    ++ (to_bytes 8 tx.coinbase_tx.chain_id
        ++ (to_bytes 8 tx.coinbase_tx.nonce
            ++ (tx.coinbase_tx.pk
                ++ (to_bytes 8 tx.block_proposer_reward ++ to_bytes 8 tx.attestor_reward))))

-- Attest.GetSigningHash, before the hash
unfoldable pub attest_message : Attest → Hash → Bytes
unfolding to_bytes
attest_message tx partial_block_signing_hash =
    to_bytes 32 partial_block_signing_hash
    ++ (to_bytes 8 tx.attest_tx.chain_id ++ to_bytes 8 tx.attest_tx.nonce)

module _ (c : Crypto) where
  -- generateTxHash and GenerateTxHash
  unfoldable pub tx_hash : Hash → Bytes → Bytes → Hash
  unfolding to_bytes
  tx_hash signing_hash signature pk = c.sha256 (to_bytes 32 signing_hash ++ (signature ++ pk))

  unfoldable pub stake_signing_hash : Stake → Hash
  unfolding stake_message
  stake_signing_hash tx = c.sha256 (stake_message tx)

  unfoldable pub transfer_signing_hash : Transfer → Hash
  unfolding transfer_message
  transfer_signing_hash tx = c.sha256 (transfer_message tx)

  unfoldable pub coinbase_signing_hash : CoinBase → Hash → Hash
  unfolding coinbase_message
  coinbase_signing_hash tx h = c.sha256 (coinbase_message tx h)

  unfoldable pub attest_signing_hash : Attest → Hash → Hash
  unfolding attest_message
  attest_signing_hash tx h = c.sha256 (attest_message tx h)

  -- misc.GetDilithiumAddressFromUnSizedPK and misc.GetXMSSAddressFromUnSizedPK
  unfoldable pub dilithium_address_of : Bytes → Address
  unfolding sized
  dilithium_address_of pk = c.dilithium_address (sized c.dilithium_pk_size pk)

  unfoldable pub xmss_address_of : Bytes → Address
  unfolding sized
  xmss_address_of pk = c.xmss_address (sized c.xmss_pk_size pk)

  -- misc.GetAddressFromUnSizedPK; a key of another size has the zero address
  unfoldable pub address_of : Bytes → Address
  unfolding dilithium_address_of xmss_address_of
  address_of pk =
      if length pk == c.xmss_pk_size
      then xmss_address_of pk
      else if length pk == c.dilithium_pk_size
      then dilithium_address_of pk
      else 0

  -- AddrFrom, which panics on the zero address
  unfoldable pub addr_from : Transaction → Option Address
  unfolding address_of
  addr_from tx = if address_of tx.pk == 0 then none else some (address_of tx.pk)
