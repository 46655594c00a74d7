-- ===== src/Staking/Validate/Protocol.antt =====
-- core/state_processor.go: which coinbase and attest transactions the checks accept.
use zond.Prelude.{
  ℕ, ◌/◌, ◌≤◌, ◌≡◌, ◌≢◌, ◌⊎◌, ◌↔◌, refl, ap, Bool, true, not, Option, none, some, ◌==◌, ◌||◌, ◌&&◌,
  ltb, ==_iff, length, arith, inl, inr,
}
use zond.Prelude.Int.{ℤ, to_uint64}
use zond.State.Account.{Hash}
use zond.Transactions.{
  Crypto, CoinBase, Attest, sized, tx_hash, coinbase_signing_hash, attest_signing_hash,
}
use zond.Staking.{Config, get_block_reward, get_attestor_reward}
use zond.Staking.Epoch.{SlotValidatorsMetaData, is_type, is_attestor, is_slot_leader}
use zond.Staking.Validate.{coinbase_fault, attest_fault, is_staked}
use zond.Staking.Validate.Accepted.{require-none}

-- The role of a key in a slot
is_type_iff : (v : ℕ) (o : Option ℕ) → (is_type v o ≡ true) ↔ (o ≡ some v)
unfolding is_type
is_type_iff v none = (λ e. cc, λ e. cc)
is_type_iff v (some x) =
    (λ e. ap (λ y. some y) ((==_iff x v).0 e), λ e. (==_iff x v).1 (ap (un v) e))
  where
    un : ℕ → Option ℕ → ℕ
    un d none = d
    un d (some y) = y

module _ (c : Crypto) (cfg : Config) where
  -- The stake, or in the first block of an epoch the pending stake, reaches the required amount.
  abbrev pub HasStake : ℕ → ℕ → ℤ → ℤ → Type 0
  HasStake slot parent stake pending =
      (cfg.stake_amount ≤ to_uint64 stake)
      ⊎ ((parent / cfg.blocks_per_epoch ≢ slot / cfg.blocks_per_epoch)
          × (cfg.stake_amount ≤ to_uint64 pending))

  is_staked_iff :
      (slot parent : ℕ) (stake pending : ℤ)
      → (is_staked c cfg slot parent stake pending ≡ true) ↔ HasStake slot parent stake pending
  unfolding is_staked
  is_staked_iff slot parent stake pending =
      tests (to_uint64 stake) (to_uint64 pending) cfg.stake_amount _ _
    where
      tests :
          (x y amount g h : ℕ)
          → ((not (ltb x amount) || (not (g == h) && not (ltb y amount))) ≡ true)
            ↔ ((amount ≤ x) ⊎ ((g ≢ h) × (amount ≤ y)))
      tests x y amount g h = ground arith

  pub record IsAttested (tx : Attest) (meta : SlotValidatorsMetaData) (h : Hash)
      (slot parent nonce : ℕ) (stake pending : ℤ) : Type 0 where
    pub named :
        tx.attest_tx.hash
        ≡ tx_hash c (attest_signing_hash c tx h) tx.attest_tx.signature tx.attest_tx.pk
    pub next : tx.attest_tx.nonce ≡ nonce
    pub key_size : length tx.attest_tx.pk ≡ c.dilithium_pk_size
    pub verified :
        c.dilithium_verify
          (attest_signing_hash c tx h)
          tx.attest_tx.signature
          (sized c.dilithium_pk_size tx.attest_tx.pk)
        ≡ true
    pub role : meta.validators_type tx.attest_tx.pk ≡ some 0
    pub has_stake : HasStake slot parent stake pending

  pub attest_fault-none :
      (tx : Attest) (meta : SlotValidatorsMetaData) (h : Hash) (slot parent nonce : ℕ)
      (stake pending : ℤ)
      → (attest_fault c cfg tx meta h slot parent nonce stake pending ≡ none)
        ↔ IsAttested tx meta h slot parent nonce stake pending
  unfolding attest_fault is_attestor
  attest_fault-none tx meta h slot parent nonce stake pending = (
    λ e.
        let (named, e1) = (require-none _ _ _).0 e in
        let (next, e2) = (require-none _ _ _).0 e1 in
        let (size, e3) = (require-none _ _ _).0 e2 in
        let (verified, e4) = (require-none _ _ _).0 e3 in
        let (role, e5) = (require-none _ _ _).0 e4 in
        let (staked, e6) = (require-none _ _ _).0 e5 in
        record {
          named = (==_iff _ _).0 named;
          next = (==_iff _ _).0 next;
          key_size = (==_iff _ _).0 size;
          verified = verified;
          role = (is_type_iff 0 _).0 role;
          has_stake = (is_staked_iff slot parent stake pending).0 staked;
        },
    λ k. (require-none _ _ _).1 (
      (==_iff _ _).1 k.named,
      (require-none _ _ _).1 (
        (==_iff _ _).1 k.next,
        (require-none _ _ _).1 (
          (==_iff _ _).1 k.key_size,
          (require-none _ _ _).1 (
            k.verified,
            (require-none _ _ _).1 (
              (is_type_iff 0 _).1 k.role,
              (require-none _ _ _).1
                  ((is_staked_iff slot parent stake pending).1 k.has_stake, refl),
            ),
          ),
        ),
      ),
    ),
  )

  -- Genesis asks for neither the signature nor the stake.
  pub record IsProposed (tx : CoinBase) (meta : SlotValidatorsMetaData) (h : Hash) (slot parent : ℕ)
      (genesis : Bool) (nonce : ℕ) (stake pending : ℤ) : Type 0 where
    pub named :
        tx.coinbase_tx.hash
        ≡ tx_hash c (coinbase_signing_hash c tx h) tx.coinbase_tx.signature tx.coinbase_tx.pk
    pub next : tx.coinbase_tx.nonce ≡ nonce
    pub key_size : length tx.coinbase_tx.pk ≡ c.dilithium_pk_size
    pub verified :
        (genesis ≡ true)
        ⊎ (c.dilithium_verify
              (coinbase_signing_hash c tx h)
              tx.coinbase_tx.signature
              (sized c.dilithium_pk_size tx.coinbase_tx.pk)
            ≡ true)
    pub role : meta.validators_type tx.coinbase_tx.pk ≡ some 1
    pub block_reward : tx.block_proposer_reward ≡ get_block_reward cfg
    pub attestor_reward_is : tx.attestor_reward ≡ get_attestor_reward cfg
    pub has_stake : (genesis ≡ true) ⊎ HasStake slot parent stake pending

  or_iff : (a b : Bool) → ((a || b) ≡ true) ↔ ((a ≡ true) ⊎ (b ≡ true))
  or_iff a b = ground arith

  -- The checks of ValidateCoinBaseTx pass exactly if: the hash and the nonce are right, the key
  -- has the size of a Dilithium key, it is the slot's leader, both rewards are the fixed ones,
  -- and, except for genesis, the signature is verified and the stake, or in the first block of an
  -- epoch the pending stake, reaches the required amount.
  pub coinbase_fault-none :
      (tx : CoinBase) (meta : SlotValidatorsMetaData) (h : Hash) (slot parent : ℕ) (genesis : Bool)
      (nonce : ℕ) (stake pending : ℤ)
      → (coinbase_fault c cfg tx meta h slot parent genesis nonce stake pending ≡ none)
        ↔ IsProposed tx meta h slot parent genesis nonce stake pending
  unfolding coinbase_fault is_slot_leader
  coinbase_fault-none tx meta h slot parent genesis nonce stake pending = (
    λ e.
        let (named, e1) = (require-none _ _ _).0 e in
        let (next, e2) = (require-none _ _ _).0 e1 in
        let (size, e3) = (require-none _ _ _).0 e2 in
        let (verified, e4) = (require-none _ _ _).0 e3 in
        let (role, e5) = (require-none _ _ _).0 e4 in
        let (block_reward, e6) = (require-none _ _ _).0 e5 in
        let (attestor_reward, e7) = (require-none _ _ _).0 e6 in
        let (staked, e8) = (require-none _ _ _).0 e7 in
        record {
          named = (==_iff _ _).0 named;
          next = (==_iff _ _).0 next;
          key_size = (==_iff _ _).0 size;
          verified = (or_iff _ _).0 verified;
          role = (is_type_iff 1 _).0 role;
          block_reward = (==_iff _ _).0 block_reward;
          attestor_reward_is = (==_iff _ _).0 attestor_reward;
          has_stake =
              either genesis _ _ (is_staked_iff slot parent stake pending).0
                ((or_iff _ _).0 staked);
        },
    λ k. (require-none _ _ _).1 (
      (==_iff _ _).1 k.named,
      (require-none _ _ _).1 (
        (==_iff _ _).1 k.next,
        (require-none _ _ _).1 (
          (==_iff _ _).1 k.key_size,
          (require-none _ _ _).1 (
            (or_iff _ _).1 k.verified,
            (require-none _ _ _).1 (
              (is_type_iff 1 _).1 k.role,
              (require-none _ _ _).1 (
                (==_iff _ _).1 k.block_reward,
                (require-none _ _ _).1 (
                  (==_iff _ _).1 k.attestor_reward_is,
                  (require-none _ _ _).1 (
                    (or_iff _ _).1 (
                        either genesis _ _ (is_staked_iff slot parent stake pending).1 k.has_stake),
                    refl,
                  ),
                ),
              ),
            ),
          ),
        ),
      ),
    ),
  )
    where
      either : (g : Bool) (A B : Type 0) → (A → B) → (g ≡ true) ⊎ A → (g ≡ true) ⊎ B
      either g A B f (inl e) = inl e
      either g A B f (inr x) = inr (f x)
