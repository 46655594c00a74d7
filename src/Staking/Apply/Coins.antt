-- ===== src/Staking/Apply/Coins.antt =====
-- core/state_processor.go: the coins of all addresses together, before and after each transaction of the
-- proof of stake.
use zond.Prelude.{
  ℕ, ◌+◌, ◌-◌, ◌*◌, ◌%◌, ◌^◌, ◌<◌, ◌≤◌, ◌≡◌, refl, sym, ap, ◌∙◌, true, List, [], ◌∷◌, arith, inl,
  inr, ◌==◌, Bool-cases,
}
use zond.Prelude.Int.{ℤ, pos, signed, signed_pos, to_uint64, ◌+ℤ◌, ◌-ℤ◌, int_laws, parts_of_eq}
use zond.State.Account.{Address, Backend}
use zond.State.Db.{StateDb}
use zond.State.Finalise.{finalise}
use zond.State.Ledger.{Holding, Ledger, change, ledger}
use zond.State.Ledger.Writes.{credit, debit}
use zond.Transactions.{
  Bytes, Crypto, Transaction, Stake, CoinBase, Attest, dilithium_address_of, address_of,
}
use zond.Staking.{Config, ok}
use zond.Staking.Epoch.{EpochMetaData}
use zond.Staking.Context.{StateContext}
use zond.Staking.Apply.{
  Receipt, Place, apply_stake_transaction, apply_coinbase_transaction, apply_attest_transaction,
  update_stake_validators,
}
use zond.Staking.Apply.Refine.{staked, tip, proposed, attested, renewed}
use zond.Staking.Apply.Promise.{
  apply_stake_transaction-ledger, apply_coinbase_transaction-ledger,
  apply_attest_transaction-ledger, update_stake_validators-ledger, renew_all,
}
use zond.Staking.Apply.Conserve.{wealth, total, is_in, are_distinct, total-change, total_kept}

wealth-credit : (x : ℤ) (h : Holding) → wealth (credit x h) ≡ wealth h +ℤ x
wealth-credit x h = omega int_laws

wealth-debit : (x : ℤ) (h : Holding) → wealth (debit x h) +ℤ x ≡ wealth h
wealth-debit x h = omega int_laws

-- Two changes, one after the other
total_twice :
    (accounts : List Address) (l : Ledger) (a b : Address) (f g : Holding → Holding) (x y : ℤ)
    → are_distinct accounts ≡ true
    → is_in a accounts ≡ true
    → is_in b accounts ≡ true
    → ((h : Holding) → wealth (f h) +ℤ x ≡ wealth h)
    → ((h : Holding) → wealth (g h) +ℤ y ≡ wealth h)
    → total accounts (change (change l a f) b g) +ℤ x +ℤ y ≡ total accounts l
total_twice accounts l a b f g x y d ha hb hf hg =
    let l' = change l a f in
    let one = total-change accounts l a f d ha in
    let two = total-change accounts l' b g d hb in
    sums (total accounts l) (total accounts l') (total accounts (change l' b g)) (wealth (l a))
      (wealth (f (l a))) (wealth (l' b)) (wealth (g (l' b))) x y one two (hf (l a)) (hg (l' b))
  where
    sums :
        (t0 t1 t2 u v w z x y : ℤ)
        → t1 +ℤ u ≡ t0 +ℤ v
        → t2 +ℤ w ≡ t1 +ℤ z
        → v +ℤ x ≡ u
        → z +ℤ y ≡ w
        → t2 +ℤ x +ℤ y ≡ t0
    sums t0 t1 t2 u v w z x y h1 h2 h3 h4 =
        let e1 = parts_of_eq (t1 +ℤ u) (t0 +ℤ v) h1 in
        let e2 = parts_of_eq (t2 +ℤ w) (t1 +ℤ z) h2 in
        let e3 = parts_of_eq (v +ℤ x) u h3 in let e4 = parts_of_eq (z +ℤ y) w h4 in omega int_laws

-- The wealth of a staker with the fee, the refund and the tip left open
abbrev settled : Holding → ℕ → ℤ → ℤ → ℤ → ℤ
settled h amount fee refund tip_paid =
    h.balance
    -ℤ fee
    +ℤ h.pending_stake_balance
    -ℤ signed amount
    +ℤ refund
    +ℤ h.stake_balance
    +ℤ signed amount
    +ℤ tip_paid

settled_lem :
    (h : Holding) (amount fee refund tip_paid : ℕ)
    → fee ≡ refund + tip_paid
    → settled h amount (pos fee) (pos refund) (pos tip_paid) ≡ wealth h
settled_lem h amount fee refund tip_paid e =
    go h.balance h.stake_balance h.pending_stake_balance (signed amount)
  where
    go :
        (b s p m : ℤ) → b -ℤ pos fee +ℤ p -ℤ m +ℤ pos refund +ℤ s +ℤ m +ℤ pos tip_paid ≡ b +ℤ s +ℤ p
    go b s p m = omega int_laws

pub signed_is : (x n : ℕ) → x ≡ n → n < 2 ^ 63 → signed x ≡ pos n
signed_is x n e h = ap (λ y. signed y) e ∙ signed_pos n h

distribute : (x y z : ℕ) → (x + y) * z ≡ x * z + y * z
distribute x y z = grind arith

-- The refund of what was not used does not wrap around.
pub refunded :
    (gas price : ℕ)
    → gas < 2 ^ 64
    → 1000 ≤ gas
    → gas * price < 2 ^ 63
    → (gas * price ≡ (gas - 1000) * price + 1000 * price)
      × ((gas + 2 ^ 64 - 1000) % 2 ^ 64 * price % 2 ^ 64 ≡ (gas - 1000) * price)
refunded gas price word enough fits =
    let parts : gas ≡ gas - 1000 + 1000 = omega arith in
    let left : (gas + 2 ^ 64 - 1000) % 2 ^ 64 ≡ gas - 1000 = omega arith in
    let whole : gas * price ≡ (gas - 1000) * price + 1000 * price =
      ap (λ x. x * price) parts ∙ distribute (gas - 1000) 1000 price in
    (whole, ap (λ x. x * price % 2 ^ 64) left ∙ omega (arith, whole, fits))

-- What a staker pays is the fee of 1000 units of gas.
wealth-staked :
    (db : Backend) (tx : Transaction) (amount : ℕ) (h : Holding)
    → tx.gas < 2 ^ 64
    → 1000 ≤ tx.gas
    → tx.gas * tx.gas_price < 2 ^ 63
    → wealth (staked db tx amount h) +ℤ tip db tx ≡ wealth h
wealth-staked db tx amount h word enough fits =
    let price = tx.gas_price in
    let g = tx.gas - 1000 in
    let (whole, back) = refunded tx.gas price word enough fits in
    let fee = signed_is (tx.gas * price % 2 ^ 64) (tx.gas * price) (omega arith) fits in
    let refund =
      signed_is ((tx.gas + 2 ^ 64 - 1000) % 2 ^ 64 * price % 2 ^ 64) (g * price) back
        (omega (arith, whole, fits)) in
    let paid =
      signed_is (1000 * price % 2 ^ 64) (1000 * price) (omega (arith, whole, fits))
        (omega (arith, whole, fits)) in
    ap
      (λ x.
        settled h amount x (signed ((tx.gas + 2 ^ 64 - 1000) % 2 ^ 64 * price % 2 ^ 64))
          (tip db tx))
      fee
    ∙ ap (λ x. settled h amount (pos (tx.gas * price)) x (tip db tx)) refund
    ∙ ap (λ x. settled h amount (pos (tx.gas * price)) (pos (g * price)) x) paid
    ∙ settled_lem h amount (tx.gas * price) (g * price) (1000 * price) whole

module _ (db : Backend) (accounts : List Address) (distinct : are_distinct accounts ≡ true) where
  -- A stake transaction of a 64-bit gas of at least 1000, whose fee is below 2^63, neither makes
  -- nor loses coins: over any list of distinct addresses with the sender and the proposer among
  -- them, the balances, stakes and pending stakes add up to what they were after the Finalise
  -- that it starts with, also if the gas limit is reached.
  pub stake-total :
      (c : Crypto) (gp : ℕ) (s : StateDb) (p : Place) (tx : Stake) (used_gas : ℕ) (minter : Address)
      → is_in (dilithium_address_of c tx.stake_tx.pk) accounts ≡ true
      → is_in minter accounts ≡ true
      → tx.stake_tx.gas < 2 ^ 64
      → 1000 ≤ tx.stake_tx.gas
      → tx.stake_tx.gas * tx.stake_tx.gas_price < 2 ^ 63
      → total accounts (ledger db (apply_stake_transaction db c gp s p tx used_gas minter).state)
        ≡ total accounts (ledger db (finalise db true s))
  stake-total c gp s p tx used_gas minter ha hm word enough fits =
      let a = dilithium_address_of c tx.stake_tx.pk in
      let l = ledger db (finalise db true s) in
      let x = tip db tx.stake_tx in
      let (state, used, paid) = apply_stake_transaction-ledger db c gp s p tx used_gas minter in
      let both =
        total_twice accounts l a minter (staked db tx.stake_tx tx.amount) (credit x) x (pos 0 -ℤ x)
          distinct ha hm (λ h. wealth-staked db tx.stake_tx tx.amount h word enough fits)
          (λ h. ap (λ y. y +ℤ (pos 0 -ℤ x)) (wealth-credit x h) ∙ back (wealth h) x) in
      ap (total accounts) state ∙ sym (back (total accounts _) x) ∙ both
    where
      back : (y x : ℤ) → y +ℤ x +ℤ (pos 0 -ℤ x) ≡ y
      back y x = omega int_laws

  -- A reward that the coinbase address pays
  reward_wealth :
      (n : ℕ) (x : ℤ) (h : Holding)
      → wealth (record (credit x h) { nonce = n }) +ℤ (pos 0 -ℤ x) ≡ wealth h
  reward_wealth n x h = go h.balance h.stake_balance h.pending_stake_balance x
    where
      go : (b s p x : ℤ) → b +ℤ x +ℤ s +ℤ p +ℤ (pos 0 -ℤ x) ≡ b +ℤ s +ℤ p
      go b s p x = omega int_laws

  pub attest-total :
      (cfg : Config) (c : Crypto) (s : StateDb) (sc : StateContext) (p : Place) (tx : Attest)
      (reward : ℕ)
      → (r : StateDb × StateContext × Receipt)
      → apply_attest_transaction db cfg c s sc p tx reward ≡ ok r
      → is_in (dilithium_address_of c tx.attest_tx.pk) accounts ≡ true
      → is_in cfg.coinbase_address accounts ≡ true
      → total accounts (ledger db r.0) ≡ total accounts (ledger db (finalise db true s))
  attest-total cfg c s sc p tx reward r e ha hc =
      let a = dilithium_address_of c tx.attest_tx.pk in
      let l = ledger db (finalise db true s) in
      let x = signed reward in
      let (state, context) = apply_attest_transaction-ledger db cfg c s sc p tx reward r e in
      let both =
        total_twice accounts l a cfg.coinbase_address (attested db reward) (debit x) (pos 0 -ℤ x) x
          distinct ha hc (λ h. reward_wealth ((h.nonce + 1) % 2 ^ 64) x h) (wealth-debit x) in
      ap (total accounts) state ∙ sym (back (total accounts _) x) ∙ both
    where
      back : (y x : ℤ) → y +ℤ (pos 0 -ℤ x) +ℤ x ≡ y
      back y x = omega int_laws

  -- A coinbase transaction that succeeds makes as many coins as its fee reward says, read as a
  -- signed number, and the block reward is only moved: over any list of distinct addresses with
  -- the proposer and the coinbase address among them, balances, stakes and pending stakes grow
  -- together by the fee reward.
  pub coinbase-total :
      (cfg : Config) (c : Crypto) (s : StateDb) (sc : StateContext) (p : Place) (tx : CoinBase)
      → (r : StateDb × StateContext × Receipt)
      → apply_coinbase_transaction db cfg c s sc p tx ≡ ok r
      → is_in (dilithium_address_of c tx.coinbase_tx.pk) accounts ≡ true
      → is_in cfg.coinbase_address accounts ≡ true
      → total accounts (ledger db r.0)
        ≡ total accounts (ledger db (finalise db true s)) +ℤ signed tx.fee_reward
  coinbase-total cfg c s sc p tx r e ha hc =
      let a = dilithium_address_of c tx.coinbase_tx.pk in
      let l = ledger db (finalise db true s) in
      let x = signed tx.block_proposer_reward in
      let fee = signed tx.fee_reward in
      let (state, context) = apply_coinbase_transaction-ledger db cfg c s sc p tx r e in
      let both =
        total_twice accounts l a cfg.coinbase_address (proposed db tx) (debit x)
          (pos 0 -ℤ (x +ℤ fee)) x distinct ha hc
          (λ h. twice h.balance h.stake_balance h.pending_stake_balance x fee) (wealth-debit x) in
      ap (total accounts) state ∙ sym (back (total accounts _) x fee) ∙ ap (λ y. y +ℤ fee) both
    where
      twice : (b s p x y : ℤ) → b +ℤ x +ℤ y +ℤ s +ℤ p +ℤ (pos 0 -ℤ (x +ℤ y)) ≡ b +ℤ s +ℤ p
      twice b s p x y = omega int_laws

      back : (y x z : ℤ) → y +ℤ (pos 0 -ℤ (x +ℤ z)) +ℤ x +ℤ z ≡ y
      back y x z = omega int_laws

module _ (db : Backend) (accounts : List Address) where
  wealth-renewed : (h : Holding) → wealth (renewed db h) ≡ wealth h
  wealth-renewed h = elim (Bool-cases (to_uint64 h.pending_stake_balance == 0)) [
    | inl e ↦ rw e (go h.balance h.stake_balance h.pending_stake_balance)
    | inr e ↦ rw e (turn h.balance h.stake_balance h.pending_stake_balance)
  ]
    where
      go : (b s p : ℤ) → b +ℤ s +ℤ pos 0 +ℤ p ≡ b +ℤ s +ℤ p
      go b s p = omega int_laws

      turn : (b s p : ℤ) → b +ℤ s +ℤ p +ℤ pos 0 ≡ b +ℤ s +ℤ p
      turn b s p = omega int_laws

  renew_all-total :
      (c : Crypto) (pks : List Bytes) (l : Ledger)
      → total accounts (renew_all db c pks l) ≡ total accounts l
  renew_all-total c [] l = refl
  renew_all-total c (pk ∷ pks) l =
      renew_all-total c pks (change l (address_of c pk) (renewed db))
      ∙ total_kept accounts l (address_of c pk) (renewed db) wealth-renewed

  -- UpdateStakeValidators neither makes nor loses coins: for any keys, the balances, stakes and
  -- pending stakes of any list of addresses add up to what they were.
  pub update_stake_validators-total :
      (c : Crypto) (pks : List Bytes) (s : StateDb) (e : EpochMetaData)
      → total accounts (ledger db (update_stake_validators db c pks (s, e)).0)
        ≡ total accounts (ledger db s)
  update_stake_validators-total c pks s e =
      ap (total accounts) (update_stake_validators-ledger db c pks s e)
      ∙ renew_all-total c pks (ledger db s)
