-- ===== src/Staking/Validate/Accepted.antt =====
-- core/state_processor.go: which transactions the checks accept, and what that is worth.
use zond.Prelude.{
  ℕ, ◌+◌, ◌-◌, ◌*◌, ◌%◌, ◌^◌, ◌<◌, ◌≤◌, ◌≡◌, ◌≢◌, ap, ◌∙◌, ◌⊎◌, ◌↔◌, refl, sym, subst, Bool, true,
  false, not, Option, none, arith, ◌==◌, ◌||◌, ltb, ==_iff, length,
}
use zond.Prelude.Int.{ℤ, pos, signed, ◌≤ℤ◌, ltb_ℤ, ◌+ℤ◌, ◌-ℤ◌, int_laws, signed_pos}
use zond.State.Account.{Address, Backend}
use zond.Prelude.Maps.{update_ne, update_self}
use zond.State.Db.{StateDb}
use zond.State.Finalise.{finalise}
use zond.State.Ledger.{Holding, ledger, change}
use zond.Transactions.{Crypto, Stake, dilithium_address_of, sized, tx_hash, stake_signing_hash}
use zond.Staking.{Config, Fault}
use zond.Staking.Validate.{require, stake_fault}
use zond.Staking.Apply.{Place, apply_stake_transaction}
use zond.Staking.Apply.Promise.{apply_stake_transaction-ledger}
use zond.Staking.Apply.Refine.{staked}
use zond.Staking.Apply.Coins.{signed_is, refunded}

pub require-none :
    (b : Bool) (f : Fault) (rest : Option Fault)
    → (require b f rest ≡ none) ↔ ((b ≡ true) × (rest ≡ none))
unfolding require
require-none true f rest = (λ e. (refl, e), λ h. h.1)
require-none false f rest = (λ e. cc, λ h. cc)

not_less : (a b : ℤ) → (not (ltb_ℤ a b) ≡ true) ↔ (b ≤ℤ a)
not_less a b = ground arith

not_below : (a b : ℕ) → (not (ltb a b) ≡ true) ↔ (b ≤ a)
not_below a b = ground arith

at_least : (a b : ℕ) → ((a == 0 || not (ltb a b)) ≡ true) ↔ ((a ≡ 0) ⊎ (b ≤ a))
at_least a b = ground arith

module _ (c : Crypto) (cfg : Config) where
  -- What ValidateStakeTxn asks for; the required balance wraps around, and is read as signed.
  pub record IsAcceptable (stake : Stake) (from : Address) (nonce : ℕ) (balance : ℤ) : Type 0 where
    pub named :
        stake.stake_tx.hash
        ≡ tx_hash c (stake_signing_hash c stake) stake.stake_tx.signature stake.stake_tx.pk
    pub next : stake.stake_tx.nonce ≡ nonce
    pub enough_stake : (stake.amount ≡ 0) ⊎ (cfg.stake_amount ≤ stake.amount)
    pub key_size : length stake.stake_tx.pk ≡ c.dilithium_pk_size
    pub funded :
        signed ((stake.stake_tx.gas * stake.stake_tx.gas_price % 2 ^ 64 + stake.amount) % 2 ^ 64)
        ≤ℤ balance
    pub enough_gas : 1000 ≤ stake.stake_tx.gas
    pub is_address : c.is_valid_dilithium_address from ≡ true
    pub verified :
        c.dilithium_verify
          (stake_signing_hash c stake)
          stake.stake_tx.signature
          (sized c.dilithium_pk_size stake.stake_tx.pk)
        ≡ true

  -- The checks of ValidateStakeTxn pass exactly if: the hash is that of the transaction, the
  -- nonce is the account's, the amount is 0 or at least the required one, the key has the size of
  -- a Dilithium key, the required balance, modulo 2^64 and read as signed, is at most the
  -- balance, the gas is at least 1000, the address is a Dilithium one and the signature is
  -- verified.
  pub stake_fault-none :
      (stake : Stake) (from : Address) (nonce : ℕ) (balance : ℤ)
      → (stake_fault c cfg stake from nonce balance ≡ none) ↔ IsAcceptable stake from nonce balance
  unfolding stake_fault
  stake_fault-none stake from nonce balance = (
    λ e.
        let (named, e1) = (require-none _ _ _).0 e in
        let (next, e2) = (require-none _ _ _).0 e1 in
        let (enough, e3) = (require-none _ _ _).0 e2 in
        let (size, e4) = (require-none _ _ _).0 e3 in
        let (funded, e5) = (require-none _ _ _).0 e4 in
        let (gas, e6) = (require-none _ _ _).0 e5 in
        let (address, e7) = (require-none _ _ _).0 e6 in
        let (verified, e8) = (require-none _ _ _).0 e7 in
        record {
          named = (==_iff _ _).0 named;
          next = (==_iff _ _).0 next;
          enough_stake = (at_least stake.amount cfg.stake_amount).0 enough;
          key_size = (==_iff _ _).0 size;
          funded = (not_less balance _).0 funded;
          enough_gas = (not_below _ _).0 gas;
          is_address = address;
          verified = verified;
        },
    λ h. (require-none _ _ _).1 (
      (==_iff _ _).1 h.named,
      (require-none _ _ _).1 (
        (==_iff _ _).1 h.next,
        (require-none _ _ _).1 (
          (at_least stake.amount cfg.stake_amount).1 h.enough_stake,
          (require-none _ _ _).1 (
            (==_iff _ _).1 h.key_size,
            (require-none _ _ _).1 (
              (not_less balance _).1 h.funded,
              (require-none _ _ _).1 (
                (not_below stake.stake_tx.gas 1000).1 h.enough_gas,
                (require-none _ _ _).1 (h.is_address, (require-none _ _ _).1 (h.verified, refl)),
              ),
            ),
          ),
        ),
      ),
    ),
  )

  paid_for :
      (b p : ℤ) (amount fee refund : ℕ)
      → pos (fee + amount) ≤ℤ b
      → pos 0 ≤ℤ p
      → pos 0 ≤ℤ b -ℤ pos fee +ℤ p -ℤ pos amount +ℤ pos refund
  paid_for b p amount fee refund h k = omega int_laws

  -- what the checks are worth for the holding that the transaction gives the staker
  staked_solvent :
      (db : Backend) (stake : Stake) (from : Address) (h : Holding)
      → stake.stake_tx.gas < 2 ^ 64
      → stake.stake_tx.gas * stake.stake_tx.gas_price + stake.amount < 2 ^ 63
      → pos 0 ≤ℤ h.pending_stake_balance
      → stake_fault c cfg stake from h.nonce h.balance ≡ none
      → (pos 0 ≤ℤ (staked db stake.stake_tx stake.amount h).balance)
        × ((staked db stake.stake_tx stake.amount h).pending_stake_balance ≡ pos stake.amount)
        × ((stake.amount ≡ 0) ⊎ (cfg.stake_amount ≤ stake.amount))
  staked_solvent db stake from h word fits rich accepted =
      let ok = (stake_fault-none stake from h.nonce h.balance).0 accepted in
      let tx = stake.stake_tx in
      let fee = tx.gas * tx.gas_price in
      let refund = (tx.gas + 2 ^ 64 - 1000) % 2 ^ 64 * tx.gas_price % 2 ^ 64 in
      let required : signed ((fee % 2 ^ 64 + stake.amount) % 2 ^ 64) ≡ pos (fee + stake.amount) =
        signed_is _ (fee + stake.amount) (omega arith) fits in
      let (whole, back) = refunded tx.gas tx.gas_price word ok.enough_gas (omega arith) in
      let fee_is = signed_is (fee % 2 ^ 64) fee (omega arith) (omega arith) in
      let refund_is =
        signed_is refund ((tx.gas - 1000) * tx.gas_price) back (omega (arith, whole, fits)) in
      let amount_is = signed_pos stake.amount (omega arith) in
      let start = subst (λ x. x ≤ℤ h.balance) required ok.funded in
      let sum =
        paid_for h.balance h.pending_stake_balance stake.amount fee ((tx.gas - 1000) * tx.gas_price)
          start rich in
      let balance : h.balance
            -ℤ pos fee
            +ℤ h.pending_stake_balance
            -ℤ pos stake.amount
            +ℤ pos ((tx.gas - 1000) * tx.gas_price)
          ≡ (staked db tx stake.amount h).balance =
        λ i.
          h.balance
          -ℤ sym fee_is i
          +ℤ h.pending_stake_balance
          -ℤ sym amount_is i
          +ℤ sym refund_is i in
      (subst (λ x. pos 0 ≤ℤ x) balance sum, amount_is, ok.enough_stake)

  -- Take a stake transaction of 64-bit gas whose fee and amount together are below 2^63, a
  -- pending stake of the sender that is not negative after Finalise, and a proposer other than
  -- the sender. If the checks pass on the nonce and the balance that the sender has after
  -- Finalise, then applyStakeTransaction leaves the sender the next nonce, modulo 2^64, a balance
  -- that is not negative, its stake as it was, and the amount, 0 or at least the required one, as
  -- its pending stake.
  pub stake_solvent :
      (db : Backend) (s : StateDb) (stake : Stake) (gp used_gas : ℕ) (p : Place) (minter : Address)
      → stake.stake_tx.gas < 2 ^ 64
      → stake.stake_tx.gas * stake.stake_tx.gas_price + stake.amount < 2 ^ 63
      → dilithium_address_of c stake.stake_tx.pk ≢ minter
      → pos 0
        ≤ℤ (ledger db
            (finalise db true s)
            (dilithium_address_of c stake.stake_tx.pk)).pending_stake_balance
      → stake_fault c cfg stake
          (dilithium_address_of c stake.stake_tx.pk)
          (ledger db (finalise db true s) (dilithium_address_of c stake.stake_tx.pk)).nonce
          (ledger db (finalise db true s) (dilithium_address_of c stake.stake_tx.pk)).balance
        ≡ none
      → let a = dilithium_address_of c stake.stake_tx.pk in
        let before = ledger db (finalise db true s) a in
        let h = ledger db (apply_stake_transaction db c gp s p stake used_gas minter).state a in
        (h.nonce ≡ (before.nonce + 1) % 2 ^ 64)
        × (pos 0 ≤ℤ h.balance)
        × (h.stake_balance ≡ before.stake_balance)
        × (h.pending_stake_balance ≡ pos stake.amount)
        × ((stake.amount ≡ 0) ⊎ (cfg.stake_amount ≤ stake.amount))
  stake_solvent db s stake gp used_gas p minter word fits other rich accepted =
      let a = dilithium_address_of c stake.stake_tx.pk in
      let l = ledger db (finalise db true s) in
      let change_is = (apply_stake_transaction-ledger db c gp s p stake used_gas minter).0 in
      let mine : ledger db (apply_stake_transaction db c gp s p stake used_gas minter).state a
          ≡ staked db stake.stake_tx stake.amount (l a) =
        ap (λ l. l a) change_is
        ∙ update_ne (change l a (staked db stake.stake_tx stake.amount)) minter a _ other
        ∙ update_self l a _ in
      let (balance, pending, enough) = staked_solvent db stake a (l a) word fits rich accepted in
      (
        ap (λ h. h.nonce) mine,
        subst (λ h. pos 0 ≤ℤ h.balance) (sym mine) balance,
        ap (λ h. h.stake_balance) mine,
        ap (λ h. h.pending_stake_balance) mine ∙ pending,
        enough,
      )

  -- If the fee and the amount of a stake transaction, added modulo 2^64, reach 2^63, and the
  -- checks pass for some balance, then they pass for every balance that is not negative.
  pub stake_fault-overflow :
      (stake : Stake) (from : Address) (nonce : ℕ) (balance other : ℤ)
      → 2 ^ 63 ≤ (stake.stake_tx.gas * stake.stake_tx.gas_price % 2 ^ 64 + stake.amount) % 2 ^ 64
      → pos 0 ≤ℤ other
      → stake_fault c cfg stake from nonce balance ≡ none
      → stake_fault c cfg stake from nonce other ≡ none
  stake_fault-overflow stake from nonce balance other wraps rich accepted =
      let ok = (stake_fault-none stake from nonce balance).0 accepted in
      (stake_fault-none stake from nonce other).1 (record {
        named = ok.named;
        next = ok.next;
        enough_stake = ok.enough_stake;
        key_size = ok.key_size;
        enough_gas = ok.enough_gas;
        is_address = ok.is_address;
        verified = ok.verified;
        funded =
            negative
              ((stake.stake_tx.gas * stake.stake_tx.gas_price % 2 ^ 64 + stake.amount) % 2 ^ 64)
              wraps (omega arith);
      })
    where
      negative : (x : ℕ) → 2 ^ 63 ≤ x → x < 2 ^ 64 → signed x ≤ℤ other
      negative x h k = ground arith
