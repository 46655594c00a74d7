-- ===== src/State/Ledger/Writes.antt =====
-- core/state/statedb.go and state_object.go: the setters of an account as changes of the ledger.
use zond.Prelude.{
  ℕ, ◌≡◌, refl, sym, ap, ◌∙◌, Bool, true, false, Bool-cases, if◌then◌else◌, inl, inr, arith, some,
}
use zond.Prelude.Int.{ℤ, pos, is_zero, is_zero_lem, ◌+ℤ◌, ◌-ℤ◌, int_laws}
use zond.Prelude.Maps.{update, update_same}
use zond.State.Account.{
  Address, Backend, StateObject, is_empty, set_balance, set_stake_balance,
  set_pending_stake_balance, set_nonce,
}
use zond.State.Db.{
  StateDb, append, balance_change, nonce_change, stake_balance_change, pending_stake_balance_change,
}
use zond.State.Ops.{
  object_set_nonce, object_set_balance, object_set_stake_balance, object_set_pending_stake_balance,
  object_add_balance, object_sub_balance, touch, set_balance_op, add_balance, sub_balance,
  set_stake_balance_op, set_pending_stake_balance_op, set_nonce_op,
}
use zond.State.Ledger.{Holding, held, change, ledger, by_object, journaled-ledger}

abbrev pub with_nonce : ℕ → Holding → Holding
with_nonce n h = record h { nonce = n }

abbrev pub with_balance : ℤ → Holding → Holding
with_balance x h = record h { balance = x }

abbrev pub with_stake : ℤ → Holding → Holding
with_stake x h = record h { stake_balance = x }

abbrev pub with_pending : ℤ → Holding → Holding
with_pending x h = record h { pending_stake_balance = x }

abbrev pub credit : ℤ → Holding → Holding
credit x h = record h { balance = h.balance +ℤ x }

abbrev pub debit : ℤ → Holding → Holding
debit x h = record h { balance = h.balance -ℤ x }

add_zero : (x y : ℤ) → y ≡ pos 0 → x +ℤ y ≡ x
add_zero x y h = rw h (omega int_laws)

sub_zero : (x y : ℤ) → y ≡ pos 0 → x -ℤ y ≡ x
sub_zero x y h = rw h (omega int_laws)

module _ (db : Backend) where
  pub set_nonce-ledger :
      (s : StateDb) (a : Address) (n : ℕ)
      → ledger db (set_nonce_op db s a n) ≡ change (ledger db s) a (with_nonce n)
  unfolding set_nonce_op set_nonce
  set_nonce-ledger s a n =
      by_object db s a (with_nonce n) (λ t o. object_set_nonce db t a o n)
        λ t o h e. journaled-ledger db t a (nonce_change a o.data_of.nonce) (set_nonce n o) h

  pub set_balance-ledger :
      (s : StateDb) (a : Address) (x : ℤ)
      → ledger db (set_balance_op db s a x) ≡ change (ledger db s) a (with_balance x)
  unfolding set_balance_op set_balance
  set_balance-ledger s a x =
      by_object db s a (with_balance x) (λ t o. object_set_balance db t a o x)
        λ t o h e. journaled-ledger db t a (balance_change a o.data_of.balance) (set_balance x o) h

  pub set_stake_balance-ledger :
      (s : StateDb) (a : Address) (x : ℤ)
      → ledger db (set_stake_balance_op db s a x) ≡ change (ledger db s) a (with_stake x)
  unfolding set_stake_balance_op set_stake_balance
  set_stake_balance-ledger s a x =
      by_object db s a (with_stake x) (λ t o. object_set_stake_balance db t a o x)
        λ t o h e.
          journaled-ledger db t a (stake_balance_change a o.data_of.stake_balance)
            (set_stake_balance x o) h

  pub set_pending_stake_balance-ledger :
      (s : StateDb) (a : Address) (x : ℤ)
      → ledger db (set_pending_stake_balance_op db s a x) ≡ change (ledger db s) a (with_pending x)
  unfolding set_pending_stake_balance_op set_pending_stake_balance
  set_pending_stake_balance-ledger s a x =
      by_object db s a (with_pending x) (λ t o. object_set_pending_stake_balance db t a o x)
        λ t o h e.
          journaled-ledger db t a (pending_stake_balance_change a o.data_of.pending_stake_balance)
            (set_pending_stake_balance x o) h

  -- A change that leaves the holding as it is
  unchanged :
      (t u : StateDb) (a : Address) (o : StateObject) (x : ℤ)
      → ledger db u ≡ ledger db t
      → ledger db t a ≡ held (some o)
      → x ≡ o.data_of.balance
      → ledger db u ≡ update (ledger db t) a (with_balance x (held (some o)))
  unchanged t u a o x same e h =
      same
      ∙ sym (update_same (ledger db t) a _ (e ∙ sym (ap (λ y. with_balance y (held (some o))) h)))

  touch-ledger : (t : StateDb) (a : Address) → ledger db (touch t a) ≡ ledger db t
  unfolding touch append
  touch-ledger t a = ground arith

  touched :
      (t : StateDb) (a : Address) (b : Bool) → ledger db (if b then touch t a else t) ≡ ledger db t
  touched t a true = touch-ledger t a
  touched t a false = refl

  pub add_balance-ledger :
      (s : StateDb) (a : Address) (x : ℤ)
      → ledger db (add_balance db s a x) ≡ change (ledger db s) a (credit x)
  unfolding add_balance set_balance
  add_balance-ledger s a x =
      by_object db s a (credit x) (λ t o. object_add_balance db t a o x)
        λ t o h e. elim (Bool-cases (is_zero x)) [
          | inl z ↦ rw z (
              unchanged t (if is_empty db o then touch t a else t) a o _
                (touched t a (is_empty db o)) e (add_zero _ x (is_zero_lem x z)))
          | inr n ↦ rw n (
              journaled-ledger db t a (balance_change a o.data_of.balance)
                (set_balance (o.data_of.balance +ℤ x) o) h)
        ]

  pub sub_balance-ledger :
      (s : StateDb) (a : Address) (x : ℤ)
      → ledger db (sub_balance db s a x) ≡ change (ledger db s) a (debit x)
  unfolding sub_balance set_balance
  sub_balance-ledger s a x =
      by_object db s a (debit x) (λ t o. object_sub_balance db t a o x)
        λ t o h e. elim (Bool-cases (is_zero x)) [
          | inl z ↦ rw z (unchanged t t a o _ refl e (sub_zero _ x (is_zero_lem x z)))
          | inr n ↦ rw n (
              journaled-ledger db t a (balance_change a o.data_of.balance)
                (set_balance (o.data_of.balance -ℤ x) o) h)
        ]
