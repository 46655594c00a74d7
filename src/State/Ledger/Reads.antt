-- ===== src/State/Ledger/Reads.antt =====
-- core/state/statedb.go: the getters of an account answer with the ledger's entry, and leave the ledger.
use zond.Prelude.{◌≡◌, refl, ap, ◌∙◌, Option, none, some}
use zond.State.Account.{Address, Backend, StateObject}
use zond.State.Db.{StateDb, get_state_object}
use zond.State.Read.{value_or, get_nonce, get_balance, get_stake_balance, get_pending_stake_balance}
use zond.State.Revert.Cache.{get_state_object_lem}
use zond.State.Ledger.{Holding, held, ledger, Cached-ledger}

module _ (db : Backend) (s : StateDb) (a : Address) where
  of_held :
      {A : Type 0} (f : Holding → A) (x : Option StateObject)
      → value_or (f (held none)) (λ o. f (held (some o))) x ≡ f (held x)
  unfolding value_or
  of_held f none = refl
  of_held f (some o) = refl

  -- A getter of a part of the holding
  reads :
      {A : Type 0} (f : Holding → A)
      → (value_or (f (held none)) (λ o. f (held (some o))) (get_state_object db s a).0
          ≡ f (ledger db s a))
        × (ledger db (get_state_object db s a).1 ≡ ledger db s)
  reads f =
      let (answer, c) = get_state_object_lem db s a in
      (of_held f (get_state_object db s a).0 ∙ ap (λ x. f (held x)) answer, Cached-ledger db c)

  pub get_nonce-ledger :
      ((get_nonce db s a).0 ≡ (ledger db s a).nonce)
      × (ledger db (get_nonce db s a).1 ≡ ledger db s)
  unfolding get_nonce
  get_nonce-ledger = reads (λ h. h.nonce)

  pub get_balance-ledger :
      ((get_balance db s a).0 ≡ (ledger db s a).balance)
      × (ledger db (get_balance db s a).1 ≡ ledger db s)
  unfolding get_balance
  get_balance-ledger = reads (λ h. h.balance)

  pub get_stake_balance-ledger :
      ((get_stake_balance db s a).0 ≡ (ledger db s a).stake_balance)
      × (ledger db (get_stake_balance db s a).1 ≡ ledger db s)
  unfolding get_stake_balance
  get_stake_balance-ledger = reads (λ h. h.stake_balance)

  pub get_pending_stake_balance-ledger :
      ((get_pending_stake_balance db s a).0 ≡ (ledger db s a).pending_stake_balance)
      × (ledger db (get_pending_stake_balance db s a).1 ≡ ledger db s)
  unfolding get_pending_stake_balance
  get_pending_stake_balance-ledger = reads (λ h. h.pending_stake_balance)
