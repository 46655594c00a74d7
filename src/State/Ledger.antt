-- ===== src/State/Ledger.antt =====
-- core/state/statedb.go: the database as a ledger, which gives each address its nonce and balances.
-- `Writes.antt` has the operations on accounts as changes of one entry.
pub mod Writes
pub mod Reads
use zond.Prelude.{
  ℕ, ◌≡◌, ◌≢◌, refl, sym, ap, subst, fun_ext, ◌∙◌, Bool, true, false, Option, none, some,
  Bool-cases, inl, inr, arith,
}
use zond.Prelude.Int.{ℤ, pos, is_zero, is_zero_lem, ◌+ℤ◌, ◌-ℤ◌, int_laws}
use zond.Prelude.Maps.{update, update_self, update_ne, update_same}
use zond.State.Account.{
  Address, Backend, StateObject, zero_account, new_object, is_empty, set_balance, set_stake_balance,
  set_pending_stake_balance, set_nonce,
}
use zond.State.Db.{
  StateDb, Entry, append, put_object, get_state_object, get_deleted_state_object, live,
}
use zond.State.Ops.{
  touch, journaled, create_over, create_object, obtain, get_or_new_state_object, set_balance_op,
  add_balance, sub_balance, set_stake_balance_op, set_pending_stake_balance_op, set_nonce_op,
}
use zond.State.Revert.{view, or_loaded}
use zond.State.Revert.Cache.{
  Cached, get_deleted_lem, get_state_object_lem, view_put_self, view_put_ne,
}
use zond.State.Revert.Accounts.{live-some}
use native.Mathlib.Decide.{ℕ_discrete}

-- What an address holds
pub record Holding : Type 0 where
  pub nonce : ℕ
  pub balance : ℤ
  pub stake_balance : ℤ
  pub pending_stake_balance : ℤ

abbrev pub nothing : Holding
nothing = record {
  nonce = 0;
  balance = pos 0;
  stake_balance = pos 0;
  pending_stake_balance = pos 0;
}

abbrev pub held : Option StateObject → Holding
held none = nothing
held (some o) = record {
  nonce = o.data_of.nonce;
  balance = o.data_of.balance;
  stake_balance = o.data_of.stake_balance;
  pending_stake_balance = o.data_of.pending_stake_balance;
}

abbrev pub Ledger : Type 0
Ledger = Address → Holding

-- One entry of the ledger changed
abbrev pub change : Ledger → Address → (Holding → Holding) → Ledger
change l a f = update l a (f (l a))

module _ (db : Backend) where
  abbrev pub ledger : StateDb → Ledger
  ledger s a = held (live db (view db s a))

  pub Cached-ledger : {s t : StateDb} → Cached db s t → ledger t ≡ ledger s
  Cached-ledger c = fun_ext λ a. ap (λ x. held (live db x)) (c.views a)

  live_alive : (o : StateObject) → o.deleted ≡ false → live db (some o) ≡ some o
  unfolding live
  live_alive o h = rw h refl

  pub put-ledger :
      (s : StateDb) (a : Address) (o : StateObject)
      → o.deleted ≡ false
      → ledger (put_object s a o) ≡ update (ledger s) a (held (some o))
  put-ledger s a o h = fun_ext λ b. elim (ℕ_discrete b a) [
    | yes e ↦ rw e (
        ap (λ x. held (live db x)) (view_put_self db s a o)
        ∙ ap held (live_alive o h)
        ∙ sym (update_self (ledger s) a (held (some o))))
    | no n ↦
        ap (λ x. held (live db x)) (view_put_ne db s a b o n)
        ∙ sym (update_ne (ledger s) a b (held (some o)) n)
  ]

  pub journaled-ledger :
      (s : StateDb) (a : Address) (e : Entry) (o : StateObject)
      → o.deleted ≡ false
      → ledger (journaled s a e o) ≡ update (ledger s) a (held (some o))
  unfolding journaled append
  journaled-ledger s a e o h = put-ledger s a o h

  create_over-ledger :
      (s : StateDb) (a : Address) (x : Option StateObject)
      → (view db (create_over db s a x) a ≡ some (new_object db a zero_account))
        × (ledger (create_over db s a x) ≡ update (ledger s) a nothing)
  unfolding create_over append new_object
  create_over-ledger s a none = (
    view_put_self db s a (new_object db a zero_account),
    put-ledger s a (new_object db a zero_account) refl,
  )
  create_over-ledger s a (some p) = (
    view_put_self db s a (new_object db a zero_account),
    put-ledger s a (new_object db a zero_account) refl,
  )

  -- GetOrNewStateObject answers with the live object of the address and leaves the ledger as it is.
  pub record Got (s : StateDb) (a : Address) (o : StateObject) (t : StateDb) : Type 0 where
    pub seen : view db t a ≡ some o
    pub alive : o.deleted ≡ false
    pub same : ledger t ≡ ledger s

  obtain_lem :
      (s : StateDb) (a : Address) (x : Option StateObject)
      → live db (view db s a) ≡ x
      → Got s a (obtain db s a x).0 (obtain db s a x).1
  unfolding obtain create_object new_object
  obtain_lem s a none h =
      let (answer, c) = get_deleted_lem db s a in
      let (d, t) = get_deleted_state_object db s a in
      let (seen, same) = create_over-ledger t a d in
      record {
        seen = seen;
        alive = refl;
        same =
            same
            ∙ ap (λ l. update l a nothing) (Cached-ledger c)
            ∙ update_same (ledger s) a nothing (ap held h);
      }
  obtain_lem s a (some o) h =
      let (seen, alive) = live-some db (view db s a) o h in
      record { seen = seen; alive = alive; same = refl }

  pub got :
      (s : StateDb) (a : Address)
      → Got s a (get_or_new_state_object db s a).0 (get_or_new_state_object db s a).1
  unfolding get_or_new_state_object
  got s a =
      let (answer, c) = get_state_object_lem db s a in
      let (x, t) = get_state_object db s a in
      let g = obtain_lem t a x (ap (live db) (c.views a) ∙ sym answer) in
      record { seen = g.seen; alive = g.alive; same = g.same ∙ Cached-ledger c }

  -- A method of the object that GetOrNewStateObject answers with changes the ledger as `f` says, if it
  -- does so on every live object.
  pub by_object :
      (s : StateDb) (a : Address) (f : Holding → Holding) (method : StateDb → StateObject → StateDb)
      → ((t : StateDb) (o : StateObject)
          → o.deleted ≡ false
          → ledger t a ≡ held (some o)
          → ledger (method t o) ≡ update (ledger t) a (f (held (some o))))
      → ledger (method (get_or_new_state_object db s a).1 (get_or_new_state_object db s a).0)
        ≡ change (ledger s) a f
  by_object s a f method h =
      let (o, t) = get_or_new_state_object db s a in
      let g = got s a in
      let here : ledger t a ≡ held (some o) =
        ap (λ x. held (live db x)) g.seen ∙ ap held (live_alive o g.alive) in
      h t o g.alive here
      ∙ ap (λ x. update (ledger t) a (f x)) (sym here)
      ∙ ap (λ l. change l a f) g.same
