-- ===== src/State/Revert/Setters.antt =====
-- core/state/statedb.go, the setters of an account, and stateObject's methods that they call.
use zond.Prelude.{ℕ, ◌≡◌, refl, sym, ◌∙◌, Bool, some, Bool-cases, inl, inr}
use zond.Prelude.Int.{ℤ, is_zero, ◌+ℤ◌, ◌-ℤ◌}
use zond.State.Account.{
  Address, Hash, Backend, StateObject, is_empty, code_of, get_state, get_committed_state,
  set_balance, set_stake_balance, set_pending_stake_balance, set_nonce,
}
use zond.State.Db.{
  StateDb, Entry, balance_change, stake_balance_change, pending_stake_balance_change, nonce_change,
  revert_entry, on_object,
}
use zond.State.Ops.{
  journaled, get_or_new_state_object, set_balance_op, add_balance, sub_balance,
  set_stake_balance_op, set_pending_stake_balance_op, set_nonce_op,
}
use zond.State.Revert.{destructed, ObjSame, IsValidDb, Undoes, Undoes-trans}
use zond.State.Revert.Objects.{journaled-Undoes}
use zond.State.Revert.Others.{touch-Undoes}
use zond.State.Revert.Accounts.{Obtained, get_or_new_lem}

module _ (db : Backend) where
  -- A change of the account that neither its code nor its storage depends on.
  record IsHarmless (f : StateObject → StateObject) : Type 0 where
    address_kept : (o : StateObject) → (f o).address ≡ o.address
    code_kept : (o : StateObject) → code_of db (f o) ≡ code_of db o
    state_kept :
        (d : Bool) (o : StateObject) (k : Hash) → get_state db d (f o) k ≡ get_state db d o k
    committed_kept :
        (d : Bool) (o : StateObject) (k : Hash)
        → get_committed_state db d (f o) k ≡ get_committed_state db d o k
    suicided_kept : (o : StateObject) → (f o).suicided ≡ o.suicided
    deleted_kept : (o : StateObject) → (f o).deleted ≡ o.deleted

  set_balance-IsHarmless : (x : ℤ) → IsHarmless (set_balance x)
  unfolding set_balance code_of get_state
  set_balance-IsHarmless x = record {
    address_kept = λ o. refl;
    code_kept = λ o. refl;
    state_kept = λ d o k. refl;
    committed_kept = λ d o k. refl;
    suicided_kept = λ o. refl;
    deleted_kept = λ o. refl;
  }

  set_stake_balance-IsHarmless : (x : ℤ) → IsHarmless (set_stake_balance x)
  unfolding set_stake_balance code_of get_state
  set_stake_balance-IsHarmless x = record {
    address_kept = λ o. refl;
    code_kept = λ o. refl;
    state_kept = λ d o k. refl;
    committed_kept = λ d o k. refl;
    suicided_kept = λ o. refl;
    deleted_kept = λ o. refl;
  }

  set_pending_stake_balance-IsHarmless : (x : ℤ) → IsHarmless (set_pending_stake_balance x)
  unfolding set_pending_stake_balance code_of get_state
  set_pending_stake_balance-IsHarmless x = record {
    address_kept = λ o. refl;
    code_kept = λ o. refl;
    state_kept = λ d o k. refl;
    committed_kept = λ d o k. refl;
    suicided_kept = λ o. refl;
    deleted_kept = λ o. refl;
  }

  set_nonce-IsHarmless : (n : ℕ) → IsHarmless (set_nonce n)
  unfolding set_nonce code_of get_state
  set_nonce-IsHarmless n = record {
    address_kept = λ o. refl;
    code_kept = λ o. refl;
    state_kept = λ d o k. refl;
    committed_kept = λ d o k. refl;
    suicided_kept = λ o. refl;
    deleted_kept = λ o. refl;
  }

  -- A harmless change `g` gives back what a harmless change `f` took, if it restores the account.
  restore_data :
      (d : Bool) (o p : StateObject) {f g : StateObject → StateObject}
      → IsHarmless f
      → IsHarmless g
      → ((f o).data_of ≡ p.data_of → o.data_of ≡ (g p).data_of)
      → ObjSame db d (f o) p
      → ObjSame db d o (g p)
  restore_data d o p f g given h = record {
    address_eq = sym (f.address_kept o) ∙ h.address_eq ∙ sym (g.address_kept p);
    data_eq = given h.data_eq;
    code_eq = sym (f.code_kept o) ∙ h.code_eq ∙ sym (g.code_kept p);
    state_eq = λ k. sym (f.state_kept d o k) ∙ h.state_eq k ∙ sym (g.state_kept d p k);
    committed_eq =
        λ k. sym (f.committed_kept d o k) ∙ h.committed_eq k ∙ sym (g.committed_kept d p k);
    suicided_eq = sym (f.suicided_kept o) ∙ h.suicided_eq ∙ sym (g.suicided_kept p);
    deleted_eq = sym (f.deleted_kept o) ∙ h.deleted_eq ∙ sym (g.deleted_kept p);
  }

  -- The journaled write of a harmless change
  write_data :
      (s : StateDb) (a : Address) (o : StateObject) (t : StateDb) (e : Entry)
      {f g : StateObject → StateObject}
      → Obtained db s a o t
      → IsHarmless f
      → IsHarmless g
      → ((t u : StateDb) → on_object db t a g ≡ some u → revert_entry db e t ≡ some u)
      → ((p : StateObject) → (f o).data_of ≡ p.data_of → o.data_of ≡ (g p).data_of)
      → Undoes db s (journaled t a e (f o))
  write_data s a o t e {f} {g} ob hf hg rev given = Undoes-trans db ob.step (
      journaled-Undoes db t a o (f o) e g ob.step.valid ob.seen (hf.address_kept o ∙ ob.addr)
        (hf.deleted_kept o ∙ ob.alive) rev
        (λ p h. restore_data (destructed db t a) o p hf hg (given p) h))

  pub set_balance-Undoes :
      (s : StateDb) (a : Address) (amount : ℤ)
      → IsValidDb db s
      → Undoes db s (set_balance_op db s a amount)
  unfolding set_balance_op revert_entry set_balance
  set_balance-Undoes s a amount v =
      let ob = get_or_new_lem db s a v in
      let o = (get_or_new_state_object db s a).0 in
      write_data s a o _ (balance_change a o.data_of.balance) ob (set_balance-IsHarmless amount)
        (set_balance-IsHarmless o.data_of.balance) (λ t u h. h)
        (λ p h. λ i. record (h i) { balance = o.data_of.balance })

  pub set_stake_balance-Undoes :
      (s : StateDb) (a : Address) (amount : ℤ)
      → IsValidDb db s
      → Undoes db s (set_stake_balance_op db s a amount)
  unfolding set_stake_balance_op revert_entry set_stake_balance
  set_stake_balance-Undoes s a amount v =
      let ob = get_or_new_lem db s a v in
      let o = (get_or_new_state_object db s a).0 in
      write_data s a o _ (stake_balance_change a o.data_of.stake_balance) ob
        (set_stake_balance-IsHarmless amount) (set_stake_balance-IsHarmless o.data_of.stake_balance)
        (λ t u h. h) (λ p h. λ i. record (h i) { stake_balance = o.data_of.stake_balance })

  pub set_pending_stake_balance-Undoes :
      (s : StateDb) (a : Address) (amount : ℤ)
      → IsValidDb db s
      → Undoes db s (set_pending_stake_balance_op db s a amount)
  unfolding set_pending_stake_balance_op revert_entry set_pending_stake_balance
  set_pending_stake_balance-Undoes s a amount v =
      let ob = get_or_new_lem db s a v in
      let o = (get_or_new_state_object db s a).0 in
      write_data s a o _ (pending_stake_balance_change a o.data_of.pending_stake_balance) ob
        (set_pending_stake_balance-IsHarmless amount)
        (set_pending_stake_balance-IsHarmless o.data_of.pending_stake_balance) (λ t u h. h)
        (λ p h. λ i. record (h i) { pending_stake_balance = o.data_of.pending_stake_balance })

  pub set_nonce-Undoes :
      (s : StateDb) (a : Address) (n : ℕ) → IsValidDb db s → Undoes db s (set_nonce_op db s a n)
  unfolding set_nonce_op revert_entry set_nonce
  set_nonce-Undoes s a n v =
      let ob = get_or_new_lem db s a v in
      let o = (get_or_new_state_object db s a).0 in
      write_data s a o _ (nonce_change a o.data_of.nonce) ob (set_nonce-IsHarmless n)
        (set_nonce-IsHarmless o.data_of.nonce) (λ t u h. h)
        (λ p h. λ i. record (h i) { nonce = o.data_of.nonce })

  -- AddBalance of zero touches an empty account and writes nothing.
  pub add_balance-Undoes :
      (s : StateDb) (a : Address) (amount : ℤ)
      → IsValidDb db s
      → Undoes db s (add_balance db s a amount)
  unfolding add_balance revert_entry set_balance
  add_balance-Undoes s a amount v = elim (Bool-cases (is_zero amount)) [
    | inl z ↦ elim (Bool-cases (is_empty db o)) [
      | inl e ↦ rw z (rw e (Undoes-trans db ob.step (touch-Undoes db t a ob.step.valid)))
      | inr e ↦ rw z (rw e ob.step)
    ]
    | inr z ↦ rw z (
        write_data s a o t (balance_change a o.data_of.balance) ob
          (set_balance-IsHarmless (o.data_of.balance +ℤ amount))
          (set_balance-IsHarmless o.data_of.balance) (λ t u h. h)
          (λ p h. λ i. record (h i) { balance = o.data_of.balance }))
  ]
    where
      o : StateObject
      o = (get_or_new_state_object db s a).0

      t : StateDb
      t = (get_or_new_state_object db s a).1

      ob : Obtained db s a o t
      ob = get_or_new_lem db s a v

  pub sub_balance-Undoes :
      (s : StateDb) (a : Address) (amount : ℤ)
      → IsValidDb db s
      → Undoes db s (sub_balance db s a amount)
  unfolding sub_balance revert_entry set_balance
  sub_balance-Undoes s a amount v = elim (Bool-cases (is_zero amount)) [
    | inl z ↦ rw z ob.step
    | inr z ↦ rw z (
        write_data s a o t (balance_change a o.data_of.balance) ob
          (set_balance-IsHarmless (o.data_of.balance -ℤ amount))
          (set_balance-IsHarmless o.data_of.balance) (λ t u h. h)
          (λ p h. λ i. record (h i) { balance = o.data_of.balance }))
  ]
    where
      o : StateObject
      o = (get_or_new_state_object db s a).0

      t : StateDb
      t = (get_or_new_state_object db s a).1

      ob : Obtained db s a o t
      ob = get_or_new_lem db s a v
