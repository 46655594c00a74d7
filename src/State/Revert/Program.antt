-- ===== src/State/Revert/Program.antt =====
-- core/state/statedb.go, Snapshot and RevertToSnapshot, under the nesting that the calls of the
-- virtual machine give them.
use zond.Prelude.{ℕ, ◌≡◌, subst, Bool, true, false, Option, some, List, bind}
use zond.Prelude.Int.{ℤ}
use zond.State.Account.{Address, Hash, Code, Backend}
use zond.State.Db.{StateDb, snapshot, revert_to_snapshot}
use zond.State.Ops
use zond.State.Revert.{IsValidDb, Undoes}
use zond.State.Revert.Setters
use zond.State.Revert.Contents
use zond.State.Revert.Accounts
use zond.State.Revert.Others
use zond.State.Revert.Listing

-- The journaled writes. SetOTSBitfield is not among them, since its revert does not restore a bit
-- that was set before.
pub data Write : Type 0 where
  add_balance : Address → ℤ → Write
  sub_balance : Address → ℤ → Write
  set_balance : Address → ℤ → Write
  set_stake_balance : Address → ℤ → Write
  set_pending_stake_balance : Address → ℤ → Write
  set_nonce : Address → ℕ → Write
  set_code : Address → Hash → Code → Write
  set_state : Address → Hash → Hash → Write
  suicide : Address → Write
  create_account : Address → Write
  add_refund : ℕ → Write
  sub_refund : ℕ → Write
  add_log : List ℕ → Write
  add_preimage : Hash → List ℕ → Write
  add_address_to_access_list : Address → Write
  add_slot_to_access_list : Address → Hash → Write

-- A run of the database: writes, and calls that take a snapshot and go back to it if they fail.
pub data Program : Type 0 where
  done : Program
  write : Write → Program → Program
  call : Program → Bool → Program → Program

module _ (db : Backend) where
  unfoldable pub exec : Write → StateDb → Option StateDb
  exec (add_balance a x) s = some (Ops.add_balance db s a x)
  exec (sub_balance a x) s = some (Ops.sub_balance db s a x)
  exec (set_balance a x) s = some (Ops.set_balance_op db s a x)
  exec (set_stake_balance a x) s = some (Ops.set_stake_balance_op db s a x)
  exec (set_pending_stake_balance a x) s = some (Ops.set_pending_stake_balance_op db s a x)
  exec (set_nonce a n) s = some (Ops.set_nonce_op db s a n)
  exec (set_code a h c) s = some (Ops.set_code_op db s a h c)
  exec (set_state a k v) s = some (Ops.set_state_op db s a k v)
  exec (suicide a) s = some (Ops.suicide db s a).0
  exec (create_account a) s = some (Ops.create_account db s a)
  exec (add_refund n) s = some (Ops.add_refund s n)
  exec (sub_refund n) s = Ops.sub_refund s n
  exec (add_log b) s = some (Ops.add_log s b)
  exec (add_preimage h b) s = some (Ops.add_preimage s h b)
  exec (add_address_to_access_list a) s = some (Ops.add_address_to_access_list s a)
  exec (add_slot_to_access_list a k) s = Ops.add_slot_to_access_list s a k

  unfoldable pub leave : Bool → ℕ → StateDb → Option StateDb
  leave true id s = revert_to_snapshot db s id
  leave false id s = some s

  unfoldable pub run : Program → StateDb → Option StateDb
  unfolding exec leave
  run done s = some s
  run (write w p) s = bind (exec w s) (run p)
  run (call p failed q) s =
      let (id, t) = snapshot db s in bind (bind (run p t) (leave failed id)) (run q)

  pub unsome {ℓ} : {A : Type ℓ} {x y : A} → some x ≡ some y → x ≡ y
  unsome e = cc

  -- On a valid database, a journaled write other than SetOTSBitfield that does not panic appends
  -- entries to the journal, keeps the revisions and the validity, and its entries, reverted from
  -- the last to the first on any database that reads like the result, do not panic and give one
  -- that reads like the start.
  pub exec-Undoes :
      (w : Write) (s s' : StateDb) → IsValidDb db s → exec w s ≡ some s' → Undoes db s s'
  unfolding exec
  exec-Undoes (add_balance a x) s s' v h =
      subst (Undoes db s) (unsome h) (Setters.add_balance-Undoes db s a x v)
  exec-Undoes (sub_balance a x) s s' v h =
      subst (Undoes db s) (unsome h) (Setters.sub_balance-Undoes db s a x v)
  exec-Undoes (set_balance a x) s s' v h =
      subst (Undoes db s) (unsome h) (Setters.set_balance-Undoes db s a x v)
  exec-Undoes (set_stake_balance a x) s s' v h =
      subst (Undoes db s) (unsome h) (Setters.set_stake_balance-Undoes db s a x v)
  exec-Undoes (set_pending_stake_balance a x) s s' v h =
      subst (Undoes db s) (unsome h) (Setters.set_pending_stake_balance-Undoes db s a x v)
  exec-Undoes (set_nonce a n) s s' v h =
      subst (Undoes db s) (unsome h) (Setters.set_nonce-Undoes db s a n v)
  exec-Undoes (set_code a g c) s s' v h =
      subst (Undoes db s) (unsome h) (Contents.set_code-Undoes db s a g c v)
  exec-Undoes (set_state a k x) s s' v h =
      subst (Undoes db s) (unsome h) (Contents.set_state-Undoes db s a k x v)
  exec-Undoes (suicide a) s s' v h =
      subst (Undoes db s) (unsome h) (Contents.suicide-Undoes db s a v)
  exec-Undoes (create_account a) s s' v h =
      subst (Undoes db s) (unsome h) (Accounts.create_account-Undoes db s a v)
  exec-Undoes (add_refund n) s s' v h =
      subst (Undoes db s) (unsome h) (Others.add_refund-Undoes db s n v)
  exec-Undoes (sub_refund n) s s' v h = Others.sub_refund-Undoes db s s' n v h
  exec-Undoes (add_log b) s s' v h = subst (Undoes db s) (unsome h) (Others.add_log-Undoes db s b v)
  exec-Undoes (add_preimage g b) s s' v h =
      subst (Undoes db s) (unsome h) (Others.add_preimage-Undoes db s g b v)
  exec-Undoes (add_address_to_access_list a) s s' v h =
      subst (Undoes db s) (unsome h) (Listing.add_address-Undoes db s a v)
  exec-Undoes (add_slot_to_access_list a k) s s' v h = Listing.add_slot-Undoes db s s' a k v h
