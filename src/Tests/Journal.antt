-- ===== src/Tests/Journal.antt =====
-- core/state: a small database, and a run on it with a call that fails.
use zond.Prelude.{◌+◌, ◌≡◌, refl, true, false, none, some, [], ◌∷◌, ◌==◌, if◌then◌else◌, arith}
use zond.Prelude.Int.{pos}
use zond.State.Account.{Address, Read, RawAccount, found, missing, failed, Backend, Code}
use zond.State.AccessList.{new_access_list}
use zond.State.Db.{StateDb}
use zond.State.Db
use zond.State.AccessList
use zond.State.Account
use zond.State.Ops
use zond.State.Revert.{IsValidDb, Undoes}
use zond.State.Revert.Tidy.{IsTidy, undo-IsTidy}
use zond.State.Revert.Program.{Program, Write}
use zond.State.Revert.Program
use zond.State.Revert.Nested.{Restored, run-Restored}

-- One account, at address 7, with two slots and no snapshot
abbrev trie_account : Address → Read RawAccount
trie_account a =
    if a == 7
    then found (record {
      nonce = 3;
      balance = some (pos 100);
      stake_balance = none;
      pending_stake_balance = none;
      root = 11;
      code_hash = some 20;
      ots_bitfield = [];
    })
    else missing

abbrev pub backend : Backend
backend = record {
  snap = none;
  account = trie_account;
  slot = λ a root key. if root == 11 then key + 40 else 0;
  contract_code = λ h. if h == 20 then some (96 ∷ []) else none;
  empty_code_hash = 1;
  empty_root = 2;
  max_ots_size = λ a. 16;
}

abbrev pub start : StateDb
start = record {
  objects = λ a. none;
  objects_dirty = λ a. false;
  objects_pending = λ a. false;
  snap_destructs = λ a. false;
  db_err = false;
  refund = 0;
  thash = 5;
  tx_index = 1;
  logs = λ h. [];
  log_size = 0;
  preimages = λ h. none;
  access_list = new_access_list;
  entries = [];
  dirties = λ a. 0;
  valid_revisions = [];
  next_revision_id = 0;
}

start-IsValidDb : IsValidDb backend start
start-IsValidDb = record { keyed = λ a o e. cc; slots_full = tt; log_size_lt = omega arith }

abbrev inner : Program
inner = Program.write (Write.set_state 7 1 9) (Program.write (Write.suicide 7) Program.done)

abbrev outer : Program
outer = Program.write (Write.add_balance 7 (pos 5)) (
    Program.call inner true (
      Program.write (Write.add_slot_to_access_list 7 4)
        (Program.write (Write.add_log (1 ∷ [])) Program.done)))

abbrev after : StateDb
after = elim (Program.run backend outer (Db.snapshot backend start).1) [ none ↦ start | some t ↦ t ]

after-run : Program.run backend outer (Db.snapshot backend start).1 ≡ some after
unfolding Program.run Program.exec Program.leave Db.snapshot Ops.add_balance
    Ops.get_or_new_state_object Ops.obtain Db.get_state_object Db.get_deleted_state_object Db.live
    Db.load_object Db.read_account Db.set_state_object Account.new_object Ops.journaled Db.append
    Account.is_empty Db.revert_to_snapshot Db.find_revision Db.revert_journal Db.undo Db.undo_entry
    Db.revert_entry Ops.set_state_op Account.get_state Account.get_committed_state
    Account.cache_state Account.cache_committed Ops.suicide Ops.suicide_of Ops.add_log
    Ops.add_slot_to_access_list AccessList.add_slot Db.on_object Db.if_object Db.put_if
    Account.set_balance Account.set_state AccessList.has_slot
after-run = refl

run-Restored_example : Restored backend start after
run-Restored_example = run-Restored backend outer start after start-IsValidDb tt after-run

abbrev nonce_set : StateDb
nonce_set = Ops.set_nonce_op backend start 7 4

exec-Undoes_example : Undoes backend start nonce_set
unfolding Program.exec
exec-Undoes_example =
    Program.exec-Undoes backend (Write.set_nonce 7 4) start nonce_set start-IsValidDb refl

abbrev slot_added : StateDb
slot_added = elim (Ops.add_slot_to_access_list start 7 4) [ none ↦ start | some t ↦ t ]

slot_added_ok : Ops.add_slot_to_access_list start 7 4 ≡ some slot_added
unfolding Ops.add_slot_to_access_list AccessList.add_slot Db.append
slot_added_ok = refl

undo_all_ok :
    Db.undo backend (Db.Entry.nonce_change 7 2 ∷ []) start
    ≡ some (elim (Db.undo backend (Db.Entry.nonce_change 7 2 ∷ []) start) [
      | none ↦ start
      | some t ↦ t
    ])
unfolding Db.undo Db.undo_entry Db.revert_entry Db.on_object Db.get_state_object
    Db.get_deleted_state_object Db.live Db.load_object Db.read_account Db.set_state_object
    Account.new_object
undo_all_ok = refl

undo-IsTidy_example :
    IsTidy backend start
      (elim (Db.undo backend (Db.Entry.nonce_change 7 2 ∷ []) start) [ none ↦ start | some t ↦ t ])
undo-IsTidy_example = undo-IsTidy backend (Db.Entry.nonce_change 7 2 ∷ []) start _ undo_all_ok

-- Two addresses with slots
abbrev warm : AccessList.AccessList
warm = record {
  addresses = λ a. if a == 7 then some (some 0) else if a == 8 then some (some 1) else none;
  slots = (4 ∷ []) ∷ (5 ∷ []) ∷ [];
}
