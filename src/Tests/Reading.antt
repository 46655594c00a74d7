-- ===== src/Tests/Reading.antt =====
-- core/state/statedb.go: Finalise on the database of Tests/Journal.
use zond.Prelude.{◌≡◌, ◌≢◌, refl, Bool, true, false, none, some, [], arith}
use zond.State.Account.{StateObject, get_state, get_committed_state, Hash}
use zond.State.Account
use zond.State.Db.{StateDb, get_state_object}
use zond.State.Db
use zond.State.Ops
use zond.State.Finalise.{finalise, is_removed, finalise_lem}
use zond.Tests.Journal.{backend, start}

abbrev written : StateDb
written = Ops.set_state_op backend start 7 1 9

abbrev holder : StateObject
holder = elim (written.objects 7) [
  | none ↦ Account.new_object backend 7 Account.zero_account
  | some o ↦ o
]

holder_found : written.objects 7 ≡ some holder
unfolding Ops.set_state_op Ops.get_or_new_state_object Ops.obtain Db.get_state_object
    Db.get_deleted_state_object Db.live Db.load_object Db.read_account Db.set_state_object
    Account.new_object Ops.journaled Db.append Account.get_state Account.get_committed_state
    Account.cache_state Account.cache_committed Account.set_state
holder_found = refl

holder_dirty : written.dirties 7 ≢ 0
unfolding Ops.set_state_op Ops.get_or_new_state_object Ops.obtain Db.get_state_object
    Db.get_deleted_state_object Db.live Db.load_object Db.read_account Db.set_state_object
    Account.new_object Ops.journaled Db.append Db.dirtied Db.add_dirty Account.get_state
    Account.get_committed_state Account.cache_state Account.cache_committed Account.set_state
holder_dirty e = omega arith

finalise_lem_example :
    ((finalise backend true written).entries ≡ [])
    × ((finalise backend true written).valid_revisions ≡ [])
    × (is_removed backend true holder ≡ true
        → (get_state_object backend (finalise backend true written) 7).0 ≡ none)
    × (is_removed backend true holder ≡ false
        → (p : StateObject) × ((finalise backend true written).objects 7 ≡ some p)
          × (p.data_of ≡ holder.data_of)
          × (p.deleted ≡ holder.deleted)
          × ((d : Bool) (k : Hash)
              → (get_state backend d p k ≡ get_state backend d holder k)
                × (get_committed_state backend d p k ≡ get_state backend d holder k)))
finalise_lem_example = finalise_lem backend true written 7 holder holder_found holder_dirty
