-- ===== src/State/Finalise.antt =====
-- core/state/statedb.go, Finalise and what it calls. The loop over the dirty addresses of the journal
-- treats each by itself, so the maps are given address by address. The prefetcher and the snapshot's
-- pending writes are left out.
use zond.Prelude.{
  ◌≡◌, ◌≢◌, refl, ap, ◌∙◌, Bool, true, false, ◌&&◌, ◌||◌, Option, none, some, List, [], ◌∷◌, ◌==◌,
  if◌then◌else◌, arith,
}
use zond.State.Account.{
  Address, Hash, Backend, StateObject, no_storage, is_empty, get_state, get_committed_state,
}
use zond.State.Db.{Entry, StateDb, has_snap, get_state_object, get_deleted_state_object, live}
use mathlib.Core.Option

-- the pending slot after the loop over the dirty storage
abbrev flushed : Option Hash → Option Hash → Option Hash
flushed none pending = pending
flushed (some v) pending = some v

-- stateObject.finalise
unfoldable pub finalise_object : StateObject → StateObject
finalise_object o = record o {
  pending_storage = λ k. flushed (o.dirty_storage k) (o.pending_storage k);
  dirty_storage = no_storage;
}

-- clearJournalAndRefund on the journal's entries
unfoldable pub cleared : List Entry → StateDb → StateDb
cleared [] s = record s { valid_revisions = [] }
cleared (e ∷ es) s = record s { entries = []; dirties = λ a. 0; refund = 0; valid_revisions = [] }

unfoldable pub clear_journal_and_refund : StateDb → StateDb
unfolding cleared
clear_journal_and_refund s = cleared s.entries s

module _ (db : Backend) (delete_empty_objects : Bool) where
  -- obj.suicided || (deleteEmptyObjects && obj.empty())
  unfoldable pub is_removed : StateObject → Bool
  unfolding is_empty
  is_removed o = o.suicided || (delete_empty_objects && is_empty db o)

  unfoldable pub settle : StateObject → StateObject
  unfolding finalise_object
  settle o = if is_removed o then record o { deleted = true } else finalise_object o

  -- whether the address is dirty and has an object
  unfoldable pub is_visited : StateDb → Address → Bool
  is_visited s a = elim (s.objects a) [
    | none ↦ false
    | some o ↦ if s.dirties a == 0 then false else true
  ]

  -- whether the address is visited and its object removed
  unfoldable pub is_destroyed : StateDb → Address → Bool
  unfolding is_visited is_removed
  is_destroyed s a = elim (s.objects a) [ none ↦ false | some o ↦ is_visited s a && is_removed o ]

  -- the loop over the journal's dirties
  unfoldable pub visited : StateDb → StateDb
  unfolding settle is_visited is_destroyed
  visited s = record s {
    objects = λ a. if is_visited s a then Option.map settle (s.objects a) else s.objects a;
    snap_destructs = λ a. (has_snap db && is_destroyed s a) || s.snap_destructs a;
    objects_pending = λ a. is_visited s a || s.objects_pending a;
    objects_dirty = λ a. is_visited s a || s.objects_dirty a;
  }

  unfoldable pub finalise : StateDb → StateDb
  unfolding visited clear_journal_and_refund
  finalise s = clear_journal_and_refund (visited s)

  -- clearJournalAndRefund leaves the objects, and no revision.
  cleared_objects : (es : List Entry) (s : StateDb) → (cleared es s).objects ≡ s.objects
  unfolding cleared
  cleared_objects [] s = refl
  cleared_objects (e ∷ es) s = refl

  cleared_revisions : (es : List Entry) (s : StateDb) → (cleared es s).valid_revisions ≡ []
  unfolding cleared
  cleared_revisions [] s = refl
  cleared_revisions (e ∷ es) s = refl

  cleared_entries : (es : List Entry) (s : StateDb) → s.entries ≡ es → (cleared es s).entries ≡ []
  unfolding cleared
  cleared_entries [] s h = h
  cleared_entries (e ∷ es) s h = refl

  visit_lem :
      (s : StateDb) (a : Address) (o : StateObject)
      → s.objects a ≡ some o
      → s.dirties a ≢ 0
      → is_visited s a ≡ true
  unfolding is_visited
  visit_lem s a o e n = rw (e, is_visited) (ground arith)

  settled :
      (s : StateDb) (a : Address) (o : StateObject)
      → s.objects a ≡ some o
      → s.dirties a ≢ 0
      → (finalise s).objects a ≡ some (settle o)
  unfolding finalise clear_journal_and_refund visited
  settled s a o e n =
      ap (λ (m : Address → Option StateObject). m a) (cleared_objects s.entries (visited s))
      ∙ ap (λ b. if b then Option.map settle (s.objects a) else s.objects a) (visit_lem s a o e n)
      ∙ ap (Option.map settle) e

  -- The slot of an object that is flushed reads as before, and so does the committed one.
  flushed_reads :
      (d : Bool) (o : StateObject) (k : Hash) (x : Option Hash)
      → o.dirty_storage k ≡ x
      → (get_state db d (finalise_object o) k ≡ get_state db d o k)
        × (get_committed_state db d (finalise_object o) k ≡ get_state db d o k)
  unfolding finalise_object get_state get_committed_state
  flushed_reads d o k none h = rw (h, get_state, get_committed_state) (refl, refl)
  flushed_reads d o k (some v) h = rw (h, get_state, get_committed_state) (refl, refl)

  -- After Finalise of a database in which a live object's address is dirty in the journal, the
  -- journal and the revisions are empty; if the object was to be removed (suicided, or empty
  -- where empty objects are deleted) its address has no object any more, and otherwise its
  -- account and deletion flag are kept and every slot reads as before, as the current and as the
  -- committed value.
  pub finalise_lem :
      (s : StateDb) (a : Address) (o : StateObject)
      → s.objects a ≡ some o
      → s.dirties a ≢ 0
      → ((finalise s).entries ≡ [])
        × ((finalise s).valid_revisions ≡ [])
        × (is_removed o ≡ true → (get_state_object db (finalise s) a).0 ≡ none)
        × (is_removed o ≡ false
            → (p : StateObject) × ((finalise s).objects a ≡ some p)
              × (p.data_of ≡ o.data_of)
              × (p.deleted ≡ o.deleted)
              × ((d : Bool) (k : Hash)
                  → (get_state db d p k ≡ get_state db d o k)
                    × (get_committed_state db d p k ≡ get_state db d o k)))
  unfolding finalise clear_journal_and_refund visited get_state_object live
  finalise_lem s a o e n = (
    cleared_entries s.entries (visited s) refl,
    cleared_revisions s.entries (visited s),
    λ r. gone r,
    λ r. (
      finalise_object o,
      settled s a o e n ∙ ap some (stays r),
      unfold finalise_object in refl,
      unfold finalise_object in refl,
      λ d k. flushed_reads d o k (o.dirty_storage k) refl,
    ),
  )
    where
      stays : is_removed o ≡ false → settle o ≡ finalise_object o
      stays r = unfold settle in rw r refl

      gone : is_removed o ≡ true → (get_state_object db (finalise s) a).0 ≡ none
      gone r =
          ap (λ x. live db x)
            (found_object (finalise s) (record o { deleted = true })
              (settled s a o e n ∙ ap some (unfold settle in rw r refl)))
          ∙ (unfold live in refl)
        where
          found_object :
              (t : StateDb) (p : StateObject)
              → t.objects a ≡ some p
              → (get_deleted_state_object db t a).0 ≡ some p
          found_object t p h =
              unfold get_deleted_state_object in rw (h, get_deleted_state_object) refl
