-- ===== src/State/Revert.antt =====
-- core/state: what "the state is restored" means, and steps that the journal can undo.
pub mod Cache
pub mod Objects
pub mod Creation
pub mod Accounts
pub mod Setters
pub mod Contents
pub mod Others
pub mod Listing
pub mod Tidy
pub mod Program
pub mod Nested
use zond.Prelude.{
  ℕ, ◌+◌, ◌<◌, ◌^◌, ◌≡◌, refl, sym, ap, subst, ◌∙◌, Bool, true, false, ◌&&◌, Option, none, some,
  List, [], ◌∷◌, ◌++◌, bind,
}
use zond.State.Account.{
  Address, Hash, Account, Backend, StateObject, Read, RawAccount, found, missing, failed, Code,
  new_object, code_of, get_state, get_committed_state,
}
use zond.State.AccessList.{AccessList}
use zond.State.AccessList.Undo.{IsValid}
use zond.State.Db.{Entry, Log, StateDb, read_account, has_snap, undo, undo_entry}
use mathlib.Core.List.{append-nil, append_assoc}

module _ (db : Backend) where
  -- The object that the account trie or the snapshot gives.
  abbrev pub loaded_from : Address → Read RawAccount → Option StateObject
  loaded_from a (found raw) = some (new_object db a raw)
  loaded_from a missing = none
  loaded_from a failed = none

  abbrev pub loaded : Address → Option StateObject
  loaded a = loaded_from a (read_account db a)

  -- The object of an address, live or yet to be loaded.
  abbrev pub or_loaded : Address → Option StateObject → Option StateObject
  or_loaded a none = loaded a
  or_loaded a (some o) = some o

  abbrev pub view : StateDb → Address → Option StateObject
  view s a = or_loaded a (s.objects a)

  abbrev pub destructed : StateDb → Address → Bool
  destructed s a = has_snap db && s.snap_destructs a

  -- Two objects that no reader tells apart: account, code, storage and flags agree. Caches and the
  -- mark that the code is dirty may differ.
  pub record ObjSame (d : Bool) (o p : StateObject) : Type 0 where
    pub address_eq : o.address ≡ p.address
    pub data_eq : o.data_of ≡ p.data_of
    pub code_eq : code_of db o ≡ code_of db p
    pub state_eq : (k : Hash) → get_state db d o k ≡ get_state db d p k
    pub committed_eq : (k : Hash) → get_committed_state db d o k ≡ get_committed_state db d p k
    pub suicided_eq : o.suicided ≡ p.suicided
    pub deleted_eq : o.deleted ≡ p.deleted

  abbrev pub OptSame : Bool → Option StateObject → Option StateObject → Type 0
  OptSame d none none = Unit {0}
  OptSame d none (some p) = ⊥
  OptSame d (some o) none = ⊥
  OptSame d (some o) (some p) = ObjSame d o p

  -- Two databases that no reader tells apart.
  pub record Same (s t : StateDb) : Type 0 where
    pub objects_eq : (a : Address) → OptSame (destructed s a) (view s a) (view t a)
    pub destructs_eq : s.snap_destructs ≡ t.snap_destructs
    pub refund_eq : s.refund ≡ t.refund
    pub logs_eq : s.logs ≡ t.logs
    pub log_size_eq : s.log_size ≡ t.log_size
    pub preimages_eq : s.preimages ≡ t.preimages
    pub access_list_eq : s.access_list ≡ t.access_list

  pub ObjSame-refl : (d : Bool) (o : StateObject) → ObjSame d o o
  ObjSame-refl d o = record {
    address_eq = refl;
    data_eq = refl;
    code_eq = refl;
    state_eq = λ k. refl;
    committed_eq = λ k. refl;
    suicided_eq = refl;
    deleted_eq = refl;
  }

  pub ObjSame-trans :
      {d : Bool} {o p q : StateObject} → ObjSame d o p → ObjSame d p q → ObjSame d o q
  ObjSame-trans h k = record {
    address_eq = h.address_eq ∙ k.address_eq;
    data_eq = h.data_eq ∙ k.data_eq;
    code_eq = h.code_eq ∙ k.code_eq;
    state_eq = λ x. h.state_eq x ∙ k.state_eq x;
    committed_eq = λ x. h.committed_eq x ∙ k.committed_eq x;
    suicided_eq = h.suicided_eq ∙ k.suicided_eq;
    deleted_eq = h.deleted_eq ∙ k.deleted_eq;
  }

  pub OptSame-refl : (d : Bool) (o : Option StateObject) → OptSame d o o
  OptSame-refl d none = tt
  OptSame-refl d (some o) = ObjSame-refl d o

  OptSame-trans :
      (d : Bool) (o p q : Option StateObject) → OptSame d o p → OptSame d p q → OptSame d o q
  OptSame-trans d none none none h k = tt
  OptSame-trans d none none (some q) h k = elim k [ ]
  OptSame-trans d none (some p) q h k = elim h [ ]
  OptSame-trans d (some o) none q h k = elim h [ ]
  OptSame-trans d (some o) (some p) none h k = elim k [ ]
  OptSame-trans d (some o) (some p) (some q) h k = ObjSame-trans h k

  pub Same-trans : {s t u : StateDb} → Same s t → Same t u → Same s u
  Same-trans {s} {t} {u} h k = record {
    objects_eq = λ a.
        OptSame-trans (destructed s a) (view s a) (view t a) (view u a) (h.objects_eq a) (
          subst (λ (m : Address → Bool). OptSame (has_snap db && m a) (view t a) (view u a))
            (sym h.destructs_eq) (k.objects_eq a));
    destructs_eq = h.destructs_eq ∙ k.destructs_eq;
    refund_eq = h.refund_eq ∙ k.refund_eq;
    logs_eq = h.logs_eq ∙ k.logs_eq;
    log_size_eq = h.log_size_eq ∙ k.log_size_eq;
    preimages_eq = h.preimages_eq ∙ k.preimages_eq;
    access_list_eq = h.access_list_eq ∙ k.access_list_eq;
  }

  pub Same-refl : (s : StateDb) → Same s s
  Same-refl s = record {
    objects_eq = λ a. OptSame-refl (destructed s a) (view s a);
    destructs_eq = refl;
    refund_eq = refl;
    logs_eq = refl;
    log_size_eq = refl;
    preimages_eq = refl;
    access_list_eq = refl;
  }

  abbrev pub Keyed : StateDb → Type 0
  Keyed s = (a : Address) (o : StateObject) → s.objects a ≡ some o → o.address ≡ a

  -- Live objects stand under their own address, no slot map is empty, and the log counter fits.
  pub record IsValidDb (s : StateDb) : Type 0 where
    pub keyed : Keyed s
    pub slots_full : IsValid s.access_list
    pub log_size_lt : s.log_size < 2 ^ 64

  -- A step whose journal entries, undone on a database that reads like its result, do not panic and
  -- give one that reads like its start. The step keeps the revisions and the validity.
  pub record Undoes (s s' : StateDb) : Type 0 where
    pub added : List Entry
    pub grown : s'.entries ≡ s.entries ++ added
    pub back : (t : StateDb) → Same s' t → (u : StateDb) × (undo db added t ≡ some u) × Same s u
    pub revisions_eq : s'.valid_revisions ≡ s.valid_revisions
    pub next_eq : s'.next_revision_id ≡ s.next_revision_id
    pub valid : IsValidDb s'

  pub undo-append :
      (es fs : List Entry) (t u : StateDb)
      → undo db fs t ≡ some u
      → undo db (es ++ fs) t ≡ undo db es u
  unfolding undo
  undo-append [] fs t u h = h
  undo-append (e ∷ es) fs t u h = ap (λ r. bind r (undo_entry db e)) (undo-append es fs t u h)

  pub Undoes-trans : {s t u : StateDb} → Undoes s t → Undoes t u → Undoes s u
  Undoes-trans {s} {t} {u} h k = record {
    added = h.added ++ k.added;
    grown = k.grown ∙ ap (λ l. l ++ k.added) h.grown ∙ append_assoc s.entries h.added k.added;
    back = λ x r.
        let (y, e, same) = k.back x r in
        let (z, e', same') = h.back y same in (z, undo-append h.added k.added x y e ∙ e', same');
    revisions_eq = k.revisions_eq ∙ h.revisions_eq;
    next_eq = k.next_eq ∙ h.next_eq;
    valid = k.valid;
  }

  -- A step that readers do not see, with no entry.
  pub Undoes_silent :
      {s s' : StateDb}
      → Same s s'
      → s'.entries ≡ s.entries
      → s'.valid_revisions ≡ s.valid_revisions
      → s'.next_revision_id ≡ s.next_revision_id
      → IsValidDb s'
      → Undoes s s'
  unfolding undo
  Undoes_silent {s} {s'} same e r n v = record {
    added = [];
    grown = e ∙ sym (append-nil s.entries);
    back = λ t h. (t, refl, Same-trans same h);
    revisions_eq = r;
    next_eq = n;
    valid = v;
  }
