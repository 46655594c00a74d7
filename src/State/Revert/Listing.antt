-- ===== src/State/Revert/Listing.antt =====
-- core/state: the journal of the access list.
use zond.Prelude.{
  ℕ, ◌≡◌, refl, sym, ap, subst, ◌∙◌, Option, none, some, List, Option-cases, Bool-cases, inl, inr,
  get_elem?,
}
use zond.Prelude.Maps.{update, update_same}
use zond.State.Account.{Address, Hash, Backend}
use zond.State.AccessList.{
  AccessList, has_slot, delete_address, delete_slot, add_address, add_slot, add_map, add_key,
}
use zond.State.AccessList.Undo.{
  IsValid, delete-add_address, delete_slot-add_map, delete_slot-add_key, IsValid-add_map,
  IsValid-add_key,
}
use zond.State.Db.{
  StateDb, Entry, access_list_add_account_change, access_list_add_slot_change, append, revert_entry,
}
use zond.State.Ops.{add_address_to_access_list, add_slot_to_access_list}
use zond.State.Revert.{Same-refl, IsValidDb, Undoes, Undoes-trans, Undoes_silent}
use mathlib.Core.Option
use zond.State.Revert.Others.{entry-Undoes}

module _ (db : Backend) where
  -- An entry that changed the access list from `al` to `al'`
  access_list-Undoes :
      (s : StateDb) (al' : AccessList) (e : Entry)
      → IsValidDb db s
      → IsValid al'
      → ((t : StateDb)
          → t.access_list ≡ al'
          → revert_entry db e t ≡ some (record t { access_list = s.access_list }))
      → Undoes db s (append (record s { access_list = al' }) e)
  unfolding append
  access_list-Undoes s al' e v w rev =
      entry-Undoes db s _ e refl refl refl
        (record { keyed = v.keyed; slots_full = w; log_size_lt = v.log_size_lt })
        (λ t r. (
          record t { access_list = s.access_list },
          rev t (sym r.access_list_eq),
          record {
            objects_eq = r.objects_eq;
            destructs_eq = r.destructs_eq;
            refund_eq = r.refund_eq;
            logs_eq = r.logs_eq;
            log_size_eq = r.log_size_eq;
            preimages_eq = r.preimages_eq;
            access_list_eq = refl;
          },
        ))

  abbrev with_address : AccessList → Address → AccessList
  with_address al a = record al { addresses = update al.addresses a (some none) }

  address_added :
      (s : StateDb) (a : Address)
      → IsValidDb db s
      → s.access_list.addresses a ≡ none
      → Undoes db s (
          append
            (record s { access_list = with_address s.access_list a })
            (access_list_add_account_change a))
  unfolding revert_entry
  address_added s a v e =
      access_list-Undoes s (with_address s.access_list a) (access_list_add_account_change a) v
        v.slots_full
        (λ t h.
          ap (λ (al : AccessList). some (record t { access_list = al }))
            (ap (λ (al : AccessList). delete_address al a) h
              ∙ delete-add_address s.access_list a e))

  pub add_address-Undoes :
      (s : StateDb) (a : Address) → IsValidDb db s → Undoes db s (add_address_to_access_list s a)
  unfolding add_address_to_access_list
  add_address-Undoes s a v = elim (Option-cases (s.access_list.addresses a)) [
    | inl e ↦ rw (e, add_address_to_access_list, add_address) (address_added s a v e)
    | inr (i, e) ↦
        rw (e, add_address_to_access_list, add_address)
          (Undoes_silent db (Same-refl db s) refl refl refl v)
  ]

  slot_added :
      (s : StateDb) (al' : AccessList) (a : Address) (k : Hash)
      → IsValidDb db s
      → IsValid al'
      → delete_slot al' a k ≡ some s.access_list
      → Undoes db s (append (record s { access_list = al' }) (access_list_add_slot_change a k))
  unfolding revert_entry
  slot_added s al' a k v w e =
      access_list-Undoes s al' (access_list_add_slot_change a k) v w (λ t h.
        ap
          (λ (x : Option AccessList).
            Option.map (λ (al : AccessList). record t { access_list = al }) x)
          (ap (λ (al : AccessList). delete_slot al a k) h ∙ e))

  -- On a valid database, AddSlotToAccessList, unless it panics, can be undone by its journal
  -- entries in all its cases (a new address, an address without slots, a new slot, a slot that is
  -- there), since the entry for the address precedes the one for the slot.
  pub add_slot-Undoes :
      (s s' : StateDb) (a : Address) (k : Hash)
      → IsValidDb db s
      → add_slot_to_access_list s a k ≡ some s'
      → Undoes db s s'
  unfolding append add_slot_to_access_list
  add_slot-Undoes s s' a k v h = by_address (al.addresses a) refl
    where
      al : AccessList
      al = s.access_list

      unsome : {x y : StateDb} → some x ≡ some y → x ≡ y
      unsome e = cc

      no_panic : none ≡ some s' → ⊥
      no_panic e = cc

      result : {x : Option StateDb} → add_slot_to_access_list s a k ≡ x → x ≡ some s'
      result e = sym e ∙ h

      map_valid : IsValid (add_map al a k)
      map_valid = IsValid-add_map al a k v.slots_full

      in_map :
          (i : ℕ)
          → al.addresses a ≡ some (some i)
          → (r : Option (List Hash)) → get_elem? al.slots i ≡ r
          → Undoes db s s'
      in_map i e none g =
          absurd (no_panic (result (rw (e, add_slot_to_access_list, add_slot) (rw g refl))))
      in_map i e (some m) g = elim (Bool-cases (has_slot k m)) [
        | inl f ↦
            subst (Undoes db s)
              (unsome (result (rw (e, add_slot_to_access_list, add_slot) (rw (g) (rw f refl)))))
              (Undoes_silent db (Same-refl db s) refl refl refl v)
        | inr f ↦
            subst (Undoes db s)
              (unsome (result (rw (e, add_slot_to_access_list, add_slot) (rw (g) (rw f refl)))))
              (slot_added s (add_key al i k m) a k v (IsValid-add_key al i k m v.slots_full)
                (delete_slot-add_key al a k i m v.slots_full e g f))
      ]

      by_address : (x : Option (Option ℕ)) → al.addresses a ≡ x → Undoes db s s'
      by_address none e =
          let first = address_added s a v e in
          let s1 : StateDb =
            append (record s { access_list = with_address al a })
              (access_list_add_account_change a) in
          subst (Undoes db s) (unsome (result (rw (e, add_slot_to_access_list, add_slot) refl))) (
            Undoes-trans db first (
              slot_added s1 (add_map al a k) a k first.valid map_valid
                (delete_slot-add_map al a k)))
      by_address (some none) e =
          let same : with_address al a ≡ al = λ i. record {
            addresses = update_same al.addresses a (some none) e i;
            slots = al.slots;
          } in
          subst (Undoes db s) (unsome (result (rw (e, add_slot_to_access_list, add_slot) refl))) (
            slot_added s (add_map al a k) a k v map_valid
              (delete_slot-add_map al a k ∙ ap some same))
      by_address (some (some i)) e = in_map i e (get_elem? al.slots i) refl
