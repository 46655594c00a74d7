-- ===== src/State/Revert/Creation.antt =====
-- core/state/statedb.go, createObject, GetOrNewStateObject and CreateAccount.
use zond.Prelude.{
  ◌≡◌, ◌≢◌, refl, sym, ap, subst, subst₂, fun_ext, ◌∙◌, Bool, true, false, not, ◌&&◌, Option, none,
  some, [], ◌∷◌, Option-cases, Bool-cases, inl, inr,
}
use zond.Prelude.Maps.{update, update_self, update_ne, update_undo}
use zond.State.Account.{
  Address, Backend, Read, RawAccount, found, missing, failed, StateObject, zero_account, new_object,
}
use zond.State.Db.{
  StateDb, create_object_change, reset_object_change, mark, unmark, put_object, append,
  get_deleted_state_object, live, read_account, revert_entry, undo, has_snap,
}
use zond.State.Ops.{create_over, create_object}
use zond.State.Revert.{
  or_loaded, loaded, loaded_from, view, destructed, ObjSame-refl, OptSame, Same, IsValidDb, Keyed,
  Undoes, Undoes-trans,
}
use zond.State.Revert.Cache.{Cached-Undoes, get_deleted_lem, view_put_self, view_put_ne, keyed_put}
use zond.State.Revert.Objects.{Same-Rest, Same-dirties, undo_one, Same-put}
use native.Mathlib.Decide.{ℕ_discrete}

unmark-mark :
    (f : Bool) (d : Address → Bool) (a : Address) → unmark (not (f && d a) && f) (mark f d a) a ≡ d
unfolding mark unmark
unmark-mark true d a = elim (Bool-cases (d a)) [
  | inl e ↦ rw e (
      fun_ext λ b. elim (ℕ_discrete b a) [
        | yes x ↦ rw x (update_self d a true ∙ sym e)
        | no n ↦ update_ne d a b true n
      ])
  | inr e ↦ rw e (update_undo d a true false (sym e))
]
unmark-mark false d a = refl

mark_ne : (f : Bool) (d : Address → Bool) (a b : Address) → b ≢ a → mark f d a b ≡ d b
unfolding mark
mark_ne true d a b n = update_ne d a b true n
mark_ne false d a b n = refl

abbrev address_or : Address → Option StateObject → Address
address_or a none = a
address_or a (some o) = o.address

module _ (db : Backend) where
  pub view_address :
      (s : StateDb) (a : Address) (o : StateObject)
      → Keyed db s
      → view db s a ≡ some o
      → o.address ≡ a
  unfolding new_object
  view_address s a o v h = elim (Option-cases (s.objects a)) [
    | inl e ↦ by_load (read_account db a) (sym (ap (or_loaded db a) e) ∙ h)
    | inr (p, e) ↦ v a o (e ∙ sym (ap (or_loaded db a) e) ∙ h)
  ]
    where
      by_load : (r : Read RawAccount) → loaded_from db a r ≡ some o → o.address ≡ a
      by_load (found raw) e = sym (ap (address_or a) e)
      by_load missing e = cc
      by_load failed e = cc

  none-loaded :
      (a : Address) (x : Option StateObject) → or_loaded db a x ≡ none → loaded db a ≡ none
  none-loaded a none h = h
  none-loaded a (some o) h = cc

  -- A new object where readers saw none
  pub create_none :
      (s : StateDb) (a : Address)
      → IsValidDb db s
      → view db s a ≡ none
      → Undoes db s (create_over db s a none)
  unfolding create_over revert_entry new_object append
  create_none s a v h = record {
    added = create_object_change a ∷ [];
    grown = refl;
    back = λ t same. back t same;
    revisions_eq = refl;
    next_eq = refl;
    valid = record {
      keyed = keyed_put db s a (new_object db a zero_account) refl v.keyed;
      slots_full = v.slots_full;
      log_size_lt = v.log_size_lt;
    };
  }
    where
      new : StateObject
      new = new_object db a zero_account

      objects :
          (u t : StateDb)
          → Same db (create_over db s a none) t
          → (b : Address)
          → OptSame db
              (destructed db s b)
              (view db s b)
              (or_loaded db b (update t.objects a none b))
      objects u t r b = elim (ℕ_discrete b a) [
        | yes x ↦
            subst
              (λ c.
                OptSame db (destructed db s c) (view db s c)
                  (or_loaded db c (update t.objects a none c)))
              (sym x)
              (subst₂ (OptSame db (destructed db s a)) (sym h)
                (sym (
                  ap (or_loaded db a) (update_self t.objects a none)
                  ∙ none-loaded a (s.objects a) h))
                tt)
        | no n ↦
            subst₂ (OptSame db (destructed db s b)) (view_put_ne db s a b new n)
              (sym (ap (or_loaded db b) (update_ne t.objects a b none n))) (r.objects_eq b)
      ]

      back :
          (t : StateDb)
          → Same db (create_over db s a none) t
          → (u : StateDb) × (undo db (create_object_change a ∷ []) t ≡ some u) × Same db s u
      back t r =
          let u : StateDb = record t {
            objects = update t.objects a none;
            objects_dirty = update t.objects_dirty a false;
          } in
          let (d, undone) = undo_one db (create_object_change a) t u refl in
          (
            record u { dirties = d },
            undone,
            Same-dirties db {u = u} d (
                Same-Rest db {t = u} (objects u t r) (record {
                  destructs_eq = r.destructs_eq;
                  refund_eq = r.refund_eq;
                  logs_eq = r.logs_eq;
                  log_size_eq = r.log_size_eq;
                  preimages_eq = r.preimages_eq;
                  access_list_eq = r.access_list_eq;
                })),
          )

  -- The new object is what readers see afterwards.
  view_create_none :
      (s : StateDb) (a : Address)
      → view db (create_over db s a none) a ≡ some (new_object db a zero_account)
  unfolding create_over new_object
  view_create_none s a = view_put_self db s a (new_object db a zero_account)

  view_create_some :
      (s : StateDb) (a : Address) (prev : StateObject)
      → view db (create_over db s a (some prev)) a ≡ some (new_object db a zero_account)
  unfolding create_over new_object
  view_create_some s a prev = view_put_self db s a (new_object db a zero_account)

  -- The entry and the mark that createObject leaves for an earlier object, with `q` in its place
  abbrev pub over_with : StateDb → Address → StateObject → StateObject → StateDb
  over_with s a prev q =
      put_object
        (append (record s { snap_destructs = mark (has_snap db) s.snap_destructs prev.address })
          (reset_object_change prev (has_snap db && s.snap_destructs prev.address)))
        a q

  -- A new object over an earlier one
  pub over_with-Undoes :
      (s : StateDb) (a : Address) (prev q : StateObject)
      → IsValidDb db s
      → view db s a ≡ some prev
      → q.address ≡ a
      → Undoes db s (over_with s a prev q)
  unfolding append revert_entry
  over_with-Undoes s a prev q v h qa = record {
    added = reset_object_change prev (has_snap db && s.snap_destructs prev.address) ∷ [];
    grown = refl;
    back = λ t same. back t same;
    revisions_eq = refl;
    next_eq = refl;
    valid = record {
      keyed = keyed_put db s a q qa v.keyed;
      slots_full = v.slots_full;
      log_size_lt = v.log_size_lt;
    };
  }
    where
      addr : prev.address ≡ a
      addr = view_address s a prev v.keyed h

      others :
          (t : StateDb)
          → Same db (over_with s a prev q) t
          → (b : Address) → b ≢ a
          → OptSame db (destructed db s b) (view db s b) (view db t b)
      others t r b n =
          subst₂
            (λ (c : Bool) (w : Option StateObject). OptSame db (has_snap db && c) w (view db t b))
            (mark_ne (has_snap db) s.snap_destructs prev.address b (λ e. n (e ∙ addr)))
            (view_put_ne db s a b q n) (r.objects_eq b)

      restored : StateDb → Address → Bool
      restored t =
          unmark (not (has_snap db && s.snap_destructs prev.address) && has_snap db)
            t.snap_destructs prev.address

      back :
          (t : StateDb)
          → Same db (over_with s a prev q) t
          → (u : StateDb) × (undo db
                (reset_object_change prev (has_snap db && s.snap_destructs prev.address) ∷ [])
                t
              ≡ some u)
            × Same db s u
      back t r =
          let t' : StateDb = record t { snap_destructs = restored t } in
          let u : StateDb = put_object t' prev.address prev in
          let pd = has_snap db && s.snap_destructs prev.address in
          let (d, undone) = undo_one db (reset_object_change prev pd) t u refl in
          (
            record u { dirties = d },
            undone,
            Same-dirties db {u = u} d (
                Same-put db s t' prev.address prev prev
                  (λ b n. others t r b (λ e. n (e ∙ sym addr)))
                  (record {
                    destructs_eq =
                        sym (unmark-mark (has_snap db) s.snap_destructs prev.address)
                        ∙ ap (λ (m : Address → Bool). unmark (not pd && has_snap db) m prev.address)
                            r.destructs_eq;
                    refund_eq = r.refund_eq;
                    logs_eq = r.logs_eq;
                    log_size_eq = r.log_size_eq;
                    preimages_eq = r.preimages_eq;
                    access_list_eq = r.access_list_eq;
                  })
                  (subst (λ c. view db s c ≡ some prev) (sym addr) h) (ObjSame-refl db _ prev)),
          )

  pub create_some :
      (s : StateDb) (a : Address) (prev : StateObject)
      → IsValidDb db s
      → view db s a ≡ some prev
      → Undoes db s (create_over db s a (some prev))
  unfolding create_over new_object
  create_some s a prev v h = over_with-Undoes s a prev (new_object db a zero_account) v h refl

  -- createObject on any address
  pub create_object-Undoes :
      (s : StateDb) (a : Address)
      → IsValidDb db s
      → Undoes db s (create_object db s a).0
        × (view db (create_object db s a).0 a ≡ some (new_object db a zero_account))
        × ((create_object db s a).1 ≡ live db (view db s a))
  unfolding create_object
  create_object-Undoes s a v =
      let (answer, c) = get_deleted_lem db s a in
      let t = (get_deleted_state_object db s a).1 in
      let cached = Cached-Undoes db v c in
      let step = over t cached.valid (view db s a) (c.views a) in
      (
        Undoes-trans db cached (
            subst (λ (x : Option StateObject). Undoes db t (create_over db t a x)) (sym answer)
              step.0),
        subst
            (λ (x : Option StateObject).
              view db (create_over db t a x) a ≡ some (new_object db a zero_account))
            (sym answer) step.1,
        ap (live db) answer,
      )
    where
      over :
          (t : StateDb)
          → IsValidDb db t
          → (x : Option StateObject) → view db t a ≡ x
          → Undoes db t (create_over db t a x)
            × (view db (create_over db t a x) a ≡ some (new_object db a zero_account))
      over t w none e = (create_none t a w e, view_create_none t a)
      over t w (some prev) e = (create_some t a prev w e, view_create_some t a prev)
