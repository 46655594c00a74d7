-- ===== src/State/Revert/Tidy.antt =====
-- core/state/journal.go: a revert touches neither the journal nor the revisions, and leaves the live
-- objects under their own addresses.
use zond.Prelude.{
  ℕ, ◌≡◌, refl, sym, ap, subst, ◌∙◌, Bool, true, Option, none, some, List, [], ◌∷◌, bind,
  Option-cases, inl, inr, arith,
}
use zond.Prelude.Maps.{update, update_self, update_ne}
use zond.State.Account.{
  Address, Backend, StateObject, set_balance, set_stake_balance, set_pending_stake_balance,
  set_nonce, set_code, set_state, set_ots_bitfield,
}
use zond.State.AccessList.{delete_slot}
use zond.State.Db.{
  StateDb, Entry, create_object_change, reset_object_change, suicide_change, balance_change,
  stake_balance_change, pending_stake_balance_change, nonce_change, ots_bitfield_change,
  storage_change, code_change, refund_change, add_log_change, add_preimage_change, touch_change,
  access_list_add_account_change, access_list_add_slot_change, put_object, put_if, on_object,
  if_object, get_state_object, revert_entry, undo, undo_entry, drop_last_log,
}
use zond.State.Revert.{view, Keyed}
use zond.State.Revert.Cache.{Cached, get_state_object_lem, keyed_put}
use zond.State.Revert.Creation.{view_address}
use zond.State.Revert.Accounts.{live-some}
use native.Mathlib.Decide.{ℕ_discrete}
use mathlib.Core.Option

module _ (db : Backend) where
  pub record IsTidy (t u : StateDb) : Type 0 where
    pub keyed : Keyed db t → Keyed db u
    pub entries_eq : u.entries ≡ t.entries
    pub revisions_eq : u.valid_revisions ≡ t.valid_revisions
    pub next_eq : u.next_revision_id ≡ t.next_revision_id

  Cached-IsTidy : {t u : StateDb} → Cached db t u → IsTidy t u
  Cached-IsTidy c = record {
    keyed = c.kept;
    entries_eq = ap (λ (x : StateDb). x.entries) c.rest;
    revisions_eq = ap (λ (x : StateDb). x.valid_revisions) c.rest;
    next_eq = ap (λ (x : StateDb). x.next_revision_id) c.rest;
  }

  -- The object that getStateObject answered with is put back, changed.
  put-IsTidy :
      (t : StateDb) (a : Address) (o p : StateObject)
      → (get_state_object db t a).0 ≡ some o
      → p.address ≡ o.address
      → IsTidy t (put_object (get_state_object db t a).1 a p)
  put-IsTidy t a o p e kept =
      let (answer, c) = get_state_object_lem db t a in
      let tidy = Cached-IsTidy c in
      let (seen, alive) = live-some db (view db t a) o (sym answer ∙ e) in
      record {
        keyed = λ k.
            keyed_put db (get_state_object db t a).1 a p (kept ∙ view_address db t a o k seen)
              (tidy.keyed k);
        entries_eq = tidy.entries_eq;
        revisions_eq = tidy.revisions_eq;
        next_eq = tidy.next_eq;
      }

  unsome {ℓ} : {A : Type ℓ} {x y : A} → some x ≡ some y → x ≡ y
  unsome e = cc

  on_object-IsTidy :
      (t u : StateDb) (a : Address) (f : StateObject → StateObject)
      → ((o : StateObject) → (f o).address ≡ o.address)
      → on_object db t a f ≡ some u
      → IsTidy t u
  unfolding on_object
  on_object-IsTidy t u a f kept h = by_answer (get_state_object db t a).0 refl h
    where
      by_answer :
          (x : Option StateObject)
          → (get_state_object db t a).0 ≡ x
          → Option.map (λ o. put_object (get_state_object db t a).1 a (f o)) x ≡ some u
          → IsTidy t u
      by_answer none e h = cc
      by_answer (some o) e h = subst (IsTidy t) (unsome h) (put-IsTidy t a o (f o) e (kept o))

  if_object-IsTidy :
      (t : StateDb) (a : Address) (f : StateObject → StateObject)
      → ((o : StateObject) → (f o).address ≡ o.address)
      → IsTidy t (if_object db t a f)
  unfolding if_object put_if
  if_object-IsTidy t a f kept = by_answer (get_state_object db t a).0 refl
    where
      by_answer :
          (x : Option StateObject)
          → (get_state_object db t a).0 ≡ x
          → IsTidy t (put_if db (get_state_object db t a).1 a f x)
      by_answer none e = Cached-IsTidy (get_state_object_lem db t a).1
      by_answer (some o) e = put-IsTidy t a o (f o) e (kept o)

  Keyed-delete :
      (t : StateDb) (a : Address)
      → Keyed db t
      → (b : Address) (o : StateObject) → update t.objects a none b ≡ some o
      → o.address ≡ b
  Keyed-delete t a k b o e = elim (ℕ_discrete b a) [
    | yes x ↦ absurd (
        no_object (
          sym (update_self t.objects a none) ∙ subst (λ c. update t.objects a none c ≡ some o) x e))
    | no n ↦ k b o (sym (update_ne t.objects a b none n) ∙ e)
  ]
    where
      no_object : none ≡ some o → ⊥
      no_object e = cc

  -- A revert that changes other fields than the objects
  same_objects :
      {t u : StateDb}
      → u.objects ≡ t.objects
      → u.entries ≡ t.entries
      → u.valid_revisions ≡ t.valid_revisions
      → u.next_revision_id ≡ t.next_revision_id
      → IsTidy t u
  same_objects {t} o e r n = record {
    keyed = λ k.
        subst
          (λ (m : Address → Option StateObject).
            (a : Address) (o : StateObject) → m a ≡ some o → o.address ≡ a)
          (sym o) k;
    entries_eq = e;
    revisions_eq = r;
    next_eq = n;
  }

  map-IsTidy :
      {A : Type 0} (t u : StateDb) (f : A → StateDb) (x : Option A)
      → ((a : A) → IsTidy t (f a))
      → Option.map f x ≡ some u
      → IsTidy t u
  map-IsTidy t u f none tidy h = cc
  map-IsTidy t u f (some a) tidy h = subst (IsTidy t) (unsome h) (tidy a)

  set_ots_address :
      (o p : StateObject) (i : ℕ) (r : Bool)
      → set_ots_bitfield db o i r ≡ some p
      → p.address ≡ o.address
  unfolding set_ots_bitfield
  set_ots_address o p i r h = ground arith

  pub revert_entry-IsTidy : (e : Entry) (t u : StateDb) → revert_entry db e t ≡ some u → IsTidy t u
  unfolding revert_entry set_balance set_stake_balance set_pending_stake_balance set_nonce set_code
      set_state
  revert_entry-IsTidy (create_object_change a) t u h =
      subst (IsTidy t) (unsome h) (record {
        keyed = Keyed-delete t a;
        entries_eq = refl;
        revisions_eq = refl;
        next_eq = refl;
      })
  revert_entry-IsTidy (reset_object_change prev pd) t u h = subst (IsTidy t) (unsome h) (record {
    keyed = keyed_put db t prev.address prev refl;
    entries_eq = refl;
    revisions_eq = refl;
    next_eq = refl;
  })
  revert_entry-IsTidy (suicide_change a was amount) t u h =
      subst (IsTidy t) (unsome h) (if_object-IsTidy t a _ (λ o. refl))
  revert_entry-IsTidy (balance_change a prev) t u h = on_object-IsTidy t u a _ (λ o. refl) h
  revert_entry-IsTidy (stake_balance_change a prev) t u h = on_object-IsTidy t u a _ (λ o. refl) h
  revert_entry-IsTidy (pending_stake_balance_change a prev) t u h =
      on_object-IsTidy t u a _ (λ o. refl) h
  revert_entry-IsTidy (nonce_change a prev) t u h = on_object-IsTidy t u a _ (λ o. refl) h
  revert_entry-IsTidy (ots_bitfield_change a i) t u h = ots (get_state_object db t a).0 refl h
    where
      ots :
          (x : Option StateObject)
          → (get_state_object db t a).0 ≡ x
          → bind x (λ o.
            Option.map
              (λ p. put_object (get_state_object db t a).1 a p)
              (set_ots_bitfield db o i true))
            ≡ some u
          → IsTidy t u
      ots none e h = cc
      ots (some o) e h = written (set_ots_bitfield db o i true) refl h
        where
          written :
              (y : Option StateObject)
              → set_ots_bitfield db o i true ≡ y
              → Option.map (λ p. put_object (get_state_object db t a).1 a p) y ≡ some u
              → IsTidy t u
          written none k h = cc
          written (some p) k h =
              subst (IsTidy t) (unsome h) (put-IsTidy t a o p e (set_ots_address o p i true k))
  revert_entry-IsTidy (storage_change a key prev) t u h = on_object-IsTidy t u a _ (λ o. refl) h
  revert_entry-IsTidy (code_change a prevcode prevhash) t u h =
      on_object-IsTidy t u a _ (λ o. refl) h
  revert_entry-IsTidy (refund_change prev) t u h =
      subst (IsTidy t) (unsome h) (same_objects refl refl refl refl)
  revert_entry-IsTidy (add_log_change g) t u h =
      map-IsTidy t u _ (drop_last_log db (t.logs g)) (λ ls. same_objects refl refl refl refl) h
  revert_entry-IsTidy (add_preimage_change g) t u h =
      subst (IsTidy t) (unsome h) (same_objects refl refl refl refl)
  revert_entry-IsTidy (touch_change a) t u h =
      subst (IsTidy t) (unsome h) (same_objects refl refl refl refl)
  revert_entry-IsTidy (access_list_add_account_change a) t u h =
      subst (IsTidy t) (unsome h) (same_objects refl refl refl refl)
  revert_entry-IsTidy (access_list_add_slot_change a slot) t u h =
      map-IsTidy t u _ (delete_slot t.access_list a slot) (λ al. same_objects refl refl refl refl) h

  IsTidy-trans : {t u v : StateDb} → IsTidy t u → IsTidy u v → IsTidy t v
  IsTidy-trans h k = record {
    keyed = λ x. k.keyed (h.keyed x);
    entries_eq = k.entries_eq ∙ h.entries_eq;
    revisions_eq = k.revisions_eq ∙ h.revisions_eq;
    next_eq = k.next_eq ∙ h.next_eq;
  }

  undo_entry-IsTidy : (e : Entry) (t u : StateDb) → undo_entry db e t ≡ some u → IsTidy t u
  unfolding undo_entry
  undo_entry-IsTidy e t u h = elim (Option-cases (revert_entry db e t)) [
    | inl k ↦ absurd (no_state (sym (ap (Option.map {B = StateDb} _) k) ∙ h))
    | inr (v, k) ↦ IsTidy-trans (revert_entry-IsTidy e t v k) (
        subst (IsTidy v) (unsome (sym (ap (Option.map {B = StateDb} _) k) ∙ h))
          (same_objects refl refl refl refl))
  ]
    where
      no_state : none ≡ some u → ⊥
      no_state e = cc

  -- Reverting any journal entries that do not panic leaves the journal's entries, the revisions
  -- and the next id as they are, and objects that stood under their own addresses still do.
  pub undo-IsTidy : (es : List Entry) (t u : StateDb) → undo db es t ≡ some u → IsTidy t u
  unfolding undo
  undo-IsTidy [] t u h = subst (IsTidy t) (unsome h) (same_objects refl refl refl refl)
  undo-IsTidy (e ∷ es) t u h = elim (Option-cases (undo db es t)) [
    | inl k ↦ absurd (no_state (sym (ap (λ (x : Option StateDb). bind x (undo_entry db e)) k) ∙ h))
    | inr (v, k) ↦ IsTidy-trans (undo-IsTidy es t v k) (
        undo_entry-IsTidy e v u (sym (ap (λ (x : Option StateDb). bind x (undo_entry db e)) k) ∙ h))
  ]
    where
      no_state : none ≡ some u → ⊥
      no_state e = cc
