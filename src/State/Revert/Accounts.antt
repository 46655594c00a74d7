-- ===== src/State/Revert/Accounts.antt =====
-- core/state: GetOrNewStateObject and CreateAccount.
use zond.Prelude.{◌≡◌, refl, sym, subst, Bool, true, false, Option, none, some, arith}
use zond.Prelude.Maps.{update_twice}
use zond.State.Account.{Address, Backend, StateObject, zero_account, new_object, set_balance}
use zond.State.Db.{StateDb, put_object, get_state_object, get_deleted_state_object, live}
use zond.State.Ops.{
  create_over, create_object, carry_balance, create_account, obtain, get_or_new_state_object,
}
use zond.State.Revert.{view, IsValidDb, Undoes, Undoes-trans}
use zond.State.Revert.Cache.{Cached-Undoes, get_deleted_lem, get_state_object_lem}
use zond.State.Revert.Objects.{live_lem}
use zond.State.Revert.Creation.{
  create_object-Undoes, view_address, over_with, over_with-Undoes, create_none, create_some,
}

module _ (db : Backend) where
  live_deleted : (p : StateObject) → p.deleted ≡ true → live db (some p) ≡ none
  unfolding live
  live_deleted p h = rw h refl

  pub live-some :
      (x : Option StateObject) (o : StateObject)
      → live db x ≡ some o
      → (x ≡ some o) × (o.deleted ≡ false)
  unfolding live
  live-some none o h = cc
  live-some (some p) o h = ground arith

  -- What GetOrNewStateObject answers with: the object that readers see afterwards, which is live.
  pub record Obtained (s : StateDb) (a : Address) (o : StateObject) (t : StateDb) : Type 0 where
    pub step : Undoes db s t
    pub seen : view db t a ≡ some o
    pub alive : o.deleted ≡ false
    pub addr : o.address ≡ a

  pub get_or_new_lem :
      (s : StateDb) (a : Address)
      → IsValidDb db s
      → Obtained s a (get_or_new_state_object db s a).0 (get_or_new_state_object db s a).1
  unfolding get_or_new_state_object live new_object
  get_or_new_lem s a v =
      let (answer, c) = get_state_object_lem db s a in
      let t = (get_state_object db s a).1 in
      let cached = Cached-Undoes db v c in
      subst (λ (x : Option StateObject). Obtained s a (obtain db t a x).0 (obtain db t a x).1)
        (sym answer) (by_view t cached (view db s a) (c.views a))
    where
      fresh :
          (t : StateDb) → Undoes db s t → Obtained s a (obtain db t a none).0 (obtain db t a none).1
      fresh t cached =
          let (step, seen, prev) = create_object-Undoes db t a cached.valid in
          record { step = Undoes-trans db cached step; seen = seen; alive = refl; addr = refl }

      on_deleted :
          (t : StateDb) (o : StateObject)
          → Undoes db s t
          → view db t a ≡ some o
          → (d : Bool) → o.deleted ≡ d
          → Obtained s a (obtain db t a (live db (some o))).0 (obtain db t a (live db (some o))).1
      on_deleted t o cached e true h =
          subst (λ (x : Option StateObject). Obtained s a (obtain db t a x).0 (obtain db t a x).1)
            (sym (live_deleted o h)) (fresh t cached)
      on_deleted t o cached e false h =
          subst (λ (x : Option StateObject). Obtained s a (obtain db t a x).0 (obtain db t a x).1)
            (sym (live_lem db o h))
            (record {
              step = cached;
              seen = e;
              alive = h;
              addr = view_address db t a o cached.valid.keyed e;
            })

      by_view :
          (t : StateDb)
          → Undoes db s t
          → (x : Option StateObject) → view db t a ≡ x
          → Obtained s a (obtain db t a (live db x)).0 (obtain db t a (live db x)).1
      by_view t cached none e = fresh t cached
      by_view t cached (some o) e = on_deleted t o cached e o.deleted refl

  -- CreateAccount over an object that was not deleted
  carried :
      (t : StateDb) (a : Address) (prev : StateObject)
      → IsValidDb db t
      → view db t a ≡ some prev
      → Undoes db t (carry_balance db (create_over db t a (some prev)) a (some prev))
  unfolding carry_balance create_over new_object set_balance
  carried t a prev w e =
      subst (Undoes db t) (sym twice) (over_with-Undoes db t a prev rich w e refl)
    where
      new : StateObject
      new = new_object db a zero_account

      rich : StateObject
      rich = set_balance prev.data_of.balance new

      twice : put_object (over_with db t a prev new) a rich ≡ over_with db t a prev rich
      twice = λ i. record (over_with db t a prev rich) {
        objects = update_twice t.objects a (some new) (some rich) i;
      }

  -- On a valid database, CreateAccount can be undone by its journal entries on all its branches
  -- (no account, an object that is live, one that is deleted), though the balance that it carries
  -- over is not journaled.
  pub create_account-Undoes :
      (s : StateDb) (a : Address) → IsValidDb db s → Undoes db s (create_account db s a)
  unfolding create_account create_object carry_balance live
  create_account-Undoes s a v =
      let (answer, c) = get_deleted_lem db s a in
      let t = (get_deleted_state_object db s a).1 in
      let cached = Cached-Undoes db v c in
      Undoes-trans db cached (
        subst
          (λ (x : Option StateObject).
            Undoes db t (carry_balance db (create_over db t a x) a (live db x)))
          (sym answer) (by_view t cached.valid (view db s a) (c.views a)))
    where
      on_deleted :
          (t : StateDb) (prev : StateObject)
          → IsValidDb db t
          → view db t a ≡ some prev
          → (d : Bool) → prev.deleted ≡ d
          → Undoes db t (carry_balance db (create_over db t a (some prev)) a (live db (some prev)))
      on_deleted t prev w e true h =
          subst
            (λ (x : Option StateObject).
              Undoes db t (carry_balance db (create_over db t a (some prev)) a x))
            (sym (live_deleted prev h)) (create_some db t a prev w e)
      on_deleted t prev w e false h =
          subst
            (λ (x : Option StateObject).
              Undoes db t (carry_balance db (create_over db t a (some prev)) a x))
            (sym (live_lem db prev h)) (carried t a prev w e)

      by_view :
          (t : StateDb)
          → IsValidDb db t
          → (x : Option StateObject) → view db t a ≡ x
          → Undoes db t (carry_balance db (create_over db t a x) a (live db x))
      by_view t w none e = create_none db t a w e
      by_view t w (some prev) e = on_deleted t prev w e prev.deleted refl
