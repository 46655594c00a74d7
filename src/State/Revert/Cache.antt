-- ===== src/State/Revert/Cache.antt =====
-- core/state/statedb.go, getDeletedStateObject and getStateObject: they answer with the object that
-- readers see, and only fill the map of live objects.
use zond.Prelude.{
  ◌≡◌, ◌≢◌, refl, sym, ap, subst, ◌∙◌, Option, none, some, Option-cases, ◌<◌, ◌^◌, inl, inr,
}
use zond.Prelude.Maps.{update, update_self, update_ne}
use zond.State.Account.{
  Address, Backend, StateObject, Read, RawAccount, found, missing, failed, new_object,
}
use zond.State.Db.{
  StateDb, load_object, get_deleted_state_object, get_state_object, live, read_account, put_object,
}
use zond.State.Revert.{
  loaded_from, or_loaded, view, destructed, OptSame, OptSame-refl, IsValidDb, Undoes, Undoes_silent,
}
use zond.State.AccessList.Undo.{IsValid}
use native.Mathlib.Decide.{ℕ_discrete}

module _ (db : Backend) where
  -- `t` is `s` with some live objects more, none of which changes what readers see.
  pub record Cached (s t : StateDb) : Type 0 where
    pub views : (a : Address) → view db t a ≡ view db s a
    pub rest : record t { objects = s.objects; db_err = s.db_err } ≡ s
    pub kept :
        ((a : Address) (o : StateObject) → s.objects a ≡ some o → o.address ≡ a)
        → (a : Address) (o : StateObject) → t.objects a ≡ some o
        → o.address ≡ a

  Cached-refl : (s : StateDb) → Cached s s
  Cached-refl s = record { views = λ a. refl; rest = refl; kept = λ h. h }

  pub view_put_self :
      (s : StateDb) (a : Address) (o : StateObject) → view db (put_object s a o) a ≡ some o
  view_put_self s a o = ap (or_loaded db a) (update_self s.objects a (some o))

  pub view_put_ne :
      (s : StateDb) (a b : Address) (o : StateObject)
      → b ≢ a
      → view db (put_object s a o) b ≡ view db s b
  view_put_ne s a b o n = ap (or_loaded db b) (update_ne s.objects a b (some o) n)

  view_put :
      (s : StateDb) (a b : Address) (o : StateObject)
      → view db s a ≡ some o
      → view db (put_object s a o) b ≡ view db s b
  view_put s a b o h = elim (ℕ_discrete b a) [
    | yes e ↦ rw e (view_put_self s a o ∙ sym h)
    | no n ↦ view_put_ne s a b o n
  ]

  pub keyed_put :
      (s : StateDb) (a : Address) (o : StateObject)
      → o.address ≡ a
      → ((b : Address) (p : StateObject) → s.objects b ≡ some p → p.address ≡ b)
      → (b : Address) (p : StateObject) → update s.objects a (some o) b ≡ some p
      → p.address ≡ b
  keyed_put s a o e h b p q = elim (ℕ_discrete b a) [
    | yes x ↦ rw x (subst (λ (r : StateObject). r.address ≡ a) (same x) e)
    | no n ↦ h b p (sym (update_ne s.objects a b (some o) n) ∙ q)
  ]
    where
      unsome : {o p : StateObject} → some o ≡ some p → o ≡ p
      unsome e = cc

      same : b ≡ a → o ≡ p
      same x = unsome (
          sym (update_self s.objects a (some o))
          ∙ subst (λ c. update s.objects a (some o) c ≡ some p) x q)

  unseen :
      (s : StateDb) (a : Address) (r : Read RawAccount)
      → s.objects a ≡ none
      → read_account db a ≡ r
      → view db s a ≡ loaded_from db a r
  unseen s a r h e = ap (or_loaded db a) h ∙ ap (loaded_from db a) e

  -- Reading an account that is not live.
  load_object_lem :
      (s : StateDb) (a : Address) (r : Read RawAccount)
      → s.objects a ≡ none
      → read_account db a ≡ r
      → ((load_object db s a r).0 ≡ view db s a) × Cached s (load_object db s a r).1
  unfolding load_object new_object
  load_object_lem s a (found raw) h e = (
    seen,
    record {
      views = λ b. view_put s a b (new_object db a raw) (sym seen);
      rest = refl;
      kept = λ k. keyed_put s a (new_object db a raw) refl k;
    },
  )
    where
      seen : some (new_object db a raw) ≡ view db s a
      seen = sym (unseen s a (found raw) h e)
  load_object_lem s a missing h e = (sym (unseen s a missing h e), Cached-refl s)
  load_object_lem s a failed h e =
      (sym (unseen s a failed h e), record { views = λ b. refl; rest = refl; kept = λ k. k })

  abbrev pub Answers : StateDb → Address → Option StateObject × StateDb → Type 0
  Answers s a r = (r.0 ≡ view db s a) × Cached s r.1

  get_deleted_none :
      (s : StateDb) (a : Address)
      → s.objects a ≡ none
      → get_deleted_state_object db s a ≡ load_object db s a (read_account db a)
  unfolding get_deleted_state_object
  get_deleted_none s a h = rw (h, get_deleted_state_object)

  get_deleted_some :
      (s : StateDb) (a : Address) (o : StateObject)
      → s.objects a ≡ some o
      → get_deleted_state_object db s a ≡ (some o, s)
  unfolding get_deleted_state_object
  get_deleted_some s a o h = rw (h, get_deleted_state_object)

  pub get_deleted_lem : (s : StateDb) (a : Address) → Answers s a (get_deleted_state_object db s a)
  get_deleted_lem s a = elim (Option-cases (s.objects a)) [
    | inl h ↦
        subst (Answers s a) (sym (get_deleted_none s a h))
          (load_object_lem s a (read_account db a) h refl)
    | inr (o, h) ↦
        subst (Answers s a) (sym (get_deleted_some s a o h))
          (sym (ap (or_loaded db a) h), Cached-refl s)
  ]

  pub get_state_object_lem :
      (s : StateDb) (a : Address)
      → ((get_state_object db s a).0 ≡ live db (view db s a)) × Cached s (get_state_object db s a).1
  unfolding get_state_object
  get_state_object_lem s a = let (e, c) = get_deleted_lem s a in (ap (live db) e, c)

  pub Cached-Undoes : {s t : StateDb} → IsValidDb db s → Cached s t → Undoes db s t
  Cached-Undoes {s} {t} v c =
      Undoes_silent db
        (record {
          objects_eq = λ a.
              subst (λ (o : Option StateObject). OptSame db (destructed db s a) (view db s a) o)
                (sym (c.views a)) (OptSame-refl db (destructed db s a) (view db s a));
          destructs_eq = sym (ap (λ (x : StateDb). x.snap_destructs) c.rest);
          refund_eq = sym (ap (λ (x : StateDb). x.refund) c.rest);
          logs_eq = sym (ap (λ (x : StateDb). x.logs) c.rest);
          log_size_eq = sym (ap (λ (x : StateDb). x.log_size) c.rest);
          preimages_eq = sym (ap (λ (x : StateDb). x.preimages) c.rest);
          access_list_eq = sym (ap (λ (x : StateDb). x.access_list) c.rest);
        })
        (ap (λ (x : StateDb). x.entries) c.rest) (ap (λ (x : StateDb). x.valid_revisions) c.rest)
        (ap (λ (x : StateDb). x.next_revision_id) c.rest)
        (record {
          keyed = c.kept v.keyed;
          slots_full =
              subst IsValid (sym (ap (λ (x : StateDb). x.access_list) c.rest)) v.slots_full;
          log_size_lt =
              subst (λ n. n < 2 ^ 64) (sym (ap (λ (x : StateDb). x.log_size) c.rest)) v.log_size_lt;
        })
