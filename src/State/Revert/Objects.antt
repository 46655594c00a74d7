-- ===== src/State/Revert/Objects.antt =====
-- core/state: setters of an account. Each appends one entry, and the entry's revert writes back the
-- part that the setter changed.
use zond.Prelude.{ℕ, ◌≡◌, ◌≢◌, refl, sym, ap, subst, ◌∙◌, Bool, false, Option, none, some, [], ◌∷◌}
use zond.State.Account.{Address, Backend, StateObject}
use zond.State.Db.{
  StateDb, Entry, put_object, append, on_object, get_state_object, live, revert_entry, undo_entry,
  dirtied, drop_dirty, undo,
}
use zond.State.Ops.{journaled}
use zond.State.Revert.{view, destructed, ObjSame, OptSame, Same, IsValidDb, Undoes}
use zond.State.Revert.Cache.{Cached, get_state_object_lem, view_put_self, view_put_ne, keyed_put}
use native.Mathlib.Decide.{ℕ_discrete}
use mathlib.Core.Option

module _ (db : Backend) where
  -- The fields that readers see besides the objects
  pub record Rest (s t : StateDb) : Type 0 where
    pub destructs_eq : s.snap_destructs ≡ t.snap_destructs
    pub refund_eq : s.refund ≡ t.refund
    pub logs_eq : s.logs ≡ t.logs
    pub log_size_eq : s.log_size ≡ t.log_size
    pub preimages_eq : s.preimages ≡ t.preimages
    pub access_list_eq : s.access_list ≡ t.access_list

  pub Same-Rest :
      {s t : StateDb}
      → ((a : Address) → OptSame db (destructed db s a) (view db s a) (view db t a))
      → Rest s t
      → Same db s t
  Same-Rest h r = record {
    objects_eq = h;
    destructs_eq = r.destructs_eq;
    refund_eq = r.refund_eq;
    logs_eq = r.logs_eq;
    log_size_eq = r.log_size_eq;
    preimages_eq = r.preimages_eq;
    access_list_eq = r.access_list_eq;
  }

  pub Rest-Same : {s t : StateDb} → Same db s t → Rest s t
  Rest-Same r = record {
    destructs_eq = r.destructs_eq;
    refund_eq = r.refund_eq;
    logs_eq = r.logs_eq;
    log_size_eq = r.log_size_eq;
    preimages_eq = r.preimages_eq;
    access_list_eq = r.access_list_eq;
  }

  -- `t` read like `s` but for the account `a`, where `q` is put, which readers take for `o`.
  pub Same-put :
      (s t : StateDb) (a : Address) (o q : StateObject)
      → ((b : Address) → b ≢ a → OptSame db (destructed db s b) (view db s b) (view db t b))
      → Rest s t
      → view db s a ≡ some o
      → ObjSame db (destructed db s a) o q
      → Same db s (put_object t a q)
  Same-put s t a o q others r e k =
      Same-Rest
        (λ b. elim (ℕ_discrete b a) [
          | yes x ↦
              subst
                (λ c. OptSame db (destructed db s c) (view db s c) (view db (put_object t a q) c))
                (sym x) here
          | no n ↦
              subst (λ (v : Option StateObject). OptSame db (destructed db s b) (view db s b) v)
                (sym (view_put_ne db t a b q n)) (others b n)
        ])
        (record {
          destructs_eq = r.destructs_eq;
          refund_eq = r.refund_eq;
          logs_eq = r.logs_eq;
          log_size_eq = r.log_size_eq;
          preimages_eq = r.preimages_eq;
          access_list_eq = r.access_list_eq;
        })
    where
      here : OptSame db (destructed db s a) (view db s a) (view db (put_object t a q) a)
      here =
          subst
            (λ (v : Option StateObject).
              OptSame db (destructed db s a) v (view db (put_object t a q) a))
            (sym e)
            (subst (λ (v : Option StateObject). OptSame db (destructed db s a) (some o) v)
              (sym (view_put_self db t a q)) k)

  -- Where readers see an object on one side, they see one on the other.
  pub OptSame-some :
      (d : Bool) (o : StateObject) (v : Option StateObject)
      → OptSame db d (some o) v
      → (p : StateObject) × (v ≡ some p) × ObjSame db d o p
  OptSame-some d o none h = elim h [ ]
  OptSame-some d o (some p) h = (p, refl, h)

  pub live_lem : (p : StateObject) → p.deleted ≡ false → live db (some p) ≡ some p
  unfolding live
  live_lem p h = rw h refl

  -- What `on_object` does on a database where readers see the live object `p`.
  pub on_object_lem :
      (t : StateDb) (a : Address) (p : StateObject) (f : StateObject → StateObject)
      → view db t a ≡ some p
      → p.deleted ≡ false
      → (t' : StateDb) × Cached db t t' × (on_object db t a f ≡ some (put_object t' a (f p)))
  unfolding on_object
  on_object_lem t a p f e l =
      let (answer, c) = get_state_object_lem db t a in
      let t' = (get_state_object db t a).1 in
      (
        t',
        c,
        ap (λ (x : Option StateObject). Option.map (λ o. put_object t' a (f o)) x)
            (answer ∙ ap (live db) e ∙ live_lem p l),
      )

  -- The undo of one entry is its revert, up to the count of dirty accounts.
  pub undo_one :
      (e : Entry) (t u : StateDb)
      → revert_entry db e t ≡ some u
      → (d : Address → ℕ) × (undo db (e ∷ []) t ≡ some (record u { dirties = d }))
  unfolding undo undo_entry
  undo_one e t u h = (
    drop_dirty (dirtied e) u.dirties,
    ap
        (λ (x : Option StateDb).
          Option.map (λ (y : StateDb). record y { dirties = drop_dirty (dirtied e) y.dirties }) x)
        h,
  )

  pub Same-dirties :
      {s u : StateDb} (d : Address → ℕ) → Same db s u → Same db s (record u { dirties = d })
  Same-dirties d h = Same-Rest h.objects_eq (record {
    destructs_eq = h.destructs_eq;
    refund_eq = h.refund_eq;
    logs_eq = h.logs_eq;
    log_size_eq = h.log_size_eq;
    preimages_eq = h.preimages_eq;
    access_list_eq = h.access_list_eq;
  })

  Cached-OptSame :
      (s : StateDb) {t t' : StateDb}
      → Cached db t t'
      → (b : Address) → OptSame db (destructed db s b) (view db s b) (view db t b)
      → OptSame db (destructed db s b) (view db s b) (view db t' b)
  Cached-OptSame s c b h =
      subst (λ (v : Option StateObject). OptSame db (destructed db s b) (view db s b) v)
        (sym (c.views b)) h

  pub Cached-Rest : {s t t' : StateDb} → Rest s t → Cached db t t' → Rest s t'
  Cached-Rest r c = record {
    destructs_eq = r.destructs_eq ∙ sym (ap (λ (x : StateDb). x.snap_destructs) c.rest);
    refund_eq = r.refund_eq ∙ sym (ap (λ (x : StateDb). x.refund) c.rest);
    logs_eq = r.logs_eq ∙ sym (ap (λ (x : StateDb). x.logs) c.rest);
    log_size_eq = r.log_size_eq ∙ sym (ap (λ (x : StateDb). x.log_size) c.rest);
    preimages_eq = r.preimages_eq ∙ sym (ap (λ (x : StateDb). x.preimages) c.rest);
    access_list_eq = r.access_list_eq ∙ sym (ap (λ (x : StateDb). x.access_list) c.rest);
  }

  -- A journaled write of `o'` over the live object `o` is undone by the entry `e` if its revert
  -- applies `f` to the object, and `f` takes whatever reads like `o'` back to what reads like `o`.
  pub journaled-Undoes :
      (s : StateDb) (a : Address) (o o' : StateObject) (e : Entry) (f : StateObject → StateObject)
      → IsValidDb db s
      → view db s a ≡ some o
      → o'.address ≡ a
      → o'.deleted ≡ false
      → ((t u : StateDb) → on_object db t a f ≡ some u → revert_entry db e t ≡ some u)
      → ((p : StateObject)
          → ObjSame db (destructed db s a) o' p
          → ObjSame db (destructed db s a) o (f p))
      → Undoes db s (journaled s a e o')
  unfolding journaled
  journaled-Undoes s a o o' e f v seen addr alive rev restore = record {
    added = e ∷ [];
    grown = refl;
    back = back;
    revisions_eq = refl;
    next_eq = refl;
    valid = record {
      keyed = keyed_put db s a o' addr v.keyed;
      slots_full = v.slots_full;
      log_size_lt = v.log_size_lt;
    };
  }
    where
      back :
          (t : StateDb)
          → Same db (put_object (append s e) a o') t
          → (u : StateDb) × (undo db (e ∷ []) t ≡ some u) × Same db s u
      back t h =
          let (p, sees, like) = OptSame-some (destructed db s a) o' (view db t a) (
            subst (λ (w : Option StateObject). OptSame db (destructed db s a) w (view db t a))
              (view_put_self db (append s e) a o') (h.objects_eq a)) in
          let same_rest : Rest s t = record {
            destructs_eq = h.destructs_eq;
            refund_eq = h.refund_eq;
            logs_eq = h.logs_eq;
            log_size_eq = h.log_size_eq;
            preimages_eq = h.preimages_eq;
            access_list_eq = h.access_list_eq;
          } in
          let (t', c, done) = on_object_lem t a p f sees (sym like.deleted_eq ∙ alive) in
          let (d, undone) =
            undo_one e t (put_object t' a (f p)) (rev t (put_object t' a (f p)) done) in
          (
            record (put_object t' a (f p)) { dirties = d },
            undone,
            Same-dirties d (
                Same-put s t' a o (f p)
                  (λ b n. Cached-OptSame s c b (
                    subst
                      (λ (w : Option StateObject). OptSame db (destructed db s b) w (view db t b))
                      (view_put_ne db (append s e) a b o' n) (h.objects_eq b)))
                  (Cached-Rest same_rest c) seen (restore p like)),
          )
