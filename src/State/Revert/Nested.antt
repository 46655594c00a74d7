-- ===== src/State/Revert/Nested.antt =====
-- core/state/statedb.go: RevertToSnapshot after a run of writes and nested calls.
use zond.Prelude.{
  ℕ, ◌+◌, ◌≤◌, ◌<◌, ◌^◌, ◌≡◌, refl, sym, ap, subst, ◌∙◌, Bool, true, false, Option, none, some,
  List, [], ◌∷◌, ◌++◌, bind, arith, take, drop, length, take-append, drop-append, All, All-append,
}
use zond.State.Account.{Backend}
use zond.State.Db.{
  StateDb, Entry, undo, revert_journal, snapshot, find_revision, revert_to_snapshot,
}
use zond.State.AccessList.Undo.{IsValid}
use zond.State.Revert.{
  Keyed, Undoes_silent, Same, Same-refl, Same-trans, IsValidDb, Undoes, undo-append,
}
use zond.State.Revert.Tidy.{undo-IsTidy}
use zond.State.Revert.Program.{Program, done, write, call, exec, leave, run, exec-Undoes, unsome}
use mathlib.Core.List.{append-nil, append_assoc}
use mathlib.Core.Option

-- The ids of the revisions are below the next one.
abbrev pub IdsBelow : ℕ → List (ℕ × ℕ) → Type 0
IdsBelow n rs = All (λ (r : ℕ × ℕ). r.0 < n) rs

IdsBelow-mono : (m n : ℕ) (rs : List (ℕ × ℕ)) → m ≤ n → IdsBelow m rs → IdsBelow n rs
IdsBelow-mono m n [] h k = tt
IdsBelow-mono m n ((i, j) ∷ rs) h (k, ks) = (omega arith, IdsBelow-mono m n rs h ks)

module _ (db : Backend) where
  -- Behind smaller ids, an id is found where it stands.
  find_revision_lem :
      (id n : ℕ) (rs extra : List (ℕ × ℕ))
      → IdsBelow id rs
      → find_revision db id (rs ++ (id, n) ∷ extra) ≡ some (rs, n)
  unfolding find_revision
  find_revision_lem id n [] extra h = ground arith
  find_revision_lem id n ((i, j) ∷ rs) extra (h, hs) =
      let rest = find_revision_lem id n rs extra hs in ground arith

  -- What holds between the start and the end of any run.
  pub record Grows (s s' : StateDb) : Type 0 where
    pub added : List Entry
    pub grown : s'.entries ≡ s.entries ++ added
    pub back :
        (t : StateDb) → Same db s' t → (u : StateDb) × (undo db added t ≡ some u) × Same db s u
    pub extra : List (ℕ × ℕ)
    pub revisions_grown : s'.valid_revisions ≡ s.valid_revisions ++ extra
    pub next_le : s.next_revision_id ≤ s'.next_revision_id
    pub below : IdsBelow s'.next_revision_id s'.valid_revisions
    pub valid : IsValidDb db s'

  Grows-trans : {s t u : StateDb} → Grows s t → Grows t u → Grows s u
  Grows-trans {s} {t} {u} h k = record {
    added = h.added ++ k.added;
    grown = k.grown ∙ ap (λ l. l ++ k.added) h.grown ∙ append_assoc s.entries h.added k.added;
    back = λ x r.
        let (y, e, same) = k.back x r in
        let (z, e', same') = h.back y same in (z, undo-append db h.added k.added x y e ∙ e', same');
    extra = h.extra ++ k.extra;
    revisions_grown =
        k.revisions_grown
        ∙ ap (λ l. l ++ k.extra) h.revisions_grown
        ∙ append_assoc s.valid_revisions h.extra k.extra;
    next_le = let a = h.next_le in let b = k.next_le in omega arith;
    below = k.below;
    valid = k.valid;
  }

  Undoes-Grows :
      {s s' : StateDb} → IdsBelow s.next_revision_id s.valid_revisions → Undoes db s s' → Grows s s'
  Undoes-Grows {s} {s'} b h = record {
    added = h.added;
    grown = h.grown;
    back = h.back;
    extra = [];
    revisions_grown = h.revisions_eq ∙ sym (append-nil s.valid_revisions);
    next_le = let e = h.next_eq in omega arith;
    below =
        subst (λ n. IdsBelow n s'.valid_revisions) (sym h.next_eq)
          (subst (IdsBelow s.next_revision_id) (sym h.revisions_eq) b);
    valid = h.valid;
  }

  -- A step that readers do not see, which may take or drop later revisions.
  Grows-silent :
      {s s' : StateDb} (extra : List (ℕ × ℕ))
      → Same db s s'
      → s'.entries ≡ s.entries
      → s'.valid_revisions ≡ s.valid_revisions ++ extra
      → s.next_revision_id ≤ s'.next_revision_id
      → IdsBelow s'.next_revision_id s'.valid_revisions
      → IsValidDb db s'
      → Grows s s'
  unfolding undo
  Grows-silent {s} {s'} extra same e r n b v = record {
    added = [];
    grown = e ∙ sym (append-nil s.entries);
    back = λ t h. (t, refl, Same-trans db same h);
    extra = extra;
    revisions_grown = r;
    next_le = n;
    below = b;
    valid = v;
  }

  -- Readers do not see Snapshot.
  snapshot-Same : (s : StateDb) → Same db s (snapshot db s).1
  unfolding snapshot
  snapshot-Same s =
      let r = Same-refl db s in
      record {
        objects_eq = r.objects_eq;
        destructs_eq = refl;
        refund_eq = refl;
        logs_eq = refl;
        log_size_eq = refl;
        preimages_eq = refl;
        access_list_eq = refl;
      }

  snapshot-IsValidDb : (s : StateDb) → IsValidDb db s → IsValidDb db (snapshot db s).1
  unfolding snapshot
  snapshot-IsValidDb s v = record {
    keyed = v.keyed;
    slots_full = v.slots_full;
    log_size_lt = v.log_size_lt;
  }

  snapshot-Grows :
      (s : StateDb)
      → IsValidDb db s
      → IdsBelow s.next_revision_id s.valid_revisions
      → Grows s (snapshot db s).1
  unfolding snapshot
  snapshot-Grows s v b =
      Grows-silent ((s.next_revision_id, length s.entries) ∷ []) (snapshot-Same s) refl refl
        (omega arith)
        (All-append (λ (r : ℕ × ℕ). r.0 < s.next_revision_id + 1) s.valid_revisions _
          (IdsBelow-mono s.next_revision_id (s.next_revision_id + 1) s.valid_revisions (omega arith)
            b)
          (omega arith, tt))
        (snapshot-IsValidDb s v)

  -- What RevertToSnapshot gives for the id of a snapshot.
  pub record Restored (s s2 : StateDb) : Type 0 where
    pub result : StateDb
    pub reverts : revert_to_snapshot db s2 s.next_revision_id ≡ some result
    pub same : Same db s result
    pub entries_back : result.entries ≡ s.entries
    pub revisions_back : result.valid_revisions ≡ s.valid_revisions
    pub next_kept : result.next_revision_id ≡ s2.next_revision_id
    pub still_valid : IsValidDb db result

  Same-IsValidDb : (s u : StateDb) → Keyed db u → Same db s u → IsValidDb db s → IsValidDb db u
  Same-IsValidDb s u k h v = record {
    keyed = k;
    slots_full = subst IsValid h.access_list_eq v.slots_full;
    log_size_lt = subst (λ n. n < 2 ^ 64) h.log_size_eq v.log_size_lt;
  }

  -- The record that RevertToSnapshot writes its fields to
  abbrev closed : StateDb → StateDb → StateDb
  closed s u = record u {
    entries = take (length s.entries) u.entries;
    valid_revisions = s.valid_revisions;
  }

  closed-Same : (s u : StateDb) → Same db s u → Same db s (closed s u)
  closed-Same s u h = record {
    objects_eq = h.objects_eq;
    destructs_eq = h.destructs_eq;
    refund_eq = h.refund_eq;
    logs_eq = h.logs_eq;
    log_size_eq = h.log_size_eq;
    preimages_eq = h.preimages_eq;
    access_list_eq = h.access_list_eq;
  }

  reverts_lem :
      (s s2 u : StateDb) (added : List Entry) (extra : List (ℕ × ℕ))
      → IdsBelow s.next_revision_id s.valid_revisions
      → s2.entries ≡ s.entries ++ added
      → s2.valid_revisions ≡ s.valid_revisions ++ (s.next_revision_id, length s.entries) ∷ extra
      → undo db added s2 ≡ some u
      → revert_to_snapshot db s2 s.next_revision_id ≡ some (closed s u)
  unfolding revert_to_snapshot revert_journal
  reverts_lem s s2 u added extra b e r h =
      let found =
        find_revision_lem s.next_revision_id (length s.entries) s.valid_revisions extra b in
      let left = ap (drop (length s.entries)) e ∙ drop-append s.entries added in
      ap (λ rs. bind rs close_over) (ap (find_revision db s.next_revision_id) r ∙ found)
      ∙ ap (λ es. Option.map close (Option.map cut (undo db es s2))) left
      ∙ ap (λ x. Option.map close (Option.map cut x)) h
    where
      cut : StateDb → StateDb
      cut t = record t { entries = take (length s.entries) t.entries }

      close : StateDb → StateDb
      close t = record t { valid_revisions = s.valid_revisions }

      close_over : List (ℕ × ℕ) × ℕ → Option StateDb
      close_over q =
          Option.map (λ (t : StateDb). record t { valid_revisions = q.0 })
            (revert_journal db s2 q.1)

  Grows-Restored :
      (s s2 : StateDb)
      → IsValidDb db s
      → IdsBelow s.next_revision_id s.valid_revisions
      → Grows (snapshot db s).1 s2
      → Restored s s2
  unfolding snapshot
  Grows-Restored s s2 v b g =
      let (u, e, same) = g.back s2 (Same-refl db s2) in
      let tidy = undo-IsTidy db g.added s2 u e in
      let seen = Same-trans db (snapshot-Same s) same in
      record {
        result = closed s u;
        reverts =
            reverts_lem s s2 u g.added g.extra b g.grown
              (g.revisions_grown ∙ append_assoc s.valid_revisions _ g.extra) e;
        same = closed-Same s u seen;
        entries_back =
            ap (take (length s.entries)) (tidy.entries_eq ∙ g.grown)
            ∙ take-append s.entries g.added;
        revisions_back = refl;
        next_kept = tidy.next_eq;
        still_valid =
            Same-IsValidDb s (closed s u) (tidy.keyed g.valid.keyed) (closed-Same s u seen) v;
      }

  Restored-Grows :
      {s s2 : StateDb}
      → IdsBelow s.next_revision_id s.valid_revisions
      → s.next_revision_id ≤ s2.next_revision_id
      → (r : Restored s s2) → Grows s r.result
  Restored-Grows {s} {s2} b n r =
      let m = r.next_kept in
      Grows-silent [] r.same r.entries_back (r.revisions_back ∙ sym (append-nil s.valid_revisions))
        (omega arith)
        (subst (IdsBelow r.result.next_revision_id) (sym r.revisions_back) (
          IdsBelow-mono s.next_revision_id r.result.next_revision_id s.valid_revisions (omega arith)
            b))
        r.still_valid

  bind-some :
      {A B : Type 0} (x : Option A) (f : A → Option B) (y : B)
      → bind x f ≡ some y
      → (a : A) × (x ≡ some a) × (f a ≡ some y)
  bind-some none f y h = cc
  bind-some (some a) f y h = (a, refl, h)

  leave-Grows :
      (s s2 s3 : StateDb) (failed : Bool)
      → IsValidDb db s
      → IdsBelow s.next_revision_id s.valid_revisions
      → Grows (snapshot db s).1 s2
      → leave db failed s.next_revision_id s2 ≡ some s3
      → Grows s s3
  unfolding leave
  leave-Grows s s2 s3 false v b g h =
      subst (Grows s) (unsome db h) (Grows-trans (snapshot-Grows s v b) g)
  leave-Grows s s2 s3 true v b g h =
      let r = Grows-Restored s s2 v b g in
      subst (Grows s) (unsome db (sym r.reverts ∙ h))
        (Restored-Grows b (Grows-trans (snapshot-Grows s v b) g).next_le r)

  run-Grows :
      (p : Program) (s s' : StateDb)
      → IsValidDb db s
      → IdsBelow s.next_revision_id s.valid_revisions
      → run db p s ≡ some s'
      → Grows s s'
  unfolding run snapshot
  run-Grows done s s' v b h =
      subst (Grows s) (unsome db h)
        (Undoes-Grows b (Undoes_silent db (Same-refl db s) refl refl refl v))
  run-Grows (write w p) s s' v b h =
      let (t, e, k) = bind-some (exec db w s) (run db p) s' h in
      let g = Undoes-Grows b (exec-Undoes db w s t v e) in
      Grows-trans g (run-Grows p t s' g.valid g.below k)
  run-Grows (call p failed q) s s' v b h =
      let (s3, e, k) = bind-some _ (run db q) s' h in
      let (s2, e2, k2) = bind-some (run db p (snapshot db s).1) _ s3 e in
      let t = snapshot-Grows s v b in
      let g =
        leave-Grows s s2 s3 failed v b (run-Grows p (snapshot db s).1 s2 t.valid t.below e2) k2 in
      Grows-trans g (run-Grows q s3 s' g.valid g.below k)

  -- Take a snapshot of a valid database whose revision ids are below the next one, and run any
  -- journaled writes other than SetOTSBitfield, with nested calls that take snapshots and revert
  -- to them or keep their writes, such that nothing panics. Then RevertToSnapshot with the
  -- snapshot's id does not panic, and gives a valid database that readers cannot tell from the
  -- first (accounts, code, storage, flags, destructed accounts, refund, logs, preimages and
  -- access list), with its journal entries and its revisions.
  pub run-Restored :
      (p : Program) (s s2 : StateDb)
      → IsValidDb db s
      → IdsBelow s.next_revision_id s.valid_revisions
      → run db p (snapshot db s).1 ≡ some s2
      → Restored s s2
  run-Restored p s s2 v b h =
      let t = snapshot-Grows s v b in
      Grows-Restored s s2 v b (run-Grows p (snapshot db s).1 s2 t.valid t.below h)
