-- ===== src/Vm/Analysis/Rounds.antt =====
-- core/vm/analysis.go: the loops of set16 and set8 and the switch behind them mark the data of a PUSH.
use zond.Prelude.{
  ℕ, zero, suc, ◌+◌, ◌-◌, ◌*◌, ◌≤◌, ◌<◌, ◌≡◌, sym, subst, some, ◌==◌, ==_iff, ltb, if-cases, length,
  bind, arith,
}
use zond.Vm.{Bytes}
use zond.Vm.Analysis.{set8, set16, mark_rest, mark8, mark16}
use zond.Vm.Analysis.Marks.{Clean, Marked-zero}
use zond.Vm.Analysis.Writing.{byte, Marks, Marks-bind, set_n-Marks, set8-Marks, set16-Marks}

mark_rest-Marks :
    (n pos l : ℕ) (bits : Bytes)
    → n < 8
    → length bits ≡ l
    → pos + n < 8 * l
    → Clean pos (byte bits)
    → Marks l pos n (byte bits) (mark_rest n pos bits)
unfolding mark_rest
mark_rest-Marks n pos l bits h e k c =
    if-cases (Marks l pos n (byte bits)) (n == 0)
      (λ t.
        subst (λ n. Marks l pos n (byte bits) (some bits)) (sym ((==_iff n 0).0 t))
          (e, Marked-zero pos (byte bits) c))
      (λ t. set_n-Marks n pos l bits h e k c)

mark8-Marks :
    (rounds n pos l : ℕ) (bits : Bytes)
    → n < 8 * suc rounds
    → length bits ≡ l
    → pos + n < 8 * l
    → Clean pos (byte bits)
    → Marks l pos n (byte bits) (mark8 rounds n pos bits)
unfolding mark8
mark8-Marks zero n pos l bits h e k c = mark_rest-Marks n pos l bits (omega arith) e k c
mark8-Marks (suc rounds) n pos l bits h e k c =
    if-cases (Marks l pos n (byte bits)) (ltb n 8)
      (λ t. mark_rest-Marks n pos l bits (ground (arith, t)) e k c)
      (λ t.
        let big : 8 ≤ n = ground (arith, t) in
        subst
          (λ m.
            Marks l pos m (byte bits)
              (bind (set8 pos bits) (λ b. mark8 rounds (n - 8) (pos + 8) b)))
          (omega (arith, big))
          (Marks-bind l pos 8 (n - 8) (byte bits) (set8 pos bits) _
            (set8-Marks pos l bits e (omega arith) c)
            λ b g m. mark8-Marks rounds (n - 8) (pos + 8) l b (omega arith) g (omega arith) m.0))

pub mark16-Marks :
    (rounds n pos l : ℕ) (bits : Bytes)
    → n < 16 * suc rounds
    → length bits ≡ l
    → pos + n < 8 * l
    → Clean pos (byte bits)
    → Marks l pos n (byte bits) (mark16 rounds n pos bits)
unfolding mark16
mark16-Marks zero n pos l bits h e k c = mark8-Marks 2 n pos l bits (omega arith) e k c
mark16-Marks (suc rounds) n pos l bits h e k c =
    if-cases (Marks l pos n (byte bits)) (ltb n 16)
      (λ t. mark8-Marks 2 n pos l bits (ground (arith, t)) e k c)
      (λ t.
        let big : 16 ≤ n = ground (arith, t) in
        subst
          (λ m.
            Marks l pos m (byte bits)
              (bind (set16 pos bits) (λ b. mark16 rounds (n - 16) (pos + 16) b)))
          (omega (arith, big))
          (Marks-bind l pos 16 (n - 16) (byte bits) (set16 pos bits) _
            (set16-Marks pos l bits e (omega arith) c)
            λ b g m. mark16-Marks rounds (n - 16) (pos + 16) l b (omega arith) g (omega arith) m.0))
