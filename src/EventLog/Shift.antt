-- ===== src/EventLog/Shift.antt =====
-- internal/eventlog/eventlog.go, rotateIfNeeded: the renames move every file up by one.
use rpc_plugin_system.Prelude.{
  ℕ, zero, suc, ◌≡◌, ◌≤◌, ◌<◌, inl, inr, refl, sym, ◌∙◌, Bool, true, none, arith, ◌==◌, Bool-cases,
  Option-cases, ==_iff,
}
use rpc_plugin_system.EventLog.Types.{Files, set_file}
use rpc_plugin_system.EventLog.Rotate.{shift_one, shift_backups, rename_file, move_backups}

-- Backups 1 to n of `fs` are now 2 to n + 1, and backup 1 is free.
pub record IsShifted (n : ℕ) (fs : Files) (x : Bool × Files) : Type 0 where
  pub fine : x.0 ≡ true
  pub moved : (k : ℕ) → 1 ≤ k → k ≤ n → x.1 (suc k) ≡ fs k
  pub free : x.1 1 ≡ none
  pub log : x.1 0 ≡ fs 0
  pub beyond : (k : ℕ) → suc n < k → x.1 k ≡ fs k

-- The step from n to n + 1.
shift_step :
    (n : ℕ) (fs fs' : Files) (x : Bool × Files)
    → fs (suc (suc n)) ≡ none
    → fs' 0 ≡ fs 0
    → fs' (suc (suc n)) ≡ fs (suc n)
    → ((k : ℕ) → k ≤ n → fs' k ≡ fs k)
    → ((k : ℕ) → suc (suc n) < k → fs' k ≡ fs k)
    → IsShifted n fs' x
    → IsShifted (suc n) fs x
shift_step n fs fs' x gap log top low high s = record {
  fine = s.fine;
  moved = λ k a b. elim (Bool-cases (k == suc n)) [
    | inl e ↦ rw ((==_iff k (suc n)).0 e) (s.beyond (suc (suc n)) (omega arith) ∙ top)
    | inr e ↦
        s.moved k a (ground (arith, ==_iff k (suc n))) ∙ low k (ground (arith, ==_iff k (suc n)))
  ];
  free = s.free;
  log = s.log ∙ log;
  beyond = λ k a. s.beyond k (omega arith) ∙ high k a;
}

shift_backups-IsShifted :
    (ok : ℕ → Bool) (n : ℕ) (fs : Files)
    → ((i : ℕ) → ok i ≡ true)
    → fs (suc n) ≡ none
    → IsShifted n fs (shift_backups ok n fs)
unfolding shift_backups
shift_backups-IsShifted ok zero fs good gap = record {
  fine = refl;
  moved = λ k a b. absurd (omega arith);
  free = gap;
  log = refl;
  beyond = λ k a. refl;
}
shift_backups-IsShifted ok (suc n) fs good gap = elim (Option-cases (fs (suc n))) [
  | inl e ↦ rw e (
      unfold shift_one in
      shift_step n fs fs _ gap refl (gap ∙ sym e) (λ k a. refl) (λ k a. refl)
        (shift_backups-IsShifted ok n fs good e))
  | inr (es, e) ↦
      rw (e, good (suc n))
        (unfold shift_one in
          (shift_step n fs (rename_file (suc n) (suc (suc n)) fs) _ gap (ground arith)
            (ground arith) (λ k a. ground arith) (λ k a. ground arith)
            (shift_backups-IsShifted ok n (rename_file (suc n) (suc (suc n)) fs) good
              (ground arith))))
]

-- All renames of a rotation with n + 1 backups: the last one goes.
pub move_backups-IsShifted :
    (removed : Bool) (ok : ℕ → Bool) (n backups : ℕ) (fs : Files)
    → removed ≡ true
    → ((i : ℕ) → ok i ≡ true)
    → backups ≡ suc n
    → IsShifted n (set_file (suc n) none fs) (move_backups removed ok backups fs)
unfolding move_backups
move_backups-IsShifted removed ok n backups fs r good b =
    rw (b, r) (shift_backups-IsShifted ok n (set_file (suc n) none fs) good (ground arith))
