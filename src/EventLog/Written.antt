-- ===== src/EventLog/Written.antt =====
-- internal/eventlog/eventlog.go, Write: where an event goes, and what a rotation keeps.
use rpc_plugin_system.Prelude.{
  ℕ, suc, ◌+◌, ◌≡◌, ◌≤◌, ◌<◌, ◌⊎◌, inl, inr, refl, sym, ◌∙◌, Bool, true, false, not, ◌||◌, Option,
  none, some, List, [], ◌∷◌, ◌++◌, arith, ◌==◌, Bool-cases, ==_iff, leb, if_cases,
}
use rpc_plugin_system.EventLog.Types.{
  Event, Files, Logger, LogError, Sizes, set_file, file_size, lines_size,
}
use rpc_plugin_system.EventLog.Rotate.{
  FileSystem, shift_one, rotation_event, append_to_log, begin_log, after_moves, rotate,
  rotate_if_needed,
}
use rpc_plugin_system.EventLog.Write.{completed, after_rotation, write}
use rpc_plugin_system.EventLog.Shift.{IsShifted, move_backups-IsShifted}

-- Nothing fails.
pub record IsGood (sys : FileSystem) : Type 0 where
  pub marshals : sys.marshals ≡ true
  pub stat_ok : sys.stat_ok ≡ true
  pub close_ok : sys.close_ok ≡ true
  pub remove_ok : sys.remove_ok ≡ true
  pub rename_ok : (i : ℕ) → sys.rename_ok i ≡ true
  pub open_ok : sys.open_ok ≡ true
  pub rotation_marshals : sys.rotation_marshals ≡ true
  pub rotation_written : sys.rotation_written ≡ true
  pub rotation_synced : sys.rotation_synced ≡ true
  pub written : sys.written ≡ true
  pub synced : sys.synced ≡ true

-- A log of n + 1 backups after a rotation.
pub record IsRotated (n : ℕ) (news : List Event) (before after : Logger) : Type 0 where
  pub is_open : after.is_open ≡ true
  pub log : after.files 0 ≡ some news
  pub moved : (k : ℕ) → k ≤ n → after.files (suc k) ≡ before.files k
  pub beyond : (k : ℕ) → suc n < k → after.files k ≡ before.files k

module _ (sys : FileSystem) (good : IsGood sys) (n : ℕ) (es : List Event) where
  after_moves-IsRotated :
      (before l : Logger) (x : Bool × Files)
      → before.files 0 ≡ some es
      → IsShifted n (set_file (suc n) none before.files) x
      → ((after_moves sys l x).0 ≡ none)
        × IsRotated n (rotation_event sys.now ∷ []) before (after_moves sys l x).1
  unfolding after_moves
  after_moves-IsRotated before l (false, fs) h s = absurd (ground (arith, s.fine))
  after_moves-IsRotated before l (true, fs) h s =
      let top : fs 0 ≡ some es = s.log ∙ (ground (arith, h)) in
      rw (top, good.rename_ok 0)
        (unfold shift_one in
          unfold begin_log in
          rw (good.open_ok, good.rotation_marshals, good.rotation_written, good.rotation_synced)
            (
              refl,
              record {
                is_open = refl;
                log = refl;
                moved = λ k b. elim (Bool-cases (k == 0)) [
                  | inl e ↦ rw ((==_iff k 0).0 e) (top ∙ sym h)
                  | inr e ↦ ground (arith, s.moved k, ==_iff k 0)
                ];
                beyond = λ k b. ground (arith, s.beyond k b);
              },
            ))

  rotate-IsRotated :
      (l : Logger)
      → l.files 0 ≡ some es
      → l.max_backups ≡ suc n
      → ((rotate sys l).0 ≡ none) × IsRotated n (rotation_event sys.now ∷ []) l (rotate sys l).1
  unfolding rotate
  rotate-IsRotated l h b =
      after_moves-IsRotated l (record l { is_open = false }) _ h
        (move_backups-IsShifted sys.remove_ok sys.rename_ok n l.max_backups l.files good.remove_ok
          good.rename_ok b)

-- The event is the last line of the log, or the log was too long and it is the second line of a new
-- one.
abbrev pub Appends : FileSystem → Sizes → Event → ℕ → List Event → Logger → Logger → Type 0
Appends sys size e n es l l' =
    ((l'.files 0 ≡ some (es ++ e ∷ []))
      × (file_size size (l'.files 0) ≤ l.max_bytes)
      × ((k : ℕ) → 1 ≤ k → l'.files k ≡ l.files k))
    ⊎ IsRotated n (rotation_event sys.now ∷ (e ∷ [])) l l'

lines_size-append :
    (size : Sizes) (es : List Event) (e : Event)
    → lines_size size (es ++ e ∷ []) ≡ lines_size size es + size e
lines_size-append size [] e = omega arith
lines_size-append size (x ∷ es) e = omega (arith, lines_size-append size es e)

after_rotation-ok :
    (sys : FileSystem) (e : Event) (l : Logger)
    → IsGood sys
    → l.is_open ≡ true
    → after_rotation sys e (none, l) ≡ (none, append_to_log e l)
unfolding after_rotation
after_rotation-ok sys e l good h = rw (h, good.written, good.synced) refl

append-IsRotated :
    (e r : Event) (n : ℕ) (l l' : Logger)
    → IsRotated n (r ∷ []) l l'
    → IsRotated n (r ∷ (e ∷ [])) l (append_to_log e l')
append-IsRotated e r n l l' i = record {
  is_open = i.is_open;
  log = rw i.log refl;
  moved = λ k b. ground (arith, i.moved k b);
  beyond = λ k b. ground (arith, i.beyond k b);
}

rotation-Appends :
    (sys : FileSystem) (size : Sizes) (e : Event) (n : ℕ) (es : List Event) (l : Logger)
    (x : Option LogError × Logger)
    → IsGood sys
    → (x.0 ≡ none) × IsRotated n (rotation_event sys.now ∷ []) l x.1
    → ((after_rotation sys e x).0 ≡ none) × Appends sys size e n es l (after_rotation sys e x).1
rotation-Appends sys size e n es l (some err, l') good (h, i) = absurd (ground (arith, h))
rotation-Appends sys size e n es l (none, l') good (h, i) =
    rw (after_rotation-ok sys e l' good i.is_open)
      (refl, inr (append-IsRotated e (rotation_event sys.now) n l l' i))

fits-Appends :
    (sys : FileSystem) (size : Sizes) (e : Event) (n : ℕ) (es : List Event) (l : Logger)
    → IsGood sys
    → l.is_open ≡ true
    → l.files 0 ≡ some es
    → leb (file_size size (l.files 0) + size e) l.max_bytes ≡ true
    → ((after_rotation sys e (none, l)).0 ≡ none)
      × Appends sys size e n es l (after_rotation sys e (none, l)).1
fits-Appends sys size e n es l good o h b = rw (after_rotation-ok sys e l good o) (
  refl,
  inl (ground (arith, h), ground (arith, h, b, lines_size-append size es e), λ k a. ground arith),
)

-- When no system call fails, a write to an open log with n + 1 backups and a size limit succeeds.
-- Either the completed event becomes the last line of the log, which stays within the limit, and no
-- backup changes; or the log begins anew with the rotation event and this one, the old log is backup
-- 1 and each backup but the last has moved up by one.
pub write-Appends :
    (sys : FileSystem) (size : Sizes) (e : Event) (n : ℕ) (es : List Event) (l : Logger)
    → IsGood sys
    → l.is_open ≡ true
    → l.files 0 ≡ some es
    → l.max_backups ≡ suc n
    → 1 ≤ l.max_bytes
    → ((write sys size e l).0 ≡ none)
      × Appends sys size (completed sys.now e) n es l (write sys size e l).1
unfolding write rotate_if_needed
write-Appends sys size e n es l good o h b m =
    let c = completed sys.now e in
    let P : Option LogError × Logger → Type 0 = λ x.
      ((after_rotation sys c x).0 ≡ none) × Appends sys size c n es l (after_rotation sys c x).1 in
    if_cases {A = Option LogError × Logger} (λ x. (x.0 ≡ none) × Appends sys size c n es l x.1)
      (not sys.marshals) (λ k. absurd (ground (arith, good.marshals, k)))
      (λ k0.
        if_cases P (l.max_bytes == 0) (λ k. absurd (ground (arith, ==_iff l.max_bytes 0)))
          (λ k1.
            if_cases P (not l.is_open || not sys.stat_ok)
              (λ k. absurd (ground (arith, good.stat_ok, o, k)))
              (λ k2.
                if_cases P (leb (file_size size (l.files 0) + size c) l.max_bytes)
                  (λ k. fits-Appends sys size c n es l good o h k)
                  (λ k3.
                    if_cases P (not sys.close_ok) (λ k. absurd (ground (arith, good.close_ok, k)))
                      (λ k.
                        rotation-Appends sys size c n es l (rotate sys l) good
                          (rotate-IsRotated sys good n es l h b))))))
