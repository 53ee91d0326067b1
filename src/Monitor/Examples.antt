-- ===== src/Monitor/Examples.antt =====
-- A system that counts up the pids, and a monitor on it.
use ervan.Base.{
  ℕ, suc, ◌<◌, ◌≡◌, ◌≢◌, refl, inl, Bool, true, false, Bool-cases, inr, ◌==◌, ==_iff, if◌then◌else◌,
  codes, [], ◌∷◌, some, none, arith,
}
use ervan.Config.Sync.Agrees.{no_config}
use ervan.Monitor.{System, Entry, Monitor, signal, loop, enter, add, start_monitor}
use ervan.Monitor.Boot.{holds, main_async}
use ervan.Monitor.Boot.Outcome.{Boots, main_async-Boots}
use ervan.Monitor.Runs.{Kernel, World, Step, ends, delivers, Reach, here, next}
use ervan.Monitor.Runs.Entries.{IsOwned, names, loop-IsOwned}
use ervan.Monitor.Runs.Watched.{started, IsWatched, Recovers, started-Watched, started-Recovers}

-- The next pid, and which processes run.
record Table : Type 0 where
  next_pid : ℕ
  runs : ℕ → Bool

abbrev marked : ℕ → Bool → (ℕ → Bool) → ℕ → Bool
marked p v runs q = if q == p then v else runs q

abbrev counting : System
counting = record {
  Processes = Table;
  fork =
      λ s. (s.next_pid, record { next_pid = suc s.next_pid; runs = marked s.next_pid true s.runs });
  thread = λ name s. s;
  waitpid = λ child s. s;
}

marked_same : (p : ℕ) (v : Bool) (runs : ℕ → Bool) → marked p v runs p ≡ v
marked_same p v runs = rw ((==_iff p p).1 refl) refl

marked_other :
    (p q : ℕ) (v : Bool) (runs : ℕ → Bool) → q ≢ p → runs q ≡ true → marked p v runs q ≡ true
marked_other p q v runs n h = elim (Bool-cases (q == p)) [
  | inl e ↦ absurd (n ((==_iff q p).0 e))
  | inr e ↦ rw e h
]

abbrev counting_kernel : Kernel counting
counting_kernel = record {
  Running = λ s p. s.runs p ≡ true;
  Child = λ s p. p < s.next_pid;
  fork-Running = λ s. marked_same s.next_pid true s.runs;
  fork-Child = λ s. omega arith;
  fork_fresh = λ s p h e. omega arith;
  fork_keeps = λ s p h. omega arith;
  waitpid_keeps = λ s child p n h. h;
}

abbrev booted : Table
booted = record { next_pid = 7; runs = λ q. false }

abbrev idle : Monitor
idle = record { entries = []; in_debug = true }

-- The process ends, and the signal is read.
abbrev begun : World counting
begun = started counting no_config idle booted

abbrev ended_table : Table
ended_table = record { next_pid = 8; runs = marked 7 false begun.processes.runs }

abbrev first_entry : Entry
first_entry = record { name = codes "ervan.smtp"; pid = 7 }

abbrev ended : World counting
ended = record {
  monitor = record { entries = first_entry ∷ []; in_debug = false };
  processes = ended_table;
  pending = some 7;
}

begun-ended : Step counting_kernel begun ended
unfolding enter add start_monitor
begun-ended =
    ends begun.monitor begun.processes ended_table none first_entry (inl refl)
      (λ q n h. marked_other 7 q false begun.processes.runs n h) (λ q h. h)

-- After the signal.
abbrev again : World counting
again = record {
  monitor = (signal counting 7 ended.monitor ended.processes).0;
  processes = (signal counting 7 ended.monitor ended.processes).1;
  pending = none;
}

begun-again : Reach counting_kernel begun again
begun-again = next (next here begun-ended) (delivers ended.monitor ended.processes 7)

started-Watched_example : IsWatched counting_kernel again
started-Watched_example =
    started-Watched counting_kernel no_config idle booted again refl refl begun-again

started-Recovers_example : Recovers counting_kernel ended
started-Recovers_example =
    started-Recovers counting_kernel no_config idle booted ended refl refl (next here begun-ended)

abbrev two_entries : Monitor
two_entries = record {
  entries = first_entry ∷ record { name = codes "other"; pid = 6 } ∷ [];
  in_debug = false;
}

loop-IsOwned_example :
    IsOwned counting_kernel
      (loop counting (7 ∷ 8 ∷ 5 ∷ []) two_entries ended_table).0.entries
      (loop counting (7 ∷ 8 ∷ 5 ∷ []) two_entries ended_table).1
    × (names (loop counting (7 ∷ 8 ∷ 5 ∷ []) two_entries ended_table).0.entries
        ≡ names two_entries.entries)
loop-IsOwned_example =
    loop-IsOwned counting_kernel (7 ∷ 8 ∷ 5 ∷ []) two_entries ended_table refl
      ((omega arith, (omega arith, tt)), (((λ e. omega arith), tt), (tt, tt)))

main_async-Boots_example :
    Boots counting_kernel 0
      (holds (codes "port 26\nmaxrcpt 3"))
      booted
      (main_async counting 0 (holds (codes "port 26\nmaxrcpt 3")) idle booted)
main_async-Boots_example =
    main_async-Boots counting_kernel 0 (holds (codes "port 26\nmaxrcpt 3")) idle booted refl
