-- ===== src/Monitor/Runs.antt =====
-- What the operating system does for the monitor, and the steps of the two together.
pub mod Entries
pub mod Watched
use ervan.Base.{ℕ, ◌≡◌, ◌≢◌, Bool, false, List, [], ◌∷◌, ◌⊎◌, Option, none, some}
use ervan.Monitor.{System, Entry, Monitor, signal}

-- fork(2) and waitpid(2): which processes run, and which children of the monitor have not been
-- waited for. `fork` is taken to succeed; its child runs, and its pid is not that of a child that has
-- not been waited for. `waitpid` forgets no other child, and stops no process.
pub record Kernel (sys : System) : Type 1 where
  pub Running : sys.Processes → ℕ → Type 0
  pub Child : sys.Processes → ℕ → Type 0
  pub fork-Running : (s : sys.Processes) → Running (sys.fork s).1 (sys.fork s).0
  pub fork-Child : (s : sys.Processes) → Child (sys.fork s).1 (sys.fork s).0
  pub fork_fresh : (s : sys.Processes) (p : ℕ) → Child s p → (sys.fork s).0 ≢ p
  pub fork_keeps : (s : sys.Processes) (p : ℕ) → Child s p → Child (sys.fork s).1 p
  pub waitpid_keeps :
      (s : sys.Processes) (child p : ℕ) → p ≢ child → Child s p → Child (sys.waitpid child s) p

-- The monitor, the processes, and the child that a pending SIGCHLD names. The signal does not queue:
-- while one is pending, the end of another child raises none.
pub record World (sys : System) : Type 0 where
  pub monitor : Monitor
  pub processes : sys.Processes
  pub pending : Option ℕ

-- The entry is one of the list.
abbrev pub IsEntry : Entry → List Entry → Type 0
IsEntry e [] = ⊥
IsEntry e (x ∷ xs) = (e ≡ x) ⊎ IsEntry e xs

abbrev pub raised : Option ℕ → ℕ → Option ℕ
raised none p = some p
raised (some q) p = some q

module _ {sys : System} (k : Kernel sys) where
  -- A process of an entry ends, or the loop reads the pending signal. That a child is stopped and
  -- continued, which raises the signal too, is left out.
  pub data Step : World sys → World sys → Type 0 where
    ends :
        (m : Monitor) (s s' : sys.Processes) (pending : Option ℕ) (e : Entry)
        → IsEntry e m.entries
        → ((q : ℕ) → q ≢ e.pid → k.Running s q → k.Running s' q)
        → ((q : ℕ) → k.Child s q → k.Child s' q)
        → Step
            (record { monitor = m; processes = s; pending = pending })
            (record { monitor = m; processes = s'; pending = raised pending e.pid })
    delivers :
        (m : Monitor) (s : sys.Processes) (p : ℕ)
        → Step
            (record { monitor = m; processes = s; pending = some p })
            (record {
              monitor = (signal sys p m s).0;
              processes = (signal sys p m s).1;
              pending = none;
            })

  pub data Reach (w : World sys) : World sys → Type 0 where
    here : Reach w w
    next : {t u : World sys} → Reach w t → Step t u → Reach w u
