-- ===== src/Monitor.antt =====
-- main/src/monitor.cpp, main/include/ervan/main/monitor.hpp and the start of main/src/main.cpp: the
-- process that starts the SMTP process and starts it again when it ends. Processes and threads are
-- the operating system's: a parameter. The log is left out.
pub mod Runs
pub mod Boot
mod Examples
use ervan.Base.{ℕ, Bool, true, false, ◌==◌, Bytes, codes, List, [], ◌∷◌, ◌++◌}
use ervan.Config.{Config}
use ervan.Config.Values.{get_debug}

-- `fork`, in the parent, yields a pid's 32 bits, as the comparison with `ssi_pid` reads them; a
-- thread that runs an entry's function; and `waitpid` with WNOHANG.
pub record System : Type 1 where
  pub Processes : Type 0
  pub fork : Processes → ℕ × Processes
  pub thread : Bytes → Processes → Processes
  pub waitpid : ℕ → Processes → Processes

-- `monitor_entry`; a name stands for the function to run.
pub record Entry : Type 0 where
  pub name : Bytes
  pub pid : ℕ

pub record Monitor : Type 0 where
  pub entries : List Entry
  pub in_debug : Bool

module _ (sys : System) where
  -- monitor::enter
  pub enter : Bool → Bytes → sys.Processes → ℕ × sys.Processes
  enter true name s = (0, sys.thread name s)
  enter false name s = sys.fork s

  -- monitor::add
  pub add : Bytes → Monitor → sys.Processes → Monitor × sys.Processes
  add name m s =
      let (pid, s') = enter m.in_debug name s in
      (record m { entries = m.entries ++ (record { name = name; pid = pid } ∷ []) }, s')

  put_first : Entry → List Entry × sys.Processes → List Entry × sys.Processes
  put_first e (es, s) = (e ∷ es, s)

  -- One round of the loop in `signal`, where the test says whether the entry's pid is the signal's.
  signal_entry :
      Bool
      → ℕ
      → Bool
      → Entry
      → (sys.Processes → List Entry × sys.Processes)
      → sys.Processes
      → List Entry × sys.Processes
  signal_entry in_debug child false e next s = put_first e (next s)
  signal_entry in_debug child true e next s =
      let (pid, s') = enter in_debug e.name (sys.waitpid child s) in
      put_first (record e { pid = pid }) (next s')

  pub signal_entries : Bool → ℕ → List Entry → sys.Processes → List Entry × sys.Processes
  signal_entries in_debug child [] s = ([], s)
  signal_entries in_debug child (e ∷ es) s =
      signal_entry in_debug child (e.pid == child) e (signal_entries in_debug child es) s

  -- monitor::signal, for the child that the signal names.
  pub signal : ℕ → Monitor → sys.Processes → Monitor × sys.Processes
  signal child m s =
      let (entries, s') = signal_entries m.in_debug child m.entries s in
      (record m { entries = entries }, s')

  -- The loop of monitor::loop, on the children that its signals name until reading one fails.
  pub loop : List ℕ → Monitor → sys.Processes → Monitor × sys.Processes
  loop [] m s = (m, s)
  loop (child ∷ children) m s = let (m', s') = signal child m s in loop children m' s'

  -- What main_async does with its monitor.
  pub start_monitor : Config → Monitor → sys.Processes → Monitor × sys.Processes
  start_monitor main m s = add (codes "ervan.smtp") (record m { in_debug = get_debug main }) s
