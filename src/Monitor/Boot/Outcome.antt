-- ===== src/Monitor/Boot/Outcome.antt =====
-- How main_async begins.
use ervan.Base.{Bool, true, false, none, ℕ, ◌≡◌, refl, ap, codes, [], ◌∷◌, Option, some}
use ervan.Config.{Config}
use ervan.Config.File.{reload_config}
use ervan.Config.File.Bounds.{IsInRange, reload_config-IsInRange}
use ervan.Config.Sync.Agrees.{no_config, no_config-IsInRange}
use ervan.Config.Values.{get_debug}
use ervan.Monitor.{System, Monitor, enter, add, start_monitor}
use ervan.Monitor.Boot.{
  ConfigFile, not_opened, not_read, holds, reloaded, reload_file, Boot, exits, polls, monitored,
  booted, main_async,
}
use ervan.Monitor.Runs.{Kernel}
use ervan.Monitor.Runs.Watched.{IsWatched, started-IsWatched}

-- The monitor that main_async polls with: without the mode to debug, the SMTP process is watched and
-- runs; with it, it is a thread, which is entered without a process.
abbrev pub Entered :
    {sys : System} → Kernel sys → sys.Processes → Monitor → sys.Processes → Bool → Type 0
Entered {sys} k before m s true =
    (s ≡ sys.thread (codes "ervan.smtp") before)
    × (m.entries ≡ record { name = codes "ervan.smtp"; pid = 0 } ∷ [])
Entered k before m s false = IsWatched k (record { monitor = m; processes = s; pending = none })

-- A file that cannot be read ends the program; from any other, a configuration is read whose numbers
-- fit their types, and the SMTP process is started as it says.
abbrev pub Boots :
    {sys : System} → Kernel sys → ℕ → ConfigFile → sys.Processes → Option (Boot sys) → Type 0
Boots k unset not_opened before o = o ≡ some (exits 1)
Boots k unset not_read before o = o ≡ some (exits 1)
Boots {sys} k unset (holds bytes) before o =
    (main : Config) × (m : Monitor) × (s : sys.Processes) × (o ≡ some (polls main m s))
    × (reload_config unset bytes no_config ≡ some main)
    × IsInRange main
    × Entered k before m s (get_debug main)

start_monitor-Entered :
    {sys : System} (k : Kernel sys) (main : Config) (m : Monitor) (s : sys.Processes)
    → m.entries ≡ []
    → (debug : Bool) → get_debug main ≡ debug
    → Entered k s (start_monitor sys main m s).0 (start_monitor sys main m s).1 debug
unfolding enter add start_monitor
start_monitor-Entered k main m s e true d = (rw d refl, rw d (rw e refl))
start_monitor-Entered k main m s e false d = started-IsWatched k main m s d e

-- If `fork` succeeds, and the monitor has no entry yet: main_async exits with code 1 if the
-- configuration file cannot be opened or read. If not, it comes to its loop, whatever the file holds,
-- with a configuration whose numbers fit their types. If that does not ask for debugging, the SMTP
-- process runs then and is the monitor's one entry, under its own pid; if it does, a thread has been
-- started for it, and the entry has the pid 0.
pub main_async-Boots :
    {sys : System} (k : Kernel sys) (unset : ℕ) (file : ConfigFile) (m : Monitor)
    (s : sys.Processes)
    → m.entries ≡ []
    → Boots k unset file s (main_async sys unset file m s)
unfolding reloaded reload_file monitored booted main_async
main_async-Boots k unset not_opened m s e = refl
main_async-Boots k unset not_read m s e = refl
main_async-Boots {sys} k unset (holds bytes) m s e =
    let (main, f, range) = reload_config-IsInRange unset bytes no_config no_config-IsInRange in
    (
      main,
      (start_monitor sys main m s).0,
      (start_monitor sys main m s).1,
      ap (λ o. booted sys m s (reloaded o)) f,
      f,
      range,
      start_monitor-Entered k main m s e (get_debug main) refl,
    )
