-- ===== src/Monitor/Boot.antt =====
-- main/src/main.cpp: `reload_config` with its file, and main_async up to its loop. The set-up of the
-- endpoint, the dispatcher and the signals is left out.
pub mod Outcome
use ervan.Base.{ℕ, Bool, true, false, Bytes, Option, none, some}
use ervan.Config.{Config}
use ervan.Config.File.{reload_config}
use ervan.Config.Sync.Agrees.{no_config}
use ervan.Monitor.{System, Monitor, start_monitor}

-- The file at CONFIG_PATH: `open` fails, `read` fails, or its bytes.
pub data ConfigFile : Type 0 where
  not_opened not_read : ConfigFile
  holds : Bytes → ConfigFile

reloaded : Option Config → Option (Bool × Config)
reloaded none = none
reloaded (some c) = some (true, c)

-- reload_config; `none` where the fuel of its loop runs out.
pub reload_file : ℕ → ConfigFile → Config → Option (Bool × Config)
reload_file unset not_opened c = some (false, c)
reload_file unset not_read c = some (false, c)
reload_file unset (holds bytes) c = reloaded (reload_config unset bytes c)

-- The process exits with a code, or polls with its configuration and its monitor.
pub data Boot (sys : System) : Type 0 where
  exits : ℕ → Boot sys
  polls : Config → Monitor → sys.Processes → Boot sys

module _ (sys : System) where
  monitored : Config → Monitor × sys.Processes → Boot sys
  monitored main (m, s) = polls main m s

  booted : Monitor → sys.Processes → Option (Bool × Config) → Option (Boot sys)
  booted m s none = none
  booted m s (some (false, main)) = some (exits 1)
  booted m s (some (true, main)) = some (monitored main (start_monitor sys main m s))

  -- main_async up to its loop, with a monitor that has just been made.
  pub main_async : ℕ → ConfigFile → Monitor → sys.Processes → Option (Boot sys)
  main_async unset file m s = booted m s (reload_file unset file no_config)
