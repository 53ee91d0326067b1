-- ===== src/Config/Sync/Examples.antt =====
-- A configuration with a hostname and a port, on a machine that stores the lowest byte first.
use ervan.Base.{◌≡◌, Bytes, length, replicate, length-replicate, codes, none, some, arith, ℕ}
use ervan.Config.{Config}
use ervan.Config.File.{reload_config}
use ervan.Config.File.Bounds.{IsInRange, reload_config-IsInRange}
use ervan.Config.Layout.LittleEndian.{little_endian, little_endian-IsLawful}
use ervan.Config.Values.{LocalConfig}
use ervan.Config.Sync.{sync}
use ervan.Config.Sync.Agrees.{no_config, outcome, sync-outcome, no_config-IsInRange}

abbrev pub example_config : Config
example_config = record no_config { hostname = some (codes "mx.example"); port = some 2525 }

abbrev pub no_local_config : LocalConfig
no_local_config = record {
  hostname = none;
  port = none;
  submissionport = none;
  maxmessagesize = none;
  maxrcpt = none;
}

abbrev pub example_update : Bytes
example_update = replicate 256 b'x'

pub length-example_update : length example_update ≡ 256
length-example_update = length-replicate {A = ℕ} 256 b'x'

pub example_config-IsInRange : IsInRange example_config
example_config-IsInRange = record {
  port = omega arith;
  submissionport = tt;
  maxmessagesize = tt;
  maxrcpt = tt;
}

abbrev example_file : Bytes
example_file = codes "hostname mx.example\nport 2525\nmaxrcpt 5"

reload_config-IsInRange_example :
    (c' : Config) × (reload_config 0 example_file no_config ≡ some c') × IsInRange c'
reload_config-IsInRange_example =
    reload_config-IsInRange 0 example_file no_config no_config-IsInRange

sync-outcome_example :
    sync little_endian example_update example_config no_local_config
    ≡ outcome little_endian example_update example_config (some (codes "mx.example"))
sync-outcome_example =
    sync-outcome little_endian example_update example_config little_endian-IsLawful
      example_config-IsInRange length-example_update no_local_config
