-- ===== src/Smtp/Process/Examples.antt =====
-- The process on a network that yields two connections.
use ervan.Base.{◌≡◌, refl, ltb, true, false, codes, arith, List, [], ◌∷◌, some}
use ervan.Config.Layout.LittleEndian.{little_endian, little_endian-IsLawful}
use ervan.Config.Values.{LocalConfig}
use ervan.Config.Sync.{sync}
use ervan.Config.Sync.Examples.{
  example_config, no_local_config, example_update, length-example_update, example_config-IsInRange,
}
use ervan.Smtp.Session.{new_session}
use ervan.Strings.Join.Lines.{lines}
use ervan.Smtp.Examples.{memory, wide-Holds}
use ervan.Smtp.Feed.Pieces.Message.{whole}
use ervan.Smtp.Feed.Lines.Ends.{Ends}
use ervan.Smtp.Feed.Lines.Examples.{rooms, full, full-Holds, three_pieces}
use ervan.Smtp.Feed.{handle}
use ervan.Smtp.Process.{Network, Action, start, settings}
use ervan.Smtp.Process.Starts.{Serves, start-Serves, monitor_settings, sync-handle}

abbrev calm : Network
calm = record { setsockopt = true; bind = ltb 1023; listen = λ n. true; accepted = 5 ∷ 6 ∷ [] }

start-Serves_example :
    (actions : List Action) × (start little_endian example_update calm example_config
        no_local_config
      ≡ some actions)
    × Serves true true true 2525 (5 ∷ 6 ∷ []) actions
start-Serves_example =
    start-Serves little_endian example_update example_config calm (codes "mx.example")
      no_local_config little_endian-IsLawful example_config-IsInRange length-example_update refl
      (omega arith)

sync-handle_example :
    (c' : LocalConfig) × (sync little_endian example_update example_config no_local_config
      ≡ some c')
    × Ends
        (monitor_settings little_endian example_update example_config (codes "mx.example"))
        false
        (lines [] (whole three_pieces))
        (handle memory (settings c') three_pieces (new_session memory (settings c') full))
sync-handle_example =
    sync-handle little_endian example_update example_config (codes "mx.example") no_local_config
      memory rooms full three_pieces little_endian-IsLawful example_config-IsInRange
      length-example_update refl (omega arith) (omega arith) full-Holds wide-Holds
      (omega arith, (omega arith, (omega arith, tt))) (omega arith)
