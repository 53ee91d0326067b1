-- ===== src/Common/Syncs/Examples.antt =====
-- Two coroutines, with the handles 1 and 2, that wait at the same time, and one alone.
use ervan.Base.{◌≡◌, refl, [], ◌∷◌, none, some}
use ervan.Common.Syncs.{
  Io, idle_io, sync_file, io_signal, complete, Alone, begin, sync, finish, Reach, here, next,
  delivers,
}
use ervan.Common.Syncs.Waits.{Awaits, Alone-Awaits}
use ervan.Common.Syncs.Strands.{IsStranded, complete-IsStranded}

abbrev two_in_flight : Io
two_in_flight = record { in_flight = 2 ∷ 1 ∷ []; waiting = 2 ∷ 1 ∷ []; pending = none }

two_started : (sync_file 0 2 (sync_file 0 1 idle_io).1).1 ≡ two_in_flight
unfolding sync_file
two_started = refl

refused_at_once : (sync_file 11 1 idle_io).0 ≡ some 11
unfolding sync_file
refused_at_once = refl

abbrev both_done : Io
both_done = complete 2 (complete 1 two_in_flight)

first_woken : Reach both_done (io_signal 1 (record both_done { pending = none }))
first_woken = next here (delivers 1 refl)

complete-IsStranded_example : IsStranded 2 (io_signal 1 (record both_done { pending = none }))
complete-IsStranded_example = complete-IsStranded 1 2 two_in_flight _ refl refl refl first_woken

one_done : Alone (complete 1 (sync_file 0 1 idle_io).1)
unfolding sync_file
one_done = finish (sync begin 0 1 refl) 1 refl

Alone-Awaits_example : Awaits (complete 1 (sync_file 0 1 idle_io).1)
Alone-Awaits_example = Alone-Awaits one_done
