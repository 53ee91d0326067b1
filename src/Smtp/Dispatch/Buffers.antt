-- ===== src/Smtp/Dispatch/Buffers.antt =====
-- A command does the same whatever the buffers hold.
use ervan.Base.{if_over, refl, ltb, Bytes, length, take, map, Option, none, some}
use ervan.Common.Platform.{Platform}
use ervan.Smtp.Session.{Settings}
use ervan.Smtp.Session.Scratch.{Scratch, over, each, Passes}
use ervan.Smtp.Commands.{Argument, to_upper}
use ervan.Smtp.Commands.Buffers.{
  ehlo-Passes, helo-Passes, mail-Passes, rcpt-Passes, data-Passes, rset-Passes, vrfy-Passes,
  noop-Passes, quit-Passes,
}
use ervan.Smtp.Dispatch.{
  Command, ehlo_cmd, helo_cmd, mail_cmd, rcpt_cmd, data_cmd, rset_cmd, vrfy_cmd, noop_cmd, quit_cmd,
  try_get_command, argument_of, run_command, run_found, call_command,
}

module _ (p : Platform) (cfg : Settings) (x : Scratch) where
  run_command-Passes : (c : Command) (a : Argument) → Passes p x (run_command p cfg c a)
  unfolding run_command
  run_command-Passes ehlo_cmd = ehlo-Passes p cfg x
  run_command-Passes helo_cmd = helo-Passes p cfg x
  run_command-Passes mail_cmd = mail-Passes p cfg x
  run_command-Passes rcpt_cmd = rcpt-Passes p cfg x
  run_command-Passes data_cmd = data-Passes p cfg x
  run_command-Passes rset_cmd = rset-Passes p cfg x
  run_command-Passes vrfy_cmd = vrfy-Passes p cfg x
  run_command-Passes noop_cmd = noop-Passes p cfg x
  run_command-Passes quit_cmd = quit-Passes p cfg x

  run_found-Passes : (o : Option Command) (a : Argument) → Passes p x (run_found p cfg o a)
  unfolding run_found over
  run_found-Passes none a s = refl
  run_found-Passes (some c) a s = run_command-Passes c a s

  pub call_command-Passes : (sp : Bytes) → Passes p x (call_command p cfg sp)
  unfolding call_command over
  call_command-Passes sp s =
      if_over (each (over x)) (ltb (length sp) 4) refl
        (run_found-Passes (try_get_command (map to_upper (take 4 sp))) (argument_of sp) s)
