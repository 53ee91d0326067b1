-- ===== src/Smtp/Dispatch/Short.antt =====
-- A line of four bytes that names a command with an argument.
use ervan.Base.{◌≡◌, Bool, true, false, le→ltb_false, lt→ltb, Bytes, length, take, map, some, arith}
use ervan.Common.Platform.{Platform}
use ervan.Smtp.Session.{Settings, Session, wild}
use ervan.Smtp.Commands.{to_upper, nowhere}
use ervan.Smtp.Commands.Prefix.{ehlo-nowhere, helo-nowhere, mail-nowhere, rcpt-nowhere}
use ervan.Smtp.Dispatch.{
  Command, ehlo_cmd, helo_cmd, mail_cmd, rcpt_cmd, try_get_command, argument_of, run_command,
  run_found, call_command,
}

-- The handlers that read their argument.
abbrev pub reads_argument : Command → Bool
reads_argument ehlo_cmd = true
reads_argument helo_cmd = true
reads_argument mail_cmd = true
reads_argument rcpt_cmd = true
reads_argument _ = false

module _ (p : Platform) (cfg : Settings) where
  run_command-nowhere :
      (c : Command) (s : Session p) → reads_argument c ≡ true → run_command p cfg c nowhere s ≡ wild
  unfolding run_command
  run_command-nowhere ehlo_cmd s h = ehlo-nowhere p cfg s
  run_command-nowhere helo_cmd s h = helo-nowhere p cfg s
  run_command-nowhere mail_cmd s h = mail-nowhere p cfg s
  run_command-nowhere rcpt_cmd s h = rcpt-nowhere p cfg s
  run_command-nowhere Command.data_cmd s h = cc
  run_command-nowhere Command.rset_cmd s h = cc
  run_command-nowhere Command.vrfy_cmd s h = cc
  run_command-nowhere Command.noop_cmd s h = cc
  run_command-nowhere Command.quit_cmd s h = cc

  -- A line of four bytes that names EHLO, HELO, MAIL or RCPT, in any case, makes its handler read
  -- behind the line.
  pub call_command-short :
      (sp : Bytes) (s : Session p) (c : Command)
      → length sp ≡ 4
      → try_get_command (map to_upper (take 4 sp)) ≡ some c
      → reads_argument c ≡ true
      → call_command p cfg sp s ≡ wild
  unfolding call_command run_found argument_of
  call_command-short sp s c l found reads =
      rw (le→ltb_false (length sp) 4 (omega arith), found, lt→ltb (length sp) 5 (omega arith))
        (run_command-nowhere c s reads)
