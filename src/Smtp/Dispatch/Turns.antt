-- ===== src/Smtp/Dispatch/Turns.antt =====
-- A line that is read as a command, as a client sees it.
use ervan.Base.{
  ◌≡◌, refl, Bool, true, false, ltb, if◌then◌else◌, Bytes, length, Option, none, some, arith,
}
use ervan.Common.Platform.{Platform}
use ervan.Smtp.Replies.{invalid_command, smtp_msg_str}
use ervan.Smtp.Session.{Settings, Session, done, send}
use ervan.Smtp.Dialogue.{command, named, Turned, Turns}
use ervan.Smtp.Commands.{Argument}
use ervan.Smtp.Commands.Turns.{
  refusal, ehlo-Turns, helo-Turns, rset-Turns, vrfy-Turns, noop-Turns, quit-Turns,
}
use ervan.Smtp.Commands.Turns.Envelope.{mail-Turns, rcpt-Turns, data-Turns}
use ervan.Smtp.Dispatch.{
  Command, ehlo_cmd, helo_cmd, mail_cmd, rcpt_cmd, data_cmd, rset_cmd, vrfy_cmd, noop_cmd, quit_cmd,
  argument_of, run_command, run_found, call_command,
}

module _ {p : Platform} (cfg : Settings) (s : Session p)
    (limit : s.max_forward_paths ≡ cfg.max_rcpt) where
  run_command-Turns :
      (c : Command) (a : Argument) → Turns cfg (command (some c)) s (run_command p cfg c a s)
  unfolding run_command
  run_command-Turns ehlo_cmd a = ehlo-Turns cfg a s
  run_command-Turns helo_cmd a = helo-Turns cfg a s
  run_command-Turns mail_cmd a = mail-Turns cfg a s
  run_command-Turns rcpt_cmd a = rcpt-Turns cfg a s limit
  run_command-Turns data_cmd a = data-Turns cfg a s
  run_command-Turns rset_cmd a = rset-Turns cfg a s
  run_command-Turns vrfy_cmd a = vrfy-Turns cfg a s
  run_command-Turns noop_cmd a = noop-Turns cfg a s
  run_command-Turns quit_cmd a = quit-Turns cfg a s

  unknown : (o : Option Command) → Turned cfg (command o) s (send p invalid_command s)
  unfolding invalid_command smtp_msg_str
  unknown o = refusal cfg o 500 invalid_command s (omega arith) (refl, refl)

  run_found-Turns :
      (o : Option Command) (a : Argument) → Turns cfg (command o) s (run_found p cfg o a s)
  unfolding run_found
  run_found-Turns none a = unknown none
  run_found-Turns (some c) a = run_command-Turns c a

  short_or_named :
      (short : Bool) (o : Option Command) (a : Argument)
      → Turns cfg
          (command (if short then none else o))
          s
          (if short then done (send p invalid_command s) else run_found p cfg o a s)
  short_or_named true o a = unknown none
  short_or_named false o a = run_found-Turns o a

  pub call_command-Turns : (sp : Bytes) → Turns cfg (command (named sp)) s (call_command p cfg sp s)
  unfolding call_command
  call_command-Turns sp = short_or_named (ltb (length sp) 4) _ (argument_of sp)
