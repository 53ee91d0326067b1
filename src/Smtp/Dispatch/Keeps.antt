-- ===== src/Smtp/Dispatch/Keeps.antt =====
-- A line that names a command, or none.
use ervan.Base.{if_keeps, ◌≡◌, Bool, ltb, Bytes, length, Option, none, some}
use ervan.Common.Platform.{Platform}
use ervan.Smtp.Replies.{invalid_command}
use ervan.Smtp.Session.{cmd, Settings, Session, Effect}
use ervan.Smtp.Valid.{IsValid, EnsuresValid, send-IsValid}
use ervan.Smtp.Commands.{Argument}
use ervan.Smtp.Commands.Keeps.{ehlo-Ensures, helo-Ensures, mail-Ensures, rcpt-Ensures}
use ervan.Smtp.Commands.Stages.{
  data-Ensures, rset-Ensures, vrfy-Ensures, noop-Ensures, quit-Ensures,
}
use ervan.Smtp.Dispatch.{
  Command, ehlo_cmd, helo_cmd, mail_cmd, rcpt_cmd, data_cmd, rset_cmd, vrfy_cmd, noop_cmd, quit_cmd,
  argument_of, run_command, run_found, call_command,
}

module _ {p : Platform} (cfg : Settings) (was : Bool) where
  abbrev Ensures : Effect (Session p) → Type 0
  Ensures = EnsuresValid cfg was

  run_command-Ensures :
      (c : Command) (a : Argument) (s : Session p)
      → s.state ≡ cmd
      → IsValid cfg was s
      → Ensures (run_command p cfg c a s)
  unfolding run_command
  run_command-Ensures ehlo_cmd a s e v = ehlo-Ensures cfg was a s v
  run_command-Ensures helo_cmd a s e v = helo-Ensures cfg was a s v
  run_command-Ensures mail_cmd a s e v = mail-Ensures cfg was a s e v
  run_command-Ensures rcpt_cmd a s e v = rcpt-Ensures cfg was a s e v
  run_command-Ensures data_cmd a s e v = data-Ensures cfg was a s v
  run_command-Ensures rset_cmd a s e v = rset-Ensures cfg was a s v
  run_command-Ensures vrfy_cmd a s e v = vrfy-Ensures cfg was a s v
  run_command-Ensures noop_cmd a s e v = noop-Ensures cfg was a s v
  run_command-Ensures quit_cmd a s e v = quit-Ensures cfg was a s v

  run_found-Ensures :
      (o : Option Command) (a : Argument) (s : Session p)
      → s.state ≡ cmd
      → IsValid cfg was s
      → Ensures (run_found p cfg o a s)
  unfolding run_found
  run_found-Ensures none a s e v = send-IsValid cfg was invalid_command s v
  run_found-Ensures (some c) a s e v = run_command-Ensures c a s e v

  pub call_command-Ensures :
      (sp : Bytes) (s : Session p)
      → s.state ≡ cmd
      → IsValid cfg was s
      → Ensures (call_command p cfg sp s)
  unfolding call_command
  call_command-Ensures sp s e v =
      if_keeps Ensures (ltb (length sp) 4) _ _ (λ _. send-IsValid cfg was invalid_command s v)
        (λ _. run_found-Ensures _ (argument_of sp) s e v)
