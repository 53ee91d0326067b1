-- ===== src/Smtp/Dispatch/Named.antt =====
-- A line that begins with the name of a command and a space.
use ervan.Base.{
  pass, ◌≤◌, ◌≡◌, refl, ap, ◌∙◌, le→ltb_false, ltb, Bytes, codes, length, take, drop, map, ◌++◌,
  some, arith,
}
use ervan.Common.Platform.{Platform}
use ervan.Smtp.Session.{Settings, Session}
use ervan.Smtp.Commands.{text, nowhere, to_upper, ehlo, mail, rcpt, data_command}
use ervan.Smtp.Dispatch.{
  Command, ehlo_cmd, mail_cmd, rcpt_cmd, find_command, try_get_command, argument_of, run_command,
  run_found, call_command,
}

module _ (p : Platform) (cfg : Settings) (s : Session p) where
  call_command-named :
      (c : Command) (sp : Bytes)
      → 5 ≤ length sp
      → try_get_command (map to_upper (take 4 sp)) ≡ some c
      → call_command p cfg sp s ≡ run_command p cfg c (text (drop 5 sp)) s
  unfolding call_command argument_of run_found
  call_command-named c sp long found =
      pass (ltb (length sp) 4) _ _ (le→ltb_false (length sp) 4 (omega arith))
      ∙ ap (λ o. run_found p cfg o (argument_of sp) s) found
      ∙ ap (λ a. run_command p cfg c a s)
          (pass (ltb (length sp) 5) _ _ (le→ltb_false (length sp) 5 long))

  pub call_command-ehlo :
      (a : Bytes) → call_command p cfg (codes "EHLO " ++ a) s ≡ ehlo p cfg (text a) s
  unfolding to_upper try_get_command find_command run_command
  call_command-ehlo a = call_command-named ehlo_cmd (codes "EHLO " ++ a) (omega arith) refl

  pub call_command-mail :
      (a : Bytes) → call_command p cfg (codes "MAIL " ++ a) s ≡ mail p cfg (text a) s
  unfolding to_upper try_get_command find_command run_command
  call_command-mail a = call_command-named mail_cmd (codes "MAIL " ++ a) (omega arith) refl

  pub call_command-rcpt :
      (a : Bytes) → call_command p cfg (codes "RCPT " ++ a) s ≡ rcpt p cfg (text a) s
  unfolding to_upper try_get_command find_command run_command
  call_command-rcpt a = call_command-named rcpt_cmd (codes "RCPT " ++ a) (omega arith) refl

  pub call_command-data : call_command p cfg (codes "DATA") s ≡ data_command p cfg nowhere s
  unfolding to_upper try_get_command find_command run_command call_command argument_of run_found
  call_command-data = refl
