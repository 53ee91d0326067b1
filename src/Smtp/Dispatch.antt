-- ===== src/Smtp/Dispatch.antt =====
-- smtp/src/session.cpp and session.hpp: `call_command` and its table.
pub mod Keeps
pub mod Short
pub mod Buffers
pub mod Turns
pub mod Returns
pub mod Named
use ervan.Base.{
  ℕ, zero, suc, Bool, true, false, ltb, if◌then◌else◌, Bytes, length, take, drop, equal, List, [],
  ◌∷◌, map, codes, Option, none, some,
}
use ervan.Common.Platform.{Platform}
use ervan.Smtp.Replies.{invalid_command}
use ervan.Smtp.Session.{Settings, Session, Effect, done, reply}
use ervan.Smtp.Commands.{
  Argument, text, nowhere, to_upper, ehlo, helo, mail, rcpt, data_command, rset, vrfy, noop, quit,
}

pub data Command : Type 0 where
  ehlo_cmd helo_cmd mail_cmd rcpt_cmd data_cmd rset_cmd vrfy_cmd noop_cmd quit_cmd : Command

-- `cmds`, in order.
abbrev pub cmds : List (Bytes × Command)
cmds =
    (codes "EHLO", ehlo_cmd)
    ∷ (codes "HELO", helo_cmd)
    ∷ (codes "MAIL", mail_cmd)
    ∷ (codes "RCPT", rcpt_cmd)
    ∷ (codes "DATA", data_cmd)
    ∷ (codes "RSET", rset_cmd)
    ∷ (codes "VRFY", vrfy_cmd)
    ∷ (codes "NOOP", noop_cmd)
    ∷ (codes "QUIT", quit_cmd)
    ∷ []

-- The first of the table's commands with this name.
unfoldable pub find_command : List (Bytes × Command) → Bytes → Option Command
find_command [] name = none
find_command ((known, command) ∷ rest) name =
    if equal known name then some command else find_command rest name

-- The name is four bytes and a NUL; a NUL among the four ends it, and then it is none of the table's.
unfoldable pub try_get_command : Bytes → Option Command
try_get_command = find_command cmds

-- span(sp.begin() + 5, sp.end())
pub argument_of : Bytes → Argument
argument_of sp = if ltb (length sp) 5 then nowhere else text (drop 5 sp)

module _ (p : Platform) (cfg : Settings) where
  pub run_command : Command → Argument → Session p → Effect (Session p)
  run_command ehlo_cmd = ehlo p cfg
  run_command helo_cmd = helo p cfg
  run_command mail_cmd = mail p cfg
  run_command rcpt_cmd = rcpt p cfg
  run_command data_cmd = data_command p cfg
  run_command rset_cmd = rset p cfg
  run_command vrfy_cmd = vrfy p cfg
  run_command noop_cmd = noop p cfg
  run_command quit_cmd = quit p cfg

  run_found : Option Command → Argument → Session p → Effect (Session p)
  run_found none argument s = reply p invalid_command s
  run_found (some command) argument s = run_command command argument s

  -- The command's name is put in upper case, in the buffer too.
  pub call_command : Bytes → Session p → Effect (Session p)
  call_command sp s =
      if ltb (length sp) 4
      then reply p invalid_command s
      else run_found (try_get_command (map to_upper (take 4 sp))) (argument_of sp) s
