-- ===== src/Smtp/Commands.antt =====
-- smtp/src/session/commands.cpp, and `accept` and `call_command` of smtp/src/session.cpp.
pub mod Keeps
pub mod Stages
pub mod Prefix
pub mod Opens
pub mod Buffers
pub mod Turns
pub mod Returns
pub mod Envelope
use ervan.Base.{
  ℕ, zero, suc, ◌+◌, ◌-◌, Bool, true, false, not, ◌&&◌, ◌||◌, ◌==◌, leb, ltb, if◌then◌else◌, Bytes,
  length, take, drop, equal, List, [], ◌∷◌, ◌++◌, map, codes, Option, none, some,
}
use ervan.Common.Metadata.{Metadata}
use ervan.Common.Platform.{Platform}
use ervan.Parse.Results.{Outcome, ok, malformed, overrun, exhausted, Part, EsmtpParam, Buffered}
use ervan.Parse.{domain, path, reverse_path, esmtp_param, address}
use ervan.Strings.Join.{overwrite}
use ervan.Strings.Span.{to_lower}
use ervan.Smtp.Replies
use ervan.Smtp.Replies.{
  start_data, local_error, too_many_recipients, invalid_command, invalid_parameters,
  not_implemented, bad_sequence,
}
use ervan.Smtp.Session.{
  State, in_data, closed, Settings, Session, Effect, done, wild, ◌>>=◌, send, reply, reset,
}
use ervan.Smtp.Files.{open_files}

-- std::toupper in the "C" locale.
unfoldable pub to_upper : ℕ → ℕ
to_upper c = if leb b'a' c && leb c b'z' then c - 32 else c

-- span::compare_insensitive, on the bytes of both spans.
unfoldable pub compare_insensitive : Bytes → Bytes → Bool
compare_insensitive a b = equal (map to_lower a) (map to_lower b)

-- What stands behind the five bytes of a command. A line of four bytes leaves no such span: its
-- length wraps, and what a handler reads there is `wild`.
pub data Argument : Type 0 where
  text : Bytes → Argument
  nowhere : Argument

-- The loop writes the expected text over the line before the line is compared with it.
pub accept : Bytes → Bytes → Option Bytes
accept sp str =
    let written = overwrite sp 0 (map to_upper str) in
    if ltb (length sp) (length str)
    then none
    else if equal (take (length str) written) str
    then some (drop (length str) written)
    else none

-- session::mail_param
unfoldable pub mail_param : EsmtpParam → Bool
mail_param param =
    if compare_insensitive param.key.body (codes "BODY")
    then (if equal param.value.body (codes "7BIT")
        then true
        else equal param.value.body (codes "8BITMIME"))
    else false

-- The loop over the parameters of `mail`: whether all are taken.
mail_param_then : (Bytes → Effect Bool) → Outcome EsmtpParam → Effect Bool
mail_param_then next (ok param) =
    let rest = next param.rest in if mail_param param then rest else done false
mail_param_then next malformed = done false
mail_param_then next overrun = wild
mail_param_then next exhausted = wild

pub mail_params : ℕ → Bytes → Effect Bool
mail_params zero cmd = Effect.exhausted
mail_params (suc fuel) [] = done true
mail_params (suc fuel) (c ∷ cs) =
    if not (c == b' ') then done false else mail_param_then (mail_params fuel) (esmtp_param cs)

module _ (p : Platform) (cfg : Settings) where
  abbrev Handler : Type 0
  Handler = Session p → Effect (Session p)

  -- The part that `ehlo` and `helo` share.
  abbrev pub begun : Bytes → Session p → Session p
  begun from s =
      let s' = reset p cfg s in
      record s' { metadata = record s'.metadata { from = from }; session_begun = true }

  greeted : (Session p → Session p) → Outcome Buffered → Handler
  greeted answer (ok host) s = done (answer (begun host.body s))
  greeted answer malformed s = reply p invalid_parameters s
  greeted answer overrun s = wild
  greeted answer exhausted s = Effect.exhausted

  unfoldable pub ehlo_answer : Session p → Session p
  ehlo_answer s =
      send p (codes "250 8BITMIME\r\n")
        (send p (codes " at your service\r\n") (send p cfg.hostname (send p (codes "250-") s)))

  pub helo_answer : Session p → Session p
  helo_answer s =
      send p (codes " at your service\r\n") (send p cfg.hostname (send p (codes "250 ") s))

  pub ehlo : Argument → Handler
  ehlo (text sp) s = greeted ehlo_answer (domain sp) s
  ehlo nowhere s = wild

  pub helo : Argument → Handler
  helo (text sp) s = greeted helo_answer (domain sp) s
  helo nowhere s = wild

  -- The end of `mail`.
  abbrev pub with_sender : Bytes → Session p → Session p
  with_sender sender s = record s {
    metadata = record s.metadata { reverse_path = sender; forward_paths = [] };
    reverse_set = true;
  }

  mail_end : Part → Bool → Handler
  mail_end reverse true s = reply p Replies.ok (with_sender (address reverse.mailbox) s)
  mail_end reverse false s = reply p invalid_parameters s

  -- Behind the reverse path.
  mail_reverse : Outcome Part → Handler
  mail_reverse (ok reverse) s =
      if s.reverse_set || not s.session_begun then reply p bad_sequence s else (do
        taken ← mail_params (suc (length reverse.rest)) reverse.rest
        mail_end reverse taken s)
  mail_reverse malformed s = reply p invalid_parameters s
  mail_reverse overrun s = wild
  mail_reverse exhausted s = Effect.exhausted

  mail_from : Option Bytes → Handler
  mail_from none s = reply p invalid_parameters s
  mail_from (some sp) s = mail_reverse (reverse_path 0 sp) s

  pub mail : Argument → Handler
  mail (text sp) s = mail_from (accept sp (codes "FROM:")) s
  mail nowhere s = wild

  abbrev pub with_recipient : Bytes → Session p → Session p
  with_recipient recipient s = record s {
    metadata = record s.metadata { forward_paths = s.metadata.forward_paths ++ recipient ∷ [] };
  }

  rcpt_path : Outcome Part → Handler
  rcpt_path (ok path) s = reply p Replies.ok (with_recipient (address path.mailbox) s)
  rcpt_path malformed s = reply p invalid_parameters s
  rcpt_path overrun s = wild
  rcpt_path exhausted s = Effect.exhausted

  rcpt_to : Option Bytes → Handler
  rcpt_to none s = reply p invalid_parameters s
  rcpt_to (some sp) s =
      if not s.session_begun
      then reply p bad_sequence s
      else if leb s.max_forward_paths (length s.metadata.forward_paths)
      then reply p too_many_recipients s
      else rcpt_path (path 0 sp) s

  pub rcpt : Argument → Handler
  rcpt (text sp) s = rcpt_to (accept sp (codes "TO:")) s
  rcpt nowhere s = wild

  -- `data`, once the files have been opened or not.
  data_opened : Bool × Session p → Effect (Session p)
  data_opened (false, s) = reply p local_error s
  data_opened (true, s) =
      reply p start_data
        (record s { state = in_data; data_size = 0; data_too_long = false; line_too_long = false })

  pub data_command : Argument → Handler
  data_command _ s =
      if not s.reverse_set || length s.metadata.forward_paths == 0
      then reply p bad_sequence s
      else data_opened (open_files p cfg s)

  pub rset : Argument → Handler
  rset _ s = reply p Replies.ok (reset p cfg s)

  pub vrfy : Argument → Handler
  vrfy _ s = reply p not_implemented s

  pub noop : Argument → Handler
  noop _ s = reply p Replies.ok s

  pub quit : Argument → Handler
  quit _ s =
      let bye = send p (codes " do widzenia\r\n") (send p cfg.hostname (send p (codes "221 ") s)) in
      done (record bye { state = closed })
