-- ===== src/Smtp/Dialogue.antt =====
-- The session as its client sees it: RFC 5321's transaction, and a reply for each command. The
-- commands of smtp/src/session/commands.cpp and the end of a message are its steps.
use ervan.Base.{
  ℕ, ◌+◌, ◌-◌, ◌*◌, ◌≤◌, ◌<◌, ◌≡◌, Bool, true, false, ◌||◌, if◌then◌else◌, equal, get_or, Option,
  none, some, Bytes, length, ltb, take, map, List, [], ◌∷◌, ◌++◌,
}
use ervan.Common.Platform.{Platform}
use ervan.Strings.Join.Drains.{Report, line, too_long}
use ervan.Smtp.Session.{
  State, cmd, in_data, closed, Settings, Session, Effect, done, wild, exhausted,
}
use ervan.Smtp.Commands.{to_upper}
use ervan.Smtp.Dispatch.{
  Command, ehlo_cmd, helo_cmd, mail_cmd, rcpt_cmd, data_cmd, rset_cmd, noop_cmd, quit_cmd,
  try_get_command,
}
use ervan.Smtp.Feed.{is_end}

-- What a client can know of the session.
pub record View : Type 0 where
  pub state : State
  pub begun : Bool
  pub host : Bytes
  pub sender : Option Bytes
  pub recipients : List Bytes

unfoldable pub view : {p : Platform} → Session p → View
view s = record {
  state = s.state;
  begun = s.session_begun;
  host = s.metadata.from;
  sender = if s.reverse_set then some s.metadata.reverse_path else none;
  recipients = s.metadata.forward_paths;
}

-- No transaction, and commands are read.
abbrev pub idle : View → View
idle v = record v { state = cmd; host = []; sender = none; recipients = [] }

-- What a line is to the session: a command, known by its name or not, a line too long to be one, a
-- line of a message, the end of one, or nothing.
pub data Event : Type 0 where
  command : Option Command → Event
  overlong text end ignored : Event

abbrev pub named : Bytes → Option Command
named l = if ltb (length l) 4 then none else try_get_command (map to_upper (take 4 l))

abbrev pub event_of : State → Report → Event
event_of cmd (line l) = command (named l)
event_of cmd too_long = overlong
event_of in_data (line l) = if is_end l then end else text
event_of in_data too_long = text
event_of closed _ = ignored

-- A turn of the dialogue, with the code of the reply, if there is one.
pub data Turn (cfg : Settings) (v : View) : Event → Option ℕ → View → Type 0 where
  ehlo :
      (host : Bytes)
      → Turn cfg v
          (command (some ehlo_cmd))
          (some 250)
          (record (idle v) { begun = true; host = host })
  helo :
      (host : Bytes)
      → Turn cfg v
          (command (some helo_cmd))
          (some 250)
          (record (idle v) { begun = true; host = host })
  mail :
      (sender : Bytes)
      → v.begun ≡ true
      → v.sender ≡ none
      → Turn cfg v
          (command (some mail_cmd))
          (some 250)
          (record v { sender = some sender; recipients = [] })
  rcpt :
      (recipient : Bytes)
      → v.begun ≡ true
      → length v.recipients < cfg.max_rcpt
      → Turn cfg v
          (command (some rcpt_cmd))
          (some 250)
          (record v { recipients = v.recipients ++ recipient ∷ [] })
  data_begins :
      (sender : Bytes)
      → v.sender ≡ some sender
      → 0 < length v.recipients
      → Turn cfg v (command (some data_cmd)) (some 354) (record v { state = in_data })
  rset : Turn cfg v (command (some rset_cmd)) (some 250) (idle v)
  noop : Turn cfg v (command (some noop_cmd)) (some 250) v
  quit : Turn cfg v (command (some quit_cmd)) (some 221) (record v { state = closed })
  refused : (o : Option Command) (code : ℕ) → 400 ≤ code → Turn cfg v (command o) (some code) v
  cut : Turn cfg v overlong (some 500) v
  taken : Turn cfg v text none v
  accepted : Turn cfg v end (some 250) (idle v)
  dropped : (code : ℕ) → 400 ≤ code → Turn cfg v end (some code) (idle v)
  unanswered : Turn cfg v end none (idle v)
  unheard : Turn cfg v ignored none v

-- The bytes that are sent first; the list has the last ones first.
abbrev first_sent : List Bytes → Bytes
first_sent [] = []
first_sent (b ∷ []) = b
first_sent (b ∷ c ∷ bs) = first_sent (c ∷ bs)

-- The number that three digits make.
abbrev pub code_of : List Bytes → ℕ
code_of sends =
    let b = first_sent sends in
    (get_or b 0 0 - b'0') * 100 + (get_or b 1 0 - b'0') * 10 + (get_or b 2 0 - b'0')

-- CR LF, and the NUL that the arrays of replies end in.
abbrev closes : Bytes → Bool
closes [] = false
closes (c ∷ cs) =
    equal (c ∷ cs) (b'\r' ∷ b'\n' ∷ []) || equal (c ∷ cs) (b'\r' ∷ b'\n' ∷ 0 ∷ []) || closes cs

-- The sends of one reply with this code: it begins with its digits and ends its line.
abbrev pub IsReply : Option ℕ → List Bytes → Type 0
IsReply none sends = sends ≡ []
IsReply (some code) [] = ⊥
IsReply (some code) (b ∷ bs) = (code_of (b ∷ bs) ≡ code) × (closes b ≡ true)

module _ {p : Platform} (cfg : Settings) where
  -- A turn of the session, and just its reply is sent.
  pub record Turned (e : Event) (s t : Session p) : Type 0 where
    pub code : Option ℕ
    pub turn : Turn cfg (view s) e code (view t)
    pub sends : List Bytes
    pub reply : IsReply code sends
    pub sent : t.sent ≡ sends ++ s.sent

  -- A handler takes a turn, unless it reads behind its line.
  abbrev pub Turns : Event → Session p → Effect (Session p) → Type 0
  Turns e s (done t) = Turned e s t
  Turns e s wild = Unit
  Turns e s exhausted = ⊥
