-- ===== src/Smtp/Feed/Lines.antt =====
-- smtp/src/session.cpp: what a session makes of the lines that its client sends, one at a time.
pub mod Same
pub mod Rounds
pub mod Blank
pub mod Message
pub mod Command
pub mod Loops
pub mod Whole
pub mod Turns
pub mod Talks
pub mod Ends
pub mod Envelope
pub mod Reads
pub mod Transaction
pub mod Examples
use ervan.Base.{ℕ, ◌≤◌, Bool, true, false, if◌then◌else◌, Bytes, length, List, [], ◌∷◌}
use ervan.Common.Platform.{Platform}
use ervan.Strings.Join.Drains.{Report, line, too_long, classify}
use ervan.Smtp.Replies.{exceeded_line}
use ervan.Smtp.Session.{State, cmd, in_data, closed, Settings, Session, Effect, done, ◌>>=◌, send}
use ervan.Smtp.Dispatch.{call_command}
use ervan.Smtp.Feed.{is_end, take_line, end_message}

-- The sizes of `_cmd_buffer` and of `_line_buffer`, each without its last two bytes.
pub record Rooms : Type 0 where
  pub command : ℕ
  pub message : ℕ

abbrev pub room : Rooms → State → ℕ
room r in_data = r.message
room r _ = r.command

module _ (p : Platform) (cfg : Settings) where
  -- A command, or a line of the message; a line that is too long for its buffer is told apart.
  pub serve_line : State → Report → Session p → Effect (Session p)
  serve_line cmd (line l) s = call_command p cfg l s
  serve_line cmd too_long s = done (send p exceeded_line s)
  serve_line in_data (line l) s =
      done (if is_end l then end_message p cfg s else take_line p cfg (length l) l s)
  serve_line in_data too_long s = done (record s { line_too_long = true })
  serve_line closed _ s = done s

  pub serve : Rooms → List Bytes → Session p → Effect (Session p)
  serve r [] s = done s
  serve r (l ∷ ls) s = serve_line s.state (classify (room r s.state) l) s >>= serve r ls
