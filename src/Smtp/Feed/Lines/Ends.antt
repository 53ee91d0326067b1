-- ===== src/Smtp/Feed/Lines/Ends.antt =====
-- How a connection ends: the receive loop of smtp/src/session.cpp on all that a client sends.
use ervan.Base.{◌+◌, ◌^◌, ◌≤◌, ◌<◌, ◌≡◌, Bool, true, All, Bytes, length, List, []}
use ervan.Common.Platform.{Platform}
use ervan.Strings.Join.Lines.{lines}
use ervan.Smtp.Session.{Settings, Session, Effect, done, wild}
use ervan.Smtp.Valid.{IsValid, EnsuresValid}
use ervan.Smtp.Feed.{max_line_length, handle}
use ervan.Smtp.Feed.Ends.{handle-IsValid}
use ervan.Smtp.Feed.Pieces.Message.{whole}
use ervan.Smtp.Feed.Lines.{Rooms}
use ervan.Smtp.Feed.Lines.Rounds.{Ready}
use ervan.Smtp.Feed.Lines.Talks.{has_short, Converses, handle-Converses}

module _ {p : Platform} (cfg : Settings) (was : Bool) where
  -- A valid session, or a read behind a line, for which one of the lines is to blame; never a loop
  -- without end.
  abbrev pub Ends : List Bytes → Effect (Session p) → Type 0
  Ends ls (done t) = IsValid cfg was t
  Ends ls wild = has_short ls ≡ true
  Ends ls Effect.exhausted = ⊥

  both_hold :
      (r : Rooms) (ls : List Bytes) (s : Session p) (m : Effect (Session p))
      → EnsuresValid cfg was m
      → Converses cfg r ls s m
      → Ends ls m
  both_hold r ls s (done t) v talk = v
  both_hold r ls s wild v talk = talk
  both_hold r ls s Effect.exhausted v talk = v

  -- A valid session whose buffers are ready for a line, the one for a message with at least 1000
  -- bytes: whatever pieces a client sends, none of them empty and less than 2 GiB in all, handle
  -- ends. It reads behind a line only if one of the lines that CR LF cuts the input into is of four
  -- bytes and names EHLO, HELO, MAIL or RCPT. Else it leaves a valid session: a sender or recipients
  -- only behind EHLO or HELO, no more recipients than the configuration allows, message data only
  -- with a sender and a recipient, the configuration's limits, and an error that the session had is
  -- still there.
  pub handle-Ends :
      (r : Rooms) (pieces : List Bytes) (s : Session p)
      → max_line_length + 2 ≤ r.message
      → IsValid cfg was s
      → Ready p cfg r s []
      → All (λ a. 0 < length a) pieces
      → length (whole pieces) < 2 ^ 31
      → Ends (lines [] (whole pieces)) (handle p cfg pieces s)
  handle-Ends r pieces s wide v ready some_left bound =
      both_hold r (lines [] (whole pieces)) s _ (handle-IsValid cfg was pieces s v)
        (handle-Converses cfg r was pieces s wide v ready some_left bound)
