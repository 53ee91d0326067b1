-- ===== src/Smtp/Feed.antt =====
-- smtp/src/session.cpp: the bytes that come in, as commands or as the lines of a message.
pub mod Keeps
pub mod Ends
pub mod Refusals
pub mod Stuffing
pub mod Transparent
pub mod Pieces
pub mod Lines
use ervan.Base.{
  ℕ, zero, suc, ◌+◌, ◌-◌, Bool, true, false, not, ◌&&◌, ◌||◌, ◌==◌, ltb, if◌then◌else◌, Bytes,
  length, drop, get_or, equal, List, [], ◌∷◌, ◌++◌, codes, Option, none, some,
}
use ervan.Common.Platform.{Platform, c_string}
use ervan.Strings.Join.{LineBuffer, Joined, store, join, line_bytes, crlf}
use ervan.Smtp.Replies.{exceeded_line}
use ervan.Smtp.Session.{
  State, cmd, in_data, closed, Settings, Session, Effect, done, wild, ◌>>=◌, send,
}
use ervan.Smtp.Files.{finish_data, abort_data}
use ervan.Smtp.Dispatch.{call_command}

-- The session goes on with what is left of the input.
pub record Fed (p : Platform) : Type 0 where
  pub session : Session p
  pub rest : Bytes

-- line[0] == '.' && line[1] == '.' takes one of the dots away. Behind the line stands a NUL.
pub unstuff : Bytes → Bytes
unstuff line = if get_or line 0 0 == b'.' && get_or line 1 0 == b'.' then drop 1 line else line

-- std::strcmp(result.sp.begin(), ".") == 0
pub is_end : Bytes → Bool
is_end line = equal (c_string line) (codes ".")

abbrev pub max_line_length : ℕ
max_line_length = 998

module _ (p : Platform) (cfg : Settings) where
  -- Behind `join`: the call, and the reply to a line that was too long.
  pub fed_line : Joined → Option ℕ → Session p → Effect (Session p)
  fed_line j none s = done s
  fed_line j (some n) s = call_command p cfg (line_bytes j n) s

  abbrev too_long_reply : Joined → Session p → Session p
  too_long_reply j s = if j.out_of_range then send p exceeded_line s else s

  pub feed_cmd : Session p → Bytes → Effect (Fed p)
  feed_cmd s sp =
      let j = join s.cmd_buffer sp s.cmd_offset crlf in
      (do
        s' ← fed_line j j.line (record s { cmd_buffer = j.buffer; cmd_offset = j.offset })
        done (record { session = too_long_reply j s'; rest = j.rest }))

  -- A line of the message, without its CR LF and its first dot: what it counts, and its write.
  pub count_line : Bytes → Session p → Session p
  count_line line s =
      let size = s.data_size + (length line + 2) in
      record s {
        data_size = size;
        line_too_long = if ltb (max_line_length - 2) (length line) then true else s.line_too_long;
        data_too_long = if ltb s.max_data_size size then true else s.data_too_long;
      }

  -- `end` is where the line ends in the buffer: CR LF and a NUL are stored there.
  pub terminate : LineBuffer → ℕ → LineBuffer
  terminate b end = store (store (store b end b'\r') (end + 1) b'\n') (end + 2) 0

  pub write_line : ℕ → Bytes → Session p → Session p
  write_line end line s =
      if s.line_too_long || s.data_too_long || s.data_error
      then s
      else (let (written, d) = p.write s.disk (line ++ crlf) in
          record s {
            line_buffer = terminate s.line_buffer end;
            disk = d;
            data_error = if written then s.data_error else true;
          })

  pub take_line : ℕ → Bytes → Session p → Session p
  take_line end line s = write_line end (unstuff line) (count_line (unstuff line) s)

  pub end_message : Session p → Session p
  end_message s =
      if not s.line_too_long && not s.data_too_long then finish_data p cfg s else abort_data p cfg s

  -- What a round of `feed_data` does with the answer of `join`: it goes on, or it leaves the loop.
  pub data_round :
      (Session p → Bytes → Effect (Fed p)) → Joined → Option ℕ → Session p → Effect (Fed p)
  data_round next j none s = done (record {
    session = if j.out_of_range then record s { line_too_long = true } else s;
    rest = j.rest;
  })
  data_round next j (some n) s =
      let line = line_bytes j n in
      let more = next (take_line n line s) j.rest in
      if is_end line then done (record { session = end_message s; rest = j.rest }) else more

  pub feed_data : ℕ → Session p → Bytes → Effect (Fed p)
  feed_data zero s sp = Effect.exhausted
  feed_data (suc fuel) s sp =
      let j = join s.line_buffer sp s.line_offset crlf in
      data_round (feed_data fuel) j j.line
        (record s { line_buffer = j.buffer; line_offset = j.offset })

  pub feed_round : State → Session p → Bytes → Effect (Fed p)
  feed_round cmd s sp = feed_cmd s sp
  feed_round in_data s sp = feed_data (suc (length sp)) s sp
  feed_round closed s sp = done (record { session = s; rest = [] })

  -- The loop of `feed`; a closed session leaves the rest of the input alone.
  pub feed : ℕ → Session p → Bytes → Effect (Session p)
  feed fuel s [] = done s
  feed zero s (c ∷ cs) = Effect.exhausted
  feed (suc fuel) s (c ∷ cs) = do
    fed ← feed_round s.state s (c ∷ cs)
    feed fuel fed.session fed.rest

  pub send_greeter : Session p → Session p
  send_greeter s =
      send p (codes " SMTP Ervan 2 ready\r\n") (send p cfg.hostname (send p (codes "220 ") s))

  -- One round of the loop in session::handle: `recv` has yielded `piece`, empty at the end.
  handle_piece : (Session p → Effect (Session p)) → Bytes → State → Session p → Effect (Session p)
  handle_piece next piece closed s = done s
  handle_piece next [] _ s = done s
  handle_piece next (c ∷ cs) _ s = feed (length (c ∷ cs)) s (c ∷ cs) >>= next

  -- The loop, on the pieces that `recv` yields before it fails or the peer is done.
  pub handle_pieces : List Bytes → Session p → Effect (Session p)
  handle_pieces [] s = done s
  handle_pieces (piece ∷ pieces) s = handle_piece (handle_pieces pieces) piece s.state s

  -- session::handle
  pub handle : List Bytes → Session p → Effect (Session p)
  handle pieces s = handle_pieces pieces (send_greeter s)
