-- ===== src/Smtp/Feed/Pieces/Transaction.antt =====
-- DATA and the message behind it, from a transaction with recipients to the archive on the disk.
use ervan.Base.{
  ℕ, ◌+◌, ◌^◌, ◌≤◌, ◌<◌, ◌≡◌, refl, ap, false, true, All, Bytes, length, length-append,
  length-replicate, replicate, List, [], ◌∷◌, ◌++◌, some, arith,
}
use ervan.Common.Platform.{Platform}
use ervan.Common.Platform.Regular.{Contents, Stands, IsRegular}
use ervan.Common.Metadata.Appends.{metadata_bytes}
use ervan.Strings.Join.Refines.{Holds}
use ervan.Smtp.Replies.{start_data}
use ervan.Smtp.Session.{Settings, Session, done}
use ervan.Smtp.Files.{write_front}
use ervan.Smtp.Files.Archive.{Archived}
use ervan.Smtp.Commands.{Argument, data_command}
use ervan.Smtp.Commands.Opens.{file_name, data_begun, data_command-begun, data_begun-Stands}
use ervan.Smtp.Feed.{max_line_length, handle_pieces}
use ervan.Smtp.Feed.Transparent.{encoded, total, IsShort}
use ervan.Smtp.Feed.Pieces.Message.{whole}
use ervan.Smtp.Feed.Pieces.Stored.{message_bytes, handle_pieces-Archived}

module _ {p : Platform} {file : Contents p} (regular : IsRegular file) (cfg : Settings) where
  -- The transaction went through: DATA was answered with `start_data`, and the pieces then made the
  -- session `s'`, whose file is an archive of some trace information with the lines behind it, and of
  -- the metadata, and which has sent one reply more, the one that accepts the message.
  pub record Stored (s : Session p) (a : Argument) (pieces later ls : List Bytes) : Type 0 where
    pub begun : Session p
    pub trace : Bytes
    pub finished : Session p
    pub begins : data_command p cfg a s ≡ done begun
    pub invites : begun.sent ≡ start_data ∷ s.sent
    pub described : begun.metadata ≡ s.metadata
    pub ends : handle_pieces p cfg (pieces ++ later) begun ≡ handle_pieces p cfg later finished
    pub archived : Archived regular cfg begun (trace ++ message_bytes ls) finished

  -- A session with a sender and a recipient, no error met, and a buffer of at least 1000 bytes that is
  -- ready for a line; every write succeeds, and the message's file can be made, is empty, and stays
  -- below 2^63 bytes. If the client says DATA and sends lines that are short enough and together within
  -- the session's limit, dot-stuffed and with the dot behind them, in whatever pieces none of which is
  -- empty, less than 2 GiB in all: then DATA is answered with the reply 354, and the receive loop comes
  -- to a session whose file is an archive of some trace information with the lines behind it, and of
  -- the metadata, which has sent just one reply more, the one that accepts the message, and which is
  -- ready for a new transaction and goes on with what arrives later.
  pub data_command-Stored :
      (capacity : ℕ) (a : Argument) (pieces later ls : List Bytes) (s : Session p) (d : p.Disk)
      → max_line_length + 2 ≤ capacity
      → s.reverse_set ≡ true
      → 0 < length s.metadata.forward_paths
      → s.data_error ≡ false
      → Holds capacity s.line_buffer s.line_offset []
      → p.open_file (p.unique s.disk).1 (file_name regular cfg s.disk) ≡ some d
      → Stands file d [] 0
      → All (λ x. 0 < length x) pieces
      → whole pieces ≡ encoded ls []
      → length (encoded ls []) < 2 ^ 31
      → All IsShort ls
      → total ls ≤ s.max_data_size
      → length (file.bytes (write_front p cfg d).1) + total ls + length (metadata_bytes s.metadata)
        < 2 ^ 63
      → Stored s a pieces later ls
  unfolding data_begun
  data_command-Stored capacity a pieces later ls s d wide r n sound holds o st some_left e bound
        short fits small =
      let (trace, stood) = data_begun-Stands regular cfg s d st in
      let space : Bytes = replicate 512 0 in
      let t = data_begun regular cfg s d in
      let (s', ends, archived) =
        handle_pieces-Archived regular cfg capacity pieces later ls t space trace wide refl holds
          (refl, refl, sound) some_left e bound short (omega arith) (length-replicate {A = ℕ} 512 0)
          stood (omega (arith, ap length stood.0, length-append space trace)) in
      record {
        begun = t;
        trace = trace;
        finished = s';
        begins = data_command-begun regular cfg a s d r n o st;
        invites = refl;
        described = refl;
        ends = ends;
        archived = archived;
      }
