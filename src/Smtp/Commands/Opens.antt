-- ===== src/Smtp/Commands/Opens.antt =====
-- DATA on a file that takes every write.
use ervan.Base.{
  pass, ℕ, ◌<◌, ◌≡◌, ap, ◌∙◌, Bool, true, false, not, ◌||◌, ◌==◌, Bytes, codes, length, replicate,
  [], ◌++◌, some, arith,
}
use ervan.Common.Platform.{Platform, c_string}
use ervan.Common.Platform.Regular.{Contents, Stands, IsRegular}
use ervan.Common.Writer.Extends.{
  Extends, and_then-Extends, begin_header-Extends, write_body_part-Extends, write_time-Extends,
  end_header-Extends,
}
use ervan.Smtp.Replies.{start_data}
use ervan.Smtp.Session.{in_data, Settings, Session, done, send}
use ervan.Smtp.Files.{write_header_space, write_trace_info, write_front, opened, open_files}
use ervan.Smtp.Commands.{Argument, data_opened, data_command}

module _ {p : Platform} {file : Contents p} (regular : IsRegular file) (cfg : Settings) where
  write_trace_info-Extends :
      (d : p.Disk) (content : Bytes)
      → Stands file d content (length content)
      → Extends regular content (write_trace_info p cfg d).0 (write_trace_info p cfg d).1
  unfolding write_trace_info
  write_trace_info-Extends d content st =
      let written = and_then-Extends regular (begin_header-Extends regular (codes "Received")) (
        and_then-Extends regular (write_body_part-Extends regular (codes "by") true) (
          and_then-Extends regular (write_body_part-Extends regular (c_string cfg.hostname) true) (
            and_then-Extends regular (write_body_part-Extends regular (codes ";") false) (
              and_then-Extends regular (write_time-Extends regular (p.strftime d))
                (end_header-Extends regular))))) in
      written.extends (record { line_length = p.indeterminate d; disk = d }) content st

  -- The block for the header, and the trace information.
  write_front-Extends :
      (d : p.Disk)
      → Stands file d [] 0
      → ((write_front p cfg d).0 ≡ true)
        × ((trace : Bytes) × Stands file
              (write_front p cfg d).1
              (replicate 512 0 ++ trace)
              (length (replicate 512 0 ++ trace)))
  unfolding write_front write_header_space
  write_front-Extends d st =
      let (e, st') = regular.write_end d [] (replicate 512 0) st in
      rw e (write_trace_info-Extends (p.write d (replicate 512 0)).1 (replicate 512 0) st')

  -- The name of the message's file.
  abbrev pub file_name : p.Disk → Bytes
  file_name d = codes "./ingoing/msg." ++ ((p.unique d).0 ++ codes ".tar")

  -- The session that DATA leaves, where `d` is the disk with the new file.
  unfoldable pub data_begun : Session p → p.Disk → Session p
  data_begun s d = send p start_data (record s {
    data_path = file_name s.disk;
    disk = (write_front p cfg d).1;
    state = in_data;
    data_size = 0;
    data_too_long = false;
    line_too_long = false;
  })

  may_begin : (sender : Bool) (n : ℕ) → sender ≡ true → 0 < n → (not sender || n == 0) ≡ false
  may_begin sender n e h = ground arith

  -- DATA in a transaction with a sender and a recipient, where the file is made.
  pub data_command-begun :
      (a : Argument) (s : Session p) (d : p.Disk)
      → s.reverse_set ≡ true
      → 0 < length s.metadata.forward_paths
      → p.open_file (p.unique s.disk).1 (file_name s.disk) ≡ some d
      → Stands file d [] 0
      → data_command p cfg a s ≡ done (data_begun s d)
  unfolding data_command data_opened open_files opened data_begun
  data_command-begun a s d r n o st =
      let named = record s { data_path = file_name s.disk; disk = (p.unique s.disk).1 } in
      pass (not s.reverse_set || length s.metadata.forward_paths == 0) _ _
        (may_begin s.reverse_set (length s.metadata.forward_paths) r n)
      ∙ ap (λ x. data_opened p cfg (opened p cfg named x)) o
      ∙ ap (λ b. data_opened p cfg (b, record named { disk = (write_front p cfg d).1 }))
          (write_front-Extends d st).0

  pub data_begun-Stands :
      (s : Session p) (d : p.Disk)
      → Stands file d [] 0
      → (trace : Bytes) × Stands file
          (data_begun s d).disk
          (replicate 512 0 ++ trace)
          (length (replicate 512 0 ++ trace))
  unfolding data_begun
  data_begun-Stands s d st = (write_front-Extends d st).1
