-- ===== src/Smtp/Files.antt =====
-- smtp/src/session/file.cpp: the message's file, a tar archive of the message and its metadata.
pub mod Keeps
pub mod Refusals
pub mod Entries
pub mod Archive
pub mod Buffers
pub mod Turns
use ervan.Base.{
  ℕ, ◌+◌, ◌-◌, ◌%◌, ◌^◌, Bool, true, false, not, Bytes, replicate, Option, none, some, [], ◌∷◌,
  ◌++◌, codes, if◌then◌else◌, ◌==◌,
}
use ervan.Common.Platform.{Platform, Task, chain, put, c_string}
use ervan.Common.Tar.{filled}
use ervan.Common.Writer.{Writer, and_then, begin_header, write_body_part, write_time, end_header}
use ervan.Common.Metadata.{write_to}
use ervan.Smtp.Replies.{ok, local_error, exceeded_line, exceeded_storage}
use ervan.Smtp.Session.{State, cmd, Settings, Session, send, reset}

module _ (p : Platform) (cfg : Settings) where
  unfoldable pub write_header_space : Task p
  write_header_space = put p (replicate 512 0)

  unfoldable pub write_trace_info : Task p
  write_trace_info d =
      let start : Writer p = record { line_length = p.indeterminate d; disk = d } in
      let (done, w) =
        and_then p (begin_header p (codes "Received"))
          (and_then p (write_body_part p (codes "by") true) (
            and_then p (write_body_part p (c_string cfg.hostname) true) (
              and_then p (write_body_part p (codes ";") false)
                (and_then p (write_time p (p.strftime d)) (end_header p)))))
          start in
      (done, w.disk)

  -- `open_files`, once the file is open.
  unfoldable pub write_front : Task p
  write_front = chain p write_header_space write_trace_info

  unfoldable pub opened : Session p → Option p.Disk → Bool × Session p
  opened s none = (false, s)
  opened s (some d) = let (done, d') = write_front d in (done, record s { disk = d' })

  unfoldable pub open_files : Session p → Bool × Session p
  open_files s =
      let (name, d) = p.unique s.disk in
      let path = codes "./ingoing/msg." ++ (name ++ codes ".tar") in
      opened (record s { data_path = path; disk = d }) (p.open_file d path)

  unfoldable pub write_data_tar_header : ℕ → Task p
  write_data_tar_header size d = p.write d (filled (codes "message.mbox") size (p.time d))

  unfoldable pub write_metadata_tar_header : ℕ → Task p
  write_metadata_tar_header size d = p.write d (filled (codes "metadata.ervan") size (p.time d))

  -- `tellg` as a `size_t`; a failure is -1.
  abbrev told : Option ℕ → ℕ
  told none = 2 ^ 64 - 1
  told (some size) = size

  abbrev pub position : p.Disk → ℕ
  position d = told (p.tellg d)

  unfoldable pub pad_data : Task p
  pad_data d = p.write d (replicate (512 - position d % 512) 0)

  -- The lambda `check`: nothing is run once an error has been seen.
  pub check : Task p → Session p → Session p
  check task s =
      if s.data_error
      then s
      else (let (done, d) = task s.disk in record s { disk = d; data_error = not done })

  -- The reply of `abort_data`; there is none where no flag is set.
  pub abort_reply : Session p → Session p
  abort_reply s =
      if s.data_too_long
      then send p exceeded_storage s
      else if s.line_too_long
      then send p exceeded_line s
      else if s.data_error
      then send p local_error s
      else s

  -- The file is closed, and the session reset.
  abbrev pub let_go : Session p → p.Disk → Session p
  let_go s d = record (reset p cfg (record s { disk = d; data_path = [] })) { state = cmd }

  pub abort_data : Session p → Session p
  abort_data s = abort_reply (let_go s (p.close (p.truncate (p.unlink s.disk s.data_path))))

  abbrev pub seek_set : ℕ → Session p → Session p
  seek_set offset s = record s { disk = p.seek_set s.disk offset }

  abbrev pub seek_end : Session p → Session p
  seek_end s = record s { disk = p.seek_end s.disk }

  -- From the writing of the metadata on, behind the padded message, whose end is `data_size`.
  pub finish_metadata : ℕ → Session p → Session p
  finish_metadata data_size s =
      let s₁ = check write_header_space s in
      let pre_metadata_size = position s₁.disk in
      let s₂ = check (write_to p s₁.metadata) s₁ in
      let total_size = position s₂.disk in
      let length = (total_size + (2 ^ 64 - pre_metadata_size)) % 2 ^ 64 in
      let s₃ = check (write_metadata_tar_header length) (seek_set data_size s₂) in
      check pad_data (seek_end s₃)

  -- The end of `finish_data`: the file is synced, and the message accepted.
  pub finish_sync : Session p → Session p
  finish_sync s =
      let (result, d) = p.fsync s.disk in
      if result == 0
      then send p ok (let_go s (p.close d))
      else abort_data (record s { disk = d; data_error = true })

  -- The header of the message, whose file ends at `file_size`, and its padding.
  pub finish_message : ℕ → Session p → Session p
  finish_message file_size s =
      let length = (file_size + (2 ^ 64 - 512)) % 2 ^ 64 in
      check pad_data (seek_end (check (write_data_tar_header length) (seek_set 0 s)))

  -- Behind the padding, where an error ends it.
  pub finish_padded : Session p → Session p
  finish_padded s =
      let s' = finish_metadata (position s.disk) s in
      if s.data_error then abort_data s else if s'.data_error then abort_data s' else finish_sync s'

  pub finish_at : Option ℕ → Session p → Session p
  finish_at none s = abort_data s
  finish_at (some file_size) s = finish_padded (finish_message file_size s)

  pub finish_data : Session p → Session p
  finish_data s = finish_at (p.tellg s.disk) s
