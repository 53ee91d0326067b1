-- ===== src/Smtp/Examples.antt =====
-- A platform whose disk is the bytes of one file and the position in it, and sessions over it.
use ervan.Base.{List, ◌≡◌, refl, sym, true, drop, some, length-replicate, arith}
use ervan.Strings.Join.Memory.{take-nil}
use ervan.Strings.Join.Refines.{Holds}
use ervan.Smtp.Session.{State}
use ervan.Smtp.Commands.{to_upper, accept}
use ervan.Smtp.Commands.Prefix.{accept-long}
use ervan.Smtp.Files.Refusals.{Refused}
use ervan.Smtp.Feed.{end_message}
use ervan.Smtp.Feed.Refusals.{end_message-Refused}
use ervan.Base.{
  ℕ, ◌+◌, true, false, Bytes, length, replicate, take, drop, codes, [], ◌∷◌, ◌++◌, some,
}
use ervan.Common.Platform.{Platform}
use ervan.Common.Metadata.{no_metadata}
use ervan.Strings.Join.{LineBuffer}
use ervan.Smtp.Session.{cmd, Settings, Session, new_session}

pub record MemoryDisk : Type 0 where
  pub bytes : Bytes
  pub position : ℕ

abbrev pub memory : Platform
memory = record {
  Disk = MemoryDisk;
  open_file = λ d path. some (record { bytes = []; position = 0 });
  write = λ d bytes. (
    true,
    record {
      bytes = take d.position d.bytes ++ (bytes ++ drop (d.position + length bytes) d.bytes);
      position = d.position + length bytes;
    },
  );
  tellg = λ d. some d.position;
  seek_set = λ d offset. record d { position = offset };
  seek_end = λ d. record d { position = length d.bytes };
  fsync = λ d. (0, d);
  truncate = λ d. record d { bytes = [] };
  close = λ d. d;
  unlink = λ d path. d;
  time = λ d. 0;
  strftime = λ d format. format;
  unique = λ d. (codes "1", d);
  indeterminate = λ d. 0;
}

abbrev pub config : Settings
config = record { hostname = codes "mx.test"; max_message_size = 4096; max_rcpt = 2 }

abbrev pub buffer : ℕ → LineBuffer
buffer n = record { target = replicate n 0; check = 0 ∷ 0 ∷ [] }

-- The line buffers here are shorter than the source's.
abbrev unset : Session memory
unset = record {
  state = cmd;
  metadata = no_metadata;
  reverse_set = true;
  session_begun = true;
  max_data_size = 7;
  data_size = 7;
  data_path = [];
  max_forward_paths = 7;
  cmd_buffer = buffer 40;
  cmd_offset = 0;
  line_buffer = buffer 40;
  line_offset = 0;
  data_too_long = false;
  data_error = false;
  line_too_long = false;
  sent = [];
  disk = record { bytes = []; position = 0 };
}

abbrev pub connected : Session memory
connected = new_session memory config unset

abbrev pub greeting : Bytes
greeting = codes "EHLO a.b\r\nNOOP\r\n"

accept-long_example :
    accept (codes "xxxxx<a@b>") (codes "FROM:") ≡ some (drop 5 (codes "xxxxx<a@b>"))
unfolding to_upper
accept-long_example = accept-long (codes "xxxxx<a@b>") (codes "FROM:") refl (omega arith)

-- A session in the middle of a message, with buffers of the source's size.
abbrev pub wide : LineBuffer
wide = record { target = replicate 1022 0; check = 0 ∷ 0 ∷ [] }

pub wide-Holds : Holds 1022 wide 0 []
wide-Holds = record {
  sized = length-replicate {A = ℕ} 1022 0;
  offset_is = refl;
  stored = sym (take-nil (length wide.target));
  window = (0, 0, refl, refl);
}

abbrev pub receiving : Session memory
receiving = record unset {
  state = State.in_data;
  line_buffer = wide;
  max_data_size = 4096;
  data_size = 0;
}

abbrev failed : Session memory
failed = record receiving { data_error = true }

end_message-Refused_example : Refused memory config failed (end_message memory config failed)
end_message-Refused_example = end_message-Refused memory config failed 0 refl refl

abbrev pub two_lines : List Bytes
two_lines = codes ".a" ∷ codes "b" ∷ []

abbrev pub after_two : MemoryDisk
after_two = record { bytes = codes ".a\r\nb\r\n"; position = 7 }
