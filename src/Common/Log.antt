-- ===== src/Common/Log.antt =====
-- common/include/ervan/log.hpp: the log of a process. The text of the time, which `preambule` takes
-- from <ctime>, is an argument.
pub mod Rows
mod Examples
use ervan.Base.{Bytes, codes, [], ◌∷◌, ◌++◌}
use ervan.Common.Platform.{c_string}

pub record LogOutput : Type 0 where
  pub output : Bytes
  pub name : Bytes

unfoldable pub set_name : Bytes → LogOutput → LogOutput
set_name name log = record log { name = name }

-- What stands in front of a line.
abbrev pub preamble : Bytes → LogOutput → Bytes
preamble time log = time ++ (b' ' ∷ (log.name ++ codes ": "))

-- operator<<
pub write_log : Bytes → Bytes → LogOutput → LogOutput
write_log time line log = record log {
  output = log.output ++ (preamble time log ++ (line ++ b'\n' ∷ []));
}

-- log::out << result.sp.begin() in session::feed_cmd, where a NUL ends the text.
unfoldable pub log_command : Bytes → Bytes → LogOutput → LogOutput
log_command time command log = write_log time (c_string command) log
