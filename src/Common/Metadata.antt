-- ===== src/Common/Metadata.antt =====
-- common/src/message.cpp and common/include/ervan/message.hpp: the metadata of a message.
pub mod Appends
use ervan.Base.{ℕ, ◌+◌, ◌*◌, ◌/◌, true, Bytes, replicate, List, [], ◌∷◌, ◌++◌}
use ervan.Common.Platform.{Platform, Task, chain, put}
use ervan.Strings.Base64.{base64_encode}

-- The four lines of 32 bytes are NUL in every metadata that the program makes.
pub record Metadata : Type 0 where
  pub from : Bytes
  pub reverse_path : Bytes
  pub forward_paths : List Bytes

-- metadata()
abbrev pub no_metadata : Metadata
no_metadata = record { from = []; reverse_path = []; forward_paths = [] }

abbrev pub line_len : ℕ
line_len = 32

abbrev pub line_len_64 : ℕ
line_len_64 = (line_len + line_len / 3 + 3) / 4 * 4

abbrev pub eol : Bytes
eol = b'\r' ∷ b'\n' ∷ []

-- One line of the buffer, with its CR LF.
unfoldable pub encoded_line : Bytes
unfolding base64_encode
encoded_line = base64_encode (replicate line_len 0) ++ eol

unfoldable pub encoded_lines : Bytes
unfolding encoded_line
encoded_lines = encoded_line ++ (encoded_line ++ (encoded_line ++ encoded_line))

module _ (p : Platform) where
  unfoldable pub write_paths : List Bytes → Task p
  write_paths [] d = (true, d)
  write_paths (path ∷ paths) d = chain p (put p path) (chain p (put p eol) (write_paths paths)) d

  unfoldable pub write_to : Metadata → Task p
  unfolding write_paths encoded_lines
  write_to m = chain p (put p encoded_lines) (
      chain p (put p m.from) (
        chain p (put p eol)
          (chain p (put p m.reverse_path) (chain p (put p eol) (write_paths m.forward_paths)))))
