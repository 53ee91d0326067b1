-- ===== src/Common/Platform.antt =====
-- What the program takes from the operating system and from the libraries eaio and <ctime>: the one
-- file that a session has open, and the clock. All of it is a parameter. `Disk` is whatever these
-- calls read and change.
pub mod Regular
use ervan.Base.{ℕ, Bool, false, Bytes, [], ◌∷◌, if◌then◌else◌, Option, ◌==◌}

pub record Platform : Type 1 where
  pub Disk : Type 0
  -- open(path, O_CREAT | O_WRONLY) with fchmod and `wrap`; `none` is -1
  pub open_file : Disk → Bytes → Option Disk
  -- eaio::file::write, at the file's position; whether the result converts to `true`
  pub write : Disk → Bytes → Bool × Disk
  -- eaio::file::tellg; `none` is a negative result
  pub tellg : Disk → Option ℕ
  -- seekg(offset, SEEK_SET) and seekg(0, SEEK_END)
  pub seek_set : Disk → ℕ → Disk
  pub seek_end : Disk → Disk
  -- aio_fsync, and the wait for its signal
  pub fsync : Disk → ℕ × Disk
  pub truncate : Disk → Disk
  pub close : Disk → Disk
  pub unlink : Disk → Bytes → Disk
  pub time : Disk → ℕ
  pub strftime : Disk → Bytes → Bytes
  -- the part of `get_unique_filename` behind its prefix
  pub unique : Disk → Bytes × Disk
  -- the value of an `int` that nothing has set
  pub indeterminate : Disk → ℕ

-- The bytes of a C string: up to the first NUL.
unfoldable pub c_string : Bytes → Bytes
c_string [] = []
c_string (c ∷ cs) = let rest = c_string cs in if c == 0 then [] else c ∷ rest

module _ (p : Platform) where
  -- A coroutine that yields a `bool`.
  abbrev pub Task : Type 0
  Task = p.Disk → Bool × p.Disk

  -- if (!co_await first) co_return false; then the second.
  abbrev pub chain : Task → Task → Task
  chain first second d = let (done, d') = first d in if done then second d' else (false, d')

  abbrev pub put : Bytes → Task
  put bytes d = p.write d bytes
