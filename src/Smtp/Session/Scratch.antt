-- ===== src/Smtp/Session/Scratch.antt =====
-- The members of a session that hold the bytes of an unfinished line.
use ervan.Base.{ℕ, ◌≡◌, []}
use ervan.Common.Platform.{Platform}
use ervan.Strings.Join.{LineBuffer}
use ervan.Smtp.Session.{Session, Effect, done, wild, exhausted}

-- The two buffers of a session, and the offsets in them: the only members that the bytes of an
-- unfinished line touch.
pub record Scratch : Type 0 where
  pub cmd_buffer : LineBuffer
  pub cmd_offset : ℕ
  pub line_buffer : LineBuffer
  pub line_offset : ℕ

-- A session with these buffers.
unfoldable pub over : {p : Platform} → Scratch → Session p → Session p
over x s = record s {
  cmd_buffer = x.cmd_buffer;
  cmd_offset = x.cmd_offset;
  line_buffer = x.line_buffer;
  line_offset = x.line_offset;
}

abbrev pub scratch_of : {p : Platform} → Session p → Scratch
scratch_of s = record {
  cmd_buffer = s.cmd_buffer;
  cmd_offset = s.cmd_offset;
  line_buffer = s.line_buffer;
  line_offset = s.line_offset;
}

abbrev pub each {ℓ κ} : {A : Type ℓ} {B : Type κ} → (A → B) → Effect A → Effect B
each f (done a) = done (f a)
each f wild = wild
each f exhausted = exhausted

abbrev pub empty_buffer : LineBuffer
empty_buffer = record { target = []; check = [] }

abbrev pub no_scratch : Scratch
no_scratch = record {
  cmd_buffer = empty_buffer;
  cmd_offset = 0;
  line_buffer = empty_buffer;
  line_offset = 0;
}

-- What there is of a session but for its buffers.
abbrev pub visible : {p : Platform} → Session p → Session p
visible = over no_scratch

-- The handler does the same over other buffers, and leaves them as they are.
abbrev pub Ignores : (p : Platform) → Scratch → (Session p → Session p) → Type 0
Ignores p x f = (s : Session p) → f (over x s) ≡ over x (f s)

-- The same of a handler that may end in another way.
abbrev pub Passes : (p : Platform) → Scratch → (Session p → Effect (Session p)) → Type 0
Passes p x f = (s : Session p) → f (over x s) ≡ each (over x) (f s)
