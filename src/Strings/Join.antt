-- ===== src/Strings/Join.antt =====
-- common/src/string.cpp: `push_back` and `join`, which assembles a line from the pieces in which the
-- input arrives. The target span is two runs of memory: `check`, its last bytes, as many as the
-- terminator has, and `target`, what stands in front. A span of the source is the list of its bytes.
-- `tgt_offset`, an `int` in the source, does not wrap here.
pub mod Memory
pub mod Lines
pub mod Scans
pub mod Refines
pub mod Drains
pub mod Shrinks
pub mod Whole
pub mod Pieces
mod Examples
use ervan.Base.{
  ℕ, zero, suc, ◌+◌, ◌-◌, ◌%◌, ◌^◌, Bool, true, false, ◌==◌, ltb, if◌then◌else◌, Bytes, length,
  take, set, equal, Option, none, some, [], ◌∷◌,
}
use Prim.Native.Nat.{min}

pub record LineBuffer : Type 0 where
  pub target : Bytes
  pub check : Bytes

-- Every byte moves one place down, and `c` takes the last one.
unfoldable pub push_back : Bytes → ℕ → Bytes
push_back [] c = []
push_back (x ∷ []) c = c ∷ []
push_back (x ∷ y ∷ r) c = y ∷ push_back (y ∷ r) c

-- A `memcpy` to `target + offset`.
unfoldable pub overwrite : Bytes → ℕ → Bytes → Bytes
overwrite [] offset src = []
overwrite (x ∷ xs) zero [] = x ∷ xs
overwrite (x ∷ xs) zero (c ∷ cs) = c ∷ overwrite xs zero cs
overwrite (x ∷ xs) (suc offset) src = x ∷ overwrite xs offset src

-- *(target.begin() + i) = v, where `check` stands behind the target.
pub store : LineBuffer → ℕ → ℕ → LineBuffer
store b i v = record {
  target = set b.target i v;
  check = if ltb i (length b.target) then b.check else set b.check (i - length b.target) v;
}

-- The loop over the source: where the terminator was completed, or the end of the source.
pub data Scan : Type 0 where
  hit : Bytes → ℕ → Bytes → Scan
  miss : Bytes → ℕ → Scan

pub scan : Bytes → Bytes → ℕ → Bytes → Scan
unfolding push_back
scan terminator check offset [] = miss check offset
scan terminator check offset (c ∷ cs) =
    let pushed = push_back check c in
    let next = scan terminator pushed (offset + 1) cs in
    if equal pushed terminator then hit pushed offset cs else next

-- `join_result`, and the buffer and offset that the call leaves behind. `line` is the size of `sp`,
-- which starts where the target does; `none` is the null span.
pub record Joined : Type 0 where
  pub buffer : LineBuffer
  pub offset : ℕ
  pub line : Option ℕ
  pub rest : Bytes
  pub out_of_range : Bool

-- tgt_offset - t_check.size() + 1, in 64 bits.
abbrev pub target_len : ℕ → Bytes → ℕ
target_len offset check = (offset + (2 ^ 64 - length check) + 1) % 2 ^ 64

pub after_scan : Bytes → Scan → Joined
unfolding store
after_scan target (miss check offset) = record {
  buffer = record { target = target; check = check };
  offset = offset;
  line = none;
  rest = [];
  out_of_range = false;
}
after_scan target (hit check offset rest) =
    let len = target_len offset check in
    let buffer : LineBuffer = record { target = target; check = check } in
    if ltb (length target) len
    then record { buffer = buffer; offset = 0; line = none; rest = rest; out_of_range = true }
    else record {
      buffer = store buffer len 0;
      offset = 0;
      line = some len;
      rest = rest;
      out_of_range = false;
    }

-- tgt_offset < target.len ? std::min(target.len - tgt_offset, src.len) : 0
abbrev pub cpy_len : ℕ → ℕ → ℕ → ℕ
cpy_len offset target_size src_size =
    if ltb offset target_size then min (target_size - offset) src_size else 0

unfoldable pub join : LineBuffer → Bytes → ℕ → Bytes → Joined
unfolding overwrite scan after_scan
join b [] offset terminator = record {
  buffer = b;
  offset = offset;
  line = none;
  rest = [];
  out_of_range = false;
}
join b (c ∷ cs) offset terminator =
    let n = cpy_len offset (length b.target) (length (c ∷ cs)) in
    after_scan (overwrite b.target offset (take n (c ∷ cs)))
      (scan terminator b.check offset (c ∷ cs))

-- The bytes of `sp`.
abbrev pub line_bytes : Joined → ℕ → Bytes
line_bytes j n = take n j.buffer.target

-- `cmd_terminator`
abbrev pub crlf : Bytes
crlf = b'\r' ∷ b'\n' ∷ []
