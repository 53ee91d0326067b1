-- ===== src/Common/Writer.antt =====
-- common/src/rfc5322.cpp: the writer of header fields, which folds long lines. It is the length of
-- the current line and the file under it.
pub mod Extends
use ervan.Base.{
  ℕ, ◌+◌, ◌-◌, ◌%◌, ◌^◌, Bool, true, false, Bytes, length, [], ◌∷◌, codes, if◌then◌else◌, ltb,
}
use ervan.Common.Platform.{Platform}

abbrev pub preferred_line_length : ℕ
preferred_line_length = 78

-- An `int`, given by its 32 bits, where a `size_t` is added to it: its sign goes through all 64.
abbrev pub extended : ℕ → ℕ
extended bits = let low = bits % 2 ^ 32 in if ltb low (2 ^ 31) then low else low + (2 ^ 64 - 2 ^ 32)

module _ (p : Platform) where
  -- `line_length`, an `int`, as its 32 bits, and the disk.
  pub record Writer : Type 0 where
    pub line_length : ℕ
    pub disk : p.Disk

  abbrev pub Writes : Type 0
  Writes = Writer → Bool × Writer

  abbrev pub and_then : Writes → Writes → Writes
  and_then first second w = let (done, w') = first w in if done then second w' else (false, w')

  unfoldable pub write_raw : Bytes → Writes
  write_raw bytes w = let (done, d) = p.write w.disk bytes in (done, record w { disk = d })

  abbrev pub add_length : ℕ → Writes
  add_length n w = (true, record w { line_length = (w.line_length + n) % 2 ^ 32 })

  unfoldable pub begin_header : Bytes → Writes
  unfolding write_raw
  begin_header name =
      and_then (add_length (length name)) (and_then (write_raw name) (write_raw (codes ":")))

  -- A fold, or the space in front of a part.
  unfoldable pub fold : Bytes → Bool → Writes
  unfolding write_raw
  fold part space w =
      if ltb preferred_line_length
        ((extended (w.line_length + (if space then 1 else 0)) + length part) % 2 ^ 64)
      then (let (done, w') = write_raw (b'\r' ∷ b'\n' ∷ b'\t' ∷ []) w in
          (done, if done then record w' { line_length = 1 } else w'))
      else if space
      then (let (done, w') = write_raw (codes " ") w in
          (done, if done then record w' { line_length = (w'.line_length + 1) % 2 ^ 32 } else w'))
      else (true, w)

  unfoldable pub write_body_part : Bytes → Bool → Writes
  unfolding fold write_raw
  write_body_part part space =
      and_then (fold part space) (and_then (add_length (length part)) (write_raw part))

  unfoldable pub write_time : (Bytes → Bytes) → Writes
  unfolding write_body_part
  write_time strftime = and_then (write_body_part (strftime (codes "%a,")) true) (
      and_then (write_body_part (strftime (codes "%d")) true) (
        and_then (write_body_part (strftime (codes "%b")) true) (
          and_then (write_body_part (strftime (codes "%Y")) true) (
            and_then (write_body_part (strftime (codes "%T")) true)
              (write_body_part (strftime (codes "%z")) true)))))

  unfoldable pub end_header : Writes
  unfolding write_raw
  end_header = write_raw (b'\r' ∷ b'\n' ∷ [])
