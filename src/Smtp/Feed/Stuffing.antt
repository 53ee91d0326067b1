-- ===== src/Smtp/Feed/Stuffing.antt =====
-- The transparency of message data: RFC 5321, 4.5.2, on the server's side.
use ervan.Base.{
  ℕ, ◌+◌, ◌-◌, ◌≤◌, ◌≡◌, refl, true, false, ◌==◌, Bool-cases, inl, inr, le→ltb_false, if◌then◌else◌,
  Bytes, length, [], ◌∷◌, ◌++◌, arith,
}
use ervan.Common.Platform.{Platform, c_string}
use ervan.Strings.Join.{crlf}
use ervan.Smtp.Session.{Settings, Session}
use ervan.Smtp.Feed.{unstuff, is_end, max_line_length, count_line, terminate, write_line, take_line}

-- What a client sends for a line: a dot in front is doubled.
abbrev pub stuff : Bytes → Bytes
stuff [] = []
stuff (c ∷ cs) = if c == b'.' then c ∷ c ∷ cs else c ∷ cs

pub unstuff-stuff : (l : Bytes) → unstuff (stuff l) ≡ l
unfolding unstuff
unstuff-stuff [] = refl
unstuff-stuff (c ∷ cs) = elim (Bool-cases (c == b'.')) [
  | inl e ↦ rw (e, e) refl
  | inr e ↦ rw (e, e) refl
]

pub is_end-stuff : (l : Bytes) → is_end (stuff l) ≡ false
unfolding is_end c_string
is_end-stuff [] = refl
is_end-stuff (c ∷ cs) = ground arith

module _ (p : Platform) (cfg : Settings) where
  abbrev pub Clean : Session p → Type 0
  Clean s = (s.line_too_long ≡ false) × (s.data_too_long ≡ false) × (s.data_error ≡ false)

  -- A line that is within the limits.
  abbrev pub Fits : Session p → Bytes → Type 0
  Fits s l = (length l ≤ max_line_length - 2) × (s.data_size + (length l + 2) ≤ s.max_data_size)

  count_line-Clean : (l : Bytes) (s : Session p) → Clean s → Fits s l → Clean (count_line p cfg l s)
  unfolding count_line
  count_line-Clean l s (a, b, c) (f, g) =
      rw
        (
          le→ltb_false (max_line_length - 2) (length l) f,
          le→ltb_false s.max_data_size (s.data_size + (length l + 2)) g,
        )
        (a, b, c)

  -- A line that was written: its bytes and CR LF are on the disk `d`, and the counts go on.
  pub record Taken (s : Session p) (l : Bytes) (d : p.Disk) (end : ℕ) (t : Session p) : Type 0 where
    pub disk : t.disk ≡ d
    pub clean : Clean t
    pub size : t.data_size ≡ s.data_size + (length l + 2)
    pub limit : t.max_data_size ≡ s.max_data_size
    pub buffer : t.line_buffer ≡ terminate p cfg s.line_buffer end
    pub offset : t.line_offset ≡ s.line_offset
    pub reply : t.sent ≡ s.sent
    pub state : t.state ≡ s.state
    pub metadata : t.metadata ≡ s.metadata

  write_line-Taken :
      (end : ℕ) (l : Bytes) (s : Session p) (d : p.Disk)
      → Clean (count_line p cfg l s)
      → p.write s.disk (l ++ crlf) ≡ (true, d)
      → Taken s l d end (write_line p cfg end l (count_line p cfg l s))
  unfolding write_line count_line
  write_line-Taken end l s d (a, b, c) w =
      rw (a, b, c, w)
        (record {
          disk = refl;
          clean = (refl, refl, refl);
          size = refl;
          limit = refl;
          buffer = refl;
          offset = refl;
          reply = refl;
          state = refl;
          metadata = refl;
        })

  pub take_line-Taken :
      (end : ℕ) (l : Bytes) (s : Session p) (d : p.Disk)
      → Clean s
      → Fits s l
      → p.write s.disk (l ++ crlf) ≡ (true, d)
      → Taken s l d end (take_line p cfg end (stuff l) s)
  unfolding take_line
  take_line-Taken end l s d c f w =
      rw (unstuff-stuff l) (write_line-Taken end l s d (count_line-Clean l s c f) w)
