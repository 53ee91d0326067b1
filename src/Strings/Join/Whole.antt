-- ===== src/Strings/Join/Whole.antt =====
-- `join` on a source that begins with a whole line.
use ervan.Base.{
  ℕ, ◌-◌, ◌^◌, ◌≤◌, ◌<◌, ◌≡◌, refl, sym, ◌∙◌, subst, Bool, true, false, ◌==◌, lt→ltb, inl, inr, All,
  Bytes, length, length-append, length-set, take-append, set, [], ◌∷◌, ◌++◌, some, arith,
}
use ervan.Strings.Join.{LineBuffer, Joined, store, join, line_bytes, crlf}
use ervan.Strings.Join.Lines.{first_line}
use ervan.Strings.Join.Memory.{take-nil}
use ervan.Strings.Join.Refines.{Holds, Reports, Joins, line_of, join-Joins}

-- No line feed.
abbrev pub IsLine : Bytes → Type 0
IsLine = All (λ c. (c == b'\n') ≡ false)

pub first_line-line :
    (cr : Bool) (l tail : Bytes)
    → IsLine l
    → first_line cr (l ++ (crlf ++ tail)) ≡ some (l ++ crlf, tail)
first_line-line true [] tail h = refl
first_line-line false [] tail h = refl
first_line-line true (c ∷ l) tail (e, h) = rw (e, first_line-line (c == b'\r') l tail h) refl
first_line-line false (c ∷ l) tail (e, h) = rw (first_line-line (c == b'\r') l tail h) refl

pub line_of-crlf : (l : Bytes) → line_of (l ++ crlf) ≡ l
line_of-crlf l = take-append l crlf (length (l ++ crlf) - 2) (omega (arith, length-append l crlf))

-- The whole line is reported, and the buffer is ready for the next one.
pub record JoinsLine (capacity : ℕ) (l tail : Bytes) (j : Joined) : Type 0 where
  pub rest : j.rest ≡ tail
  pub ready : Holds capacity j.buffer j.offset []
  pub line : j.line ≡ some (length l)
  pub bytes : line_bytes j (length l) ≡ l

pub reported_line :
    (capacity : ℕ) (l tail : Bytes) (j : Joined)
    → length l ≤ capacity
    → j.rest ≡ tail
    → Holds capacity j.buffer j.offset []
    → Reports capacity l j
    → JoinsLine capacity l tail j
reported_line capacity l tail j fits r h (inl (f, line, bytes, ok)) = record {
  rest = r;
  ready = h;
  line = line;
  bytes = bytes;
}
reported_line capacity l tail j fits r h (inr (f, line, out)) = absurd (omega arith)

joined_line :
    (capacity : ℕ) (l tail : Bytes) (j : Joined)
    → length l ≤ capacity
    → Joins capacity [] (l ++ (crlf ++ tail)) (some (l ++ crlf, tail)) j
    → JoinsLine capacity l tail j
joined_line capacity l tail j fits (r, h, reports) =
    reported_line capacity l tail j fits r h
      (subst (λ x. Reports capacity x j) (line_of-crlf l) reports)

pub join-JoinsLine :
    (capacity : ℕ) (b : LineBuffer) (offset : ℕ) (l tail : Bytes)
    → Holds capacity b offset []
    → IsLine l
    → length l ≤ capacity
    → length (l ++ (crlf ++ tail)) < 2 ^ 31
    → JoinsLine capacity l tail (join b (l ++ (crlf ++ tail)) offset crlf)
join-JoinsLine capacity b offset l tail h line fits bound = joined_line capacity l tail _ fits (
    subst
      (λ o. Joins capacity [] (l ++ (crlf ++ tail)) o (join b (l ++ (crlf ++ tail)) offset crlf))
      (first_line-line false l tail line)
      (join-Joins capacity b offset [] (l ++ (crlf ++ tail)) h (omega arith)))

-- A write into the target leaves it ready.
pub store-Holds :
    (capacity : ℕ) (b : LineBuffer) (offset i v : ℕ)
    → Holds capacity b offset []
    → i < capacity
    → Holds capacity (store b i v) offset []
unfolding store
store-Holds capacity b offset i v h l = record {
  sized = length-set b.target i v ∙ h.sized;
  offset_is = h.offset_is;
  stored = sym (take-nil (length (set b.target i v)));
  window = rw (lt→ltb i (length b.target) (omega (arith, h.sized))) h.window;
}
