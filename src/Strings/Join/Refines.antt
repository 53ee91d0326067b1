-- ===== src/Strings/Join/Refines.antt =====
-- One call of `join` with CR LF, against the cutting of a stream into lines.
use ervan.Base.{
  ℕ, zero, suc, ◌+◌, ◌-◌, ◌^◌, ◌≤◌, ◌<◌, ◌≡◌, refl, sym, ap, ◌∙◌, Bool, true, false, ◌==◌,
  Bool-cases, ◌⊎◌, inl, inr, ltb, ltb→lt, ltb_false→le, if◌then◌else◌, Bytes, length, take, set,
  length-append, length-set, [], ◌∷◌, ◌++◌, append-nil, append_assoc, Option, none, some, arith,
}
use ervan.Strings.Join.{
  LineBuffer, store, Scan, hit, miss, scan, Joined, target_len, after_scan, overwrite, cpy_len,
  join, line_bytes, crlf,
}
use ervan.Strings.Join.Memory.{
  Stores, copy-Stores, Stores-take, length-overwrite, take-set, take-nil,
}
use ervan.Strings.Join.Lines.{ends_cr, ends_cr-append, first_line, put_back}
use ervan.Strings.Join.Scans.{Window, Scanned, scan-Scanned}

-- The buffer and the offset stand for `pending`, the bytes since the last line end: `target` holds
-- them as far as it reaches, and the last byte of `check` tells whether they end in a CR.
pub record Holds (capacity : ℕ) (b : LineBuffer) (offset : ℕ) (pending : Bytes) : Type 0 where
  pub sized : length b.target ≡ capacity
  pub offset_is : offset ≡ length pending
  pub stored : Stores b.target pending
  pub window : Window (ends_cr false pending) b.check

-- The line in `whole`, which ends in CR LF.
abbrev pub line_of : Bytes → Bytes
line_of whole = take (length whole - 2) whole

-- What is reported for a line: its bytes, if they fit the target.
abbrev pub Reports : ℕ → Bytes → Joined → Type 0
Reports capacity line j =
    ((length line ≤ capacity)
      × (j.line ≡ some (length line))
      × (line_bytes j (length line) ≡ line)
      × (j.out_of_range ≡ false))
    ⊎ ((capacity < length line) × (j.line ≡ none) × (j.out_of_range ≡ true))

abbrev pub Joins : ℕ → Bytes → Bytes → Option (Bytes × Bytes) → Joined → Type 0
Joins capacity pending src none j =
    (j.line ≡ none)
    × (j.out_of_range ≡ false)
    × (j.rest ≡ [])
    × Holds capacity j.buffer j.offset (pending ++ src)
Joins capacity pending src (some (used, rest)) j =
    (j.rest ≡ rest)
    × Holds capacity j.buffer j.offset []
    × Reports capacity (line_of (pending ++ used)) j

put_back-some :
    (c : ℕ) (o : Option (Bytes × Bytes)) {used rest : Bytes}
    → put_back c o ≡ some (used, rest)
    → (u : Bytes) × (o ≡ some (u, rest)) × (length used ≡ suc (length u))
put_back-some c none h = cc
put_back-some c (some (u, r)) h = (u, cc, cc)

-- A line end takes two bytes, of which `pending` may hold the first.
length-first_line :
    (cr : Bool) (src : Bytes) {used rest : Bytes}
    → first_line cr src ≡ some (used, rest)
    → (if cr then 1 else 2) ≤ length used
length-first_line cr [] h = cc
length-first_line false (c ∷ cs) h =
    let (u, e, l) = put_back-some c (first_line (c == b'\r') cs) h in
    let ih : (if c == b'\r' then 1 else 2) ≤ length u = length-first_line (c == b'\r') cs e in
    ground (arith, ih, l)
length-first_line true (c ∷ cs) {used} {rest} h = elim (Bool-cases (c == b'\n')) [
  | inl e ↦ ground arith
  | inr e ↦
      let (u, e', l) =
        put_back-some c (first_line (c == b'\r') cs) {used = used} {rest = rest} (rw e at h) in
      omega arith
]

length-ends_cr : (pending : Bytes) → (if ends_cr false pending then 1 else 0) ≤ length pending
length-ends_cr [] = omega arith
length-ends_cr (c ∷ cs) = elim (Bool-cases (ends_cr (c == b'\r') cs)) [
  | inl e ↦ rw e (omega arith)
  | inr e ↦ rw e (omega arith)
]

two_bytes :
    (pending src : Bytes) {used rest : Bytes}
    → first_line (ends_cr false pending) src ≡ some (used, rest)
    → 2 ≤ length pending + length used
two_bytes pending src h = elim (Bool-cases (ends_cr false pending)) [
  | inl e ↦ omega (arith, rw e at (length-ends_cr pending), rw e at (length-first_line _ src h))
  | inr e ↦ omega (arith, rw e at (length-first_line _ src h))
]

length-take : (n : ℕ) (s : Bytes) → n ≤ length s → length (take n s) ≡ n
length-take zero s h = refl
length-take (suc n) [] h = absurd (omega arith)
length-take (suc n) (c ∷ s) h = omega (arith, length-take n s (omega arith))

pub take-append_le : (n : ℕ) (a b : Bytes) → n ≤ length a → take n (a ++ b) ≡ take n a
take-append_le zero a b h = refl
take-append_le (suc n) [] b h = absurd (omega arith)
take-append_le (suc n) (c ∷ a) b h = ap (◌∷◌ c) (take-append_le n a b (omega arith))

-- The NUL behind the line may fall on the first byte of `check`, and never on the second.
Window-after :
    (t : Bytes) (n : ℕ)
    → n ≤ length t
    → Window false (store (record { target = t; check = crlf }) n 0).check
unfolding store
Window-after t n h = elim (Bool-cases (ltb n (length t))) [
  | inl e ↦ rw e (b'\r', b'\n', refl, refl)
  | inr e ↦
      let zero_left : n - length t ≡ 0 = omega (arith, ltb_false→le n (length t) e) in
      rw (e, zero_left) (0, b'\n', refl, refl)
]

module _ (capacity : ℕ) (pending src t : Bytes) (sized : length t ≡ capacity)
    (stored : Stores t (pending ++ src)) where
  missed :
      (check : Bytes) (end : ℕ)
      → Scanned (ends_cr false pending) (length pending) src none (miss check end)
      → Joins capacity pending src none (after_scan t (miss check end))
  unfolding after_scan
  missed check end (w, e) = (
    refl,
    refl,
    refl,
    record {
      sized = sized;
      offset_is = omega (arith, length-append pending src);
      stored = stored;
      window = rw (ends_cr-append false pending src) w;
    },
  )

  -- At the line's end, where `n` is the line's length.
  ended :
      (used rest : Bytes) (end n : ℕ)
      → src ≡ used ++ rest
      → n + 2 ≡ length pending + length used
      → target_len end crlf ≡ n
      → Joins capacity pending src (some (used, rest)) (after_scan t (hit crlf end rest))
  unfolding after_scan store
  ended used rest end n s two e = rw e (elim (Bool-cases (ltb (length t) n)) [
    | inl big ↦ rw big (refl, long, inr (omega (arith, size, ltb→lt (length t) n big), refl, refl))
    | inr small ↦
        let le = ltb_false→le (length t) n small in
        rw small (refl, held le, inl (omega (arith, size), ap some (sym size), content le, refl))
  ])
    where
      whole : Bytes
      whole = pending ++ used

      size : length (line_of whole) ≡ n
      size =
          let l = length-append pending used in
          length-take (length whole - 2) whole (omega arith) ∙ omega arith

      long : Holds capacity (record { target = t; check = crlf }) 0 []
      long = record {
        sized = sized;
        offset_is = refl;
        stored = sym (take-nil (length t));
        window = (b'\r', b'\n', refl, refl);
      }

      held : n ≤ length t → Holds capacity (store (record { target = t; check = crlf }) n 0) 0 []
      held h = record {
        sized = length-set t n 0 ∙ sized;
        offset_is = refl;
        stored = sym (take-nil (length (set t n 0)));
        window = Window-after t n h;
      }

      same : n ≤ length t → take n t ≡ take n whole
      same h =
          let l = length-append pending used in
          let m = length-append pending src in
          let k = length-append used rest in
          Stores-take t (pending ++ src) n stored h (omega (arith, ap length s))
          ∙ ap (take n) (ap (◌++◌ pending) s ∙ sym (append_assoc pending used rest))
          ∙ take-append_le n whole rest (omega arith)

      content : n ≤ length t → take (length (line_of whole)) (set t n 0) ≡ line_of whole
      content h =
          let l = length-append pending used in
          let m : n ≡ length whole - 2 = omega arith in
          rw size (take-set n t 0 ∙ same h ∙ ap (λ k. take k whole) m)

  scanned :
      (o : Option (Bytes × Bytes)) (r : Scan)
      → length pending + length src < 2 ^ 31
      → first_line (ends_cr false pending) src ≡ o
      → Scanned (ends_cr false pending) (length pending) src o r
      → Joins capacity pending src o (after_scan t r)
  scanned none (miss check end) bound f h = missed check end h
  scanned none (hit check end rest) bound f h = absurd h
  scanned (some (used, rest)) (miss check end) bound f h = absurd h
  scanned (some (used, rest)) (hit check end rest') bound f (k, e, r, s) =
      let two = two_bytes pending src f in
      let l = length-append used rest in
      rw (k, r)
        (ended used rest end (length pending + length used - 2) s (omega arith)
          (omega (arith, ap length s)))

join_cons :
    (b : LineBuffer) (c : ℕ) (cs : Bytes) (offset : ℕ)
    → join b (c ∷ cs) offset crlf
      ≡ after_scan
          (overwrite b.target offset
            (take (cpy_len offset (length b.target) (length (c ∷ cs))) (c ∷ cs)))
          (scan crlf b.check offset (c ∷ cs))
unfolding join
join_cons b c cs offset = refl

-- One call of `join` behind `pending`, on the next piece of the input, with less than 2 GiB at hand.
-- If the piece completes no line, no line is reported, all of it is consumed, and the buffer and the
-- offset stand for `pending` with the piece behind it. If it completes one, the rest is what stands
-- behind the line's end, the buffer and the offset are ready for a new line, and the line's bytes are
-- reported, without CR LF, if they fit the target; a longer line is reported as out of range.
pub join-Joins :
    (capacity : ℕ) (b : LineBuffer) (offset : ℕ) (pending src : Bytes)
    → Holds capacity b offset pending
    → length pending + length src < 2 ^ 31
    → Joins capacity pending src (first_line (ends_cr false pending) src) (join b src offset crlf)
join-Joins capacity b offset pending [] h bound = unfold join in (refl, refl, refl, rw append-nil h)
join-Joins capacity b offset pending (c ∷ cs) h bound =
    rw (h.offset_is, join_cons b c cs (length pending))
      (scanned capacity pending (c ∷ cs) _ (length-overwrite b.target (length pending) _ ∙ h.sized)
        (copy-Stores b.target pending (c ∷ cs) h.stored) _ _ bound refl
        (scan-Scanned (ends_cr false pending) b.check (length pending) (c ∷ cs) h.window))
