-- ===== src/Strings/Join/Drains.antt =====
-- A loop of `join` over a stream, as `feed` and `feed_data` of the session run it: the lines that it
-- reports, whatever the pieces in which the stream arrives.
use ervan.Base.{
  ℕ, zero, suc, ◌+◌, ◌-◌, ◌^◌, ◌<◌, ◌≡◌, refl, sym, ap, subst, ◌∙◌, true, false, ◌&&◌, ◌==◌,
  Bool-cases, inl, inr, ltb, lt→ltb, le→ltb_false, if◌then◌else◌, Bytes, length, take,
  length-append, List, [], ◌∷◌, ◌++◌, map, append-nil, append_assoc, Option, none, some, arith,
}
use mathlib.Core.List.{map-append}
use mathlib.Core.Path.{ap₂}
use ervan.Strings.Join.{LineBuffer, Joined, join, line_bytes, crlf}
use ervan.Strings.Join.Lines.{
  ends_cr, ends_cr-append, body, lines, leftover, lines-append, first_line, put_back,
}
use ervan.Strings.Join.Refines.{Holds, line_of, Reports, Joins, join-Joins, take-append_le}

pub data Report : Type 0 where
  line : Bytes → Report
  too_long : Report

-- `sp` where it is not null, or the error code.
reported : Joined → Option ℕ → List Report
reported j (some n) = line (line_bytes j n) ∷ []
reported j none = if j.out_of_range then too_long ∷ [] else []

pub record Drained : Type 0 where
  pub reports : List Report
  pub buffer : LineBuffer
  pub offset : ℕ

-- `join` until nothing is left; the fuel is a bound on the calls.
pub drain : ℕ → LineBuffer → ℕ → Bytes → Drained
unfolding reported
drain zero b offset src = record { reports = []; buffer = b; offset = offset }
drain (suc fuel) b offset [] = record { reports = []; buffer = b; offset = offset }
drain (suc fuel) b offset (c ∷ cs) =
    let j = join b (c ∷ cs) offset crlf in
    let later = drain fuel j.buffer j.offset j.rest in
    record later { reports = reported j j.line ++ later.reports }

-- What becomes of a line with a target of this size.
abbrev pub classify : ℕ → Bytes → Report
classify capacity s = if ltb capacity (length s) then too_long else line s

abbrev pub Cut : Bytes → Bytes → Option (Bytes × Bytes) → Type 0
Cut pending src none = (lines pending src ≡ []) × (leftover pending src ≡ pending ++ src)
Cut pending src (some (used, rest)) =
    (lines pending src ≡ line_of (pending ++ used) ∷ lines [] rest)
    × (leftover pending src ≡ leftover [] rest)
    × (length rest < length src)

body-line_of : (pending : Bytes) (c : ℕ) → body pending ≡ line_of (pending ++ c ∷ [])
body-line_of pending c =
    let l = length-append pending (c ∷ []) in
    let k : length (pending ++ c ∷ []) - 2 ≡ length pending - 1 = omega arith in
    sym (
      ap (λ n. take n (pending ++ c ∷ [])) k
      ∙ take-append_le (length pending - 1) pending (c ∷ []) (omega arith))

Cut-cons :
    (pending : Bytes) (c : ℕ) (cs : Bytes) (o : Option (Bytes × Bytes))
    → (ends_cr false pending && c == b'\n') ≡ false
    → Cut (pending ++ c ∷ []) cs o
    → Cut pending (c ∷ cs) (put_back c o)
Cut-cons pending c cs none e (l, r) = rw e (l, r ∙ append_assoc pending (c ∷ []) cs)
Cut-cons pending c cs (some (used, rest)) e (l, r, n) =
    rw e (rw (append_assoc pending (c ∷ []) used) at l, r, omega arith)

module _ (pending : Bytes) (c : ℕ) (cs : Bytes)
    (e : (ends_cr false pending && c == b'\n') ≡ true) where
  lines_end : lines pending (c ∷ cs) ≡ body pending ∷ lines [] cs
  lines_end = rw e

  leftover_end : leftover pending (c ∷ cs) ≡ leftover [] cs
  leftover_end = rw e

pub first_line-Cut :
    (pending src : Bytes) → Cut pending src (first_line (ends_cr false pending) src)
first_line-Cut pending [] = (refl, sym (append-nil pending))
first_line-Cut pending (c ∷ cs) =
    let next = first_line-Cut (pending ++ c ∷ []) cs in
    let cr = ends_cr-append false pending (c ∷ []) in
    elim (Bool-cases (ends_cr false pending && c == b'\n')) [
      | inl e ↦ rw e (
        lines_end pending c cs e ∙ ap (λ s. s ∷ lines [] cs) (body-line_of pending c),
        leftover_end pending c cs e,
        omega arith,
      )
      | inr e ↦ rw e (
          Cut-cons pending c cs (first_line (c == b'\r') cs) e
            (subst (λ k. Cut (pending ++ c ∷ []) cs (first_line k cs)) cr next))
    ]

-- What one call reports for a complete line.
reported-Reports :
    (capacity : ℕ) (s : Bytes) (j : Joined)
    → Reports capacity s j
    → reported j j.line ≡ classify capacity s ∷ []
unfolding reported
reported-Reports capacity s j (inl (fits, is, at, ok)) =
    rw (is, le→ltb_false capacity (length s) fits) (ap (λ b. line b ∷ []) at)
reported-Reports capacity s j (inr (big, is, out)) = rw (is, out, lt→ltb capacity (length s) big)

-- The drain of a stream behind `pending`: the reports, and what the buffer then stands for.
pub record Drains (capacity : ℕ) (pending src : Bytes) (d : Drained) : Type 0 where
  pub reports_are : d.reports ≡ map (classify capacity) (lines pending src)
  pub left : Holds capacity d.buffer d.offset (leftover pending src)

module _ (capacity : ℕ) (pending src : Bytes) (j : Joined) (later : Drained)
    (some_left : 0 < length src) (bound : length pending + length src < 2 ^ 31)
    (next : (p : Bytes)
      → Holds capacity j.buffer j.offset p
      → length p + length j.rest < 2 ^ 31
      → length j.rest < length src
      → Drains capacity p j.rest later) where
  abbrev joined : Drained
  joined = record later { reports = reported j j.line ++ later.reports }

  drained_none :
      Cut pending src none → Joins capacity pending src none j → Drains capacity pending src joined
  unfolding reported
  drained_none (l, r) (is, out, rest, h) =
      let k = length-append pending src in
      let n =
        next (pending ++ src) h (omega (arith, ap length rest)) (omega (arith, ap length rest)) in
      record {
        reports_are = rw (is, out, l) (rw rest at n.reports_are);
        left = rw r (rw rest at n.left);
      }

  drained_some :
      (used rest : Bytes)
      → Cut pending src (some (used, rest))
      → Joins capacity pending src (some (used, rest)) j
      → Drains capacity pending src joined
  drained_some used rest (l, r, shorter) (is, h, reports) =
      let n = next [] h (omega (arith, ap length is)) (omega (arith, ap length is)) in
      record {
        reports_are =
            rw (l, reported-Reports capacity (line_of (pending ++ used)) j reports)
              (ap (◌∷◌ (classify capacity (line_of (pending ++ used)))) (rw is at n.reports_are));
        left = rw r (rw is at n.left);
      }

  drained :
      (o : Option (Bytes × Bytes))
      → Cut pending src o
      → Joins capacity pending src o j
      → Drains capacity pending src joined
  drained none c h = drained_none c h
  drained (some (used, rest)) c h = drained_some used rest c h

-- A loop of `join` over a stream, behind `pending`, with less than 2 GiB at hand and as many calls as
-- bytes and one more, reports just the lines that CR LF cuts the stream into, in order, each with its
-- bytes if they fit the target and as too long if not, and ends with the buffer and the offset
-- standing for the unfinished line.
pub drain-Drains :
    (capacity fuel : ℕ) (b : LineBuffer) (offset : ℕ) (pending src : Bytes)
    → Holds capacity b offset pending
    → length pending + length src < 2 ^ 31
    → length src < fuel
    → Drains capacity pending src (drain fuel b offset src)
unfolding drain
drain-Drains capacity zero b offset pending src h bound enough = absurd (omega arith)
drain-Drains capacity (suc fuel) b offset pending [] h bound enough = record {
  reports_are = refl;
  left = h;
}
drain-Drains capacity (suc fuel) b offset pending (c ∷ cs) h bound enough =
    let j = join b (c ∷ cs) offset crlf in
    drained capacity pending (c ∷ cs) j (drain fuel j.buffer j.offset j.rest) (omega arith) bound
      (λ p hp pb shorter. drain-Drains capacity fuel j.buffer j.offset p j.rest hp pb (omega arith))
      _ (first_line-Cut pending (c ∷ cs)) (join-Joins capacity b offset pending (c ∷ cs) h bound)

-- The pieces in which a stream arrives do not matter: draining `a` and then `b` reports what draining
-- both in one piece reports.
pub drain-append :
    (capacity fuel : ℕ) (buffer : LineBuffer) (offset : ℕ) (pending a b : Bytes)
    → Holds capacity buffer offset pending
    → length pending + length (a ++ b) < 2 ^ 31
    → length (leftover pending a) + length b < 2 ^ 31
    → length (a ++ b) < fuel
    → (drain fuel buffer offset (a ++ b)).reports
      ≡ (drain fuel buffer offset a).reports
        ++ (drain fuel
            (drain fuel buffer offset a).buffer
            (drain fuel buffer offset a).offset
            b).reports
drain-append capacity fuel buffer offset pending a b h bound bound' enough =
    let k = length-append a b in
    let first = drain-Drains capacity fuel buffer offset pending a h (omega arith) (omega arith) in
    let second =
      drain-Drains capacity fuel _ _ (leftover pending a) b first.left bound' (omega arith) in
    let whole = drain-Drains capacity fuel buffer offset pending (a ++ b) h bound enough in
    whole.reports_are
    ∙ ap (map (classify capacity)) (lines-append pending a b)
    ∙ map-append _ (lines pending a) (lines (leftover pending a) b)
    ∙ sym (ap₂ ◌++◌ first.reports_are second.reports_are)
