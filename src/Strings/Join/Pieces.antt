-- ===== src/Strings/Join/Pieces.antt =====
-- One call of `join` behind a part of a line, by the lines that the piece completes.
use ervan.Base.{
  ℕ, ◌+◌, ◌^◌, ◌≤◌, ◌<◌, ◌≡◌, refl, sym, ap, subst, ◌∙◌, false, ◌==◌, ◌&&◌, if◌then◌else◌, Bytes,
  length, List, [], ◌∷◌, ◌++◌, Option, none, some,
}
use ervan.Strings.Join.{LineBuffer, Joined, join, crlf}
use ervan.Strings.Join.Lines.{ends_cr, lines, leftover}
use ervan.Strings.Join.Refines.{Holds, Joins, Reports, line_of, join-Joins}
use ervan.Strings.Join.Drains.{Cut, first_line-Cut}
use ervan.Strings.Join.Whole.{IsLine, JoinsLine, reported_line, first_line-line, line_of-crlf}

pub leftover-append :
    (pending a b : Bytes) → leftover pending (a ++ b) ≡ leftover (leftover pending a) b
leftover-append pending [] b = refl
leftover-append pending (c ∷ a) b =
    leftover-append (if ends_cr false pending && c == b'\n' then [] else pending ++ c ∷ []) a b

-- The piece completes the line `l` first: the call reports it, and leaves what is behind it.
abbrev pub Completes : ℕ → Bytes → Bytes → Bytes → List Bytes → Joined → Type 0
Completes capacity pending src l more j =
    (tail : Bytes) × JoinsLine capacity l tail j
    × (lines [] tail ≡ more)
    × (leftover [] tail ≡ leftover pending src)
    × (length tail < length src)

completed_line :
    (capacity : ℕ) (pending src l : Bytes) (more : List Bytes) (j : Joined)
    (o : Option (Bytes × Bytes))
    → lines pending src ≡ l ∷ more
    → length l ≤ capacity
    → Cut pending src o
    → Joins capacity pending src o j
    → Completes capacity pending src l more j
completed_line capacity pending src l more j none e fits (f, g) h = absurd (cc)
completed_line capacity pending src l more j (some (used, rest)) e fits (f, g, k) (r, h, reports) =
    let same : line_of (pending ++ used) ≡ l = cc in
    (
      rest,
      reported_line capacity l rest j fits r h (subst (λ x. Reports capacity x j) same reports),
      cc,
      sym g,
      k,
    )

pub join-Completes :
    (capacity : ℕ) (b : LineBuffer) (offset : ℕ) (pending src l : Bytes) (more : List Bytes)
    → Holds capacity b offset pending
    → length pending + length src < 2 ^ 31
    → lines pending src ≡ l ∷ more
    → length l ≤ capacity
    → Completes capacity pending src l more (join b src offset crlf)
join-Completes capacity b offset pending src l more h bound e fits =
    completed_line capacity pending src l more _ _ e fits (first_line-Cut pending src)
      (join-Joins capacity b offset pending src h bound)

-- The piece completes no line.
abbrev pub Continues : ℕ → Bytes → Joined → Type 0
Continues capacity left j =
    (j.line ≡ none)
    × (j.out_of_range ≡ false)
    × (j.rest ≡ [])
    × Holds capacity j.buffer j.offset left

continued :
    (capacity : ℕ) (pending src : Bytes) (j : Joined) (o : Option (Bytes × Bytes))
    → lines pending src ≡ []
    → Cut pending src o
    → Joins capacity pending src o j
    → Continues capacity (leftover pending src) j
continued capacity pending src j none e (f, g) (a, b, c, h) = (a, b, c, rw g h)
continued capacity pending src j (some (used, rest)) e (f, g, k) h = absurd (cc)

pub join-Continues :
    (capacity : ℕ) (b : LineBuffer) (offset : ℕ) (pending src : Bytes)
    → Holds capacity b offset pending
    → length pending + length src < 2 ^ 31
    → lines pending src ≡ []
    → Continues capacity (leftover pending src) (join b src offset crlf)
join-Continues capacity b offset pending src h bound e =
    continued capacity pending src _ _ e (first_line-Cut pending src)
      (join-Joins capacity b offset pending src h bound)

-- What completes no line and leaves nothing is empty.
nothing_left :
    (pending src : Bytes) (o : Option (Bytes × Bytes))
    → lines pending src ≡ []
    → leftover pending src ≡ []
    → Cut pending src o
    → pending ++ src ≡ []
nothing_left pending src none e l (f, g) = sym g ∙ l
nothing_left pending src (some (used, rest)) e l (f, g, k) = absurd (cc)

pub lines-nothing :
    (pending src : Bytes) → lines pending src ≡ [] → leftover pending src ≡ [] → pending ++ src ≡ []
lines-nothing pending src e l = nothing_left pending src _ e l (first_line-Cut pending src)

-- A stream that begins with a whole line.
pub lines-line :
    (l tail : Bytes)
    → IsLine l
    → (lines [] (l ++ (crlf ++ tail)) ≡ l ∷ lines [] tail)
      × (leftover [] (l ++ (crlf ++ tail)) ≡ leftover [] tail)
lines-line l tail h =
    let (f, g, k) =
      subst (Cut [] (l ++ (crlf ++ tail))) (first_line-line false l tail h)
        (first_line-Cut [] (l ++ (crlf ++ tail))) in
    (f ∙ ap (λ x. x ∷ lines [] tail) (line_of-crlf l), g)
