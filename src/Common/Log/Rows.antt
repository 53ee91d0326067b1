-- ===== src/Common/Log/Rows.antt =====
-- The rows of the log, which LF ends.
use ervan.Base.{
  ◌≡◌, refl, sym, ap, ◌∙◌, false, ◌==◌, Bool-cases, inl, inr, if◌then◌else◌, All, Bytes, List, [],
  ◌∷◌, ◌++◌, append-nil, append_assoc,
}
use ervan.Common.Log.{LogOutput, preamble, write_log}

-- The rows that a text completes behind `front`, and the text behind the last one.
abbrev pub rows : Bytes → Bytes → List Bytes
rows front [] = []
rows front (c ∷ cs) = if c == b'\n' then front ∷ rows [] cs else rows (front ++ c ∷ []) cs

abbrev pub behind_rows : Bytes → Bytes → Bytes
behind_rows front [] = front
behind_rows front (c ∷ cs) = behind_rows (if c == b'\n' then [] else front ++ c ∷ []) cs

-- A text cut at each LF, where the first part has `front` before it.
abbrev pub parts : Bytes → Bytes → List Bytes
parts front [] = front ∷ []
parts front (c ∷ cs) = if c == b'\n' then front ∷ parts [] cs else parts (front ++ c ∷ []) cs

-- No LF.
abbrev pub IsRow : Bytes → Type 0
IsRow = All (λ c. (c == b'\n') ≡ false)

rows-append :
    (front a b : Bytes) → rows front (a ++ b) ≡ rows front a ++ rows (behind_rows front a) b
rows-append front [] b = refl
rows-append front (c ∷ a) b = elim (Bool-cases (c == b'\n')) [
  | inl e ↦ rw e (ap (◌∷◌ front) (rows-append [] a b))
  | inr e ↦ rw e (rows-append (front ++ c ∷ []) a b)
]

behind_rows-append :
    (front a b : Bytes) → behind_rows front (a ++ b) ≡ behind_rows (behind_rows front a) b
behind_rows-append front [] b = refl
behind_rows-append front (c ∷ a) b =
    behind_rows-append (if c == b'\n' then [] else front ++ c ∷ []) a b

-- A text without LF.
row-rows : (front a : Bytes) → IsRow a → (rows front a ≡ []) × (behind_rows front a ≡ front ++ a)
row-rows front [] h = (refl, sym (append-nil front))
row-rows front (c ∷ a) (e, h) =
    let (f, g) = row-rows (front ++ c ∷ []) a h in rw e (f, g ∙ append_assoc front (c ∷ []) a)

-- A text and an LF.
ended-rows : (front a : Bytes) → rows front (a ++ b'\n' ∷ []) ≡ parts front a
ended-rows front [] = refl
ended-rows front (c ∷ a) = elim (Bool-cases (c == b'\n')) [
  | inl e ↦ rw e (ap (◌∷◌ front) (ended-rows [] a))
  | inr e ↦ rw e (ended-rows (front ++ c ∷ []) a)
]

-- A log that ends in a whole row, and a preamble without LF: writing a line adds one row with the
-- preamble and the line, if the line has no LF; and if it has some, it is cut at each of them, and all
-- but the first part become rows of their own, with no preamble. The log ends in a whole row again.
pub write_log-rows :
    (time line : Bytes) (log : LogOutput)
    → behind_rows [] log.output ≡ []
    → IsRow (preamble time log)
    → (rows [] (write_log time line log).output
        ≡ rows [] log.output ++ parts (preamble time log) line)
      × (behind_rows [] (write_log time line log).output ≡ [])
unfolding write_log
write_log-rows time line log whole plain =
    let ended = line ++ b'\n' ∷ [] in
    let front = preamble time log in
    let (f, g) = row-rows [] front plain in
    (
      rows-append [] log.output (front ++ ended)
          ∙ ap (λ b. rows [] log.output ++ rows b (front ++ ended)) whole
          ∙ ap (◌++◌ (rows [] log.output)) (
              rows-append [] front ended
              ∙ ap (λ ls. ls ++ rows (behind_rows [] front) ended) f
              ∙ ap (λ b. rows b ended) g
              ∙ ended-rows front line),
      behind_rows-append [] log.output (front ++ ended)
          ∙ ap (λ b. behind_rows b (front ++ ended)) whole
          ∙ behind_rows-append [] front ended
          ∙ ap (λ b. behind_rows b ended) g
          ∙ behind_rows-append front line (b'\n' ∷ []),
    )
