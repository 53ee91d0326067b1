-- ===== src/Parse/Quoted.antt =====
-- The quoted form of a local part, printed and read back.
use ervan.Base.{
  ℕ, ◌<◌, ◌≡◌, refl, sym, ap, ◌∙◌, lt→leb_false, Bytes, length, [], ◌∷◌, ◌++◌, append_assoc, Bool,
  true, false, ◌||◌, ◌==◌, Bool-cases, inl, inr, if◌then◌else◌, arith, All,
}
use ervan.Parse.Chars.{is_qtext_smtp}
use ervan.Parse.Results.{ok, overrun, between, Buffered}
use ervan.Parse.Spans.{between-append}
use ervan.Parse.{
  unescape, local_part_of_quoted, quoted_chars, quoted_string, local_part, not_printable,
}

-- Printing: a backslash before a quote or a backslash, and quotes round the whole.
abbrev pub special : ℕ → Bool
special c = c == b'"' || c == b'\\'

abbrev pub escape : Bytes → Bytes
escape [] = []
escape (c ∷ cs) = if special c then b'\\' ∷ c ∷ escape cs else c ∷ escape cs

abbrev pub quote : Bytes → Bytes
quote s = b'"' ∷ (escape s ++ (b'"' ∷ []))

-- Every byte is from 32 to 126.
abbrev pub IsPrintable : Bytes → Type 0
IsPrintable = All (λ c. not_printable c ≡ false)

is_qtext-plain : (c : ℕ) → special c ≡ false → not_printable c ≡ false → is_qtext_smtp c ≡ true
unfolding is_qtext_smtp
is_qtext-plain c s p = ground arith

not-special : (c : ℕ) → special c ≡ false → ((c == b'"') ≡ false) × ((c == b'\\') ≡ false)
not-special c h = ground arith

module _ (after : ℕ) where
  quoted_special :
      (c : ℕ) (r : Bytes)
      → not_printable c ≡ false
      → quoted_chars after false (b'\\' ∷ c ∷ r) ≡ quoted_chars after false r
  unfolding quoted_chars
  quoted_special c r p = rw p

  quoted_plain :
      (c : ℕ) (r : Bytes)
      → special c ≡ false
      → not_printable c ≡ false
      → quoted_chars after false (c ∷ r) ≡ quoted_chars after false r
  unfolding quoted_chars
  quoted_plain c r s p = rw ((not-special c s).0, (not-special c s).1, is_qtext-plain c s p)

  quoted_chars-escape :
      (s tail : Bytes)
      → IsPrintable s
      → quoted_chars after false (escape s ++ tail) ≡ quoted_chars after false tail
  quoted_chars-escape [] tail h = refl
  quoted_chars-escape (c ∷ cs) tail (p, ps) = elim (Bool-cases (special c)) [
    | inl e ↦ rw e (quoted_special c _ p ∙ quoted_chars-escape cs tail ps)
    | inr e ↦ rw e (quoted_plain c _ e p ∙ quoted_chars-escape cs tail ps)
  ]

  quoted_chars_closed : (rest : Bytes) → quoted_chars after false (b'"' ∷ rest) ≡ ok rest
  unfolding quoted_chars
  quoted_chars_closed rest = refl

  quoted_chars_cut : not_printable after ≡ false → quoted_chars after false (b'\\' ∷ []) ≡ overrun
  unfolding quoted_chars
  quoted_chars_cut h = rw h

pub unescape_plain :
    (c : ℕ) (s : Bytes) (q : ℕ)
    → (c == b'\\') ≡ false
    → unescape (c ∷ (s ++ (q ∷ []))) ≡ c ∷ unescape (s ++ (q ∷ []))
unfolding unescape
unescape_plain c [] q h = rw h
unescape_plain c (d ∷ ds) q h = rw h

pub unescape_special : (c : ℕ) (r : Bytes) → unescape (b'\\' ∷ c ∷ r) ≡ c ∷ unescape r
unfolding unescape
unescape_special c r = refl

unescape-escape : (s : Bytes) → unescape (escape s ++ (b'"' ∷ [])) ≡ s
unescape-escape [] = unfold unescape in refl
unescape-escape (c ∷ cs) = elim (Bool-cases (special c)) [
  | inl e ↦ rw e (unescape_special c _ ∙ ap (◌∷◌ c) (unescape-escape cs))
  | inr e ↦
      rw e (unescape_plain c (escape cs) b'"' (not-special c e).1 ∙ ap (◌∷◌ c) (unescape-escape cs))
]

-- Reading the quoted form of `s`.
abbrev pub quoted_name : Bytes → Bytes → Buffered
quoted_name s rest = record { body = quote s; rest = rest; buffer = s }

quoted_string-quote :
    (after : ℕ) (s rest : Bytes)
    → IsPrintable s
    → quoted_string after (quote s ++ rest) ≡ ok (record { body = quote s; rest = rest })
unfolding quoted_string
quoted_string-quote after s rest p = rw (append_assoc (escape s) (b'"' ∷ []) rest) (
    rw (quoted_chars-escape after s (b'"' ∷ rest) p ∙ quoted_chars_closed after rest) (
      ap (λ b. ok (record { body = b; rest = rest }))
        (ap (λ b. between (b'"' ∷ b) rest) (sym (append_assoc (escape s) (b'"' ∷ []) rest))
          ∙ between-append (quote s) rest)))

local_part_of_quoted-quote :
    (s rest : Bytes)
    → length (quote s) < 65
    → local_part_of_quoted (record { body = quote s; rest = rest }) ≡ ok (quoted_name s rest)
unfolding local_part_of_quoted
local_part_of_quoted-quote s rest fits =
    rw (lt→leb_false 65 (length (quote s)) fits)
      (ap (λ b. ok (record { body = quote s; rest = rest; buffer = b })) (unescape-escape s))

pub local_part-quote :
    (after : ℕ) (s rest : Bytes)
    → IsPrintable s
    → length (quote s) < 65
    → local_part after (quote s ++ rest) ≡ ok (quoted_name s rest)
unfolding local_part
local_part-quote after s rest p fits =
    rw (quoted_string-quote after s rest p) (local_part_of_quoted-quote s rest fits)

-- A backslash at the very end of the input: if the byte behind the input is printable, the parser
-- takes that for the escaped one, and goes on over memory that is not its own. It is so for every
-- printable byte and for every printable text between the quote and the backslash.
pub quoted_string-overrun :
    (after : ℕ) (s : Bytes)
    → IsPrintable s
    → not_printable after ≡ false
    → quoted_string after (b'"' ∷ (escape s ++ (b'\\' ∷ []))) ≡ overrun
unfolding quoted_string
quoted_string-overrun after s p h =
    rw (quoted_chars-escape after s (b'\\' ∷ []) p ∙ quoted_chars_cut after h)
