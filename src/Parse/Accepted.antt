-- ===== src/Parse/Accepted.antt =====
-- The local parts that `local_part` of common/src/parse.cpp accepts.
use ervan.Base.{
  ℕ, suc, ◌≡◌, refl, sym, ap, ◌∙◌, inl, inr, false, Bool-cases, leb, All, Bytes, length, drop, take,
  List, [], ◌∷◌, ◌++◌, append_assoc, arith,
}
use ervan.Parse.Results.{
  Outcome, ok, malformed, overrun, exhausted, >>=-eq-ok, Slice, slice, Buffered, buffered, between,
  local_part_buffer,
}
use ervan.Parse.Spans.{between-append, expect-splits}
use ervan.Parse.{
  expect, unescape, local_part_of_quoted, dot_string, local_part_of_atoms, local_part_or_atoms,
  quoted_chars, quoted_string, local_part, atom, run_of,
}
use ervan.Parse.Quoted.{unescape_plain, unescape_special}
use ervan.Parse.Labels.{dotted}
use ervan.Parse.Grammar.{Item, plain, paired, IsItem, printed, meant, IsName}
use ervan.Parse.Grammar.Words.{dot_string-Dotted}
use ervan.Parse.Grammar.Quotes.{quoted_chars-Closed}

unescape-closed : unescape (b'"' ∷ []) ≡ []
unfolding unescape
unescape-closed = refl

unescape-printed :
    (items : List Item) → All IsItem items → unescape (printed items ++ (b'"' ∷ [])) ≡ meant items
unescape-printed [] h = unescape-closed
unescape-printed (plain c ∷ items) (i, is) =
    unescape_plain c (printed items) b'"' (ground arith) ∙ ap (◌∷◌ c) (unescape-printed items is)
unescape-printed (paired c ∷ items) (i, is) =
    unescape_special c (printed items ++ (b'"' ∷ [])) ∙ ap (◌∷◌ c) (unescape-printed items is)

-- A quoted string with its quotes.
abbrev Quotes : Bytes → Type 0
Quotes body =
    (items : List Item) × All IsItem items × (body ≡ b'"' ∷ (printed items ++ (b'"' ∷ [])))

quoted_string-Quotes :
    (after : ℕ) (src : Bytes) (q : Slice) → quoted_string after src ≡ ok q → Quotes q.body
unfolding quoted_string
quoted_string-Quotes after src q h =
    let (opened, e, h') = >>=-eq-ok (expect b'"' src) _ h in
    let (rest, e', h'') =
      >>=-eq-ok (quoted_chars after false opened) (λ rest. ok (slice src rest)) h' in
    let (items, is, k) =
      quoted_chars-Closed after (suc (length opened)) opened rest (omega arith) e' in
    let body = b'"' ∷ (printed items ++ (b'"' ∷ [])) in
    let whole : src ≡ body ++ rest =
      expect-splits b'"' src e
      ∙ ap (◌∷◌ b'"') (k ∙ sym (append_assoc (printed items) (b'"' ∷ []) rest)) in
    let same : slice src rest ≡ q = cc in
    (
      items,
      is,
      sym (ap (λ (x : Slice). x.body) same)
          ∙ ap (λ s. between s rest) whole
          ∙ between-append body rest,
    )

quoted-IsName :
    (q : Slice) (b : Buffered)
    → Quotes q.body
    → local_part_of_quoted q ≡ ok b
    → IsName b.body b.buffer
unfolding local_part_of_quoted
quoted-IsName q b (items, is, e) h = elim (Bool-cases (leb local_part_buffer (length q.body))) [
  | inl large ↦ let k : ◌≡◌ {A = Outcome Buffered} malformed (ok b) = rw large at h in absurd (cc)
  | inr small ↦
      let k : ◌≡◌ {A = Outcome Buffered}
          (ok (record { body = q.body; rest = q.rest; buffer = unescape (drop 1 q.body) })) (ok b) =
        rw small at h in
      let same : ◌≡◌ {A = Buffered}
          (record { body = q.body; rest = q.rest; buffer = unescape (drop 1 q.body) }) b =
        cc in
      inr (
        items,
        is,
        sym (ap (λ (x : Buffered). x.body) same) ∙ e,
        sym (ap (λ (x : Buffered). x.buffer) same)
            ∙ ap (λ s. unescape (drop 1 s)) e
            ∙ unescape-printed items is,
      )
]

buffered-body :
    (capacity : ℕ) (src rest : Bytes) (size : ℕ) (b : Buffered)
    → buffered capacity src rest size ≡ ok b
    → (b.body ≡ take size src) × (b.buffer ≡ take size src)
unfolding buffered
buffered-body capacity src rest size b h = ground arith

atoms-IsName :
    (src rest : Bytes) (fuel : ℕ) (b : Buffered)
    → dot_string fuel src ≡ ok rest
    → local_part_of_atoms src rest ≡ ok b
    → IsName b.body b.buffer
atoms-IsName src rest fuel b h k =
    let (w, ws, i, is, e) = dot_string-Dotted fuel src rest h in
    let (body, buffer) = buffered-body local_part_buffer src rest _ b k in
    inl (
      w,
      ws,
      i,
      is,
      body ∙ ap (λ s. between s rest) e ∙ between-append (dotted w ws) rest,
      buffer ∙ sym body,
    )

or_atoms-IsName :
    (src : Bytes) (o : Outcome Slice) (b : Buffered)
    → ((q : Slice) → o ≡ ok q → Quotes q.body)
    → local_part_or_atoms src o ≡ ok b
    → IsName b.body b.buffer
unfolding local_part_or_atoms
or_atoms-IsName src (ok q) b quotes h = quoted-IsName q b (quotes q refl) h
or_atoms-IsName src malformed b quotes h =
    let (rest, e, h') = >>=-eq-ok (dot_string (suc (length src)) src) (local_part_of_atoms src) h in
    atoms-IsName src rest (suc (length src)) b e h'
or_atoms-IsName src overrun b quotes h = absurd (cc)
or_atoms-IsName src exhausted b quotes h = absurd (cc)

pub local_part-IsName :
    (after : ℕ) (src : Bytes) (b : Buffered) → local_part after src ≡ ok b → IsName b.body b.buffer
unfolding local_part
local_part-IsName after src b h =
    or_atoms-IsName src (quoted_string after src) b (quoted_string-Quotes after src) h

-- An empty input has no local part.
pub local_part-nil : (after : ℕ) (b : Buffered) → local_part after [] ≡ ok b → ⊥
unfolding local_part local_part_or_atoms quoted_string expect dot_string atom run_of
local_part-nil after b h = absurd (cc)
