-- ===== src/Parse/Settled.antt =====
-- The parsers end, and read behind their input at most the one byte that stands there.
use ervan.Base.{
  ℕ, zero, suc, ◌-◌, ◌≤◌, ◌<◌, ◌≡◌, ap, Bytes, length, length-append, [], ◌∷◌, Bool, true, false,
  ◌==◌, Bool-cases, inl, inr, arith, Option, none, some,
}
use ervan.Parse.Results.{
  Outcome, ok, malformed, overrun, exhausted, IsSettled, IsSettled-bind, >>=-eq-ok, Slice, Buffered,
  buffered, Mailbox, EsmtpParam, local_part_buffer,
}
use ervan.Parse.Spans.{domain-IsBuffered, expect-splits, length-run_of}
use ervan.Parse.{
  expect, atom, run_of, domain, domain_of_size, domain_size, at_domain, a_d_l_tail, a_d_l_behind,
  a_d_l, or_empty, local_part_of_quoted, after_atom, dot_string, local_part_or_atoms, quoted_chars,
  quoted_string, local_part, mailbox, path, reverse_path_tail, reverse_path, in_brackets,
  local_part_of_atoms, not_printable, esmtp_param, esmtp_keyword, esmtp_value,
}

expect-IsSettled : (c : ℕ) (src : Bytes) → IsSettled (expect c src)
unfolding expect
expect-IsSettled c [] = tt
expect-IsSettled c (x ∷ xs) = ground arith

run_of-IsSettled : (first more : ℕ → Bool) (src : Bytes) → IsSettled (run_of first more src)
unfolding run_of
run_of-IsSettled first more [] = tt
run_of-IsSettled first more (c ∷ cs) = ground arith

buffered-IsSettled : (n : ℕ) (src rest : Bytes) (size : ℕ) → IsSettled (buffered n src rest size)
unfolding buffered
buffered-IsSettled n src rest size = ground arith

domain_of_size-IsSettled : (src : Bytes) (o : Option ℕ) → IsSettled (domain_of_size src o)
unfolding domain_of_size
domain_of_size-IsSettled src none = tt
domain_of_size-IsSettled src (some size) = buffered-IsSettled _ src _ size

pub domain-IsSettled : (src : Bytes) → IsSettled (domain src)
unfolding domain
domain-IsSettled src = domain_of_size-IsSettled src (domain_size true 0 src)

at_domain-IsSettled : (src : Bytes) → IsSettled (at_domain src)
unfolding at_domain
at_domain-IsSettled src =
    IsSettled-bind (expect b'@' src) domain (expect-IsSettled _ src)
      (λ rest _. domain-IsSettled rest)

length-domain : (src : Bytes) {d : Buffered} → domain src ≡ ok d → length d.rest ≤ length src
length-domain src {d} h =
    omega (arith, ap length (domain-IsBuffered src h).splits, length-append d.body d.rest)

length-at_domain : (src : Bytes) {d : Buffered} → at_domain src ≡ ok d → length d.rest < length src
unfolding at_domain
length-at_domain src {d} h =
    let (rest, e, h') = >>=-eq-ok (expect b'@' src) domain h in
    omega (arith, ap length (expect-splits b'@' src e), length-domain rest h')

-- Each round of the route's loop leaves less, so fuel above the length is enough.
a_d_l_tail-IsSettled :
    (fuel : ℕ) (src : Bytes) → length src < fuel → IsSettled (a_d_l_tail fuel src)
unfolding a_d_l_tail
a_d_l_tail-IsSettled zero src h = absurd (omega arith)
a_d_l_tail-IsSettled (suc fuel) [] h = tt
a_d_l_tail-IsSettled (suc fuel) (c ∷ cs) h = elim (Bool-cases (c == b',')) [
  | inl e ↦ rw e (
      IsSettled-bind (at_domain cs) _ (at_domain-IsSettled cs)
        (λ d p. a_d_l_tail-IsSettled fuel d.rest (omega (arith, length-at_domain cs p))))
  | inr e ↦ rw e (ground arith)
]

a_d_l_behind-IsSettled :
    (src : Bytes) (o : Outcome Buffered) → IsSettled o → IsSettled (a_d_l_behind src o)
unfolding a_d_l_behind
a_d_l_behind-IsSettled src (ok d) s =
    a_d_l_tail-IsSettled (suc (length d.rest)) d.rest (omega arith)
a_d_l_behind-IsSettled src malformed s = tt
a_d_l_behind-IsSettled src overrun s = s
a_d_l_behind-IsSettled src exhausted s = s

or_empty-IsSettled : (o : Outcome Bytes) → IsSettled o → IsSettled (or_empty o)
or_empty-IsSettled (ok r) s = tt
or_empty-IsSettled malformed s = tt
or_empty-IsSettled overrun s = s
or_empty-IsSettled exhausted s = s

routed-IsSettled : (src : Bytes) → IsSettled (or_empty (a_d_l src))
unfolding a_d_l
routed-IsSettled src = or_empty-IsSettled _ (a_d_l_behind-IsSettled src _ (at_domain-IsSettled src))

-- An atom has at least one byte.
length-atom : (src : Bytes) {s : Slice} → atom src ≡ ok s → length s.rest < length src
unfolding atom
length-atom src h = length-run_of _ _ src h

after_atom-IsSettled :
    (next : Bytes → Outcome Bytes) (rest : Bytes)
    → ((cs : Bytes) → length cs < length rest → IsSettled (next cs))
    → IsSettled (after_atom next rest)
unfolding after_atom
after_atom-IsSettled next [] h = tt
after_atom-IsSettled next (c ∷ cs) h = ground (arith, h cs)

dot_string-IsSettled :
    (fuel : ℕ) (src : Bytes) → length src < fuel → IsSettled (dot_string fuel src)
unfolding dot_string
dot_string-IsSettled zero src h = absurd (omega arith)
dot_string-IsSettled (suc fuel) src h =
    IsSettled-bind (atom src) _ (run_of-IsSettled _ _ src) (λ a p.
      after_atom-IsSettled (dot_string fuel) a.rest
        (λ cs l. dot_string-IsSettled fuel cs (omega (arith, length-atom src p))))

local_part_of_quoted-IsSettled : (q : Slice) → IsSettled (local_part_of_quoted q)
unfolding local_part_of_quoted
local_part_of_quoted-IsSettled q = ground arith

local_part_or_atoms-IsSettled :
    (src : Bytes) (o : Outcome Slice) → IsSettled o → IsSettled (local_part_or_atoms src o)
unfolding local_part_or_atoms
local_part_or_atoms-IsSettled src (ok q) s = local_part_of_quoted-IsSettled q
local_part_or_atoms-IsSettled src malformed s =
    IsSettled-bind (dot_string (suc (length src)) src) (local_part_of_atoms src)
      (dot_string-IsSettled (suc (length src)) src (omega arith))
      (λ rest _. buffered-IsSettled local_part_buffer src rest (length src - length rest))
local_part_or_atoms-IsSettled src overrun s = s
local_part_or_atoms-IsSettled src exhausted s = s

module _ (after : ℕ) (stops : not_printable after ≡ true) where
  quoted_chars-IsSettled :
      (escaped : Bool) (src : Bytes) → IsSettled (quoted_chars after escaped src)
  unfolding quoted_chars
  quoted_chars-IsSettled false [] = tt
  quoted_chars-IsSettled true [] = rw stops tt
  quoted_chars-IsSettled true (c ∷ cs) = ground (arith, quoted_chars-IsSettled false cs)
  quoted_chars-IsSettled false (c ∷ cs) = ground (arith, quoted_chars-IsSettled (c == b'\\') cs)

  quoted_string-IsSettled : (src : Bytes) → IsSettled (quoted_string after src)
  unfolding quoted_string
  quoted_string-IsSettled src =
      IsSettled-bind (expect b'"' src) _ (expect-IsSettled _ src) (λ opened _.
        IsSettled-bind (quoted_chars after false opened) _ (quoted_chars-IsSettled false opened)
          (λ _ _. tt))

  local_part-IsSettled : (src : Bytes) → IsSettled (local_part after src)
  unfolding local_part
  local_part-IsSettled src = local_part_or_atoms-IsSettled src _ (quoted_string-IsSettled src)

  mailbox-IsSettled : (src : Bytes) → IsSettled (mailbox after src)
  unfolding mailbox
  mailbox-IsSettled src = IsSettled-bind (or_empty (a_d_l src)) _ (routed-IsSettled src) λ routed _.
      IsSettled-bind (local_part after routed) _ (local_part-IsSettled routed) λ name _.
        IsSettled-bind (expect b'@' name.rest) _ (expect-IsSettled _ name.rest)
          λ after_at _. IsSettled-bind (domain after_at) _ (domain-IsSettled after_at) λ host _. tt

  expect_close-IsSettled : (src : Bytes) (m : Mailbox) → IsSettled (in_brackets after src m)
  expect_close-IsSettled src m =
      IsSettled-bind (expect b'>' m.rest) _ (expect-IsSettled _ m.rest) (λ _ _. tt)

  pub path-IsSettled : (src : Bytes) → IsSettled (path after src)
  unfolding path
  path-IsSettled src = IsSettled-bind (expect b'<' src) _ (expect-IsSettled _ src) λ opened _.
      IsSettled-bind (mailbox after opened) _ (mailbox-IsSettled opened)
        λ m _. expect_close-IsSettled src m

  reverse_path_tail-IsSettled :
      (src opened : Bytes) → IsSettled (reverse_path_tail after src opened)
  unfolding reverse_path_tail
  reverse_path_tail-IsSettled src [] = tt
  reverse_path_tail-IsSettled src (c ∷ cs) =
      let closed =
        IsSettled-bind (mailbox after (c ∷ cs)) (in_brackets after src) (mailbox-IsSettled (c ∷ cs))
          (λ m _. expect_close-IsSettled src m) in
      elim (Bool-cases (c == b'>')) [ inl e ↦ rw e tt | inr e ↦ rw e closed ]

  pub reverse_path-IsSettled : (src : Bytes) → IsSettled (reverse_path after src)
  unfolding reverse_path
  reverse_path-IsSettled src =
      IsSettled-bind (expect b'<' src) _ (expect-IsSettled _ src)
        λ opened _. reverse_path_tail-IsSettled src opened

pub esmtp_param-IsSettled : (src : Bytes) → IsSettled (esmtp_param src)
unfolding esmtp_param
esmtp_param-IsSettled src = IsSettled-bind (esmtp_keyword src) _ (run_of-IsSettled _ _ src) λ key _.
    IsSettled-bind (expect b'=' key.rest) _ (expect-IsSettled _ key.rest)
      λ rest _. IsSettled-bind (esmtp_value rest) _ (run_of-IsSettled _ _ rest) λ _ _. tt

-- If the byte behind the input is below 32 or above 126, as a NUL is, then for every input `path`,
-- `reverse_path` and `esmtp_param` come to an end, `ok` or malformed: no loop runs out of fuel, and
-- no parser goes on over memory that is not its input's.
pub parsers-IsSettled :
    (after : ℕ) (src : Bytes)
    → not_printable after ≡ true
    → IsSettled (path after src) × IsSettled (reverse_path after src) × IsSettled (esmtp_param src)
parsers-IsSettled after src stops = (
  path-IsSettled after stops src,
  reverse_path-IsSettled after stops src,
  esmtp_param-IsSettled src,
)

-- A parameter takes at least one byte.
pub length-esmtp_param :
    (src : Bytes) {p : EsmtpParam} → esmtp_param src ≡ ok p → length p.rest < length src
unfolding esmtp_param
length-esmtp_param src {p} h =
    let (key, e₁, h₁) = >>=-eq-ok (esmtp_keyword src) _ h in
    let (after_equals, e₂, h₂) = >>=-eq-ok (expect b'=' key.rest) _ h₁ in
    let (value, e₃, h₃) = >>=-eq-ok (esmtp_value after_equals) _ h₂ in
    let k = length-run_of _ _ src e₁ in
    let l = ap length (expect-splits b'=' key.rest e₂) in
    let v = length-run_of _ _ after_equals e₃ in
    let r : length value.rest ≡ length p.rest = ap length (rest_of h₃) in omega arith
  where
    rest_of : {a b : EsmtpParam} → ◌≡◌ {A = Outcome EsmtpParam} (ok a) (ok b) → a.rest ≡ b.rest
    rest_of h = cc
