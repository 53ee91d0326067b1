-- ===== src/Parse/Shapes.antt =====
-- What an accepted mailbox or path looks like: where its parts stand in the input, and that its
-- buffers hold them.
use ervan.Base.{
  ℕ, zero, suc, ◌≤◌, ◌<◌, ◌≡◌, refl, sym, ap, subst, ◌∙◌, Bytes, length, drop, length-drop_le, [],
  ◌∷◌, ◌++◌, append_assoc, Bool, true, false, ◌==◌, Bool-cases, inl, inr, leb, leb_false→lt, arith,
}
use ervan.Parse.Results.{
  Outcome, ok, malformed, overrun, exhausted, >>=-eq-ok, Ensures, Ensures-bind, Ensures-ok, between,
  Slice, slice, Buffered, local_part_buffer, Mailbox,
}
use ervan.Parse.Spans.{
  Splits, Splits-refl, Splits-cons, Splits-trans, between-append, between-Splits, IsBuffered,
  buffered-IsBuffered, domain-IsBuffered, run_of-splits, expect-splits,
}
use ervan.Parse.Labels.Sound.{IsDomain}
use ervan.Parse.Grammar.{IsRoute, IsName}
use ervan.Parse.Accepted.{local_part-IsName, local_part-nil}
use ervan.Parse.Grammar.Routes.{a_d_l-Routed, domain-IsDomain}
use ervan.Parse.{
  expect, atom, domain, a_d_l, or_empty, unescape, local_part_of_quoted, after_atom, dot_string,
  local_part_of_atoms, local_part_or_atoms, quoted_chars, quoted_string, local_part, mailbox,
  address,
}

expect-Splits : (c : ℕ) (src : Bytes) {rest : Bytes} → expect c src ≡ ok rest → Splits src rest
expect-Splits c src {rest} h = record { read = c ∷ []; at = expect-splits c src h }

ok-injective {ℓ} : {A : Type ℓ} {a b : A} → ◌≡◌ {A = Outcome A} (ok a) (ok b) → a ≡ b
ok-injective h = cc

Splits-ok :
    {src r rest : Bytes} → Splits src r → ◌≡◌ {A = Outcome Bytes} (ok r) (ok rest) → Splits src rest
Splits-ok {src} s h = subst (λ r. Splits src r) (cc) s

-- The body stands at the start of the input, and both it and the buffer leave room for a NUL.
pub record IsLocalPart (src : Bytes) (b : Buffered) : Type 0 where
  pub splits : src ≡ b.body ++ b.rest
  pub body_fits : length b.body < 65
  pub buffer_fits : length b.buffer < 65

length-unescape : (s : Bytes) → length (unescape s) ≤ length s
unfolding unescape
length-unescape [] = omega arith
length-unescape (c ∷ []) = omega arith
length-unescape (c ∷ d ∷ ds) = ground (arith, length-unescape ds, length-unescape (d ∷ ds))

after_atom-Splits :
    (next : Bytes → Outcome Bytes) (src : Bytes) {rest : Bytes}
    → ((cs : Bytes) → next cs ≡ ok rest → Splits cs rest)
    → after_atom next src ≡ ok rest
    → Splits src rest
unfolding after_atom
after_atom-Splits next [] s h = Splits-ok (Splits-refl []) h
after_atom-Splits next (c ∷ cs) s h = elim (Bool-cases (c == b'.')) [
  | inl e ↦ Splits-cons c (s cs (rw e at h))
  | inr e ↦ Splits-ok (Splits-refl (c ∷ cs)) (rw e at h)
]

dot_string-Splits :
    (fuel : ℕ) (src : Bytes) {rest : Bytes} → dot_string fuel src ≡ ok rest → Splits src rest
unfolding dot_string
dot_string-Splits zero src h = cc
dot_string-Splits (suc fuel) src h =
    let (a, e, h') = >>=-eq-ok (atom src) (λ a. after_atom (dot_string fuel) a.rest) h in
    Splits-trans (record { read = a.body; at = run_of-splits _ _ src e })
      (after_atom-Splits (dot_string fuel) a.rest (λ cs. dot_string-Splits fuel cs) h')

local_part_of_quoted-IsLocalPart :
    (src : Bytes) (q : Slice) {b : Buffered}
    → src ≡ q.body ++ q.rest
    → local_part_of_quoted q ≡ ok b
    → IsLocalPart src b
unfolding local_part_of_quoted
local_part_of_quoted-IsLocalPart src q s h =
    elim (Bool-cases (leb local_part_buffer (length q.body))) [
      | inl e ↦ cc (rw e at h)
      | inr e ↦
          subst (λ b. IsLocalPart src b) (ok-injective (rw e at h))
            (record {
              splits = s;
              body_fits = leb_false→lt 65 (length q.body) e;
              buffer_fits = omega (
                arith,
                leb_false→lt 65 (length q.body) e,
                length-unescape (drop 1 q.body),
                length-drop_le {0} 1 q.body,
              );
            })
    ]

local_part_of_atoms-IsLocalPart :
    (src rest : Bytes) {b : Buffered}
    → Splits src rest
    → local_part_of_atoms src rest ≡ ok b
    → IsLocalPart src b
local_part_of_atoms-IsLocalPart src rest {b} s h =
    let is = buffered-IsBuffered 65 src rest _ (between-Splits s) h in
    record { splits = is.splits; body_fits = is.fits; buffer_fits = rw is.copied is.fits }

local_part_or_atoms-IsLocalPart :
    (src : Bytes) (o : Outcome Slice) {b : Buffered}
    → ((q : Slice) → o ≡ ok q → src ≡ q.body ++ q.rest)
    → local_part_or_atoms src o ≡ ok b
    → IsLocalPart src b
unfolding local_part_or_atoms
local_part_or_atoms-IsLocalPart src (ok q) s h = local_part_of_quoted-IsLocalPart src q (s q refl) h
local_part_or_atoms-IsLocalPart src malformed s h =
    let (rest, e, h') = >>=-eq-ok (dot_string (suc (length src)) src) (local_part_of_atoms src) h in
    local_part_of_atoms-IsLocalPart src rest (dot_string-Splits (suc (length src)) src e) h'
local_part_or_atoms-IsLocalPart src overrun s h = cc
local_part_or_atoms-IsLocalPart src exhausted s h = cc

module _ (after : ℕ) where
  quoted_chars-Splits :
      (escaped : Bool) (src : Bytes) {rest : Bytes}
      → quoted_chars after escaped src ≡ ok rest
      → Splits src rest
  unfolding quoted_chars
  quoted_chars-Splits false [] h = cc
  quoted_chars-Splits true [] h = absurd (ground arith)
  quoted_chars-Splits true (c ∷ cs) h = Splits-cons c (quoted_chars-Splits false cs (ground arith))
  quoted_chars-Splits false (c ∷ cs) h = elim (Bool-cases (c == b'"')) [
    | inl e ↦ Splits-cons c (Splits-ok (Splits-refl cs) (rw e at h))
    | inr e ↦ Splits-cons c (quoted_chars-Splits (c == b'\\') cs (ground arith))
  ]

  quoted_string-splits :
      (src : Bytes) {q : Slice} → quoted_string after src ≡ ok q → src ≡ q.body ++ q.rest
  unfolding quoted_string
  quoted_string-splits src h =
      let (opened, e, h') = >>=-eq-ok (expect b'"' src) _ h in
      let (rest, e', h'') =
        >>=-eq-ok (quoted_chars after false opened) (λ rest. ok (slice src rest)) h' in
      ground (
        arith,
        between-Splits
            (Splits-trans (expect-Splits b'"' src e) (quoted_chars-Splits false opened e')),
      )

  local_part-IsLocalPart :
      (src : Bytes) {b : Buffered} → local_part after src ≡ ok b → IsLocalPart src b
  unfolding local_part
  local_part-IsLocalPart src h =
      local_part_or_atoms-IsLocalPart src (quoted_string after src) (λ q. quoted_string-splits src)
        h

-- How an accepted mailbox lies in its input: a route, which is dropped, the local part, an `@` and
-- the domain, each of them as the grammar has it.
pub record IsMailbox (src : Bytes) (m : Mailbox) : Type 0 where
  pub route : Bytes
  pub splits : src ≡ route ++ (m.local_part.body ++ (b'@' ∷ (m.domain.body ++ m.rest)))
  pub whole : src ≡ m.body ++ m.rest
  pub name : length m.local_part.body < 65
  pub name_buffer : length m.local_part.buffer < 65
  pub host : length m.domain.body < 256
  pub host_buffer : m.domain.buffer ≡ m.domain.body
  pub addressed : address m ≡ m.local_part.body ++ (b'@' ∷ m.domain.body)
  pub routed : IsRoute route
  pub named : IsName m.local_part.body m.local_part.buffer
  pub located : IsDomain m.domain.body m.domain.rest
  pub behind : m.domain.rest ≡ m.rest

module _ {src routed after_at : Bytes} {name host : Buffered} (s : Splits src routed)
    (l : IsLocalPart routed name) (e : name.rest ≡ b'@' ∷ after_at)
    (d : IsBuffered 256 after_at host) (route : IsRoute s.read)
    (grammar : IsName name.body name.buffer) (labels : IsDomain host.body host.rest) where
  from_name : name.body ++ name.rest ≡ name.body ++ (b'@' ∷ (host.body ++ host.rest))
  from_name = ap (◌++◌ name.body) (e ∙ ap (◌∷◌ b'@') d.splits)

  parts : src ≡ s.read ++ (name.body ++ (b'@' ∷ (host.body ++ host.rest)))
  parts = s.at ∙ ap (◌++◌ s.read) (l.splits ∙ from_name)

  host-Splits : Splits src host.rest
  host-Splits = record {
    read = s.read ++ (name.body ++ (b'@' ∷ host.body));
    at = parts ∙ simp append_assoc;
  }

  named : between (name.body ++ name.rest) host.rest ≡ name.body ++ (b'@' ∷ host.body)
  named =
      ap (λ b. between b host.rest)
        (from_name ∙ sym (append_assoc name.body (b'@' ∷ host.body) host.rest))
      ∙ between-append (name.body ++ (b'@' ∷ host.body)) host.rest

  IsMailbox-of_parts :
      IsMailbox src (record {
        body = between src host.rest;
        rest = host.rest;
        local_part = name;
        domain = host;
      })
  unfolding address
  IsMailbox-of_parts = record {
    route = s.read;
    splits = parts;
    whole = between-Splits host-Splits;
    name = l.body_fits;
    name_buffer = l.buffer_fits;
    host = d.fits;
    host_buffer = d.copied;
    addressed = named;
    routed = route;
    named = grammar;
    located = labels;
    behind = refl;
  }

module _ (after : ℕ) (src : Bytes) where
  pub mailbox-Ensures : Ensures (IsMailbox src) (mailbox after src)
  unfolding mailbox
  mailbox-Ensures = Ensures-bind (IsMailbox src) (or_empty (a_d_l src)) _ λ routed r.
      Ensures-bind (IsMailbox src) (local_part after routed) _ λ name l.
        Ensures-bind (IsMailbox src) (expect b'@' name.rest) _ λ after_at e.
          Ensures-bind (IsMailbox src) (domain after_at) _ λ host d.
            elim (a_d_l-Routed src routed r) [
              | inl (route, is, at) ↦
                  IsMailbox-of_parts (record { read = route; at = at })
                    (local_part-IsLocalPart after routed l) (expect-splits b'@' name.rest e)
                    (domain-IsBuffered after_at d) is (local_part-IsName after routed name l)
                    (domain-IsDomain after_at host d)
              | inr none ↦
                  absurd
                    (local_part-nil after name (subst (λ x. local_part after x ≡ ok name) none l))
            ]

  pub mailbox-IsMailbox : {m : Mailbox} → mailbox after src ≡ ok m → IsMailbox src m
  mailbox-IsMailbox h = Ensures-ok (IsMailbox src) (mailbox after src) mailbox-Ensures h
