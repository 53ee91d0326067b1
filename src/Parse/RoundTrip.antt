-- ===== src/Parse/RoundTrip.antt =====
-- What is printed in SMTP's syntax is read back: any local part in its quoted form, and a domain of
-- labels.
use ervan.Base.{
  ℕ, ◌<◌, ◌≡◌, refl, sym, ap, append_assoc, ◌∙◌, Bytes, length, [], ◌∷◌, ◌++◌, arith, All, List,
}
use ervan.Parse.Results.{Outcome, ok, ◌>>=◌, ok-bind, between, Buffered, Mailbox, Part}
use ervan.Parse.{
  expect, domain, at_domain, a_d_l_behind, a_d_l, or_empty, local_part, mailbox, in_brackets, path,
  reverse_path_tail, reverse_path, address,
}
use ervan.Parse.Spans.{between-append}
use ervan.Parse.Quoted.{escape, quote, quoted_name, IsPrintable, local_part-quote}
use ervan.Parse.Labels.{IsLabel, dotted, host_of, domain-dotted}

no_route : (src : Bytes) → a_d_l (b'"' ∷ src) ≡ ok (b'"' ∷ src)
unfolding a_d_l a_d_l_behind at_domain
no_route src = refl

-- A path with the local part `s` in quotes.
abbrev pub print_path : Bytes → Bytes → List Bytes → Bytes
print_path s l ls = b'<' ∷ (quote s ++ (b'@' ∷ (dotted l ls ++ (b'>' ∷ []))))

-- What `mailbox` does behind its domain, its local part and its route.
abbrev with_host : Bytes → Buffered → Buffered → Outcome Mailbox
with_host src name host =
    ok (record { body = between src host.rest; rest = host.rest; local_part = name; domain = host })

abbrev with_name : Bytes → Buffered → Outcome Mailbox
with_name src name = do after_at ← expect b'@' name.rest; domain after_at >>= with_host src name

abbrev with_route : ℕ → Bytes → Bytes → Outcome Mailbox
with_route after src routed = local_part after routed >>= with_name src

expect-cons : (c : ℕ) (r : Bytes) → expect c (c ∷ r) ≡ ok r
unfolding expect
expect-cons c r = ground arith

module _ (after : ℕ) (s l : Bytes) (ls : List Bytes) (rest : Bytes) (printable : IsPrintable s)
    (s_fits : length (quote s) < 65) (label : IsLabel l) (labels : All IsLabel ls)
    (d_fits : length (dotted l ls) < 256) where
  abbrev behind_name : Bytes
  behind_name = b'@' ∷ (dotted l ls ++ (b'>' ∷ rest))

  abbrev printed : Bytes
  printed = quote s ++ behind_name

  abbrev printed_mailbox : Mailbox
  printed_mailbox = record {
    body = between printed (b'>' ∷ rest);
    rest = b'>' ∷ rest;
    local_part = quoted_name s behind_name;
    domain = host_of (dotted l ls) (b'>' ∷ rest);
  }

  mailbox-print : mailbox after printed ≡ ok printed_mailbox
  unfolding mailbox
  mailbox-print =
      ok-bind (with_route after printed)
        (ap or_empty (no_route ((escape s ++ (b'"' ∷ [])) ++ behind_name)))
      ∙ ok-bind (with_name printed) (local_part-quote after s behind_name printable s_fits)
      ∙ ok-bind (λ after_at. domain after_at >>= with_host printed (quoted_name s behind_name))
          (expect-cons b'@' (dotted l ls ++ (b'>' ∷ rest)))
      ∙ ok-bind (with_host printed (quoted_name s behind_name))
          (domain-dotted l ls (b'>' ∷ rest) label labels (refl, refl) d_fits)

  abbrev pub printed_part : Part
  printed_part = record {
    body = between (b'<' ∷ printed) rest;
    rest = rest;
    mailbox = printed_mailbox;
  }

  in_brackets-printed : in_brackets after (b'<' ∷ printed) printed_mailbox ≡ ok printed_part
  in_brackets-printed =
      ok-bind
        (λ rest.
          ok (record {
            body = between (b'<' ∷ printed) rest;
            rest = rest;
            mailbox = printed_mailbox;
          }))
        (expect-cons b'>' rest)

  pub path-printed : path after (b'<' ∷ printed) ≡ ok printed_part
  unfolding path
  path-printed =
      ok-bind (λ opened. mailbox after opened >>= in_brackets after (b'<' ∷ printed))
        (expect-cons b'<' printed)
      ∙ ok-bind (in_brackets after (b'<' ∷ printed)) mailbox-print
      ∙ in_brackets-printed

  pub reverse_path-printed : reverse_path after (b'<' ∷ printed) ≡ ok printed_part
  unfolding reverse_path reverse_path_tail
  reverse_path-printed =
      ok-bind (reverse_path_tail after (b'<' ∷ printed)) (expect-cons b'<' printed)
      ∙ ok-bind (in_brackets after (b'<' ∷ printed)) mailbox-print
      ∙ in_brackets-printed

  -- What a session stores for the mailbox is what was printed.
  pub address-printed : address printed_mailbox ≡ quote s ++ (b'@' ∷ dotted l ls)
  unfolding address
  address-printed =
      let host = b'@' ∷ dotted l ls in
      let at_end = append_assoc (quote s) host (b'>' ∷ rest) in
      ap (λ x. between x (b'>' ∷ rest)) (sym at_end)
      ∙ between-append (quote s ++ host) (b'>' ∷ rest)

  -- `path` reads `<`, a local part `s` in quotes with its quotes and backslashes escaped, `@`, labels
  -- joined by dots and `>`, in front of any rest: the local part's buffer then holds `s` itself, the
  -- domain's buffer the domain, and the rest is what stood behind. Every byte of `s` is from 32 to
  -- 126, the quoted form has below 65 bytes, each label is a non-empty run of letters, digits and
  -- hyphens, and the domain has below 256 bytes.
  pub path-print :
      (p : Part) × (path after (b'<' ∷ printed) ≡ ok p)
      × (p.mailbox.local_part.buffer ≡ s)
      × (p.mailbox.domain.buffer ≡ dotted l ls)
      × (p.rest ≡ rest)
  path-print = (printed_part, path-printed, refl, refl, refl)
