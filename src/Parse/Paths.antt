-- ===== src/Parse/Paths.antt =====
-- What an accepted forward or reverse path looks like.
use ervan.Base.{
  ℕ, ◌<◌, ◌≡◌, refl, ap, ◌∙◌, Bytes, length, [], ◌∷◌, ◌++◌, append_assoc, ◌==◌, ==_iff, Bool-cases,
  ◌⊎◌, inl, inr,
}
use ervan.Parse.Results.{
  Outcome, ok, malformed, ◌>>=◌, Ensures, Ensures-bind, Ensures-ok, between, Mailbox, Part,
  no_mailbox,
}
use ervan.Parse.Spans.{Splits, between-Splits, expect-splits}
use ervan.Parse.Grammar.{IsRoute, IsName, IsHost}
use ervan.Parse.Grammar.Routes.{IsDomain-IsHost}
use ervan.Parse.Shapes.{IsMailbox, mailbox-Ensures}
use ervan.Parse.{expect, mailbox, in_brackets, path, reverse_path_tail, reverse_path, address}

-- `<`, a route, the local part, `@`, the domain, `>`, each of them as the grammar has it.
pub record IsPath (src : Bytes) (p : Part) : Type 0 where
  pub route : Bytes
  pub splits :
      src
      ≡ b'<'
        ∷ (route
            ++ (p.mailbox.local_part.body ++ (b'@' ∷ (p.mailbox.domain.body ++ (b'>' ∷ p.rest)))))
  pub whole : src ≡ p.body ++ p.rest
  pub name : length p.mailbox.local_part.body < 65
  pub name_buffer : length p.mailbox.local_part.buffer < 65
  pub host : length p.mailbox.domain.body < 256
  pub host_buffer : p.mailbox.domain.buffer ≡ p.mailbox.domain.body
  pub addressed : address p.mailbox ≡ p.mailbox.local_part.body ++ (b'@' ∷ p.mailbox.domain.body)
  pub routed : IsRoute route
  pub named : IsName p.mailbox.local_part.body p.mailbox.local_part.buffer
  pub located : IsHost p.mailbox.domain.body

-- The null reverse path, `<>`, whose mailbox is empty.
pub record IsNullPath (src : Bytes) (p : Part) : Type 0 where
  pub splits : src ≡ b'<' ∷ b'>' ∷ p.rest
  pub whole : src ≡ p.body ++ p.rest
  pub addressed : address p.mailbox ≡ []

abbrev pub IsReversePath : Bytes → Part → Type 0
IsReversePath src p = IsPath src p ⊎ IsNullPath src p

module _ {src opened rest : Bytes} {m : Mailbox} (open_bracket : src ≡ b'<' ∷ opened)
    (is : IsMailbox opened m) (close_bracket : m.rest ≡ b'>' ∷ rest) where
  bracketed :
      src ≡ b'<' ∷ (is.route ++ (m.local_part.body ++ (b'@' ∷ (m.domain.body ++ (b'>' ∷ rest)))))
  bracketed =
      open_bracket
      ∙ ap (◌∷◌ b'<') (
          is.splits
          ∙ ap (λ r. is.route ++ (m.local_part.body ++ (b'@' ∷ (m.domain.body ++ r))))
              close_bracket)

  bracketed-Splits : Splits src rest
  bracketed-Splits = record {
    read = b'<' ∷ (is.route ++ (m.local_part.body ++ (b'@' ∷ (m.domain.body ++ (b'>' ∷ [])))));
    at = bracketed ∙ simp append_assoc;
  }

  IsPath-of_parts : IsPath src (record { body = between src rest; rest = rest; mailbox = m })
  IsPath-of_parts = record {
    route = is.route;
    splits = bracketed;
    whole = between-Splits bracketed-Splits;
    name = is.name;
    name_buffer = is.name_buffer;
    host = is.host;
    host_buffer = is.host_buffer;
    addressed = is.addressed;
    routed = is.routed;
    named = is.named;
    located =
        IsDomain-IsHost m.domain.body m.domain.rest b'>' rest is.located
          (is.behind ∙ close_bracket);
  }

module _ (after : ℕ) (src : Bytes) where
  in_brackets-Ensures :
      (opened : Bytes) (m : Mailbox)
      → src ≡ b'<' ∷ opened
      → IsMailbox opened m
      → Ensures (IsPath src) (in_brackets after src m)
  in_brackets-Ensures opened m e is =
      Ensures-bind (IsPath src) (expect b'>' m.rest) _
        λ rest c. IsPath-of_parts e is (expect-splits b'>' m.rest c)

  path-Ensures : Ensures (IsPath src) (path after src)
  unfolding path
  path-Ensures = Ensures-bind (IsPath src) (expect b'<' src) _ λ opened e.
      Ensures-bind (IsPath src) (mailbox after opened) _ λ m h.
        in_brackets-Ensures opened m (expect-splits b'<' src e)
          (Ensures-ok (IsMailbox opened) (mailbox after opened) (mailbox-Ensures after opened) h)

  -- If `path` accepts an input, the input is `<`, a route, the local part, `@`, the domain, `>` and
  -- the reported rest. The route is empty, or hosts, each behind an `@`, with commas between them and
  -- a colon behind. The local part is words of RFC 5322's atext joined by dots, or a quoted string of
  -- printable bytes, where a quote or a backslash stands behind a backslash; its buffer holds the
  -- words, or what the quoted string means. The domain, like a route's host, is labels joined by dots,
  -- and its buffer holds it. The reported body and rest make up the input; the local part and what its
  -- buffer holds are below 65 bytes and the domain below 256, so that each buffer has room for its
  -- NUL; and the address that the session keeps is the local part, `@` and the domain.
  pub path-IsPath : {p : Part} → path after src ≡ ok p → IsPath src p
  path-IsPath h = Ensures-ok (IsPath src) (path after src) path-Ensures h

  widen : (o : Outcome Part) → Ensures (IsPath src) o → Ensures (IsReversePath src) o
  widen (ok p) h = inl h
  widen malformed h = tt
  widen _ h = tt

  null_path :
      (rest : Bytes)
      → src ≡ b'<' ∷ b'>' ∷ rest
      → IsNullPath src (record { body = between src rest; rest = rest; mailbox = no_mailbox })
  unfolding address
  null_path rest e = record {
    splits = e;
    whole = between-Splits (record { read = b'<' ∷ b'>' ∷ []; at = e });
    addressed = refl;
  }

  reverse_path_tail-Ensures :
      (opened : Bytes)
      → src ≡ b'<' ∷ opened
      → Ensures (IsReversePath src) (reverse_path_tail after src opened)
  unfolding reverse_path_tail
  reverse_path_tail-Ensures [] e = tt
  reverse_path_tail-Ensures (c ∷ cs) e =
      let full : Ensures (IsReversePath src) (mailbox after (c ∷ cs) >>= in_brackets after src) =
        widen _ (
          Ensures-bind (IsPath src) (mailbox after (c ∷ cs)) (in_brackets after src) λ m h.
            in_brackets-Ensures (c ∷ cs) m e (
              Ensures-ok (IsMailbox (c ∷ cs)) (mailbox after (c ∷ cs))
                (mailbox-Ensures after (c ∷ cs)) h)) in
      elim (Bool-cases (c == b'>')) [
        | inl t ↦ rw t (inr (null_path cs (e ∙ ap (λ b. b'<' ∷ b ∷ cs) ((==_iff c b'>').0 t))))
        | inr f ↦ rw f full
      ]

  reverse_path-Ensures : Ensures (IsReversePath src) (reverse_path after src)
  unfolding reverse_path
  reverse_path-Ensures =
      Ensures-bind (IsReversePath src) (expect b'<' src) _
        λ opened e. reverse_path_tail-Ensures opened (expect-splits b'<' src e)

  -- If `reverse_path` accepts an input, the input is a full path, as it is for `path`, or it is
  -- `<>` and the reported rest, and then the address that the session keeps is empty.
  pub reverse_path-IsReversePath : {p : Part} → reverse_path after src ≡ ok p → IsReversePath src p
  reverse_path-IsReversePath h =
      Ensures-ok (IsReversePath src) (reverse_path after src) reverse_path-Ensures h
