-- ===== src/Parse.antt =====
-- common/src/parse.cpp and common/include/ervan/parse.hpp: the parsers of SMTP's arguments.
pub mod Chars
pub mod Results
pub mod Spans
pub mod Settled
pub mod Grammar
pub mod Accepted
pub mod Shapes
pub mod Paths
pub mod Quoted
pub mod Labels
pub mod RoundTrip
pub mod Params
mod Tests
mod Examples
use ervan.Base.{
  ℕ, zero, suc, ◌+◌, ◌-◌, Bool, true, false, not, ◌&&◌, ◌||◌, ◌==◌, leb, ltb, if◌then◌else◌, Bytes,
  length, drop, Option, none, some, [], ◌∷◌, ◌++◌,
}
use Chars.{is_alnum, is_atext, is_qtext_smtp, is_estmp_value}
use Results.{
  Outcome, ok, malformed, overrun, exhausted, ◌>>=◌, between, Slice, slice, Buffered, buffered,
  local_part_buffer, domain_buffer, Mailbox, no_mailbox, Part, EsmtpParam,
}

-- if (src.size() == 0 || src[0] != c) return malformed_result{}; src = src.advance(1);
pub expect : ℕ → Bytes → Outcome Bytes
expect c [] = malformed
expect c (x ∷ xs) = if x == c then ok xs else malformed

-- while (src.size() > 0 && test(src[0])) src = src.advance(1);
unfoldable pub skip_while : (ℕ → Bool) → Bytes → Bytes
skip_while test [] = []
skip_while test (c ∷ cs) = if test c then skip_while test cs else c ∷ cs

-- One byte of `first`, then all that follow in `more`: `atom`, `esmtp_keyword`, `esmtp_value`.
pub run_of : (ℕ → Bool) → (ℕ → Bool) → Bytes → Outcome Slice
unfolding skip_while
run_of first more [] = malformed
run_of first more (c ∷ cs) = if first c then ok (slice (c ∷ cs) (skip_while more cs)) else malformed

pub atom : Bytes → Outcome Slice
unfolding run_of is_atext
atom = run_of is_atext is_atext

pub esmtp_keyword : Bytes → Outcome Slice
unfolding run_of is_alnum
esmtp_keyword = run_of is_alnum (λ c. is_alnum c || c == b'-')

pub esmtp_value : Bytes → Outcome Slice
unfolding run_of is_estmp_value
esmtp_value = run_of is_estmp_value is_estmp_value

-- src[0] < 32 || src[0] > 126
abbrev pub not_printable : ℕ → Bool
not_printable c = ltb c 32 || ltb 126 c

-- The domain's two loops over one position: the labels read so far have `size` bytes.
pub domain_size : Bool → ℕ → Bytes → Option ℕ
unfolding is_alnum
domain_size required size [] = some size
domain_size required size (c ∷ cs) =
    let label = domain_size false (size + 1) cs in
    let next_label = domain_size true (size + 1) cs in
    if not (is_alnum c) && not (c == b'-')
    then (if required
        then none
        else if c == b'-'
        then none
        else if c == b'.'
        then next_label
        else some size)
    else label

domain_of_size : Bytes → Option ℕ → Outcome Buffered
domain_of_size src none = malformed
domain_of_size src (some size) = buffered domain_buffer src (drop size src) size

pub domain : Bytes → Outcome Buffered
unfolding domain_size domain_of_size buffered
domain src = domain_of_size src (domain_size true 0 src)

pub at_domain : Bytes → Outcome Buffered
unfolding expect domain
at_domain src = do after_at ← expect b'@' src; domain after_at

-- The loop of `a_d_l`, and the colon behind it.
pub a_d_l_tail : ℕ → Bytes → Outcome Bytes
unfolding at_domain
a_d_l_tail zero src = exhausted
a_d_l_tail (suc fuel) [] = malformed
a_d_l_tail (suc fuel) (c ∷ cs) =
    if c == b','
    then (do d ← at_domain cs; a_d_l_tail fuel d.rest)
    else if c == b':'
    then ok cs
    else malformed

-- A route that is not there leaves the input as it is.
a_d_l_behind : Bytes → Outcome Buffered → Outcome Bytes
unfolding a_d_l_tail
a_d_l_behind src (ok d) = a_d_l_tail (suc (length d.rest)) d.rest
a_d_l_behind src malformed = ok src
a_d_l_behind src overrun = overrun
a_d_l_behind src exhausted = exhausted

pub a_d_l : Bytes → Outcome Bytes
unfolding at_domain a_d_l_behind
a_d_l src = a_d_l_behind src (at_domain src)

-- The `rest` of a malformed result is the empty span.
abbrev pub or_empty : Outcome Bytes → Outcome Bytes
or_empty malformed = ok []
or_empty (ok rest) = ok rest
or_empty overrun = overrun
or_empty exhausted = exhausted

-- local_part_result(quoted_string_result): the body is the string with its quotes, of which the
-- loop runs from the second byte to the last but one.
pub unescape : Bytes → Bytes
unescape [] = []
unescape (c ∷ []) = []
unescape (c ∷ d ∷ ds) =
    let escaped = unescape ds in
    let plain = unescape (d ∷ ds) in if c == b'\\' then d ∷ escaped else c ∷ plain

pub local_part_of_quoted : Slice → Outcome Buffered
unfolding unescape
local_part_of_quoted q =
    if leb local_part_buffer (length q.body)
    then malformed
    else ok (record { body = q.body; rest = q.rest; buffer = unescape (drop 1 q.body) })

-- Behind an atom of a dot-string: stop, or go on behind the dot.
after_atom : (Bytes → Outcome Bytes) → Bytes → Outcome Bytes
after_atom next [] = ok []
after_atom next (c ∷ cs) = if c == b'.' then next cs else ok (c ∷ cs)

-- The `for (;;)` loop of `local_part`.
pub dot_string : ℕ → Bytes → Outcome Bytes
unfolding atom after_atom
dot_string zero src = exhausted
dot_string (suc fuel) src = do a ← atom src; after_atom (dot_string fuel) a.rest

abbrev pub local_part_of_atoms : Bytes → Bytes → Outcome Buffered
local_part_of_atoms src rest = buffered local_part_buffer src rest (length src - length rest)

-- A string that is not quoted is read as atoms.
local_part_or_atoms : Bytes → Outcome Slice → Outcome Buffered
unfolding local_part_of_quoted dot_string buffered
local_part_or_atoms src (ok q) = local_part_of_quoted q
local_part_or_atoms src malformed = do
  rest ← dot_string (suc (length src)) src
  local_part_of_atoms src rest
local_part_or_atoms src overrun = overrun
local_part_or_atoms src exhausted = exhausted

-- esmtp_param
pub esmtp_param : Bytes → Outcome EsmtpParam
unfolding esmtp_keyword expect esmtp_value
esmtp_param src = do
  key ← esmtp_keyword src
  after_equals ← expect b'=' key.rest
  value ← esmtp_value after_equals
  ok (record { body = between src value.rest; rest = value.rest; key = key; value = value })

-- `after` is the byte that stands in memory behind the span.
module _ (after : ℕ) where
  -- The loop of `quoted_string`, up to and with the closing quote; `escaped` behind a backslash.
  -- There the source reads `src[0]` with no test of the size, and at the end of the span finds the
  -- byte behind it. If it takes that one, the size wraps and the loop runs on over foreign memory.
  pub quoted_chars : Bool → Bytes → Outcome Bytes
  unfolding is_qtext_smtp
  quoted_chars false [] = malformed
  quoted_chars true [] = if not_printable after then malformed else overrun
  quoted_chars true (c ∷ cs) =
      let next = quoted_chars false cs in if not_printable c then malformed else next
  quoted_chars false (c ∷ cs) =
      let next = quoted_chars (c == b'\\') cs in
      if c == b'"'
      then ok cs
      else if c == b'\\'
      then next
      else if is_qtext_smtp c
      then next
      else malformed

  pub quoted_string : Bytes → Outcome Slice
  unfolding expect quoted_chars
  quoted_string src = do
    opened ← expect b'"' src
    rest ← quoted_chars false opened
    ok (slice src rest)

  pub local_part : Bytes → Outcome Buffered
  unfolding quoted_string local_part_or_atoms
  local_part src = local_part_or_atoms src (quoted_string src)

  pub mailbox : Bytes → Outcome Mailbox
  unfolding a_d_l local_part expect domain
  mailbox src = do
    routed ← or_empty (a_d_l src)
    name ← local_part routed
    after_at ← expect b'@' name.rest
    host ← domain after_at
    ok (record { body = between src host.rest; rest = host.rest; local_part = name; domain = host })

  abbrev in_brackets : Bytes → Mailbox → Outcome Part
  in_brackets src m = do
    rest ← expect b'>' m.rest
    ok (record { body = between src rest; rest = rest; mailbox = m })

  pub path : Bytes → Outcome Part
  unfolding expect mailbox
  path src = do opened ← expect b'<' src; m ← mailbox opened; in_brackets src m

  -- Behind the `<` of a reverse path, `src` being all of it.
  pub reverse_path_tail : Bytes → Bytes → Outcome Part
  unfolding mailbox expect
  reverse_path_tail src [] = malformed
  reverse_path_tail src (c ∷ cs) =
      if c == b'>'
      then ok (record { body = between src cs; rest = cs; mailbox = no_mailbox })
      else (do m ← mailbox (c ∷ cs); in_brackets src m)

  pub reverse_path : Bytes → Outcome Part
  unfolding expect reverse_path_tail
  reverse_path src = do opened ← expect b'<' src; reverse_path_tail src opened

-- std::string(m.local_part.body.begin(), m.domain.body.end())
pub address : Mailbox → Bytes
address m = between (m.local_part.body ++ m.local_part.rest) m.domain.rest
