-- ===== src/Smtp/Feed/Lines/Message.antt =====
-- A round of `feed_data`, against the line that it takes.
use ervan.Base.{
  ℕ, suc, ◌+◌, ◌^◌, ◌≤◌, ◌<◌, ◌≡◌, refl, sym, ap, subst, ◌∙◌, true, false, Bool-cases, inl, inr,
  if◌then◌else◌, Option, none, some, Bytes, length, List, [], ◌∷◌, ◌++◌, arith,
}
use ervan.Common.Platform.{Platform}
use ervan.Strings.Join.{Joined, line_bytes}
use ervan.Strings.Join.Lines.{lines, leftover}
use ervan.Strings.Join.Refines.{Holds, line_of, Joins}
use ervan.Strings.Join.Drains.{Cut}
use ervan.Smtp.Session.{in_data, Settings, Session, Effect, done, ◌>>=◌}
use ervan.Smtp.Session.Scratch.{Scratch, scratch_of, over}
use ervan.Smtp.Feed.{Fed, max_line_length, is_end, take_line, end_message, data_round, feed}
use ervan.Smtp.Feed.Lines.{Rooms, serve_line, serve}
use ervan.Smtp.Feed.Lines.Blank.{take_line-Blank}
use ervan.Smtp.Feed.Lines.Same.{Alike, take_line-Alike, end_message-Alike, end_message-Ignores}
use ervan.Smtp.Feed.Lines.Rounds.{
  Ready, Ready-new, Ready-message, Follows, Follows-at, Serves, goes_on, serve-fits, serve-too_long,
  Later, in_command, in_message,
}

module _ (p : Platform) (cfg : Settings) (r : Rooms) (wide : max_line_length + 2 ≤ r.message) where
  pub feed_nothing : (n : ℕ) (s : Session p) → feed p cfg n s [] ≡ done s
  unfolding feed
  feed_nothing n s = refl

  module _ (n : ℕ) (later : Later p cfg r n) (next : Session p → Bytes → Effect (Fed p))
      (s : Session p) (pending src : Bytes) (reading : s.state ≡ in_data)
      (ready : Ready p cfg r s pending) (bound : length pending + length src < 2 ^ 31)
      (enough : length src ≤ suc n) (j : Joined)
      (again : (t : Session p) (rest : Bytes)
        → t.state ≡ in_data
        → Ready p cfg r t []
        → length rest < length src
        → Serves p cfg r t [] rest (next t rest >>= λ fed. feed p cfg n fed.session fed.rest)) where
    abbrev behind : Session p
    behind = record s { line_buffer = j.buffer; line_offset = j.offset }

    abbrev round_then : Option ℕ → Effect (Session p)
    round_then o = data_round p cfg next j o behind >>= λ fed. feed p cfg n fed.session fed.rest

    -- The other buffer has nothing in it.
    command_empty : Holds r.command s.cmd_buffer s.cmd_offset []
    command_empty =
        subst (λ x. Holds r.command s.cmd_buffer s.cmd_offset (in_command x pending)) reading
          ready.command

    message-Holds : Holds r.message s.line_buffer s.line_offset pending
    message-Holds =
        subst (λ x. Holds r.message s.line_buffer s.line_offset (in_message x pending)) reading
          ready.message

    round_none :
        j.line ≡ none
        → j.out_of_range ≡ false
        → j.rest ≡ []
        → round_then j.line ≡ feed p cfg n behind []
    unfolding data_round
    round_none is out rest = rw (is, out, rest) refl

    round_out :
        (rest : Bytes)
        → j.line ≡ none
        → j.out_of_range ≡ true
        → j.rest ≡ rest
        → round_then j.line ≡ feed p cfg n (record behind { line_too_long = true }) rest
    unfolding data_round
    round_out rest is out e = rw (is, out, e) refl

    round_end :
        (l rest : Bytes)
        → j.line ≡ some (length l)
        → line_bytes j (length l) ≡ l
        → j.rest ≡ rest
        → is_end l ≡ true
        → round_then j.line ≡ feed p cfg n (end_message p cfg behind) rest
    unfolding data_round
    round_end l rest is bytes e end = rw (is, bytes, e, end) refl

    round_line :
        (l rest : Bytes)
        → j.line ≡ some (length l)
        → line_bytes j (length l) ≡ l
        → j.rest ≡ rest
        → is_end l ≡ false
        → round_then j.line ≡ (
            next (take_line p cfg (length l) l behind) rest >>= λ fed.
            feed p cfg n fed.session fed.rest)
    unfolding data_round
    round_line l rest is bytes e end = rw (is, bytes, e, end) refl

    data_none :
        Cut pending src none
        → Joins r.message pending src none j
        → Serves p cfg r s pending src (round_then j.line)
    unfolding serve over
    data_none (l, left) (is, out, rest, h) =
        Follows-at p cfg r (round_none is out rest ∙ feed_nothing n behind)
          (ap (λ ls. serve p cfg r ls s) l) left
          (refl, Ready-message p cfg r behind (pending ++ src) reading command_empty h)

    -- What serving a line of the message comes to.
    served_end :
        (l : Bytes) (ls : List Bytes)
        → length l ≤ r.message
        → is_end l ≡ true
        → serve p cfg r (l ∷ ls) s ≡ serve p cfg r ls (end_message p cfg s)
    unfolding serve_line
    served_end l ls fits end =
        serve-fits p cfg r in_data s l ls reading fits
        ∙ ap
            (λ b.
              serve p cfg r ls (if b then end_message p cfg s else take_line p cfg (length l) l s))
            end

    served_line :
        (l : Bytes) (ls : List Bytes)
        → length l ≤ r.message
        → is_end l ≡ false
        → serve p cfg r (l ∷ ls) s ≡ serve p cfg r ls (take_line p cfg (length l) l s)
    unfolding serve_line
    served_line l ls fits end =
        serve-fits p cfg r in_data s l ls reading fits
        ∙ ap
            (λ b.
              serve p cfg r ls (if b then end_message p cfg s else take_line p cfg (length l) l s))
            end

    served_out :
        (l : Bytes) (ls : List Bytes)
        → r.message < length l
        → serve p cfg r (l ∷ ls) s ≡ serve p cfg r ls (record s { line_too_long = true })
    unfolding serve_line
    served_out l ls long = serve-too_long p cfg r in_data s l ls reading long

    abbrev left_buffers : Scratch
    left_buffers = scratch_of behind

    end-Blank : Holds r.message j.buffer j.offset [] → Ready p cfg r (end_message p cfg behind) []
    unfolding over
    end-Blank h =
        subst (λ u. Ready p cfg r u []) (sym (end_message-Ignores p cfg left_buffers s))
          (Ready-new p cfg r _ command_empty h)

    behind-Alike : Alike p cfg behind s
    unfolding over
    behind-Alike = refl

    data_end :
        (l rest : Bytes)
        → length rest < length src
        → length l ≤ r.message
        → is_end l ≡ true
        → Holds r.message j.buffer j.offset []
        → Follows p cfg r
            (feed p cfg n (end_message p cfg behind) rest)
            (serve p cfg r (l ∷ lines [] rest) s)
            (leftover [] rest)
    data_end l rest less fits end h =
        Follows-at p cfg r refl (served_end l (lines [] rest) fits end) refl (
          goes_on p cfg r _ _ _ _ _ (end_message-Alike p cfg behind s behind-Alike)
            (later (end_message p cfg behind) [] rest (end-Blank h) (omega arith) (omega arith)))

    data_line :
        (l rest : Bytes)
        → length rest < length src
        → length l ≤ r.message
        → is_end l ≡ false
        → Holds r.message j.buffer j.offset []
        → Follows p cfg r
            (next (take_line p cfg (length l) l behind) rest >>= λ fed.
              feed p cfg n fed.session fed.rest)
            (serve p cfg r (l ∷ lines [] rest) s)
            (leftover [] rest)
    data_line l rest less fits end h =
        let (e, (a, b)) = take_line-Blank p cfg r wide l behind (command_empty, h) in
        Follows-at p cfg r refl (served_line l (lines [] rest) fits end) refl (
          goes_on p cfg r _ _ _ _ _ (take_line-Alike p cfg (length l) l behind s behind-Alike) (
            again (take_line p cfg (length l) l behind) rest (e ∙ reading) (Ready-new p cfg r _ a b)
              less))

    data_out :
        (l rest : Bytes)
        → length rest < length src
        → r.message < length l
        → Holds r.message j.buffer j.offset []
        → Follows p cfg r
            (feed p cfg n (record behind { line_too_long = true }) rest)
            (serve p cfg r (l ∷ lines [] rest) s)
            (leftover [] rest)
    unfolding over
    data_out l rest less long h = Follows-at p cfg r refl (served_out l (lines [] rest) long) refl (
        goes_on p cfg r _ _ _ _ _ refl (
          later (record behind { line_too_long = true }) [] rest
            (Ready-new p cfg r _ command_empty h) (omega arith) (omega arith)))

    data_some :
        (used rest : Bytes)
        → Cut pending src (some (used, rest))
        → Joins r.message pending src (some (used, rest)) j
        → Serves p cfg r s pending src (round_then j.line)
    data_some used rest (l, left, less) (e, h, inl (fits, is, bytes, ok)) =
        let whole = line_of (pending ++ used) in
        elim (Bool-cases (is_end whole)) [
          | inl end ↦
              Follows-at p cfg r (round_end whole rest is bytes e end)
                (ap (λ ls. serve p cfg r ls s) l) left (data_end whole rest less fits end h)
          | inr more ↦
              Follows-at p cfg r (round_line whole rest is bytes e more)
                (ap (λ ls. serve p cfg r ls s) l) left (data_line whole rest less fits more h)
        ]
    data_some used rest (l, left, less) (e, h, inr (long, is, out)) =
        Follows-at p cfg r (round_out rest is out e) (ap (λ ls. serve p cfg r ls s) l) left
          (data_out (line_of (pending ++ used)) rest less long h)

    pub data_any :
        (o : Option (Bytes × Bytes))
        → Cut pending src o
        → Joins r.message pending src o j
        → Serves p cfg r s pending src (round_then j.line)
    data_any none c h = data_none c h
    data_any (some (used, rest)) c h = data_some used rest c h
