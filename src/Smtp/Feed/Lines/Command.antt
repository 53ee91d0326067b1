-- ===== src/Smtp/Feed/Lines/Command.antt =====
-- A round of `feed_cmd`, against the line that it takes.
use ervan.Base.{
  ℕ, suc, ◌+◌, ◌^◌, ◌≤◌, ◌<◌, ◌≡◌, refl, ap, subst, ◌∙◌, true, false, inl, inr, Option, none, some,
  Bytes, length, [], ◌∷◌, ◌++◌, arith,
}
use ervan.Common.Platform.{Platform}
use ervan.Strings.Join.{Joined, line_bytes}
use ervan.Strings.Join.Lines.{lines, leftover}
use ervan.Strings.Join.Refines.{Holds, line_of, Joins}
use ervan.Strings.Join.Drains.{Cut}
use ervan.Smtp.Replies.{exceeded_line}
use ervan.Smtp.Session.{cmd, Settings, Session, Effect, done, wild, ◌>>=◌, send}
use ervan.Smtp.Session.Scratch.{Scratch, scratch_of, over, each}
use ervan.Smtp.Dispatch.{call_command}
use ervan.Smtp.Dispatch.Buffers.{call_command-Passes}
use ervan.Smtp.Feed.{Fed, fed_line, too_long_reply, feed}
use ervan.Smtp.Feed.Lines.{Rooms, serve_line, serve}
use ervan.Smtp.Feed.Lines.Rounds.{
  in_message, Ready, Ready-new, Ready-command, Follows, Follows-at, Serves, goes_on, serve-fits,
  serve-too_long, Later,
}

module _ (p : Platform) (cfg : Settings) (r : Rooms) (n : ℕ) (later : Later p cfg r n)
    (s : Session p) (pending src : Bytes) (reading : s.state ≡ cmd)
    (ready : Ready p cfg r s pending) (bound : length pending + length src < 2 ^ 31)
    (enough : length src ≤ suc n) (j : Joined) where
  abbrev behind : Session p
  behind = record s { cmd_buffer = j.buffer; cmd_offset = j.offset }

  -- The rest of `feed_cmd`, and the loop behind it.
  abbrev answered : Session p → Effect (Fed p)
  answered t = done (record { session = too_long_reply p cfg j t; rest = j.rest })

  abbrev replied : Effect (Session p) → Effect (Session p)
  replied m = (m >>= answered) >>= λ fed. feed p cfg n fed.session fed.rest

  abbrev pub command_then : Option ℕ → Effect (Session p)
  command_then o = replied (fed_line p cfg j o behind)

  message_empty : Holds r.message s.line_buffer s.line_offset []
  message_empty =
      subst (λ x. Holds r.message s.line_buffer s.line_offset (in_message x pending)) reading
        ready.message

  round_none :
      j.line ≡ none → j.out_of_range ≡ false → j.rest ≡ [] → command_then j.line ≡ done behind
  unfolding fed_line feed
  round_none is out rest = rw (is, out, rest) refl

  round_out :
      (rest : Bytes)
      → j.line ≡ none
      → j.out_of_range ≡ true
      → j.rest ≡ rest
      → command_then j.line ≡ feed p cfg n (send p exceeded_line behind) rest
  unfolding fed_line
  round_out rest is out e = rw (is, out, e) refl

  replied-none :
      (rest : Bytes) (m : Effect (Session p))
      → j.out_of_range ≡ false
      → j.rest ≡ rest
      → replied m ≡ (m >>= λ t. feed p cfg n t rest)
  replied-none rest (done t) out e = rw (out, e) refl
  replied-none rest wild out e = refl
  replied-none rest Effect.exhausted out e = refl

  abbrev buffers : Scratch
  buffers = scratch_of behind

  round_line :
      (l rest : Bytes)
      → j.line ≡ some (length l)
      → line_bytes j (length l) ≡ l
      → j.out_of_range ≡ false
      → j.rest ≡ rest
      → command_then j.line
        ≡ (each (over buffers) (call_command p cfg l s) >>= λ t. feed p cfg n t rest)
  unfolding fed_line over
  round_line l rest is bytes out e =
      ap (λ o. replied (fed_line p cfg j o behind)) is
      ∙ ap (λ b. replied (call_command p cfg b behind)) bytes
      ∙ replied-none rest (call_command p cfg l behind) out e
      ∙ ap (λ m. m >>= λ t. feed p cfg n t rest) (call_command-Passes p cfg buffers l s)

  command_none :
      Cut pending src none
      → Joins r.command pending src none j
      → Serves p cfg r s pending src (command_then j.line)
  unfolding serve over
  command_none (l, left) (is, out, rest, h) =
      Follows-at p cfg r (round_none is out rest) (ap (λ ls. serve p cfg r ls s) l) left
        (refl, Ready-command p cfg r behind (pending ++ src) reading h message_empty)

  command_done :
      (rest : Bytes) (m : Effect (Session p))
      → length rest < length src
      → Holds r.command j.buffer j.offset []
      → Follows p cfg r
          (each (over buffers) m >>= λ t. feed p cfg n t rest)
          (m >>= serve p cfg r (lines [] rest))
          (leftover [] rest)
  unfolding over
  command_done rest (done t) less h = goes_on p cfg r _ _ _ _ _ refl (
      later (over buffers t) [] rest (Ready-new p cfg r _ h message_empty) (omega arith)
        (omega arith))
  command_done rest wild less h = refl
  command_done rest Effect.exhausted less h = refl

  command_out :
      (l rest : Bytes)
      → length rest < length src
      → r.command < length l
      → Holds r.command j.buffer j.offset []
      → Follows p cfg r
          (feed p cfg n (send p exceeded_line behind) rest)
          (serve p cfg r (l ∷ lines [] rest) s)
          (leftover [] rest)
  unfolding over serve_line
  command_out l rest less long h =
      Follows-at p cfg r refl (serve-too_long p cfg r cmd s l (lines [] rest) reading long) refl (
        goes_on p cfg r _ _ _ _ _ refl (
          later (send p exceeded_line behind) [] rest (Ready-new p cfg r _ h message_empty)
            (omega arith) (omega arith)))

  pub command_any :
      (o : Option (Bytes × Bytes))
      → Cut pending src o
      → Joins r.command pending src o j
      → Serves p cfg r s pending src (command_then j.line)
  unfolding serve_line
  command_any none c h = command_none c h
  command_any (some (used, rest)) (l, left, less) (e, h, inl (fits, is, bytes, out)) =
      let whole = line_of (pending ++ used) in
      Follows-at p cfg r (round_line whole rest is bytes out e)
        (ap (λ ls. serve p cfg r ls s) l
          ∙ serve-fits p cfg r cmd s whole (lines [] rest) reading fits)
        left (command_done rest (call_command p cfg whole s) less h)
  command_any (some (used, rest)) (l, left, less) (e, h, inr (long, is, out)) =
      Follows-at p cfg r (round_out rest is out e) (ap (λ ls. serve p cfg r ls s) l) left
        (command_out (line_of (pending ++ used)) rest less long h)
