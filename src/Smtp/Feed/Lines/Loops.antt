-- ===== src/Smtp/Feed/Lines/Loops.antt =====
-- The loops of `feed_data` and `feed`, against the lines of their input.
use ervan.Base.{
  ℕ, zero, suc, ◌+◌, ◌^◌, ◌≤◌, ◌<◌, ◌≡◌, refl, ap, subst, Bytes, length, [], ◌∷◌, arith,
}
use ervan.Common.Platform.{Platform}
use ervan.Strings.Join.{join, crlf}
use ervan.Strings.Join.Lines.{lines, leftover}
use ervan.Strings.Join.Refines.{Holds, join-Joins}
use ervan.Strings.Join.Drains.{first_line-Cut}
use ervan.Smtp.Session.{State, cmd, in_data, closed, Settings, Session, Effect, ◌>>=◌}
use ervan.Smtp.Session.Scratch.{each, visible}
use ervan.Smtp.Feed.{Fed, max_line_length, feed_cmd, feed_data, feed_round, feed}
use ervan.Smtp.Feed.Lines.{Rooms, serve}
use ervan.Smtp.Feed.Lines.Rounds.{
  in_command, in_message, Ready, Ready-closed, Serves, serve-closed, Later,
}
use ervan.Smtp.Feed.Lines.Message.{data_any}
use ervan.Smtp.Feed.Lines.Command.{command_any}

module _ (p : Platform) (cfg : Settings) (r : Rooms) (wide : max_line_length + 2 ≤ r.message) where
  abbrev go_on : ℕ → Fed p → Effect (Session p)
  go_on n fed = feed p cfg n fed.session fed.rest

  held_message :
      (s : Session p) (pending : Bytes)
      → s.state ≡ in_data
      → Ready p cfg r s pending
      → Holds r.message s.line_buffer s.line_offset pending
  held_message s pending e ready =
      subst (λ x. Holds r.message s.line_buffer s.line_offset (in_message x pending)) e
        ready.message

  held_command :
      (s : Session p) (pending : Bytes)
      → s.state ≡ cmd
      → Ready p cfg r s pending
      → Holds r.command s.cmd_buffer s.cmd_offset pending
  held_command s pending e ready =
      subst (λ x. Holds r.command s.cmd_buffer s.cmd_offset (in_command x pending)) e ready.command

  feed_data-Serves :
      (fuel n : ℕ) (later : Later p cfg r n) (s : Session p) (pending src : Bytes)
      → s.state ≡ in_data
      → Ready p cfg r s pending
      → length pending + length src < 2 ^ 31
      → length src < fuel
      → length src ≤ suc n
      → Serves p cfg r s pending src (feed_data p cfg fuel s src >>= go_on n)
  unfolding feed_data
  feed_data-Serves zero n later s pending src e ready bound enough few = absurd (omega arith)
  feed_data-Serves (suc fuel) n later s pending src e ready bound enough few =
      data_any p cfg r wide n later (feed_data p cfg fuel) s pending src e ready bound few
        (join s.line_buffer src s.line_offset crlf)
        (λ t rest e' ready' less.
          feed_data-Serves fuel n later t [] rest e' ready' (omega arith) (omega arith)
            (omega arith))
        _ (first_line-Cut pending src)
        (join-Joins r.message s.line_buffer s.line_offset pending src
          (held_message s pending e ready) bound)

  feed_round-Serves :
      (n : ℕ) (later : Later p cfg r n) (x : State) (s : Session p) (pending src : Bytes)
      → s.state ≡ x
      → Ready p cfg r s pending
      → length pending + length src < 2 ^ 31
      → length src ≤ suc n
      → Serves p cfg r s pending src (feed_round p cfg x s src >>= go_on n)
  unfolding feed_round feed_cmd feed
  feed_round-Serves n later cmd s pending src e ready bound few =
      command_any p cfg r n later s pending src e ready bound few
        (join s.cmd_buffer src s.cmd_offset crlf) _ (first_line-Cut pending src)
        (join-Joins r.command s.cmd_buffer s.cmd_offset pending src (held_command s pending e ready)
          bound)
  feed_round-Serves n later in_data s pending src e ready bound few =
      feed_data-Serves (suc (length src)) n later s pending src e ready bound (omega arith) few
  feed_round-Serves n later closed s pending src e ready bound few = (
    ap (each visible) (serve-closed p cfg r s (lines pending src) e),
    Ready-closed p cfg r s pending (leftover pending src) e ready,
  )

  pub feed-Serves : (n : ℕ) → Later p cfg r n
  unfolding feed serve
  feed-Serves n t pending [] ready bound few = (refl, ready)
  feed-Serves zero t pending (c ∷ cs) ready bound few = absurd (omega arith)
  feed-Serves (suc n) t pending (c ∷ cs) ready bound few =
      feed_round-Serves n (feed-Serves n) t.state t pending (c ∷ cs) refl ready bound few
