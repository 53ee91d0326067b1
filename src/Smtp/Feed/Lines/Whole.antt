-- ===== src/Smtp/Feed/Lines/Whole.antt =====
-- The receive loop, against the lines of all that the client sends.
use ervan.Base.{
  ◌+◌, ◌^◌, ◌≤◌, ◌<◌, ◌≡◌, refl, sym, ap, ◌∙◌, All, Bytes, length, length-append, List, [], ◌∷◌,
  ◌++◌, arith,
}
use ervan.Common.Platform.{Platform}
use ervan.Strings.Join.Lines.{lines, leftover, lines-append}
use ervan.Strings.Join.Pieces.{leftover-append}
use ervan.Smtp.Session.{State, cmd, in_data, closed, Settings, Session, Effect, done, wild, ◌>>=◌}
use ervan.Smtp.Session.Scratch.{each, visible}
use ervan.Smtp.Feed.{max_line_length, feed, send_greeter, handle_piece, handle_pieces, handle}
use ervan.Smtp.Feed.Pieces.Message.{whole, length-leftover}
use ervan.Smtp.Feed.Lines.{Rooms, serve}
use ervan.Smtp.Feed.Lines.Same.{then-Alike, serve-Alike, serve-append}
use ervan.Smtp.Feed.Lines.Rounds.{
  Ready, Ready-closed, Follows, Follows-same, Follows-at, Serves, serve-closed,
}
use ervan.Smtp.Feed.Lines.Loops.{feed-Serves}

module _ (p : Platform) (cfg : Settings) (r : Rooms) (wide : max_line_length + 2 ≤ r.message) where
  Follows-then :
      (m n : Effect (Session p)) (k : Session p → Effect (Session p)) (ls : List Bytes)
      (left left' : Bytes)
      → Follows p cfg r m n left
      → ((t : Session p) → Ready p cfg r t left → Follows p cfg r (k t) (serve p cfg r ls t) left')
      → Follows p cfg r (m >>= k) (n >>= serve p cfg r ls) left'
  Follows-then (done t) n k ls left left' (e, h) f =
      Follows-same p cfg r (k t) _ _ left'
        (sym (then-Alike p cfg n (done t) (serve p cfg r ls) e (serve-Alike p cfg r ls))) (f t h)
  Follows-then wild n k ls left left' e f =
      then-Alike p cfg n wild (serve p cfg r ls) e (serve-Alike p cfg r ls)
  Follows-then Effect.exhausted n k ls left left' e f =
      then-Alike p cfg n Effect.exhausted (serve p cfg r ls) e (serve-Alike p cfg r ls)

  -- A piece, and what arrives behind it.
  piece-Serves :
      (next : Session p → Effect (Session p)) (piece later : Bytes) (s : Session p)
      (pending : Bytes)
      → Ready p cfg r s pending
      → length pending + length piece < 2 ^ 31
      → ((t : Session p)
          → Ready p cfg r t (leftover pending piece)
          → Serves p cfg r t (leftover pending piece) later (next t))
      → Serves p cfg r s pending (piece ++ later) (feed p cfg (length piece) s piece >>= next)
  piece-Serves next piece later s pending ready bound h =
      Follows-at p cfg r refl
        (ap (λ ls. serve p cfg r ls s) (lines-append pending piece later)
          ∙ serve-append p cfg r (lines pending piece) (lines (leftover pending piece) later) s)
        (leftover-append pending piece later)
        (Follows-then _ _ next _ _ _
          (feed-Serves p cfg r wide (length piece) s pending piece ready bound (omega arith)) h)

  handle_piece-Serves :
      (next : Session p → Effect (Session p)) (piece later : Bytes) (x : State) (s : Session p)
      (pending : Bytes)
      → s.state ≡ x
      → 0 < length piece
      → Ready p cfg r s pending
      → length pending + length piece < 2 ^ 31
      → ((t : Session p)
          → Ready p cfg r t (leftover pending piece)
          → Serves p cfg r t (leftover pending piece) later (next t))
      → Serves p cfg r s pending (piece ++ later) (handle_piece p cfg next piece x s)
  unfolding handle_piece
  handle_piece-Serves next piece later closed s pending e pos ready bound h = (
    ap (each visible) (serve-closed p cfg r s (lines pending (piece ++ later)) e),
    Ready-closed p cfg r s pending (leftover pending (piece ++ later)) e ready,
  )
  handle_piece-Serves next [] later cmd s pending e pos ready bound h = absurd (omega arith)
  handle_piece-Serves next [] later in_data s pending e pos ready bound h = absurd (omega arith)
  handle_piece-Serves next (c ∷ cs) later cmd s pending e pos ready bound h =
      piece-Serves next (c ∷ cs) later s pending ready bound h
  handle_piece-Serves next (c ∷ cs) later in_data s pending e pos ready bound h =
      piece-Serves next (c ∷ cs) later s pending ready bound h

  handle_pieces-Serves :
      (pieces : List Bytes) (s : Session p) (pending : Bytes)
      → Ready p cfg r s pending
      → All (λ a. 0 < length a) pieces
      → length pending + length (whole pieces) < 2 ^ 31
      → Serves p cfg r s pending (whole pieces) (handle_pieces p cfg pieces s)
  unfolding handle_pieces serve
  handle_pieces-Serves [] s pending ready some_left bound = (refl, ready)
  handle_pieces-Serves (a ∷ pieces) s pending ready (pos, some_left) bound =
      let l = length-append a (whole pieces) in
      let k = length-leftover pending a in
      handle_piece-Serves (handle_pieces p cfg pieces) a (whole pieces) s.state s pending refl pos
        ready (omega arith)
        (λ t ready'.
          handle_pieces-Serves pieces t (leftover pending a) ready' some_left (omega arith))

  Follows-visible :
      (m n : Effect (Session p)) (left : Bytes)
      → Follows p cfg r m n left
      → each visible m ≡ each visible n
  Follows-visible (done t) n left (e, h) = sym e
  Follows-visible wild n left e = sym e
  Follows-visible Effect.exhausted n left e = sym e

  send_greeter-Ready :
      (s : Session p) → Ready p cfg r s [] → Ready p cfg r (send_greeter p cfg s) []
  unfolding send_greeter
  send_greeter-Ready s h = record { command = h.command; message = h.message }

  -- A session whose buffers are ready for a line, the one for a message with at least 1000 bytes: if
  -- a client sends pieces, none of them empty and less than 2 GiB in all, then the session serves the
  -- lines that CR LF cuts all of it into, one after the other, each as a command or as a line of the
  -- message by the state that the lines before it have left; a line that does not fit its buffer is
  -- refused, or spoils the message. But for the buffers themselves, the session that the receive loop
  -- leaves is the one that serving the lines leaves, and it reads behind a line just if that does.
  pub handle-serve :
      (pieces : List Bytes) (s : Session p)
      → Ready p cfg r s []
      → All (λ a. 0 < length a) pieces
      → length (whole pieces) < 2 ^ 31
      → each visible (handle p cfg pieces s)
        ≡ each visible (serve p cfg r (lines [] (whole pieces)) (send_greeter p cfg s))
  unfolding handle
  handle-serve pieces s ready some_left bound = Follows-visible _ _ _ (
      handle_pieces-Serves pieces (send_greeter p cfg s) [] (send_greeter-Ready s ready) some_left
        (omega arith))

  -- On such a session the pieces do not matter: cut in two ways, the same input leaves sessions that
  -- differ in their buffers only.
  pub handle-same :
      (a b : List Bytes) (s : Session p)
      → Ready p cfg r s []
      → All (λ x. 0 < length x) a
      → All (λ x. 0 < length x) b
      → length (whole a) < 2 ^ 31
      → whole a ≡ whole b
      → each visible (handle p cfg a s) ≡ each visible (handle p cfg b s)
  handle-same a b s ready left_a left_b bound e =
      handle-serve a s ready left_a bound
      ∙ ap (λ src. each visible (serve p cfg r (lines [] src) (send_greeter p cfg s))) e
      ∙ sym (handle-serve b s ready left_b (omega (arith, ap length e)))
