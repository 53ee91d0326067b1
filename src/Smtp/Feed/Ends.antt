-- ===== src/Smtp/Feed/Ends.antt =====
-- The loops over the input and over the pieces that arrive: they end, and they leave a valid session.
use ervan.Base.{ℕ, zero, suc, ◌≤◌, ◌<◌, ◌≡◌, refl, Bool, Bytes, length, List, [], ◌∷◌, arith}
use ervan.Common.Platform.{Platform}
use ervan.Strings.Join.{LineBuffer, join, crlf}
use ervan.Strings.Join.Shrinks.{join-rest}
use ervan.Smtp.Session.{State, cmd, in_data, closed, Settings, Session, Effect, done, wild, ◌>>=◌}
use ervan.Smtp.Valid.{IsValid, EnsuresValid}
use ervan.Smtp.Feed.{
  Fed, data_round, feed_data, feed_round, feed, send_greeter, handle_piece, handle_pieces, handle,
}
use ervan.Smtp.Feed.Keeps.{EnsuresFed, feed_cmd_ensures, data_round_ensures}

module _ {p : Platform} (cfg : Settings) (was : Bool) where
  abbrev Valid : Session p → Type 0
  Valid = IsValid cfg was

  abbrev Ensures : Effect (Session p) → Type 0
  Ensures = EnsuresValid cfg was

  rebuffered :
      (s : Session p) (b : LineBuffer) (o : ℕ)
      → Valid s
      → Valid (record s { line_buffer = b; line_offset = o })
  rebuffered s b o v = record { staged = v.staged; error = record { kept = v.error.kept } }

  feed_data_nothing :
      (fuel n : ℕ) (s : Session p)
      → 0 < n
      → Valid s
      → EnsuresFed cfg was n (feed_data p cfg (suc fuel) s [])
  unfolding feed_data join data_round
  feed_data_nothing fuel n s l v = (rebuffered s s.line_buffer s.line_offset v, l)

  feed_data_step :
      (fuel n : ℕ) (s : Session p) (c : ℕ) (cs : Bytes)
      → length cs < n
      → ((t : Session p) (sp : Bytes)
          → length sp < suc (length cs)
          → Valid t
          → EnsuresFed cfg was n (feed_data p cfg fuel t sp))
      → Valid s
      → EnsuresFed cfg was n (feed_data p cfg (suc fuel) s (c ∷ cs))
  unfolding feed_data
  feed_data_step fuel n s c cs l h v =
      let j = join s.line_buffer (c ∷ cs) s.line_offset crlf in
      let less = join-rest s.line_buffer c cs s.line_offset crlf in
      data_round_ensures cfg was (feed_data p cfg fuel) j j.line _ n (omega arith)
        (λ t w. h t j.rest less w) (rebuffered s _ _ v)

  feed_data_ensures :
      (fuel n : ℕ) (s : Session p) (sp : Bytes)
      → length sp < fuel
      → length sp < n
      → Valid s
      → EnsuresFed cfg was n (feed_data p cfg fuel s sp)
  feed_data_ensures zero n s sp f l v = absurd (omega arith)
  feed_data_ensures (suc fuel) n s [] f l v = feed_data_nothing fuel n s l v
  feed_data_ensures (suc fuel) n s (c ∷ cs) f l v =
      feed_data_step fuel n s c cs (omega arith)
        (λ t sp k w. feed_data_ensures fuel n t sp (omega arith) (omega arith) w) v

  feed_round_ensures :
      (x : State) (s : Session p) (c : ℕ) (cs : Bytes)
      → s.state ≡ x
      → Valid s
      → EnsuresFed cfg was (suc (length cs)) (feed_round p cfg x s (c ∷ cs))
  unfolding feed_round
  feed_round_ensures cmd s c cs e v = feed_cmd_ensures cfg was s c cs e v
  feed_round_ensures in_data s c cs e v =
      feed_data_step (suc (length cs)) (suc (length cs)) s c cs (omega arith)
        (λ t sp k w. feed_data_ensures (suc (length cs)) (suc (length cs)) t sp k k w) v
  feed_round_ensures closed s c cs e v = (v, omega arith)

  fed_then :
      (n : ℕ) (m : Effect (Fed p)) (f : Fed p → Effect (Session p))
      → EnsuresFed cfg was n m
      → ((t : Session p) (sp : Bytes)
          → length sp < n
          → Valid t
          → Ensures (f (record { session = t; rest = sp })))
      → Ensures (m >>= f)
  fed_then n (done r) f (v, l) h = h r.session r.rest l v
  fed_then n wild f u h = tt
  fed_then n Effect.exhausted f u h = u

  feed-Ensures :
      (fuel : ℕ) (s : Session p) (sp : Bytes)
      → length sp ≤ fuel
      → Valid s
      → Ensures (feed p cfg fuel s sp)
  unfolding feed
  feed-Ensures fuel s [] l v = v
  feed-Ensures zero s (c ∷ cs) l v = absurd (omega arith)
  feed-Ensures (suc fuel) s (c ∷ cs) l v =
      fed_then _ _ _ (feed_round_ensures s.state s c cs refl v)
        (λ t sp k w. feed-Ensures fuel t sp (omega arith) w)

  pub send_greeter-IsValid : (s : Session p) → Valid s → Valid (send_greeter p cfg s)
  unfolding send_greeter
  send_greeter-IsValid s v = record { staged = v.staged; error = record { kept = v.error.kept } }

  then_next :
      (m : Effect (Session p)) (next : Session p → Effect (Session p))
      → ((t : Session p) → Valid t → Ensures (next t))
      → Ensures m
      → Ensures (m >>= next)
  then_next (done t) next h v = h t v
  then_next wild next h v = tt
  then_next Effect.exhausted next h v = v

  handle_piece-Ensures :
      (next : Session p → Effect (Session p)) (piece : Bytes) (x : State) (s : Session p)
      → ((t : Session p) → Valid t → Ensures (next t))
      → Valid s
      → Ensures (handle_piece p cfg next piece x s)
  unfolding handle_piece
  handle_piece-Ensures next piece closed s h v = v
  handle_piece-Ensures next [] cmd s h v = v
  handle_piece-Ensures next [] in_data s h v = v
  handle_piece-Ensures next (c ∷ cs) cmd s h v =
      then_next _ next h (feed-Ensures _ s (c ∷ cs) (omega arith) v)
  handle_piece-Ensures next (c ∷ cs) in_data s h v =
      then_next _ next h (feed-Ensures _ s (c ∷ cs) (omega arith) v)

  pub handle_pieces-Ensures :
      (pieces : List Bytes) (s : Session p) → Valid s → Ensures (handle_pieces p cfg pieces s)
  unfolding handle_pieces
  handle_pieces-Ensures [] s v = v
  handle_pieces-Ensures (piece ∷ pieces) s v =
      handle_piece-Ensures _ piece s.state s (λ t w. handle_pieces-Ensures pieces t w) v

  -- On a valid session, a call of feed with the bytes of one piece ends within the fuel that handle
  -- gives it, one round for each byte; and unless a handler reads behind its line, the session that
  -- it leaves is valid: the stages of the transaction are consistent, and an error that the session
  -- had when the message began is still there.
  pub feed-IsValid :
      (s : Session p) (sp : Bytes)
      → IsValid cfg was s
      → EnsuresValid cfg was (feed p cfg (length sp) s sp)
  feed-IsValid s sp v = feed-Ensures (length sp) s sp (omega arith) v

  -- On a valid session, and whatever pieces the client sends, handle ends; and unless a handler reads
  -- behind its line, the session that it leaves is valid: a sender or recipients only behind EHLO or
  -- HELO, no more recipients than the configuration allows, message data only with a sender and a
  -- recipient, the configuration's limits, and an error that the session had is still there.
  pub handle-IsValid :
      (pieces : List Bytes) (s : Session p)
      → IsValid cfg was s
      → EnsuresValid cfg was (handle p cfg pieces s)
  unfolding handle
  handle-IsValid pieces s v = handle_pieces-Ensures pieces _ (send_greeter-IsValid s v)
