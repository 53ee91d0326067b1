-- ===== src/Smtp/Feed/Lines/Rounds.antt =====
-- One round of the loops, against the line that it takes from the input.
use ervan.Base.{
  ℕ, ◌+◌, ◌^◌, ◌≤◌, ◌<◌, ◌≡◌, refl, sym, ap, subst, ◌∙◌, lt→ltb, le→ltb_false, if◌then◌else◌, Bytes,
  length, List, [], ◌∷◌,
}
use ervan.Common.Platform.{Platform}
use ervan.Strings.Join.Lines.{lines, leftover}
use ervan.Strings.Join.Refines.{Holds}
use ervan.Strings.Join.Drains.{line, too_long, classify}
use ervan.Smtp.Session.{State, cmd, in_data, closed, Settings, Session, Effect, done, wild, ◌>>=◌}
use ervan.Smtp.Session.Scratch.{each, visible}
use ervan.Smtp.Feed.{feed}
use ervan.Smtp.Feed.Lines.{Rooms, room, serve_line, serve}
use ervan.Smtp.Feed.Lines.Same.{Alike, serve-Alike}

-- The part of an unfinished line that each buffer holds.
abbrev pub in_command : State → Bytes → Bytes
in_command cmd pending = pending
in_command _ pending = []

abbrev pub in_message : State → Bytes → Bytes
in_message in_data pending = pending
in_message _ pending = []

in_command-nil : (x : State) → in_command x [] ≡ []
in_command-nil cmd = refl
in_command-nil in_data = refl
in_command-nil closed = refl

in_message-nil : (x : State) → in_message x [] ≡ []
in_message-nil cmd = refl
in_message-nil in_data = refl
in_message-nil closed = refl

module _ (p : Platform) (cfg : Settings) (r : Rooms) where
  -- Between two pieces: the buffer of the session's state holds `pending`, the other one nothing.
  pub record Ready (s : Session p) (pending : Bytes) : Type 0 where
    pub command : Holds r.command s.cmd_buffer s.cmd_offset (in_command s.state pending)
    pub message : Holds r.message s.line_buffer s.line_offset (in_message s.state pending)

  pub Ready-new :
      (s : Session p)
      → Holds r.command s.cmd_buffer s.cmd_offset []
      → Holds r.message s.line_buffer s.line_offset []
      → Ready s []
  Ready-new s h k = record {
    command = subst (Holds r.command s.cmd_buffer s.cmd_offset) (sym (in_command-nil s.state)) h;
    message = subst (Holds r.message s.line_buffer s.line_offset) (sym (in_message-nil s.state)) k;
  }

  pub Ready-command :
      (s : Session p) (pending : Bytes)
      → s.state ≡ cmd
      → Holds r.command s.cmd_buffer s.cmd_offset pending
      → Holds r.message s.line_buffer s.line_offset []
      → Ready s pending
  Ready-command s pending e h k = record {
    command =
        subst (λ x. Holds r.command s.cmd_buffer s.cmd_offset (in_command x pending)) (sym e) h;
    message =
        subst (λ x. Holds r.message s.line_buffer s.line_offset (in_message x pending)) (sym e) k;
  }

  pub Ready-message :
      (s : Session p) (pending : Bytes)
      → s.state ≡ in_data
      → Holds r.command s.cmd_buffer s.cmd_offset []
      → Holds r.message s.line_buffer s.line_offset pending
      → Ready s pending
  Ready-message s pending e h k = record {
    command =
        subst (λ x. Holds r.command s.cmd_buffer s.cmd_offset (in_command x pending)) (sym e) h;
    message =
        subst (λ x. Holds r.message s.line_buffer s.line_offset (in_message x pending)) (sym e) k;
  }

  -- A closed session has no use for what it holds.
  pub Ready-closed :
      (s : Session p) (pending left : Bytes) → s.state ≡ closed → Ready s pending → Ready s left
  Ready-closed s pending left e h = record {
    command =
        subst (λ x. Holds r.command s.cmd_buffer s.cmd_offset (in_command x left)) (sym e)
          (subst (λ x. Holds r.command s.cmd_buffer s.cmd_offset (in_command x pending)) e
            h.command);
    message =
        subst (λ x. Holds r.message s.line_buffer s.line_offset (in_message x left)) (sym e)
          (subst (λ x. Holds r.message s.line_buffer s.line_offset (in_message x pending)) e
            h.message);
  }

  -- `m` ends as `n` does, but for the buffers, which then hold what is left.
  abbrev pub Follows : Effect (Session p) → Effect (Session p) → Bytes → Type 0
  Follows (done t) n left = (each visible n ≡ done (visible t)) × Ready t left
  Follows wild n left = each visible n ≡ wild
  Follows Effect.exhausted n left = each visible n ≡ Effect.exhausted

  pub Follows-same :
      (m n n' : Effect (Session p)) (left : Bytes)
      → each visible n ≡ each visible n'
      → Follows m n left
      → Follows m n' left
  Follows-same (done t) n n' left e (f, h) = (sym e ∙ f, h)
  Follows-same wild n n' left e f = sym e ∙ f
  Follows-same Effect.exhausted n n' left e f = sym e ∙ f

  pub Follows-at :
      {m m' n n' : Effect (Session p)} {left left' : Bytes}
      → m ≡ m'
      → n ≡ n'
      → left ≡ left'
      → Follows m' n' left'
      → Follows m n left
  Follows-at a b c h = rw (a, b, c) h

  abbrev pub Serves : Session p → Bytes → Bytes → Effect (Session p) → Type 0
  Serves s pending src m = Follows m (serve p cfg r (lines pending src) s) (leftover pending src)

  -- The lines that are left, served by a session that differs in its buffers.
  pub goes_on :
      (s t : Session p) (ls : List Bytes) (left : Bytes) (m : Effect (Session p))
      → Alike p cfg s t
      → Follows m (serve p cfg r ls s) left
      → Follows m (serve p cfg r ls t) left
  goes_on s t ls left m e h = Follows-same m _ _ left (serve-Alike p cfg r ls s t e) h

  pub serve-fits :
      (x : State) (s : Session p) (l : Bytes) (ls : List Bytes)
      → s.state ≡ x
      → length l ≤ room r x
      → serve p cfg r (l ∷ ls) s ≡ (serve_line p cfg x (line l) s >>= serve p cfg r ls)
  unfolding serve
  serve-fits x s l ls e h =
      ap (λ y. serve_line p cfg y (classify (room r y) l) s >>= serve p cfg r ls) e
      ∙ ap (λ b. serve_line p cfg x (if b then too_long else line l) s >>= serve p cfg r ls)
          (le→ltb_false (room r x) (length l) h)

  pub serve-too_long :
      (x : State) (s : Session p) (l : Bytes) (ls : List Bytes)
      → s.state ≡ x
      → room r x < length l
      → serve p cfg r (l ∷ ls) s ≡ (serve_line p cfg x too_long s >>= serve p cfg r ls)
  unfolding serve
  serve-too_long x s l ls e h =
      ap (λ y. serve_line p cfg y (classify (room r y) l) s >>= serve p cfg r ls) e
      ∙ ap (λ b. serve_line p cfg x (if b then too_long else line l) s >>= serve p cfg r ls)
          (lt→ltb (room r x) (length l) h)

  -- A closed session leaves the lines alone.
  pub serve-closed :
      (s : Session p) (ls : List Bytes) → s.state ≡ closed → serve p cfg r ls s ≡ done s
  unfolding serve serve_line
  serve-closed s [] e = refl
  serve-closed s (l ∷ ls) e =
      ap (λ y. serve_line p cfg y (classify (room r y) l) s >>= serve p cfg r ls) e
      ∙ serve-closed s ls e

  -- What the loop behind a round does with the rest, with this much fuel.
  abbrev pub Later : ℕ → Type 0
  Later n =
      (t : Session p) (pending src : Bytes)
      → Ready t pending
      → length pending + length src < 2 ^ 31
      → length src ≤ n
      → Serves t pending src (feed p cfg n t src)
