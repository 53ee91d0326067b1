-- ===== src/Smtp/Feed/Lines/Same.antt =====
-- Sessions that differ in their buffers only serve a line alike.
use ervan.Base.{
  if_over, ◌≡◌, refl, sym, ap, ◌∙◌, Bool, true, false, ◌||◌, if◌then◌else◌, ℕ, Bytes, length, List,
  [], ◌∷◌, ◌++◌, not, ◌&&◌,
}
use ervan.Common.Platform.{Platform}
use ervan.Strings.Join.Drains.{Report, line, too_long, classify}
use ervan.Smtp.Session.{
  State, cmd, in_data, closed, Settings, Session, Effect, done, wild, ◌>>=◌, send,
}
use ervan.Smtp.Replies.{exceeded_line}
use ervan.Smtp.Session.Scratch.{Scratch, over, each, visible, Ignores}
use ervan.Smtp.Files.Buffers.{finish_data-Ignores, abort_data-Ignores}
use ervan.Smtp.Dispatch.{call_command}
use ervan.Smtp.Dispatch.Buffers.{call_command-Passes}
use ervan.Smtp.Feed.{is_end, unstuff, count_line, write_line, take_line, end_message}
use ervan.Smtp.Feed.Lines.{Rooms, room, serve_line, serve}
use ervan.Smtp.Session.Scratch.{no_scratch}

both_ways {ℓ κ} :
    {A : Type ℓ} {B : Type κ} (f : A → B) (b : Bool) (x y x' y' : A)
    → f x ≡ f x'
    → f y ≡ f y'
    → f (if b then x else y) ≡ f (if b then x' else y')
both_ways f true x y x' y' e k = e
both_ways f false x y x' y' e k = k

module _ (p : Platform) (cfg : Settings) where
  pub end_message-Ignores : (x : Scratch) → Ignores p x (end_message p cfg)
  unfolding end_message over
  end_message-Ignores x s =
      if_over (over x) (not s.line_too_long && not s.data_too_long) (finish_data-Ignores p cfg x s)
        (abort_data-Ignores p cfg x s)

  -- What a session shows once a line of the message has been taken.
  write_line-visible :
      (end : ℕ) (l : Bytes) (s : Session p)
      → visible (write_line p cfg end l s) ≡ visible (write_line p cfg end l (visible s))
  unfolding write_line over
  write_line-visible end l s =
      both_ways visible (s.line_too_long || s.data_too_long || s.data_error) _ _ _ _ refl refl

  take_line-visible :
      (end : ℕ) (l : Bytes) (s : Session p)
      → visible (take_line p cfg end l s) ≡ visible (take_line p cfg end l (visible s))
  unfolding take_line count_line over
  take_line-visible end l s = write_line-visible end (unstuff l) (count_line p cfg (unstuff l) s)

  abbrev pub Alike : Session p → Session p → Type 0
  Alike s t = visible s ≡ visible t

  pub take_line-Alike :
      (end : ℕ) (l : Bytes) (s t : Session p)
      → Alike s t
      → Alike (take_line p cfg end l s) (take_line p cfg end l t)
  take_line-Alike end l s t e =
      take_line-visible end l s
      ∙ ap (λ u. visible (take_line p cfg end l u)) e
      ∙ sym (take_line-visible end l t)

  pub end_message-Alike :
      (s t : Session p) → Alike s t → Alike (end_message p cfg s) (end_message p cfg t)
  end_message-Alike s t e =
      sym (end_message-Ignores no_scratch s)
      ∙ ap (end_message p cfg) e
      ∙ end_message-Ignores no_scratch t

  serve_line-Alike :
      (x : State) (r : Report) (s t : Session p)
      → Alike s t
      → each visible (serve_line p cfg x r s) ≡ each visible (serve_line p cfg x r t)
  unfolding serve_line over
  serve_line-Alike cmd (line l) s t e =
      sym (call_command-Passes p cfg no_scratch l s)
      ∙ ap (call_command p cfg l) e
      ∙ call_command-Passes p cfg no_scratch l t
  serve_line-Alike cmd too_long s t e = ap (λ (u : Session p). done (send p exceeded_line u)) e
  serve_line-Alike in_data (line l) s t e = ap done (
      both_ways visible (is_end l) _ _ _ _ (end_message-Alike s t e)
        (take_line-Alike (length l) l s t e))
  serve_line-Alike in_data too_long s t e =
      ap (λ (u : Session p). done (record u { line_too_long = true })) e
  serve_line-Alike closed r s t e = ap done e

  pub then-Alike :
      (m m' : Effect (Session p)) (k : Session p → Effect (Session p))
      → each visible m ≡ each visible m'
      → ((s t : Session p) → Alike s t → each visible (k s) ≡ each visible (k t))
      → each visible (m >>= k) ≡ each visible (m' >>= k)
  then-Alike (done s) (done t) k e h = h s t (cc)
  then-Alike (done s) wild k e h = absurd (cc)
  then-Alike (done s) Effect.exhausted k e h = absurd (cc)
  then-Alike wild (done t) k e h = absurd (cc)
  then-Alike wild wild k e h = refl
  then-Alike wild Effect.exhausted k e h = absurd (cc)
  then-Alike Effect.exhausted (done t) k e h = absurd (cc)
  then-Alike Effect.exhausted wild k e h = absurd (cc)
  then-Alike Effect.exhausted Effect.exhausted k e h = refl

  state-Alike : (s t : Session p) → Alike s t → s.state ≡ t.state
  unfolding over
  state-Alike s t e = ap (λ (u : Session p). u.state) e

  pub serve-Alike :
      (r : Rooms) (ls : List Bytes) (s t : Session p)
      → Alike s t
      → each visible (serve p cfg r ls s) ≡ each visible (serve p cfg r ls t)
  unfolding serve
  serve-Alike r [] s t e = ap done e
  serve-Alike r (l ∷ ls) s t e =
      then-Alike (serve_line p cfg s.state (classify (room r s.state) l) s) _ (serve p cfg r ls)
        (serve_line-Alike s.state (classify (room r s.state) l) s t e
          ∙ ap (λ x. each visible (serve_line p cfg x (classify (room r x) l) t))
              (state-Alike s t e))
        (λ s' t' e'. serve-Alike r ls s' t' e')

  then_same :
      (m : Effect (Session p)) (f g : Session p → Effect (Session p))
      → ((s : Session p) → f s ≡ g s)
      → (m >>= f) ≡ (m >>= g)
  then_same (done s) f g h = h s
  then_same wild f g h = refl
  then_same Effect.exhausted f g h = refl

  then_assoc :
      (m : Effect (Session p)) (f g : Session p → Effect (Session p))
      → ((m >>= f) >>= g) ≡ (m >>= λ s. f s >>= g)
  then_assoc (done s) f g = refl
  then_assoc wild f g = refl
  then_assoc Effect.exhausted f g = refl

  pub serve-append :
      (r : Rooms) (a b : List Bytes) (s : Session p)
      → serve p cfg r (a ++ b) s ≡ (serve p cfg r a s >>= serve p cfg r b)
  unfolding serve
  serve-append r [] b s = refl
  serve-append r (l ∷ a) b s =
      then_same (serve_line p cfg s.state (classify (room r s.state) l) s) _ _
        (λ t. serve-append r a b t)
      ∙ sym (then_assoc _ (serve p cfg r a) (serve p cfg r b))
