-- ===== src/Smtp/Feed/Lines/Turns.antt =====
-- A line that a session serves, as a turn of the dialogue with its client.
use ervan.Base.{
  false, ltb, if_keeps, ℕ, ◌≡◌, refl, sym, subst, Bool, true, false, not, ◌||◌, ◌&&◌, if◌then◌else◌,
  none, some, Bytes, length, [], ◌∷◌,
}
use ervan.Common.Platform.{Platform}
use ervan.Strings.Join.Drains.{Report, line, too_long, classify}
use ervan.Smtp.Replies.{exceeded_line, smtp_msg_str}
use ervan.Smtp.Session.{State, cmd, in_data, closed, Settings, Session}
use ervan.Smtp.Valid.{IsValid, EnsuresValid, send-IsValid}
use ervan.Smtp.Files.Turns.{finish_data-Turned, abort_data-Turned}
use ervan.Smtp.Dispatch.Keeps.{call_command-Ensures}
use ervan.Smtp.Commands.Returns.{Returns}
use ervan.Smtp.Dispatch.Returns.{is_short, call_command-Returns}
use ervan.Smtp.Dispatch.Turns.{call_command-Turns}
use ervan.Smtp.Dialogue.{View, view, event_of, text, end, Turn, taken, cut, unheard, Turned, Turns}
use ervan.Smtp.Feed.{unstuff, is_end, count_line, write_line, take_line, end_message}
use ervan.Smtp.Feed.Keeps.{take_line-IsValid, end_message-IsValid}
use ervan.Smtp.Feed.Lines.{serve_line}

module _ {p : Platform} (cfg : Settings) where
  -- A line of a message shows the client nothing.
  write_line-shows :
      (at : ℕ) (l : Bytes) (s : Session p)
      → (view (write_line p cfg at l s) ≡ view s) × ((write_line p cfg at l s).sent ≡ s.sent)
  unfolding write_line view
  write_line-shows at l s =
      if_keeps (λ (u : Session p). (view u ≡ view s) × (u.sent ≡ s.sent))
        (s.line_too_long || s.data_too_long || s.data_error) _ _ (λ e. (refl, refl))
        (λ e. (refl, refl))

  take_line-Turned :
      (at : ℕ) (l : Bytes) (s : Session p) → Turned cfg text s (take_line p cfg at l s)
  unfolding take_line count_line view
  take_line-Turned at l s =
      let (shown, sent) = write_line-shows at (unstuff l) (count_line p cfg (unstuff l) s) in
      record {
        code = none;
        turn = subst (λ (v : View). Turn cfg (view s) text none v) (sym shown) taken;
        sends = [];
        reply = refl;
        sent = sent;
      }

  end_message-Turned : (s : Session p) → Turned cfg end s (end_message p cfg s)
  unfolding end_message
  end_message-Turned s =
      if_keeps (Turned cfg end s) (not s.line_too_long && not s.data_too_long) _ _
        (λ _. finish_data-Turned p cfg s) (λ _. abort_data-Turned p cfg s)

  end_or_text :
      (b : Bool) (l : Bytes) (s : Session p)
      → Turned cfg
          (if b then end else text)
          s
          (if b then end_message p cfg s else take_line p cfg (length l) l s)
  end_or_text true l s = end_message-Turned s
  end_or_text false l s = take_line-Turned (length l) l s

  pub serve_line-Turns :
      (x : State) (r : Report) (s : Session p)
      → s.max_forward_paths ≡ cfg.max_rcpt
      → Turns cfg (event_of x r) s (serve_line p cfg x r s)
  unfolding serve_line view exceeded_line smtp_msg_str
  serve_line-Turns cmd (line l) s limit = call_command-Turns cfg s limit l
  serve_line-Turns cmd too_long s limit = record {
    code = some 500;
    turn = cut;
    sends = exceeded_line ∷ [];
    reply = (refl, refl);
    sent = refl;
  }
  serve_line-Turns in_data (line l) s limit = end_or_text (is_end l) l s
  serve_line-Turns in_data too_long s limit = record {
    code = none;
    turn = taken;
    sends = [];
    reply = refl;
    sent = refl;
  }
  serve_line-Turns closed r s limit = record {
    code = none;
    turn = unheard;
    sends = [];
    reply = refl;
    sent = refl;
  }

  pub serve_line-Ensures :
      (was : Bool) (x : State) (r : Report) (s : Session p)
      → s.state ≡ x
      → IsValid cfg was s
      → EnsuresValid cfg was (serve_line p cfg x r s)
  unfolding serve_line
  serve_line-Ensures was cmd (line l) s e v = call_command-Ensures cfg was l s e v
  serve_line-Ensures was cmd too_long s e v = send-IsValid cfg was exceeded_line s v
  serve_line-Ensures was in_data (line l) s e v =
      if_keeps (IsValid cfg was) (is_end l) _ _ (λ _. end_message-IsValid cfg was s v)
        (λ _. take_line-IsValid cfg was (length l) l s v)
  serve_line-Ensures was in_data too_long s e v = record {
    staged = v.staged;
    error = record { kept = v.error.kept };
  }
  serve_line-Ensures was closed r s e v = v

  serve_line-Returns :
      (x : State) (l : Bytes) (s : Session p)
      → is_short l ≡ false
      → Returns (serve_line p cfg x (line l) s)
  unfolding serve_line
  serve_line-Returns cmd l s e = call_command-Returns p cfg l s e
  serve_line-Returns in_data l s e = tt
  serve_line-Returns closed l s e = tt

  too_long-Returns : (x : State) (s : Session p) → Returns (serve_line p cfg x too_long s)
  unfolding serve_line
  too_long-Returns cmd s = tt
  too_long-Returns in_data s = tt
  too_long-Returns closed s = tt

  -- A line that is not so short makes no handler read behind it.
  pub classified-Returns :
      (x : State) (capacity : ℕ) (l : Bytes) (s : Session p)
      → is_short l ≡ false
      → Returns (serve_line p cfg x (classify capacity l) s)
  classified-Returns x capacity l s e =
      if_keeps (λ r. Returns (serve_line p cfg x r s)) (ltb capacity (length l)) too_long (line l)
        (λ _. too_long-Returns x s) (λ _. serve_line-Returns x l s e)
