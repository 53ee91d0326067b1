-- ===== src/Smtp/Feed/Lines/Talks.antt =====
-- The lines of a whole session, as turns of the dialogue with its client.
use ervan.Base.{
  arith, Bool-cases, inl, inr, ◌||◌, true, false, Bool, ℕ, ◌+◌, ◌^◌, ◌≤◌, ◌<◌, ◌≡◌, refl, sym, ap,
  subst, ◌∙◌, Bool, Option, All, codes, Bytes, length, List, [], ◌∷◌, ◌++◌, append_assoc,
}
use ervan.Common.Platform.{Platform}
use ervan.Strings.Join.Lines.{lines}
use ervan.Strings.Join.Drains.{classify}
use ervan.Smtp.Session.{Settings, Session, Effect, done, wild, ◌>>=◌}
use ervan.Smtp.Session.Scratch.{over, each, visible}
use ervan.Smtp.Valid.{IsValid, EnsuresValid}
use ervan.Smtp.Dialogue.{View, view, event_of, Turn, IsReply, Turned, Turns}
use ervan.Smtp.Feed.{max_line_length, send_greeter, handle}
use ervan.Smtp.Feed.Ends.{send_greeter-IsValid}
use ervan.Smtp.Feed.Pieces.Message.{whole}
use ervan.Smtp.Feed.Lines.{Rooms, room, serve}
use ervan.Smtp.Dispatch.Returns.{is_short}
use ervan.Smtp.Commands.Returns.{Returns}
use ervan.Smtp.Feed.Lines.Turns.{classified-Returns, serve_line-Turns, serve_line-Ensures}
use ervan.Smtp.Feed.Lines.Rounds.{Ready}
use ervan.Smtp.Feed.Lines.Whole.{handle-serve}

-- The dialogue over these lines, in order; the sends of the last reply come first.
pub data Talk (cfg : Settings) (r : Rooms) : List Bytes → View → List Bytes → View → Type 0 where
  silence : {v : View} → Talk cfg r [] v [] v
  turn :
      {l : Bytes} {ls : List Bytes} {v u : View} (w : View) (code : Option ℕ)
      (sends more : List Bytes)
      → Turn cfg v (event_of v.state (classify (room r v.state) l)) code w
      → IsReply code sends
      → Talk cfg r ls w more u
      → Talk cfg r (l ∷ ls) v (more ++ sends) u

abbrev pub greeting : Settings → List Bytes
greeting cfg = codes " SMTP Ervan 2 ready\r\n" ∷ cfg.hostname ∷ codes "220 " ∷ []

-- Some line is of four bytes and names a command that needs an argument.
abbrev pub has_short : List Bytes → Bool
has_short [] = false
has_short (l ∷ ls) = is_short l || has_short ls

or_behind : (a b : Bool) → b ≡ true → (a || b) ≡ true
or_behind a b e = ground arith

module _ {p : Platform} (cfg : Settings) where
  module _ (r : Rooms) where
    -- What the client has seen of it, unless a handler reads behind its line.
    pub record Talked (ls : List Bytes) (s t : Session p) : Type 0 where
      pub sends : List Bytes
      pub talk : Talk cfg r ls (view s) sends (view t)
      pub sent : t.sent ≡ sends ++ s.sent

    abbrev pub Talks : List Bytes → Session p → Effect (Session p) → Type 0
    Talks ls s (done t) = Talked ls s t
    Talks ls s wild = has_short ls ≡ true
    Talks ls s Effect.exhausted = ⊥

    then_talked :
        (l : Bytes) (ls : List Bytes) (s t : Session p) (m : Effect (Session p))
        → Turned cfg (event_of s.state (classify (room r s.state) l)) s t
        → Talks ls t m
        → Talks (l ∷ ls) s m
    unfolding view
    then_talked l ls s t (done u) h k = record {
      sends = k.sends ++ h.sends;
      talk = turn (view t) h.code h.sends k.sends h.turn h.reply k.talk;
      sent = k.sent ∙ ap (◌++◌ k.sends) h.sent ∙ sym (append_assoc k.sends h.sends s.sent);
    }
    then_talked l ls s t wild h k = or_behind (is_short l) (has_short ls) k
    then_talked l ls s t Effect.exhausted h k = k

    after_turn :
        (was : Bool) (l : Bytes) (ls : List Bytes) (s : Session p) (m : Effect (Session p))
        → Turns cfg (event_of s.state (classify (room r s.state) l)) s m
        → EnsuresValid cfg was m
        → ((t : Session p) → IsValid cfg was t → Talks ls t (serve p cfg r ls t))
        → (is_short l ≡ false → Returns m)
        → Talks (l ∷ ls) s (m >>= serve p cfg r ls)
    after_turn was l ls s (done t) h v next returns = then_talked l ls s t _ h (next t v)
    after_turn was l ls s wild h v next returns = elim (Bool-cases (is_short l)) [
      | inl e ↦ rw e refl
      | inr e ↦ absurd (returns e)
    ]
    after_turn was l ls s Effect.exhausted h v next returns = v

    serve-Talks :
        (was : Bool) (ls : List Bytes) (s : Session p)
        → IsValid cfg was s
        → Talks ls s (serve p cfg r ls s)
    unfolding serve
    serve-Talks was [] s v = record { sends = []; talk = silence; sent = refl }
    serve-Talks was (l ∷ ls) s v =
        after_turn was l ls s _
          (serve_line-Turns cfg s.state (classify (room r s.state) l) s v.staged.rcpt_limit)
          (serve_line-Ensures cfg was s.state (classify (room r s.state) l) s refl v)
          (λ t w. serve-Talks was ls t w)
          (λ e. classified-Returns cfg s.state (room r s.state) l s e)

    same_talk :
        (ls : List Bytes) (s : Session p) (m n : Effect (Session p))
        → each visible m ≡ each visible n
        → Talks ls s n
        → Talks ls s m
    unfolding over view
    same_talk ls s (done t) (done u) e h =
        let same : visible t ≡ visible u = cc in
        record {
          sends = h.sends;
          talk =
              subst (λ (v : View). Talk cfg r ls (view s) h.sends v)
                (sym (ap (λ (x : Session p). view x) same)) h.talk;
          sent = ap (λ (x : Session p). x.sent) same ∙ h.sent;
        }
    same_talk ls s (done t) wild e h = absurd (cc)
    same_talk ls s (done t) Effect.exhausted e h = absurd (cc)
    same_talk ls s wild (done u) e h = absurd (cc)
    same_talk ls s wild wild e h = h
    same_talk ls s wild Effect.exhausted e h = absurd (cc)
    same_talk ls s Effect.exhausted (done u) e h = absurd (cc)
    same_talk ls s Effect.exhausted wild e h = absurd (cc)
    same_talk ls s Effect.exhausted Effect.exhausted e h = h

    -- The greeting, and then a dialogue.
    abbrev pub Converses : List Bytes → Session p → Effect (Session p) → Type 0
    Converses ls s (done t) =
        (sends : List Bytes) × Talk cfg r ls (view s) sends (view t)
        × (t.sent ≡ sends ++ (greeting cfg ++ s.sent))
    Converses ls s wild = has_short ls ≡ true
    Converses ls s Effect.exhausted = ⊥

    greeted :
        (ls : List Bytes) (s : Session p) (m : Effect (Session p))
        → Talks ls (send_greeter p cfg s) m
        → Converses ls s m
    unfolding view send_greeter
    greeted ls s (done t) h = (h.sends, h.talk, h.sent)
    greeted ls s wild h = h
    greeted ls s Effect.exhausted h = h

    -- A valid session whose buffers are ready for a line, the one for a message with at least 1000
    -- bytes: whatever pieces a client sends, none of them empty and less than 2 GiB in all, handle
    -- ends. It reads behind a line only if one of the lines that CR LF cuts the input into is of four
    -- bytes and names EHLO, HELO, MAIL or RCPT. Else the client has got the greeting, and then, for
    -- these lines, in order, the replies of a dialogue. A command gets one reply: 250, 354 or 221
    -- just where the transaction goes on as that command asks, a sender only behind EHLO or HELO and
    -- once, a recipient only behind EHLO or HELO and within the limit, data only with a sender and a
    -- recipient; or a code from 400 on, and the transaction is as it was. A command that is too long
    -- gets 500. A line of a message gets nothing, and its end 250, a code from 400 on or nothing, and
    -- no transaction is left. A closed session answers nothing.
    pub handle-Converses :
        (was : Bool) (pieces : List Bytes) (s : Session p)
        → max_line_length + 2 ≤ r.message
        → IsValid cfg was s
        → Ready p cfg r s []
        → All (λ a. 0 < length a) pieces
        → length (whole pieces) < 2 ^ 31
        → Converses (lines [] (whole pieces)) s (handle p cfg pieces s)
    handle-Converses was pieces s wide v ready some_left bound =
        let ls = lines [] (whole pieces) in
        greeted ls s _ (
          same_talk ls (send_greeter p cfg s) _ _
            (handle-serve p cfg r wide pieces s ready some_left bound)
            (serve-Talks was ls _ (send_greeter-IsValid cfg was s v)))
