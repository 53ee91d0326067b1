-- ===== src/Smtp/Commands/Turns/Envelope.antt =====
-- MAIL, RCPT and DATA, as a client sees them.
use ervan.Base.{
  if_keeps, ◌<◌, ◌≡◌, refl, sym, ap, subst, Bool, true, false, not, ◌||◌, ◌==◌, leb, leb_false→lt,
  if◌then◌else◌, Option, none, some, Bytes, codes, length, [], ◌∷◌, arith,
}
use ervan.Common.Platform.{Platform}
use ervan.Parse.Results.{Outcome, ok, malformed, overrun, exhausted, Part, IsSettled}
use ervan.Parse.{path, reverse_path, address}
use ervan.Parse.Settled.{path-IsSettled, reverse_path-IsSettled}
use ervan.Smtp.Replies
use ervan.Smtp.Replies.{
  smtp_msg_str, start_data, local_error, too_many_recipients, invalid_parameters, not_implemented,
  bad_sequence,
}
use ervan.Smtp.Session.{in_data, Settings, Session, Effect, done, wild, ◌>>=◌, send}
use ervan.Smtp.Files.{open_files}
use ervan.Smtp.Files.Turns.{open_files-shows}
use ervan.Smtp.Dispatch.{mail_cmd, rcpt_cmd, data_cmd}
use ervan.Smtp.Dialogue.{command, View, view, Turn, refused, Turned, Turns}
use ervan.Smtp.Commands.{
  Argument, text, nowhere, accept, mail_end, mail_reverse, mail_from, mail, rcpt_path, rcpt_to,
  rcpt, data_opened, data_command, with_sender,
}
use ervan.Smtp.Commands.Turns.{refusal, bad_parameters, wrong_place}
use ervan.Smtp.Commands.Stages.{sender_there}
use ervan.Smtp.Commands.Keeps.{Finishes, mail_params-Finishes, sender_test, not-false}

no_sender : (a b : Bool) → (a || not b) ≡ false → a ≡ false
no_sender a b h = ground arith

module _ {p : Platform} (cfg : Settings) where
  mail_end-Turned :
      (sender : Bytes) (s : Session p)
      → (s.reverse_set || not s.session_begun) ≡ false
      → Turned cfg (command (some mail_cmd)) s (send p Replies.ok (with_sender p cfg sender s))
  unfolding view Replies.ok smtp_msg_str
  mail_end-Turned sender s e = record {
    code = some 250;
    turn = Turn.mail sender (sender_test s.reverse_set s.session_begun e) (
        ap (λ b. if b then some s.metadata.reverse_path else none)
          (no_sender s.reverse_set s.session_begun e));
    sends = Replies.ok ∷ [];
    reply = (refl, refl);
    sent = refl;
  }

  mail_taken-Turns :
      (reverse : Part) (taken : Effect Bool) (s : Session p)
      → (s.reverse_set || not s.session_begun) ≡ false
      → Finishes taken
      → Turns cfg (command (some mail_cmd)) s (taken >>= λ b. mail_end p cfg reverse b s)
  unfolding mail_end
  mail_taken-Turns reverse (done true) s e f = mail_end-Turned (address reverse.mailbox) s e
  mail_taken-Turns reverse (done false) s e f = bad_parameters cfg mail_cmd s
  mail_taken-Turns reverse wild s e f = tt
  mail_taken-Turns reverse Effect.exhausted s e f = absurd f

  mail_reverse-Turns :
      (o : Outcome Part) (s : Session p)
      → IsSettled o
      → Turns cfg (command (some mail_cmd)) s (mail_reverse p cfg o s)
  unfolding mail_reverse
  mail_reverse-Turns (ok reverse) s i =
      if_keeps (Turns cfg (command (some mail_cmd)) s) (s.reverse_set || not s.session_begun) _ _
        (λ _. wrong_place cfg mail_cmd s)
        (λ e. mail_taken-Turns reverse _ s e (mail_params-Finishes _ reverse.rest (omega arith)))
  mail_reverse-Turns malformed s i = bad_parameters cfg mail_cmd s
  mail_reverse-Turns overrun s i = absurd i
  mail_reverse-Turns exhausted s i = absurd i

  mail_from-Turns :
      (o : Option Bytes) (s : Session p)
      → Turns cfg (command (some mail_cmd)) s (mail_from p cfg o s)
  unfolding mail_from
  mail_from-Turns none s = bad_parameters cfg mail_cmd s
  mail_from-Turns (some sp) s =
      mail_reverse-Turns (reverse_path 0 sp) s (reverse_path-IsSettled 0 refl sp)

  pub mail-Turns :
      (a : Argument) (s : Session p) → Turns cfg (command (some mail_cmd)) s (mail p cfg a s)
  unfolding mail
  mail-Turns (text sp) s = mail_from-Turns (accept sp (codes "FROM:")) s
  mail-Turns nowhere s = tt

  rcpt_path-Turns :
      (o : Outcome Part) (s : Session p)
      → s.session_begun ≡ true
      → length s.metadata.forward_paths < cfg.max_rcpt
      → IsSettled o
      → Turns cfg (command (some rcpt_cmd)) s (rcpt_path p cfg o s)
  unfolding rcpt_path view Replies.ok smtp_msg_str
  rcpt_path-Turns (ok path) s b room i = record {
    code = some 250;
    turn = Turn.rcpt (address path.mailbox) b room;
    sends = Replies.ok ∷ [];
    reply = (refl, refl);
    sent = refl;
  }
  rcpt_path-Turns malformed s b room i = bad_parameters cfg rcpt_cmd s
  rcpt_path-Turns overrun s b room i = absurd i
  rcpt_path-Turns exhausted s b room i = absurd i

  rcpt_to-Turns :
      (o : Option Bytes) (s : Session p)
      → s.max_forward_paths ≡ cfg.max_rcpt
      → Turns cfg (command (some rcpt_cmd)) s (rcpt_to p cfg o s)
  unfolding rcpt_to too_many_recipients smtp_msg_str
  rcpt_to-Turns none s limit = bad_parameters cfg rcpt_cmd s
  rcpt_to-Turns (some sp) s limit =
      if_keeps (Turns cfg (command (some rcpt_cmd)) s) (not s.session_begun) _ _
        (λ _. wrong_place cfg rcpt_cmd s)
        (λ b.
          if_keeps (Turns cfg (command (some rcpt_cmd)) s)
            (leb s.max_forward_paths (length s.metadata.forward_paths)) _ _
            (λ _. refusal cfg (some rcpt_cmd) 452 too_many_recipients s (omega arith) (refl, refl))
            (λ room.
              let more = leb_false→lt s.max_forward_paths (length s.metadata.forward_paths) room in
              rcpt_path-Turns (path 0 sp) s (not-false s.session_begun b) (omega arith)
                (path-IsSettled 0 refl sp)))

  pub rcpt-Turns :
      (a : Argument) (s : Session p)
      → s.max_forward_paths ≡ cfg.max_rcpt
      → Turns cfg (command (some rcpt_cmd)) s (rcpt p cfg a s)
  unfolding rcpt
  rcpt-Turns (text sp) s limit = rcpt_to-Turns (accept sp (codes "TO:")) s limit
  rcpt-Turns nowhere s limit = tt

  data_opened-Turns :
      (s s' : Session p) (made : Bool)
      → view s' ≡ view s
      → s'.sent ≡ s.sent
      → s.reverse_set ≡ true
      → 0 < length s.metadata.forward_paths
      → Turns cfg (command (some data_cmd)) s (data_opened p cfg (made, s'))
  unfolding data_opened view start_data local_error smtp_msg_str
  data_opened-Turns s s' true e f r n = record {
    code = some 354;
    turn =
        subst (λ (v : View). Turn cfg (view s) (command (some data_cmd)) (some 354) v)
          (ap (λ (v : View). record v { state = in_data }) (sym e))
          (Turn.data_begins s.metadata.reverse_path
            (ap (λ b. if b then some s.metadata.reverse_path else none) r) n);
    sends = start_data ∷ [];
    reply = (refl, refl);
    sent = ap (λ x. start_data ∷ x) f;
  }
  data_opened-Turns s s' false e f r n = record {
    code = some 451;
    turn =
        subst (λ (v : View). Turn cfg (view s) (command (some data_cmd)) (some 451) v) (sym e)
          (refused (some data_cmd) 451 (omega arith));
    sends = local_error ∷ [];
    reply = (refl, refl);
    sent = ap (λ x. local_error ∷ x) f;
  }

  pub data-Turns :
      (a : Argument) (s : Session p)
      → Turns cfg (command (some data_cmd)) s (data_command p cfg a s)
  unfolding data_command
  data-Turns a s =
      if_keeps (Turns cfg (command (some data_cmd)) s)
        (not s.reverse_set || length s.metadata.forward_paths == 0) _ _
        (λ _. wrong_place cfg data_cmd s)
        (λ e.
          let (r, n) = sender_there s.reverse_set (length s.metadata.forward_paths) e in
          let (shown, sent) = open_files-shows p cfg s in
          data_opened-Turns s (open_files p cfg s).1 (open_files p cfg s).0 shown sent r n)
