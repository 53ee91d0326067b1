-- ===== src/Smtp/Commands/Turns.antt =====
-- The commands, as a client sees them.
pub mod Envelope
use ervan.Base.{
  if_keeps, ℕ, suc, ◌+◌, ◌-◌, ◌≤◌, ◌<◌, ◌≡◌, refl, sym, ap, subst, ◌∙◌, Bool, true, false, not,
  ◌||◌, ◌==◌, leb, leb_false→lt, if◌then◌else◌, Option, none, some, Bytes, codes, length, List, [],
  ◌∷◌, ◌++◌, arith,
}
use ervan.Common.Platform.{Platform}
use ervan.Parse.Results.{Outcome, ok, malformed, overrun, exhausted, Part, Buffered, IsSettled}
use ervan.Parse.{domain, path, reverse_path, address}
use ervan.Parse.Settled.{domain-IsSettled, path-IsSettled, reverse_path-IsSettled}
use ervan.Smtp.Replies
use ervan.Smtp.Replies.{
  smtp_msg_str, start_data, local_error, too_many_recipients, invalid_parameters, not_implemented,
  bad_sequence,
}
use ervan.Smtp.Session.{in_data, Settings, Session, Effect, done, wild, ◌>>=◌, send, reset}
use ervan.Smtp.Files.{open_files}
use ervan.Smtp.Files.Turns.{open_files-shows}
use ervan.Smtp.Dispatch.{
  Command, ehlo_cmd, helo_cmd, mail_cmd, rcpt_cmd, data_cmd, rset_cmd, vrfy_cmd, noop_cmd, quit_cmd,
}
use ervan.Smtp.Dialogue.{
  Event, command, View, view, idle, Turn, refused, code_of, IsReply, Turned, Turns,
}
use ervan.Smtp.Dialogue
use ervan.Smtp.Commands.{
  Argument, text, nowhere, accept, mail_params, begun, greeted, ehlo_answer, helo_answer, ehlo,
  helo, mail_end, mail_reverse, mail_from, mail, rcpt_path, rcpt_to, rcpt, data_opened,
  data_command, rset, vrfy, noop, quit, with_sender, with_recipient,
}
use ervan.Smtp.Commands.Stages.{sender_there}
use ervan.Smtp.Commands.Keeps.{Finishes, mail_params-Finishes, sender_test, not-false}

module _ {p : Platform} (cfg : Settings) where
  -- A refusal, which changes nothing.
  pub refusal :
      (o : Option Command) (code : ℕ) (bytes : Bytes) (s : Session p)
      → 400 ≤ code
      → IsReply (some code) (bytes ∷ [])
      → Turned cfg (command o) s (send p bytes s)
  unfolding view
  refusal o code bytes s big reply = record {
    code = some code;
    turn = refused o code big;
    sends = bytes ∷ [];
    reply = reply;
    sent = refl;
  }

  pub bad_parameters :
      (c : Command) (s : Session p) → Turned cfg (command (some c)) s (send p invalid_parameters s)
  unfolding invalid_parameters smtp_msg_str
  bad_parameters c s = refusal (some c) 501 invalid_parameters s (omega arith) (refl, refl)

  pub wrong_place :
      (c : Command) (s : Session p) → Turned cfg (command (some c)) s (send p bad_sequence s)
  unfolding bad_sequence smtp_msg_str
  wrong_place c s = refusal (some c) 503 bad_sequence s (omega arith) (refl, refl)

  ehlo_done :
      (host : Bytes) (s : Session p)
      → Turned cfg (command (some ehlo_cmd)) s (ehlo_answer p cfg (begun p cfg host s))
  unfolding ehlo_answer view reset
  ehlo_done host s = record {
    code = some 250;
    turn = Turn.ehlo host;
    sends =
        codes "250 8BITMIME\r\n" ∷ codes " at your service\r\n" ∷ cfg.hostname ∷ codes "250-" ∷ [];
    reply = (refl, refl);
    sent = refl;
  }

  helo_done :
      (host : Bytes) (s : Session p)
      → Turned cfg (command (some helo_cmd)) s (helo_answer p cfg (begun p cfg host s))
  unfolding helo_answer view reset
  helo_done host s = record {
    code = some 250;
    turn = Turn.helo host;
    sends = codes " at your service\r\n" ∷ cfg.hostname ∷ codes "250 " ∷ [];
    reply = (refl, refl);
    sent = refl;
  }

  greeted-Turns :
      (c : Command) (answer : Session p → Session p) (o : Outcome Buffered) (s : Session p)
      → ((host : Bytes) → Turned cfg (command (some c)) s (answer (begun p cfg host s)))
      → IsSettled o
      → Turns cfg (command (some c)) s (greeted p cfg answer o s)
  unfolding greeted
  greeted-Turns c answer (ok host) s h i = h host.body
  greeted-Turns c answer malformed s h i = bad_parameters c s
  greeted-Turns c answer overrun s h i = absurd i
  greeted-Turns c answer exhausted s h i = absurd i

  pub ehlo-Turns :
      (a : Argument) (s : Session p) → Turns cfg (command (some ehlo_cmd)) s (ehlo p cfg a s)
  unfolding ehlo
  ehlo-Turns (text sp) s =
      greeted-Turns ehlo_cmd (ehlo_answer p cfg) (domain sp) s (λ host. ehlo_done host s)
        (domain-IsSettled sp)
  ehlo-Turns nowhere s = tt

  pub helo-Turns :
      (a : Argument) (s : Session p) → Turns cfg (command (some helo_cmd)) s (helo p cfg a s)
  unfolding helo
  helo-Turns (text sp) s =
      greeted-Turns helo_cmd (helo_answer p cfg) (domain sp) s (λ host. helo_done host s)
        (domain-IsSettled sp)
  helo-Turns nowhere s = tt

  pub rset-Turns :
      (a : Argument) (s : Session p) → Turns cfg (command (some rset_cmd)) s (rset p cfg a s)
  unfolding rset view reset Replies.ok smtp_msg_str
  rset-Turns a s = record {
    code = some 250;
    turn = Turn.rset;
    sends = Replies.ok ∷ [];
    reply = (refl, refl);
    sent = refl;
  }

  pub vrfy-Turns :
      (a : Argument) (s : Session p) → Turns cfg (command (some vrfy_cmd)) s (vrfy p cfg a s)
  unfolding vrfy not_implemented smtp_msg_str
  vrfy-Turns a s = refusal (some vrfy_cmd) 502 not_implemented s (omega arith) (refl, refl)

  pub noop-Turns :
      (a : Argument) (s : Session p) → Turns cfg (command (some noop_cmd)) s (noop p cfg a s)
  unfolding noop view Replies.ok smtp_msg_str
  noop-Turns a s = record {
    code = some 250;
    turn = Turn.noop;
    sends = Replies.ok ∷ [];
    reply = (refl, refl);
    sent = refl;
  }

  pub quit-Turns :
      (a : Argument) (s : Session p) → Turns cfg (command (some quit_cmd)) s (quit p cfg a s)
  unfolding quit view
  quit-Turns a s = record {
    code = some 221;
    turn = Turn.quit;
    sends = codes " do widzenia\r\n" ∷ cfg.hostname ∷ codes "221 " ∷ [];
    reply = (refl, refl);
    sent = refl;
  }
