-- ===== src/Smtp/Commands/Buffers.antt =====
-- The commands leave the buffers alone, and do not read them.
use ervan.Base.{
  if_over, suc, refl, ap, ◌∙◌, Bool, true, false, not, ◌||◌, ◌==◌, leb, Option, none, some, Bytes,
  length, codes,
}
use ervan.Common.Platform.{Platform}
use ervan.Parse.Results.{Outcome, ok, malformed, overrun, exhausted, Part, Buffered}
use ervan.Parse.{domain, path, reverse_path}
use ervan.Smtp.Session.{Settings, Session, Effect, done, wild, ◌>>=◌, reset}
use ervan.Smtp.Session.Scratch.{Scratch, over, each, Ignores, Passes}
use ervan.Smtp.Files.{open_files}
use ervan.Smtp.Files.Buffers.{open_files-Ignores}
use ervan.Smtp.Commands.{
  Argument, text, nowhere, accept, mail_params, greeted, ehlo_answer, helo_answer, ehlo, helo,
  mail_end, mail_reverse, mail_from, mail, rcpt_path, rcpt_to, rcpt, data_opened, data_command,
  rset, vrfy, noop, quit,
}

module _ (p : Platform) (cfg : Settings) (x : Scratch) where
  greeted-Passes :
      (answer : Session p → Session p) (o : Outcome Buffered)
      → Ignores p x answer
      → Passes p x (greeted p cfg answer o)
  unfolding greeted over reset
  greeted-Passes answer (ok host) h s = ap done (h _)
  greeted-Passes answer malformed h s = refl
  greeted-Passes answer overrun h s = refl
  greeted-Passes answer exhausted h s = refl

  pub ehlo-Passes : (a : Argument) → Passes p x (ehlo p cfg a)
  unfolding ehlo ehlo_answer over
  ehlo-Passes (text sp) s = greeted-Passes (ehlo_answer p cfg) (domain sp) (λ t. refl) s
  ehlo-Passes nowhere s = refl

  pub helo-Passes : (a : Argument) → Passes p x (helo p cfg a)
  unfolding helo helo_answer over
  helo-Passes (text sp) s = greeted-Passes (helo_answer p cfg) (domain sp) (λ t. refl) s
  helo-Passes nowhere s = refl

  mail_end-Passes : (reverse : Part) (taken : Bool) → Passes p x (mail_end p cfg reverse taken)
  unfolding mail_end over
  mail_end-Passes reverse true s = refl
  mail_end-Passes reverse false s = refl

  taken-Passes :
      (reverse : Part) (taken : Effect Bool)
      → Passes p x (λ s. taken >>= λ b. mail_end p cfg reverse b s)
  taken-Passes reverse (done b) s = mail_end-Passes reverse b s
  taken-Passes reverse wild s = refl
  taken-Passes reverse Effect.exhausted s = refl

  mail_reverse-Passes : (o : Outcome Part) → Passes p x (mail_reverse p cfg o)
  unfolding mail_reverse over
  mail_reverse-Passes (ok reverse) s =
      if_over (each (over x)) (s.reverse_set || not s.session_begun) refl
        (taken-Passes reverse (mail_params (suc (length reverse.rest)) reverse.rest) s)
  mail_reverse-Passes malformed s = refl
  mail_reverse-Passes overrun s = refl
  mail_reverse-Passes exhausted s = refl

  mail_from-Passes : (o : Option Bytes) → Passes p x (mail_from p cfg o)
  unfolding mail_from over
  mail_from-Passes none s = refl
  mail_from-Passes (some sp) s = mail_reverse-Passes (reverse_path 0 sp) s

  pub mail-Passes : (a : Argument) → Passes p x (mail p cfg a)
  unfolding mail
  mail-Passes (text sp) s = mail_from-Passes (accept sp (codes "FROM:")) s
  mail-Passes nowhere s = refl

  rcpt_path-Passes : (o : Outcome Part) → Passes p x (rcpt_path p cfg o)
  unfolding rcpt_path over
  rcpt_path-Passes (ok path) s = refl
  rcpt_path-Passes malformed s = refl
  rcpt_path-Passes overrun s = refl
  rcpt_path-Passes exhausted s = refl

  rcpt_to-Passes : (o : Option Bytes) → Passes p x (rcpt_to p cfg o)
  unfolding rcpt_to over
  rcpt_to-Passes none s = refl
  rcpt_to-Passes (some sp) s = if_over (each (over x)) (not s.session_begun) refl (
      if_over (each (over x)) (leb s.max_forward_paths (length s.metadata.forward_paths)) refl
        (rcpt_path-Passes (path 0 sp) s))

  pub rcpt-Passes : (a : Argument) → Passes p x (rcpt p cfg a)
  unfolding rcpt
  rcpt-Passes (text sp) s = rcpt_to-Passes (accept sp (codes "TO:")) s
  rcpt-Passes nowhere s = refl

  data_opened-Passes : (made : Bool) → Passes p x (λ s. data_opened p cfg (made, s))
  unfolding data_opened over
  data_opened-Passes true s = refl
  data_opened-Passes false s = refl

  pub data-Passes : (a : Argument) → Passes p x (data_command p cfg a)
  unfolding data_command over
  data-Passes a s =
      if_over (each (over x)) (not s.reverse_set || length s.metadata.forward_paths == 0) refl (
        ap (data_opened p cfg) (open_files-Ignores p cfg x s)
        ∙ data_opened-Passes (open_files p cfg s).0 (open_files p cfg s).1)

  pub rset-Passes : (a : Argument) → Passes p x (rset p cfg a)
  unfolding rset over reset
  rset-Passes a s = refl

  pub vrfy-Passes : (a : Argument) → Passes p x (vrfy p cfg a)
  unfolding vrfy over
  vrfy-Passes a s = refl

  pub noop-Passes : (a : Argument) → Passes p x (noop p cfg a)
  unfolding noop over
  noop-Passes a s = refl

  pub quit-Passes : (a : Argument) → Passes p x (quit p cfg a)
  unfolding quit over
  quit-Passes a s = refl
