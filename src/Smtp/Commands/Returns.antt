-- ===== src/Smtp/Commands/Returns.antt =====
-- With an argument, every command comes to an end, and reads nothing behind its line.
use ervan.Base.{
  if_keeps, ℕ, zero, suc, ◌<◌, ◌≡◌, refl, Bool, true, false, not, ◌||◌, ◌==◌, leb, Option, none,
  some, Bytes, length, [], ◌∷◌, codes, arith,
}
use ervan.Common.Platform.{Platform}
use ervan.Parse.Results.{
  Outcome, ok, malformed, overrun, exhausted, Part, Buffered, EsmtpParam, IsSettled,
}
use ervan.Parse.{domain, path, reverse_path, esmtp_param}
use ervan.Parse.Settled.{
  domain-IsSettled, path-IsSettled, reverse_path-IsSettled, esmtp_param-IsSettled,
  length-esmtp_param,
}
use ervan.Smtp.Session.{Settings, Session, Effect, done, wild, ◌>>=◌}
use ervan.Smtp.Files.{open_files}
use ervan.Smtp.Commands.{
  Argument, text, accept, mail_param, mail_param_then, mail_params, greeted, ehlo_answer,
  helo_answer, ehlo, helo, mail_end, mail_reverse, mail_from, mail, rcpt_path, rcpt_to, rcpt,
  data_opened, data_command, rset, vrfy, noop, quit,
}

abbrev pub Returns {ℓ} : {A : Type ℓ} → Effect A → Type 0
Returns (done a) = Unit
Returns wild = ⊥
Returns Effect.exhausted = ⊥

mail_param_then-Returns :
    (next : Bytes → Effect Bool) (o : Outcome EsmtpParam)
    → IsSettled o
    → ((q : EsmtpParam) → o ≡ ok q → Returns (next q.rest))
    → Returns (mail_param_then next o)
unfolding mail_param_then
mail_param_then-Returns next (ok q) i h =
    if_keeps Returns (mail_param q) _ _ (λ _. h q refl) (λ _. tt)
mail_param_then-Returns next malformed i h = tt
mail_param_then-Returns next overrun i h = i
mail_param_then-Returns next exhausted i h = i

mail_params-Returns : (fuel : ℕ) (src : Bytes) → length src < fuel → Returns (mail_params fuel src)
unfolding mail_params
mail_params-Returns zero src h = absurd (omega arith)
mail_params-Returns (suc fuel) [] h = tt
mail_params-Returns (suc fuel) (c ∷ cs) h =
    if_keeps Returns (not (c == b' ')) _ _ (λ _. tt)
      λ _.
        mail_param_then-Returns (mail_params fuel) (esmtp_param cs) (esmtp_param-IsSettled cs)
          (λ q e. mail_params-Returns fuel q.rest (omega (arith, length-esmtp_param cs e)))

module _ (p : Platform) (cfg : Settings) (s : Session p) where
  greeted-Returns :
      (answer : Session p → Session p) (o : Outcome Buffered)
      → IsSettled o
      → Returns (greeted p cfg answer o s)
  unfolding greeted
  greeted-Returns answer (ok host) i = tt
  greeted-Returns answer malformed i = tt
  greeted-Returns answer overrun i = i
  greeted-Returns answer exhausted i = i

  pub ehlo-Returns : (sp : Bytes) → Returns (ehlo p cfg (text sp) s)
  unfolding ehlo
  ehlo-Returns sp = greeted-Returns (ehlo_answer p cfg) (domain sp) (domain-IsSettled sp)

  pub helo-Returns : (sp : Bytes) → Returns (helo p cfg (text sp) s)
  unfolding helo
  helo-Returns sp = greeted-Returns (helo_answer p cfg) (domain sp) (domain-IsSettled sp)

  mail_taken-Returns :
      (reverse : Part) (taken : Effect Bool)
      → Returns taken
      → Returns (taken >>= λ b. mail_end p cfg reverse b s)
  unfolding mail_end
  mail_taken-Returns reverse (done true) h = tt
  mail_taken-Returns reverse (done false) h = tt
  mail_taken-Returns reverse wild h = h
  mail_taken-Returns reverse Effect.exhausted h = h

  mail_reverse-Returns : (o : Outcome Part) → IsSettled o → Returns (mail_reverse p cfg o s)
  unfolding mail_reverse
  mail_reverse-Returns (ok reverse) i =
      if_keeps Returns (s.reverse_set || not s.session_begun) _ _ (λ _. tt)
        (λ _. mail_taken-Returns reverse _ (mail_params-Returns _ reverse.rest (omega arith)))
  mail_reverse-Returns malformed i = tt
  mail_reverse-Returns overrun i = i
  mail_reverse-Returns exhausted i = i

  mail_from-Returns : (o : Option Bytes) → Returns (mail_from p cfg o s)
  unfolding mail_from
  mail_from-Returns none = tt
  mail_from-Returns (some sp) =
      mail_reverse-Returns (reverse_path 0 sp) (reverse_path-IsSettled 0 refl sp)

  pub mail-Returns : (sp : Bytes) → Returns (mail p cfg (text sp) s)
  unfolding mail
  mail-Returns sp = mail_from-Returns (accept sp (codes "FROM:"))

  rcpt_path-Returns : (o : Outcome Part) → IsSettled o → Returns (rcpt_path p cfg o s)
  unfolding rcpt_path
  rcpt_path-Returns (ok path) i = tt
  rcpt_path-Returns malformed i = tt
  rcpt_path-Returns overrun i = i
  rcpt_path-Returns exhausted i = i

  rcpt_to-Returns : (o : Option Bytes) → Returns (rcpt_to p cfg o s)
  unfolding rcpt_to
  rcpt_to-Returns none = tt
  rcpt_to-Returns (some sp) =
      if_keeps Returns (not s.session_begun) _ _ (λ _. tt)
        (λ _.
          if_keeps Returns (leb s.max_forward_paths (length s.metadata.forward_paths)) _ _ (λ _. tt)
            (λ _. rcpt_path-Returns (path 0 sp) (path-IsSettled 0 refl sp)))

  pub rcpt-Returns : (sp : Bytes) → Returns (rcpt p cfg (text sp) s)
  unfolding rcpt
  rcpt-Returns sp = rcpt_to-Returns (accept sp (codes "TO:"))

  data_opened-Returns : (made : Bool) (t : Session p) → Returns (data_opened p cfg (made, t))
  unfolding data_opened
  data_opened-Returns true t = tt
  data_opened-Returns false t = tt

  pub data-Returns : (a : Argument) → Returns (data_command p cfg a s)
  unfolding data_command
  data-Returns a =
      if_keeps Returns (not s.reverse_set || length s.metadata.forward_paths == 0) _ _ (λ _. tt)
        (λ _. data_opened-Returns (open_files p cfg s).0 (open_files p cfg s).1)

  pub rset-Returns : (a : Argument) → Returns (rset p cfg a s)
  unfolding rset
  rset-Returns a = tt

  pub vrfy-Returns : (a : Argument) → Returns (vrfy p cfg a s)
  unfolding vrfy
  vrfy-Returns a = tt

  pub noop-Returns : (a : Argument) → Returns (noop p cfg a s)
  unfolding noop
  noop-Returns a = tt

  pub quit-Returns : (a : Argument) → Returns (quit p cfg a s)
  unfolding quit
  quit-Returns a = tt
