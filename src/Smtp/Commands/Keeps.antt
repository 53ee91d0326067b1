-- ===== src/Smtp/Commands/Keeps.antt =====
-- Every command keeps the session consistent, and keeps an error that an earlier message has met.
use ervan.Base.{
  if_keeps, ℕ, zero, suc, ◌<◌, ◌≡◌, refl, Bool, true, false, not, ◌||◌, ◌==◌, leb, leb_false→lt,
  Option, none, some, Bytes, length, length-append, [], ◌∷◌, codes, arith,
}
use ervan.Common.Platform.{Platform}
use ervan.Parse.Results.{
  Outcome, ok, malformed, overrun, exhausted, Part, Buffered, EsmtpParam, IsSettled,
}
use ervan.Parse.{domain, path, reverse_path, address, esmtp_param}
use ervan.Parse.Settled.{
  domain-IsSettled, path-IsSettled, reverse_path-IsSettled, length-esmtp_param,
}
use ervan.Smtp.Replies.{invalid_parameters, bad_sequence, too_many_recipients}
use ervan.Smtp.Session.{cmd, Settings, Session, Effect, done, wild, reset, ◌>>=◌}
use ervan.Smtp.Valid.{IsValid, EnsuresValid, send-IsValid}
use ervan.Smtp.Commands.{
  Argument, text, nowhere, accept, mail_param, mail_param_then, mail_params, begun, greeted,
  ehlo_answer, helo_answer, ehlo, helo, with_sender, mail_end, mail_reverse, mail_from, mail,
  with_recipient, rcpt_path, rcpt_to, rcpt,
}

-- Behind the test of the sequence.
pub sender_test : (a b : Bool) → (a || not b) ≡ false → b ≡ true
sender_test a b h = ground arith

pub not-false : (b : Bool) → not b ≡ false → b ≡ true
not-false b h = ground arith

abbrev pub Finishes {ℓ} : {A : Type ℓ} → Effect A → Type 0
Finishes (done a) = Unit
Finishes wild = Unit
Finishes Effect.exhausted = ⊥

mail_param_then-Finishes :
    (next : Bytes → Effect Bool) (o : Outcome EsmtpParam)
    → ((q : EsmtpParam) → o ≡ ok q → Finishes (next q.rest))
    → Finishes (mail_param_then next o)
unfolding mail_param_then
mail_param_then-Finishes next (ok q) h =
    if_keeps Finishes (mail_param q) _ _ (λ _. h q refl) (λ _. tt)
mail_param_then-Finishes next malformed h = tt
mail_param_then-Finishes next overrun h = tt
mail_param_then-Finishes next exhausted h = tt

pub mail_params-Finishes :
    (fuel : ℕ) (src : Bytes) → length src < fuel → Finishes (mail_params fuel src)
unfolding mail_params
mail_params-Finishes zero src h = absurd (omega arith)
mail_params-Finishes (suc fuel) [] h = tt
mail_params-Finishes (suc fuel) (c ∷ cs) h =
    if_keeps Finishes (not (c == b' ')) _ _ (λ _. tt)
      λ _.
        mail_param_then-Finishes (mail_params fuel) (esmtp_param cs)
          (λ q e. mail_params-Finishes fuel q.rest (omega (arith, length-esmtp_param cs e)))

module _ {p : Platform} (cfg : Settings) (was : Bool) where
  abbrev Valid : Session p → Type 0
  Valid = IsValid cfg was

  abbrev Ensures : Effect (Session p) → Type 0
  Ensures = EnsuresValid cfg was

  begun-IsValid : (from : Bytes) (s : Session p) → Valid s → Valid (begun p cfg from s)
  unfolding reset
  begun-IsValid from s v = record {
    staged = record {
      sender_begun = λ h. refl;
      recipients_begun = λ h. refl;
      recipients_bound = omega arith;
      sender_in_data = λ h. cc;
      recipients_in_data = λ h. cc;
      data_limit = refl;
      rcpt_limit = refl;
    };
    error = record { kept = v.error.kept };
  }

  greeted-Ensures :
      (answer : Session p → Session p) (o : Outcome Buffered) (s : Session p)
      → ((t : Session p) → Valid t → Valid (answer t))
      → IsSettled o
      → Valid s
      → Ensures (greeted p cfg answer o s)
  unfolding greeted
  greeted-Ensures answer (ok host) s a i v = a _ (begun-IsValid host.body s v)
  greeted-Ensures answer malformed s a i v = send-IsValid cfg was invalid_parameters s v
  greeted-Ensures answer overrun s a i v = absurd i
  greeted-Ensures answer exhausted s a i v = absurd i

  ehlo_answer-IsValid : (s : Session p) → Valid s → Valid (ehlo_answer p cfg s)
  unfolding ehlo_answer
  ehlo_answer-IsValid s v =
      send-IsValid cfg was _ _
        (send-IsValid cfg was _ _ (send-IsValid cfg was _ _ (send-IsValid cfg was _ s v)))

  helo_answer-IsValid : (s : Session p) → Valid s → Valid (helo_answer p cfg s)
  unfolding helo_answer
  helo_answer-IsValid s v =
      send-IsValid cfg was _ _ (send-IsValid cfg was _ _ (send-IsValid cfg was _ s v))

  pub ehlo-Ensures : (a : Argument) (s : Session p) → Valid s → Ensures (ehlo p cfg a s)
  unfolding ehlo
  ehlo-Ensures (text sp) s v =
      greeted-Ensures (ehlo_answer p cfg) (domain sp) s ehlo_answer-IsValid (domain-IsSettled sp) v
  ehlo-Ensures nowhere s v = tt

  pub helo-Ensures : (a : Argument) (s : Session p) → Valid s → Ensures (helo p cfg a s)
  unfolding helo
  helo-Ensures (text sp) s v =
      greeted-Ensures (helo_answer p cfg) (domain sp) s helo_answer-IsValid (domain-IsSettled sp) v
  helo-Ensures nowhere s v = tt

  with_sender-IsValid :
      (sender : Bytes) (s : Session p)
      → s.state ≡ cmd
      → s.session_begun ≡ true
      → Valid s
      → Valid (with_sender p cfg sender s)
  with_sender-IsValid sender s c b v = record {
    staged = record {
      sender_begun = λ h. b;
      recipients_begun = λ h. b;
      recipients_bound = omega arith;
      sender_in_data = λ h. refl;
      recipients_in_data = λ h. cc;
      data_limit = v.staged.data_limit;
      rcpt_limit = v.staged.rcpt_limit;
    };
    error = record { kept = v.error.kept };
  }

  mail_end-Ensures :
      (reverse : Part) (taken : Bool) (s : Session p)
      → s.state ≡ cmd
      → s.session_begun ≡ true
      → Valid s
      → Ensures (mail_end p cfg reverse taken s)
  unfolding mail_end
  mail_end-Ensures reverse true s c b v =
      send-IsValid cfg was _ _ (with_sender-IsValid (address reverse.mailbox) s c b v)
  mail_end-Ensures reverse false s c b v = send-IsValid cfg was invalid_parameters s v

  mail_taken-Ensures :
      (reverse : Part) (taken : Effect Bool) (s : Session p)
      → s.state ≡ cmd
      → s.session_begun ≡ true
      → Finishes taken
      → Valid s
      → Ensures (taken >>= λ b. mail_end p cfg reverse b s)
  mail_taken-Ensures reverse (done b) s c h f v = mail_end-Ensures reverse b s c h v
  mail_taken-Ensures reverse wild s c h f v = tt
  mail_taken-Ensures reverse Effect.exhausted s c h f v = absurd f

  mail_reverse-Ensures :
      (o : Outcome Part) (s : Session p)
      → IsSettled o
      → s.state ≡ cmd
      → Valid s
      → Ensures (mail_reverse p cfg o s)
  unfolding mail_reverse
  mail_reverse-Ensures (ok reverse) s i c v =
      if_keeps Ensures (s.reverse_set || not s.session_begun) _ _
        (λ _. send-IsValid cfg was bad_sequence s v)
        (λ e.
          mail_taken-Ensures reverse _ s c (sender_test s.reverse_set s.session_begun e)
            (mail_params-Finishes _ reverse.rest (omega arith)) v)
  mail_reverse-Ensures malformed s i c v = send-IsValid cfg was invalid_parameters s v
  mail_reverse-Ensures overrun s i c v = absurd i
  mail_reverse-Ensures exhausted s i c v = absurd i

  mail_from-Ensures :
      (o : Option Bytes) (s : Session p) → s.state ≡ cmd → Valid s → Ensures (mail_from p cfg o s)
  unfolding mail_from
  mail_from-Ensures none s c v = send-IsValid cfg was invalid_parameters s v
  mail_from-Ensures (some sp) s c v =
      mail_reverse-Ensures (reverse_path 0 sp) s (reverse_path-IsSettled 0 refl sp) c v

  pub mail-Ensures :
      (a : Argument) (s : Session p) → s.state ≡ cmd → Valid s → Ensures (mail p cfg a s)
  unfolding mail
  mail-Ensures (text sp) s c v = mail_from-Ensures (accept sp (codes "FROM:")) s c v
  mail-Ensures nowhere s c v = tt

  with_recipient-IsValid :
      (recipient : Bytes) (s : Session p)
      → s.state ≡ cmd
      → s.session_begun ≡ true
      → length s.metadata.forward_paths < s.max_forward_paths
      → Valid s
      → Valid (with_recipient p cfg recipient s)
  with_recipient-IsValid recipient s c b room v =
      let l = length-append s.metadata.forward_paths (recipient ∷ []) in
      let limit = v.staged.rcpt_limit in
      record {
        staged = record {
          sender_begun = v.staged.sender_begun;
          recipients_begun = λ h. b;
          recipients_bound = omega arith;
          sender_in_data = v.staged.sender_in_data;
          recipients_in_data = λ h. omega arith;
          data_limit = v.staged.data_limit;
          rcpt_limit = v.staged.rcpt_limit;
        };
        error = record { kept = v.error.kept };
      }

  rcpt_path-Ensures :
      (o : Outcome Part) (s : Session p)
      → s.state ≡ cmd
      → s.session_begun ≡ true
      → length s.metadata.forward_paths < s.max_forward_paths
      → IsSettled o
      → Valid s
      → Ensures (rcpt_path p cfg o s)
  unfolding rcpt_path
  rcpt_path-Ensures (ok path) s c b room i v =
      send-IsValid cfg was _ _ (with_recipient-IsValid (address path.mailbox) s c b room v)
  rcpt_path-Ensures malformed s c b room i v = send-IsValid cfg was invalid_parameters s v
  rcpt_path-Ensures overrun s c b room i v = absurd i
  rcpt_path-Ensures exhausted s c b room i v = absurd i

  rcpt_to-Ensures :
      (o : Option Bytes) (s : Session p) → s.state ≡ cmd → Valid s → Ensures (rcpt_to p cfg o s)
  unfolding rcpt_to
  rcpt_to-Ensures none s c v = send-IsValid cfg was invalid_parameters s v
  rcpt_to-Ensures (some sp) s c v =
      if_keeps Ensures (not s.session_begun) _ _ (λ _. send-IsValid cfg was bad_sequence s v)
        λ b.
          if_keeps Ensures (leb s.max_forward_paths (length s.metadata.forward_paths)) _ _
            (λ _. send-IsValid cfg was too_many_recipients s v)
            (λ room.
              rcpt_path-Ensures (path 0 sp) s c (not-false s.session_begun b)
                (leb_false→lt _ _ room) (path-IsSettled 0 refl sp) v)

  pub rcpt-Ensures :
      (a : Argument) (s : Session p) → s.state ≡ cmd → Valid s → Ensures (rcpt p cfg a s)
  unfolding rcpt
  rcpt-Ensures (text sp) s c v = rcpt_to-Ensures (accept sp (codes "TO:")) s c v
  rcpt-Ensures nowhere s c v = tt
