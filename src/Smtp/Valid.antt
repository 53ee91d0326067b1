-- ===== src/Smtp/Valid.antt =====
-- What holds of a session between any two of its steps.
use ervan.Base.{ℕ, ◌≤◌, ◌<◌, ◌≡◌, refl, Bool, true, false, Bytes, length, arith}
use ervan.Common.Platform.{Platform}
use ervan.Common.Metadata.{Metadata}
use ervan.Smtp.Session.{
  State, in_data, Settings, Session, Effect, done, wild, exhausted, send, reset, new_session,
}

-- The stages of a transaction. A sender or a recipient is there only once the client has said EHLO
-- or HELO; the recipients are no more than the configuration allows; message data is read only with
-- a sender and at least one recipient; and the limits are those of the configuration.
pub record Consistent (cfg : Settings) (state : State) (metadata : Metadata)
    (reverse_set session_begun : Bool) (max_data_size max_forward_paths : ℕ) : Type 0 where
  pub sender_begun : reverse_set ≡ true → session_begun ≡ true
  pub recipients_begun : 0 < length metadata.forward_paths → session_begun ≡ true
  pub recipients_bound : length metadata.forward_paths ≤ cfg.max_rcpt
  pub sender_in_data : state ≡ in_data → reverse_set ≡ true
  pub recipients_in_data : state ≡ in_data → 0 < length metadata.forward_paths
  pub data_limit : max_data_size ≡ cfg.max_message_size
  pub rcpt_limit : max_forward_paths ≡ cfg.max_rcpt

module _ {p : Platform} (cfg : Settings) (was : Bool) where
  -- An error that an earlier message has met is still there.
  pub record KeepsError (s : Session p) : Type 0 where
    pub kept : was ≡ true → s.data_error ≡ true

  pub record IsValid (s : Session p) : Type 0 where
    pub staged :
        Consistent cfg s.state s.metadata s.reverse_set s.session_begun s.max_data_size
          s.max_forward_paths
    pub error : KeepsError s

  -- A handler's fuel is enough, and its result, if it has one, is valid.
  abbrev pub EnsuresValid : Effect (Session p) → Type 0
  EnsuresValid (done s) = IsValid s
  EnsuresValid wild = Unit
  EnsuresValid exhausted = ⊥

  pub send-IsValid : (bytes : Bytes) (s : Session p) → IsValid s → IsValid (send p bytes s)
  send-IsValid bytes s v = record { staged = v.staged; error = record { kept = v.error.kept } }

  pub reset-IsValid : (s : Session p) → KeepsError s → IsValid (reset p cfg s)
  unfolding reset
  reset-IsValid s k = record {
    staged = record {
      sender_begun = λ h. cc;
      recipients_begun = λ h. absurd (omega arith);
      recipients_bound = omega arith;
      sender_in_data = λ h. cc;
      recipients_in_data = λ h. cc;
      data_limit = refl;
      rcpt_limit = refl;
    };
    error = record { kept = k.kept };
  }

-- session::session leaves a valid session, whatever its members held before.
pub new_session-IsValid :
    {p : Platform} (cfg : Settings) (unset : Session p)
    → IsValid cfg false (new_session p cfg unset)
unfolding new_session reset
new_session-IsValid cfg unset = record {
  staged = record {
    sender_begun = λ h. cc;
    recipients_begun = λ h. absurd (omega arith);
    recipients_bound = omega arith;
    sender_in_data = λ h. cc;
    recipients_in_data = λ h. cc;
    data_limit = refl;
    rcpt_limit = refl;
  };
  error = record { kept = λ h. cc };
}
