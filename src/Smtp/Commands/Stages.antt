-- ===== src/Smtp/Commands/Stages.antt =====
-- The commands that open the message, and those that only answer.
use ervan.Base.{if_keeps, ℕ, ◌<◌, ◌≡◌, Bool, true, false, not, ◌||◌, ◌==◌, length, arith}
use ervan.Common.Platform.{Platform}
use ervan.Smtp.Replies
use ervan.Smtp.Replies.{bad_sequence, not_implemented, local_error, start_data}
use ervan.Smtp.Session.{Settings, Session, Effect}
use ervan.Smtp.Valid.{IsValid, EnsuresValid, send-IsValid, reset-IsValid}
use ervan.Smtp.Files.{open_files}
use ervan.Smtp.Files.Keeps.{open_files-IsValid, open_files_same}
use ervan.Smtp.Commands.{Argument, data_opened, data_command, rset, vrfy, noop, quit}

pub sender_there : (r : Bool) (n : ℕ) → (not r || n == 0) ≡ false → (r ≡ true) × (0 < n)
sender_there r n h = ground arith

module _ {p : Platform} (cfg : Settings) (was : Bool) where
  abbrev Valid : Session p → Type 0
  Valid = IsValid cfg was

  abbrev Ensures : Effect (Session p) → Type 0
  Ensures = EnsuresValid cfg was

  data_opened-Ensures :
      (opened : Bool × Session p)
      → (opened.1).reverse_set ≡ true
      → 0 < length (opened.1).metadata.forward_paths
      → Valid opened.1
      → Ensures (data_opened p cfg opened)
  unfolding data_opened
  data_opened-Ensures (false, s) r n v = send-IsValid cfg was local_error s v
  data_opened-Ensures (true, s) r n v = record {
    staged = record {
      sender_begun = v.staged.sender_begun;
      recipients_begun = v.staged.recipients_begun;
      recipients_bound = v.staged.recipients_bound;
      sender_in_data = λ _. r;
      recipients_in_data = λ _. n;
      data_limit = v.staged.data_limit;
      rcpt_limit = v.staged.rcpt_limit;
    };
    error = record { kept = v.error.kept };
  }

  pub data-Ensures : (a : Argument) (s : Session p) → Valid s → Ensures (data_command p cfg a s)
  unfolding data_command
  data-Ensures a s v =
      if_keeps Ensures (not s.reverse_set || length s.metadata.forward_paths == 0) _ _
        (λ _. send-IsValid cfg was bad_sequence s v)
        λ e.
          let (r, n) = sender_there s.reverse_set (length s.metadata.forward_paths) e in
          let (same_r, same_m) = open_files_same p cfg s in
          data_opened-Ensures (open_files p cfg s) (rw same_r r) (rw same_m n)
            (open_files-IsValid cfg was s v)

  pub rset-Ensures : (a : Argument) (s : Session p) → Valid s → Ensures (rset p cfg a s)
  unfolding rset
  rset-Ensures a s v = send-IsValid cfg was Replies.ok _ (reset-IsValid cfg was s v.error)

  pub vrfy-Ensures : (a : Argument) (s : Session p) → Valid s → Ensures (vrfy p cfg a s)
  unfolding vrfy
  vrfy-Ensures a s v = send-IsValid cfg was not_implemented s v

  pub noop-Ensures : (a : Argument) (s : Session p) → Valid s → Ensures (noop p cfg a s)
  unfolding noop
  noop-Ensures a s v = send-IsValid cfg was Replies.ok s v

  pub quit-Ensures : (a : Argument) (s : Session p) → Valid s → Ensures (quit p cfg a s)
  unfolding quit
  quit-Ensures a s v = record {
    staged = record {
      sender_begun = v.staged.sender_begun;
      recipients_begun = v.staged.recipients_begun;
      recipients_bound = v.staged.recipients_bound;
      sender_in_data = λ h. cc;
      recipients_in_data = λ h. cc;
      data_limit = v.staged.data_limit;
      rcpt_limit = v.staged.rcpt_limit;
    };
    error = record { kept = v.error.kept };
  }
