-- ===== src/Smtp/Session.antt =====
-- smtp/include/ervan/smtp/session.hpp and smtp/src/session.cpp: the state of a session.
pub mod Scratch
use ervan.Base.{ℕ, Bool, false, Bytes, List, [], ◌∷◌}
use ervan.Common.Platform.{Platform}
use ervan.Common.Metadata.{Metadata, no_metadata}
use ervan.Strings.Join.{LineBuffer}

pub data State : Type 0 where
  cmd in_data closed : State

-- The configuration that a session reads: `hostname`, `maxmessagesize` and `maxrcpt`.
pub record Settings : Type 0 where
  pub hostname : Bytes
  pub max_message_size : ℕ
  pub max_rcpt : ℕ

-- `sent` holds the bytes of each `send` on the socket, the last one first; what `send` answers is
-- not read anywhere. The file is a part of `disk`.
pub record Session (p : Platform) : Type 0 where
  pub state : State
  pub metadata : Metadata
  pub reverse_set : Bool
  pub session_begun : Bool
  pub max_data_size : ℕ
  pub data_size : ℕ
  pub data_path : Bytes
  pub max_forward_paths : ℕ
  pub cmd_buffer : LineBuffer
  pub cmd_offset : ℕ
  pub line_buffer : LineBuffer
  pub line_offset : ℕ
  pub data_too_long : Bool
  pub data_error : Bool
  pub line_too_long : Bool
  pub sent : List Bytes
  pub disk : p.Disk

-- How a handler ends. `wild`: it read behind the line, over what older lines have left in the
-- buffer and over other memory. `exhausted`: a loop's fuel ran out.
pub data Effect {ℓ} (A : Type ℓ) : Type ℓ where
  done : A → Effect A
  wild exhausted : Effect A

infixl 5 ◌>>=◌
abbrev pub ◌>>=◌ {ℓ κ} : {A : Type ℓ} {B : Type κ} → Effect A → (A → Effect B) → Effect B
done a >>= f = f a
wild >>= f = wild
exhausted >>= f = exhausted

module _ (p : Platform) where
  -- `send`, and `reply`, which sends all of the reply's array.
  abbrev pub send : Bytes → Session p → Session p
  send bytes s = record s { sent = bytes ∷ s.sent }

  -- A handler that only replies.
  abbrev pub reply : Bytes → Session p → Effect (Session p)
  reply bytes s = done (send bytes s)

  module _ (cfg : Settings) where
    unfoldable pub reset : Session p → Session p
    reset s = record s {
      state = cmd;
      max_data_size = cfg.max_message_size;
      max_forward_paths = cfg.max_rcpt;
      metadata = no_metadata;
      reverse_set = false;
    }

    -- session::session, over members that nothing has set.
    unfoldable pub new_session : Session p → Session p
    new_session unset =
        record (reset (record unset { cmd_offset = 0; line_offset = 0; data_path = [] })) {
          session_begun = false;
        }
