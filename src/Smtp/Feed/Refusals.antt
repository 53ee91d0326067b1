-- ===== src/Smtp/Feed/Refusals.antt =====
-- The end of a message that cannot be taken.
use ervan.Base.{if_keeps, ℕ, ◌≡◌, refl, Bool, true, false, not, ◌&&◌, ◌||◌, some}
use ervan.Common.Platform.{Platform}
use ervan.Smtp.Session.{Settings, Session}
use ervan.Smtp.Files.Refusals.{Flagged, Refused, abort_data-Refused, finish_data-Refused}
use ervan.Smtp.Feed.{end_message}

module _ (p : Platform) (cfg : Settings) where
  only_error :
      (line size error : Bool)
      → (not line && not size) ≡ true
      → (size || (line || error)) ≡ true
      → error ≡ true
  only_error true size error h f = cc
  only_error false true error h f = cc
  only_error false false true h f = refl
  only_error false false false h f = cc

  -- A message whose lines or whose size went over the limits, or one of whose writes failed, is
  -- never accepted: where the size of the file is known, its end sends one reply, which is "552" for
  -- the size, else "500" for a line, else "451", and leaves the session in command mode with neither
  -- a sender nor recipients.
  pub end_message-Refused :
      (s : Session p) (size : ℕ)
      → Flagged p cfg s
      → p.tellg s.disk ≡ some size
      → Refused p cfg s (end_message p cfg s)
  unfolding end_message
  end_message-Refused s size h t =
      if_keeps (Refused p cfg s) (not s.line_too_long && not s.data_too_long) _ _
        (λ e.
          finish_data-Refused p cfg s size
            (only_error s.line_too_long s.data_too_long s.data_error e h) h t)
        (λ e. abort_data-Refused p cfg s h)
