-- ===== src/Smtp/Feed/Keeps.antt =====
-- A session stays consistent over whatever the client sends, and the loops end.
use ervan.Base.{
  if_keeps, ℕ, suc, ◌<◌, ◌≡◌, refl, Bool, true, false, not, ◌&&◌, ◌||◌, if◌then◌else◌, Option, none,
  some, Bytes, length, ◌∷◌, ◌++◌,
}
use ervan.Common.Platform.{Platform}
use ervan.Strings.Join.{Joined, join, line_bytes, crlf}
use ervan.Strings.Join.Shrinks.{join-rest}
use ervan.Smtp.Replies.{exceeded_line}
use ervan.Smtp.Session.{cmd, Settings, Session, Effect, done, wild, ◌>>=◌}
use ervan.Smtp.Valid.{IsValid, EnsuresValid, send-IsValid}
use ervan.Smtp.Files.Keeps.{abort_data-IsValid, finish_data-IsValid}
use ervan.Smtp.Dispatch.Keeps.{call_command-Ensures}
use ervan.Smtp.Feed.{
  Fed, unstuff, is_end, fed_line, too_long_reply, feed_cmd, count_line, write_line, take_line,
  end_message, data_round,
}

still_kept :
    (was written error : Bool)
    → (was ≡ true → error ≡ true)
    → was ≡ true
    → (if written then error else true) ≡ true
still_kept was true error h w = h w
still_kept was false error h w = refl

module _ {p : Platform} (cfg : Settings) (was : Bool) where
  abbrev Valid : Session p → Type 0
  Valid = IsValid cfg was

  abbrev Ensures : Effect (Session p) → Type 0
  Ensures = EnsuresValid cfg was

  -- A valid session, and fewer than `n` bytes left.
  abbrev pub EnsuresFed : ℕ → Effect (Fed p) → Type 0
  EnsuresFed n (done f) = Valid f.session × (length f.rest < n)
  EnsuresFed n wild = Unit
  EnsuresFed n Effect.exhausted = ⊥

  fed_line-Ensures :
      (j : Joined) (o : Option ℕ) (s : Session p)
      → s.state ≡ cmd
      → Valid s
      → Ensures (fed_line p cfg j o s)
  unfolding fed_line
  fed_line-Ensures j none s e v = v
  fed_line-Ensures j (some n) s e v = call_command-Ensures cfg was (line_bytes j n) s e v

  too_long_reply-IsValid : (j : Joined) (s : Session p) → Valid s → Valid (too_long_reply p cfg j s)
  too_long_reply-IsValid j s v =
      if_keeps Valid j.out_of_range _ _ (λ _. send-IsValid cfg was exceeded_line s v) (λ _. v)

  after_line :
      (j : Joined) (n : ℕ) (m : Effect (Session p))
      → length j.rest < n
      → Ensures m
      → EnsuresFed n
          (m >>= λ s. done (record { session = too_long_reply p cfg j s; rest = j.rest }))
  after_line j n (done s) l v = (too_long_reply-IsValid j s v, l)
  after_line j n wild l v = tt
  after_line j n Effect.exhausted l v = v

  pub feed_cmd_ensures :
      (s : Session p) (c : ℕ) (cs : Bytes)
      → s.state ≡ cmd
      → Valid s
      → EnsuresFed (suc (length cs)) (feed_cmd p cfg s (c ∷ cs))
  unfolding feed_cmd
  feed_cmd_ensures s c cs e v =
      after_line (join s.cmd_buffer (c ∷ cs) s.cmd_offset crlf) _ _
        (join-rest s.cmd_buffer c cs s.cmd_offset crlf)
        (fed_line-Ensures _ _ _ e
          (record { staged = v.staged; error = record { kept = v.error.kept } }))

  count_line-IsValid : (line : Bytes) (s : Session p) → Valid s → Valid (count_line p cfg line s)
  unfolding count_line
  count_line-IsValid line s v = record { staged = v.staged; error = record { kept = v.error.kept } }

  write_line-IsValid :
      (end : ℕ) (line : Bytes) (s : Session p) → Valid s → Valid (write_line p cfg end line s)
  unfolding write_line
  write_line-IsValid end line s v =
      let (written, d) = p.write s.disk (line ++ crlf) in
      if_keeps Valid (s.line_too_long || s.data_too_long || s.data_error) _ _ (λ _. v)
        (λ _. record {
          staged = v.staged;
          error = record { kept = still_kept was written s.data_error v.error.kept };
        })

  pub take_line-IsValid :
      (end : ℕ) (line : Bytes) (s : Session p) → Valid s → Valid (take_line p cfg end line s)
  unfolding take_line
  take_line-IsValid end line s v =
      write_line-IsValid end _ _ (count_line-IsValid (unstuff line) s v)

  pub end_message-IsValid : (s : Session p) → Valid s → Valid (end_message p cfg s)
  unfolding end_message
  end_message-IsValid s v =
      if_keeps Valid (not s.line_too_long && not s.data_too_long) _ _
        (λ _. finish_data-IsValid cfg was s v.error) (λ _. abort_data-IsValid cfg was s v.error)

  pub data_round_ensures :
      (next : Session p → Bytes → Effect (Fed p)) (j : Joined) (o : Option ℕ) (s : Session p)
      (n : ℕ)
      → length j.rest < n
      → ((t : Session p) → Valid t → EnsuresFed n (next t j.rest))
      → Valid s
      → EnsuresFed n (data_round p cfg next j o s)
  unfolding data_round
  data_round_ensures next j none s n l h v = (
    if_keeps Valid j.out_of_range _ _
        (λ _. record { staged = v.staged; error = record { kept = v.error.kept } }) (λ _. v),
    l,
  )
  data_round_ensures next j (some k) s n l h v =
      if_keeps (EnsuresFed n) (is_end (line_bytes j k)) _ _ (λ _. (end_message-IsValid s v, l))
        (λ _. h _ (take_line-IsValid k _ s v))
