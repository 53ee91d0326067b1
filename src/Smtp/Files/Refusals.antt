-- ===== src/Smtp/Files/Refusals.antt =====
-- The end of a message that cannot be taken.
use ervan.Base.{
  if_keeps, ℕ, ◌+◌, ◌-◌, ◌^◌, ◌%◌, ◌≡◌, refl, Bool, true, false, ◌||◌, if◌then◌else◌, Bytes, ◌∷◌,
  some,
}
use ervan.Common.Platform.{Platform, Task}
use ervan.Common.Metadata.{no_metadata}
use ervan.Smtp.Replies.{exceeded_storage, exceeded_line, local_error}
use ervan.Smtp.Session.{cmd, Settings, Session, reset}
use ervan.Smtp.Files.{
  seek_set, seek_end, write_data_tar_header, pad_data, check, abort_reply, abort_data,
  finish_message, finish_padded, finish_at, finish_data,
}

module _ (p : Platform) (cfg : Settings) where
  -- What the client is told.
  abbrev pub refusal : Session p → Bytes
  refusal s =
      if s.data_too_long
      then exceeded_storage
      else if s.line_too_long
      then exceeded_line
      else local_error

  abbrev pub Flagged : Session p → Type 0
  Flagged s = (s.data_too_long || (s.line_too_long || s.data_error)) ≡ true

  -- One reply was sent, and the session is ready for a new transaction.
  pub record Refused (s s' : Session p) : Type 0 where
    pub sent : s'.sent ≡ refusal s ∷ s.sent
    pub state : s'.state ≡ cmd
    pub sender : s'.reverse_set ≡ false
    pub metadata : s'.metadata ≡ no_metadata

  -- abort_data, where a flag is set.
  pub abort_data-Refused : (s : Session p) → Flagged s → Refused s (abort_data p cfg s)
  unfolding abort_data abort_reply reset
  abort_data-Refused s h =
      if_keeps (Refused s) s.data_too_long _ _
        (λ a. record { sent = rw a refl; state = refl; sender = refl; metadata = refl })
        λ a.
          if_keeps (Refused s) s.line_too_long _ _
            (λ b. record { sent = rw (a, b) refl; state = refl; sender = refl; metadata = refl })
            λ b.
              if_keeps (Refused s) s.data_error _ _
                (λ c. record {
                  sent = rw (a, b) refl;
                  state = refl;
                  sender = refl;
                  metadata = refl;
                })
                (λ c. absurd (clash s.data_too_long s.line_too_long s.data_error h a b c))
    where
      clash : (a b c : Bool) → (a || (b || c)) ≡ true → a ≡ false → b ≡ false → c ≡ false → ⊥
      clash true b c h x y z = cc
      clash false true c h x y z = cc
      clash false false true h x y z = cc
      clash false false false h x y z = cc

  -- Nothing is written once an error has been seen.
  check-errored : (task : Task p) (s : Session p) → s.data_error ≡ true → check p cfg task s ≡ s
  unfolding check
  check-errored task s e = rw e refl

  -- With an error, only the position in the file moves.
  finish_message-errored :
      (size : ℕ) (s : Session p)
      → s.data_error ≡ true
      → finish_message p cfg size s ≡ seek_end p cfg (seek_set p cfg 0 s)
  unfolding finish_message
  finish_message-errored size s e =
      let first =
        check-errored (write_data_tar_header p cfg ((size + (2 ^ 64 - 512)) % 2 ^ 64))
          (seek_set p cfg 0 s) e in
      rw first (check-errored (pad_data p cfg) (seek_end p cfg (seek_set p cfg 0 s)) e)

  true-false : (b : Bool) → b ≡ true → b ≡ false → ⊥
  true-false b e n = cc

  finish_padded-Refused :
      (s : Session p) → s.data_error ≡ true → Flagged s → Refused s (finish_padded p cfg s)
  unfolding finish_padded
  finish_padded-Refused s e h =
      if_keeps (Refused s) s.data_error _ _ (λ _. abort_data-Refused s h)
        (λ n. absurd (true-false s.data_error e n))

  -- finish_data, where an error has been seen and the size of the file is known.
  pub finish_data-Refused :
      (s : Session p) (size : ℕ)
      → s.data_error ≡ true
      → Flagged s
      → p.tellg s.disk ≡ some size
      → Refused s (finish_data p cfg s)
  unfolding finish_data finish_at
  finish_data-Refused s size e h t =
      let r = finish_padded-Refused (seek_end p cfg (seek_set p cfg 0 s)) e h in
      rw (t, finish_message-errored size s e)
        (record { sent = r.sent; state = r.state; sender = r.sender; metadata = r.metadata })
