-- ===== src/Smtp/Files/Buffers.antt =====
-- The end of a message leaves the buffers alone, and does not read them.
use ervan.Base.{
  ◌+◌, ◌-◌, ◌%◌, ◌^◌, if_over, ◌≡◌, refl, ap, ◌∙◌, true, ◌==◌, if◌then◌else◌, ℕ, Option, none, some,
}
use ervan.Common.Platform.{Platform, Task}
use ervan.Common.Metadata.{write_to}
use ervan.Smtp.Session.{Settings, Session, reset}
use ervan.Smtp.Files.{
  opened, open_files, check, abort_reply, abort_data, finish_metadata, finish_sync, finish_message,
  finish_padded, finish_at, finish_data, write_metadata_tar_header, pad_data, write_header_space,
  position, seek_set, seek_end, let_go,
}
use ervan.Smtp.Session.Scratch.{Scratch, over, Ignores}

module _ (p : Platform) (cfg : Settings) (x : Scratch) where
  check-Ignores : (task : Task p) → Ignores p x (check p cfg task)
  unfolding check over
  check-Ignores task s = if_over (over x) s.data_error refl refl

  abort_reply-Ignores : Ignores p x (abort_reply p cfg)
  unfolding abort_reply over
  abort_reply-Ignores s =
      if_over (over x) s.data_too_long refl
        (if_over (over x) s.line_too_long refl (if_over (over x) s.data_error refl refl))

  pub abort_data-Ignores : Ignores p x (abort_data p cfg)
  unfolding abort_data over reset
  abort_data-Ignores s =
      abort_reply-Ignores (let_go p cfg s (p.close (p.truncate (p.unlink s.disk s.data_path))))

  -- One task behind another, where the second may depend on what the session then shows.
  then-Ignores :
      (f : Session p → Session p) (g : Session p → Session p → Session p)
      → Ignores p x f
      → ((t : Session p) → g (over x t) ≡ g t)
      → ((t : Session p) → Ignores p x (g t))
      → Ignores p x (λ s. g (f s) (f s))
  then-Ignores f g h same k s =
      ap (λ t. g t t) (h s) ∙ ap (λ m. m (over x (f s))) (same (f s)) ∙ k (f s) (f s)

  padded-Ignores : Ignores p x (λ s. check p cfg (pad_data p cfg) (seek_end p cfg s))
  unfolding over
  padded-Ignores s = check-Ignores (pad_data p cfg) (seek_end p cfg s)

  header-Ignores :
      (task : Task p) (offset : ℕ)
      → Ignores p x (λ s.
        check p cfg (pad_data p cfg) (seek_end p cfg (check p cfg task (seek_set p cfg offset s))))
  unfolding over
  header-Ignores task offset s =
      ap (λ t. check p cfg (pad_data p cfg) (seek_end p cfg t))
        (check-Ignores task (seek_set p cfg offset s))
      ∙ padded-Ignores (check p cfg task (seek_set p cfg offset s))

  finish_message-Ignores : (n : ℕ) → Ignores p x (finish_message p cfg n)
  unfolding finish_message
  finish_message-Ignores n s = header-Ignores _ 0 s

  opened-Ignores :
      (s : Session p) (o : Option p.Disk)
      → opened p cfg (over x s) o ≡ ((opened p cfg s o).0, over x (opened p cfg s o).1)
  unfolding opened over
  opened-Ignores s none = refl
  opened-Ignores s (some d) = refl

  pub open_files-Ignores :
      (s : Session p)
      → open_files p cfg (over x s) ≡ ((open_files p cfg s).0, over x (open_files p cfg s).1)
  unfolding open_files over
  open_files-Ignores s = opened-Ignores _ _

  abbrev metadata_length : Session p → Session p → ℕ
  metadata_length before behind =
      (position p cfg behind.disk + (2 ^ 64 - position p cfg before.disk)) % 2 ^ 64

  finish_metadata-Ignores : (n : ℕ) → Ignores p x (finish_metadata p cfg n)
  unfolding finish_metadata over
  finish_metadata-Ignores n =
      then-Ignores (check p cfg (write_header_space p cfg))
        (λ a s.
          let b = check p cfg (write_to p a.metadata) s in
          check p cfg (pad_data p cfg) (
            seek_end p cfg (
              check p cfg (write_metadata_tar_header p cfg (metadata_length a b))
                (seek_set p cfg n b))))
        (check-Ignores _) (λ t. refl)
        (λ a.
          then-Ignores (check p cfg (write_to p a.metadata))
            (λ b s. check p cfg (pad_data p cfg) (
              seek_end p cfg (
                check p cfg (write_metadata_tar_header p cfg (metadata_length a b))
                  (seek_set p cfg n s))))
            (check-Ignores _) (λ t. refl) (λ b. header-Ignores _ n))

  finish_sync-Ignores : Ignores p x (finish_sync p cfg)
  unfolding finish_sync over reset
  finish_sync-Ignores s =
      let (result, d) = p.fsync s.disk in
      if_over (over x) (result == 0) refl
        (abort_data-Ignores (record s { disk = d; data_error = true }))

  finish_padded-Ignores : Ignores p x (finish_padded p cfg)
  unfolding finish_padded over
  finish_padded-Ignores s =
      let n = position p cfg s.disk in
      let s' = finish_metadata p cfg n s in
      ap
        (λ t.
          if s.data_error
          then abort_data p cfg (over x s)
          else if t.data_error
          then abort_data p cfg t
          else finish_sync p cfg t)
        (finish_metadata-Ignores n s)
      ∙ if_over (over x) s.data_error (abort_data-Ignores s)
          (if_over (over x) s'.data_error (abort_data-Ignores s') (finish_sync-Ignores s'))

  finish_at-Ignores : (size : Option ℕ) → Ignores p x (finish_at p cfg size)
  unfolding finish_at
  finish_at-Ignores none s = abort_data-Ignores s
  finish_at-Ignores (some n) s =
      ap (finish_padded p cfg) (finish_message-Ignores n s)
      ∙ finish_padded-Ignores (finish_message p cfg n s)

  pub finish_data-Ignores : Ignores p x (finish_data p cfg)
  unfolding finish_data over
  finish_data-Ignores s = finish_at-Ignores (p.tellg s.disk) s
