-- ===== src/Smtp/Files/Keeps.antt =====
-- The message's file operations keep the session consistent, and keep an error that was seen.
use ervan.Base.{if_keeps, ℕ, ◌≡◌, refl, Bool, true, false, ◌==◌, Option, none, some, [], Bytes}
use ervan.Common.Platform.{Platform, Task}
use ervan.Smtp.Session.{Settings, Session, reset}
use ervan.Smtp.Replies.{exceeded_storage, exceeded_line, local_error, ok}
use ervan.Smtp.Valid.{KeepsError, IsValid, send-IsValid, reset-IsValid}
use ervan.Smtp.Files.{
  opened, open_files, check, abort_reply, let_go, abort_data, finish_metadata, finish_sync,
  finish_message, finish_padded, finish_at, finish_data, position,
}

module _ {p : Platform} (cfg : Settings) (was : Bool) where
  -- Where only other members change.
  on_disk :
      (s : Session p) (path : Bytes) (d : p.Disk)
      → IsValid cfg was s
      → IsValid cfg was (record s { data_path = path; disk = d })
  on_disk s path d v = record { staged = v.staged; error = record { kept = v.error.kept } }

  error_on_disk :
      (s : Session p) (d : p.Disk)
      → KeepsError cfg was s
      → KeepsError cfg was (record s { disk = d })
  error_on_disk s d k = record { kept = k.kept }

  opened-IsValid :
      (s : Session p) (o : Option p.Disk) → IsValid cfg was s → IsValid cfg was (opened p cfg s o).1
  unfolding opened
  opened-IsValid s none v = v
  opened-IsValid s (some d) v = on_disk s s.data_path _ v

  pub open_files-IsValid :
      (s : Session p) → IsValid cfg was s → IsValid cfg was (open_files p cfg s).1
  unfolding open_files
  open_files-IsValid s v = opened-IsValid _ _ (on_disk s _ _ v)

  check-Keeps :
      (task : Task p) (s : Session p)
      → KeepsError cfg was s
      → KeepsError cfg was (check p cfg task s)
  unfolding check
  check-Keeps task s k =
      if_keeps (KeepsError cfg was) s.data_error _ _ (λ e. k)
        (λ e. record { kept = λ w. absurd (clash w e) })
    where
      clash : was ≡ true → s.data_error ≡ false → ⊥
      clash w e = let t = k.kept w in cc

  abort_reply-IsValid : (s : Session p) → IsValid cfg was s → IsValid cfg was (abort_reply p cfg s)
  unfolding abort_reply
  abort_reply-IsValid s v =
      if_keeps (IsValid cfg was) s.data_too_long _ _
        (λ _. send-IsValid cfg was exceeded_storage s v)
        λ _.
          if_keeps (IsValid cfg was) s.line_too_long _ _
            (λ _. send-IsValid cfg was exceeded_line s v)
            λ _.
              if_keeps (IsValid cfg was) s.data_error _ _
                (λ _. send-IsValid cfg was local_error s v) (λ _. v)

  let_go-IsValid :
      (s : Session p) (d : p.Disk) → KeepsError cfg was s → IsValid cfg was (let_go p cfg s d)
  let_go-IsValid s d k =
      let v =
        reset-IsValid cfg was (record s { disk = d; data_path = [] }) (record { kept = k.kept }) in
      unfold reset in record { staged = v.staged; error = record { kept = v.error.kept } }

  pub abort_data-IsValid :
      (s : Session p) → KeepsError cfg was s → IsValid cfg was (abort_data p cfg s)
  unfolding abort_data
  abort_data-IsValid s k =
      abort_reply-IsValid (let_go p cfg s (p.close (p.truncate (p.unlink s.disk s.data_path))))
        (let_go-IsValid s _ k)

  finish_metadata-Keeps :
      (n : ℕ) (s : Session p)
      → KeepsError cfg was s
      → KeepsError cfg was (finish_metadata p cfg n s)
  unfolding finish_metadata
  finish_metadata-Keeps n s k = check-Keeps _ _ (
      error_on_disk _ _ (check-Keeps _ _ (error_on_disk _ _ (check-Keeps _ _ (check-Keeps _ _ k)))))

  finish_sync-IsValid :
      (s : Session p) → KeepsError cfg was s → IsValid cfg was (finish_sync p cfg s)
  unfolding finish_sync
  finish_sync-IsValid s k =
      let (result, d) = p.fsync s.disk in
      if_keeps (IsValid cfg was) (result == 0) _ _
        (λ _. send-IsValid cfg was ok (let_go p cfg s (p.close d)) (let_go-IsValid s (p.close d) k))
        (λ _.
          abort_data-IsValid (record s { disk = d; data_error = true })
            (record { kept = λ _. refl }))

  finish_message-Keeps :
      (size : ℕ) (s : Session p)
      → KeepsError cfg was s
      → KeepsError cfg was (finish_message p cfg size s)
  unfolding finish_message
  finish_message-Keeps size s k =
      check-Keeps _ _ (error_on_disk _ _ (check-Keeps _ _ (error_on_disk s _ k)))

  finish_padded-IsValid :
      (s : Session p) → KeepsError cfg was s → IsValid cfg was (finish_padded p cfg s)
  unfolding finish_padded
  finish_padded-IsValid s k =
      let k' = finish_metadata-Keeps (position p cfg s.disk) s k in
      if_keeps (IsValid cfg was) s.data_error _ _ (λ _. abort_data-IsValid s k)
        λ _.
          if_keeps (IsValid cfg was) (finish_metadata p cfg (position p cfg s.disk) s).data_error _
            _ (λ _. abort_data-IsValid _ k') (λ _. finish_sync-IsValid _ k')

  finish_at-IsValid :
      (o : Option ℕ) (s : Session p) → KeepsError cfg was s → IsValid cfg was (finish_at p cfg o s)
  unfolding finish_at
  finish_at-IsValid none s k = abort_data-IsValid s k
  finish_at-IsValid (some size) s k = finish_padded-IsValid _ (finish_message-Keeps size s k)

  pub finish_data-IsValid :
      (s : Session p) → KeepsError cfg was s → IsValid cfg was (finish_data p cfg s)
  unfolding finish_data
  finish_data-IsValid s k = finish_at-IsValid _ s k

module _ (p : Platform) (cfg : Settings) where
  opened_same :
      (s : Session p) (o : Option p.Disk)
      → ((opened p cfg s o).1.reverse_set ≡ s.reverse_set)
        × ((opened p cfg s o).1.metadata ≡ s.metadata)
  unfolding opened
  opened_same s none = (refl, refl)
  opened_same s (some d) = (refl, refl)

  -- Opening the files touches neither the sender nor the recipients.
  pub open_files_same :
      (s : Session p)
      → ((open_files p cfg s).1.reverse_set ≡ s.reverse_set)
        × ((open_files p cfg s).1.metadata ≡ s.metadata)
  unfolding open_files
  open_files_same s = opened_same _ _
