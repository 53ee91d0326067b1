-- ===== src/Smtp/Files/Turns.antt =====
-- The end of a message, as its client sees it.
use ervan.Base.{
  if_keeps, ℕ, ◌≡◌, refl, sym, ap, subst, ◌∙◌, true, ◌==◌, Option, none, some, [], ◌∷◌, ◌++◌, arith,
}
use ervan.Common.Platform.{Platform, Task}
use ervan.Smtp.Replies.{ok, local_error, exceeded_line, exceeded_storage, smtp_msg_str}
use ervan.Smtp.Session.{cmd, Settings, Session, reset}
use ervan.Smtp.Files.{
  opened, open_files, check, abort_reply, abort_data, finish_metadata, finish_sync, finish_message,
  finish_padded, finish_at, finish_data, position,
}
use ervan.Smtp.Dialogue.{end, view, Turn, Turned, accepted, dropped, unanswered, View, idle}

module _ (p : Platform) (cfg : Settings) where
  -- Another session that has sent the same, and has greeted as this one has.
  pub record Quiet (s t : Session p) : Type 0 where
    pub begun : t.session_begun ≡ s.session_begun
    pub sent : t.sent ≡ s.sent

  Quiet-trans : (s t u : Session p) → Quiet s t → Quiet t u → Quiet s u
  Quiet-trans s t u h k = record { begun = k.begun ∙ h.begun; sent = k.sent ∙ h.sent }

  check-Quiet : (task : Task p) (s : Session p) → Quiet s (check p cfg task s)
  unfolding check
  check-Quiet task s =
      if_keeps (Quiet s) s.data_error _ _ (λ e. record { begun = refl; sent = refl })
        (λ e. record { begun = refl; sent = refl })

  moved : {t u : Session p} {d : p.Disk} → Quiet (record t { disk = d }) u → Quiet t u
  moved h = record { begun = h.begun; sent = h.sent }

  finish_metadata-Quiet : (n : ℕ) (s : Session p) → Quiet s (finish_metadata p cfg n s)
  unfolding finish_metadata
  finish_metadata-Quiet n s = Quiet-trans _ _ _ (check-Quiet _ s) (
      Quiet-trans _ _ _ (check-Quiet _ _)
        (Quiet-trans _ _ _ (moved (check-Quiet _ _)) (moved (check-Quiet _ _))))

  finish_message-Quiet : (n : ℕ) (s : Session p) → Quiet s (finish_message p cfg n s)
  unfolding finish_message
  finish_message-Quiet n s = Quiet-trans _ _ _ (moved (check-Quiet _ _)) (moved (check-Quiet _ _))

  -- The same transaction is over.
  same_end :
      {v v' w : View} {code : Option ℕ}
      → idle v ≡ idle v'
      → Turn cfg v end code w
      → Turn cfg v' end code w
  same_end {v'} e accepted = subst (λ w. Turn cfg v' end (some 250) w) (sym e) accepted
  same_end {v'} e (dropped code h) =
      subst (λ w. Turn cfg v' end (some code) w) (sym e) (dropped code h)
  same_end {v'} e unanswered = subst (λ w. Turn cfg v' end none w) (sym e) unanswered

  quiet_end : (s t u : Session p) → Quiet s t → Turned cfg end t u → Turned cfg end s u
  unfolding view
  quiet_end s t u q h = record {
    code = h.code;
    turn =
        same_end
          (ap (λ b. record { state = cmd; begun = b; host = []; sender = none; recipients = [] })
            q.begun)
          h.turn;
    sends = h.sends;
    reply = h.reply;
    sent = h.sent ∙ ap (◌++◌ h.sends) q.sent;
  }

  pub abort_data-Turned : (s : Session p) → Turned cfg end s (abort_data p cfg s)
  unfolding abort_data abort_reply view reset exceeded_storage exceeded_line local_error
      smtp_msg_str
  abort_data-Turned s =
      if_keeps (Turned cfg end s) s.data_too_long _ _
        (λ _. record {
          code = some 552;
          turn = dropped 552 (omega arith);
          sends = exceeded_storage ∷ [];
          reply = (refl, refl);
          sent = refl;
        })
        (λ _.
          if_keeps (Turned cfg end s) s.line_too_long _ _
            (λ _. record {
              code = some 500;
              turn = dropped 500 (omega arith);
              sends = exceeded_line ∷ [];
              reply = (refl, refl);
              sent = refl;
            })
            (λ _.
              if_keeps (Turned cfg end s) s.data_error _ _
                (λ _. record {
                  code = some 451;
                  turn = dropped 451 (omega arith);
                  sends = local_error ∷ [];
                  reply = (refl, refl);
                  sent = refl;
                })
                (λ _. record {
                  code = none;
                  turn = unanswered;
                  sends = [];
                  reply = refl;
                  sent = refl;
                })))

  finish_sync-Turned : (s : Session p) → Turned cfg end s (finish_sync p cfg s)
  unfolding finish_sync view reset ok smtp_msg_str
  finish_sync-Turned s =
      let (result, d) = p.fsync s.disk in
      if_keeps (Turned cfg end s) (result == 0) _ _
        (λ _. record {
          code = some 250;
          turn = accepted;
          sends = ok ∷ [];
          reply = (refl, refl);
          sent = refl;
        })
        (λ _.
          quiet_end s (record s { disk = d; data_error = true }) _
            (record { begun = refl; sent = refl })
            (abort_data-Turned (record s { disk = d; data_error = true })))

  finish_padded-Turned : (s : Session p) → Turned cfg end s (finish_padded p cfg s)
  unfolding finish_padded
  finish_padded-Turned s =
      let q = finish_metadata-Quiet (position p cfg s.disk) s in
      let s' = finish_metadata p cfg (position p cfg s.disk) s in
      if_keeps (Turned cfg end s) s.data_error _ _ (λ _. abort_data-Turned s)
        (λ _.
          if_keeps (Turned cfg end s) s'.data_error _ _
            (λ _. quiet_end s s' _ q (abort_data-Turned s'))
            (λ _. quiet_end s s' _ q (finish_sync-Turned s')))

  finish_at-Turned : (size : Option ℕ) (s : Session p) → Turned cfg end s (finish_at p cfg size s)
  unfolding finish_at
  finish_at-Turned none s = abort_data-Turned s
  finish_at-Turned (some n) s =
      quiet_end s (finish_message p cfg n s) _ (finish_message-Quiet n s)
        (finish_padded-Turned (finish_message p cfg n s))

  pub finish_data-Turned : (s : Session p) → Turned cfg end s (finish_data p cfg s)
  unfolding finish_data
  finish_data-Turned s = finish_at-Turned (p.tellg s.disk) s

  -- Opening the file shows the client nothing.
  opened-shows :
      (s : Session p) (o : Option p.Disk)
      → (view (opened p cfg s o).1 ≡ view s) × ((opened p cfg s o).1.sent ≡ s.sent)
  unfolding opened view
  opened-shows s none = (refl, refl)
  opened-shows s (some d) = (refl, refl)

  pub open_files-shows :
      (s : Session p)
      → (view (open_files p cfg s).1 ≡ view s) × ((open_files p cfg s).1.sent ≡ s.sent)
  unfolding open_files view
  open_files-shows s = opened-shows _ _
