-- ===== src/Smtp/Files/Archive.antt =====
-- The file of an accepted message, where every write succeeds.
use ervan.Base.{
  ℕ, ◌+◌, ◌-◌, ◌%◌, ◌^◌, ◌<◌, ◌≡◌, refl, sym, ap, subst, ◌∙◌, Bool, false, if◌then◌else◌, Bytes,
  codes, length, length-append, [], ◌∷◌, ◌++◌, arith,
}
use ervan.Common.Platform.{Platform}
use ervan.Common.Platform.Regular.{Contents, Stands, IsRegular}
use ervan.Common.Tar.{filled}
use ervan.Common.Tar.Header.{length-filled}
use ervan.Common.Metadata.{no_metadata}
use ervan.Common.Metadata.Appends.{metadata_bytes}
use ervan.Smtp.Replies.{ok}
use ervan.Smtp.Session.{cmd, Settings, Session, send, reset}
use ervan.Smtp.Files.{
  write_data_tar_header, let_go, abort_data, finish_metadata, finish_sync, finish_message,
  finish_padded, finish_at, finish_data,
}
use ervan.Smtp.Files.Entries.{
  entry, padded, length-entry, padded-entry, Good, position-eq, entry-Good, finish_metadata-Good,
}

module _ {p : Platform} {file : Contents p} (regular : IsRegular file) (cfg : Settings) where
  -- The message was accepted: the file is an archive of the message and of its metadata, each with its
  -- size and the time, the client was told so, and the session is ready for a new transaction.
  pub record Archived (s : Session p) (body : Bytes) (s' : Session p) : Type 0 where
    pub message_time : ℕ
    pub metadata_time : ℕ
    pub bytes :
        file.bytes s'.disk
        ≡ entry (codes "message.mbox") body message_time
          ++ entry (codes "metadata.ervan") (metadata_bytes s.metadata) metadata_time
    pub replies : s'.sent ≡ ok ∷ s.sent
    pub state : s'.state ≡ cmd
    pub sender : s'.reverse_set ≡ false
    pub metadata : s'.metadata ≡ no_metadata

  pass_both {ℓ} :
      {A : Type ℓ} (b c : Bool) (x y z : A)
      → b ≡ false
      → c ≡ false
      → (if b then x else if c then y else z) ≡ z
  pass_both b c x y z e f = rw (e, f) refl

  finish_sync-eq :
      (s : Session p)
      → finish_sync p cfg s ≡ send p ok (let_go p cfg s (p.close (p.fsync s.disk).1))
  unfolding finish_sync
  finish_sync-eq s = rw (regular.fsync_done s.disk) refl

  abbrev message_entry : Bytes → ℕ → Bytes
  message_entry = entry (codes "message.mbox")

  -- From the padded message on.
  finish_padded-Archived :
      (s₀ s : Session p) (body : Bytes) (time : ℕ)
      → Good regular cfg s
          (message_entry body time)
          (length (message_entry body time))
          s₀.sent
          s₀.metadata
      → length (message_entry body time) + 512 + length (metadata_bytes s₀.metadata) < 2 ^ 64
      → Archived s₀ body (finish_padded p cfg s)
  unfolding finish_padded reset
  finish_padded-Archived s₀ s body time g small =
      let content = message_entry body time in
      let (time', g') = finish_metadata-Good regular cfg s content g small in
      let s' = finish_metadata p cfg (length content) s in
      let ends : finish_padded p cfg s ≡ send p ok (let_go p cfg s' (p.close (p.fsync s'.disk).1)) =
        ap
          (λ n.
            if s.data_error
            then abort_data p cfg s
            else if (finish_metadata p cfg n s).data_error
            then abort_data p cfg (finish_metadata p cfg n s)
            else finish_sync p cfg (finish_metadata p cfg n s))
          (position-eq regular cfg s content (length content) g)
        ∙ pass_both s.data_error s'.data_error _ _ _ g.sound g'.sound
        ∙ finish_sync-eq s' in
      subst (Archived s₀ body) (sym ends) (record {
        message_time = time;
        metadata_time = time';
        bytes =
            regular.close-bytes (p.fsync s'.disk).1
            ∙ regular.fsync-bytes s'.disk
            ∙ g'.stands.0
            ∙ padded-entry content
                (filled (codes "metadata.ervan") (length (metadata_bytes s₀.metadata)) time')
                (metadata_bytes s₀.metadata) (length-filled _ _ time')
                (length-entry (codes "message.mbox") body time).0;
        replies = ap (◌∷◌ ok) g'.replies;
        state = refl;
        sender = refl;
        metadata = refl;
      })

  -- finish_data, with no error met: if the file holds a block and then the message, takes every write,
  -- and stays below 2^63 bytes, then the file becomes an archive of two entries, the message and its
  -- metadata, each with a header that has its size and a time, and filled up to whole blocks; the
  -- reply that accepts the message is sent; and the session is ready for a new transaction.
  pub finish_data-Archived :
      (s : Session p) (space body : Bytes)
      → length space ≡ 512
      → s.data_error ≡ false
      → Stands file s.disk (space ++ body) (length (space ++ body))
      → length body + length (metadata_bytes s.metadata) < 2 ^ 63
      → Archived s body (finish_data p cfg s)
  unfolding finish_data finish_at finish_message write_data_tar_header
  finish_data-Archived s space body h sound stands small =
      let size = (length (space ++ body) + (2 ^ 64 - 512)) % 2 ^ 64 in
      let size-eq : size ≡ length body = omega (arith, length-append space body) in
      let good : Good regular cfg s (space ++ body) (length (space ++ body)) s.sent s.metadata =
        record { sound = sound; stands = stands; replies = refl; described = refl } in
      let (time, put_in) =
        entry-Good regular cfg (codes "message.mbox") size 0 [] space body s _ good h refl in
      let s' = finish_message p cfg (length (space ++ body)) s in
      let whole : padded (filled (codes "message.mbox") size time ++ body)
          ≡ message_entry body time =
        ap (λ n. padded (filled (codes "message.mbox") n time ++ body)) size-eq
        ∙ padded-entry [] (filled (codes "message.mbox") (length body) time) body
            (length-filled _ _ time) refl in
      let filled_up : Good regular cfg s' (message_entry body time)
          (length (message_entry body time)) s.sent s.metadata =
        subst (λ c. Good regular cfg s' c (length c) s.sent s.metadata) whole put_in in
      subst (λ o. Archived s body (finish_at p cfg o s))
        (sym (regular.tellg_position s.disk (space ++ body) (length (space ++ body)) stands))
        (finish_padded-Archived s s' body time filled_up
          (omega (arith, length-entry (codes "message.mbox") body time)))
