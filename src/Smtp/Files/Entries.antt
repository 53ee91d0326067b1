-- ===== src/Smtp/Files/Entries.antt =====
-- The entries of the archive, put into the file one after the other.
use ervan.Base.{
  ℕ, ◌+◌, ◌-◌, ◌%◌, ◌^◌, ◌≤◌, ◌<◌, ◌≡◌, refl, sym, ap, subst, ◌∙◌, true, false, Bytes, codes,
  length, length-append, length-replicate, replicate, List, ◌++◌, append_assoc, arith,
}
use ervan.Common.Platform.{Platform, Task, put}
use ervan.Common.Platform.Regular.{Contents, Stands, IsRegular, put-Appends}
use ervan.Common.Tar.{filled}
use ervan.Common.Tar.Header.{length-filled}
use ervan.Common.Metadata.{Metadata, write_to}
use ervan.Common.Metadata.Appends.{metadata_bytes, write_to-Appends}
use ervan.Smtp.Session.{Settings, Session}
use ervan.Smtp.Files.{
  write_header_space, write_metadata_tar_header, position, pad_data, check, seek_set, seek_end,
  finish_metadata,
}

-- An entry of the archive; its last block is filled up with NULs.
abbrev pub entry : Bytes → Bytes → ℕ → Bytes
entry name body time =
    filled name (length body) time ++ (body ++ replicate (512 - (512 + length body) % 512) 0)

abbrev pub padded : Bytes → Bytes
padded content = content ++ replicate (512 - length content % 512) 0

pub length-entry :
    (name body : Bytes) (time : ℕ)
    → (length (entry name body time) % 512 ≡ 0)
      × (length (entry name body time) ≤ length body + 1024)
length-entry name body time =
    let pad : Bytes = replicate (512 - (512 + length body) % 512) 0 in
    let size : length (entry name body time)
        ≡ 512 + (length body + (512 - (512 + length body) % 512)) =
      omega (
        arith,
        length-append (filled name (length body) time) (body ++ pad),
        length-append body pad,
        length-filled name (length body) time,
        length-replicate {A = ℕ} (512 - (512 + length body) % 512) 0,
      ) in
    (omega (arith, size), omega (arith, size))

-- Behind whole blocks, the padding is that of the entry.
pub padded-entry :
    (front header body : Bytes)
    → length header ≡ 512
    → length front % 512 ≡ 0
    → padded (front ++ (header ++ body))
      ≡ front ++ (header ++ (body ++ replicate (512 - (512 + length body) % 512) 0))
padded-entry front header body h k =
    let rest : 512 - length (front ++ (header ++ body)) % 512 ≡ 512 - (512 + length body) % 512 =
      omega (arith, length-append front (header ++ body), length-append header body) in
    ap (λ n. (front ++ (header ++ body)) ++ replicate n 0) rest
    ∙ append_assoc front (header ++ body) (replicate (512 - (512 + length body) % 512) 0)
    ∙ ap (◌++◌ front) (append_assoc header body (replicate (512 - (512 + length body) % 512) 0))

-- The size that finish_metadata reckons for the metadata.
pub sized :
    (content space written : Bytes) (before behind : ℕ)
    → length space ≡ 512
    → length content + 512 + length written < 2 ^ 64
    → before ≡ length (content ++ space)
    → behind ≡ length (content ++ (space ++ written))
    → (behind + (2 ^ 64 - before)) % 2 ^ 64 ≡ length written
sized content space written before behind h small e f = omega (
  arith,
  length-append content space,
  length-append content (space ++ written),
  length-append space written,
)

module _ {p : Platform} {file : Contents p} (regular : IsRegular file) (cfg : Settings) where
  -- No error has been met, and the file holds these bytes.
  pub record Good (s : Session p) (content : Bytes) (pos : ℕ) (sent : List Bytes) (m : Metadata)
      : Type 0 where
    pub sound : s.data_error ≡ false
    pub stands : Stands file s.disk content pos
    pub replies : s.sent ≡ sent
    pub described : s.metadata ≡ m

  module _ {sent : List Bytes} {m : Metadata} where
    check-Good :
        (task : Task p) (s : Session p) (content content' : Bytes) (pos pos' : ℕ)
        → Good s content pos sent m
        → (task s.disk).0 ≡ true
        → Stands file (task s.disk).1 content' pos'
        → Good (check p cfg task s) content' pos' sent m
    unfolding check
    check-Good task s content content' pos pos' g e h =
        rw g.sound
          (record { sound = rw e refl; stands = h; replies = g.replies; described = g.described })

    seek_set-Good :
        (s : Session p) (content : Bytes) (pos offset : ℕ)
        → Good s content pos sent m
        → Good (seek_set p cfg offset s) content offset sent m
    seek_set-Good s content pos offset g = record {
      sound = g.sound;
      stands = regular.seek_set-Stands s.disk content pos offset g.stands;
      replies = g.replies;
      described = g.described;
    }

    seek_end-Good :
        (s : Session p) (content : Bytes) (pos : ℕ)
        → Good s content pos sent m
        → Good (seek_end p cfg s) content (length content) sent m
    seek_end-Good s content pos g = record {
      sound = g.sound;
      stands = regular.seek_end-Stands s.disk content pos g.stands;
      replies = g.replies;
      described = g.described;
    }

    pub position-eq :
        (s : Session p) (content : Bytes) (pos : ℕ)
        → Good s content pos sent m
        → position p cfg s.disk ≡ pos
    position-eq s content pos g = rw (regular.tellg_position s.disk content pos g.stands) refl

    pad_data-Good :
        (s : Session p) (content : Bytes)
        → Good s content (length content) sent m
        → Good (check p cfg (pad_data p cfg) s) (padded content) (length (padded content)) sent m
    unfolding pad_data
    pad_data-Good s content g =
        let (e, h) =
          regular.write_end s.disk content (replicate (512 - length content % 512) 0) g.stands in
        let same : pad_data p cfg s.disk
            ≡ p.write s.disk (replicate (512 - length content % 512) 0) =
          ap (λ n. p.write s.disk (replicate (512 - n % 512) 0))
            (position-eq s content (length content) g) in
        check-Good (pad_data p cfg) s content (padded content) (length content)
          (length (padded content)) g (ap (λ r. r.0) same ∙ e)
          (subst (λ r. Stands file r.1 (padded content) (length (padded content))) (sym same) h)

    -- The header of an entry is put into its space, and the file filled up.
    pub entry-Good :
        (name : Bytes) (size offset : ℕ) (front space back : Bytes) (s : Session p) (pos : ℕ)
        → Good s (front ++ (space ++ back)) pos sent m
        → length space ≡ 512
        → offset ≡ length front
        → (time : ℕ) × Good
            (check p cfg (pad_data p cfg) (
              seek_end p cfg (
                check p cfg
                  (λ d. p.write d (filled name size (p.time d)))
                  (seek_set p cfg offset s))))
            (padded (front ++ (filled name size time ++ back)))
            (length (padded (front ++ (filled name size time ++ back))))
            sent
            m
    entry-Good name size offset front space back s pos g sized at =
        let time = p.time (p.seek_set s.disk offset) in
        let sought = seek_set-Good s _ pos offset g in
        let (e, h) =
          regular.write_over (p.seek_set s.disk offset) front space back (filled name size time)
            (subst (Stands file (p.seek_set s.disk offset) (front ++ (space ++ back))) at
              sought.stands)
            (sized ∙ sym (length-filled name size time)) in
        let put_in =
          check-Good (λ d. p.write d (filled name size (p.time d))) (seek_set p cfg offset s) _ _ _
            _ sought e h in
        (time, pad_data-Good _ _ (seek_end-Good _ _ _ put_in))

    -- finish_metadata, with the metadata `m`.
    pub finish_metadata-Good :
        (s : Session p) (content : Bytes)
        → Good s content (length content) sent m
        → length content + 512 + length (metadata_bytes m) < 2 ^ 64
        → (time : ℕ) × Good
            (finish_metadata p cfg (length content) s)
            (padded (
              content
              ++ (filled (codes "metadata.ervan") (length (metadata_bytes m)) time
                  ++ metadata_bytes m)))
            (length (
              padded (
                content
                ++ (filled (codes "metadata.ervan") (length (metadata_bytes m)) time
                    ++ metadata_bytes m))))
            sent
            m
    unfolding finish_metadata write_header_space write_metadata_tar_header
    finish_metadata-Good s content g small =
        let space = replicate 512 0 in
        let (e, h) = put-Appends file regular space s.disk content g.stands in
        let s₁ = check p cfg (write_header_space p cfg) s in
        let g₁ : Good s₁ (content ++ space) (length (content ++ space)) sent m =
          check-Good (put p space) s content _ (length content) _ g e h in
        let (e₂, h₂) = write_to-Appends regular s₁.metadata s₁.disk (content ++ space) g₁.stands in
        let s₂ = check p cfg (write_to p s₁.metadata) s₁ in
        let g₂ = check-Good (write_to p s₁.metadata) s₁ _ _ _ _ g₁ e₂ h₂ in
        let written = metadata_bytes m in
        let same : (content ++ space) ++ metadata_bytes s₁.metadata
            ≡ content ++ (space ++ written) =
          ap (λ x. (content ++ space) ++ metadata_bytes x) g₁.described
          ∙ append_assoc content space written in
        let g₃ = subst (λ c. Good s₂ c (length c) sent m) same g₂ in
        let size = (position p cfg s₂.disk + (2 ^ 64 - position p cfg s₁.disk)) % 2 ^ 64 in
        let size-eq : size ≡ length written =
          sized content space written (position p cfg s₁.disk) (position p cfg s₂.disk)
            (length-replicate {A = ℕ} 512 0) small (position-eq s₁ _ _ g₁)
            (position-eq s₂ _ _ g₃) in
        let (time, put_in) =
          entry-Good (codes "metadata.ervan") size (length content) content space written s₂ _ g₃
            (length-replicate {A = ℕ} 512 0) refl in
        (
          time,
          subst
              (λ n.
                Good (finish_metadata p cfg (length content) s)
                  (padded (content ++ (filled (codes "metadata.ervan") n time ++ written)))
                  (length (padded (content ++ (filled (codes "metadata.ervan") n time ++ written))))
                  sent m)
              size-eq put_in,
        )
