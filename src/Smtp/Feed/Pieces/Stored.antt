-- ===== src/Smtp/Feed/Pieces/Stored.antt =====
-- From the pieces that a client sends to the archive on the disk.
use ervan.Base.{
  ℕ, ◌+◌, ◌^◌, ◌≤◌, ◌<◌, ◌≡◌, refl, ap, subst, ◌∙◌, Bool, true, false, not, ◌&&◌, if◌then◌else◌,
  All, Bytes, length, length-append, codes, List, [], ◌∷◌, ◌++◌, append-nil, append_assoc, arith,
}
use ervan.Common.Platform.{Platform}
use ervan.Common.Platform.Regular.{Contents, Stands, IsRegular}
use ervan.Common.Metadata.Appends.{metadata_bytes}
use ervan.Strings.Join.{crlf}
use ervan.Strings.Join.Refines.{Holds}
use ervan.Smtp.Replies.{ok}
use ervan.Smtp.Session.{in_data, Settings, Session}
use ervan.Smtp.Files.{finish_data}
use ervan.Smtp.Files.Entries.{entry}
use ervan.Smtp.Files.Archive.{Archived, finish_data-Archived}
use ervan.Smtp.Feed.{max_line_length, end_message, handle_pieces}
use ervan.Smtp.Feed.Stuffing.{Clean}
use ervan.Smtp.Feed.Transparent.{encoded, total, IsShort, Written}
use ervan.Smtp.Feed.Pieces.Message.{whole, handle_pieces-Delivered}

-- The lines as they stand in the file.
abbrev pub message_bytes : List Bytes → Bytes
message_bytes [] = []
message_bytes (l ∷ ls) = l ++ (crlf ++ message_bytes ls)

pub length-message_bytes : (ls : List Bytes) → length (message_bytes ls) ≡ total ls
length-message_bytes [] = refl
length-message_bytes (l ∷ ls) =
    omega (arith, length-append l (crlf ++ message_bytes ls), length-message_bytes ls)

both_parts {ℓ κ} : {A : Type ℓ} {B : Type κ} (r : A × B) (a : A) → r.0 ≡ a → r ≡ (a, r.1)
both_parts (x, y) a e = ap (λ z. (z, y)) e

neither {ℓ} :
    {A : Type ℓ} (b c : Bool) (x y : A)
    → b ≡ false
    → c ≡ false
    → (if not b && not c then x else y) ≡ x
neither b c x y e f = rw (e, f) refl

module _ {p : Platform} {file : Contents p} (regular : IsRegular file) (cfg : Settings) where
  -- A regular file takes the lines.
  pub regular-Written :
      (ls : List Bytes) (d : p.Disk) (content : Bytes)
      → Stands file d content (length content)
      → (d' : p.Disk) × Written p cfg d ls d'
        × Stands file d' (content ++ message_bytes ls) (length (content ++ message_bytes ls))
  regular-Written [] d content h = (d, refl, rw append-nil h)
  regular-Written (l ∷ ls) d content h =
      let (e, k) = regular.write_end d content (l ++ crlf) h in
      let d₁ = (p.write d (l ++ crlf)).1 in
      let (d', w, st) = regular-Written ls d₁ (content ++ (l ++ crlf)) k in
      (
        d',
        (d₁, both_parts (p.write d (l ++ crlf)) true e, w),
        subst (λ c. Stands file d' c (length c))
            (append_assoc content (l ++ crlf) (message_bytes ls)
              ∙ ap (◌++◌ content) (append_assoc l crlf (message_bytes ls)))
            st,
      )

  pub end_message-Clean :
      (s : Session p) → Clean p cfg s → end_message p cfg s ≡ finish_data p cfg s
  unfolding end_message
  end_message-Clean s (a, b, c) = neither s.line_too_long s.data_too_long _ _ a b

  -- The archive of a session that differs from another only in what it has written.
  pub Archived-same :
      (s t : Session p) (body : Bytes) (s' : Session p)
      → t.sent ≡ s.sent
      → t.metadata ≡ s.metadata
      → Archived regular cfg t body s'
      → Archived regular cfg s body s'
  Archived-same s t body s' e m a = record {
    message_time = a.message_time;
    metadata_time = a.metadata_time;
    bytes =
        a.bytes
        ∙ ap
            (λ x.
              entry (codes "message.mbox") body a.message_time
              ++ entry (codes "metadata.ervan") (metadata_bytes x) a.metadata_time)
            m;
    replies = a.replies ∙ ap (◌∷◌ ok) e;
    state = a.state;
    sender = a.sender;
    metadata = a.metadata;
  }

  -- A session that reads a message: its file holds a block and then a first part of the message, all
  -- writes succeed, no flag is set, and the buffer, of at least 1000 bytes, is ready for a line. If a
  -- client sends lines that are short enough and together within the session's limit, dot-stuffed and
  -- with the dot behind them, in whatever pieces none of which is empty, less than 2 GiB in all, and
  -- the file stays below 2^63 bytes: then the receive loop comes to a session whose file is an archive
  -- of the first part with the lines behind it, and of the metadata, each with its size; the client
  -- has got just the reply that accepts the message; the session is ready for a new transaction, and
  -- goes on with what arrives later.
  pub handle_pieces-Archived :
      (capacity : ℕ) (pieces later ls : List Bytes) (s : Session p) (space front : Bytes)
      → max_line_length + 2 ≤ capacity
      → s.state ≡ in_data
      → Holds capacity s.line_buffer s.line_offset []
      → Clean p cfg s
      → All (λ a. 0 < length a) pieces
      → whole pieces ≡ encoded ls []
      → length (encoded ls []) < 2 ^ 31
      → All IsShort ls
      → s.data_size + total ls ≤ s.max_data_size
      → length space ≡ 512
      → Stands file s.disk (space ++ front) (length (space ++ front))
      → length front + total ls + length (metadata_bytes s.metadata) < 2 ^ 63
      → (s' : Session p) × (handle_pieces p cfg (pieces ++ later) s ≡ handle_pieces p cfg later s')
        × Archived regular cfg s (front ++ message_bytes ls) s'
  handle_pieces-Archived capacity pieces later ls s space front wide state holds clean some_left e
        bound short fits sized stands small =
      let (d, w, st) = regular-Written ls s.disk (space ++ front) stands in
      let r =
        handle_pieces-Delivered p cfg capacity wide pieces later ls s d state holds clean some_left
          e bound short fits w in
      let body = front ++ message_bytes ls in
      let stood : Stands file r.last.disk (space ++ body) (length (space ++ body)) = rw r.disk (
        subst (λ c. Stands file d c (length c)) (append_assoc space front (message_bytes ls)) st) in
      let archived = finish_data-Archived regular cfg r.last space body sized r.clean.2 stood (
        omega (
          arith,
          length-append front (message_bytes ls),
          length-message_bytes ls,
          ap (λ m. length (metadata_bytes m)) r.metadata,
        )) in
      (
        finish_data p cfg r.last,
        r.ends ∙ ap (handle_pieces p cfg later) (end_message-Clean r.last r.clean),
        Archived-same s r.last body (finish_data p cfg r.last) r.replies r.metadata archived,
      )
