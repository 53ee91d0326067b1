-- ===== src/Smtp/Feed/Lines/Transaction.antt =====
-- A whole transaction, from the first bytes that a client sends to the archive on the disk.
use ervan.Base.{
  ℕ, ◌+◌, ◌^◌, ◌≤◌, ◌<◌, ◌≡◌, refl, sym, ap, subst, ◌∙◌, true, false, All, Bytes, codes, length,
  length-append, length-replicate, replicate, List, [], ◌∷◌, ◌++◌, map, append_assoc, some, arith,
}
use ervan.Common.Platform.{Platform}
use ervan.Common.Platform.Regular.{Contents, Stands, IsRegular}
use ervan.Common.Metadata.{Metadata}
use ervan.Common.Metadata.Appends.{metadata_bytes}
use ervan.Strings.Join.Lines.{lines}
use ervan.Smtp.Replies
use ervan.Smtp.Replies.{start_data}
use ervan.Smtp.Session.{cmd, Settings, Session, Effect, done, ◌>>=◌}
use ervan.Smtp.Session.Scratch.{each, visible}
use ervan.Smtp.Files.{write_front, finish_data}
use ervan.Smtp.Files.Archive.{Archived, finish_data-Archived}
use ervan.Smtp.Commands.{nowhere}
use ervan.Smtp.Commands.Opens.{file_name, data_begun, data_command-begun, data_begun-Stands}
use ervan.Smtp.Commands.Envelope.{Host, IsHost, print_host, Box, IsBox, print_box}
use ervan.Smtp.Dispatch.Named.{call_command-data}
use ervan.Smtp.Feed.{max_line_length, send_greeter, handle}
use ervan.Smtp.Feed.Stuffing.{stuff}
use ervan.Smtp.Feed.Transparent.{IsShort, total}
use ervan.Smtp.Feed.Pieces.Message.{whole}
use ervan.Smtp.Feed.Pieces.Stored.{
  message_bytes, length-message_bytes, regular-Written, end_message-Clean, Archived-same,
}
use ervan.Smtp.Feed.Lines.{Rooms, serve}
use ervan.Smtp.Feed.Lines.Same.{serve-append}
use ervan.Smtp.Feed.Lines.Rounds.{Ready}
use ervan.Smtp.Feed.Lines.Whole.{handle-serve}
use ervan.Smtp.Feed.Lines.Reads.{serve-Read}
use ervan.Smtp.Feed.Lines.Envelope.{envelope, ehlo_reply, serve_command, serve-Enveloped}

-- What a transaction says of itself.
abbrev pub described : Host → Box → List Box → Metadata
described h a bs = record {
  from = print_host h;
  reverse_path = print_box a;
  forward_paths = map print_box bs;
}

-- The lines of a message, dot-stuffed, with DATA before them and the dot behind them.
abbrev pub content : List Bytes → List Bytes
content ls = codes "DATA" ∷ (map stuff ls ++ (codes "." ∷ []))

then_done {ℓ} :
    {A : Type ℓ} (m : Effect A) (a : A) (f : A → Effect A) → m ≡ done a → (m >>= f) ≡ f a
then_done m a f e = ap (λ x. x >>= f) e

some_paths : (bs : List Box) → 0 < length bs → 0 < length (map print_box bs)
some_paths [] h = h
some_paths (b ∷ bs) h = omega arith

module _ {p : Platform} {file : Contents p} (regular : IsRegular file) (cfg : Settings) (r : Rooms)
    (wide : 510 ≤ r.command) (broad : max_line_length + 2 ≤ r.message) where
  -- The transaction went through. When DATA was answered, the client had got the replies to EHLO, one
  -- 250 for MAIL and for every RCPT, and 354; the session that it ends with has got one 250 more, is
  -- ready for a new transaction, and its file is an archive of some trace information with the lines
  -- behind it, and of the host, the sender and the recipients.
  pub record Transacted (h : Host) (a : Box) (bs : List Box) (ls : List Bytes) (s : Session p)
      (m : Effect (Session p)) : Type 0 where
    pub begun : Session p
    pub trace : Bytes
    pub finished : Session p
    pub ends : each visible m ≡ done (visible finished)
    pub invites :
        begun.sent
        ≡ start_data
          ∷ (replicate (length bs) Replies.ok ++ (Replies.ok ∷ (ehlo_reply cfg ++ s.sent)))
    pub metadata : begun.metadata ≡ described h a bs
    pub archived : Archived regular cfg begun (trace ++ message_bytes ls) finished

  serve_data :
      (s : Session p) (d : p.Disk) (ls : List Bytes)
      → s.state ≡ cmd
      → s.reverse_set ≡ true
      → 0 < length s.metadata.forward_paths
      → p.open_file (p.unique s.disk).1 (file_name regular cfg s.disk) ≡ some d
      → Stands file d [] 0
      → serve p cfg r (content ls) s
        ≡ serve p cfg r (map stuff ls ++ (codes "." ∷ [])) (data_begun regular cfg s d)
  serve_data s d ls e sender n o st =
      serve_command p cfg r wide (codes "DATA") (map stuff ls ++ (codes "." ∷ [])) s
        (data_begun regular cfg s d) e (omega arith)
        (call_command-data p cfg s ∙ data_command-begun regular cfg nowhere s d sender n o st)

  serve_message :
      (s : Session p) (d : p.Disk) (ls : List Bytes) (m : Metadata)
      → s.metadata ≡ m
      → s.data_error ≡ false
      → Stands file d [] 0
      → All IsShort ls
      → total ls ≤ s.max_data_size
      → length (file.bytes (write_front p cfg d).1) + total ls + length (metadata_bytes m) < 2 ^ 63
      → (t : Bytes) × (s' : Session p) × (serve p cfg r
            (map stuff ls ++ (codes "." ∷ []))
            (data_begun regular cfg s d)
          ≡ done s')
        × Archived regular cfg (data_begun regular cfg s d) (t ++ message_bytes ls) s'
  unfolding data_begun
  serve_message s d ls m described sound st short fits small =
      let (trace, stood) = data_begun-Stands regular cfg s d st in
      let space : Bytes = replicate 512 0 in
      let t = data_begun regular cfg s d in
      let body = trace ++ message_bytes ls in
      let (d', w, st') = regular-Written regular cfg ls t.disk (space ++ trace) stood in
      let read = serve-Read p cfg r broad ls t d' refl (refl, refl, sound) short (omega arith) w in
      let stood' : Stands file read.last.disk (space ++ body) (length (space ++ body)) =
        rw read.disk (
          subst (λ c. Stands file d' c (length c)) (append_assoc space trace (message_bytes ls))
            st') in
      let archived =
        finish_data-Archived regular cfg read.last space body (length-replicate {A = ℕ} 512 0)
          read.clean.2 stood'
          (omega (
            arith,
            ap length stood.0,
            length-append space trace,
            length-append trace (message_bytes ls),
            length-message_bytes ls,
            ap (λ x. length (metadata_bytes x)) (read.metadata ∙ described),
          )) in
      (
        trace,
        finish_data p cfg read.last,
        read.ends ∙ ap done (end_message-Clean regular cfg read.last read.clean),
        Archived-same regular cfg t read.last body (finish_data p cfg read.last) read.replies
            read.metadata archived,
      )

  serve-Transacted :
      (h : Host) (a : Box) (bs : List Box) (ls : List Bytes) (s : Session p) (d : p.Disk)
      → s.state ≡ cmd
      → s.data_error ≡ false
      → IsHost h
      → IsBox a
      → All IsBox bs
      → 0 < length bs
      → length bs ≤ cfg.max_rcpt
      → p.open_file (p.unique s.disk).1 (file_name regular cfg s.disk) ≡ some d
      → Stands file d [] 0
      → All IsShort ls
      → total ls ≤ cfg.max_message_size
      → length (file.bytes (write_front p cfg d).1)
          + total ls
          + length (metadata_bytes (described h a bs))
        < 2 ^ 63
      → Transacted h a bs ls s (serve p cfg r (envelope h a bs ++ content ls) s)
  unfolding data_begun
  serve-Transacted h a bs ls s d e sound host box boxes some_boxes few o st short fits small =
      let (t, k, env) = serve-Enveloped p cfg r wide h a bs s e host box boxes few in
      let n =
        subst (λ m. 0 < length m.forward_paths) (sym env.metadata) (some_paths bs some_boxes) in
      let opens =
        subst (λ x. p.open_file (p.unique x).1 (file_name regular cfg x) ≡ some d) (sym env.disk)
          o in
      let (trace, s', served, archived) =
        serve_message t d ls (described h a bs) env.metadata (env.error ∙ sound) st short
          (omega (arith, env.limit)) small in
      record {
        begun = data_begun regular cfg t d;
        trace = trace;
        finished = s';
        ends = ap (each visible) (
            serve-append p cfg r (envelope h a bs) (content ls) s
            ∙ then_done _ t (serve p cfg r (content ls)) k
            ∙ serve_data t d ls env.state env.reverse_set n opens st
            ∙ served);
        invites = ap (◌∷◌ start_data) env.sent;
        metadata = env.metadata;
        archived = archived;
      }

  -- A session that reads commands, has met no error, and whose buffers are ready for a line, the
  -- one for commands with at least 512 bytes and the one for a message with at least 1000; every
  -- write succeeds, and the message's file can be made, is empty, and stays below 2^63 bytes. If a
  -- client connects and sends EHLO with a host of dotted labels, MAIL FROM with a mailbox, RCPT TO
  -- with at least one mailbox and at most as many as the configuration allows, DATA, lines that are
  -- short enough and together within the configured limit, dot-stuffed, and the dot, all of it less
  -- than 2 GiB, in whatever pieces none of which is empty: then each command before DATA is
  -- answered with just the replies that accept it, and DATA with 354. But for what the buffers
  -- hold, the receive loop leaves a session that has sent just one 250 more, is ready for a new
  -- transaction, and whose file is an archive of some trace information with the lines behind it,
  -- and of the host, the sender and the recipients in order and as they were printed.
  pub handle-Transacted :
      (h : Host) (a : Box) (bs : List Box) (ls pieces : List Bytes) (s : Session p) (d : p.Disk)
      → s.state ≡ cmd
      → s.data_error ≡ false
      → Ready p cfg r s []
      → IsHost h
      → IsBox a
      → All IsBox bs
      → 0 < length bs
      → length bs ≤ cfg.max_rcpt
      → All IsShort ls
      → total ls ≤ cfg.max_message_size
      → All (λ x. 0 < length x) pieces
      → length (whole pieces) < 2 ^ 31
      → lines [] (whole pieces) ≡ envelope h a bs ++ content ls
      → p.open_file (p.unique s.disk).1 (file_name regular cfg s.disk) ≡ some d
      → Stands file d [] 0
      → length (file.bytes (write_front p cfg d).1)
          + total ls
          + length (metadata_bytes (described h a bs))
        < 2 ^ 63
      → Transacted h a bs ls (send_greeter p cfg s) (handle p cfg pieces s)
  unfolding send_greeter
  handle-Transacted h a bs ls pieces s d e sound ready host box boxes some_boxes few short fits
        some_left bound cut o st small =
      let t =
        serve-Transacted h a bs ls (send_greeter p cfg s) d e sound host box boxes some_boxes few o
          st short fits small in
      record {
        begun = t.begun;
        trace = t.trace;
        finished = t.finished;
        ends =
            handle-serve p cfg r broad pieces s ready some_left bound
            ∙ ap (λ x. each visible (serve p cfg r x (send_greeter p cfg s))) cut
            ∙ t.ends;
        invites = t.invites;
        metadata = t.metadata;
        archived = t.archived;
      }
