-- ===== src/Smtp/Feed/Pieces.antt =====
-- A message that arrives in pieces, through the receive loop to the file.
pub mod Message
pub mod Stored
pub mod Transaction
pub mod Examples
use ervan.Base.{
  ℕ, zero, suc, ◌+◌, ◌-◌, ◌^◌, ◌≤◌, ◌<◌, ◌≡◌, refl, sym, ap, subst, ◌∙◌, true, false, All, Bytes,
  length, length-append, codes, List, [], ◌∷◌, ◌++◌, map, append-nil, arith, none, some,
}
use ervan.Common.Platform.{Platform}
use ervan.Strings.Join.{LineBuffer, Joined, join, crlf}
use ervan.Strings.Join.Lines.{lines, leftover, lines-append}
use ervan.Strings.Join.Refines.{Holds}
use ervan.Strings.Join.Whole.{JoinsLine}
use ervan.Strings.Join.Pieces.{
  leftover-append, Completes, join-Completes, Continues, join-Continues, lines-nothing, lines-line,
}
use ervan.Smtp.Session.{State, in_data, Settings, Session, Effect, done, ◌>>=◌}
use ervan.Smtp.Feed.{
  Fed, max_line_length, take_line, end_message, data_round, feed_data, feed_round, feed,
  handle_piece, handle_pieces,
}
use ervan.Smtp.Feed.Stuffing.{stuff, Clean, Taken, take_line-Taken}
use ervan.Smtp.Feed.Transparent.{
  encoded, total, IsShort, length-stuff, stuff-IsLine, terminate-Holds, round_line, round_end,
  Written, Received, Received-more, again,
}

module _ (p : Platform) (cfg : Settings) (capacity : ℕ)
    (wide : max_line_length + 2 ≤ capacity) where
  -- Between two pieces of a message: the buffer holds `pending`, and no limit has been met.
  pub record Reading (s : Session p) (pending : Bytes) : Type 0 where
    pub state : s.state ≡ in_data
    pub holds : Holds capacity s.line_buffer s.line_offset pending
    pub clean : Clean p cfg s

  -- feed_data has used up the piece with a session that has written these lines and replied nothing.
  pub record Reads (s : Session p) (ls : List Bytes) (left : Bytes) (d : p.Disk)
      (m : Effect (Fed p)) : Type 0 where
    pub now : Session p
    pub ends : m ≡ done (record { session = now; rest = [] })
    pub reading : Reading now left
    pub disk : now.disk ≡ d
    pub size : now.data_size ≡ s.data_size + total ls
    pub limit : now.max_data_size ≡ s.max_data_size
    pub replies : now.sent ≡ s.sent
    pub metadata : now.metadata ≡ s.metadata

  round_none :
      (next : Session p → Bytes → Effect (Fed p)) (left : Bytes) (j : Joined) (s : Session p)
      → Continues capacity left j
      → data_round p cfg next j j.line s ≡ done (record { session = s; rest = [] })
  unfolding data_round
  round_none next left j s (a, b, c, h) = rw (a, b, c) refl

  -- What a round makes of a line that is within the limits.
  module _ (s : Session p) (l : Bytes) (e : p.Disk) (j : Joined) (tail : Bytes)
      (joined : JoinsLine capacity (stuff l) tail j) (clean : Clean p cfg s)
      (short : length l ≤ max_line_length - 2)
      (fits : s.data_size + (length l + 2) ≤ s.max_data_size)
      (w : p.write s.disk (l ++ crlf) ≡ (true, e)) where
    abbrev line_joined : Session p
    line_joined = record s { line_buffer = j.buffer; line_offset = j.offset }

    abbrev line_taken : Session p
    line_taken = take_line p cfg (length (stuff l)) (stuff l) line_joined

    line-Taken : Taken p cfg line_joined l e (length (stuff l)) line_taken
    line-Taken = take_line-Taken p cfg (length (stuff l)) l line_joined e clean (short, fits) w

    line-Holds : Holds capacity line_taken.line_buffer line_taken.line_offset []
    line-Holds =
        rw (line-Taken.buffer, line-Taken.offset)
          (terminate-Holds p cfg capacity j.buffer j.offset (length (stuff l)) joined.ready
            (omega (arith, length-stuff l)))

  -- A piece that ends in the middle of a message.
  feed_data-Reads :
      (fuel : ℕ) (s : Session p) (pending src : Bytes) (ls : List Bytes) (d : p.Disk)
      → Reading s pending
      → lines pending src ≡ map stuff ls
      → All IsShort ls
      → s.data_size + total ls ≤ s.max_data_size
      → Written p cfg s.disk ls d
      → length pending + length src < 2 ^ 31
      → length src < fuel
      → Reads s ls (leftover pending src) d (feed_data p cfg fuel s src)
  unfolding feed_data
  feed_data-Reads zero s pending src ls d r e short fits w bound enough = absurd (omega arith)
  feed_data-Reads (suc fuel) s pending src [] d r e short fits w bound enough =
      let j = join s.line_buffer src s.line_offset crlf in
      let c = join-Continues capacity s.line_buffer s.line_offset pending src r.holds bound e in
      record {
        now = record s { line_buffer = j.buffer; line_offset = j.offset };
        ends = round_none (feed_data p cfg fuel) _ j _ c;
        reading = record { state = r.state; holds = c.3; clean = r.clean };
        disk = w;
        size = omega arith;
        limit = refl;
        replies = refl;
        metadata = refl;
      }
  feed_data-Reads (suc fuel) s pending src (l ∷ ls) d r e ((line, len), short) fits (x, w, ws) bound
        enough =
      let (tail, joined, f, g, less) =
        join-Completes capacity s.line_buffer s.line_offset pending src (stuff l) (map stuff ls)
          r.holds bound e (omega (arith, length-stuff l)) in
      let j = join s.line_buffer src s.line_offset crlf in
      let taken = line-Taken s l x j tail joined r.clean len (omega arith) w in
      let t = line_taken s l x j tail joined r.clean len (omega arith) w in
      let rest =
        feed_data-Reads fuel t [] tail ls d
          (record {
            state = taken.state ∙ r.state;
            holds = line-Holds s l x j tail joined r.clean len (omega arith) w;
            clean = taken.clean;
          })
          f short (omega (arith, taken.size, taken.limit)) (rw taken.disk ws) (omega arith)
          (omega arith) in
      record {
        now = rest.now;
        ends = round_line p cfg (feed_data p cfg fuel) capacity j _ l tail joined ∙ rest.ends;
        reading = subst (Reading rest.now) g rest.reading;
        disk = rest.disk;
        size = omega (arith, rest.size, taken.size);
        limit = rest.limit ∙ taken.limit;
        replies = rest.replies ∙ taken.reply;
        metadata = rest.metadata ∙ taken.metadata;
      }

  -- A piece that ends with the end of the message.
  feed_data-ends :
      (fuel : ℕ) (s : Session p) (pending src : Bytes) (ls : List Bytes) (d : p.Disk)
      → Reading s pending
      → lines pending src ≡ map stuff ls ++ (codes "." ∷ [])
      → leftover pending src ≡ []
      → All IsShort ls
      → s.data_size + total ls ≤ s.max_data_size
      → Written p cfg s.disk ls d
      → length pending + length src < 2 ^ 31
      → length src < fuel
      → Received p cfg s ls [] d (feed_data p cfg fuel s src)
  unfolding feed_data
  feed_data-ends zero s pending src ls d r e left short fits w bound enough = absurd (omega arith)
  feed_data-ends (suc fuel) s pending src [] d r e left short fits w bound enough =
      let (tail, joined, f, g, less) =
        join-Completes capacity s.line_buffer s.line_offset pending src (codes ".") [] r.holds bound
          e (omega arith) in
      let j = join s.line_buffer src s.line_offset crlf in
      let t = record s { line_buffer = j.buffer; line_offset = j.offset } in
      record {
        last = t;
        ends =
            round_end p cfg (feed_data p cfg fuel) capacity j t tail joined
            ∙ ap (λ left. done (record { session = end_message p cfg t; rest = left }))
                (lines-nothing [] tail f (g ∙ left));
        disk = w;
        size = omega arith;
        clean = r.clean;
        replies = refl;
        metadata = refl;
      }
  feed_data-ends (suc fuel) s pending src (l ∷ ls) d r e left ((line, len), short) fits (x, w, ws)
        bound enough =
      let (tail, joined, f, g, less) =
        join-Completes capacity s.line_buffer s.line_offset pending src (stuff l)
          (map stuff ls ++ (codes "." ∷ [])) r.holds bound e (omega (arith, length-stuff l)) in
      let j = join s.line_buffer src s.line_offset crlf in
      let taken = line-Taken s l x j tail joined r.clean len (omega arith) w in
      let t = line_taken s l x j tail joined r.clean len (omega arith) w in
      again p cfg s (line_joined s l x j tail joined r.clean len (omega arith) w) (l ∷ ls) [] d _
        refl refl refl
        (Received-more p cfg _ t l ls [] d x (length (stuff l)) _ _ taken
          (round_line p cfg (feed_data p cfg fuel) capacity j _ l tail joined)
          (feed_data-ends fuel t [] tail ls d
            (record {
              state = taken.state ∙ r.state;
              holds = line-Holds s l x j tail joined r.clean len (omega arith) w;
              clean = taken.clean;
            })
            f (g ∙ left) short (omega (arith, taken.size, taken.limit)) (rw taken.disk ws)
            (omega arith) (omega arith)))

  -- A session in the middle of a message takes a piece as message data.
  feed-in_data :
      (s t : Session p) (c : ℕ) (cs : Bytes)
      → s.state ≡ in_data
      → feed_data p cfg (suc (length (c ∷ cs))) s (c ∷ cs)
        ≡ done (record { session = t; rest = [] })
      → feed p cfg (length (c ∷ cs)) s (c ∷ cs) ≡ done t
  unfolding feed feed_round
  feed-in_data s t c cs e k =
      ap
        (λ x.
          feed_round p cfg x s (c ∷ cs) >>= (λ fed. feed p cfg (length cs) fed.session fed.rest))
        e
      ∙ ap (λ m. m >>= (λ fed. feed p cfg (length cs) fed.session fed.rest)) k

  handle_pieces-in_data :
      (s t : Session p) (piece : Bytes) (pieces : List Bytes)
      → s.state ≡ in_data
      → 0 < length piece
      → feed_data p cfg (suc (length piece)) s piece ≡ done (record { session = t; rest = [] })
      → handle_pieces p cfg (piece ∷ pieces) s ≡ handle_pieces p cfg pieces t
  unfolding handle_piece handle_pieces
  handle_pieces-in_data s t [] pieces e some_left k = absurd (omega arith)
  handle_pieces-in_data s t (c ∷ cs) pieces e some_left k =
      ap (λ x. handle_piece p cfg (handle_pieces p cfg pieces) (c ∷ cs) x s) e
      ∙ ap (λ m. m >>= handle_pieces p cfg pieces) (feed-in_data s t c cs e k)
