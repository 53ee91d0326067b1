-- ===== src/Smtp/Feed/Transparent.antt =====
-- A whole message, through feed_data to the file.
use ervan.Base.{
  ℕ, zero, suc, ◌+◌, ◌-◌, ◌^◌, ◌≤◌, ◌<◌, ◌≡◌, refl, ◌∙◌, true, ◌==◌, Bool-cases, inl, inr, All,
  Bytes, length, length-append, codes, List, [], ◌∷◌, ◌++◌, arith,
}
use ervan.Common.Platform.{Platform, c_string}
use ervan.Strings.Join.{LineBuffer, Joined, join, crlf}
use ervan.Strings.Join.Refines.{Holds}
use ervan.Strings.Join.Whole.{IsLine, JoinsLine, join-JoinsLine, store-Holds}
use ervan.Smtp.Session.{Settings, Session, Effect, done}
use ervan.Smtp.Feed.{
  Fed, is_end, max_line_length, terminate, take_line, end_message, data_round, feed_data,
}
use ervan.Smtp.Feed.Stuffing.{stuff, is_end-stuff, Clean, Taken, take_line-Taken}

-- What a client sends for a message of these lines, in front of the rest of its input.
abbrev pub encoded : List Bytes → Bytes → Bytes
encoded [] rest = codes "." ++ (crlf ++ rest)
encoded (l ∷ ls) rest = stuff l ++ (crlf ++ encoded ls rest)

-- The size of the message, with the CR LF of each line.
abbrev pub total : List Bytes → ℕ
total [] = 0
total (l ∷ ls) = length l + 2 + total ls

-- A line that feed_data takes: no line feed, and no more than 996 bytes.
abbrev pub IsShort : Bytes → Type 0
IsShort l = IsLine l × (length l ≤ max_line_length - 2)

pub length-stuff : (l : Bytes) → length (stuff l) ≤ length l + 1
length-stuff [] = omega arith
length-stuff (c ∷ cs) = ground arith

pub stuff-IsLine : (l : Bytes) → IsLine l → IsLine (stuff l)
stuff-IsLine [] h = tt
stuff-IsLine (c ∷ cs) (e, h) = elim (Bool-cases (c == b'.')) [
  | inl d ↦ rw d (e, (e, h))
  | inr d ↦ rw d (e, h)
]

pub dot_is_end : is_end (codes ".") ≡ true
unfolding is_end c_string
dot_is_end = refl

module _ (p : Platform) (cfg : Settings) where
  pub terminate-Holds :
      (capacity : ℕ) (b : LineBuffer) (offset end : ℕ)
      → Holds capacity b offset []
      → end + 2 < capacity
      → Holds capacity (terminate p cfg b end) offset []
  unfolding terminate
  terminate-Holds capacity b offset end h l =
      store-Holds capacity _ offset (end + 2) 0
        (store-Holds capacity _ offset (end + 1) b'\n'
          (store-Holds capacity b offset end b'\r' h (omega arith)) (omega arith))
        l

  pub round_line :
      (next : Session p → Bytes → Effect (Fed p)) (capacity : ℕ) (j : Joined) (s : Session p)
      (l tail : Bytes)
      → JoinsLine capacity (stuff l) tail j
      → data_round p cfg next j j.line s
        ≡ next (take_line p cfg (length (stuff l)) (stuff l) s) tail
  unfolding data_round
  round_line next capacity j s l tail h = rw (h.line, h.bytes, is_end-stuff l, h.rest) refl

  pub round_end :
      (next : Session p → Bytes → Effect (Fed p)) (capacity : ℕ) (j : Joined) (s : Session p)
      (tail : Bytes)
      → JoinsLine capacity (codes ".") tail j
      → data_round p cfg next j j.line s
        ≡ done (record { session = end_message p cfg s; rest = tail })
  unfolding data_round
  round_end next capacity j s tail h = rw (h.line, h.bytes, dot_is_end, h.rest) refl

  -- The file takes each line with its CR LF, one after the other, and is then `d'`.
  abbrev pub Written : p.Disk → List Bytes → p.Disk → Type 0
  Written d [] d' = d ≡ d'
  Written d (l ∷ ls) d' = (e : p.Disk) × (p.write d (l ++ crlf) ≡ (true, e)) × Written e ls d'

  -- feed_data has come to the message's end with a session `last`, which wrote the lines and replied
  -- nothing, and has ended the message there.
  pub record Received (s : Session p) (ls : List Bytes) (rest : Bytes) (d : p.Disk)
      (m : Effect (Fed p)) : Type 0 where
    pub last : Session p
    pub ends : m ≡ done (record { session = end_message p cfg last; rest = rest })
    pub disk : last.disk ≡ d
    pub size : last.data_size ≡ s.data_size + total ls
    pub clean : Clean p cfg last
    pub replies : last.sent ≡ s.sent
    pub metadata : last.metadata ≡ s.metadata

  pub Received-more :
      (s t : Session p) (l : Bytes) (ls : List Bytes) (rest : Bytes) (d e : p.Disk) (end : ℕ)
      (m m' : Effect (Fed p))
      → Taken p cfg s l e end t
      → m ≡ m'
      → Received t ls rest d m'
      → Received s (l ∷ ls) rest d m
  Received-more s t l ls rest d e end m m' k q r = record {
    last = r.last;
    ends = q ∙ r.ends;
    disk = r.disk;
    size = omega (arith, r.size, k.size);
    clean = r.clean;
    replies = r.replies ∙ k.reply;
    metadata = r.metadata ∙ k.metadata;
  }

  pub again :
      (s t : Session p) (ls : List Bytes) (rest : Bytes) (d : p.Disk) (m : Effect (Fed p))
      → t.data_size ≡ s.data_size
      → t.sent ≡ s.sent
      → t.metadata ≡ s.metadata
      → Received t ls rest d m
      → Received s ls rest d m
  again s t ls rest d m a b c r = record {
    last = r.last;
    ends = r.ends;
    disk = r.disk;
    size = omega (arith, r.size, a);
    clean = r.clean;
    replies = r.replies ∙ b;
    metadata = r.metadata ∙ c;
  }

  -- A message of lines that are short enough, and together within the session's limit, is received
  -- in any number of rounds that is more than the bytes of the input. With a buffer of at least 1000
  -- bytes that is ready for a line, no flag set, less than 2 GiB of input and every write
  -- succeeding, feed_data takes the message up to the dot, writes to the file just its lines with
  -- their CR LF, in order and with the doubled dots taken away, counts their bytes, replies nothing
  -- before the dot, and then ends the message; the rest of the input is left.
  pub feed_data-Received :
      (capacity fuel : ℕ) (s : Session p) (ls : List Bytes) (rest : Bytes) (d : p.Disk)
      → max_line_length + 2 ≤ capacity
      → Holds capacity s.line_buffer s.line_offset []
      → Clean p cfg s
      → All IsShort ls
      → s.data_size + total ls ≤ s.max_data_size
      → Written s.disk ls d
      → length (encoded ls rest) < 2 ^ 31
      → length (encoded ls rest) < fuel
      → Received s ls rest d (feed_data p cfg fuel s (encoded ls rest))
  unfolding feed_data
  feed_data-Received capacity zero s ls rest d cap h c short fits w bound enough =
      absurd (omega arith)
  feed_data-Received capacity (suc fuel) s [] rest d cap h c short fits w bound enough =
      let joined =
        join-JoinsLine capacity s.line_buffer s.line_offset (codes ".") rest h (refl, tt)
          (omega arith) bound in
      record {
        last = record s {
          line_buffer =
              (join s.line_buffer (codes "." ++ (crlf ++ rest)) s.line_offset crlf).buffer;
          line_offset =
              (join s.line_buffer (codes "." ++ (crlf ++ rest)) s.line_offset crlf).offset;
        };
        ends = round_end (feed_data p cfg fuel) capacity _ _ rest joined;
        disk = w;
        size = omega arith;
        clean = c;
        replies = refl;
        metadata = refl;
      }
  feed_data-Received capacity (suc fuel) s (l ∷ ls) rest d cap h c ((line, len), short) fits
        (e, w, ws) bound enough =
      let tail = encoded ls rest in
      let more = length-append (stuff l) (crlf ++ tail) in
      let longer = length-stuff l in
      let joined =
        join-JoinsLine capacity s.line_buffer s.line_offset (stuff l) tail h (stuff-IsLine l line)
          (omega arith) bound in
      let j = join s.line_buffer (stuff l ++ (crlf ++ tail)) s.line_offset crlf in
      let s₁ = record s { line_buffer = j.buffer; line_offset = j.offset } in
      let taken = take_line-Taken p cfg (length (stuff l)) l s₁ e c (len, omega arith) w in
      let t = take_line p cfg (length (stuff l)) (stuff l) s₁ in
      let ready : Holds capacity t.line_buffer t.line_offset [] =
        rw (taken.buffer, taken.offset)
          (terminate-Holds capacity j.buffer j.offset (length (stuff l)) joined.ready
            (omega arith)) in
      let written : Written t.disk ls d = rw taken.disk ws in
      again s s₁ (l ∷ ls) rest d _ refl refl refl (
        Received-more s₁ t l ls rest d e (length (stuff l)) _ _ taken
          (round_line (feed_data p cfg fuel) capacity j s₁ l tail joined)
          (feed_data-Received capacity fuel t ls rest d cap ready taken.clean short
            (omega (arith, taken.size, taken.limit)) written (omega arith) (omega arith)))
