-- ===== src/Smtp/Feed/Pieces/Message.antt =====
-- A whole message, whatever the pieces in which it arrives.
use ervan.Base.{
  ℕ, suc, ◌+◌, ◌^◌, ◌≤◌, ◌<◌, ◌≡◌, ◌≢◌, refl, sym, ap, subst, ◌∙◌, false, ◌&&◌, ◌==◌, Bool-cases,
  inl, inr, All, Bytes, length, length-append, codes, List, [], ◌∷◌, ◌++◌, map, append-nil, arith,
}
use ervan.Common.Platform.{Platform}
use ervan.Strings.Join.Lines.{ends_cr, lines, leftover, lines-append}
use ervan.Strings.Join.Refines.{Holds}
use ervan.Strings.Join.Pieces.{leftover-append, lines-nothing, lines-line}
use ervan.Smtp.Session.{in_data, Settings, Session, Effect}
use ervan.Smtp.Feed.{max_line_length, end_message, handle_pieces}
use ervan.Smtp.Feed.Stuffing.{stuff, Clean}
use ervan.Smtp.Feed.Transparent.{encoded, total, IsShort, stuff-IsLine, Written}
use ervan.Smtp.Feed.Pieces.{Reading, feed_data-Reads, feed_data-ends, handle_pieces-in_data}

-- What the pieces make together.
abbrev pub whole : List Bytes → Bytes
whole [] = []
whole (a ∷ pieces) = a ++ whole pieces

pub length-leftover :
    (pending src : Bytes) → length (leftover pending src) ≤ length pending + length src
length-leftover pending [] = omega arith
length-leftover pending (c ∷ cs) = elim (Bool-cases (ends_cr false pending && c == b'\n')) [
  | inl e ↦ rw e (omega (arith, length-leftover [] cs))
  | inr e ↦
      rw e (omega (arith, length-leftover (pending ++ c ∷ []) cs, length-append pending (c ∷ [])))
]

encoded-lines :
    (ls : List Bytes)
    → All IsShort ls
    → (lines [] (encoded ls []) ≡ map stuff ls ++ (codes "." ∷ []))
      × (leftover [] (encoded ls []) ≡ [])
encoded-lines [] h = (refl, refl)
encoded-lines (l ∷ ls) ((line, len), h) =
    let (e, f) = lines-line (stuff l) (encoded ls []) (stuff-IsLine l line) in
    let (e', f') = encoded-lines ls h in (e ∙ ap (◌∷◌ (stuff l)) e', f ∙ f')

empty_end : (a b : List Bytes) → a ++ b ≡ [] → b ≡ []
empty_end [] b e = e
empty_end (y ∷ a) b e = cc

module _ (x : Bytes) where
  never_empty : (ls : List Bytes) → [] ≢ ls ++ (x ∷ [])
  never_empty [] h = cc
  never_empty (l ∷ ls) h = cc

  -- The lines that a piece completes, and those that are left.
  split_lines :
      (a b ls : List Bytes)
      → a ++ b ≡ map stuff ls ++ (x ∷ [])
      → b ≢ []
      → (first : List Bytes) × (second : List Bytes) × (ls ≡ first ++ second)
        × (a ≡ map stuff first)
        × (b ≡ map stuff second ++ (x ∷ []))
  split_lines [] b ls e n = ([], ls, refl, refl, e)
  split_lines (y ∷ a) b [] e n = absurd (n (empty_end a b cc))
  split_lines (y ∷ a) b (l ∷ ls) e n =
      let (first, second, f, g, h) = split_lines a b ls (cc) n in
      (l ∷ first, second, ap (◌∷◌ l) f, cc, h)

All-split {ℓ κ} : {A : Type ℓ} (P : A → Type κ) (a b : List A) → All P (a ++ b) → All P a × All P b
All-split P [] b h = (tt, h)
All-split P (x ∷ a) b (h, k) = let (m, n) = All-split P a b k in ((h, m), n)

total-append : (a b : List Bytes) → total (a ++ b) ≡ total a + total b
total-append [] b = omega arith
total-append (l ∷ a) b = omega (arith, total-append a b)

more_lines :
    (mid b : Bytes) (pieces : List Bytes)
    → 0 < length b
    → leftover mid (b ++ whole pieces) ≡ []
    → lines mid (b ++ whole pieces) ≢ []
more_lines mid b pieces pos left e = omega (
  arith,
  ap length (lines-nothing mid (b ++ whole pieces) e left),
  length-append mid (b ++ whole pieces),
  length-append b (whole pieces),
)

module _ (p : Platform) (cfg : Settings) where
  Written-split :
      (s d : p.Disk) (a b : List Bytes)
      → Written p cfg s (a ++ b) d
      → (e : p.Disk) × Written p cfg s a e × Written p cfg e b d
  Written-split s d [] b w = (s, refl, w)
  Written-split s d (l ∷ a) b (e, w, ws) =
      let (f, u, v) = Written-split e d a b ws in (f, (e, w, u), v)

  -- The session that has written just the lines, has replied nothing and ends the message; `later` is
  -- what arrives behind it.
  pub record Delivered (s : Session p) (ls later : List Bytes) (d : p.Disk) (m : Effect (Session p))
      : Type 0 where
    pub last : Session p
    pub ends : m ≡ handle_pieces p cfg later (end_message p cfg last)
    pub disk : last.disk ≡ d
    pub size : last.data_size ≡ s.data_size + total ls
    pub clean : Clean p cfg last
    pub replies : last.sent ≡ s.sent
    pub metadata : last.metadata ≡ s.metadata

  module _ (capacity : ℕ) (wide : max_line_length + 2 ≤ capacity) where
    Delivered-more :
        (s t : Session p) (first second later : List Bytes) (left : Bytes) (d e : p.Disk)
        (m m' : Effect (Session p))
        → t.data_size ≡ s.data_size + total first
        → t.sent ≡ s.sent
        → t.metadata ≡ s.metadata
        → m ≡ m'
        → Delivered t second later d m'
        → Delivered s (first ++ second) later d m
    Delivered-more s t first second later left d e m m' size replies metadata k r = record {
      last = r.last;
      ends = k ∙ r.ends;
      disk = r.disk;
      size = omega (arith, r.size, size, total-append first second);
      clean = r.clean;
      replies = r.replies ∙ replies;
      metadata = r.metadata ∙ metadata;
    }

    pieces-Delivered :
        (pieces later : List Bytes) (s : Session p) (pending : Bytes) (ls : List Bytes) (d : p.Disk)
        → Reading p cfg capacity wide s pending
        → lines pending (whole pieces) ≡ map stuff ls ++ (codes "." ∷ [])
        → leftover pending (whole pieces) ≡ []
        → All (λ a. 0 < length a) pieces
        → All IsShort ls
        → s.data_size + total ls ≤ s.max_data_size
        → Written p cfg s.disk ls d
        → length pending + length (whole pieces) < 2 ^ 31
        → Delivered s ls later d (handle_pieces p cfg (pieces ++ later) s)
    pieces-Delivered [] later s pending ls d r e left some_left short fits w bound =
        absurd (never_empty (codes ".") (map stuff ls) e)
    pieces-Delivered (a ∷ []) later s pending ls d r e left (pos, some_left) short fits w bound =
        let ended =
          feed_data-ends p cfg capacity wide (suc (length a)) s pending a ls d r
            (rw append-nil at e) (rw append-nil at left) short fits w (rw append-nil at bound)
            (omega arith) in
        record {
          last = ended.last;
          ends =
              handle_pieces-in_data p cfg capacity wide s (end_message p cfg ended.last) a later
                r.state pos ended.ends;
          disk = ended.disk;
          size = ended.size;
          clean = ended.clean;
          replies = ended.replies;
          metadata = ended.metadata;
        }
    pieces-Delivered (a ∷ b ∷ pieces) later s pending ls d r e left (pos, (pos', some_left)) short
          fits w bound =
        let more = whole (b ∷ pieces) in
        let mid = leftover pending a in
        let none_left = sym (leftover-append pending a more) ∙ left in
        let (first, second, f, g, h) =
          split_lines (codes ".") (lines pending a) (lines mid more) ls
            (sym (lines-append pending a more) ∙ e) (more_lines mid b pieces pos' none_left) in
        let (short₁, short₂) = All-split IsShort first second (subst (All IsShort) f short) in
        let (x, w₁, w₂) =
          Written-split s.disk d first second (subst (λ k. Written p cfg s.disk k d) f w) in
        let counted = ap total f ∙ total-append first second in
        let lengths = length-append a more in
        let read =
          feed_data-Reads p cfg capacity wide (suc (length a)) s pending a first x r g short₁
            (omega arith) w₁ (omega arith) (omega arith) in
        let rest =
          pieces-Delivered (b ∷ pieces) later read.now mid second d read.reading h none_left
            (pos', some_left) short₂ (omega (arith, read.size, read.limit)) (rw read.disk w₂)
            (omega (arith, length-leftover pending a)) in
        subst (λ k. Delivered s k later d (handle_pieces p cfg (a ∷ b ∷ (pieces ++ later)) s))
          (sym f)
          (Delivered-more s read.now first second later mid d x _ _ read.size read.replies
            read.metadata
            (handle_pieces-in_data p cfg capacity wide s read.now a (b ∷ (pieces ++ later)) r.state
              pos read.ends)
            rest)

    -- A session that reads a message, with a buffer of at least 1000 bytes that is ready for a line and
    -- no flag set; a message of lines that are short enough, and together within the session's limit;
    -- and every write succeeding. If a client sends the message, its lines dot-stuffed and the dot
    -- behind them, in whatever pieces none of which is empty, less than 2 GiB in all, then the receive
    -- loop writes to the file just the lines with their CR LF, in order, counts their bytes, replies
    -- nothing before the dot, ends the message there, and goes on with what arrives later.
    pub handle_pieces-Delivered :
        (pieces later ls : List Bytes) (s : Session p) (d : p.Disk)
        → s.state ≡ in_data
        → Holds capacity s.line_buffer s.line_offset []
        → Clean p cfg s
        → All (λ a. 0 < length a) pieces
        → whole pieces ≡ encoded ls []
        → length (encoded ls []) < 2 ^ 31
        → All IsShort ls
        → s.data_size + total ls ≤ s.max_data_size
        → Written p cfg s.disk ls d
        → Delivered s ls later d (handle_pieces p cfg (pieces ++ later) s)
    handle_pieces-Delivered pieces later ls s d state holds clean some_left e bound short fits w =
        let (f, g) = encoded-lines ls short in
        pieces-Delivered pieces later s [] ls d
          (record { state = state; holds = holds; clean = clean }) (ap (lines []) e ∙ f)
          (ap (leftover []) e ∙ g) some_left short fits w (omega (arith, ap length e))
