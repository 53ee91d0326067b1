-- ===== src/Smtp/Feed/Lines/Reads.antt =====
-- The lines of a message, served one after the other up to the dot.
use ervan.Base.{
  ◌+◌, ◌-◌, ◌≤◌, ◌≡◌, refl, ap, ◌∙◌, All, Bytes, codes, length, List, [], ◌∷◌, ◌++◌, map, arith,
  if◌then◌else◌,
}
use ervan.Common.Platform.{Platform}
use ervan.Smtp.Session.{in_data, Settings, Session, Effect, done}
use ervan.Smtp.Feed.{max_line_length, take_line, end_message}
use ervan.Smtp.Feed.Stuffing.{stuff, is_end-stuff, Clean, take_line-Taken}
use ervan.Smtp.Feed.Transparent.{IsShort, total, length-stuff, Written, dot_is_end}
use ervan.Smtp.Feed.Lines.{Rooms, serve_line, serve}
use ervan.Smtp.Feed.Lines.Rounds.{serve-fits}

module _ (p : Platform) (cfg : Settings) (r : Rooms) (wide : max_line_length + 2 ≤ r.message) where
  -- The message has been read up to its end: `last` has written the lines.
  pub record Read (s : Session p) (ls : List Bytes) (d : p.Disk) (m : Effect (Session p))
      : Type 0 where
    pub last : Session p
    pub ends : m ≡ done (end_message p cfg last)
    pub disk : last.disk ≡ d
    pub clean : Clean p cfg last
    pub replies : last.sent ≡ s.sent
    pub metadata : last.metadata ≡ s.metadata

  serve_end :
      (s : Session p)
      → s.state ≡ in_data
      → serve p cfg r (codes "." ∷ []) s ≡ done (end_message p cfg s)
  unfolding serve serve_line
  serve_end s e =
      serve-fits p cfg r in_data s (codes ".") [] e (omega arith)
      ∙ ap
          (λ b.
            serve p cfg r [] (if b then end_message p cfg s else take_line p cfg 1 (codes ".") s))
          dot_is_end

  serve_stuffed :
      (s : Session p) (l : Bytes) (ls : List Bytes)
      → s.state ≡ in_data
      → length l ≤ max_line_length - 2
      → serve p cfg r (stuff l ∷ ls) s
        ≡ serve p cfg r ls (take_line p cfg (length (stuff l)) (stuff l) s)
  unfolding serve_line
  serve_stuffed s l ls e short =
      serve-fits p cfg r in_data s (stuff l) ls e (omega (arith, length-stuff l))
      ∙ ap
          (λ b.
            serve p cfg r ls
              (if b then end_message p cfg s else take_line p cfg (length (stuff l)) (stuff l) s))
          (is_end-stuff l)

  pub serve-Read :
      (ls : List Bytes) (s : Session p) (d : p.Disk)
      → s.state ≡ in_data
      → Clean p cfg s
      → All IsShort ls
      → s.data_size + total ls ≤ s.max_data_size
      → Written p cfg s.disk ls d
      → Read s ls d (serve p cfg r (map stuff ls ++ (codes "." ∷ [])) s)
  serve-Read [] s d e clean short fits w = record {
    last = s;
    ends = serve_end s e;
    disk = w;
    clean = clean;
    replies = refl;
    metadata = refl;
  }
  serve-Read (l ∷ ls) s d e clean ((row, len), short) fits (x, w, ws) =
      let taken = take_line-Taken p cfg (length (stuff l)) l s x clean (len, omega arith) w in
      let t = take_line p cfg (length (stuff l)) (stuff l) s in
      let rest =
        serve-Read ls t d (taken.state ∙ e) taken.clean short
          (omega (arith, taken.size, taken.limit)) (rw taken.disk ws) in
      record {
        last = rest.last;
        ends = serve_stuffed s l (map stuff ls ++ (codes "." ∷ [])) e len ∙ rest.ends;
        disk = rest.disk;
        clean = rest.clean;
        replies = rest.replies ∙ taken.reply;
        metadata = rest.metadata ∙ taken.metadata;
      }
