-- ===== src/Parse/Grammar.antt =====
-- The texts that SMTP's grammar names: what a local part and a route are, apart from how
-- common/src/parse.cpp reads them.
pub mod Words
pub mod Quotes
pub mod Routes
use ervan.Base.{
  ℕ, zero, suc, ◌<◌, length, subst, ◌≡◌, refl, sym, ap, ◌∙◌, ◌⊎◌, inl, inr, Bool, true, false, ◌||◌,
  ◌==◌, ==_iff, Bool-cases, All, Bytes, List, [], ◌∷◌, ◌++◌, append_assoc, arith,
}
use ervan.Parse.Chars.{within, contains, is_alnum, is_atext, is_qtext_smtp}
use ervan.Parse.Results.{Outcome, ok, malformed, overrun, >>=-eq-ok, Slice, slice, between}
use ervan.Parse.Spans.{between-append}
use ervan.Parse.{skip_while, run_of, atom, after_atom, dot_string, quoted_chars, not_printable}
use ervan.Parse.Params.{IsRun}
use ervan.Parse.Labels.{IsLabel, dotted}

-- atext of RFC 5322, by its codes: a letter, a digit, or one of !#$%&'*+-/=?^_`{|}~
abbrev pub atext : ℕ → Bool
atext c =
    c == 33
    || within 35 39 c
    || within 42 43 c
    || c == 45
    || within 47 57 c
    || c == 61
    || c == 63
    || within 65 90 c
    || within 94 126 c

-- One byte of a quoted string: as it is, or behind a backslash.
pub data Item : Type 0 where
  plain paired : ℕ → Item

-- From 32 to 126; a quote or a backslash only behind a backslash.
abbrev pub IsItem : Item → Type 0
IsItem (plain c) = (within 32 33 c || within 35 91 c || within 93 126 c) ≡ true
IsItem (paired c) = within 32 126 c ≡ true

abbrev pub printed : List Item → Bytes
printed [] = []
printed (plain c ∷ items) = c ∷ printed items
printed (paired c ∷ items) = b'\\' ∷ c ∷ printed items

abbrev pub meant : List Item → Bytes
meant [] = []
meant (plain c ∷ items) = c ∷ meant items
meant (paired c ∷ items) = c ∷ meant items

abbrev pub IsWord : Bytes → Type 0
IsWord = IsRun atext atext

-- Words joined by dots, which the buffer holds; or a quoted string, of which it holds what is meant.
abbrev pub IsName : Bytes → Bytes → Type 0
IsName body buffer =
    ((w : Bytes) × (ws : List Bytes) × IsWord w
      × All IsWord ws
      × (body ≡ dotted w ws)
      × (buffer ≡ body))
    ⊎ ((items : List Item) × All IsItem items
        × (body ≡ b'"' ∷ (printed items ++ (b'"' ∷ [])))
        × (buffer ≡ meant items))

-- Labels joined by dots.
abbrev pub IsHost : Bytes → Type 0
IsHost body = (l : Bytes) × (ls : List Bytes) × IsLabel l × All IsLabel ls × (body ≡ dotted l ls)

-- Hosts, each behind an `@`, with commas between them and a colon behind.
abbrev pub route_end : List Bytes → Bytes
route_end [] = b':' ∷ []
route_end (h ∷ hs) = b',' ∷ b'@' ∷ (h ++ route_end hs)

abbrev pub route_text : Bytes → List Bytes → Bytes
route_text h hs = b'@' ∷ (h ++ route_end hs)

abbrev pub IsRoute : Bytes → Type 0
IsRoute text =
    (text ≡ [])
    ⊎ ((h : Bytes) × (hs : List Bytes) × IsHost h × All IsHost hs × (text ≡ route_text h hs))
