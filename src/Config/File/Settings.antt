-- ===== src/Config/File/Settings.antt =====
-- A configuration file of valid lines, and the configuration that it describes: `reload_config` of
-- main/src/main.cpp.
use ervan.Base.{
  ℕ, ◌+◌, ◌-◌, ◌*◌, ◌^◌, ◌≤◌, ◌<◌, ◌≡◌, refl, ap, ◌∙◌, Bool, true, false, ◌&&◌, le→ltb_false,
  lt→ltb, All, Bytes, codes, List, [], ◌∷◌, map, some, arith,
}
use ervan.Common.Platform.{c_string}
use ervan.Parse.Params.{IsRun}
use ervan.Config.{
  Config, exists, find_entry, is_digit, read_digits, from_chars, transform, transform_read,
  below_max, set_number, set_entry, set_found, set_by_key, transform_bool,
}
use ervan.Config.File.{not_space, in_line, reload_config}
use ervan.Config.File.RoundTrip.{render, IsPair, set_pair, set_all, reload_config-render}

-- A line, and what it says. A number stands as its digits; a comment is `#` and a word, and a text.
pub data Setting : Type 0 where
  hostname_is port_is submissionport_is maxmessagesize_is maxrcpt_is : Bytes → Setting
  debug_is : Bool → Setting
  comment : Bytes → Bytes → Setting

-- The number that digits stand for, behind those that stand for `n`.
abbrev pub numeral : ℕ → Bytes → ℕ
numeral n [] = n
numeral n (c ∷ cs) = numeral (n * 10 + (c - b'0')) cs

abbrev pub IsDigit : ℕ → Type 0
IsDigit c = (b'0' ≤ c) × (c ≤ b'9')

-- A number with digits, up to `max`.
abbrev pub IsNumeral : ℕ → Bytes → Type 0
IsNumeral max [] = ⊥
IsNumeral max (c ∷ cs) = All IsDigit (c ∷ cs) × (numeral 0 (c ∷ cs) ≤ max)

abbrev pub IsText : Bytes → Type 0
IsText = IsRun (λ c. not_space c && in_line c) in_line

abbrev pub IsSetting : Setting → Type 0
IsSetting (hostname_is text) = IsText text
IsSetting (port_is digits) = IsNumeral (2 ^ 16 - 1) digits
IsSetting (submissionport_is digits) = IsNumeral (2 ^ 16 - 1) digits
IsSetting (maxmessagesize_is digits) = IsNumeral (2 ^ 64 - 1) digits
IsSetting (maxrcpt_is digits) = IsNumeral (2 ^ 64 - 1) digits
IsSetting (debug_is b) = Unit
IsSetting (comment word text) = All (λ c. not_space c ≡ true) word × IsText text

abbrev pub yes_or_no : Bool → Bytes
yes_or_no true = codes "yes"
yes_or_no false = codes "no"

abbrev pub line : Setting → Bytes × Bytes
line (hostname_is text) = (codes "hostname", text)
line (port_is digits) = (codes "port", digits)
line (submissionport_is digits) = (codes "submissionport", digits)
line (maxmessagesize_is digits) = (codes "maxmessagesize", digits)
line (maxrcpt_is digits) = (codes "maxrcpt", digits)
line (debug_is b) = (codes "debug", yes_or_no b)
line (comment word text) = (b'#' ∷ word, text)

abbrev pub assign : Setting → Config → Config
assign (hostname_is text) c = record c { hostname = some text }
assign (port_is digits) c = record c { port = some (numeral 0 digits) }
assign (submissionport_is digits) c = record c { submissionport = some (numeral 0 digits) }
assign (maxmessagesize_is digits) c = record c { maxmessagesize = some (numeral 0 digits) }
assign (maxrcpt_is digits) c = record c { maxrcpt = some (numeral 0 digits) }
assign (debug_is b) c = record c { debug = some b }
assign (comment word text) c = c

abbrev pub assign_all : List Setting → Config → Config
assign_all [] c = c
assign_all (x ∷ xs) c = assign_all xs (assign x c)

is_digit-true : (c : ℕ) → IsDigit c → is_digit c ≡ true
is_digit-true c (a, b) = ground arith

read_digits-numeral : (n : ℕ) (s : Bytes) → All IsDigit s → read_digits n s ≡ numeral n s
unfolding read_digits
read_digits-numeral n [] h = refl
read_digits-numeral n (c ∷ cs) (h, hs) =
    rw (is_digit-true c h) (read_digits-numeral (n * 10 + (c - b'0')) cs hs)

transform-numeral :
    (unset max : ℕ) (s : Bytes)
    → max < 2 ^ 64
    → IsNumeral max s
    → transform unset max s ≡ some (numeral 0 s)
unfolding transform from_chars transform_read below_max
transform-numeral unset max [] m h = absurd h
transform-numeral unset max (c ∷ cs) m (h, small) =
    let n = numeral 0 (c ∷ cs) in
    rw (is_digit-true c h.0) (
      rw (read_digits-numeral 0 (c ∷ cs) h)
        (rw (lt→ltb n (2 ^ 64) (omega arith)) (rw (le→ltb_false max n small) refl)))

digit_starts : (c : ℕ) → IsDigit c → (not_space c && in_line c) ≡ true
digit_starts c (a, b) = ground arith

digits_go : (s : Bytes) → All IsDigit s → All (λ c. in_line c ≡ true) s
digits_go [] h = tt
digits_go (c ∷ cs) ((a, b), hs) = (ground arith, digits_go cs hs)

IsNumeral-IsText : (max : ℕ) (s : Bytes) → IsNumeral max s → IsText s
IsNumeral-IsText max [] h = absurd h
IsNumeral-IsText max (c ∷ cs) ((d, ds), small) = (digit_starts c d, digits_go cs ds)

line-IsPair : (x : Setting) → IsSetting x → IsPair (line x)
line-IsPair (hostname_is text) h =
    ((refl, (refl, (refl, (refl, (refl, (refl, (refl, (refl, tt)))))))), h)
line-IsPair (port_is digits) h = ((refl, (refl, (refl, (refl, tt)))), IsNumeral-IsText _ digits h)
line-IsPair (submissionport_is digits) h = (ground arith, IsNumeral-IsText _ digits h)
line-IsPair (maxmessagesize_is digits) h = (ground arith, IsNumeral-IsText _ digits h)
line-IsPair (maxrcpt_is digits) h = (ground arith, IsNumeral-IsText _ digits h)
line-IsPair (debug_is true) h = (ground arith, ground arith)
line-IsPair (debug_is false) h = (ground arith, ground arith)
line-IsPair (comment word text) (h, k) = ((refl, h), k)

lines-IsPair : (xs : List Setting) → All IsSetting xs → All IsPair (map line xs)
lines-IsPair [] h = tt
lines-IsPair (x ∷ xs) (h, hs) = (line-IsPair x h, lines-IsPair xs hs)

module _ (unset : ℕ) where
  set_all-line :
      (x : Setting) (ps : List (Bytes × Bytes)) (cfg : Config)
      → IsSetting x
      → set_all unset (line x ∷ ps) cfg ≡ set_all unset ps (assign x cfg)
  unfolding set_all set_pair exists find_entry set_number set_entry set_found set_by_key c_string
      transform_bool
  set_all-line (hostname_is text) ps cfg h = refl
  set_all-line (port_is digits) ps cfg h =
      rw (transform-numeral unset (2 ^ 16 - 1) digits (omega arith) h) refl
  set_all-line (submissionport_is digits) ps cfg h =
      rw (transform-numeral unset (2 ^ 16 - 1) digits (omega arith) h) refl
  set_all-line (maxmessagesize_is digits) ps cfg h =
      rw (transform-numeral unset (2 ^ 64 - 1) digits (omega arith) h) refl
  set_all-line (maxrcpt_is digits) ps cfg h =
      rw (transform-numeral unset (2 ^ 64 - 1) digits (omega arith) h) refl
  set_all-line (debug_is true) ps cfg h = refl
  set_all-line (debug_is false) ps cfg h = refl
  set_all-line (comment word text) ps cfg h = refl

  set_all-lines :
      (xs : List Setting) (cfg : Config)
      → All IsSetting xs
      → set_all unset (map line xs) cfg ≡ assign_all xs cfg
  unfolding set_all
  set_all-lines [] cfg h = refl
  set_all-lines (x ∷ xs) cfg (h, hs) =
      set_all-line x (map line xs) cfg h ∙ set_all-lines xs (assign x cfg) hs

  -- A file of lines, each of them a comment or a name with a valid value behind it: a hostname that
  -- starts with no space, digits for a number that the entry's type holds, `yes` or `no`. The file is
  -- read to its end, and leaves the configuration in which just the named entries have been set, in
  -- order: each number to the one that its digits stand for, whatever `unset` is.
  pub reload_config-assigns :
      (xs : List Setting) (cfg : Config)
      → All IsSetting xs
      → reload_config unset (render (map line xs)) cfg ≡ some (assign_all xs cfg)
  reload_config-assigns xs cfg h =
      reload_config-render unset (map line xs) cfg (lines-IsPair xs h)
      ∙ ap some (set_all-lines xs cfg h)
