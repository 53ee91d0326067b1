-- ===== src/Config/File/RoundTrip.antt =====
-- The configuration's file: it is always read to an end, and a file of lines `key value` sets just
-- these keys.
use ervan.Base.{
  ℕ, zero, suc, ◌≤◌, ◌<◌, ◌≡◌, refl, ap, ◌∙◌, Bool, true, false, not, ◌||◌, ◌&&◌, ◌==◌,
  if◌then◌else◌, All, Bytes, length, length-append, get_or, List, [], ◌∷◌, ◌++◌, Option, none, some,
  arith,
}
use ervan.Parse.{skip_while}
use ervan.Parse.Spans.{between-append}
use ervan.Parse.Params.{IsRun, skip_while-append}
use ervan.Config.{Config, exists, set_by_key}
use ervan.Config.File.{
  space, not_space, in_line, Pair, parse_ok, value_pair, key_pair, first_pair, get_config_pair,
  reload_set, reload_pair, reload, reload_config,
}

-- A file of lines.
abbrev pub render : List (Bytes × Bytes) → Bytes
render [] = []
render ((key, val) ∷ ps) = key ++ (b' ' ∷ (val ++ (b'\n' ∷ render ps)))

-- A key has no space in it; a value starts with none, and ends at the line's end.
abbrev pub IsPair : Bytes × Bytes → Type 0
IsPair (key, val) =
    IsRun not_space not_space key × IsRun (λ c. not_space c && in_line c) in_line val

-- What the pairs do to a configuration, one after the other, up to the first value that is refused.
unfoldable pub set_pair : (Config → Config) → Option Config → Config → Config
set_pair later none cfg = cfg
set_pair later (some cfg') cfg = later cfg'

unfoldable pub set_all : ℕ → List (Bytes × Bytes) → Config → Config
set_all unset [] cfg = cfg
set_all unset ((key, val) ∷ ps) cfg =
    let passed = set_all unset ps cfg in
    let changed = set_pair (set_all unset ps) (set_by_key unset key val cfg) cfg in
    if get_or key 0 0 == b'#' || not (exists key) then passed else changed

value_starts : (c : ℕ) → (not_space c && in_line c) ≡ true → (space c ≡ false) × (in_line c ≡ true)
value_starts c h = ground arith

key_starts : (c : ℕ) → not_space c ≡ true → space c ≡ false
key_starts c h = ground arith

value_pair-line :
    (key val rest : Bytes)
    → IsRun (λ c. not_space c && in_line c) in_line val
    → value_pair key (skip_while space (val ++ (b'\n' ∷ rest))) ≡ parse_ok key val (b'\n' ∷ rest)
unfolding value_pair skip_while
value_pair-line key [] rest h = absurd h
value_pair-line key (c ∷ cs) rest (h, hs) =
    let (starts, inside) = value_starts c h in
    rw (starts, skip_while-append in_line (c ∷ cs) (b'\n' ∷ rest) (inside, hs) refl)
      (ap (λ v. parse_ok key v (b'\n' ∷ rest)) (between-append (c ∷ cs) (b'\n' ∷ rest)))

skip_while-stop :
    (test : ℕ → Bool) (c : ℕ) (cs : Bytes) → test c ≡ false → skip_while test (c ∷ cs) ≡ c ∷ cs
unfolding skip_while
skip_while-stop test c cs h = rw h refl

key_pair-line :
    (key : Bytes) (sep : ℕ) (tail : Bytes)
    → space sep ≡ true
    → key_pair (key ++ (sep ∷ tail)) (sep ∷ tail) ≡ value_pair key (skip_while space tail)
unfolding key_pair
key_pair-line key sep tail h =
    ap (λ k. value_pair k (skip_while space (sep ∷ tail))) (between-append key (sep ∷ tail))
    ∙ ap (value_pair key) (unfold skip_while in rw h refl)

first_pair-line :
    (c : ℕ) (cs : Bytes) (sep : ℕ) (tail : Bytes)
    → All (λ d. not_space d ≡ true) (c ∷ cs)
    → space sep ≡ true
    → first_pair (c ∷ (cs ++ (sep ∷ tail))) ≡ key_pair (c ∷ (cs ++ (sep ∷ tail))) (sep ∷ tail)
unfolding first_pair
first_pair-line c cs sep tail h k =
    ap (key_pair (c ∷ (cs ++ (sep ∷ tail))))
      (skip_while-append not_space (c ∷ cs) (sep ∷ tail) h (ap not k))

-- What stands between the key and its value may be any space, the end of the line too: behind a key
-- that is alone on its line, as a comment of one word is, the next line is taken as its value.
pub get_config_pair-space :
    (key val rest : Bytes) (sep : ℕ)
    → IsPair (key, val)
    → space sep ≡ true
    → get_config_pair (key ++ (sep ∷ (val ++ (b'\n' ∷ rest)))) ≡ parse_ok key val (b'\n' ∷ rest)
unfolding get_config_pair
get_config_pair-space [] val rest sep (h, v) k = absurd h
get_config_pair-space (c ∷ cs) val rest sep ((h, hs), v) k =
    let tail = val ++ (b'\n' ∷ rest) in
    ap first_pair (skip_while-stop space c (cs ++ (sep ∷ tail)) (key_starts c h))
    ∙ first_pair-line c cs sep tail (h, hs) k
    ∙ key_pair-line (c ∷ cs) sep tail k
    ∙ value_pair-line (c ∷ cs) val rest v

get_config_pair-newline : (rest : Bytes) → get_config_pair (b'\n' ∷ rest) ≡ get_config_pair rest
unfolding get_config_pair skip_while
get_config_pair-newline rest = refl

some_if {ℓ} :
    {A : Type ℓ} (b : Bool) {x y : Option A} {z w : A}
    → x ≡ some z
    → y ≡ some w
    → (if b then x else y) ≡ some (if b then z else w)
some_if true h k = h
some_if false h k = k

module _ (unset : ℕ) where
  reload-newline :
      (fuel : ℕ) (rest : Bytes) (cfg : Config)
      → reload unset fuel (b'\n' ∷ rest) cfg ≡ reload unset fuel rest cfg
  unfolding reload
  reload-newline zero rest cfg = refl
  reload-newline (suc fuel) rest cfg =
      ap (λ pair. reload_pair unset (reload unset fuel) pair cfg) (get_config_pair-newline rest)

  reload-end :
      (fuel : ℕ) (cfg : Config) → reload unset (suc fuel) [] cfg ≡ some (set_all unset [] cfg)
  unfolding set_all reload reload_pair get_config_pair first_pair skip_while
  reload-end fuel cfg = refl

  reload_set-next :
      (next : Bytes → Config → Option Config) (rest : Bytes) (ps : List (Bytes × Bytes))
      (o : Option Config) (cfg : Config)
      → ((c : Config) → next rest c ≡ some (set_all unset ps c))
      → reload_set next rest o cfg ≡ some (set_pair (set_all unset ps) o cfg)
  unfolding reload_set set_pair
  reload_set-next next rest ps none cfg h = refl
  reload_set-next next rest ps (some c) cfg h = h c

  -- One round, where what the next rounds do is known.
  reload_pair-next :
      (next : Bytes → Config → Option Config) (key val rest : Bytes) (ps : List (Bytes × Bytes))
      (cfg : Config)
      → ((c : Config) → next rest c ≡ some (set_all unset ps c))
      → reload_pair unset next (parse_ok key val rest) cfg
        ≡ some (set_all unset ((key, val) ∷ ps) cfg)
  unfolding reload_pair set_all
  reload_pair-next next key val rest ps cfg h =
      some_if (get_or key 0 0 == b'#' || not (exists key)) (h cfg)
        (reload_set-next next rest ps _ cfg h)

  reload-step :
      (fuel : ℕ) (rest : Bytes) (cfg : Config) {pair : Pair}
      → get_config_pair rest ≡ pair
      → reload unset (suc fuel) rest cfg ≡ reload_pair unset (reload unset fuel) pair cfg
  unfolding reload
  reload-step fuel rest cfg e = ap (λ pair. reload_pair unset (reload unset fuel) pair cfg) e

  reload-render :
      (fuel : ℕ) (ps : List (Bytes × Bytes)) (cfg : Config)
      → All IsPair ps
      → length ps < fuel
      → reload unset fuel (render ps) cfg ≡ some (set_all unset ps cfg)
  reload-render zero ps cfg h enough = absurd (omega arith)
  reload-render (suc fuel) [] cfg h enough = reload-end fuel cfg
  reload-render (suc fuel) ((key, val) ∷ ps) cfg (h, hs) enough =
      reload-step fuel _ cfg (get_config_pair-space key val (render ps) b' ' h refl)
      ∙ reload_pair-next (reload unset fuel) key val (b'\n' ∷ render ps) ps cfg
          (λ c. reload-newline fuel (render ps) c ∙ reload-render fuel ps c hs (omega arith))

  length-render : (ps : List (Bytes × Bytes)) → length ps ≤ length (render ps)
  length-render [] = omega arith
  length-render ((key, val) ∷ ps) = omega (
    arith,
    length-render ps,
    length-append key (b' ' ∷ (val ++ (b'\n' ∷ render ps))),
    length-append val (b'\n' ∷ render ps),
  )

  -- A file of lines, each a key with no space in it, a space and a value that starts with none, is
  -- read to its end, and leaves the configuration as setting the pairs in order leaves it: passing
  -- over keys that are unknown or start with `#`, and up to the first value that is refused.
  pub reload_config-render :
      (ps : List (Bytes × Bytes)) (cfg : Config)
      → All IsPair ps
      → reload_config unset (render ps) cfg ≡ some (set_all unset ps cfg)
  unfolding reload_config
  reload_config-render ps cfg h = reload-render _ ps cfg h (omega (arith, length-render ps))
