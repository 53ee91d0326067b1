-- ===== src/Config/File.antt =====
-- The configuration's file: `get_config_pair` of common/src/string.cpp, and the loop of
-- `reload_config` in main/src/main.cpp. The offset into the buffer is the rest of it from there on.
pub mod RoundTrip
pub mod Settings
pub mod Ends
pub mod Bounds
use ervan.Base.{
  ℕ, zero, suc, ◌+◌, ◌≤◌, ◌<◌, ◌≡◌, refl, Bool, not, ◌||◌, ◌&&◌, ◌==◌, leb, if◌then◌else◌, Bytes,
  length, get_or, List, [], ◌∷◌, ◌++◌, Option, none, some,
}
use ervan.Parse.Results.{between}
use ervan.Parse.{skip_while}
use ervan.Config.{Config, exists, set_by_key}

-- `isspace` of <cctype> in the "C" locale.
abbrev pub space : ℕ → Bool
space c = leb 9 c && leb c 13 || c == 32

abbrev pub not_space : ℕ → Bool
not_space c = not (space c)

abbrev pub in_line : ℕ → Bool
in_line c = not (c == b'\r') && not (c == b'\n')

pub data Pair : Type 0 where
  parse_ok : Bytes → Bytes → Bytes → Pair
  parse_invalid parse_end : Pair

-- Behind the spaces that follow the key.
value_pair : Bytes → Bytes → Pair
value_pair key [] = parse_invalid
value_pair key (c ∷ cs) =
    let rest = skip_while in_line (c ∷ cs) in parse_ok key (between (c ∷ cs) rest) rest

-- Behind the key, which began at `start`.
key_pair : Bytes → Bytes → Pair
key_pair start [] = parse_invalid
key_pair start (c ∷ cs) = value_pair (between start (c ∷ cs)) (skip_while space (c ∷ cs))

first_pair : Bytes → Pair
first_pair [] = parse_end
first_pair (c ∷ cs) = key_pair (c ∷ cs) (skip_while not_space (c ∷ cs))

pub get_config_pair : Bytes → Pair
get_config_pair rest = first_pair (skip_while space rest)

reload_set : (Bytes → Config → Option Config) → Bytes → Option Config → Config → Option Config
reload_set next rest none cfg = some cfg
reload_set next rest (some cfg') cfg = next rest cfg'

-- A round of the loop; a key that starts with `#` or that is unknown is passed over.
reload_pair : ℕ → (Bytes → Config → Option Config) → Pair → Config → Option Config
reload_pair unset next parse_invalid cfg = some cfg
reload_pair unset next parse_end cfg = some cfg
reload_pair unset next (parse_ok key value rest) cfg =
    let more = next rest cfg in
    let changed = reload_set next rest (set_by_key unset key value cfg) cfg in
    if get_or key 0 0 == b'#' || not (exists key) then more else changed

-- The loop of `reload_config`; `none` where the fuel runs out.
pub reload : ℕ → ℕ → Bytes → Config → Option Config
reload unset zero rest cfg = none
reload unset (suc fuel) rest cfg = reload_pair unset (reload unset fuel) (get_config_pair rest) cfg

pub reload_config : ℕ → Bytes → Config → Option Config
reload_config unset buffer cfg = reload unset (suc (length buffer)) buffer cfg
