-- ===== src/Config.antt =====
-- common/include/ervan/config.hpp: the values of the configuration, by key, and how a text sets one.
pub mod File
pub mod Layout
pub mod Values
pub mod Sync
mod Examples
mod Tests
use ervan.Base.{
  ℕ, zero, suc, ◌+◌, ◌-◌, ◌*◌, ◌^◌, Bool, true, false, ◌||◌, ◌&&◌, leb, ltb, if◌then◌else◌, Bytes,
  equal, codes, List, [], ◌∷◌, Option, none, some,
}
use ervan.Common.Platform.{c_string}

-- An entry that no text has set is the null pointer.
pub record Config : Type 0 where
  pub hostname : Option Bytes
  pub port : Option ℕ
  pub submissionport : Option ℕ
  pub debug : Option Bool
  pub maxmessagesize : Option ℕ
  pub maxrcpt : Option ℕ

pub data Key : Type 0 where
  hostname_key port_key submissionport_key debug_key maxmessagesize_key maxrcpt_key : Key

-- The entries in the order of `config_all`.
abbrev pub entries : List (Bytes × Key)
entries =
    (codes "hostname", hostname_key)
    ∷ (codes "port", port_key)
    ∷ (codes "submissionport", submissionport_key)
    ∷ (codes "debug", debug_key)
    ∷ (codes "maxmessagesize", maxmessagesize_key)
    ∷ (codes "maxrcpt", maxrcpt_key)
    ∷ []

-- The first entry whose name `std::strcmp` finds equal to the key.
pub find_entry : List (Bytes × Key) → Bytes → Option Key
find_entry [] key = none
find_entry ((name, entry) ∷ rest) key =
    let later = find_entry rest key in if equal name (c_string key) then some entry else later

pub exists : Bytes → Bool
exists key = elim (find_entry entries key) [ none ↦ false | some _ ↦ true ]

-- std::from_chars: the digits in front, as a number; the two errors leave the value as it was.
pub data Number : Type 0 where
  invalid_argument out_of_range : Number
  value : ℕ → Number

abbrev pub is_digit : ℕ → Bool
is_digit c = leb b'0' c && leb c b'9'

pub read_digits : ℕ → Bytes → ℕ
read_digits n [] = n
read_digits n (c ∷ cs) =
    let more = read_digits (n * 10 + (c - b'0')) cs in if is_digit c then more else n

pub from_chars : Bytes → Number
from_chars [] = invalid_argument
from_chars (c ∷ cs) =
    let n = read_digits 0 (c ∷ cs) in
    if is_digit c then (if ltb n (2 ^ 64) then value n else out_of_range) else invalid_argument

-- `transform` for an unsigned type whose largest value is `max`. `unset` is the `size_t` that
-- nothing has set.
below_max : ℕ → ℕ → Option ℕ
below_max max n = if ltb max n then none else some n

transform_read : ℕ → ℕ → Number → Option ℕ
transform_read unset max invalid_argument = none
transform_read unset max out_of_range = below_max max unset
transform_read unset max (value n) = below_max max n

pub transform : ℕ → ℕ → Bytes → Option ℕ
transform unset max str = transform_read unset max (from_chars str)

pub transform_bool : Bytes → Bool
transform_bool str = equal str (codes "yes") || equal str (codes "true")

pub set_number : (ℕ → Config) → Option ℕ → Option Config
set_number store none = none
set_number store (some n) = some (store n)

-- `transform_set`
pub set_entry : ℕ → Key → Bytes → Config → Option Config
set_entry unset hostname_key val cfg = some (record cfg { hostname = some val })
set_entry unset port_key val cfg =
    set_number (λ n. record cfg { port = some n }) (transform unset (2 ^ 16 - 1) val)
set_entry unset submissionport_key val cfg =
    set_number (λ n. record cfg { submissionport = some n }) (transform unset (2 ^ 16 - 1) val)
set_entry unset debug_key val cfg = some (record cfg { debug = some (transform_bool val) })
set_entry unset maxmessagesize_key val cfg =
    set_number (λ n. record cfg { maxmessagesize = some n }) (transform unset (2 ^ 64 - 1) val)
set_entry unset maxrcpt_key val cfg =
    set_number (λ n. record cfg { maxrcpt = some n }) (transform unset (2 ^ 64 - 1) val)

set_found : ℕ → Option Key → Bytes → Config → Option Config
set_found unset none val cfg = none
set_found unset (some entry) val cfg = set_entry unset entry val cfg

-- config::set with a key and a text; `none` is `false`, which leaves the configuration as it is.
pub set_by_key : ℕ → Bytes → Bytes → Config → Option Config
set_by_key unset key val cfg = set_found unset (find_entry entries key) val cfg
