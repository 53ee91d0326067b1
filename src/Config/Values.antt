-- ===== src/Config/Values.antt =====
-- common/include/ervan/config.hpp: the values with their defaults, and their copies in byte buffers:
-- `get`, `ensure`, `dump`, and `set` with a key's id. smtp/include/ervan/smtp.hpp: the configuration
-- of the SMTP process, which has every entry but `debug`.
pub mod Carries
use ervan.Base.{
  ℕ, ◌+◌, ◌-◌, Bool, true, false, ◌||◌, ◌==◌, ltb, if◌then◌else◌, Bytes, length, drop, replicate,
  List, [], ◌∷◌, ◌++◌, Option, none, some,
}
use ervan.Common.Platform.{c_string}
use ervan.Config.{
  Config, Key, hostname_key, port_key, submissionport_key, debug_key, maxmessagesize_key,
  maxrcpt_key,
}
use ervan.Config.Layout.{Layout}

-- `value.get() ? *value : K::default_value`
abbrev pub or_default {ℓ} : {A : Type ℓ} → Option A → A → A
or_default none def = def
or_default (some v) def = v

-- config::get on config_all; the default of a required entry is the empty value.
abbrev pub get_hostname : Config → Bytes
get_hostname c = or_default c.hostname []

abbrev pub get_port : Config → ℕ
get_port c = or_default c.port 25

abbrev pub get_submissionport : Config → ℕ
get_submissionport c = or_default c.submissionport 587

abbrev pub get_debug : Config → Bool
get_debug c = or_default c.debug false

abbrev pub get_maxmessagesize : Config → ℕ
get_maxmessagesize c = or_default c.maxmessagesize 33554432

abbrev pub get_maxrcpt : Config → ℕ
get_maxrcpt c = or_default c.maxrcpt 256

-- `local_config`
pub record LocalConfig : Type 0 where
  pub hostname : Option Bytes
  pub port : Option ℕ
  pub submissionport : Option ℕ
  pub maxmessagesize : Option ℕ
  pub maxrcpt : Option ℕ

-- config::ensure<config_hostname>
abbrev pub ensure {ℓ} : {A : Type ℓ} → Option A → Bool
ensure none = false
ensure (some v) = true

-- `T::id` of each entry.
abbrev pub all_ids : List (ℕ × Key)
all_ids =
    (0, hostname_key)
    ∷ (1, port_key)
    ∷ (2, submissionport_key)
    ∷ (3, debug_key)
    ∷ (4, maxmessagesize_key)
    ∷ (5, maxrcpt_key)
    ∷ []

abbrev pub local_ids : List (ℕ × Key)
local_ids =
    (0, hostname_key)
    ∷ (1, port_key)
    ∷ (2, submissionport_key)
    ∷ (4, maxmessagesize_key)
    ∷ (5, maxrcpt_key)
    ∷ []

pub find_id : List (ℕ × Key) → ℕ → Option Key
find_id [] id = none
find_id ((known, key) ∷ rest) id =
    let later = find_id rest id in if id == known then some key else later

-- What `dump` leaves in the buffer. `undefined`: the template for a default value assigns to a
-- `std::string` that was never constructed there.
pub data Dumped : Type 0 where
  dumped : Bool → Bytes → Dumped
  undefined : Dumped

-- What `set` does with a buffer; `refused` is `false`. `overread`: the text in the buffer has no NUL,
-- and `std::string(buffer)` reads on behind it.
pub data Assigned : Type 0 where
  assigned : LocalConfig → Assigned
  refused overread : Assigned

-- Whether a text ends within the buffer.
pub has_nul : Bytes → Bool
has_nul [] = false
has_nul (c ∷ cs) = c == 0 || has_nul cs

-- std::string(buffer)
pub read_text : Bytes → Option Bytes
read_text buffer = if has_nul buffer then some (c_string buffer) else none

abbrev pub with_text : Option Bytes → LocalConfig → Assigned
with_text none c = overread
with_text (some text) c = assigned (record c { hostname = some text })

-- sizeof(bool), sizeof(uint16_t), sizeof(size_t)
abbrev pub size_of_bool : ℕ
size_of_bool = 1

abbrev pub size_of_short : ℕ
size_of_short = 2

abbrev pub size_of_size : ℕ
size_of_size = 8

abbrev as_number : Bool → ℕ
as_number true = 1
as_number false = 0

module _ (m : Layout) where
  -- dump_write(T*, char*, size_t)
  pub dump_number : ℕ → ℕ → Bytes → Dumped
  dump_number size v buffer =
      if ltb (length buffer) size
      then dumped false buffer
      else dumped true (m.store size v ++ drop size buffer)

  -- dump_write(std::string*, char*, size_t), where `strncpy` fills the buffer up with NULs.
  pub dump_text : Bytes → Bytes → Dumped
  dump_text text buffer =
      let copied = c_string text in
      if ltb (length buffer) (length text + 1)
      then dumped false buffer
      else dumped true (copied ++ replicate (length buffer - length copied) 0)

  dump_hostname : Option Bytes → Bytes → Dumped
  dump_hostname none buffer = undefined
  dump_hostname (some text) buffer = dump_text text buffer

  -- `dump_by_id_found`
  pub dump_key : Config → Key → Bytes → Dumped
  dump_key c hostname_key buffer = dump_hostname c.hostname buffer
  dump_key c port_key buffer = dump_number size_of_short (get_port c) buffer
  dump_key c submissionport_key buffer = dump_number size_of_short (get_submissionport c) buffer
  dump_key c debug_key buffer = dump_number size_of_bool (as_number (get_debug c)) buffer
  dump_key c maxmessagesize_key buffer = dump_number size_of_size (get_maxmessagesize c) buffer
  dump_key c maxrcpt_key buffer = dump_number size_of_size (get_maxrcpt c) buffer

  dump_found : Config → Option Key → Bytes → Dumped
  dump_found c none buffer = dumped false buffer
  dump_found c (some key) buffer = dump_key c key buffer

  -- config::dump, into a buffer of `len` bytes; ids are 16 bits.
  pub dump : Config → ℕ → Bytes → Dumped
  dump c id buffer = dump_found c (find_id all_ids id) buffer

  -- set_write for a number.
  pub set_write : ℕ → (ℕ → LocalConfig) → Bytes → Assigned
  set_write size store buffer =
      if ltb (length buffer) size then refused else assigned (store (m.load size buffer))

  -- `set_by_id_found`
  pub set_key : Key → Bytes → LocalConfig → Assigned
  set_key hostname_key buffer c = with_text (read_text buffer) c
  set_key port_key buffer c = set_write size_of_short (λ v. record c { port = some v }) buffer
  set_key submissionport_key buffer c =
      set_write size_of_short (λ v. record c { submissionport = some v }) buffer
  set_key debug_key buffer c = refused
  set_key maxmessagesize_key buffer c =
      set_write size_of_size (λ v. record c { maxmessagesize = some v }) buffer
  set_key maxrcpt_key buffer c = set_write size_of_size (λ v. record c { maxrcpt = some v }) buffer

  set_id_found : Option Key → Bytes → LocalConfig → Assigned
  set_id_found none buffer c = refused
  set_id_found (some key) buffer c = set_key key buffer c

  -- config::set on local_config, with an id.
  pub set_by_id : ℕ → Bytes → LocalConfig → Assigned
  set_by_id id buffer c = set_id_found (find_id local_ids id) buffer c
