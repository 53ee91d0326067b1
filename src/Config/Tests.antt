-- ===== src/Config/Tests.antt =====
-- Single settings.
use ervan.Base.{◌≡◌, refl, true, false, codes, some, none}
use ervan.Common.Platform.{c_string}
use ervan.Config.{
  Config, find_entry, exists, read_digits, from_chars, below_max, transform_read, transform,
  transform_bool, set_number, set_entry, set_found, set_by_key,
}

abbrev empty : Config
empty = record {
  hostname = none;
  port = none;
  submissionport = none;
  debug = none;
  maxmessagesize = none;
  maxrcpt = none;
}

set_port :
    set_by_key 0 (codes "port") (codes "2525x") empty ≡ some (record empty { port = some 2525 })
unfolding find_entry c_string read_digits from_chars below_max transform_read transform set_number
    set_entry set_found set_by_key
set_port = refl

set_port_too_large : set_by_key 0 (codes "port") (codes "65536") empty ≡ none
unfolding find_entry c_string read_digits from_chars below_max transform_read transform set_number
    set_entry set_found set_by_key
set_port_too_large = refl

set_debug :
    set_by_key 0 (codes "debug") (codes "yes") empty ≡ some (record empty { debug = some true })
unfolding find_entry c_string transform_bool set_entry set_found set_by_key
set_debug = refl

unknown : exists (codes "hostnam") ≡ false
unfolding exists find_entry c_string
unknown = refl
