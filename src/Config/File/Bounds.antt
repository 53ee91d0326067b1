-- ===== src/Config/File/Bounds.antt =====
-- The numbers of a configuration fit the types of their entries, whatever file it is read from.
use ervan.Base.{
  if_keeps, ℕ, zero, suc, subst, ◌-◌, ◌^◌, ◌≤◌, ◌≡◌, ◌||◌, ◌==◌, not, ltb, ltb_false→le, Bytes,
  get_or, Option, none, some,
}
use ervan.Config.{
  Config, Key, hostname_key, port_key, submissionport_key, debug_key, maxmessagesize_key,
  maxrcpt_key, exists, below_max, transform_read, transform, Number, invalid_argument, out_of_range,
  value, from_chars, set_number, set_entry, set_found, set_by_key, find_entry, entries,
}
use ervan.Config.File.Ends.{reload_config-Ends}
use ervan.Config.File.{
  Pair, parse_ok, parse_invalid, parse_end, get_config_pair, reload_set, reload_pair, reload,
  reload_config,
}

-- A value, if one is set, is at most `max`.
abbrev pub AtMost : ℕ → Option ℕ → Type 0
AtMost max none = Unit
AtMost max (some n) = n ≤ max

pub record IsInRange (c : Config) : Type 0 where
  pub port : AtMost (2 ^ 16 - 1) c.port
  pub submissionport : AtMost (2 ^ 16 - 1) c.submissionport
  pub maxmessagesize : AtMost (2 ^ 64 - 1) c.maxmessagesize
  pub maxrcpt : AtMost (2 ^ 64 - 1) c.maxrcpt

-- What a step that may fail leaves is in range.
abbrev InRange : Option Config → Type 0
InRange none = Unit
InRange (some c) = IsInRange c

below_max-AtMost : (max n : ℕ) → AtMost max (below_max max n)
unfolding below_max
below_max-AtMost max n =
    if_keeps (AtMost max) (ltb max n) none (some n) (λ e. tt) (λ e. ltb_false→le max n e)

transform_read-AtMost : (unset max : ℕ) (n : Number) → AtMost max (transform_read unset max n)
unfolding transform_read
transform_read-AtMost unset max invalid_argument = tt
transform_read-AtMost unset max out_of_range = below_max-AtMost max unset
transform_read-AtMost unset max (value n) = below_max-AtMost max n

transform-AtMost : (unset max : ℕ) (str : Bytes) → AtMost max (transform unset max str)
unfolding transform
transform-AtMost unset max str = transform_read-AtMost unset max (from_chars str)

set_number-InRange :
    (store : ℕ → Config) (max : ℕ) (o : Option ℕ)
    → AtMost max o
    → ((n : ℕ) → n ≤ max → IsInRange (store n))
    → InRange (set_number store o)
unfolding set_number
set_number-InRange store max none h k = tt
set_number-InRange store max (some n) h k = k n h

module _ (unset : ℕ) where
  set_entry-InRange :
      (key : Key) (val : Bytes) (c : Config) → IsInRange c → InRange (set_entry unset key val c)
  unfolding set_entry
  set_entry-InRange hostname_key val c h = record {
    port = h.port;
    submissionport = h.submissionport;
    maxmessagesize = h.maxmessagesize;
    maxrcpt = h.maxrcpt;
  }
  set_entry-InRange port_key val c h =
      set_number-InRange _ _ _ (transform-AtMost unset _ val) (λ n k. record {
        port = k;
        submissionport = h.submissionport;
        maxmessagesize = h.maxmessagesize;
        maxrcpt = h.maxrcpt;
      })
  set_entry-InRange submissionport_key val c h =
      set_number-InRange _ _ _ (transform-AtMost unset _ val) (λ n k. record {
        port = h.port;
        submissionport = k;
        maxmessagesize = h.maxmessagesize;
        maxrcpt = h.maxrcpt;
      })
  set_entry-InRange debug_key val c h = record {
    port = h.port;
    submissionport = h.submissionport;
    maxmessagesize = h.maxmessagesize;
    maxrcpt = h.maxrcpt;
  }
  set_entry-InRange maxmessagesize_key val c h =
      set_number-InRange _ _ _ (transform-AtMost unset _ val) (λ n k. record {
        port = h.port;
        submissionport = h.submissionport;
        maxmessagesize = k;
        maxrcpt = h.maxrcpt;
      })
  set_entry-InRange maxrcpt_key val c h =
      set_number-InRange _ _ _ (transform-AtMost unset _ val) (λ n k. record {
        port = h.port;
        submissionport = h.submissionport;
        maxmessagesize = h.maxmessagesize;
        maxrcpt = k;
      })

  set_found-InRange :
      (entry : Option Key) (val : Bytes) (c : Config)
      → IsInRange c
      → InRange (set_found unset entry val c)
  unfolding set_found
  set_found-InRange none val c h = tt
  set_found-InRange (some entry) val c h = set_entry-InRange entry val c h

  set_by_key-InRange :
      (key val : Bytes) (c : Config) → IsInRange c → InRange (set_by_key unset key val c)
  unfolding set_by_key
  set_by_key-InRange key val c h = set_found-InRange (find_entry entries key) val c h

  abbrev Keeps : (Bytes → Config → Option Config) → Type 0
  Keeps next = (rest : Bytes) (c : Config) → IsInRange c → InRange (next rest c)

  reload_set-InRange :
      (next : Bytes → Config → Option Config) (rest : Bytes) (o : Option Config) (c : Config)
      → Keeps next
      → IsInRange c
      → InRange o
      → InRange (reload_set next rest o c)
  unfolding reload_set
  reload_set-InRange next rest none c k h h' = h
  reload_set-InRange next rest (some c') c k h h' = k rest c' h'

  reload_pair-InRange :
      (next : Bytes → Config → Option Config) (pair : Pair) (c : Config)
      → Keeps next
      → IsInRange c
      → InRange (reload_pair unset next pair c)
  unfolding reload_pair
  reload_pair-InRange next parse_invalid c k h = h
  reload_pair-InRange next parse_end c k h = h
  reload_pair-InRange next (parse_ok key val rest) c k h =
      if_keeps InRange (get_or key 0 0 == b'#' || not (exists key)) _ _ (λ e. k rest c h)
        (λ e. reload_set-InRange next rest _ c k h (set_by_key-InRange key val c h))

  reload-InRange : (fuel : ℕ) → Keeps (reload unset fuel)
  unfolding reload
  reload-InRange zero rest c h = tt
  reload-InRange (suc fuel) rest c h =
      reload_pair-InRange (reload unset fuel) (get_config_pair rest) c (reload-InRange fuel) h

  -- Reading a configuration file ends, whatever the file holds; if the numbers that were set before
  -- fit the types of their entries, those of the new configuration do: ports are below 2^16, sizes
  -- below 2^64. That holds also if the number that `std::from_chars` leaves unset is arbitrary.
  pub reload_config-IsInRange :
      (buffer : Bytes) (c : Config)
      → IsInRange c
      → (c' : Config) × (reload_config unset buffer c ≡ some c') × IsInRange c'
  unfolding reload_config
  reload_config-IsInRange buffer c h =
      let (c', e) = reload_config-Ends unset buffer c in
      (c', e, subst InRange e (reload-InRange _ buffer c h))
