-- ===== src/Config/File/Ends.antt =====
-- The loop over the configuration's file ends on every file.
use ervan.Base.{
  ℕ, zero, suc, ◌≤◌, ◌<◌, ◌≡◌, refl, Bool, true, false, not, ◌||◌, ◌==◌, Bool-cases, inl, inr,
  if◌then◌else◌, Bytes, length, get_or, [], ◌∷◌, Option, none, some, arith,
}
use ervan.Parse.{skip_while}
use ervan.Parse.Results.{between}
use ervan.Parse.Params.{Stops}
use ervan.Config.{Config, exists}
use ervan.Config.File.{
  space, not_space, in_line, Pair, parse_ok, parse_invalid, parse_end, value_pair, key_pair,
  first_pair, get_config_pair, reload_set, reload_pair, reload, reload_config,
}

skip_while-Stops : (test : ℕ → Bool) (s : Bytes) → Stops test (skip_while test s)
unfolding skip_while
skip_while-Stops test [] = tt
skip_while-Stops test (c ∷ cs) = elim (Bool-cases (test c)) [
  | inl e ↦ rw e (skip_while-Stops test cs)
  | inr e ↦ rw e e
]

length-skip_while : (test : ℕ → Bool) (s : Bytes) → length (skip_while test s) ≤ length s
unfolding skip_while
length-skip_while test [] = omega arith
length-skip_while test (c ∷ cs) = elim (Bool-cases (test c)) [
  | inl e ↦ rw e (omega (arith, length-skip_while test cs))
  | inr e ↦ rw e (omega arith)
]

-- A pair leaves less of the buffer.
abbrev Leaves : ℕ → Pair → Type 0
Leaves n (parse_ok key val rest) = length rest < n
Leaves n parse_invalid = Unit
Leaves n parse_end = Unit

value_pair-Leaves : (key s : Bytes) (n : ℕ) → length s < n → Leaves n (value_pair key s)
unfolding value_pair
value_pair-Leaves key [] n h = tt
value_pair-Leaves key (c ∷ cs) n h = omega (arith, length-skip_while in_line (c ∷ cs))

key_pair-Leaves : (start s : Bytes) (n : ℕ) → length s < n → Leaves n (key_pair start s)
unfolding key_pair
key_pair-Leaves start [] n h = tt
key_pair-Leaves start (c ∷ cs) n h =
    value_pair-Leaves (between start (c ∷ cs)) (skip_while space (c ∷ cs)) n
      (omega (arith, length-skip_while space (c ∷ cs)))

not_space-key :
    (c : ℕ) (cs : Bytes)
    → space c ≡ false
    → length (skip_while not_space (c ∷ cs)) < suc (length cs)
unfolding skip_while
not_space-key c cs h = rw h (omega (arith, length-skip_while not_space cs))

first_pair-Leaves : (s : Bytes) (n : ℕ) → Stops space s → length s ≤ n → Leaves n (first_pair s)
unfolding first_pair
first_pair-Leaves [] n k h = tt
first_pair-Leaves (c ∷ cs) n k h =
    key_pair-Leaves (c ∷ cs) (skip_while not_space (c ∷ cs)) n (omega (arith, not_space-key c cs k))

get_config_pair-Leaves : (s : Bytes) → Leaves (length s) (get_config_pair s)
unfolding get_config_pair
get_config_pair-Leaves s =
    first_pair-Leaves (skip_while space s) (length s) (skip_while-Stops space s)
      (length-skip_while space s)

abbrev pub Ends : Option Config → Type 0
Ends o = (c : Config) × (o ≡ some c)

Ends-if : (b : Bool) (x y : Option Config) → Ends x → Ends y → Ends (if b then x else y)
Ends-if true x y h k = h
Ends-if false x y h k = k

module _ (unset : ℕ) where
  reload_set-Ends :
      (next : Bytes → Config → Option Config) (rest : Bytes) (o : Option Config) (cfg : Config)
      → ((c : Config) → Ends (next rest c))
      → Ends (reload_set next rest o cfg)
  unfolding reload_set
  reload_set-Ends next rest none cfg h = (cfg, refl)
  reload_set-Ends next rest (some c) cfg h = h c

  reload_pair-Ends :
      (next : Bytes → Config → Option Config) (n : ℕ) (pair : Pair) (cfg : Config)
      → Leaves n pair
      → ((rest : Bytes) (c : Config) → length rest < n → Ends (next rest c))
      → Ends (reload_pair unset next pair cfg)
  unfolding reload_pair
  reload_pair-Ends next n parse_invalid cfg l h = (cfg, refl)
  reload_pair-Ends next n parse_end cfg l h = (cfg, refl)
  reload_pair-Ends next n (parse_ok key val rest) cfg l h =
      Ends-if (get_or key 0 0 == b'#' || not (exists key)) _ _ (h rest cfg l)
        (reload_set-Ends next rest _ cfg (λ c. h rest c l))

  reload-Ends :
      (fuel : ℕ) (rest : Bytes) (cfg : Config)
      → length rest < fuel
      → Ends (reload unset fuel rest cfg)
  unfolding reload
  reload-Ends zero rest cfg l = absurd (omega arith)
  reload-Ends (suc fuel) rest cfg l =
      reload_pair-Ends (reload unset fuel) (length rest) (get_config_pair rest) cfg
        (get_config_pair-Leaves rest) (λ r c k. reload-Ends fuel r c (omega arith))

  -- Whatever the file holds, the loop of reload_config comes to an end, with a configuration.
  pub reload_config-Ends : (buffer : Bytes) (cfg : Config) → Ends (reload_config unset buffer cfg)
  unfolding reload_config
  reload_config-Ends buffer cfg = reload-Ends _ buffer cfg (omega arith)
