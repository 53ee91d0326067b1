-- ===== src/Config/Examples.antt =====
-- Small configuration files.
use ervan.Base.{◌≡◌, refl, codes, List, [], ◌∷◌, ◌++◌, some, none}
use ervan.Config.{Config}
use ervan.Config.File.{parse_ok, get_config_pair, reload_config}
use ervan.Base.{map, arith, true}
use ervan.Config.File.Settings.{
  Setting, port_is, comment, debug_is, line, assign_all, reload_config-assigns,
}
use ervan.Config.File.RoundTrip.{render, get_config_pair-space}

abbrev unset_config : Config
unset_config = record {
  hostname = none;
  port = none;
  submissionport = none;
  debug = none;
  maxmessagesize = none;
  maxrcpt = none;
}

abbrev settings : List Setting
settings =
    port_is (codes "026")
    ∷ comment (codes "a") (codes "x y")
    ∷ debug_is true
    ∷ port_is (codes "7")
    ∷ []

get_config_pair-space_example :
    get_config_pair (codes "#a" ++ (b'\n' ∷ (codes "port 26" ++ (b'\n' ∷ []))))
    ≡ parse_ok (codes "#a") (codes "port 26") (b'\n' ∷ [])
get_config_pair-space_example =
    get_config_pair-space (codes "#a") (codes "port 26") [] b'\n'
      ((refl, (refl, tt)), (refl, (refl, (refl, (refl, (refl, (refl, (refl, tt)))))))) refl

reload_config-assigns_example :
    reload_config 0 (render (map line settings)) unset_config
    ≡ some (assign_all settings unset_config)
reload_config-assigns_example = reload_config-assigns 0 settings unset_config (
  (
    ((omega arith, omega arith), ((omega arith, omega arith), ((omega arith, omega arith), tt))),
    omega arith,
  ),
  (
    ((refl, tt), (refl, (refl, (refl, tt)))),
    (tt, ((((omega arith, omega arith), tt), omega arith), tt)),
  ),
)
