-- ===== src/Common/Log/Examples.antt =====
-- A command with an LF in it, which forges a row.
use ervan.Base.{◌≡◌, refl, Bytes, codes, [], ◌∷◌, ◌++◌}
use ervan.Common.Platform.{c_string}
use ervan.Common.Log.{LogOutput, preamble, set_name, write_log, log_command}
use ervan.Common.Log.Rows.{rows, behind_rows, parts, write_log-rows}

abbrev noon : Bytes
noon = codes "12:00:00"

abbrev new_log : LogOutput
new_log = record { output = []; name = [] }

abbrev smtp_log : LogOutput
smtp_log = record { output = codes "12:00:00 smtp: New connection.\n"; name = codes "smtp" }

first_row : write_log noon (codes "New connection.") (set_name (codes "smtp") new_log) ≡ smtp_log
unfolding write_log set_name
first_row = refl

abbrev forging : Bytes
forging = codes "NOOP\n12:00:01 smtp: Done."

forged :
    rows [] (log_command noon forging smtp_log).output
    ≡ codes "12:00:00 smtp: New connection."
      ∷ codes "12:00:00 smtp: NOOP"
      ∷ codes "12:00:01 smtp: Done."
      ∷ []
unfolding log_command write_log c_string
forged = refl

write_log-rows_example :
    (rows [] (write_log noon forging smtp_log).output
      ≡ rows [] smtp_log.output ++ parts (preamble noon smtp_log) forging)
    × (behind_rows [] (write_log noon forging smtp_log).output ≡ [])
write_log-rows_example = write_log-rows noon forging smtp_log refl (
  refl,
  (
    refl,
    (
      refl,
      (
        refl,
        (refl, (refl, (refl, (refl, (refl, (refl, (refl, (refl, (refl, (refl, (refl, tt))))))))))),
      ),
    ),
  ),
)
