-- ===== src/Strings/Unique/Examples.antt =====
-- Two names from the same second.
use ervan.Base.{arith, ◌≡◌, refl, codes, List, [], ◌∷◌}
use ervan.Strings.Unique.{digits, decimal, Moment, file_name_of, get_unique_filename, all_names}
use ervan.Strings.Unique.Names.{Distinct, all_names-Distinct}

abbrev same_second : List Moment
same_second = record { time = 1700000000; rand = 7 } ∷ record { time = 1700000000; rand = 7 } ∷ []

first_names :
    all_names (codes "msg") 41 same_second 9
    ≡ codes "msg.41.1700000000.9.7" ∷ codes "msg.41.1700000000.10.7" ∷ []
unfolding all_names get_unique_filename file_name_of decimal digits
first_names = refl

all_names-Distinct_example : Distinct (all_names (codes "msg") 41 same_second 9)
all_names-Distinct_example = all_names-Distinct (codes "msg") 41 same_second 9 (omega arith)
