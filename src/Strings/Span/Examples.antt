-- ===== src/Strings/Span/Examples.antt =====
-- A memory with two words in it.
use ervan.Base.{◌≡◌, refl, true, codes, get_or, equal, map, arith}
use ervan.Strings.Span.{
  to_lower, Memory, Span, of_ends, end_of, advance, compare_from, compare_insensitive, equals,
}
use ervan.Strings.Span.Reads.{bytes, Advances, advance-Advances, compares}

abbrev two_words : Memory
two_words i = get_or (codes "BODYbody") i 0

abbrev upper : Span
upper = record { start = 0; len = 4 }

abbrev lower : Span
lower = record { start = 4; len = 4 }

same_word : compare_insensitive two_words upper lower ≡ true
unfolding compare_insensitive compare_from to_lower
same_word = refl

last_bytes : bytes two_words (advance 2 lower) ≡ codes "dy"
unfolding advance of_ends end_of
last_bytes = refl

advance-Advances_example : Advances two_words 5 upper (advance 5 upper)
advance-Advances_example = advance-Advances two_words 5 upper (omega arith) (omega arith)

compares_example :
    (equals two_words upper lower ≡ equal (bytes two_words upper) (bytes two_words lower))
    × (compare_insensitive two_words upper lower
        ≡ equal (map to_lower (bytes two_words upper)) (map to_lower (bytes two_words lower)))
compares_example = compares two_words upper lower
