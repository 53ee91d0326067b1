-- ===== src/Strings/Span.antt =====
-- common/include/ervan/string.hpp: `span`, a pointer and a size, over a memory of bytes.
pub mod Reads
mod Examples
use ervan.Base.{
  ℕ, zero, suc, ◌+◌, ◌-◌, ◌%◌, ◌^◌, Bool, true, false, not, ◌&&◌, ◌==◌, leb, if◌then◌else◌, [], ◌∷◌,
}

-- std::tolower in the "C" locale.
unfoldable pub to_lower : ℕ → ℕ
to_lower c = if leb b'A' c && leb c b'Z' then c + 32 else c

-- The byte at each address.
abbrev pub Memory : Type 0
Memory = ℕ → ℕ

pub record Span : Type 0 where
  pub start : ℕ
  pub len : ℕ

-- span()
abbrev pub null_span : Span
null_span = record { start = 0; len = 0 }

-- span(T* _start, T* _end), where a byte is what the pointers step over.
unfoldable pub of_ends : ℕ → ℕ → Span
of_ends start end = record { start = start; len = (end + (2 ^ 64 - start)) % 2 ^ 64 }

-- end()
unfoldable pub end_of : Span → ℕ
end_of sp = (sp.start + sp.len) % 2 ^ 64

-- operator[]
abbrev pub index : Memory → Span → ℕ → ℕ
index memory sp i = memory (sp.start + i)

unfoldable pub advance : ℕ → Span → Span
advance n sp = of_ends ((sp.start + n) % 2 ^ 64) (end_of sp)

-- The loop of compare_insensitive, from the byte `i` on, over `left` bytes.
pub compare_from : Memory → Span → Span → ℕ → ℕ → Bool
compare_from memory a b i zero = true
compare_from memory a b i (suc left) =
    let rest = compare_from memory a b (i + 1) left in
    if not (to_lower (index memory a i) == to_lower (index memory b i)) then false else rest

pub compare_insensitive : Memory → Span → Span → Bool
compare_insensitive memory a b =
    if not (a.len == b.len) then false else compare_from memory a b 0 a.len

-- std::memcmp(begin, other, left) == 0
pub memcmp_equal : Memory → ℕ → ℕ → ℕ → Bool
memcmp_equal memory a b zero = true
memcmp_equal memory a b (suc left) =
    let rest = memcmp_equal memory (a + 1) (b + 1) left in
    if memory a == memory b then rest else false

-- operator==
pub equals : Memory → Span → Span → Bool
equals memory a b =
    if not (a.len == b.len) then false else memcmp_equal memory a.start b.start a.len
