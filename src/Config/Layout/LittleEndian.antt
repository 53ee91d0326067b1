-- ===== src/Config/Layout/LittleEndian.antt =====
-- The layout of the machines that the program is built for.
use ervan.Base.{
  ℕ, zero, suc, ◌+◌, ◌*◌, ◌/◌, ◌%◌, ◌^◌, ◌<◌, ◌≡◌, refl, Bytes, length, [], ◌∷◌, ◌++◌, arith,
}
use native.Mathlib.Numerals.{unary_clauses}
use ervan.Config.Layout.{Layout, IsLawful}

abbrev pub store_bytes : ℕ → ℕ → Bytes
store_bytes zero v = []
store_bytes (suc size) v = (v % 256) ∷ store_bytes size (v / 256)

abbrev pub load_bytes : ℕ → Bytes → ℕ
load_bytes zero bytes = 0
load_bytes (suc size) [] = 0
load_bytes (suc size) (c ∷ cs) = c + 256 * load_bytes size cs

abbrev pub little_endian : Layout
little_endian = record { store = store_bytes; load = load_bytes }

length-store_bytes : (size v : ℕ) → length (store_bytes size v) ≡ size
length-store_bytes zero v = refl
length-store_bytes (suc size) v = omega (arith, length-store_bytes size (v / 256))

power : (n : ℕ) → 256 ^ suc n ≡ 256 ^ n * 256
power n = simp unary_clauses refl

load_bytes-store_bytes :
    (size v : ℕ) (rest : Bytes) → v < 256 ^ size → load_bytes size (store_bytes size v ++ rest) ≡ v
load_bytes-store_bytes zero v rest h = omega arith
load_bytes-store_bytes (suc size) v rest h =
    omega (arith, load_bytes-store_bytes size (v / 256) rest (omega (arith, power size)))

pub little_endian-IsLawful : IsLawful little_endian
little_endian-IsLawful = record {
  length-store = length-store_bytes;
  load-store = load_bytes-store_bytes;
}
