-- ===== src/Config/Layout.antt =====
-- How an object of an unsigned type lies in memory. The implementation chooses it: the program only
-- copies objects into byte buffers and back, by `reinterpret_cast`.
pub mod LittleEndian
use ervan.Base.{ℕ, ◌^◌, ◌<◌, ◌≡◌, Bytes, length, ◌++◌}

-- The bytes of an object of `size` bytes, and the value of the object at the start of a buffer.
pub record Layout : Type 0 where
  pub store : ℕ → ℕ → Bytes
  pub load : ℕ → Bytes → ℕ

-- An object has as many bytes as its type says, and its value is read back from them.
pub record IsLawful (m : Layout) : Type 0 where
  pub length-store : (size v : ℕ) → length (m.store size v) ≡ size
  pub load-store :
      (size v : ℕ) (rest : Bytes) → v < 256 ^ size → m.load size (m.store size v ++ rest) ≡ v
