-- ===== src/Common/Platform/Regular.antt =====
-- A platform whose file is a regular file that takes every write: write(2), lseek(2), fsync(2).
use ervan.Base.{ℕ, ◌+◌, ◌≡◌, true, Bytes, length, ◌++◌, append_assoc, some, subst}
use ervan.Common.Platform.{Platform, Task, chain, put}

-- What the file holds, and the position in it.
pub record Contents (p : Platform) : Type 0 where
  pub bytes : p.Disk → Bytes
  pub position : p.Disk → ℕ

module _ {p : Platform} (file : Contents p) where
  abbrev pub Stands : p.Disk → Bytes → ℕ → Type 0
  Stands d content pos = (file.bytes d ≡ content) × (file.position d ≡ pos)

  -- A write at the end appends, and one in front of it replaces as many bytes.
  pub record IsRegular : Type 0 where
    pub write_end :
        (d : p.Disk) (content src : Bytes)
        → Stands d content (length content)
        → ((p.write d src).0 ≡ true)
          × Stands (p.write d src).1 (content ++ src) (length (content ++ src))
    pub write_over :
        (d : p.Disk) (front old back src : Bytes)
        → Stands d (front ++ (old ++ back)) (length front)
        → length old ≡ length src
        → ((p.write d src).0 ≡ true)
          × Stands (p.write d src).1 (front ++ (src ++ back)) (length front + length src)
    pub tellg_position :
        (d : p.Disk) (content : Bytes) (pos : ℕ) → Stands d content pos → p.tellg d ≡ some pos
    pub seek_set-Stands :
        (d : p.Disk) (content : Bytes) (pos offset : ℕ)
        → Stands d content pos
        → Stands (p.seek_set d offset) content offset
    pub seek_end-Stands :
        (d : p.Disk) (content : Bytes) (pos : ℕ)
        → Stands d content pos
        → Stands (p.seek_end d) content (length content)
    pub fsync_done : (d : p.Disk) → (p.fsync d).0 ≡ 0
    pub fsync-bytes : (d : p.Disk) → file.bytes (p.fsync d).1 ≡ file.bytes d
    pub close-bytes : (d : p.Disk) → file.bytes (p.close d) ≡ file.bytes d

  -- A coroutine that writes these bytes at the end of the file.
  abbrev pub Appends : Task p → Bytes → Type 0
  Appends task src =
      (d : p.Disk) (content : Bytes)
      → Stands d content (length content)
      → ((task d).0 ≡ true) × Stands (task d).1 (content ++ src) (length (content ++ src))

  module _ (regular : IsRegular) where
    pub put-Appends : (src : Bytes) → Appends (put p src) src
    put-Appends src d content h = regular.write_end d content src h

    pub chain-Appends :
        (first second : Task p) (a b : Bytes)
        → Appends first a
        → Appends second b
        → Appends (chain p first second) (a ++ b)
    chain-Appends first second a b h k d content st =
        let (e, st') = h d content st in
        let (f, st'') = k (first d).1 (content ++ a) st' in
        rw e (
          f,
          subst (λ c. Stands (second (first d).1).1 c (length c)) (append_assoc content a b) st'',
        )
