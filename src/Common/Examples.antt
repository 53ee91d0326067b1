-- ===== src/Common/Examples.antt =====
-- A tar header.
use ervan.Base.{◌≡◌, ◌+◌, ◌*◌, length, take, drop, codes, arith}
use ervan.Common.Tar.{filled}
use ervan.Common.Tar.Header.{read_octal}
use ervan.Common.Tar.Checksum.{total, filled-read}

filled-read_example :
    (length (filled (codes "m.") 1300 1700000000) ≡ 512)
    × (read_octal 0 (drop 124 (filled (codes "m.") 1300 1700000000)) ≡ 1300)
    × (read_octal 0 (drop 136 (filled (codes "m.") 1300 1700000000)) ≡ 1700000000)
    × (read_octal 0 (drop 148 (filled (codes "m.") 1300 1700000000))
        ≡ total (take 148 (filled (codes "m.") 1300 1700000000))
          + 8 * b' '
          + total (drop 156 (filled (codes "m.") 1300 1700000000)))
filled-read_example =
    filled-read (codes "m.") 1300 1700000000 (omega arith, (omega arith, tt)) (omega arith)
      (omega arith)
