-- ===== src/Common/Metadata/Appends.antt =====
-- The bytes that metadata::write_to writes.
use ervan.Base.{refl, Bytes, List, [], ◌∷◌, ◌++◌, append-nil}
use ervan.Common.Platform.{Platform, Task, chain, put}
use ervan.Common.Platform.Regular.{Contents, IsRegular, Appends, put-Appends, chain-Appends}
use ervan.Common.Metadata.{Metadata, eol, encoded_lines, write_paths, write_to}

abbrev pub paths_bytes : List Bytes → Bytes
paths_bytes [] = []
paths_bytes (path ∷ paths) = path ++ (eol ++ paths_bytes paths)

-- The four lines of padding, the sender, and the recipients, each on a line.
abbrev pub metadata_bytes : Metadata → Bytes
metadata_bytes m =
    encoded_lines ++ (m.from ++ (eol ++ (m.reverse_path ++ (eol ++ paths_bytes m.forward_paths))))

module _ {p : Platform} {file : Contents p} (regular : IsRegular file) where
  write_paths-Appends :
      (paths : List Bytes) → Appends file (write_paths p paths) (paths_bytes paths)
  unfolding write_paths
  write_paths-Appends [] d content h = (refl, rw append-nil h)
  write_paths-Appends (path ∷ paths) d content h =
      chain-Appends file regular _ _ path _ (put-Appends file regular path)
        (chain-Appends file regular _ _ eol _ (put-Appends file regular eol)
          (write_paths-Appends paths))
        d content h

  pub write_to-Appends : (m : Metadata) → Appends file (write_to p m) (metadata_bytes m)
  unfolding write_to
  write_to-Appends m =
      let step : (src rest : Bytes) (task : Task p)
          → Appends file task rest
          → Appends file (chain p (put p src) task) (src ++ rest) =
        λ src rest task h.
          chain-Appends file regular _ task src rest (put-Appends file regular src) h in
      step encoded_lines _ _ (
        step m.from _ _ (
          step eol _ _
            (step m.reverse_path _ _ (step eol _ _ (write_paths-Appends m.forward_paths)))))
