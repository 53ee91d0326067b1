-- ===== src/Common/Writer/Extends.antt =====
-- What the header writer does to a file that takes every write.
use ervan.Base.{
  ◌%◌, ◌^◌, ℕ, ◌+◌, ◌≡◌, refl, subst, Bool, true, ltb, if◌then◌else◌, if_keeps, Bytes, codes,
  length, [], ◌∷◌, ◌++◌, append-nil, append_assoc,
}
use ervan.Common.Platform.{Platform}
use ervan.Common.Platform.Regular.{Contents, Stands, IsRegular}
use ervan.Common.Writer.{
  extended, Writer, Writes, add_length, preferred_line_length, and_then, write_raw, begin_header,
  fold, write_body_part, write_time, end_header,
}

module _ {p : Platform} {file : Contents p} (regular : IsRegular file) where
  -- The call succeeds, and some bytes are written at the end of the file.
  abbrev pub Extends : Bytes → Bool → p.Disk → Type 0
  Extends content success d =
      (success ≡ true) × ((src : Bytes) × Stands file d (content ++ src) (length (content ++ src)))

  -- So does a call on the writer, whatever is in front.
  pub record WriterExtends (write : Writes p) : Type 0 where
    pub extends :
        (w : Writer p) (content : Bytes)
        → Stands file w.disk content (length content)
        → Extends content (write w).0 (write w).1.disk

  pub and_then-Extends :
      {first second : Writes p}
      → WriterExtends first
      → WriterExtends second
      → WriterExtends (and_then p first second)
  and_then-Extends {first} {second} h k = record {
    extends = λ w content st.
        let (e, (a, st')) = h.extends w content st in
        let (f, (b, st'')) = k.extends (first w).1 (content ++ a) st' in
        rw e (
          f,
          (
            a ++ b,
            subst (λ c. Stands file (second (first w).1).1.disk c (length c))
                (append_assoc content a b) st'',
          ),
        );
  }

  write_raw-Extends : (src : Bytes) → WriterExtends (write_raw p src)
  unfolding write_raw
  write_raw-Extends src = record {
    extends =
        λ w content st. let (e, st') = regular.write_end w.disk content src st in (e, (src, st'));
  }

  nothing-Extends :
      (d : p.Disk) (content : Bytes)
      → Stands file d content (length content)
      → Extends content true d
  nothing-Extends d content st = (refl, ([], rw append-nil st))

  add_length-Extends : (n : ℕ) → WriterExtends (add_length p n)
  add_length-Extends n = record { extends = λ w content st. nothing-Extends w.disk content st }

  -- A write that then counts the line anew.
  counted-Extends :
      (src : Bytes) (count : Writer p → ℕ) (w : Writer p) (content : Bytes)
      → Stands file w.disk content (length content)
      → Extends content
          (write_raw p src w).0
          (if (write_raw p src w).0
            then record (write_raw p src w).1 { line_length = count (write_raw p src w).1 }
            else (write_raw p src w).1).disk
  counted-Extends src count w content st =
      let (e, k) = (write_raw-Extends src).extends w content st in
      let w' = (write_raw p src w).1 in
      (
        e,
        if_keeps {A = Writer p}
            (λ r. (a : Bytes) × Stands file r.disk (content ++ a) (length (content ++ a)))
            (write_raw p src w).0 (record w' { line_length = count w' }) w' (λ x. k) (λ x. k),
      )

  fold-Extends : (part : Bytes) (space : Bool) → WriterExtends (fold p part space)
  unfolding fold
  fold-Extends part space = record {
    extends = λ w content st.
        let P : Bool × Writer p → Type 0 = λ r. Extends content r.0 r.1.disk in
        if_keeps P
          (ltb preferred_line_length
            ((extended (w.line_length + (if space then 1 else 0)) + length part) % 2 ^ 64))
          _ _ (λ x. counted-Extends (b'\r' ∷ b'\n' ∷ b'\t' ∷ []) (λ w'. 1) w content st)
          (λ x.
            if_keeps P space _ _
              (λ y. counted-Extends (codes " ") (λ w'. (w'.line_length + 1) % 2 ^ 32) w content st)
              (λ y. nothing-Extends w.disk content st));
  }

  pub write_body_part-Extends :
      (part : Bytes) (space : Bool) → WriterExtends (write_body_part p part space)
  unfolding write_body_part
  write_body_part-Extends part space =
      and_then-Extends (fold-Extends part space)
        (and_then-Extends (add_length-Extends (length part)) (write_raw-Extends part))

  pub write_time-Extends : (strftime : Bytes → Bytes) → WriterExtends (write_time p strftime)
  unfolding write_time
  write_time-Extends strftime =
      let part : (format : Bytes) → WriterExtends (write_body_part p (strftime format) true) =
        λ format. write_body_part-Extends (strftime format) true in
      and_then-Extends (part (codes "%a,")) (
        and_then-Extends (part (codes "%d")) (
          and_then-Extends (part (codes "%b")) (
            and_then-Extends (part (codes "%Y"))
              (and_then-Extends (part (codes "%T")) (part (codes "%z"))))))

  pub begin_header-Extends : (name : Bytes) → WriterExtends (begin_header p name)
  unfolding begin_header
  begin_header-Extends name =
      and_then-Extends (add_length-Extends (length name))
        (and_then-Extends (write_raw-Extends name) (write_raw-Extends (codes ":")))

  pub end_header-Extends : WriterExtends (end_header p)
  unfolding end_header
  end_header-Extends = write_raw-Extends (b'\r' ∷ b'\n' ∷ [])
