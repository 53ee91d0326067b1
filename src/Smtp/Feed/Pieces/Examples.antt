-- ===== src/Smtp/Feed/Pieces/Examples.antt =====
-- Two lines of a message in four pieces, and a command behind them, on a file in memory.
use ervan.Base.{
  ℕ, zero, suc, some, ◌+◌, ◌≤◌, ◌<◌, true, ◌≡◌, refl, ap, sym, ◌∙◌, Bytes, length, length-append,
  length-replicate, take, drop, take-append, drop-append, replicate, codes, List, [], ◌∷◌, ◌++◌,
  append-nil, append_assoc, arith,
}
use ervan.Common.Metadata.{encoded_lines}
use ervan.Common.Platform.Regular.{Contents, IsRegular}
use ervan.Smtp.Session.{cmd, Session}
use ervan.Common.Platform.{c_string}
use ervan.Common.Writer.{write_raw, begin_header, fold, write_body_part, write_time, end_header}
use ervan.Smtp.Files.{finish_data, write_front, write_header_space, write_trace_info}
use ervan.Smtp.Commands.{text}
use ervan.Smtp.Feed.Pieces.Transaction.{Stored, data_command-Stored}
use ervan.Smtp.Files.Archive.{Archived, finish_data-Archived}
use ervan.Smtp.Feed.{handle_pieces}
use ervan.Smtp.Feed.Pieces.Stored.{message_bytes, handle_pieces-Archived}
use ervan.Smtp.Examples.{MemoryDisk, memory, config, receiving, two_lines, wide-Holds}

abbrev four_pieces : List Bytes
four_pieces = codes "." ∷ codes ".a\r" ∷ codes "\nb\r\n." ∷ codes "\r\n" ∷ []

abbrev quit_later : List Bytes
quit_later = codes "QUIT\r\n" ∷ []

-- The file in memory is a regular file.
abbrev splice : Bytes → ℕ → Bytes → Bytes
splice bytes position src = take position bytes ++ (src ++ drop (position + length src) bytes)

take_all : (s : Bytes) → take (length s) s ≡ s
take_all s = ap (take (length s)) (sym (append-nil s)) ∙ take-append s [] (length s) refl

drop_all : (s : Bytes) (n : ℕ) → length s ≤ n → drop n s ≡ []
drop_all [] zero h = refl
drop_all [] (suc n) h = refl
drop_all (x ∷ s) zero h = absurd (omega arith)
drop_all (x ∷ s) (suc n) h = drop_all s n (omega arith)

splice-end : (content src : Bytes) → splice content (length content) src ≡ content ++ src
splice-end content src =
    ap (λ t. t ++ (src ++ drop (length content + length src) content)) (take_all content)
    ∙ ap (λ t. content ++ (src ++ t)) (drop_all content (length content + length src) (omega arith))
    ∙ ap (◌++◌ content) (append-nil src)

splice-over :
    (front old back src : Bytes)
    → length old ≡ length src
    → splice (front ++ (old ++ back)) (length front) src ≡ front ++ (src ++ back)
splice-over front old back src h =
    ap (λ t. t ++ (src ++ drop (length front + length src) (front ++ (old ++ back))))
      (take-append front (old ++ back) (length front) refl)
    ∙ ap (λ t. front ++ (src ++ drop (length front + length src) t))
        (sym (append_assoc front old back))
    ∙ ap (λ t. front ++ (src ++ t))
        (drop-append (front ++ old) back (length front + length src)
          (omega (arith, length-append front old)))

abbrev pub in_memory : Contents memory
in_memory = record { bytes = λ d. d.bytes; position = λ d. d.position }

abbrev spliced : MemoryDisk → Bytes → Bytes
spliced d src = splice d.bytes d.position src

pub memory-IsRegular : IsRegular in_memory
memory-IsRegular = record {
  write_end = λ d content src (e, f). (
    refl,
    (
      ap (λ b. splice b d.position src) e
          ∙ ap (λ n. splice content n src) f
          ∙ splice-end content src,
      omega (arith, length-append content src),
    ),
  );
  write_over = λ d front old back src (e, f) h. (
    refl,
    (
      ap (λ b. splice b d.position src) e
          ∙ ap (λ n. splice (front ++ (old ++ back)) n src) f
          ∙ splice-over front old back src h,
      ap (λ n. n + length src) f,
    ),
  );
  tellg_position = λ d content pos (e, f). ap some f;
  seek_set-Stands = λ d content pos offset (e, f). (e, refl);
  seek_end-Stands = λ d content pos (e, f). (e, ap length e);
  fsync_done = λ d. refl;
  fsync-bytes = λ d. refl;
  close-bytes = λ d. refl;
}

abbrev block : Bytes
block = replicate 512 0

abbrev trace : Bytes
trace = codes "Received: by mx.test\r\n"

abbrev begun : Session memory
begun = record receiving {
  disk = record { bytes = block ++ trace; position = length (block ++ trace) };
}

finish_data-Archived_example :
    Archived memory-IsRegular config begun trace (finish_data memory config begun)
unfolding encoded_lines
finish_data-Archived_example =
    finish_data-Archived memory-IsRegular config begun block trace (length-replicate {A = ℕ} 512 0)
      refl (refl, refl) (omega arith)

handle_pieces-Archived_example :
    (s' : Session memory) × (handle_pieces memory config (four_pieces ++ quit_later) begun
      ≡ handle_pieces memory config quit_later s')
    × Archived memory-IsRegular config begun (trace ++ message_bytes two_lines) s'
unfolding encoded_lines
handle_pieces-Archived_example =
    handle_pieces-Archived memory-IsRegular config 1022 four_pieces quit_later two_lines begun block
      trace (omega arith) refl wide-Holds (refl, refl, refl)
      (omega arith, (omega arith, (omega arith, (omega arith, tt)))) refl (omega arith)
      (((refl, (refl, tt)), omega arith), (((refl, tt), omega arith), tt)) (omega arith)
      (length-replicate {A = ℕ} 512 0) (refl, refl) (omega arith)

-- A transaction with a sender and a recipient, and an empty file.
abbrev introduced : Session memory
introduced = record receiving {
  state = cmd;
  reverse_set = true;
  metadata = record { from = []; reverse_path = codes "a@b"; forward_paths = codes "c@d" ∷ [] };
}

abbrev pub new_file : MemoryDisk
new_file = record { bytes = []; position = 0 }

pub front_size : length (in_memory.bytes (write_front memory config new_file).1) < 1000
unfolding c_string write_front write_header_space write_trace_info write_raw begin_header fold
    write_body_part write_time end_header
front_size = omega arith

data_command-Stored_example :
    Stored memory-IsRegular config introduced (text []) four_pieces quit_later two_lines
unfolding encoded_lines
data_command-Stored_example =
    data_command-Stored memory-IsRegular config 1022 (text []) four_pieces quit_later two_lines
      introduced new_file (omega arith) refl (omega arith) refl wide-Holds refl (refl, refl)
      (omega arith, (omega arith, (omega arith, (omega arith, tt)))) refl (omega arith)
      (((refl, (refl, tt)), omega arith), (((refl, tt), omega arith), tt)) (omega arith)
      (omega (arith, front_size))
