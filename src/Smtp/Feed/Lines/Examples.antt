-- ===== src/Smtp/Feed/Lines/Examples.antt =====
-- A session that its client leads with EHLO, NOOP and QUIT, in pieces.
use ervan.Base.{
  length, ◌<◌, ℕ, false, ◌≡◌, refl, sym, length-replicate, codes, Bytes, List, [], ◌∷◌, arith,
}
use ervan.Strings.Join.Lines.{lines}
use ervan.Strings.Join.Refines.{Holds}
use ervan.Strings.Join.Memory.{take-nil}
use ervan.Smtp.Session.{Session, new_session, reset}
use ervan.Smtp.Session.Scratch.{each, visible}
use ervan.Smtp.Valid.{IsValid, new_session-IsValid}
use ervan.Smtp.Feed.{handle, send_greeter}
use ervan.Smtp.Feed.Pieces.Message.{whole}
use ervan.Smtp.Feed.Lines.{Rooms, serve}
use ervan.Smtp.Feed.Lines.Rounds.{Ready}
use ervan.Smtp.Feed.Lines.Whole.{handle-serve, handle-same}
use ervan.Smtp.Feed.Lines.Talks.{Converses, handle-Converses}
use ervan.Parse.Chars.{is_alnum}
use ervan.Common.Metadata.Appends.{metadata_bytes}
use ervan.Common.Metadata.{encoded_lines}
use ervan.Smtp.Commands.Envelope.{Host, Box, IsHost, IsBox}
use ervan.Smtp.Feed.Lines.Ends.{Ends, handle-Ends}
use ervan.Smtp.Feed.Lines.Transaction.{described, Transacted, handle-Transacted}
use ervan.Smtp.Feed.Pieces.Examples.{memory-IsRegular, new_file, front_size}
use ervan.Smtp.Examples.{two_lines, memory, config, connected, buffer, wide, wide-Holds}

abbrev pub rooms : Rooms
rooms = record { command = 510; message = 1022 }

-- With buffers of the source's sizes.
abbrev pub full : Session memory
full = record connected { cmd_buffer = buffer 510; line_buffer = wide }

pub full-Holds : Holds 510 (buffer 510) 0 []
full-Holds = record {
  sized = length-replicate {A = ℕ} 510 0;
  offset_is = refl;
  stored = sym (take-nil 510);
  window = (0, 0, refl, refl);
}

full-Ready : Ready memory config rooms full []
unfolding new_session reset
full-Ready = record { command = full-Holds; message = wide-Holds }

abbrev pub three_pieces : List Bytes
three_pieces = codes "EHLO a.b\r" ∷ codes "\nNOOP\r\nQU" ∷ codes "IT\r\n" ∷ []

abbrev one_piece : List Bytes
one_piece = codes "EHLO a.b\r\nNOOP\r\nQUIT\r\n" ∷ []

handle-serve_example :
    each visible (handle memory config three_pieces full)
    ≡ each visible (
        serve memory config rooms (lines [] (whole three_pieces)) (send_greeter memory config full))
handle-serve_example =
    handle-serve memory config rooms (omega arith) three_pieces full full-Ready
      (omega arith, (omega arith, (omega arith, tt))) (omega arith)

handle-same_example :
    each visible (handle memory config three_pieces full)
    ≡ each visible (handle memory config one_piece full)
handle-same_example =
    handle-same memory config rooms (omega arith) three_pieces one_piece full full-Ready
      (omega arith, (omega arith, (omega arith, tt))) (omega arith, tt) (omega arith) refl

full-IsValid : IsValid config false full
unfolding new_session reset
full-IsValid = record {
  staged = (new_session-IsValid config connected).staged;
  error = record { kept = λ h. cc };
}

handle-Converses_example :
    Converses config rooms
      (lines [] (whole three_pieces))
      full
      (handle memory config three_pieces full)
handle-Converses_example =
    handle-Converses config rooms false three_pieces full (omega arith) full-IsValid full-Ready
      (omega arith, (omega arith, (omega arith, tt))) (omega arith)

abbrev client : Host
client = record { label = codes "c"; labels = codes "d" ∷ [] }

abbrev sender : Box
sender = record { name = codes "a \"b"; host = client }

abbrev receiver : Box
receiver = record { name = codes "e"; host = record { label = codes "fg"; labels = [] } }

client-IsHost : IsHost client
unfolding is_alnum
client-IsHost = record { label = (refl, tt); labels = ((refl, tt), tt); fits = omega arith }

sender-IsBox : IsBox sender
sender-IsBox = record {
  printable = (refl, (refl, (refl, (refl, tt))));
  name_fits = omega arith;
  host = client-IsHost;
}

receiver-IsBox : IsBox receiver
unfolding is_alnum
receiver-IsBox = record {
  printable = (refl, tt);
  name_fits = omega arith;
  host = record { label = (refl, (refl, tt)); labels = tt; fits = omega arith };
}

abbrev transaction : List Bytes
transaction =
    codes "EHLO c.d\r\nMAIL FROM:<\"a \\\"b\"@c.d>\r\nRCPT TO:<\"e\"@fg>\r"
    ∷ codes "\nDATA\r\n..a\r\nb\r\n.\r\n"
    ∷ []

transaction-size : length (metadata_bytes (described client sender (receiver ∷ []))) < 1000
unfolding encoded_lines
transaction-size = omega arith

handle-Transacted_example :
    Transacted memory-IsRegular config rooms
      (omega arith)
      (omega arith)
      client
      sender
      (receiver ∷ [])
      two_lines
      (send_greeter memory config full)
      (handle memory config transaction full)
unfolding new_session reset
handle-Transacted_example =
    handle-Transacted memory-IsRegular config rooms (omega arith) (omega arith) client sender
      (receiver ∷ []) two_lines transaction full new_file refl refl full-Ready client-IsHost
      sender-IsBox (receiver-IsBox, tt) (omega arith) (omega arith)
      (((refl, (refl, tt)), omega arith), (((refl, tt), omega arith), tt)) (omega arith)
      (omega arith, (omega arith, tt)) (omega arith) refl refl (refl, refl)
      (omega (arith, front_size, transaction-size))

handle-Ends_example :
    Ends config false (lines [] (whole three_pieces)) (handle memory config three_pieces full)
handle-Ends_example =
    handle-Ends config false rooms three_pieces full (omega arith) full-IsValid full-Ready
      (omega arith, (omega arith, (omega arith, tt))) (omega arith)
