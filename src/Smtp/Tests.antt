-- ===== src/Smtp/Tests.antt =====
-- What single operations write and send.
use ervan.Base.{map, take, ◌+◌, ◌≡◌, refl, true, codes, length, [], ◌∷◌, ◌++◌}
use ervan.Common.Tar.{filled}
use ervan.Common.Writer.{begin_header, fold, write_raw, write_body_part, write_time, end_header}
use ervan.Common.Metadata.{no_metadata, encoded_line, encoded_lines, write_paths, write_to}
use ervan.Common.Platform.{c_string}
use ervan.Strings.Base64.{base64_decode, base64_encode, encode_onto, symbol}
use ervan.Smtp.Replies
use ervan.Strings.Span.{to_lower}
use ervan.Smtp.Commands.{compare_insensitive, mail_param}
use ervan.Smtp.Files.{
  write_header_space, write_trace_info, write_front, write_data_tar_header,
  write_metadata_tar_header, pad_data,
}
use ervan.Smtp.Examples.{MemoryDisk, memory, config}

abbrev blank : MemoryDisk
blank = record { bytes = []; position = 0 }

reply_ok : Replies.ok ≡ codes "250 OK\r\n" ++ 0 ∷ []
unfolding Replies.ok Replies.smtp_msg_str
reply_ok = refl

base64_foobar : base64_encode (codes "foobar!") ≡ codes "Zm9vYmFyIQ=="
unfolding base64_encode encode_onto symbol
base64_foobar = refl

base64_decode_nothing : base64_decode (codes "Zm9v") [] ≡ (0, [])
unfolding base64_decode
base64_decode_nothing = refl

same_word : compare_insensitive (codes "bOdY") (codes "BODY") ≡ true
unfolding compare_insensitive to_lower
same_word = refl

-- A block of its own, where the file ends at a block's end already.
pad_full : (pad_data memory config blank).1.position ≡ 512
unfolding pad_data
pad_full = refl

header_space : (write_header_space memory config blank).1.position ≡ 512
unfolding write_header_space
header_space = refl

trace :
    (write_trace_info memory config blank).1.bytes
    ≡ codes "Received: by mx.test; %a, %d %b %Y %T %z\r\n"
unfolding write_trace_info begin_header fold write_raw write_body_part write_time end_header
    c_string
trace = refl

metadata_lines : (write_to memory no_metadata blank).1.position ≡ 188
unfolding write_to write_paths encoded_lines encoded_line base64_encode encode_onto symbol
metadata_lines = refl

-- The code that each reply begins with.
reply_codes :
    map (take 3) (
      Replies.start_data ∷ Replies.local_error ∷ Replies.too_many_recipients
      ∷ Replies.invalid_command ∷ Replies.exceeded_line ∷ Replies.invalid_parameters
      ∷ Replies.not_implemented ∷ Replies.bad_sequence ∷ Replies.exceeded_storage ∷ [])
    ≡ codes "354"
      ∷ codes "451"
      ∷ codes "452"
      ∷ codes "500"
      ∷ codes "500"
      ∷ codes "501"
      ∷ codes "502"
      ∷ codes "503"
      ∷ codes "552"
      ∷ []
unfolding Replies.start_data Replies.local_error Replies.too_many_recipients Replies.invalid_command
    Replies.exceeded_line Replies.invalid_parameters Replies.not_implemented Replies.bad_sequence
    Replies.exceeded_storage Replies.smtp_msg_str
reply_codes = refl

eight_bit :
    mail_param (record {
      body = [];
      rest = [];
      key = record { body = codes "body"; rest = [] };
      value = record { body = codes "8BITMIME"; rest = [] };
    })
    ≡ true
unfolding mail_param compare_insensitive to_lower
eight_bit = refl

front : (write_front memory config blank).1.position ≡ 554
unfolding write_front write_header_space write_trace_info begin_header fold write_raw
    write_body_part write_time end_header c_string
front = refl

data_header :
    (write_data_tar_header memory config 7 blank).1.position
    ≡ 0 + length (filled (codes "message.mbox") 7 0)
unfolding write_data_tar_header
data_header = refl

metadata_header :
    (write_metadata_tar_header memory config 7 blank).1.position
    ≡ 0 + length (filled (codes "metadata.ervan") 7 0)
unfolding write_metadata_tar_header
metadata_header = refl
