-- ===== src/Smtp/Replies.antt =====
-- smtp/include/ervan/smtp/types.hpp: the replies. What is sent is all of the array, its NUL included.
use ervan.Base.{ℕ, ◌+◌, ◌/◌, ◌%◌, Bytes, [], ◌∷◌, ◌++◌, codes}

-- smtp_msg_str(code, str)
unfoldable pub smtp_msg_str : ℕ → Bytes → Bytes
smtp_msg_str code str =
    (b'0' + code / 100 % 10)
    ∷ (b'0' + code / 10 % 10)
    ∷ (b'0' + code / 1 % 10)
    ∷ b' '
    ∷ (str ++ (b'\r' ∷ b'\n' ∷ 0 ∷ []))

unfoldable pub ok : Bytes
unfolding smtp_msg_str
ok = smtp_msg_str 250 (codes "OK")

unfoldable pub start_data : Bytes
unfolding smtp_msg_str
start_data = smtp_msg_str 354 (codes "Start mail input; end with <CRLF>.<CRLF>")

unfoldable pub local_error : Bytes
unfolding smtp_msg_str
local_error = smtp_msg_str 451 (codes "Requested action aborted: local error in processing")

unfoldable pub too_many_recipients : Bytes
unfolding smtp_msg_str
too_many_recipients = smtp_msg_str 452 (codes "Too many recipients")

unfoldable pub invalid_command : Bytes
unfolding smtp_msg_str
invalid_command = smtp_msg_str 500 (codes "Syntax error, command unrecognized")

unfoldable pub exceeded_line : Bytes
unfolding smtp_msg_str
exceeded_line = smtp_msg_str 500 (codes "Line too long")

unfoldable pub invalid_parameters : Bytes
unfolding smtp_msg_str
invalid_parameters = smtp_msg_str 501 (codes "Syntax error in parameters or arguments")

unfoldable pub not_implemented : Bytes
unfolding smtp_msg_str
not_implemented = smtp_msg_str 502 (codes "Command not implemented")

unfoldable pub bad_sequence : Bytes
unfolding smtp_msg_str
bad_sequence = smtp_msg_str 503 (codes "Bad sequence of commands")

unfoldable pub exceeded_storage : Bytes
unfolding smtp_msg_str
exceeded_storage =
    smtp_msg_str 552 (codes "Requested mail action aborted: exceeded storage allocation")
