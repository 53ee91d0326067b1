-- ===== src/Smtp/Dispatch/Returns.antt =====
-- The only lines that make a handler read behind them.
use ervan.Base.{
  if_keeps, ℕ, ◌≡◌, Bool, true, false, ◌&&◌, ◌==◌, ltb, Bytes, length, take, drop, map, Option,
  none, some, arith,
}
use ervan.Common.Platform.{Platform}
use ervan.Smtp.Session.{Settings, Session}
use ervan.Smtp.Commands.{Argument, text, nowhere, to_upper}
use ervan.Smtp.Commands.Returns.{
  Returns, ehlo-Returns, helo-Returns, mail-Returns, rcpt-Returns, data-Returns, rset-Returns,
  vrfy-Returns, noop-Returns, quit-Returns,
}
use ervan.Smtp.Dispatch.{
  Command, ehlo_cmd, helo_cmd, mail_cmd, rcpt_cmd, data_cmd, rset_cmd, vrfy_cmd, noop_cmd, quit_cmd,
  try_get_command, argument_of, run_command, run_found, call_command,
}
use ervan.Smtp.Dispatch.Short.{reads_argument}

abbrev reader : Option Command → Bool
reader none = false
reader (some c) = reads_argument c

-- A line of just four bytes that names EHLO, HELO, MAIL or RCPT.
abbrev pub is_short : Bytes → Bool
is_short l = length l == 4 && reader (try_get_command (map to_upper (take 4 l)))

not_reader :
    (n : ℕ) (r : Bool) → ltb n 4 ≡ false → ltb n 5 ≡ true → (n == 4 && r) ≡ false → r ≡ false
not_reader n r a b c = ground arith

module _ (p : Platform) (cfg : Settings) where
  run_command-text :
      (c : Command) (sp : Bytes) (s : Session p) → Returns (run_command p cfg c (text sp) s)
  unfolding run_command
  run_command-text ehlo_cmd sp s = ehlo-Returns p cfg s sp
  run_command-text helo_cmd sp s = helo-Returns p cfg s sp
  run_command-text mail_cmd sp s = mail-Returns p cfg s sp
  run_command-text rcpt_cmd sp s = rcpt-Returns p cfg s sp
  run_command-text data_cmd sp s = data-Returns p cfg s (text sp)
  run_command-text rset_cmd sp s = rset-Returns p cfg s (text sp)
  run_command-text vrfy_cmd sp s = vrfy-Returns p cfg s (text sp)
  run_command-text noop_cmd sp s = noop-Returns p cfg s (text sp)
  run_command-text quit_cmd sp s = quit-Returns p cfg s (text sp)

  run_command-alone :
      (c : Command) (a : Argument) (s : Session p)
      → reads_argument c ≡ false
      → Returns (run_command p cfg c a s)
  unfolding run_command
  run_command-alone ehlo_cmd a s e = absurd (cc)
  run_command-alone helo_cmd a s e = absurd (cc)
  run_command-alone mail_cmd a s e = absurd (cc)
  run_command-alone rcpt_cmd a s e = absurd (cc)
  run_command-alone data_cmd a s e = data-Returns p cfg s a
  run_command-alone rset_cmd a s e = rset-Returns p cfg s a
  run_command-alone vrfy_cmd a s e = vrfy-Returns p cfg s a
  run_command-alone noop_cmd a s e = noop-Returns p cfg s a
  run_command-alone quit_cmd a s e = quit-Returns p cfg s a

  run_found-text :
      (o : Option Command) (sp : Bytes) (s : Session p) → Returns (run_found p cfg o (text sp) s)
  unfolding run_found
  run_found-text none sp s = tt
  run_found-text (some c) sp s = run_command-text c sp s

  run_found-alone :
      (o : Option Command) (a : Argument) (s : Session p)
      → reader o ≡ false
      → Returns (run_found p cfg o a s)
  unfolding run_found
  run_found-alone none a s e = tt
  run_found-alone (some c) a s e = run_command-alone c a s e

  pub call_command-Returns :
      (sp : Bytes) (s : Session p) → is_short sp ≡ false → Returns (call_command p cfg sp s)
  unfolding call_command argument_of
  call_command-Returns sp s e =
      let o = try_get_command (map to_upper (take 4 sp)) in
      if_keeps Returns (ltb (length sp) 4) _ _ (λ _. tt)
        (λ four.
          if_keeps (λ a. Returns (run_found p cfg o a s)) (ltb (length sp) 5) nowhere
            (text (drop 5 sp))
            (λ five. run_found-alone o nowhere s (not_reader (length sp) (reader o) four five e))
            (λ _. run_found-text o (drop 5 sp) s))
