-- ===== src/Strings/Look/Examples.antt =====
-- The end of a message and a doubled dot, with windows of five bytes.
use ervan.Base.{◌≡◌, refl, Bytes, replicate, codes, [], arith}
use ervan.Strings.Join.{push_back}
use ervan.Strings.Look.{
  LoopState, escaped, terminated, look_loop, look_stop, look, reset_lengths, remaining_space,
}
use ervan.Strings.Look.Stops.{find_stop}
use ervan.Strings.Look.Answers.{Answers, look-Answers}

abbrev state : LoopState
state = record {
  t_check = replicate 5 0;
  max_size = 32;
  total_length = 0;
  max_line_length = 100;
  line_length = 0;
  terminator = codes "\r\n.\r\n";
  escape = codes "\r\n..";
}

abbrev whole : Bytes
whole = codes "aaa\r\n..\r\nbbbb\r\n.\r\n"

look-escape : (look state whole).1 ≡ escaped (codes "aaa\r\n.") (codes "\r\nbbbb\r\n.\r\n")
unfolding push_back look_loop look_stop look
look-escape = refl

look-escape_total : (look state whole).0.total_length ≡ 7
unfolding push_back look_loop look_stop look
look-escape_total = refl

look-terminator : (look state (codes "aa\r\n.\r\nb")).1 ≡ terminated 2 (codes "b")
unfolding push_back look_loop look_stop look
look-terminator = refl

remaining_after : remaining_space (reset_lengths (look state whole).0) ≡ 32
unfolding push_back look_loop look_stop look reset_lengths remaining_space
remaining_after = refl

look-Answers_example :
    Answers state
      (replicate 5 0)
      whole
      (find_stop (codes "\r\n.\r\n") (codes "\r\n..") (replicate 5 0) [] whole)
      (look state whole)
look-Answers_example =
    look-Answers state (replicate 5 0) whole (omega arith) refl (omega arith) ([], refl)
      (omega arith) (omega arith)
