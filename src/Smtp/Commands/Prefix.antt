-- ===== src/Smtp/Commands/Prefix.antt =====
-- `accept`, which stands in front of the arguments of MAIL and RCPT, and the lines with no argument.
use ervan.Base.{
  ◌≤◌, ◌≡◌, refl, ap, le→ltb_false, equal_iff, Bytes, length, drop, take-append, drop-append, map,
  [], ◌∷◌, ◌++◌, some, arith,
}
use ervan.Strings.Join.{overwrite}
use ervan.Common.Platform.{Platform}
use ervan.Smtp.Session.{Settings, Session, wild}
use ervan.Smtp.Commands.{to_upper, accept, nowhere, ehlo, helo, mail, rcpt}

overwrite-front : (sp w : Bytes) → length w ≤ length sp → overwrite sp 0 w ≡ w ++ drop (length w) sp
unfolding overwrite
overwrite-front [] [] h = refl
overwrite-front [] (c ∷ cs) h = absurd (omega arith)
overwrite-front (x ∷ xs) [] h = refl
overwrite-front (x ∷ xs) (c ∷ cs) h = ap (λ z. c ∷ z) (overwrite-front xs cs (omega arith))

-- `accept` with an upper-case text takes every line that is at least as long as the text, whatever
-- it begins with, and leaves what stands behind as many bytes.
pub accept-long :
    (sp str : Bytes)
    → map to_upper str ≡ str
    → length str ≤ length sp
    → accept sp str ≡ some (drop (length str) sp)
unfolding accept
accept-long sp str upper long =
    rw
      (
        upper,
        overwrite-front sp str long,
        le→ltb_false (length sp) (length str) long,
        take-append str (drop (length str) sp) (length str) refl,
        drop-append str (drop (length str) sp) (length str) refl,
      )
      (rw ((equal_iff str str).1 refl) refl)

-- With no argument, each of these reads behind its line.
module _ (p : Platform) (cfg : Settings) (s : Session p) where
  pub ehlo-nowhere : ehlo p cfg nowhere s ≡ wild
  unfolding ehlo
  ehlo-nowhere = refl

  pub helo-nowhere : helo p cfg nowhere s ≡ wild
  unfolding helo
  helo-nowhere = refl

  pub mail-nowhere : mail p cfg nowhere s ≡ wild
  unfolding mail
  mail-nowhere = refl

  pub rcpt-nowhere : rcpt p cfg nowhere s ≡ wild
  unfolding rcpt
  rcpt-nowhere = refl
