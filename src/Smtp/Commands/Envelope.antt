-- ===== src/Smtp/Commands/Envelope.antt =====
-- What a client says to make a transaction, and what the handlers make of it.
use ervan.Base.{
  pass, ◌<◌, ◌≡◌, refl, sym, ap, ◌∙◌, Bool, true, false, not, ◌||◌, leb, lt→leb_false, All, Bytes,
  codes, length, List, [], ◌∷◌, ◌++◌, append-nil, arith,
}
use ervan.Common.Platform.{Platform}
use ervan.Parse.{domain, address}
use ervan.Parse.Quoted.{quote, IsPrintable}
use ervan.Parse.Labels.{IsLabel, dotted, domain-dotted}
use ervan.Parse.RoundTrip.{path-printed, reverse_path-printed, address-printed, printed_part}
use ervan.Smtp.Replies
use ervan.Smtp.Session.{Settings, Session, done, send}
use ervan.Smtp.Commands.{
  text, to_upper, mail_params, begun, greeted, ehlo_answer, ehlo, with_sender, mail_end,
  mail_reverse, mail_from, mail, with_recipient, rcpt_path, rcpt_to, rcpt,
}
use ervan.Smtp.Commands.Prefix.{accept-long}

-- A host: labels joined by dots.
pub record Host : Type 0 where
  pub label : Bytes
  pub labels : List Bytes

pub record IsHost (h : Host) : Type 0 where
  pub label : IsLabel h.label
  pub labels : All IsLabel h.labels
  pub fits : length (dotted h.label h.labels) < 256

abbrev pub print_host : Host → Bytes
print_host h = dotted h.label h.labels

-- A mailbox, and its text with the local part in quotes.
pub record Box : Type 0 where
  pub name : Bytes
  pub host : Host

pub record IsBox (b : Box) : Type 0 where
  pub printable : IsPrintable b.name
  pub name_fits : length (quote b.name) < 65
  pub host : IsHost b.host

abbrev pub print_box : Box → Bytes
print_box b = quote b.name ++ (b'@' ∷ print_host b.host)

abbrev pub in_angles : Box → Bytes
in_angles b = b'<' ∷ (quote b.name ++ (b'@' ∷ (print_host b.host ++ (b'>' ∷ []))))

stored :
    (b : Box) (i : IsBox b)
    → address
        (printed_part 0 b.name b.host.label b.host.labels [] i.printable i.name_fits i.host.label
          i.host.labels i.host.fits).mailbox
      ≡ print_box b
stored b i =
    address-printed 0 b.name b.host.label b.host.labels [] i.printable i.name_fits i.host.label
      i.host.labels i.host.fits

may_send : (a b : Bool) → a ≡ false → b ≡ true → (a || not b) ≡ false
may_send a b e f = ground arith

known : (b : Bool) → b ≡ true → not b ≡ false
known b e = ground arith

module _ (p : Platform) (cfg : Settings) (s : Session p) where
  pub ehlo-printed :
      (h : Host)
      → IsHost h
      → ehlo p cfg (text (print_host h)) s ≡ done (ehlo_answer p cfg (begun p cfg (print_host h) s))
  unfolding ehlo greeted
  ehlo-printed h i =
      ap (λ o. greeted p cfg (ehlo_answer p cfg) o s)
        (ap domain (sym (append-nil (print_host h)))
          ∙ domain-dotted h.label h.labels [] i.label i.labels tt i.fits)

  pub mail-printed :
      (b : Box)
      → IsBox b
      → s.reverse_set ≡ false
      → s.session_begun ≡ true
      → mail p cfg (text (codes "FROM:" ++ in_angles b)) s
        ≡ done (send p Replies.ok (with_sender p cfg (print_box b) s))
  unfolding mail mail_from mail_reverse mail_end mail_params to_upper
  mail-printed b i r g =
      ap (λ o. mail_from p cfg o s)
        (accept-long (codes "FROM:" ++ in_angles b) (codes "FROM:") refl (omega arith))
      ∙ ap (λ o. mail_reverse p cfg o s)
          (reverse_path-printed 0 b.name b.host.label b.host.labels [] i.printable i.name_fits
            i.host.label i.host.labels i.host.fits)
      ∙ pass (s.reverse_set || not s.session_begun) _ _ (may_send _ _ r g)
      ∙ ap (λ a. done (send p Replies.ok (with_sender p cfg a s))) (stored b i)

  pub rcpt-printed :
      (b : Box)
      → IsBox b
      → s.session_begun ≡ true
      → length s.metadata.forward_paths < s.max_forward_paths
      → rcpt p cfg (text (codes "TO:" ++ in_angles b)) s
        ≡ done (send p Replies.ok (with_recipient p cfg (print_box b) s))
  unfolding rcpt rcpt_to rcpt_path to_upper
  rcpt-printed b i g room =
      ap (λ o. rcpt_to p cfg o s)
        (accept-long (codes "TO:" ++ in_angles b) (codes "TO:") refl (omega arith))
      ∙ pass (not s.session_begun) _ _ (known s.session_begun g)
      ∙ pass (leb s.max_forward_paths (length s.metadata.forward_paths)) _ _
          (lt→leb_false s.max_forward_paths (length s.metadata.forward_paths) room)
      ∙ ap (λ o. rcpt_path p cfg o s)
          (path-printed 0 b.name b.host.label b.host.labels [] i.printable i.name_fits i.host.label
            i.host.labels i.host.fits)
      ∙ ap (λ a. done (send p Replies.ok (with_recipient p cfg a s))) (stored b i)
