-- ===== src/Smtp/Feed/Lines/Envelope.antt =====
-- The lines with which a client makes a transaction, and the transaction that is made.
use ervan.Base.{
  ℕ, zero, suc, ◌+◌, ◌≤◌, ◌≡◌, refl, sym, ap, ◌∙◌, true, All, Bytes, codes, length, length-append,
  List, [], ◌∷◌, ◌++◌, map, append-nil, append_assoc, replicate, arith,
}
use ervan.Common.Platform.{Platform}
use ervan.Common.Metadata.{Metadata}
use ervan.Parse.Quoted.{quote}
use ervan.Smtp.Replies
use ervan.Smtp.Session.{cmd, Settings, Session, done, ◌>>=◌, send, reset}
use ervan.Smtp.Commands.{begun, ehlo_answer, with_sender, with_recipient}
use ervan.Smtp.Commands.Envelope.{
  Host, IsHost, print_host, Box, IsBox, print_box, in_angles, ehlo-printed, mail-printed,
  rcpt-printed,
}
use ervan.Smtp.Dispatch.{call_command}
use ervan.Smtp.Dispatch.Named.{call_command-ehlo, call_command-mail, call_command-rcpt}
use ervan.Smtp.Feed.Lines.{Rooms, serve_line, serve}
use ervan.Smtp.Feed.Lines.Rounds.{serve-fits}

abbrev pub ehlo_line : Host → Bytes
ehlo_line h = codes "EHLO " ++ print_host h

abbrev pub mail_line : Box → Bytes
mail_line b = codes "MAIL " ++ (codes "FROM:" ++ in_angles b)

abbrev pub rcpt_line : Box → Bytes
rcpt_line b = codes "RCPT " ++ (codes "TO:" ++ in_angles b)

abbrev pub envelope : Host → Box → List Box → List Bytes
envelope h a bs = ehlo_line h ∷ mail_line a ∷ map rcpt_line bs

length-in_angles : (b : Box) → IsBox b → length (in_angles b) ≤ 323
length-in_angles b i =
    let h = i.host.fits in
    let n = i.name_fits in
    let l = length-append (quote b.name) (b'@' ∷ (print_host b.host ++ (b'>' ∷ []))) in
    let m = length-append (print_host b.host) (b'>' ∷ []) in omega arith

abbrev addressed : Metadata → List Bytes → Metadata
addressed m paths = record m { forward_paths = paths }

replicate-behind :
    (b : Bytes) (n : ℕ) (bs : List Bytes) → replicate n b ++ b ∷ bs ≡ b ∷ (replicate n b ++ bs)
replicate-behind b zero bs = refl
replicate-behind b (suc n) bs = ap (◌∷◌ b) (replicate-behind b n bs)

-- The replies to EHLO, the last one first.
abbrev pub ehlo_reply : Settings → List Bytes
ehlo_reply cfg =
    codes "250 8BITMIME\r\n" ∷ codes " at your service\r\n" ∷ cfg.hostname ∷ codes "250-" ∷ []

module _ (p : Platform) (cfg : Settings) (r : Rooms) (wide : 510 ≤ r.command) where
  -- A line that fits, and its command.
  pub serve_command :
      (l : Bytes) (ls : List Bytes) (s t : Session p)
      → s.state ≡ cmd
      → length l ≤ 510
      → call_command p cfg l s ≡ done t
      → serve p cfg r (l ∷ ls) s ≡ serve p cfg r ls t
  unfolding serve_line
  serve_command l ls s t e fits k =
      serve-fits p cfg r cmd s l ls e (omega arith) ∙ ap (λ m. m >>= serve p cfg r ls) k

  -- The session has answered a transaction's recipients.
  pub record Added (bs : List Box) (s t : Session p) : Type 0 where
    pub state : t.state ≡ cmd
    pub begun : t.session_begun ≡ s.session_begun
    pub reverse_set : t.reverse_set ≡ s.reverse_set
    pub metadata : t.metadata ≡ addressed s.metadata (s.metadata.forward_paths ++ map print_box bs)
    pub sent : t.sent ≡ replicate (length bs) Replies.ok ++ s.sent
    pub disk : t.disk ≡ s.disk
    pub error : t.data_error ≡ s.data_error
    pub limit : t.max_data_size ≡ s.max_data_size

  serve-Added :
      (bs : List Box) (s : Session p)
      → s.state ≡ cmd
      → s.session_begun ≡ true
      → All IsBox bs
      → length s.metadata.forward_paths + length bs ≤ s.max_forward_paths
      → (t : Session p) × (serve p cfg r (map rcpt_line bs) s ≡ done t) × Added bs s t
  unfolding serve
  serve-Added [] s e g boxes room = (
    s,
    refl,
    record {
      state = e;
      begun = refl;
      reverse_set = refl;
      metadata = ap (addressed s.metadata) (sym (append-nil s.metadata.forward_paths));
      sent = refl;
      disk = refl;
      error = refl;
      limit = refl;
    },
  )
  serve-Added (b ∷ bs) s e g (i, boxes) room =
      let s' = send p Replies.ok (with_recipient p cfg (print_box b) s) in
      let (t, k, a) =
        serve-Added bs s' e g boxes
          (omega (arith, length-append s.metadata.forward_paths (print_box b ∷ []))) in
      (
        t,
        serve_command (rcpt_line b) (map rcpt_line bs) s s' e (omega (arith, length-in_angles b i))
              (call_command-rcpt p cfg s _ ∙ rcpt-printed p cfg s b i g (omega arith))
            ∙ k,
        record {
          state = a.state;
          begun = a.begun;
          reverse_set = a.reverse_set;
          metadata =
              a.metadata
              ∙ ap (addressed s.metadata)
                  (append_assoc s.metadata.forward_paths (print_box b ∷ []) (map print_box bs));
          sent = a.sent ∙ replicate-behind Replies.ok (length bs) s.sent;
          disk = a.disk;
          error = a.error;
          limit = a.limit;
        },
      )

  -- The transaction of this host, sender and recipients, which only the replies 250 have made.
  pub record Enveloped (h : Host) (a : Box) (bs : List Box) (s t : Session p) : Type 0 where
    pub state : t.state ≡ cmd
    pub begun : t.session_begun ≡ true
    pub reverse_set : t.reverse_set ≡ true
    pub metadata : t.metadata ≡ record {
      from = print_host h;
      reverse_path = print_box a;
      forward_paths = map print_box bs;
    }
    pub sent :
        t.sent ≡ replicate (length bs) Replies.ok ++ (Replies.ok ∷ (ehlo_reply cfg ++ s.sent))
    pub disk : t.disk ≡ s.disk
    pub error : t.data_error ≡ s.data_error
    pub limit : t.max_data_size ≡ cfg.max_message_size

  -- A session that reads commands, with a command buffer of at least 512 bytes: EHLO with a host of
  -- dotted labels, MAIL FROM with a mailbox, and as many RCPT TO as the configuration allows or fewer
  -- make just the transaction of this host, sender and recipients, in order and as they were written,
  -- and each is answered with 250. A mailbox's local part is any printable text, in quotes, of below
  -- 65 bytes with them, and a domain has below 256 bytes.
  pub serve-Enveloped :
      (h : Host) (a : Box) (bs : List Box) (s : Session p)
      → s.state ≡ cmd
      → IsHost h
      → IsBox a
      → All IsBox bs
      → length bs ≤ cfg.max_rcpt
      → (t : Session p) × (serve p cfg r (envelope h a bs) s ≡ done t) × Enveloped h a bs s t
  unfolding ehlo_answer reset
  serve-Enveloped h a bs s e host box boxes few =
      let s₁ = ehlo_answer p cfg (begun p cfg (print_host h) s) in
      let s₂ = send p Replies.ok (with_sender p cfg (print_box a) s₁) in
      let (t, k, added) = serve-Added bs s₂ refl refl boxes (omega arith) in
      (
        t,
        serve_command (ehlo_line h) (mail_line a ∷ map rcpt_line bs) s s₁ e
              (omega (arith, host.fits))
              (call_command-ehlo p cfg s (print_host h) ∙ ehlo-printed p cfg s h host)
            ∙ serve_command (mail_line a) (map rcpt_line bs) s₁ s₂ refl
                (omega (arith, length-in_angles a box))
                (call_command-mail p cfg s₁ (codes "FROM:" ++ in_angles a)
                  ∙ mail-printed p cfg s₁ a box refl refl)
            ∙ k,
        record {
          state = added.state;
          begun = added.begun;
          reverse_set = added.reverse_set;
          metadata = added.metadata;
          sent = added.sent;
          disk = added.disk;
          error = added.error;
          limit = added.limit;
        },
      )
