-- ===== src/Smtp/Feed/Lines/Blank.antt =====
-- What a line of the message leaves the buffers ready for.
use ervan.Base.{
  if_keeps, ℕ, ◌+◌, ◌-◌, ◌≤◌, ◌<◌, ◌≡◌, refl, Bool, true, false, if◌then◌else◌, Bytes, length, [],
  ◌∷◌, arith, ◌||◌, ltb, drop,
}
use ervan.Common.Platform.{Platform}
use ervan.Strings.Join.Refines.{Holds}
use ervan.Smtp.Session.{Settings, Session}
use ervan.Smtp.Feed.{max_line_length, unstuff, count_line, write_line, take_line}
use ervan.Smtp.Feed.Transparent.{terminate-Holds}
use ervan.Smtp.Feed.Lines.{Rooms}

unstuffed_size :
    (b : Bool) (c : ℕ) (cs : Bytes)
    → length (c ∷ cs) ≤ length (if b then drop 1 (c ∷ cs) else c ∷ cs) + 1
unstuffed_size true c cs = omega arith
unstuffed_size false c cs = omega arith

length-unstuff : (l : Bytes) → length l ≤ length (unstuff l) + 1
unfolding unstuff
length-unstuff [] = omega arith
length-unstuff (c ∷ cs) = unstuffed_size _ c cs

first_false : (a b c : Bool) → (a || b || c) ≡ false → a ≡ false
first_false a b c h = ground arith

within : (m n : ℕ) (b : Bool) → (if ltb m n then true else b) ≡ false → n ≤ m
within m n b h = ground arith

module _ (p : Platform) (cfg : Settings) (r : Rooms) (wide : max_line_length + 2 ≤ r.message) where
  -- A session in which both buffers are ready for a line.
  abbrev pub Blank : Session p → Type 0
  Blank s =
      Holds r.command s.cmd_buffer s.cmd_offset [] × Holds r.message s.line_buffer s.line_offset []

  write_line-Blank :
      (end : ℕ) (l : Bytes) (s : Session p)
      → (s.line_too_long ≡ false → end + 2 < r.message)
      → Blank s
      → ((write_line p cfg end l s).state ≡ s.state) × Blank (write_line p cfg end l s)
  unfolding write_line
  write_line-Blank end l s small (h, k) =
      if_keeps (λ (u : Session p). (u.state ≡ s.state) × Blank u)
        (s.line_too_long || s.data_too_long || s.data_error) _ _ (λ e. (refl, (h, k)))
        (λ e. (
          refl,
          (
            h,
            terminate-Holds p cfg r.message s.line_buffer s.line_offset end k
                (small (first_false s.line_too_long s.data_too_long s.data_error e)),
          ),
        ))

  -- A line of the message leaves the session reading the message, and its buffer ready.
  pub take_line-Blank :
      (l : Bytes) (s : Session p)
      → Blank s
      → ((take_line p cfg (length l) l s).state ≡ s.state) × Blank (take_line p cfg (length l) l s)
  unfolding take_line count_line
  take_line-Blank l s b =
      write_line-Blank (length l) (unstuff l) (count_line p cfg (unstuff l) s)
        (λ e.
          let small = within (max_line_length - 2) (length (unstuff l)) s.line_too_long e in
          omega (arith, length-unstuff l))
        b
