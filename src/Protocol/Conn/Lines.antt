-- ===== src/Protocol/Conn/Lines.antt =====
-- What `read_line` and `read` of src/redis_protocol.cpp take off a stream of bytes, however the network
-- cuts it into pieces.
use librediscxx.Base.{
  ℕ, zero, suc, ◌+◌, ◌≤◌, ◌<◌, ◌≡◌, refl, sym, ap, subst, ◌∙◌, ◌≢◌, true, false, [], ◌∷◌, ◌++◌,
  some, Bytes, Lacks, arith, ◌==◌, ne→==, length, take, drop, take-append, drop-append, drop-drop,
  length-append, length-drop, starts_with,
}
use librediscxx.Os.World.{World, einval_no, erange}
use librediscxx.Tcp.Buffer.Laws.{Inv}
use librediscxx.Tcp.Client
use librediscxx.Tcp.Search.{IsFirst}
use librediscxx.Tcp.Client.Reading.{stream, Reads, IsShort, read_line-Reads}
use librediscxx.Tcp.Client.Counting.{read-Reads}
use librediscxx.Protocol.Conn.{Protocol, line_end, checked, read_line, read, read_timeout}

-- A protocol object that will read the bytes `s`: no poll fails, and no error number is left behind that
-- `parse_integer` takes for its own.
pub record Holds (p : Protocol) (w : World) (s : Bytes) : Type 0 where
  pub inv : Inv p.tcp.buffer
  pub polls : w.polls ≡ []
  pub not_einval : w.errno ≢ einval_no
  pub not_erange : w.errno ≢ erange
  pub bytes : stream p.tcp w ≡ s
  pub short : IsShort s

-- What no reply changes.
pub record Still (p : Protocol) (w : World) (p' : Protocol) (w' : World) : Type 0 where
  pub sent : w'.sent ≡ w.sent
  pub sends : w'.sends ≡ w.sends
  pub clock : w'.clock ≡ w.clock
  pub check : p'.tcp.last_check_open_time ≡ p.tcp.last_check_open_time

pub Still-refl : (p : Protocol) (w : World) → Still p w p w
Still-refl p w = record { sent = refl; sends = refl; clock = refl; check = refl }

pub Still-trans : {p q r : Protocol} {u v w : World} → Still p u q v → Still q v r w → Still p u r w
Still-trans a b = record {
  sent = b.sent ∙ a.sent;
  sends = b.sends ∙ a.sends;
  clock = b.clock ∙ a.clock;
  check = b.check ∙ a.check;
}

-- What reading leaves as it is.
pub record Kept (p : Protocol) (w : World) (p' : Protocol) (w' : World) : Type 0 where
  pub fd : p'.tcp.fd ≡ p.tcp.fd
  pub mode : p'.transaction_mode ≡ p.transaction_mode
  pub still : Still p w p' w'

pub Kept-refl : (p : Protocol) (w : World) → Kept p w p w
Kept-refl p w = record { fd = refl; mode = refl; still = Still-refl p w }

pub Kept-trans : {p q r : Protocol} {u v w : World} → Kept p u q v → Kept q v r w → Kept p u r w
Kept-trans a b = record {
  fd = b.fd ∙ a.fd;
  mode = b.mode ∙ a.mode;
  still = Still-trans a.still b.still;
}

-- A read that gives `a` and leaves the bytes `rest`.
abbrev pub Gives {ℓ} : {A : Type ℓ} → Protocol → World → Bytes → A → A × Protocol × World → Type ℓ
Gives p w rest a (r, p', w') = (r ≡ a) × Holds p' w' rest × Kept p w p' w'

line_end-hit :
    (line rest : Bytes)
    → starts_with line_end (drop (length line) (line ++ (line_end ++ rest))) ≡ true
unfolding starts_with
line_end-hit [] rest = refl
line_end-hit (c ∷ s) rest = line_end-hit s rest

line_end-before :
    (line rest : Bytes)
    → Lacks 13 line
    → (j : ℕ) → j < length line
    → starts_with line_end (drop j (line ++ (line_end ++ rest))) ≡ false
unfolding starts_with
line_end-before [] rest h j lt = absurd (omega arith)
line_end-before (c ∷ s) rest (h, hs) zero lt =
    let no : (13 == c) ≡ false = ne→== 13 c (λ e. h (sym e)) in rw no
line_end-before (c ∷ s) rest (h, hs) (suc j) lt = line_end-before s rest hs j (omega arith)

-- The end of a line is not seen before it.
pub IsFirst-line_end :
    (line rest : Bytes)
    → Lacks 13 line
    → IsFirst line_end (line ++ (line_end ++ rest)) (length line)
IsFirst-line_end line rest lacks = record {
  hit = line_end-hit line rest;
  before = line_end-before line rest lacks;
}

IsShort-drop : (k : ℕ) (s : Bytes) → IsShort s → IsShort (drop k s)
IsShort-drop k s h = omega (arith, length-drop k s)

after_read :
    (p : Protocol) (w : World) (s line : Bytes) (k c : ℕ) (b : Bytes)
    (r : Bytes × ℕ × Client.TcpClient × World)
    → Holds p w s
    → line ≡ c ∷ b
    → Reads p.tcp w line k r
    → Gives p w (drop k s) (some line) (checked r.0 r.1 (record p { tcp = r.2 }) r.3)
unfolding checked
after_read p w s line k c b (got, ec, t, w') h e (e₁, e₂, took) =
    rw (e₁, e₂, e)
      (
        refl,
        record {
          inv = took.inv;
          polls = took.quiet.polls;
          not_einval = λ bad. h.not_einval (sym took.quiet.errno ∙ bad);
          not_erange = λ bad. h.not_erange (sym took.quiet.errno ∙ bad);
          bytes = took.rest ∙ ap (drop k) h.bytes;
          short = IsShort-drop k s h.short;
        },
        record {
          fd = took.fd;
          mode = refl;
          still = record {
            sent = took.quiet.sent;
            sends = took.quiet.sends;
            clock = took.quiet.clock;
            check = took.check;
          };
        },
      )

line_lem :
    (line rest : Bytes) → drop (length line + length line_end) (line ++ (line_end ++ rest)) ≡ rest
line_lem line rest =
    sym (
      drop-drop (length line) 2 (length line + length line_end) (line ++ (line_end ++ rest))
        (omega arith))
    ∙ ap (drop 2) (drop-append line (line_end ++ rest) (length line) refl)

-- A line that is not empty and holds no CR is read as it is, and its end is taken off the stream.
pub read_line-Gives :
    (c : ℕ) (b rest : Bytes) (p : Protocol) (w : World)
    → Lacks 13 (c ∷ b)
    → Holds p w ((c ∷ b) ++ (line_end ++ rest))
    → Gives p w rest (some (c ∷ b)) (read_line p w)
unfolding read_line
read_line-Gives c b rest p w lacks h =
    let s = (c ∷ b) ++ (line_end ++ rest) in
    let first : IsFirst line_end (stream p.tcp w) (length (c ∷ b)) =
      rw h.bytes (IsFirst-line_end (c ∷ b) rest lacks) in
    let short : IsShort (stream p.tcp w) = rw h.bytes h.short in
    let seen : take (length (c ∷ b)) (stream p.tcp w) ≡ c ∷ b =
      ap (take (length (c ∷ b))) h.bytes
      ∙ take-append (c ∷ b) (line_end ++ rest) (length (c ∷ b)) refl in
    subst (λ t. Gives p w t (some (c ∷ b)) (read_line p w)) (line_lem (c ∷ b) rest)
      (subst (λ t. Gives p w (drop (length (c ∷ b) + 2) s) (some t) (read_line p w)) seen
        (after_read p w s _ _ c b _ h seen (
          read_line-Reads line_end (read_timeout p) p.tcp w (length (c ∷ b)) h.inv h.polls first
            short)))

-- A text that is not empty is read by its size, and the end of the line is taken with it.
pub read-Gives :
    (c : ℕ) (b rest : Bytes) (p : Protocol) (w : World)
    → Holds p w ((c ∷ b) ++ (line_end ++ rest))
    → Gives p w rest (some (c ∷ b)) (read (length (c ∷ b)) p w)
unfolding read
read-Gives c b rest p w h =
    let s = (c ∷ b) ++ (line_end ++ rest) in
    let enough : length (c ∷ b) + length line_end ≤ length (stream p.tcp w) =
      omega (arith, ap length h.bytes, length-append (c ∷ b) (line_end ++ rest)) in
    let short : IsShort (stream p.tcp w) = rw h.bytes h.short in
    let seen : take (length (c ∷ b)) (stream p.tcp w) ≡ c ∷ b =
      ap (take (length (c ∷ b))) h.bytes
      ∙ take-append (c ∷ b) (line_end ++ rest) (length (c ∷ b)) refl in
    subst (λ t. Gives p w t (some (c ∷ b)) (read (length (c ∷ b)) p w)) (line_lem (c ∷ b) rest)
      (subst (λ t. Gives p w (drop (length (c ∷ b) + 2) s) (some t) (read (length (c ∷ b)) p w))
        seen
        (after_read p w s _ _ c b _ h seen (
          read-Reads (length (c ∷ b)) line_end (read_timeout p) p.tcp w h.inv h.polls enough
            short)))
