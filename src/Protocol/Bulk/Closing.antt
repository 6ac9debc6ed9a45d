-- ===== src/Protocol/Bulk/Closing.antt =====
-- A bulk or multi-bulk of src/redis_protocol.cpp that cannot be read leaves the connection closed.
use librediscxx.Base.{
  ℕ, zero, suc, ℤ, pos, negsuc, ◌≡◌, refl, inl, inr, Option, none, some, Bytes, ◌==◌, length,
  get_or, Bool-cases, Option-cases,
}
use librediscxx.Os.World.{World}
use librediscxx.Protocol.Decimal.{parse_integer}
use librediscxx.Protocol.Conn.{Protocol, fail, disconnect, close, read_line}
use librediscxx.Tcp.Client
use librediscxx.Protocol.Conn.Closing.{ClosesOn, read_line-ClosesOn, read-ClosesOn}
use librediscxx.Protocol.Bulk.{
  BulksRead, sized, bulk_of_size, after_header, read_bulk_2, read_bulk, push_bulk, read_bulks,
  multi_bulk_of_size, read_multi_bulk_2,
}

sized-ClosesOn : (i : ℕ) (r : Option Bytes × Protocol × World) → ClosesOn r → ClosesOn (sized i r)
unfolding sized fail disconnect close Client.close
sized-ClosesOn i (none, p, w) h = λ _. h refl
sized-ClosesOn i (some b, p, w) h = elim (Bool-cases (i == length b)) [
  | inl e ↦ rw e (λ bad. cc)
  | inr e ↦ rw e (λ _. refl)
]

bulk_of_size-ClosesOn :
    (header : Bytes) (i : Option ℤ) (p : Protocol) (w : World)
    → ClosesOn (bulk_of_size header i p w)
unfolding bulk_of_size fail disconnect close Client.close
bulk_of_size-ClosesOn header none p w = λ _. refl
bulk_of_size-ClosesOn header (some (negsuc zero)) p w = λ bad. cc
bulk_of_size-ClosesOn header (some (negsuc (suc n))) p w = λ _. refl
bulk_of_size-ClosesOn header (some (pos zero)) p w = λ _. refl
bulk_of_size-ClosesOn header (some (pos (suc n))) p w =
    sized-ClosesOn (suc n) _ (read-ClosesOn (suc n) p w)

pub read_bulk_2-ClosesOn :
    (header : Bytes) (p : Protocol) (w : World) → ClosesOn (read_bulk_2 header p w)
unfolding read_bulk_2
read_bulk_2-ClosesOn header p w =
    let (i, w') = parse_integer header w in bulk_of_size-ClosesOn header i p w'

after_header-ClosesOn :
    (line : Option Bytes) (p : Protocol) (w : World)
    → (line ≡ none → p.tcp.fd ≡ none)
    → ClosesOn (after_header line p w)
unfolding after_header fail disconnect close Client.close
after_header-ClosesOn none p w h = λ _. h refl
after_header-ClosesOn (some header) p w h = elim (Bool-cases (get_or header 0 0 == b'$')) [
  | inl e ↦ rw e (read_bulk_2-ClosesOn header p w)
  | inr e ↦ rw e (λ _. refl)
]

read_bulk-ClosesOn : (p : Protocol) (w : World) → ClosesOn (read_bulk p w)
unfolding read_bulk
read_bulk-ClosesOn p w =
    let (line, p', w') = read_line p w in after_header-ClosesOn line p' w' (read_line-ClosesOn p w)

push_bulk-ClosesOn : (b : Option Bytes) (r : BulksRead) → ClosesOn r → ClosesOn (push_bulk b r)
unfolding push_bulk
push_bulk-ClosesOn b (none, p, w) h = h
push_bulk-ClosesOn b (some none, p, w) h = λ bad. cc
push_bulk-ClosesOn b (some (some bs), p, w) h = λ bad. cc

read_bulks-ClosesOn : (n : ℕ) (p : Protocol) (w : World) → ClosesOn (read_bulks n p w)
unfolding read_bulks
read_bulks-ClosesOn zero p w = λ bad. cc
read_bulks-ClosesOn (suc n) p w =
    let (b, p', w') = read_bulk p w in
    elim (Option-cases b) [
      | inl e ↦ rw (read_bulks, e) (λ _. read_bulk-ClosesOn p w e)
      | inr (s, e) ↦ rw (read_bulks, e) (push_bulk-ClosesOn s _ (read_bulks-ClosesOn n p' w'))
    ]

multi_bulk_of_size-ClosesOn :
    (header : Bytes) (i : Option ℤ) (p : Protocol) (w : World)
    → ClosesOn (multi_bulk_of_size header i p w)
unfolding multi_bulk_of_size fail disconnect close Client.close
multi_bulk_of_size-ClosesOn header none p w = λ _. refl
multi_bulk_of_size-ClosesOn header (some (negsuc zero)) p w = λ bad. cc
multi_bulk_of_size-ClosesOn header (some (negsuc (suc n))) p w = λ _. refl
multi_bulk_of_size-ClosesOn header (some (pos n)) p w = read_bulks-ClosesOn n p w

pub read_multi_bulk_2-ClosesOn :
    (header : Bytes) (p : Protocol) (w : World) → ClosesOn (read_multi_bulk_2 header p w)
unfolding read_multi_bulk_2
read_multi_bulk_2-ClosesOn header p w =
    let (i, w') = parse_integer header w in multi_bulk_of_size-ClosesOn header i p w'
