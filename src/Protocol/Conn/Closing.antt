-- ===== src/Protocol/Conn/Closing.antt =====
-- A failed read of src/redis_protocol.cpp leaves the connection closed; and what `assure_connect` does to
-- the modes.
use librediscxx.Base.{
  ℕ, false, ◌≡◌, refl, ◌⊎◌, inl, inr, [], ◌∷◌, Option, none, Bytes, ◌==◌, Bool-cases,
}
use librediscxx.Os.World.{World}
use librediscxx.Tcp.Client
use librediscxx.Protocol.Conn.{
  Protocol, was_open, now_connected, not_open, close, disconnect, fail, checked, line_end,
  read_timeout, read_line, read, connect, assure_connect,
}

-- If nothing was read, the connection is closed.
abbrev pub ClosesOn {ℓ} : {A : Type ℓ} → Option A × Protocol × World → Type ℓ
ClosesOn (r, p, w) = r ≡ none → p.tcp.fd ≡ none

checked-ClosesOn :
    (line : Bytes) (ec : ℕ) (p : Protocol) (w : World) → ClosesOn (checked line ec p w)
unfolding checked fail disconnect close Client.close
checked-ClosesOn [] ec p w = elim (Bool-cases (ec == 0)) [
  | inr e ↦ rw e (λ _. refl)
  | inl e ↦ rw e (λ _. refl)
]
checked-ClosesOn (c ∷ s) ec p w = elim (Bool-cases (ec == 0)) [
  | inr e ↦ rw e (λ _. refl)
  | inl e ↦ rw e (λ bad. cc)
]

pub read_line-ClosesOn : (p : Protocol) (w : World) → ClosesOn (read_line p w)
unfolding read_line
read_line-ClosesOn p w =
    let (line, ec, c, w') = Client.read_line line_end (read_timeout p) p.tcp w in
    checked-ClosesOn line ec (record p { tcp = c }) w'

pub read-ClosesOn : (n : ℕ) (p : Protocol) (w : World) → ClosesOn (read n p w)
unfolding read
read-ClosesOn n p w =
    let (line, ec, c, w') = Client.read n line_end (read_timeout p) p.tcp w in
    checked-ClosesOn line ec (record p { tcp = c }) w'

-- What `assure_connect` makes of the modes: a connection that is open, or opened again, keeps both of
-- them, and only a failed attempt resets them.
pub assure_connect-modes :
    (p : Protocol) (w : World)
    → let (status, p', w') = assure_connect p w in
      ((status ≡ not_open)
        × (p'.tcp.fd ≡ none)
        × (p'.transaction_mode ≡ false)
        × (p'.blocking_mode ≡ false))
      ⊎ ((p'.transaction_mode ≡ p.transaction_mode)
          × (p'.blocking_mode ≡ p.blocking_mode)
          × ((status ≡ was_open) ⊎ (status ≡ now_connected)))
unfolding assure_connect connect disconnect close Client.close
assure_connect-modes p w =
    let (alive, c, w₁) = Client.is_open p.tcp w in
    let (ec, c₂, w₂) = Client.connect p.host p.port p.timeout c w₁ in
    elim (Bool-cases alive) [
      | inl e ↦ rw e (inr (refl, refl, inl refl))
      | inr e ↦ rw e (elim (Bool-cases (ec == 0)) [
        | inl ok ↦ rw ok (inr (refl, refl, inr refl))
        | inr ko ↦ rw ko (inl (refl, refl, refl, refl))
      ])
    ]
