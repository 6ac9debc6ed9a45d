-- ===== src/Redis2/State/Selecting.antt =====
-- The database that commands run on: `assure_connect` and `select` of src/redis.cpp.
use librediscxx.Base.{
  ℤ, Bool, true, false, not, ◌&&◌, ◌≡◌, ◌≢◌, refl, ◌⊎◌, inl, inr, [], ◌∷◌, Bool-cases,
  if◌then◌else◌,
}
use librediscxx.Os.World.{World}
use librediscxx.Cmd.Command.{KCommand}
use librediscxx.Cmd.Output.{RedisCommand, is_status_ok}
use librediscxx.Protocol.Decimal.{show_int}
use librediscxx.Protocol.Conn
use librediscxx.Protocol.Conn.{Protocol, ConnectStatus}
use librediscxx.Protocol.Exec
use librediscxx.Redis2.State.{
  Redis2, Call, is_zero, on_reset, command_of, is_not_open, is_now_connected, after_select, select,
  succeeded, ensure_selected, assure_connect, on_reply_type_error, last_error,
}

-- The connection works on the database of the client: the first one, or one whose SELECT has succeeded.
abbrev pub Selected : Redis2 → Type 0
Selected r = (is_zero r.db_index ≡ true) ⊎ (r.db_index_select_failure ≡ false)

-- A successful SELECT has set the index, and taken the mark of failure away.
abbrev HasSelected : ℤ → Call (Unit {0}) → Type 0
HasSelected index (a, r, w) =
    succeeded a ≡ true → (r.db_index_select_failure ≡ false) × (r.db_index ≡ index)

after_select-HasSelected :
    (index : ℤ) (c : RedisCommand) (r : Redis2) (w : World)
    → HasSelected index (after_select index c r w)
unfolding after_select succeeded on_reply_type_error last_error
after_select-HasSelected index c r w = elim (Bool-cases (is_status_ok c.out)) [
  | inl e ↦ rw e (λ _. (refl, refl))
  | inr e ↦ rw e (λ bad. cc)
]

select-HasSelected : (index : ℤ) (r : Redis2) (w : World) → HasSelected index (select index r w)
unfolding select succeeded
select-HasSelected index r w =
    let (status, p₁, w₁) = Conn.assure_connect r.proto w in
    let (ok, c, p₂, w₂) =
      Exec.exec_command (command_of KCommand.select (show_int index ∷ [])) p₁ w₁ in
    elim (Bool-cases (is_not_open status)) [
      | inl e ↦ rw e (λ bad. cc)
      | inr e ↦ rw e (elim (Bool-cases ok) [
        | inl e ↦ rw e (after_select-HasSelected index c (record r { proto = p₂ }) w₂)
        | inr e ↦ rw e (λ bad. cc)
      ])
    ]

either-Selected :
    (z f : Bool) (x y : Bool × Redis2 × World)
    → (x.0 ≡ true → Selected x.1)
    → ((z ≡ true) ⊎ (f ≡ false) → Selected y.1)
    → let q = if not z && f then x else y in q.0 ≡ true → Selected q.1
either-Selected true f x y hx hy ok = hy (inl refl)
either-Selected false true x y hx hy ok = hx ok
either-Selected false false x y hx hy ok = hy (inr refl)

ensure_selected-Selected :
    (r : Redis2) (w : World) → (ensure_selected r w).0 ≡ true → Selected (ensure_selected r w).1
unfolding ensure_selected
ensure_selected-Selected r w =
    let (selected, r', w') = select r.db_index r w in
    either-Selected (is_zero r.db_index) r.db_index_select_failure (succeeded selected, r', w')
      (true, r, w) (λ ok. inr ((select-HasSelected r.db_index r w ok).0)) (λ s. s)

-- SELECT of the index was executed, on a connection that was open then, and answered by OK; nothing has been done since.
abbrev pub Reselects : ℤ → Protocol → World → Bool × Redis2 × World → Type 0
Reselects index p w (_, r', w') =
    let (status, q, v) = Conn.assure_connect p w in
    let (ok, c, p', v') =
      Exec.exec_command (command_of KCommand.select (show_int index ∷ [])) q v in
    (status ≢ Conn.not_open)
    × (ok ≡ true)
    × (is_status_ok c.out ≡ true)
    × (r'.proto ≡ p')
    × (w' ≡ v')

open_of : (status : ConnectStatus) → is_not_open status ≡ false → status ≢ Conn.not_open
unfolding is_not_open
open_of Conn.not_open e = λ _. cc
open_of Conn.was_open e = λ e'. cc
open_of Conn.now_connected e = λ e'. cc

after_select-ok :
    (index : ℤ) (c : RedisCommand) (r : Redis2) (w : World)
    → succeeded (after_select index c r w).0 ≡ true
    → let (_, r', w') = after_select index c r w in
      (is_status_ok c.out ≡ true) × (r'.proto ≡ r.proto) × (w' ≡ w)
unfolding after_select succeeded
after_select-ok index c r w = elim (Bool-cases (is_status_ok c.out)) [
  | inl e ↦ rw e (λ _. (refl, refl, refl))
  | inr e ↦ rw e (λ bad. cc)
]

select-Reselects :
    (index : ℤ) (r : Redis2) (w : World)
    → succeeded (select index r w).0 ≡ true
    → Reselects index r.proto w (true, (select index r w).1, (select index r w).2)
unfolding select succeeded
select-Reselects index r w =
    let (status, p₁, w₁) = Conn.assure_connect r.proto w in
    let (ok, c, p₂, w₂) =
      Exec.exec_command (command_of KCommand.select (show_int index ∷ [])) p₁ w₁ in
    elim (Bool-cases (is_not_open status)) [
      | inl e ↦ rw e (λ bad. cc)
      | inr up ↦ rw up (elim (Bool-cases ok) [
        | inl e ↦ rw e (λ end.
            let (h, same, still) = after_select-ok index c (record r { proto = p₂ }) w₂ end in
            (open_of status up, refl, h, same, still))
        | inr e ↦ rw e (λ bad. cc)
      ])
    ]

-- How a connection comes to work on the client's database: it is the first one, no SELECT has failed, or SELECT was
-- executed now.
abbrev Chosen : Redis2 → World → Bool × Redis2 × World → Type 0
Chosen r w end =
    (is_zero r.db_index ≡ true)
    ⊎ (r.db_index_select_failure ≡ false)
    ⊎ Reselects r.db_index r.proto w end

either-Chosen :
    (z f : Bool) (R : Bool × Redis2 × World → Type 0) (x y : Bool × Redis2 × World)
    → (x.0 ≡ true → R x)
    → let q = if not z && f then x else y in q.0 ≡ true → (z ≡ true) ⊎ (f ≡ false) ⊎ R q
either-Chosen true f R x y h ok = inl refl
either-Chosen false true R x y h ok = inr (inr (h ok))
either-Chosen false false R x y h ok = inr (inl refl)

ensure_selected-Chosen :
    (r : Redis2) (w : World) → (ensure_selected r w).0 ≡ true → Chosen r w (ensure_selected r w)
unfolding ensure_selected
ensure_selected-Chosen r w =
    let (selected, r', w') = select r.db_index r w in
    either-Chosen (is_zero r.db_index) r.db_index_select_failure (Reselects r.db_index r.proto w)
      (succeeded selected, r', w') (true, r, w) (select-Reselects r.db_index r w)

-- After a new connection was made, the mark of failure is set unless the index is 0.
on_reset-Chosen :
    (r : Redis2) (w : World) (end : Bool × Redis2 × World)
    → Chosen (on_reset r) w end
    → (is_zero r.db_index ≡ true) ⊎ Reselects r.db_index r.proto w end
unfolding on_reset
on_reset-Chosen r w end (inl z) = inl z
on_reset-Chosen r w end (inr (inr h)) = inr h
on_reset-Chosen r w end (inr (inl e)) = elim (Bool-cases (is_zero r.db_index)) [
  | inl z ↦ inl z
  | inr z ↦ let bad = rw z at e in cc
]

was_open_of :
    (status : ConnectStatus)
    → is_not_open status ≡ false
    → is_now_connected status ≡ false
    → status ≡ Conn.was_open
unfolding is_not_open is_now_connected
was_open_of Conn.not_open e f = cc
was_open_of Conn.was_open e f = refl
was_open_of Conn.now_connected e f = cc

-- When `assure_connect` returns true, whatever the network and the server do, the client's index is 0, or the
-- connection was open before and no SELECT is marked as failed, or SELECT of the index has just been executed and
-- answered by OK on the connection that the call leaves; in the end no SELECT is marked as failed unless the index is 0.
-- So after a new connection was made by it an index other than 0 is always selected again before any command.
pub assure_connect-Selected :
    (r : Redis2) (w : World)
    → (assure_connect r w).0 ≡ true
    → let (status, p, w₁) = Conn.assure_connect r.proto w in
      Selected (assure_connect r w).1
      × ((is_zero r.db_index ≡ true)
          ⊎ ((status ≡ Conn.was_open) × (r.db_index_select_failure ≡ false))
          ⊎ Reselects r.db_index p w₁ (assure_connect r w))
unfolding assure_connect
assure_connect-Selected r w =
    let (status, p, w₁) = Conn.assure_connect r.proto w in
    let r₁ = record r { proto = p } in
    elim (Bool-cases (is_not_open status)) [
      | inl e ↦ rw e (λ bad. cc)
      | inr up ↦ rw up (elim (Bool-cases (is_now_connected status)) [
        | inl new ↦ rw new (λ ok. (
          ensure_selected-Selected (on_reset r₁) w₁ ok,
          elim (on_reset-Chosen r₁ w₁ (ensure_selected (on_reset r₁) w₁)
              (ensure_selected-Chosen (on_reset r₁) w₁ ok)) [ inl z ↦ inl z | inr h ↦ inr (inr h) ],
        ))
        | inr old ↦ rw old (λ ok. (
          ensure_selected-Selected r₁ w₁ ok,
          elim (ensure_selected-Chosen r₁ w₁ ok) [
            | inl z ↦ inl z
            | inr (inl f) ↦ inr (inl (was_open_of status up old, f))
            | inr (inr h) ↦ inr (inr h)
          ],
        ))
      ])
    ]
