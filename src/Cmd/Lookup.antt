-- ===== src/Cmd/Lookup.antt =====
-- The two tables of src/redis_cmd.cpp agree with the enumeration and with each other.
use librediscxx.Base.{
  ◌≡◌, refl, sym, ◌∙◌, ap, ◌≢◌, ◌↔◌, Option-cases, some, List, [], ◌∷◌, map, Bytes, Bool, true,
  ◌&&◌, str_eq, str_eq-eq, inl, inr, arith,
}
use librediscxx.Cmd.Command.{KCommand}
use librediscxx.Cmd.Names.{s_command_rev_map, find_command}
use librediscxx.Cmd.Input.{command_info, RedisInput, set_command_name, toupper}

-- The row at a command's index is the row of that command.
pub command_info-command : (c : KCommand) → (command_info c).command ≡ c
unfolding command_info
command_info-command KCommand.noop = refl
command_info-command _ = refl

-- Is each name the one that its command's row holds?
names_agree : List (Bytes × KCommand) → Bool
names_agree [] = true
names_agree ((s, c) ∷ m) = str_eq s (command_info c).command_str && names_agree m

rev_map_agrees : names_agree s_command_rev_map ≡ true
unfolding names_agree s_command_rev_map command_info str_eq
rev_map_agrees = refl

find_command_sound :
    (k : Bytes) (m : List (Bytes × KCommand)) (c : KCommand)
    → names_agree m ≡ true
    → find_command k m ≡ some c
    → k ≡ (command_info c).command_str
unfolding names_agree find_command
find_command_sound k [] c agree h = cc
find_command_sound k ((j, d) ∷ m) c agree h =
    ground
      (arith, find_command_sound k m c, str_eq-eq k j, str_eq-eq j (command_info d).command_str)

-- NOOP and COMMAND_MAX are the enumeration's place holders, with no name in the reverse map.
abbrev pub IsReal : KCommand → Type 0
IsReal c = (c ≢ KCommand.noop) × (c ≢ KCommand.command_max)

find_command_complete :
    (c : KCommand) → IsReal c → find_command (command_info c).command_str s_command_rev_map ≡ some c
unfolding find_command command_info s_command_rev_map
find_command_complete KCommand.noop (h, _) = absurd (h refl)
find_command_complete KCommand.command_max (_, h) = absurd (h refl)
find_command_complete _ _ = refl

-- Setting a command by its name sets the command whose name is the text in upper case, together with that
-- command's row, and leaves the arguments, whatever the case of the letters; no other text gives a real
-- command and its row.
pub set_command_name_iff :
    (s : Bytes) (r : RedisInput) (c : KCommand)
    → IsReal c
    → (set_command_name s r ≡ record { command = c; info = command_info c; args = r.args })
      ↔ (map toupper s ≡ (command_info c).command_str)
unfolding set_command_name
set_command_name_iff s r c real = (to, from)
  where
    of_command : (set_command_name s r).command ≡ c → map toupper s ≡ (command_info c).command_str
    of_command h = elim (Option-cases (find_command (map toupper s) s_command_rev_map)) [
      | inl e ↦ absurd (real.0 (sym (rw e at h)))
      | inr (d, e) ↦
          find_command_sound _ s_command_rev_map c rev_map_agrees (e ∙ ap some (rw e at h))
    ]

    to :
        set_command_name s r ≡ record { command = c; info = command_info c; args = r.args }
        → map toupper s ≡ (command_info c).command_str
    to h = of_command (ap (λ q. q.command) h)

    from :
        map toupper s ≡ (command_info c).command_str
        → set_command_name s r ≡ record { command = c; info = command_info c; args = r.args }
    from h = rw (h, find_command_complete c real) refl
