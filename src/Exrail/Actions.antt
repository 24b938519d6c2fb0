-- ===== src/Exrail/Actions.antt =====
-- EXRAIL2.cpp: what single instructions do, behind the `switch` of `loop2`.
use dccexpress_mini.Prelude.{
  ℕ, zero, suc, ◌+◌, ◌-◌, ◌*◌, ◌/◌, ◌%◌, Bool, true, false, ◌&&◌, Option, none, some, List, [], ◌∷◌,
  ltb, ◌==◌, ◌>>=◌, if◌then◌else◌, get_or, set,
}
use dccexpress_mini.Exrail.Opcode.{feature_lcc, feature_stash}
use dccexpress_mini.Exrail.State.{Task, Build, Call, Exrail, call, is_negative, negate, has_feature}
use dccexpress_mini.Exrail.State.Call.{write, broadcast_route_state}
use dccexpress_mini.Exrail.Lookup.{find_position}
use dccexpress_mini.Exrail.Tasks.{drive_loco, kill_blink_on_vpin}

-- 32-bit time differences.
abbrev pub elapsed : ℕ → ℕ → ℕ
elapsed now start = (now + 0x1_0000_0000 - start) % 0x1_0000_0000

-- `LOCO_ID_WAITING`.
abbrev pub loco_id_waiting : ℕ
loco_id_waiting = 0x1_0000 - 99

abbrev pub track_mode_dc : ℕ
track_mode_dc = 8

-- The loop of `OPCODE_SET` and `OPCODE_RESET`.
unfoldable pub write_vpins : Build → ℕ → ℕ → Bool → Exrail → Option Exrail
unfolding kill_blink_on_vpin
write_vpins b zero vpin value m = some m
write_vpins b (suc n) vpin value m = do
  killed ← kill_blink_on_vpin b vpin 1 m
  write_vpins b n ((vpin + 1) % 0x1_0000) value (call (write vpin value) killed)

-- The loop of `OPCODE_RESUME` over the other tasks.
unfoldable pub resume_all : List Task → Exrail → Exrail
unfolding drive_loco
resume_all [] m = m
resume_all (t ∷ ts) m = resume_all ts (drive_loco t.speedo t m).1

-- `readAnalogue(operand) * 127 / 1024` as a byte, where the product may wrap round.
unfoldable pub analog_speed : Build → ℕ → ℕ
analog_speed b v =
    let p = v * 127 % b.word in
    if ltb p (b.word / 2) then p / 1024 % 256 else (256 - (b.word - p) / 1024 % 256) % 256

-- `operand * 255/100`, and 0 for what is negative: no byte is below either.
unfoldable pub random_limit : Build → ℕ → ℕ
random_limit b x =
    let p = (if is_negative x then x + (b.word - 0x1_0000) else x) * 255 % b.word in
    if ltb p (b.word / 2) then p / 100 else 0

unfoldable pub manage_route_state : Build → ℕ → ℕ → Exrail → Exrail
unfolding find_position
manage_route_state b id state m =
    if b.compile_features == 0 then m else elim (find_position id m.lookups.route) [
      | none ↦ m
      | some p ↦
          if get_or m.route_states p 0 == state
          then m
          else call (broadcast_route_state id state)
              (record m { route_states = set m.route_states p state })
    ]

-- The loop of `OPCODE_CLEAR_ALL_STASH`, n turns of it.
unfoldable pub clear_stashes : ℕ → ℕ → List ℕ → List ℕ
clear_stashes zero x stash = stash
clear_stashes (suc n) x stash = clear_stashes n x (set stash x 0)

abbrev pub with_stash : Build → List ℕ → Exrail → Exrail
with_stash b stash m = if has_feature b feature_stash then record m { stash = stash } else m

abbrev pub pick_up : ℕ → Task → Task
pick_up x t =
    if is_negative x
    then record t { loco = negate x; invert = true }
    else record t { loco = x; invert = false }

abbrev pub send_to_lcc : Build → Call → Exrail → Exrail
send_to_lcc b c m = if has_feature b feature_lcc && m.lcc_serial then call c m else m
