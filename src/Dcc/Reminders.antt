-- ===== src/Dcc/Reminders.antt =====
-- `forgetLoco`, `forgetAllLocos`, `issueReminders` and `issueReminder` (DCC.cpp), as they are
-- compiled where function reminders are not disabled.
pub mod Cycle
use dccexpress_mini.Prelude.{
  ℕ, zero, suc, ◌+◌, ◌*◌, ◌/◌, ◌%◌, ◌^◌, Bool, true, false, none, some, bit_and, bit_or, ltb, ◌==◌,
  if◌then◌else◌,
}
use dccexpress_mini.Dcc.State.{Loco, Dcc, broadcast_forget_loco, emit, max_locos, is_positive}
use dccexpress_mini.Dcc.Table.{slot, set_slot, lookup_speed_table}
use dccexpress_mini.Dcc.Api.{set_throttle2, set_function_internal}

unfoldable pub free_slot : ℕ → Dcc → Dcc
free_slot reg d = set_slot reg (record (slot d reg) { loco = 0 }) d

unfoldable pub forget_loco : ℕ → Dcc → Dcc
unfolding free_slot emit
forget_loco cab d =
    let (reg, d') = lookup_speed_table cab false (set_throttle2 (cab % 0x1_0000) 1 d) in
    elim reg [
      | none ↦ d'
      | some r ↦
          emit (broadcast_forget_loco cab) (set_throttle2 (cab % 0x1_0000) 1 (free_slot r d'))
    ]

-- The loop of `forgetAllLocos`, over n slots from `reg` on.
unfoldable pub forget_slots : ℕ → ℕ → Dcc → Dcc
unfolding free_slot emit
forget_slots zero reg d = d
forget_slots (suc n) reg d = forget_slots n (reg + 1) (
    free_slot reg
      (if (slot d reg).loco == 0 then d else emit (broadcast_forget_loco (slot d reg).loco) d))

unfoldable pub forget_all_locos : Dcc → Dcc
unfolding forget_slots
forget_all_locos d = forget_slots max_locos 0 (set_throttle2 0 1 d)

-- One function group, if it was ever touched.
unfoldable pub remind_group : ℕ → Loco → ℕ → ℕ → ℕ → Dcc → Dcc
remind_group mask l byte1 byte2 count d =
    if bit_and l.group_flags mask == 0 then d else set_function_internal l.loco byte1 byte2 count d

-- The `switch` of `issueReminder`. The code clears flags only in its own copy of them.
unfoldable pub remind : ℕ → Loco → Dcc → Dcc
unfolding remind_group set_throttle2 set_function_internal
remind loop_status l d =
    let f : ℕ = l.functions in
    if loop_status == 0
    then set_throttle2 (l.loco % 0x1_0000) l.speed_code d
    else if loop_status == 1
    then remind_group 0x01 l 0 (bit_or (bit_or 128 (bit_and (f / 2) 0x0f)) (bit_and f 0x01 * 16)) 0
        d
    else if loop_status == 2
    then remind_group 0x02 l 0 (bit_or 176 (bit_and (f / 2 ^ 5) 0x0f)) 0 d
    else if loop_status == 3
    then remind_group 0x04 l 0 (bit_or 160 (bit_and (f / 2 ^ 9) 0x0f)) 0 d
    else if loop_status == 4
    then remind_group 0x08 l 222 (bit_and (f / 2 ^ 13) 0xff) 2 d
    else if loop_status == 5
    then remind_group 0x10 l 223 (bit_and (f / 2 ^ 21) 0xff) 2 d
    else d

-- Whether the loco is done, and the state.
unfoldable pub issue_reminder : ℕ → Dcc → Bool × Dcc
unfolding remind
issue_reminder reg d =
    let d' : Dcc = remind d.loop_status (slot d reg) d in
    let next : ℕ = (d.loop_status + 1) % 256 in
    let status : ℕ = if ltb 5 next then 0 else next in
    (status == 0, record d' { loop_status = status })

-- The slot whose turn it is.
unfoldable pub next_reg : Dcc → ℕ
next_reg d =
    if ltb d.highest_used_reg (d.last_loco_reminder + 1) then 0 else d.last_loco_reminder + 1

unfoldable pub end_reminder : ℕ → Bool × Dcc → Dcc
end_reminder reg (done, d) = if done then record d { last_loco_reminder = reg } else d

-- The argument is what `isReminderWindowOpen` of the main track returns.
unfoldable pub issue_reminders : Bool → Dcc → Dcc
unfolding next_reg issue_reminder end_reminder
issue_reminders false d = d
issue_reminders true d =
    if is_positive (slot d (next_reg d)).loco
    then end_reminder (next_reg d) (issue_reminder (next_reg d) d)
    else record d { last_loco_reminder = next_reg d }
