-- ===== src/Dcc/Reminders/Cycle.antt =====
-- What the reminders of one loco are.
use dccexpress_mini.Prelude.{
  ℕ, zero, suc, ◌*◌, ◌/◌, ◌%◌, ◌^◌, ◌≡◌, refl, ap, ◌∙◌, true, List, [], ◌∷◌, ◌++◌, bit_and, bit_or,
  ◌==◌, if◌then◌else◌, Bool-cases, inl, inr,
}
use dccexpress_mini.Dcc.State.{Loco, Dcc, Event, schedule_main, emit, is_positive}
use dccexpress_mini.Dcc.Packets.{throttle_packet, function_packet}
use dccexpress_mini.Dcc.Table.{slot}
use dccexpress_mini.Dcc.Api.{set_throttle2, set_function_internal}
use dccexpress_mini.Dcc.Reminders.{
  remind_group, remind, issue_reminder, next_reg, end_reminder, issue_reminders,
}

-- n calls at which the reminder window of the main track is open.
pub open_windows : ℕ → Dcc → Dcc
open_windows zero d = d
open_windows (suc n) d = open_windows n (issue_reminders true d)

-- The packet of a function group, if the group was ever touched.
abbrev group_packet : ℕ → Loco → ℕ → ℕ → ℕ → List Event
group_packet mask l byte1 byte2 count =
    if bit_and l.group_flags mask == 0
    then []
    else schedule_main (function_packet l.loco byte1 byte2) count ∷ []

-- The packets that remind a loco of its speed and direction, and of F0 to F4, F5 to F8, F9 to F12,
-- F13 to F20 and F21 to F28, the last first, and what was sent before.
abbrev pub reminders : ℕ → Loco → List Event → List Event
reminders speedsteps l before =
    let f : ℕ = l.functions in
    group_packet 0x10 l 223 (bit_and (f / 2 ^ 21) 0xff) 2
    ++ (group_packet 0x08 l 222 (bit_and (f / 2 ^ 13) 0xff) 2
        ++ (group_packet 0x04 l 0 (bit_or 160 (bit_and (f / 2 ^ 9) 0x0f)) 0
            ++ (group_packet 0x02 l 0 (bit_or 176 (bit_and (f / 2 ^ 5) 0x0f)) 0
                ++ (group_packet 0x01 l 0
                      (bit_or (bit_or 128 (bit_and (f / 2) 0x0f)) (bit_and f 0x01 * 16)) 0
                    ++ (schedule_main (throttle_packet speedsteps (l.loco % 0x1_0000) l.speed_code)
                          0
                        ∷ before)))))

module _ (d : Dcc) (used : is_positive (slot d (next_reg d)).loco ≡ true) where
  abbrev at : ℕ → List Event → Dcc
  at k es = record d { loop_status = k; events = es }

  speed_step :
      (es : List Event)
      → let l : Loco = slot d (next_reg d) in
        issue_reminders true (at 0 es)
        ≡ at 1 (
            schedule_main (throttle_packet d.global_speedsteps (l.loco % 0x1_0000) l.speed_code) 0
            ∷ es)
  unfolding issue_reminders issue_reminder remind next_reg end_reminder set_throttle2 emit
  speed_step es = rw used refl

  group-sent :
      (k : ℕ) (es : List Event) (mask : ℕ) (l : Loco) (byte1 byte2 count : ℕ)
      → remind_group mask l byte1 byte2 count (at k es)
        ≡ at k (group_packet mask l byte1 byte2 count ++ es)
  unfolding remind_group set_function_internal emit
  group-sent k es mask l byte1 byte2 count = elim (Bool-cases (bit_and l.group_flags mask == 0)) [
    | inl e ↦ rw e refl
    | inr e ↦ rw e refl
  ]

  abbrev moved : ℕ → Dcc → Dcc
  moved k d' = record d' { loop_status = k }

  abbrev turn : Loco
  turn = slot d (next_reg d)

  step_1 :
      (es : List Event)
      → issue_reminders true (at 1 es)
        ≡ at 2 (
            group_packet 0x01 turn 0
              (bit_or
                (bit_or 128 (bit_and (turn.functions / 2) 0x0f))
                (bit_and turn.functions 0x01 * 16))
              0
            ++ es)
  unfolding issue_reminders issue_reminder remind next_reg end_reminder
  step_1 es = rw used (
      ap (moved 2) (
        group-sent 1 es 0x01 turn 0
          (bit_or (bit_or 128 (bit_and (turn.functions / 2) 0x0f))
            (bit_and turn.functions 0x01 * 16))
          0))

  step_2 :
      (es : List Event)
      → issue_reminders true (at 2 es)
        ≡ at 3
            (group_packet 0x02 turn 0 (bit_or 176 (bit_and (turn.functions / 2 ^ 5) 0x0f)) 0 ++ es)
  unfolding issue_reminders issue_reminder remind next_reg end_reminder
  step_2 es = rw used (
      ap (moved 3)
        (group-sent 2 es 0x02 turn 0 (bit_or 176 (bit_and (turn.functions / 2 ^ 5) 0x0f)) 0))

  step_3 :
      (es : List Event)
      → issue_reminders true (at 3 es)
        ≡ at 4
            (group_packet 0x04 turn 0 (bit_or 160 (bit_and (turn.functions / 2 ^ 9) 0x0f)) 0 ++ es)
  unfolding issue_reminders issue_reminder remind next_reg end_reminder
  step_3 es = rw used (
      ap (moved 4)
        (group-sent 3 es 0x04 turn 0 (bit_or 160 (bit_and (turn.functions / 2 ^ 9) 0x0f)) 0))

  step_4 :
      (es : List Event)
      → issue_reminders true (at 4 es)
        ≡ at 5 (group_packet 0x08 turn 222 (bit_and (turn.functions / 2 ^ 13) 0xff) 2 ++ es)
  unfolding issue_reminders issue_reminder remind next_reg end_reminder
  step_4 es =
      rw used
        (ap (moved 5) (group-sent 4 es 0x08 turn 222 (bit_and (turn.functions / 2 ^ 13) 0xff) 2))

  step_5 :
      (es : List Event)
      → issue_reminders true (at 5 es)
        ≡ record (at 0
            (group_packet 0x10 turn 223 (bit_and (turn.functions / 2 ^ 21) 0xff) 2 ++ es)) {
              last_loco_reminder = next_reg d;
            }
  unfolding issue_reminders issue_reminder remind next_reg end_reminder
  step_5 es = rw used (
      ap (λ (x : Dcc). record x { loop_status = 0; last_loco_reminder = next_reg d })
        (group-sent 5 es 0x10 turn 223 (bit_and (turn.functions / 2 ^ 21) 0xff) 2))

  -- The turn of the loco, one window after another.
  all_steps :
      (es : List Event)
      → open_windows 6 (at 0 es)
        ≡ record (at 0 (reminders d.global_speedsteps turn es)) { last_loco_reminder = next_reg d }
  unfolding open_windows
  all_steps es =
      ap (open_windows 5) (speed_step es)
      ∙ ap (open_windows 4) (step_1 _)
      ∙ ap (open_windows 3) (step_2 _)
      ∙ ap (open_windows 2) (step_3 _)
      ∙ ap (open_windows 1) (step_4 _)
      ∙ step_5 _

-- When the turn of a loco starts (loop_status is 0) and its slot is in use, the next six open windows
-- send its speed and direction and the functions of every group that was ever touched, F13 to F20
-- and F21 to F28 among them in every turn, in this order and no more. Its slot is then the last that
-- was reminded, the next turn starts, and the table, with its flags of touched groups, stays as it
-- is.
pub open_windows-reminders :
    (d : Dcc)
    → is_positive (slot d (next_reg d)).loco ≡ true
    → d.loop_status ≡ 0
    → open_windows 6 d ≡ record d {
      loop_status = 0;
      last_loco_reminder = next_reg d;
      events = reminders d.global_speedsteps (slot d (next_reg d)) d.events;
    }
open_windows-reminders d used start =
    ap (open_windows 6) (λ i. record d { loop_status = start i }) ∙ all_steps d used d.events
