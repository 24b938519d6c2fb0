-- ===== src/Dcc/Tests.antt =====
-- The theorems on packets and on the loco table at concrete locos.
use dccexpress_mini.Prelude.{◌≡◌, refl, true, some, [], ◌∷◌, arith, inr, replicate}
use dccexpress_mini.Prelude.Bits.{bit_at}
use dccexpress_mini.Dcc.State.{Dcc, Loco, fresh, max_locos, schedule_main}
use dccexpress_mini.Dcc.Packets.{throttle_packet, function_packet}
use dccexpress_mini.Dcc.Address.{target, decode_throttle, motion, decode_throttle-throttle_packet}
use dccexpress_mini.Dcc.Table.Laws.{find, index_of}
use dccexpress_mini.Dcc.Table.View.{HasRoom, known}
use dccexpress_mini.Dcc.Api.{set_throttle, set_fn, get_fn, frequency_bits}
use dccexpress_mini.Dcc.Api.Speed.{set_throttle-find, with_speed}
use dccexpress_mini.Dcc.Api.Functions.{get_fn-set_fn}
use dccexpress_mini.Dcc.Api.Frequency.{bit_at-frequency_bits}
use dccexpress_mini.Dcc.Reminders.{next_reg}
use dccexpress_mini.Dcc.Reminders.Cycle.{open_windows, open_windows-reminders}

abbrev other_loco : Loco
other_loco = record { loco = 9; speed_code = 128; group_flags = 0; functions = 0 }

-- All slots are taken.
abbrev crowded : Dcc
crowded = record fresh { speed_table = replicate max_locos other_loco }

fresh-HasRoom : HasRoom 3 fresh
unfolding index_of
fresh-HasRoom = inr (omega arith)

decode_throttle-throttle_packet_example :
    decode_throttle (throttle_packet 28 3 200) ≡ some (target 3, true, motion 28 72)
decode_throttle-throttle_packet_example =
    decode_throttle-throttle_packet 28 3 200 (omega arith) (omega arith)

set_throttle-find_example :
    let d' = set_throttle 3 50 true fresh in
    (find 3 d'.speed_table ≡ some (with_speed 178 (known 3 fresh)))
    × (find 5 d'.speed_table ≡ find 5 fresh.speed_table)
set_throttle-find_example =
    set_throttle-find 3 50 true fresh 5 refl (omega arith) fresh-HasRoom (omega arith) (omega arith)

get_fn-set_fn_example :
    let (done, d') = set_fn 3 4 true fresh in
    (done ≡ true)
    × ((get_fn 3 4 d').0 ≡ some true)
    × ((known 3 d').speed_code ≡ (known 3 fresh).speed_code)
    × (find 5 d'.speed_table ≡ find 5 fresh.speed_table)
get_fn-set_fn_example =
    get_fn-set_fn 3 4 4 5 true fresh refl (omega arith) (omega arith) (omega arith) (omega arith)
      fresh-HasRoom (omega arith) (omega arith)

bit_at-frequency_bits_example : bit_at (frequency_bits 5 2) 30 ≡ 1
bit_at-frequency_bits_example = bit_at-frequency_bits 5 2 30 (omega arith) (omega arith)

abbrev running : Dcc
running = record fresh {
  speed_table =
      record { loco = 3; speed_code = 178; group_flags = 1; functions = 17 }
      ∷ replicate 49 (record { loco = 0; speed_code = 0; group_flags = 0; functions = 0 });
}

open_windows-reminders_example : open_windows 6 running ≡ record running {
  events =
      schedule_main (function_packet 3 0 152) 0 ∷ schedule_main (throttle_packet 128 3 178) 0 ∷ [];
}
unfolding next_reg
open_windows-reminders_example = open_windows-reminders running refl refl
