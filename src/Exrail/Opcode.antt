-- ===== src/Exrail/Opcode.antt =====
-- EXRAIL2.h: the operation codes in the order of the enumeration, which gives their bytes, with
-- `DISABLE_PROG` not defined, and the flag bits.
use Prim.Native.Nat.{ℕ}
use mathlib.Core.Option.{Option}
use mathlib.Core.List.{List, [], ◌∷◌}
use dccexpress_mini.Prelude.{get_elem?}

pub data Opcode : Type 0 where
  op_throw op_close op_toggle_turnout op_fwd op_rev op_speed op_invert_direction op_reserve op_free
        op_at op_after op_afteroverload op_autostart op_atgte op_atlt op_attimeout1 op_attimeout2
        op_latch op_unlatch op_set op_reset op_blink op_endif op_else op_delay op_delaymins
        op_delayms op_randwait op_fon op_foff op_xfon op_xfoff op_ftoggle op_xftoggle op_xfwd
        op_xrev op_red op_green op_amber op_drive op_servo op_signal op_turnout op_waitfor op_pad
        op_follow op_call op_return op_join op_unjoin op_read_loco1 op_read_loco2 op_pom op_start
        op_setloco op_setfreq op_sendloco op_forget op_pause op_resume op_poweroff op_poweron
        op_onclose op_onthrow op_servoturnout op_pinturnout op_print op_dccactivate op_aspect
        op_onactivate op_ondeactivate op_roster op_killall op_route op_automation op_sequence
        op_endtask op_endexrail op_set_track op_set_power op_onred op_onamber op_ongreen op_onchange
        op_onclocktime op_ontime op_ttaddposition op_dccturntable op_exttturntable op_onrotate
        op_rotate op_waitfortt op_lcc op_lccx op_onlcc op_acon op_acof op_onacon op_onacof
        op_onoverload op_route_active op_route_inactive op_route_hidden op_route_disabled op_stash
        op_clear_stash op_clear_all_stash op_pickup_stash op_onbutton op_onsensor op_neopixel
        if_type_opcodes op_ifred op_ifamber op_ifgreen op_ifgte op_iflt op_iftimeout op_if op_ifnot
        op_ifrandom op_ifreserve op_ifclosed op_ifthrown op_ifre op_ifloco op_ifttposition :
      Opcode

abbrev opcodes : List Opcode
opcodes =
    op_throw ∷ op_close ∷ op_toggle_turnout ∷ op_fwd ∷ op_rev ∷ op_speed ∷ op_invert_direction
    ∷ op_reserve ∷ op_free ∷ op_at ∷ op_after ∷ op_afteroverload ∷ op_autostart ∷ op_atgte ∷ op_atlt
    ∷ op_attimeout1 ∷ op_attimeout2 ∷ op_latch ∷ op_unlatch ∷ op_set ∷ op_reset ∷ op_blink
    ∷ op_endif ∷ op_else ∷ op_delay ∷ op_delaymins ∷ op_delayms ∷ op_randwait ∷ op_fon ∷ op_foff
    ∷ op_xfon ∷ op_xfoff ∷ op_ftoggle ∷ op_xftoggle ∷ op_xfwd ∷ op_xrev ∷ op_red ∷ op_green
    ∷ op_amber ∷ op_drive ∷ op_servo ∷ op_signal ∷ op_turnout ∷ op_waitfor ∷ op_pad ∷ op_follow
    ∷ op_call ∷ op_return ∷ op_join ∷ op_unjoin ∷ op_read_loco1 ∷ op_read_loco2 ∷ op_pom ∷ op_start
    ∷ op_setloco ∷ op_setfreq ∷ op_sendloco ∷ op_forget ∷ op_pause ∷ op_resume ∷ op_poweroff
    ∷ op_poweron ∷ op_onclose ∷ op_onthrow ∷ op_servoturnout ∷ op_pinturnout ∷ op_print
    ∷ op_dccactivate ∷ op_aspect ∷ op_onactivate ∷ op_ondeactivate ∷ op_roster ∷ op_killall
    ∷ op_route ∷ op_automation ∷ op_sequence ∷ op_endtask ∷ op_endexrail ∷ op_set_track
    ∷ op_set_power ∷ op_onred ∷ op_onamber ∷ op_ongreen ∷ op_onchange ∷ op_onclocktime ∷ op_ontime
    ∷ op_ttaddposition ∷ op_dccturntable ∷ op_exttturntable ∷ op_onrotate ∷ op_rotate ∷ op_waitfortt
    ∷ op_lcc ∷ op_lccx ∷ op_onlcc ∷ op_acon ∷ op_acof ∷ op_onacon ∷ op_onacof ∷ op_onoverload
    ∷ op_route_active ∷ op_route_inactive ∷ op_route_hidden ∷ op_route_disabled ∷ op_stash
    ∷ op_clear_stash ∷ op_clear_all_stash ∷ op_pickup_stash ∷ op_onbutton ∷ op_onsensor
    ∷ op_neopixel ∷ if_type_opcodes ∷ op_ifred ∷ op_ifamber ∷ op_ifgreen ∷ op_ifgte ∷ op_iflt
    ∷ op_iftimeout ∷ op_if ∷ op_ifnot ∷ op_ifrandom ∷ op_ifreserve ∷ op_ifclosed ∷ op_ifthrown
    ∷ op_ifre ∷ op_ifloco ∷ op_ifttposition ∷ []

-- The cast of a byte to the enumeration.
unfoldable pub decode : ℕ → Option Opcode
decode b = get_elem? opcodes b

-- The bytes that are compared before the cast.
abbrev pub byte_endif : ℕ
byte_endif = 22

abbrev pub byte_else : ℕ
byte_else = 23

abbrev pub byte_onclose : ℕ
byte_onclose = 62

abbrev pub byte_onthrow : ℕ
byte_onthrow = 63

abbrev pub byte_onactivate : ℕ
byte_onactivate = 69

abbrev pub byte_ondeactivate : ℕ
byte_ondeactivate = 70

abbrev pub byte_route : ℕ
byte_route = 73

abbrev pub byte_automation : ℕ
byte_automation = 74

abbrev pub byte_sequence : ℕ
byte_sequence = 75

abbrev pub byte_endexrail : ℕ
byte_endexrail = 77

abbrev pub byte_onred : ℕ
byte_onred = 80

abbrev pub byte_onamber : ℕ
byte_onamber = 81

abbrev pub byte_ongreen : ℕ
byte_ongreen = 82

abbrev pub byte_onchange : ℕ
byte_onchange = 83

abbrev pub byte_ontime : ℕ
byte_ontime = 85

abbrev pub byte_onrotate : ℕ
byte_onrotate = 89

abbrev pub byte_onoverload : ℕ
byte_onoverload = 99

abbrev pub byte_if_type : ℕ
byte_if_type = 111

-- Flag bits for compile time features.
abbrev pub feature_signal : ℕ
feature_signal = 0x80

abbrev pub feature_lcc : ℕ
feature_lcc = 0x40

abbrev pub feature_stash : ℕ
feature_stash = 0x08

abbrev pub feature_blink : ℕ
feature_blink = 0x04

abbrev pub feature_sensor : ℕ
feature_sensor = 0x02

-- Flag bits for status of hardware and TPL.
abbrev pub section_flag : ℕ
section_flag = 0x80

abbrev pub latch_flag : ℕ
latch_flag = 0x40

abbrev pub task_flag : ℕ
task_flag = 0x20

abbrev pub signal_mask : ℕ
signal_mask = 0x0C

abbrev pub signal_red : ℕ
signal_red = 0x08

abbrev pub signal_amber : ℕ
signal_amber = 0x0C

abbrev pub signal_green : ℕ
signal_green = 0x04

abbrev pub max_stack_depth : ℕ
max_stack_depth = 4

abbrev pub max_flags : ℕ
max_flags = 256
