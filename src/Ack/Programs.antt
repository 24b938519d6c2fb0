-- ===== src/Ack/Programs.antt =====
-- The programs of the ack manager, and the calls that start them (DCC.cpp, DCC.h).
use dccexpress_mini.Prelude.{
  ℕ, zero, suc, ◌*◌, ◌/◌, ◌%◌, Bool, ◌||◌, List, [], ◌∷◌, bit_or, ltb, leb, if◌then◌else◌,
}
use dccexpress_mini.Dcc.State.{is_negative}
use dccexpress_mini.Dcc.Packets.{highest_short_addr}
use dccexpress_mini.Ack.Op.{
  Op, baseline, w0, w1, wb, vb, v0, v1, wack, itc1, itc0, itcb, itcbv, itcb7, nakfail, callfail,
  biv, startmerge, merge, setbit, setcv, setbyte, setbyteh, setbytel, stashlocoid, combinelocoid,
  itskip, nakskip, combine1920, skiptarget,
}
use dccexpress_mini.Ack.Manager.{Ack, Driver, effect, answer, setup, setup_word}

abbrev pub write_bit0_prog : List Op
write_bit0_prog = baseline ∷ w0 ∷ wack ∷ v0 ∷ wack ∷ itc1 ∷ callfail ∷ []

abbrev pub write_bit1_prog : List Op
write_bit1_prog = baseline ∷ w1 ∷ wack ∷ v1 ∷ wack ∷ itc1 ∷ callfail ∷ []

abbrev pub verify_bit0_prog : List Op
verify_bit0_prog = baseline ∷ v0 ∷ wack ∷ itc0 ∷ v1 ∷ wack ∷ itc1 ∷ callfail ∷ []

abbrev pub verify_bit1_prog : List Op
verify_bit1_prog = baseline ∷ v1 ∷ wack ∷ itc1 ∷ v0 ∷ wack ∷ itc0 ∷ callfail ∷ []

abbrev pub read_bit_prog : List Op
read_bit_prog = baseline ∷ v1 ∷ wack ∷ itc1 ∷ v0 ∷ wack ∷ itc0 ∷ callfail ∷ []

abbrev pub write_byte_prog : List Op
write_byte_prog = baseline ∷ wb ∷ wack ∷ itc1 ∷ vb ∷ wack ∷ itc1 ∷ callfail ∷ []

-- V0, WACK, MERGE, n times, in front of other opcodes.
abbrev pub merges : ℕ → List Op → List Op
merges zero ops = ops
merges (suc n) ops = v0 ∷ wack ∷ merge ∷ merges n ops

-- The part that reads a byte, the same in the programs to verify and to read one.
abbrev pub read_byte_ops : List Op → List Op
read_byte_ops ops =
    startmerge
    ∷ v0
    ∷ wack
    ∷ merge
    ∷ itskip
    ∷ setbit 7
    ∷ v1
    ∷ wack
    ∷ nakfail
    ∷ setbit 6
    ∷ skiptarget
    ∷ merges 7 (vb ∷ wack ∷ ops)

abbrev pub verify_byte_prog : List Op
verify_byte_prog = baseline ∷ biv ∷ vb ∷ wack ∷ itcb ∷ read_byte_ops (itcbv ∷ callfail ∷ [])

abbrev pub read_cv_prog : List Op
read_cv_prog = baseline ∷ read_byte_ops (itcb ∷ callfail ∷ [])

-- SETCV, STARTMERGE, and eight bits merged and verified.
abbrev pub read_of : ℕ → List Op → List Op
read_of cv ops = setcv cv ∷ startmerge ∷ merges 8 (vb ∷ wack ∷ ops)

-- Tests whether a CV holds a value, and skips if so.
abbrev pub skip_if : ℕ → List Op → List Op
skip_if value ops = setbyte value ∷ vb ∷ wack ∷ itskip ∷ ops

-- The parts of LOCO_ID_PROG, the last first: the short address; the long one, if CV 29 says so;
-- the consist in CV 19; the consist in CV 20 and 19.
abbrev pub loco_id_short : List Op
loco_id_short = setcv 1 ∷ startmerge ∷ setbit 6 ∷ merges 7 (vb ∷ wack ∷ itcb ∷ callfail ∷ [])

abbrev pub loco_id_long : List Op
loco_id_long =
    setcv 29
    ∷ setbit 5
    ∷ v0
    ∷ wack
    ∷ itskip
    ∷ read_of 17
        (nakfail ∷ stashlocoid ∷ read_of 18 (nakfail ∷ combinelocoid ∷ skiptarget ∷ loco_id_short))

abbrev pub loco_id_consist : List Op
loco_id_consist =
    setcv 19
    ∷ skip_if 0
        (skip_if 128 (startmerge ∷ merges 8 (vb ∷ wack ∷ itcb7 ∷ skiptarget ∷ loco_id_long)))

abbrev pub loco_id_prog : List Op
loco_id_prog =
    baseline
    ∷ setcv 20
    ∷ skip_if 0 (
        startmerge
        ∷ merges 8 (
            vb
            ∷ wack
            ∷ nakskip
            ∷ stashlocoid
            ∷ read_of 19 (nakfail ∷ combine1920 ∷ skiptarget ∷ loco_id_consist)))

abbrev pub short_loco_id_prog : List Op
short_loco_id_prog =
    baseline
    ∷ setcv 20
    ∷ setbyte 0
    ∷ wb
    ∷ wack
    ∷ setcv 19
    ∷ setbyte 0
    ∷ wb
    ∷ wack
    ∷ setcv 29
    ∷ setbit 5
    ∷ w0
    ∷ wack
    ∷ v0
    ∷ wack
    ∷ nakfail
    ∷ setcv 1
    ∷ setbytel
    ∷ wb
    ∷ wack
    ∷ itc1
    ∷ vb
    ∷ wack
    ∷ itc1
    ∷ callfail
    ∷ []

abbrev pub consist_id_prog : List Op
consist_id_prog =
    baseline
    ∷ setcv 20
    ∷ setbyteh
    ∷ wb
    ∷ wack
    ∷ setcv 19
    ∷ setbytel
    ∷ wb
    ∷ wack
    ∷ itc1
    ∷ vb
    ∷ wack
    ∷ itc1
    ∷ callfail
    ∷ []

abbrev pub long_loco_id_prog : List Op
long_loco_id_prog =
    baseline
    ∷ setcv 20
    ∷ setbyte 0
    ∷ wb
    ∷ wack
    ∷ setcv 19
    ∷ setbyte 0
    ∷ wb
    ∷ wack
    ∷ setcv 29
    ∷ setbit 5
    ∷ w1
    ∷ wack
    ∷ v1
    ∷ wack
    ∷ nakfail
    ∷ setcv 17
    ∷ setbyteh
    ∷ wb
    ∷ wack
    ∷ itskip
    ∷ vb
    ∷ wack
    ∷ itskip
    ∷ callfail
    ∷ skiptarget
    ∷ setcv 18
    ∷ setbytel
    ∷ wb
    ∷ wack
    ∷ itc1
    ∷ vb
    ∷ wack
    ∷ itc1
    ∷ callfail
    ∷ []

-- The calls. An answer of -1 for arguments out of range goes to the caller at once.
abbrev pub refuse : Ack → Ack
refuse a = effect (answer 0xffff) a

unfoldable pub write_cv_byte : Driver → ℕ → ℕ → Ack → Ack
write_cv_byte driver cv value a = setup driver cv value write_byte_prog a

unfoldable pub write_cv_bit : Driver → ℕ → ℕ → Bool → Ack → Ack
write_cv_bit driver cv bit_num value a =
    if leb 8 bit_num
    then refuse a
    else setup driver cv bit_num (if value then write_bit1_prog else write_bit0_prog) a

unfoldable pub verify_cv_byte : Driver → ℕ → ℕ → Ack → Ack
verify_cv_byte driver cv value a = setup driver cv value verify_byte_prog a

unfoldable pub verify_cv_bit : Driver → ℕ → ℕ → Bool → Ack → Ack
verify_cv_bit driver cv bit_num value a =
    if leb 8 bit_num
    then refuse a
    else setup driver cv bit_num (if value then verify_bit1_prog else verify_bit0_prog) a

unfoldable pub read_cv_bit : Driver → ℕ → ℕ → Ack → Ack
read_cv_bit driver cv bit_num a =
    if leb 8 bit_num then refuse a else setup driver cv bit_num read_bit_prog a

unfoldable pub read_cv : Driver → ℕ → Ack → Ack
read_cv driver cv a = setup driver cv 0 read_cv_prog a

unfoldable pub get_loco_id : Driver → Ack → Ack
get_loco_id driver a = setup driver 0 0 loco_id_prog a

-- The id is an `int`, as its 32-bit pattern.
unfoldable pub set_loco_id : Driver → ℕ → Ack → Ack
set_loco_id driver id a =
    if is_negative id || ltb id 1 || ltb 10239 id
    then refuse a
    else if leb id highest_short_addr
    then setup_word driver id short_loco_id_prog a
    else setup_word driver (bit_or id 0xc000) long_loco_id_prog a

-- The word of `setConsistId`: CV 20 in the high byte, CV 19 in the low one.
unfoldable pub consist_word : ℕ → Bool → ℕ
consist_word id reverse =
    let is_short : Bool = leb id highest_short_addr in
    let cv19 : ℕ = if is_short then id else id % 100 in
    let cv20 : ℕ = if is_short then 0 else id / 100 in
    bit_or (cv20 * 256) (if reverse then bit_or cv19 0x80 else cv19)

unfoldable pub set_consist_id : Driver → ℕ → Bool → Ack → Ack
unfolding consist_word
set_consist_id driver id reverse a =
    if is_negative id || ltb 10239 id
    then refuse a
    else setup_word driver (consist_word id reverse) consist_id_prog a
