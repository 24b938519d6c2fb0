-- ===== src/Ack/Manager.antt =====
-- `Setup`, `loop` and `callback` (DCCACK.cpp). An `int` is its 32-bit pattern, so -1 is
-- `minus_one`; a `byte` is a number below 256.
use dccexpress_mini.Prelude.{
  ℕ, zero, suc, ◌+◌, ◌-◌, ◌*◌, ◌%◌, Bool, true, false, ◌&&◌, ◌||◌, not, Option, none, some, List,
  [], ◌∷◌, bit_and, bit_or, ltb, ◌==◌, if◌then◌else◌,
}
use dccexpress_mini.Dcc.State.{high_byte, low_byte}
use dccexpress_mini.Dcc.Packets.{cv1, cv2}
use dccexpress_mini.Ack.Op.{
  Op, baseline, w0, w1, wb, vb, v0, v1, wack, itc1, itc0, itcb, itcbv, itcb7, nakfail, callfail,
  biv, startmerge, merge, setbit, setcv, setbyte, setbyteh, setbytel, stashlocoid, combinelocoid,
  itskip, nakskip, combine1920, skiptarget, is_skiptarget, CallbackState, after_read, after_write,
  waiting_100, waiting_30, ready, PowerMode, off, on, overload,
}

abbrev pub minus_one : ℕ
minus_one = 0xffff_ffff

abbrev pub write_byte : ℕ
write_byte = 0x7c

abbrev pub verify_byte : ℕ
verify_byte = 0x74

abbrev pub bit_manipulate : ℕ
bit_manipulate = 0x78

abbrev pub write_bit : ℕ
write_bit = 0xf0

abbrev pub verify_bit : ℕ
verify_bit = 0xe0

abbrev pub bit_on : ℕ
bit_on = 0x08

abbrev pub bit_off : ℕ
bit_off = 0x00

abbrev pub reset_min : ℕ
reset_min = 8

abbrev pub prog_repeats : ℕ
prog_repeats = 8

abbrev pub long_addr_marker : ℕ
long_addr_marker = 0x4000

-- What the manager does to the programming track and to its caller.
pub data Effect : Type 0 where
  schedule_prog : List ℕ → ℕ → Effect
  clear_resets : Effect
  set_power : PowerMode → Effect
  set_join : Bool → Effect
  set_ack_baseline : Effect
  answer : ℕ → Effect

-- The static members, with the state of the track driver and of the join, and the effects so far,
-- newest first. `prog` holds the opcodes from `ackManagerProg` on, and is `none` for NULL.
pub record Ack : Type 0 where
  pub prog : Option (List Op)
  pub prog_start : List Op
  pub byte : ℕ
  pub byte_verify : ℕ
  pub stash : ℕ
  pub word : ℕ
  pub retry : ℕ
  pub ack_retry : ℕ
  pub retry_sum : ℕ
  pub cv : ℕ
  pub bit_num : ℕ
  pub received : Bool
  pub rejoin : Bool
  pub auto_power_off : Bool
  pub callback_state : CallbackState
  pub callback_start : ℕ
  pub pending : Bool
  pub detected : Bool
  pub power : PowerMode
  pub joined : Bool
  pub effects : List Effect

-- What a run of `loop` reads from elsewhere: the reset packets sent since the last packet, and
-- `millis()`.
pub record Env : Type 0 where
  pub resets : ℕ
  pub now : ℕ

abbrev pub effect : Effect → Ack → Ack
effect e a = record a { effects = e ∷ a.effects }

unfoldable pub power_to : PowerMode → Ack → Ack
power_to p a = record (effect (set_power p) a) { power = p }

unfoldable pub join_to : Bool → Ack → Ack
join_to j a = record (effect (set_join j) a) { joined = j }

-- The programming track's driver: whether there is one, and whether it can measure current.
pub record Driver : Type 0 where
  pub present : Bool
  pub can_measure_current : Bool

-- The start of `Setup`: a joined track is unjoined.
unfoldable pub unjoin : Ack → Ack
unfolding join_to
unjoin a =
    let a' : Ack = record a { rejoin = a.joined } in
    if a.joined then effect clear_resets (join_to false a') else a'

-- The rest of it, on a driver that can measure current.
unfoldable pub begin : ℕ → ℕ → List Op → Ack → Ack
unfolding power_to
begin cv value program a =
    let a' : Ack = elim a.power [
      | off ↦ power_to on (record a { auto_power_off = true })
      | _ ↦ record a { auto_power_off = false }
    ] in
    record a' {
      cv = cv;
      prog = some program;
      prog_start = program;
      retry = a.ack_retry;
      byte = value;
      byte_verify = value;
      bit_num = value;
    }

-- Answers of -3 and -2 go to the caller at once.
unfoldable pub setup : Driver → ℕ → ℕ → List Op → Ack → Ack
unfolding unjoin begin join_to
setup driver cv value program a =
    let a' : Ack = unjoin a in
    if not driver.present
    then effect (answer 0xfffd) (if a'.rejoin then join_to false a' else a')
    else if not driver.can_measure_current
    then effect (answer 0xfffe) (join_to a'.rejoin a')
    else begin cv value program a'

unfoldable pub setup_word : Driver → ℕ → List Op → Ack → Ack
unfolding setup
setup_word driver wordval program a = setup driver 0 0 program (record a { word = wordval })

-- `setAckRetry`: the former sum, as it is returned, and the new state.
unfoldable pub set_ack_retry : ℕ → Ack → ℕ × Ack
set_ack_retry retry a = (a.retry_sum, record a { ack_retry = retry; retry_sum = 0 })

-- `millis()-callbackStart`
unfoldable pub elapsed : Env → Ack → ℕ
elapsed env a = (env.now + 0x1_0000_0000 - a.callback_start) % 0x1_0000_0000

-- The last state of `callback`: the answer is given.
unfoldable pub finish : ℕ → Ack → Ack
unfolding power_to join_to
finish value a =
    let a1 : Ack = if a.auto_power_off then power_to off a else a in
    let a2 : Ack = if a.rejoin then join_to true a1 else a1 in
    effect (answer (value % 0x1_0000)) (record a2 { prog = none })

unfoldable pub power_gap : Env → Ack → Ack
unfolding power_to
power_gap env a = record (power_to off a) { callback_start = env.now; callback_state = waiting_30 }

unfoldable pub callback_step : Env → ℕ → CallbackState → Ack → Ack
unfolding power_gap elapsed finish power_to
callback_step env value after_read a =
    if a.rejoin && not a.auto_power_off
    then power_gap env a
    else record a { callback_state = ready }
callback_step env value after_write a =
    if not a.rejoin && not a.auto_power_off
    then record a { callback_state = ready }
    else record a { callback_start = env.now; callback_state = waiting_100 }
callback_step env value waiting_100 a =
    if ltb (elapsed env a) 100
    then a
    else if a.auto_power_off
    then record a { callback_state = ready }
    else power_gap env a
callback_step env value waiting_30 a =
    if ltb (elapsed env a) 30 then a else record (power_to on a) { callback_state = ready }
callback_step env value ready a = finish value a

-- A failure is tried again from the start of the program while there are retries left.
unfoldable pub callback : Env → ℕ → Ack → Ack
unfolding callback_step
callback env value a =
    if value == minus_one && ltb 0 a.retry
    then record a {
      retry_sum = (a.retry_sum + 1) % 0x1_0000;
      retry = a.retry - 1;
      prog = some a.prog_start;
    }
    else callback_step env value a.callback_state a

-- The packets of the opcodes.
unfoldable pub byte_message : ℕ → ℕ → ℕ → List ℕ
byte_message instruction cv value = cv1 instruction cv ∷ cv2 cv ∷ value ∷ []

unfoldable pub bit_message : ℕ → ℕ → ℕ → List ℕ
bit_message instruction cv bit_num =
    cv1 bit_manipulate cv ∷ cv2 cv ∷ bit_or instruction bit_num ∷ []

-- Sends a packet and starts to watch for its acknowledgement (`setAckPending`).
unfoldable pub ask : List ℕ → Ack → Ack
ask message a = record (effect (schedule_prog message prog_repeats) a) {
  pending = true;
  detected = false;
}

-- What an opcode leads to: the next opcode, the opcode behind the next target, or an end of this
-- run of `loop` at the opcode itself or where `callback` has put the manager.
pub data Result : Type 0 where
  next : Ack → Result
  skip : Ack → Result
  leave : Ack → Result

abbrev pub when_sent : Env → Ack → Result → Result
when_sent env a r = if ltb env.resets reset_min then leave a else r

abbrev pub wrote : Ack → Ack
wrote a = record a { callback_state = after_write }

-- The `switch` of `loop`.
unfoldable pub execute : Env → Op → Ack → Result
unfolding ask byte_message bit_message callback
execute env baseline a = elim a.power [
  | overload ↦ leave a
  | _ ↦
      if ltb env.resets (if a.auto_power_off || a.rejoin then 20 else 3)
      then leave a
      else next (record (effect set_ack_baseline a) { callback_state = after_read })
]
execute env w0 a =
    when_sent env a (next (wrote (ask (bit_message (bit_or write_bit bit_off) a.cv a.bit_num) a)))
execute env w1 a =
    when_sent env a (next (wrote (ask (bit_message (bit_or write_bit bit_on) a.cv a.bit_num) a)))
execute env wb a = when_sent env a (next (wrote (ask (byte_message write_byte a.cv a.byte) a)))
execute env vb a = when_sent env a (next (ask (byte_message verify_byte a.cv a.byte) a))
execute env v0 a =
    when_sent env a (next (ask (bit_message (bit_or verify_bit bit_off) a.cv a.bit_num) a))
execute env v1 a =
    when_sent env a (next (ask (bit_message (bit_or verify_bit bit_on) a.cv a.bit_num) a))
execute env wack a = if a.pending then leave a else next (record a { received = a.detected })
execute env itc0 a = if a.received then leave (callback env 0 a) else next a
execute env itc1 a = if a.received then leave (callback env 1 a) else next a
execute env itcb a = if a.received then leave (callback env a.byte a) else next a
execute env itcbv a =
    if a.received
    then leave (
        callback env a.byte (
          if a.byte == a.byte_verify
          then record a { retry_sum = (a.retry_sum + 1) % 0x1_0000 }
          else a))
    else next a
execute env itcb7 a = if a.received then leave (callback env (bit_and a.byte 0x7f) a) else next a
execute env nakfail a = if a.received then next a else leave (callback env minus_one a)
execute env callfail a = leave (callback env minus_one a)
execute env biv a = next (record a { byte = a.byte_verify })
execute env startmerge a = next (record a { bit_num = 7; byte = 0 })
execute env merge a =
    let shifted : ℕ = a.byte * 2 % 256 in
    next (record a {
      byte = if a.received then shifted else bit_or shifted 1;
      bit_num = (a.bit_num + 255) % 256;
    })
execute env (setbit n) a = next (record a { bit_num = n })
execute env (setcv n) a = next (record a { cv = n })
execute env (setbyte n) a = next (record a { byte = n })
execute env setbyteh a = next (record a { byte = high_byte a.word })
execute env setbytel a = next (record a { byte = low_byte a.word })
execute env stashlocoid a = next (record a { stash = a.byte })
execute env combinelocoid a = leave (
    callback env
      (bit_or long_addr_marker ((a.byte + (a.stash + 0xffff_ff40) * 256) % 0x1_0000_0000)) a)
execute env combine1920 a =
    let low : ℕ = bit_and a.byte 0x7f % 100 in
    leave (callback env (a.stash * 100 + low) (record a { byte = low }))
execute env itskip a = if a.received then skip a else next a
execute env nakskip a = if a.received then next a else skip a
execute env skiptarget a = next a

-- The manager at an opcode: the program from there on is what `ackManagerProg` points to.
abbrev pub at : List Op → Ack → Ack
at ops a = record a { prog = some ops }

-- The opcodes behind the next target.
unfoldable pub after_target : List Op → List Op
after_target [] = []
after_target (op ∷ ops) = if is_skiptarget op then ops else after_target ops

-- The `while` of `loop`, which ends where an opcode leaves it. A program never runs out of
-- opcodes: it ends in CALLFAIL.
unfoldable pub run : ℕ → Env → List Op → Ack → Ack
unfolding execute after_target
run zero env ops a = at ops a
run (suc fuel) env [] a = at [] a
run (suc fuel) env (op ∷ ops) a = elim (execute env op (at (op ∷ ops) a)) [
  | next a' ↦ run fuel env ops a'
  | skip a' ↦ run fuel env (after_target ops) a'
  | leave a' ↦ a'
]

-- Each round of the `while` moves on in the program, so that its length bounds them.
unfoldable pub count : List Op → ℕ
count [] = 1
count (op ∷ ops) = suc (count ops)

unfoldable pub loop_from : Env → Option (List Op) → Ack → Ack
unfolding run count
loop_from env none a = a
loop_from env (some ops) a = run (count ops) env ops a

unfoldable pub loop : Env → Ack → Ack
unfolding loop_from
loop env a = loop_from env a.prog a
