-- ===== src/Commands.antt =====
-- DCCEXParser.cpp (CommandStation-EX): `parseZ`, `parseS` and `parseT`, the commands for outputs,
-- sensors and turnouts, and the part of `parseOne` that calls them. The parameters are the 16-bit
-- patterns that `splitValues` finds. The filters of `parseOne` are not set, memory is given by a
-- test, and a handler's `false` becomes the answer `<X>`.
pub mod Text
mod Tests
use dccexpress_mini.Prelude.{
  ℕ, ◌+◌, ◌-◌, ◌/◌, ◌%◌, Bool, true, false, ◌&&◌, ◌||◌, not, Option, none, some, List, [], ◌∷◌, ltb,
  leb, ◌==◌, if◌then◌else◌, get_or,
}
use dccexpress_mini.Outputs
use dccexpress_mini.Outputs.{Output}
use dccexpress_mini.Sensors
use dccexpress_mini.Sensors.{Sensor}
use dccexpress_mini.Turnouts
use dccexpress_mini.Turnouts.{Turnout}
use dccexpress_mini.Parser.{
  Outcome, done, broken, overrun, Machine, split_values, compiletime_keyword_hasher,
  max_command_params,
}

-- What is sent to the stream.
pub data Reply : Type 0 where
  done_reply : Reply
  refused_reply : Reply
  state_reply : ℕ → ℕ → Reply
  output_reply : ℕ → ℕ → ℕ → Bool → Reply
  sensor_reply : ℕ → ℕ → ℕ → Reply
  turnout_reply : Turnout → Reply
  thrown_reply : ℕ → Bool → Reply

-- The parts that the commands change, and the replies, newest first.
pub record Station : Type 0 where
  pub outputs : Outputs.Outputs
  pub sensors : Sensors.Sensors
  pub turnouts : Turnouts.Turnouts
  pub replies : List Reply

-- What the processor and other parts give: memory for a new object, drivers that notify, and the
-- sense of accessory packets.
pub record Config : Type 0 where
  pub memory : Bool
  pub has_callback : ℕ → Bool
  pub rcn_213 : Bool

abbrev pub reply : Reply → Station → Station
reply r m = record m { replies = r ∷ m.replies }

abbrev pub is_negative : ℕ → Bool
is_negative v = leb 0x8000 v

-- An `int16_t` given as an `int`.
abbrev pub widen : ℕ → ℕ
widen v = if is_negative v then v + 0xffff_0000 else v

abbrev pub is_made {ℓ} : {A : Type ℓ} → Option A → Bool
is_made none = false
is_made (some a) = true

abbrev pub has_any {ℓ} : {A : Type ℓ} → List A → Bool
has_any [] = false
has_any (a ∷ rest) = true

abbrev pub param : List ℕ → ℕ → ℕ
param p i = get_or p i 0

-- What `parseZ`, `parseS` and `parseT` return, with the answer of a change that was made.
abbrev pub answer : Bool → Station → Bool × Station
answer made m = if made then (true, reply done_reply m) else (false, m)

-- `<Z id active>`.
unfoldable pub activate_output : List ℕ → Station → Bool × Station
activate_output p m = elim (Outputs.get (param p 0) m.outputs.all) [
  | none ↦ (false, m)
  | some o ↦ (
    true,
    reply (state_reply (param p 0) (param p 1))
        (record m { outputs = Outputs.activate (param p 1) o m.outputs }),
  )
]

-- `<Z id pin flags>`.
unfoldable pub create_output : Config → List ℕ → Station → Bool × Station
create_output c p m =
    let (made, outputs) =
      Outputs.create c.memory (param p 0) (param p 1) (param p 2) true m.outputs in
    if is_negative (param p 0) || (is_negative (param p 2) || ltb 7 (param p 2))
    then (false, m)
    else answer (is_made made) (record m { outputs = outputs })

unfoldable pub list_outputs : List Output → Station → Station
list_outputs [] m = m
list_outputs (o ∷ os) m =
    list_outputs os
      (reply (output_reply o.data_of.id o.data_of.pin o.data_of.flags o.data_of.active) m)

unfoldable pub parse_z : Config → ℕ → List ℕ → Station → Bool × Station
unfolding activate_output create_output list_outputs
parse_z c params p m =
    let (removed, outputs) = Outputs.remove (param p 0) m.outputs in
    if params == 2
    then activate_output p m
    else if params == 3
    then create_output c p m
    else if params == 1
    then answer removed (record m { outputs = outputs })
    else if params == 0
    then (has_any m.outputs.all, list_outputs m.outputs.all m)
    else (false, m)

unfoldable pub list_sensors : List Sensor → Station → Station
list_sensors [] m = m
list_sensors (s ∷ ss) m = list_sensors ss (reply (sensor_reply s.snum s.pin s.pull_up) m)

unfoldable pub parse_s : Config → ℕ → List ℕ → Station → Bool × Station
unfolding list_sensors
parse_s c params p m =
    let (made, sensors) =
      Sensors.create c.has_callback c.memory (widen (param p 0)) (param p 1) (widen (param p 2))
        m.sensors in
    let (removed, fewer) = Sensors.remove (widen (param p 0)) m.sensors in
    if params == 3
    then answer made (record m { sensors = sensors })
    else if params == 1
    then answer removed (record m { sensors = fewer })
    else if params == 0
    then (has_any m.sensors.all, list_sensors m.sensors.all m)
    else (false, m)

-- `"..."_hk`.
unfoldable pub hk : List ℕ → ℕ
unfolding compiletime_keyword_hasher
hk cs = compiletime_keyword_hasher cs 0

abbrev pub closed_word : ℕ
closed_word = 67

abbrev pub thrown_word : ℕ
thrown_word = 84

abbrev pub print_word : ℕ
print_word = 88

abbrev pub servo_word : List ℕ
servo_word = 83 ∷ 69 ∷ 82 ∷ 86 ∷ 79 ∷ []

abbrev pub vpin_word : List ℕ
vpin_word = 86 ∷ 80 ∷ 73 ∷ 78 ∷ []

abbrev pub dcc_word : List ℕ
dcc_word = 68 ∷ 67 ∷ 67 ∷ []

-- `<T id X>`.
unfoldable pub print_turnout : List ℕ → Station → Bool × Station
print_turnout p m = elim (Turnouts.get (param p 0) m.turnouts) [
  | none ↦ (false, m)
  | some t ↦ (true, reply (turnout_reply t) m)
]

abbrev pub move_turnout : Config → ℕ → Bool → Station → Bool × Station
move_turnout c n close m =
    let (found, turnouts) = Turnouts.set_closed c.rcn_213 n close m.turnouts in
    (found, record m { turnouts = turnouts })

-- `<T id 0|1|C|T|X>`: 0 and C close the turnout, 1 and T throw it.
unfoldable pub switch_turnout : Config → List ℕ → Station → Bool × Station
unfolding print_turnout hk
switch_turnout c p m =
    if param p 1 == 0 || param p 1 == hk (closed_word ∷ [])
    then move_turnout c (param p 0) true m
    else if param p 1 == 1 || param p 1 == hk (thrown_word ∷ [])
    then move_turnout c (param p 0) false m
    else if param p 1 == hk (print_word ∷ [])
    then print_turnout p m
    else (false, m)

abbrev pub made_turnouts : Turnouts.Turnouts → Station → Bool × Station
made_turnouts turnouts m = answer true (record m { turnouts = turnouts })

-- `<T id DCC address subaddress>` and `<T id DCC linear>`.
unfoldable pub create_dcc_turnout : ℕ → List ℕ → Station → Bool × Station
create_dcc_turnout params p m =
    if params == 4 && (ltb (param p 2) 512 && ltb (param p 3) 4)
    then made_turnouts (Turnouts.create_dcc (param p 0) (param p 2) (param p 3) m.turnouts) m
    else if params == 3 && (ltb 0 (param p 2) && leb (param p 2) 2048)
    then made_turnouts
        (Turnouts.create_dcc (param p 0) ((param p 2 - 1) / 4 + 1) ((param p 2 - 1) % 4) m.turnouts)
        m
    else (false, m)

-- The other forms, which make a turnout.
unfoldable pub create_turnout : ℕ → List ℕ → Station → Bool × Station
unfolding hk create_dcc_turnout
create_turnout params p m =
    let n : ℕ = param p 0 in
    if params == 6 && param p 1 == hk servo_word
    then made_turnouts
        (Turnouts.create_servo n (param p 2) (param p 3) (param p 4) (param p 5 % 256) true
          m.turnouts)
        m
    else if params == 3 && param p 1 == hk vpin_word
    then made_turnouts (Turnouts.create_vpin n (param p 2) true m.turnouts) m
    else if leb 3 params && param p 1 == hk dcc_word
    then create_dcc_turnout params p m
    else if params == 3
    then (if ltb (param p 1) 512 && ltb (param p 2) 4
        then made_turnouts (Turnouts.create_dcc n (param p 1) (param p 2) m.turnouts) m
        else (false, m))
    else if params == 4
    then made_turnouts
        (Turnouts.create_servo n (param p 1) (param p 2) (param p 3) 1 true m.turnouts) m
    else (false, m)

-- Whether `printAll` finds a turnout that is not hidden, and the list.
unfoldable pub list_turnouts : List Turnout → Bool × Station → Bool × Station
list_turnouts [] r = r
list_turnouts (t ∷ ts) (got_one, m) =
    list_turnouts ts
      (if t.hidden then (got_one, m) else (true, reply (thrown_reply t.id (not t.closed)) m))

unfoldable pub parse_t : Config → ℕ → List ℕ → Station → Bool × Station
unfolding switch_turnout create_turnout list_turnouts
parse_t c params p m =
    let (removed, turnouts) = Turnouts.remove (param p 0) m.turnouts in
    if params == 0
    then list_turnouts m.turnouts.all (false, m)
    else if params == 1
    then answer removed (record m { turnouts = turnouts })
    else if params == 2
    then switch_turnout c p m
    else create_turnout params p m

-- The case of T in `parseOne`.
abbrev pub dispatch_turnout : Config → ℕ → ℕ → List ℕ → Station → Option (Bool × Station)
dispatch_turnout c opcode params p m = if opcode == 84 then some (parse_t c params p m) else none

-- The cases of Z and S, with that of T; another opcode is not of this part.
unfoldable pub dispatch : Config → ℕ → ℕ → List ℕ → Station → Option (Bool × Station)
unfolding parse_z parse_s
dispatch c opcode params p m =
    if opcode == 90
    then some (parse_z c params p m)
    else if opcode == 83
    then some (parse_s c params p m)
    else dispatch_turnout c opcode params p m

abbrev pub finished : Bool × Station → Station
finished (ok, m) = if ok then m else reply refused_reply m

-- `strip any number of < or spaces`.
unfoldable pub strip : List ℕ → List ℕ
strip [] = []
strip (b ∷ bs) = elim (b == 60 || b == 32) [ true ↦ strip bs | false ↦ b ∷ bs ]

abbrev pub opcode_of : List ℕ → ℕ
opcode_of [] = 0
opcode_of (b ∷ bs) = b

-- `parseOne` on a command with one of these opcodes, once it is stripped; there is no result for
-- another opcode, or if `splitValues` has none.
unfoldable pub parse_stripped : Config → List ℕ → Station → Option Station
parse_stripped c command m =
    elim (split_values (opcode_of command == 77 || opcode_of command == 80) command) [
      | none ↦ none
      | some (broken, s) ↦ some (reply refused_reply m)
      | some (overrun, s) ↦ none
      | some (done params, s) ↦
          if leb max_command_params params
          then some (reply refused_reply m)
          else elim (dispatch c (opcode_of command) params s.result m) [
            | none ↦ none
            | some r ↦ some (finished r)
          ]
    ]

unfoldable pub parse_one : Config → List ℕ → Station → Option Station
unfolding strip parse_stripped
parse_one c bytes m = parse_stripped c (strip bytes) m
