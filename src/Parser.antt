-- ===== src/Parser.antt =====
-- DCCEXParser.cpp (CommandStation-EX): `splitValues`, which cuts a command into its parameters, and
-- the hash of keywords in KeywordHasher.h. The code is the one with HAS_ENOUGH_MEMORY, which reads
-- quoted strings.
-- The buffer from `cmd` on is a list of bytes without the terminator: behind its end is a 0.
pub mod Bounds
pub mod Fuel
pub mod Numbers
pub mod Reading
pub mod Words
mod Tests
use dccexpress_mini.Prelude.{
  ℕ, zero, suc, ◌+◌, ◌-◌, ◌*◌, ◌%◌, bit_xor, Bool, true, false, ◌&&◌, ◌||◌, not, Option, none, some,
  List, [], ◌∷◌, ltb, leb, ◌==◌, if◌then◌else◌, set, replicate, length,
}

abbrev pub max_command_params : ℕ
max_command_params = 10

-- The states 1 to 4 of the machine.
pub data State : Type 0 where
  blank : State
  sign : State
  building : State
  text : State

-- What `splitValues` returns: the number of parameters, -1, or no defined result, when a write or a
-- read is out of bounds.
pub data Outcome : Type 0 where
  done : ℕ → Outcome
  broken : Outcome
  overrun : Outcome

-- The local variables: `position` is `remainingCmd - cmd`, `remaining` the bytes from there, and
-- `cleared` the positions where a 0 was written into the buffer.
pub record Machine : Type 0 where
  pub state : State
  pub count : ℕ
  pub running : ℕ
  pub negative : Bool
  pub position : ℕ
  pub remaining : List ℕ
  pub result : List ℕ
  pub cleared : List ℕ

pub data Next : Type 0 where
  go : Machine → Next
  stop : Outcome → Machine → Next

abbrev pub head_or_end : List ℕ → ℕ
head_or_end [] = 0
head_or_end (c ∷ cs) = c

abbrev pub rest : List ℕ → List ℕ
rest [] = []
rest (c ∷ cs) = cs

-- `remainingCmd++`.
abbrev pub advance : Machine → Machine
advance m = record m { position = m.position + 1; remaining = rest m.remaining }

abbrev pub clear_here : Machine → Machine
clear_here m = record m { cleared = m.position ∷ m.cleared }

abbrev pub is_digit : ℕ → Bool
is_digit c = leb 48 c && leb c 57

abbrev pub upper : ℕ → ℕ
upper c = if leb 97 c && leb c 122 then c - 97 + 65 else c

abbrev pub is_keyword : ℕ → Bool
is_keyword c = c == 95 || (leb 65 c && leb c 90)

abbrev pub is_hex : ℕ → Bool
is_hex c = leb 65 c && leb c 70

unfoldable pub digit_value : Bool → ℕ → ℕ → ℕ
digit_value usehex running d = ((if usehex then 16 else 10) * running + d) % 0x1_0000

unfoldable pub hash_value : ℕ → ℕ → ℕ
hash_value running c = bit_xor (running * 33 % 0x1_0000) c

-- A parameter is the 16-bit pattern of its value.
unfoldable pub signed : Bool → ℕ → ℕ
signed negative running = if negative then (0x1_0000 - running) % 0x1_0000 else running % 0x1_0000

-- State 1.
unfoldable pub skip_blank : ℕ → Machine → Next
skip_blank hot m =
    if hot == 32
    then go (advance m)
    else if hot == 0
    then stop broken m
    else if hot == 62
    then stop (done m.count) (clear_here m)
    else go (record m { state = sign })

-- The start of a string: it takes two parameters, and there may be room for one only.
unfoldable pub begin_text : Machine → Next
begin_text m =
    if ltb (m.count + 1) max_command_params
    then go (
        advance (record m {
          result = set (set m.result m.count 0x7777) (m.count + 1) ((m.position + 1) % 0x1_0000);
          count = m.count + 2;
          state = text;
        }))
    else stop overrun m

-- State 2.
unfoldable pub check_sign : ℕ → Machine → Next
unfolding begin_text
check_sign hot m =
    if hot == 34
    then begin_text m
    else if hot == 45
    then go (advance (record m { negative = true; running = 0; state = building }))
    else go (record m { negative = false; running = 0; state = building })

abbrev pub build : ℕ → Machine → Machine
build running m = advance (record m { running = running })

-- The write `result[n] = x`, in a machine that goes on after it.
abbrev pub store : ℕ → ℕ → Machine → Next
store n x m =
    if ltb n max_command_params then go (record m { result = set m.result n x }) else stop overrun m

-- The end of a parameter.
abbrev pub finish : Machine → Next
finish m =
    store m.count (signed m.negative m.running) (record m { count = m.count + 1; state = blank })

-- State 3.
unfoldable pub build_parameter : Bool → ℕ → Machine → Next
unfolding digit_value hash_value signed
build_parameter usehex hot m =
    if is_digit hot
    then go (build (digit_value usehex m.running (hot - 48)) m)
    else if usehex && is_hex (upper hot)
    then go (build (digit_value true m.running (upper hot - 65 + 10)) m)
    else if is_keyword (upper hot)
    then go (build (hash_value m.running (upper hot)) m)
    else finish m

-- State 4.
unfoldable pub skip_text : ℕ → Machine → Next
skip_text hot m =
    if hot == 0
    then stop broken m
    else if hot == 34
    then go (advance (clear_here (record m { state = blank })))
    else go (advance m)

-- One turn of the loop.
unfoldable pub turn : Bool → State → ℕ → Machine → Next
unfolding skip_blank check_sign build_parameter skip_text
turn usehex blank hot m = skip_blank hot m
turn usehex sign hot m = check_sign hot m
turn usehex building hot m = build_parameter usehex hot m
turn usehex text hot m = skip_text hot m

unfoldable pub step : Bool → Machine → Next
unfolding turn
step usehex m =
    if ltb m.count max_command_params
    then turn usehex m.state (head_or_end m.remaining) m
    else stop (done m.count) m

-- The loop, for a number of turns at most.
unfoldable pub run : ℕ → Bool → Machine → Option (Outcome × Machine)
unfolding step
run zero usehex m = none
run (suc n) usehex m = elim (step usehex m) [ go m' ↦ run n usehex m' | stop o m' ↦ some (o, m') ]

abbrev pub start : List ℕ → Machine
start bytes = record {
  state = blank;
  count = 0;
  running = 0;
  negative = false;
  position = 1;
  remaining = bytes;
  result = replicate max_command_params 0;
  cleared = [];
}

abbrev pub fuel : List ℕ → ℕ
fuel bytes = 3 * length bytes + 33

-- The command begins with its opcode. If it has no byte at all, the code reads behind the
-- terminator.
unfoldable pub split_values : Bool → List ℕ → Option (Outcome × Machine)
unfolding run
split_values usehex [] = some (overrun, start [])
split_values usehex (opcode ∷ bytes) = run (fuel bytes) usehex (start bytes)

-- `CompiletimeKeywordHasher`, with the value so far.
unfoldable pub compiletime_keyword_hasher : List ℕ → ℕ → ℕ
unfolding hash_value digit_value
compiletime_keyword_hasher [] running = running
compiletime_keyword_hasher (c ∷ cs) running =
    compiletime_keyword_hasher cs
      (if is_digit c then digit_value false running (c - 48) else hash_value running c)
