-- ===== src/Dcc/Address.antt =====
-- What a decoder reads in the packets for locos: the address, the speed and the functions.
use dccexpress_mini.Prelude.{
  ℕ, ◌+◌, ◌-◌, ◌*◌, ◌/◌, ◌%◌, ◌≤◌, ◌<◌, ◌≡◌, refl, ap, ◌∙◌, Bool, true, false, ◌&&◌, Option, none,
  some, List, [], ◌∷◌, ◌++◌, bit_or, ltb, leb, ◌==◌, ==_iff, Bool-cases, inl, inr, if◌then◌else◌,
  arith,
}
use dccexpress_mini.Prelude.Bits.{each_below, each_below_sound}
use dccexpress_mini.Dcc.Packets.{address_bytes, speed_byte_28, throttle_packet, set_speed}

-- The address of a multi-function decoder and the rest of a packet, by S-9.2.1: a first byte
-- 0AAAAAAA is a short address, 11AAAAAA (but 0xff) starts a long one, 0 is for all decoders.
pub data Target : Type 0 where
  everyone : Target
  short : ℕ → Target
  long : ℕ → Target

decode_long : ℕ → List ℕ → Option (Target × List ℕ)
decode_long h [] = none
decode_long h (b ∷ rest) = some (long (h * 256 + b), rest)

pub decode_address : List ℕ → Option (Target × List ℕ)
unfolding decode_long
decode_address [] = none
decode_address (a ∷ rest) =
    if a == 0
    then some (everyone, rest)
    else if ltb a 128
    then some (short a, rest)
    else if leb 192 a && ltb a 232
    then decode_long (a - 192) rest
    else none

-- The decoders that a cab number means.
abbrev pub target : ℕ → Target
target cab = if cab == 0 then everyone else if ltb cab 128 then short cab else long cab

or_table : each_below 64 (λ h. bit_or h 0xc0 == h + 192) ≡ true
unfolding each_below
or_table = refl

or_c0 : (h : ℕ) → h < 64 → bit_or h 0xc0 ≡ h + 192
or_c0 h l = (==_iff (bit_or h 0xc0) (h + 192)).0 (each_below_sound 64 _ h or_table l)

-- A decoder finds the cab number in the address bytes, whatever follows them, for every address
-- that the standard has: short up to 127, long up to 10239.
pub decode_address-address_bytes :
    (cab : ℕ) (rest : List ℕ)
    → cab ≤ 10239
    → decode_address (address_bytes cab ++ rest) ≡ some (target cab, rest)
unfolding decode_address address_bytes
decode_address-address_bytes cab rest h = ground (arith, or_c0 (cab / 256 % 256))

-- What a packet asks of the motor.
pub data Motion : Type 0 where
  halt : Motion
  emergency : Motion
  step : ℕ → Motion

-- Baseline packets, 01DCSSSS: the steps are counted by SSSSC. Advanced packets, 0x3f DSSSSSSS.
pub decode_speed : List ℕ → Option (Bool × Motion)
decode_speed (b ∷ []) =
    if b / 64 == 1
    then some (
      b / 32 % 2 == 1,
      (let n : ℕ = b % 16 * 2 + b / 16 % 2 in
          if ltb n 2 then halt else if ltb n 4 then emergency else step (n - 3)),
    )
    else none
decode_speed (i ∷ d ∷ []) =
    if i == 0x3f
    then some (
      d / 128 == 1,
      (if d % 128 == 0 then halt else if d % 128 == 1 then emergency else step (d % 128 - 1)),
    )
    else none
decode_speed _ = none

-- The motion that a speed code asks for, at a number of speed steps.
abbrev pub motion : ℕ → ℕ → Motion
motion speedsteps s =
    if s == 0
    then halt
    else if s == 1
    then emergency
    else step (if leb speedsteps 28 then (s * 10 + 36) / 46 else s - 1)

abbrev moves_as : Motion → ℕ → Bool
moves_as halt s = s == 0
moves_as emergency s = s == 1
moves_as (step n) s = ltb 1 s && n == (s * 10 + 36) / 46

abbrev decodes_as : Option (Bool × Motion) → ℕ → Bool
decodes_as none c = false
decodes_as (some (true, m)) c = leb 128 c && moves_as m (c % 128)
decodes_as (some (false, m)) c = ltb c 128 && moves_as m (c % 128)

decode_28_table : each_below 256 (λ c. decodes_as (decode_speed (speed_byte_28 c ∷ [])) c) ≡ true
unfolding each_below decode_speed speed_byte_28
decode_28_table = refl

moves_as_sound : (m : Motion) (s : ℕ) → moves_as m s ≡ true → m ≡ motion 28 s
moves_as_sound halt s h = ground arith
moves_as_sound emergency s h = ground arith
moves_as_sound (step n) s h = ground arith

decodes_as_sound :
    (o : Option (Bool × Motion)) (c : ℕ)
    → decodes_as o c ≡ true
    → o ≡ some (leb 128 c, motion 28 (c % 128))
decodes_as_sound none c h = cc
decodes_as_sound (some (true, m)) c h = ground (arith, moves_as_sound m (c % 128))
decodes_as_sound (some (false, m)) c h = ground (arith, moves_as_sound m (c % 128))

decode_28 :
    (c : ℕ) → c < 256 → decode_speed (speed_byte_28 c ∷ []) ≡ some (leb 128 c, motion 28 (c % 128))
decode_28 c h = decodes_as_sound _ c (each_below_sound 256 _ c decode_28_table h)

decode_128 :
    (c : ℕ) → c < 256 → decode_speed (set_speed ∷ c ∷ []) ≡ some (leb 128 c, motion 128 (c % 128))
unfolding decode_speed
decode_128 c h = ground arith

read_speed : Option (Target × List ℕ) → Option (Target × Bool × Motion)
read_speed none = none
read_speed (some (t, rest)) = elim (decode_speed rest) [
  | none ↦ none
  | some (d, m) ↦ some (t, d, m)
]

pub decode_throttle : List ℕ → Option (Target × Bool × Motion)
unfolding read_speed
decode_throttle bytes = read_speed (decode_address bytes)

speed_part :
    (speedsteps c : ℕ)
    → c < 256
    → decode_speed (if leb speedsteps 28 then speed_byte_28 c ∷ [] else set_speed ∷ c ∷ [])
      ≡ some (leb 128 c, motion speedsteps (c % 128))
speed_part speedsteps c h = elim (Bool-cases (leb speedsteps 28)) [
  | inl e ↦ rw e (decode_28 c h)
  | inr e ↦ rw e (decode_128 c h)
]

-- The speed packets say what they are to say, in either format: every decoder that listens to the
-- cab number reads in them the direction of the speed code, and the motion of its seven low bits.
pub decode_throttle-throttle_packet :
    (speedsteps cab code : ℕ)
    → cab ≤ 10239
    → code < 256
    → decode_throttle (throttle_packet speedsteps cab code)
      ≡ some (target cab, leb 128 code, motion speedsteps (code % 128))
unfolding decode_throttle throttle_packet read_speed
decode_throttle-throttle_packet speedsteps cab code h l =
    ap read_speed (decode_address-address_bytes cab _ h)
    ∙ rw (speed_part speedsteps code l, read_speed)

motion_28_steps :
    (s s' : ℕ)
    → 2 ≤ s
    → s ≤ s'
    → s' ≤ 127
    → (n : ℕ) × (n' : ℕ) × (motion 28 s ≡ step n)
      × (motion 28 s' ≡ step n')
      × (1 ≤ n)
      × (n ≤ n')
      × (n' ≤ 28)
motion_28_steps s s' h l u = (
  (s * 10 + 36) / 46,
  (s' * 10 + 36) / 46,
  ground arith,
  ground arith,
  omega arith,
  omega arith,
  omega arith,
)

-- In 28 steps, the packets of the speeds from 2 to 127 are read as steps from 1 to 28, and a higher
-- speed is never a lower step.
throttle_packet-steps :
    (cab s s' : ℕ)
    → cab ≤ 10239
    → 2 ≤ s
    → s ≤ s'
    → s' ≤ 127
    → (n : ℕ) × (n' : ℕ) × (decode_throttle (throttle_packet 28 cab s)
        ≡ some (target cab, false, step n))
      × (decode_throttle (throttle_packet 28 cab s') ≡ some (target cab, false, step n'))
      × (1 ≤ n)
      × (n ≤ n')
      × (n' ≤ 28)
throttle_packet-steps cab s s' h l m u =
    let (n, n', e, e', low, le, high) = motion_28_steps s s' l m u in
    (n, n', moves s n (omega arith) e, moves s' n' u e', low, le, high)
  where
    moves :
        (s n : ℕ)
        → s ≤ 127
        → motion 28 s ≡ step n
        → decode_throttle (throttle_packet 28 cab s) ≡ some (target cab, false, step n)
    moves s n k e =
        let forward : leb 128 s ≡ false = ground arith in
        let seven : s % 128 ≡ s = omega arith in
        decode_throttle-throttle_packet 28 cab s h (omega arith)
        ∙ ap (λ d. some (target cab, d, motion 28 (s % 128))) forward
        ∙ ap (λ k. some (target cab, false, motion 28 k)) seven
        ∙ ap (λ k. some (target cab, false, k)) e
