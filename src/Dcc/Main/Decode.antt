-- ===== src/Dcc/Main/Decode.antt =====
-- What decoders read in the packets of `setAccessory`, `setExtendedAccessory`, `writeCVByteMain`
-- and `writeCVBitMain`.
use dccexpress_mini.Prelude.{
  ℕ, ◌+◌, ◌-◌, ◌*◌, ◌/◌, ◌%◌, ◌≤◌, ◌<◌, ◌≡◌, refl, ap, ◌∙◌, Bool, true, false, ◌&&◌, Option, none,
  some, List, [], ◌∷◌, ◌++◌, bit_and, bit_or, bit_xor, ltb, ◌==◌, ==_iff, ◌⊎◌, ◌^◌, if◌then◌else◌,
  arith,
}
use dccexpress_mini.Prelude.Bits.{
  each_below, each_below_sound, bit_and_3, bit_and_7, bit_and_31, bit_and_63, bit_and_511,
  bit_or_low2,
}
use dccexpress_mini.Dcc.State.{Dcc, Event, schedule_main, activate_event, emit}
use dccexpress_mini.Dcc.Packets.{
  accessory_packet, accessory_byte, extended_accessory_packet, cv1, cv2, write_byte_main,
  write_bit_main, write_bit, bit_on, bit_off, write_cv_byte_packet, write_cv_bit_packet,
}
use dccexpress_mini.Dcc.Address.{Target, target, decode_address, decode_address-address_bytes}
use dccexpress_mini.Dcc.Main.{set_accessory, accessory_on, accessory_off}

-- 10AAAAAA 1AAACPPG, the high address bits in ones' complement: address, port, gate, on.
pub decode_accessory : List ℕ → Option (ℕ × ℕ × Bool × Bool)
decode_accessory (a ∷ b ∷ []) =
    if a / 64 == 2 && b / 128 == 1
    then some ((7 - b / 16 % 8) * 64 + a % 64, b / 2 % 4, (b % 2 == 1), (b / 8 % 2 == 1))
    else none
decode_accessory _ = none

xor_table :
    each_below 128 (λ x. bit_xor x 0xf8 == 128 + (7 - x / 16) * 16 + (1 - x / 8 % 2) * 8 + x % 8)
    ≡ true
unfolding each_below
xor_table = refl

xor_f8 : (x : ℕ) → x < 128 → bit_xor x 0xf8 ≡ 128 + (7 - x / 16) * 16 + (1 - x / 8 % 2) * 8 + x % 8
xor_f8 x h = (==_iff _ _).0 (each_below_sound 128 _ x xor_table h)

off_table : each_below 256 (λ y. bit_and y 0xf7 == y - y / 8 % 2 * 8) ≡ true
unfolding each_below
off_table = refl

and_f7 : (y : ℕ) → y < 256 → bit_and y 0xf7 ≡ y - y / 8 % 2 * 8
and_f7 y h = (==_iff _ _).0 (each_below_sound 256 _ y off_table h)

accessory_byte_lem :
    (address port : ℕ) (gate : Bool)
    → accessory_byte address port gate
      ≡ 128 + (7 - address / 64 % 8) * 16 + 8 + port % 4 * 2 + (if gate then 1 else 0)
unfolding accessory_byte
accessory_byte_lem address port true =
    omega (arith, xor_f8 (address / 64 % 8 * 16 + port % 4 * 2 + 1) (omega arith))
accessory_byte_lem address port false =
    omega (arith, xor_f8 (address / 64 % 8 * 16 + port % 4 * 2 + 0) (omega arith))

-- An accessory decoder reads in either packet the address, port and gate that were given, and
-- whether the output is to be switched on.
decode_accessory-accessory_packet :
    (address port : ℕ) (gate on : Bool)
    → address < 512
    → port < 4
    → decode_accessory (accessory_packet address port gate on) ≡ some (address, port, gate, on)
unfolding decode_accessory accessory_packet
decode_accessory-accessory_packet address port true true h k =
    rw (accessory_byte_lem address port true) (ground arith)
decode_accessory-accessory_packet address port false true h k =
    rw (accessory_byte_lem address port false) (ground arith)
decode_accessory-accessory_packet address port true false h k =
    let byte : ℕ = 128 + (7 - address / 64 % 8) * 16 + 8 + port % 4 * 2 + 1 in
    rw (accessory_byte_lem address port true, and_f7 byte (omega arith)) (ground arith)
decode_accessory-accessory_packet address port false false h k =
    let byte : ℕ = 128 + (7 - address / 64 % 8) * 16 + 8 + port % 4 * 2 + 0 in
    rw (accessory_byte_lem address port false, and_f7 byte (omega arith)) (ground arith)

-- What `setAccessory` sends, the newest first: nothing for an address or a port out of range, the
-- off packet alone for 0, the on packet and the event for 1, and both for more.
events-set_accessory :
    (address port : ℕ) (gate : Bool) (onoff : ℕ) (d : Dcc)
    → let on : List Event =
        activate_event (address * 4 + port) gate
        ∷ schedule_main (accessory_packet address port gate true) 3
        ∷ [] in
      let off : List Event = schedule_main (accessory_packet address port gate false) 3 ∷ [] in
      (set_accessory address port gate onoff d).events ≡ (
        if ltb address 512 && ltb port 4
        then (if onoff == 0 then off else if onoff == 1 then on else off ++ on) ++ d.events
        else d.events)
unfolding set_accessory accessory_on accessory_off emit
events-set_accessory address port gate onoff d =
    ground (arith, bit_and_511 address, bit_and_3 port, bit_or_low2 address port)

-- 10AAAAAA 0AAA0AA1 000XXXXX, the highest three address bits in ones' complement.
pub decode_extended : List ℕ → Option (ℕ × ℕ)
decode_extended (a ∷ b ∷ x ∷ []) =
    if a / 64 == 2 && b / 128 == 0 && b / 8 % 2 == 0 && b % 2 == 1 && ltb x 32
    then some ((7 - b / 16 % 8) * 256 + a % 64 * 4 + b / 2 % 4, x)
    else none
decode_extended _ = none

or_80_table : each_below 64 (λ x. bit_or 0x80 x == 128 + x) ≡ true
unfolding each_below
or_80_table = refl

or_80 : (x : ℕ) → x < 64 → bit_or 0x80 x ≡ 128 + x
or_80 x h = (==_iff _ _).0 (each_below_sound 64 _ x or_80_table h)

fields_table :
    each_below 8
      (λ m. each_below 4 (λ n. bit_or (bit_or 0x01 (m * 16)) (n * 2) == m * 16 + n * 2 + 1))
    ≡ true
unfolding each_below
fields_table = refl

or_fields : (m n : ℕ) → m < 8 → n < 4 → bit_or (bit_or 0x01 (m * 16)) (n * 2) ≡ m * 16 + n * 2 + 1
or_fields m n h k =
    (==_iff _ _).0 (each_below_sound 4 _ n (each_below_sound 8 _ m fields_table h) k)

extended_byte0 : (a : ℕ) → bit_or 0x80 (bit_and (a / 4) 0x3f) ≡ 128 + a / 4 % 64
extended_byte0 a = rw (bit_and_63 (a / 4)) (or_80 (a / 4 % 64) (omega arith))

extended_byte1 :
    (a : ℕ)
    → a < 2048
    → bit_or (bit_or 0x01 (bit_and (0xffff_ffff - a / 256) 0x07 * 16)) (bit_and a 0x03 * 2)
      ≡ (7 - a / 256) * 16 + a % 4 * 2 + 1
extended_byte1 a h =
    let m : bit_and (0xffff_ffff - a / 256) 0x07 ≡ 7 - a / 256 =
      omega (arith, bit_and_7 (0xffff_ffff - a / 256)) in
    rw (m, bit_and_3 a) (or_fields (7 - a / 256) (a % 4) (omega arith) (omega arith))

-- The packet of an extended accessory for the user address a, from -3 to 2044 as an `int16_t`, and
-- an aspect below 32 carries the address a + 3 of the standard and the aspect.
decode_extended-packet :
    (address value : ℕ)
    → (address ≤ 2044) ⊎ (0xfffd ≤ address)
    → address < 2 ^ 16
    → value < 32
    → (bytes : List ℕ) × (extended_accessory_packet address value ≡ some bytes)
      × (decode_extended bytes ≡ some ((address + 3) % 2 ^ 16, value))
unfolding decode_extended extended_accessory_packet
decode_extended-packet address value h k l =
    let a : ℕ = (address + 3) % 0x1_0000 in
    let small : a < 2048 = omega arith in
    (
      bit_or 0x80 (bit_and (a / 4) 0x3f)
          ∷ bit_or (bit_or 0x01 (bit_and (0xffff_ffff - a / 256) 0x07 * 16)) (bit_and a 0x03 * 2)
          ∷ value
          ∷ [],
      ground (arith, bit_and_31 value),
      rw (extended_byte0 a, extended_byte1 a small) (ground arith),
    )

-- An extended accessory address above 2044 or below -3, as an `int16_t`, and an aspect of 32 or
-- more are refused: there is no packet.
extended_accessory_packet-none :
    (address value : ℕ)
    → address < 2 ^ 16
    → ((2044 < address) × (address < 0xfffd)) ⊎ (32 ≤ value)
    → extended_accessory_packet address value ≡ none
unfolding extended_accessory_packet
extended_accessory_packet-none address value h k = ground (arith, bit_and_31 value)

-- An instruction for a CV on the main track, 1110KKVV VVVVVVVV and a byte: its kind, the CV from 1
-- on, and the byte.
pub decode_cv : List ℕ → Option (ℕ × ℕ × ℕ)
decode_cv (a ∷ b ∷ x ∷ []) = if a / 16 == 14 then some (a / 4 % 4, a % 4 * 256 + b + 1, x) else none
decode_cv _ = none

cv1_table : each_below 4 (λ x. bit_or x 0xec == 0xec + x && bit_or x 0xe8 == 0xe8 + x) ≡ true
unfolding each_below
cv1_table = refl

cv1_byte : (cv : ℕ) → 1 ≤ cv → cv ≤ 1024 → cv1 write_byte_main cv ≡ 0xec + (cv - 1) / 256
unfolding cv1
cv1_byte cv h k =
    let e : (cv + 0xffff_ffff) % 0x1_0000_0000 / 256 % 256 % 4 ≡ (cv - 1) / 256 = omega arith in
    rw (bit_and_3, e) (ground (arith, each_below_sound 4 _ ((cv - 1) / 256) cv1_table))

cv1_bit : (cv : ℕ) → 1 ≤ cv → cv ≤ 1024 → cv1 write_bit_main cv ≡ 0xe8 + (cv - 1) / 256
unfolding cv1
cv1_bit cv h k =
    let e : (cv + 0xffff_ffff) % 0x1_0000_0000 / 256 % 256 % 4 ≡ (cv - 1) / 256 = omega arith in
    rw (bit_and_3, e) (ground (arith, each_below_sound 4 _ ((cv - 1) / 256) cv1_table))

read_cv : Option (Target × List ℕ) → Option (Target × ℕ × ℕ × ℕ)
read_cv none = none
read_cv (some (t, rest)) = elim (decode_cv rest) [
  | none ↦ none
  | some (kind, cv, x) ↦ some (t, kind, cv, x)
]

pub decode_main_cv : List ℕ → Option (Target × ℕ × ℕ × ℕ)
unfolding read_cv
decode_main_cv bytes = read_cv (decode_address bytes)

bit_table :
    each_below 8
      (λ n. bit_or (bit_or 0xf0 0x08) n == 0xf8 + n && bit_or (bit_or 0xf0 0x00) n == 0xf0 + n)
    ≡ true
unfolding each_below
bit_table = refl

bit_byte :
    (on : Bool) (n : ℕ)
    → bit_or (bit_or write_bit (if on then bit_on else bit_off)) (n % 8)
      ≡ 0xf0 + (if on then 8 else 0) + n % 8
bit_byte true n = ground (arith, each_below_sound 8 _ (n % 8) bit_table (omega arith))
bit_byte false n = ground (arith, each_below_sound 8 _ (n % 8) bit_table (omega arith))

decode_cv_byte :
    (cv value : ℕ)
    → 1 ≤ cv
    → cv ≤ 1024
    → decode_cv (cv1 write_byte_main cv ∷ cv2 cv ∷ value ∷ []) ≡ some (3, cv, value)
unfolding decode_cv cv2
decode_cv_byte cv value h k = rw (cv1_byte cv h k) (ground arith)

decode_cv_bit :
    (cv n : ℕ) (on : Bool)
    → 1 ≤ cv
    → cv ≤ 1024
    → decode_cv (
        cv1 write_bit_main cv
        ∷ cv2 cv
        ∷ bit_or (bit_or write_bit (if on then bit_on else bit_off)) (n % 8)
        ∷ [])
      ≡ some (2, cv, 0xf0 + (if on then 8 else 0) + n % 8)
unfolding decode_cv cv2
decode_cv_bit cv n on h k = rw (cv1_bit cv h k, bit_byte on n) (ground arith)

-- The packets of `writeCVByteMain` and `writeCVBitMain` carry the loco's address, the CV from 1 to
-- 1024, and the value to write (kind 3), or the number of the bit and its value (kind 2).
decode_main_cv-packets :
    (cab cv value bit_num : ℕ) (on : Bool)
    → cab ≤ 10239
    → 1 ≤ cv
    → cv ≤ 1024
    → (decode_main_cv (write_cv_byte_packet cab cv value) ≡ some (target cab, 3, cv, value))
      × (decode_main_cv (write_cv_bit_packet cab cv bit_num on)
          ≡ some (target cab, 2, cv, 0xf0 + (if on then 8 else 0) + bit_num % 8))
unfolding decode_main_cv read_cv write_cv_byte_packet write_cv_bit_packet
decode_main_cv-packets cab cv value bit_num on h k l = (
  ap read_cv (decode_address-address_bytes cab _ h) ∙ rw (decode_cv_byte cv value k l, read_cv),
  ap read_cv (decode_address-address_bytes cab _ h) ∙ rw (decode_cv_bit cv bit_num on k l, read_cv),
)
