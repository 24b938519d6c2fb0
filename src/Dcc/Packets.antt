-- ===== src/Dcc/Packets.antt =====
-- The packets of DCC.cpp, byte by byte as the code builds them.
use dccexpress_mini.Prelude.{
  ℕ, ◌+◌, ◌-◌, ◌*◌, ◌/◌, ◌%◌, Bool, ◌&&◌, ◌||◌, not, Option, none, some, List, [], ◌∷◌, ◌++◌,
  bit_and, bit_or, bit_xor, ltb, leb, ◌==◌, if◌then◌else◌,
}
use dccexpress_mini.Dcc.State.{is_negative16, high_byte, low_byte}

abbrev pub highest_short_addr : ℕ
highest_short_addr = 127

abbrev pub set_speed : ℕ
set_speed = 0x3f

abbrev pub write_byte_main : ℕ
write_byte_main = 0xec

abbrev pub write_bit_main : ℕ
write_bit_main = 0xe8

abbrev pub write_bit : ℕ
write_bit = 0xf0

abbrev pub bit_on : ℕ
bit_on = 0x08

abbrev pub bit_off : ℕ
bit_off = 0x00

-- The one or two address bytes with which a packet for a loco starts.
unfoldable pub address_bytes : ℕ → List ℕ
address_bytes cab =
    if ltb highest_short_addr cab && ltb cab 0x8000_0000
    then bit_or (high_byte cab) 0xc0 ∷ low_byte cab ∷ []
    else low_byte cab ∷ []

-- The speed and direction byte of a 28 step packet.
unfoldable pub speed_byte_28 : ℕ → ℕ
speed_byte_28 speed_code =
    let speed128 : ℕ = bit_and speed_code 0x7f in
    let speed28 : ℕ = (speed128 * 10 + 36) / 46 % 256 in
    let code28 : ℕ =
      if speed128 == 0 || speed128 == 1
      then speed128
      else bit_or ((speed28 + 3) / 2) (if bit_and speed28 1 == 0 then 0b0001_0000 else 0) in
    bit_or (bit_or 0b0100_0000 code28) (if bit_and speed_code 0x80 == 0 then 0 else 0b0010_0000)

-- The packet of `setThrottle2`.
unfoldable pub throttle_packet : ℕ → ℕ → ℕ → List ℕ
throttle_packet speedsteps cab speed_code =
    address_bytes cab
    ++ (if leb speedsteps 28 then speed_byte_28 speed_code ∷ [] else set_speed ∷ speed_code ∷ [])

-- The packet of `setFunctionInternal`.
unfoldable pub function_packet : ℕ → ℕ → ℕ → List ℕ
function_packet cab byte1 byte2 =
    address_bytes cab ++ ((if byte1 == 0 then [] else byte1 ∷ []) ++ (byte2 ∷ []))

-- The packet of `setFn` for a function above 28.
unfoldable pub binary_state_packet : ℕ → ℕ → Bool → List ℕ
binary_state_packet cab function_number on =
    address_bytes cab
    ++ (if leb function_number 127
        then 0b1101_1101 ∷ bit_or function_number (if on then 0x80 else 0) ∷ []
        else 0b1100_0000
          ∷ bit_or (bit_and function_number 0x7f) (if on then 0x80 else 0)
          ∷ (function_number / 128 % 256)
          ∷ [])

-- The second byte of `setAccessory`'s packet, to switch on; and off.
unfoldable pub accessory_byte : ℕ → ℕ → Bool → ℕ
accessory_byte address port gate =
    bit_xor (address / 64 % 8 * 16 + port % 4 * 2 + (if gate then 1 else 0)) 0xf8

unfoldable pub accessory_packet : ℕ → ℕ → Bool → Bool → List ℕ
accessory_packet address port gate on =
    (address % 64 + 128)
    ∷ (if on
        then accessory_byte address port gate
        else bit_and (accessory_byte address port gate) 0xf7)
    ∷ []

-- The packet of `setExtendedAccessory`, or `none` for values that it refuses. Both are `int16_t`.
unfoldable pub extended_accessory_packet : ℕ → ℕ → Option (List ℕ)
extended_accessory_packet address value =
    if (ltb 2044 address && not (is_negative16 address))
      || (is_negative16 address && ltb address 0xfffd)
    then none
    else if not (value == bit_and value 0x1f)
    then none
    else let a : ℕ = (address + 3) % 0x1_0000 in
      some (
        bit_or 0x80 (bit_and (a / 4) 0x3f)
        ∷ bit_or (bit_or 0x01 (bit_and (0xffff_ffff - a / 256) 0x07 * 16)) (bit_and a 0x03 * 2)
        ∷ value
        ∷ [])

-- `cv1` and `cv2`: the CV number, from 0 on, in ten bits. CV 0 wraps to -1.
unfoldable pub cv1 : ℕ → ℕ → ℕ
cv1 opcode cv = bit_or (bit_and (high_byte ((cv + 0xffff_ffff) % 0x1_0000_0000)) 0x03) opcode

unfoldable pub cv2 : ℕ → ℕ
cv2 cv = low_byte ((cv + 0xffff_ffff) % 0x1_0000_0000)

-- The packet of `writeCVByteMain`.
unfoldable pub write_cv_byte_packet : ℕ → ℕ → ℕ → List ℕ
write_cv_byte_packet cab cv value =
    address_bytes cab ++ (cv1 write_byte_main cv ∷ cv2 cv ∷ value ∷ [])

-- The packet of `writeCVBitMain`.
unfoldable pub write_cv_bit_packet : ℕ → ℕ → ℕ → Bool → List ℕ
write_cv_bit_packet cab cv bit_num value =
    address_bytes cab
    ++ (cv1 write_bit_main cv
        ∷ cv2 cv
        ∷ bit_or (bit_or write_bit (if value then bit_on else bit_off)) (bit_num % 8)
        ∷ [])
