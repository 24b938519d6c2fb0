-- ===== src/RingStream.antt =====
-- RingStream.cpp and RingStream.h (CommandStation-EX): the ring in which the replies to network
-- clients are collected, each behind the client's number and its length.
-- This is the code of a 32-bit processor, where `printFlash` prints as any text, and no address is
-- ever inserted: `_flashInsert` stays 0. The lengths fit an `int`.
pub mod Queue
pub mod Print
pub mod Message
pub mod Reading
mod Tests
use dccexpress_mini.Prelude.{
  ℕ, ◌+◌, ◌-◌, ◌*◌, ◌/◌, ◌%◌, Bool, true, false, ◌&&◌, not, Option, none, some, List, [], ◌∷◌, ltb,
  ◌==◌, if◌then◌else◌, get_or, set, replicate,
}
use dccexpress_mini.Dcc.State.{high_byte, low_byte}

abbrev pub flash_insert_marker : ℕ
flash_insert_marker = 0xff

abbrev pub no_client : ℕ
no_client = 255

pub record RingStream : Type 0 where
  pub len : ℕ
  pub pos_write : ℕ
  pub pos_read : ℕ
  pub overflow : Bool
  pub mark : ℕ
  pub count : ℕ
  pub buffer : List ℕ
  pub ring_client : ℕ

-- The constructor: what `new` gives is taken for zeros.
unfoldable pub create : ℕ → RingStream
create len = record {
  len = len;
  pos_write = 0;
  pos_read = 0;
  overflow = false;
  mark = 0;
  count = 0;
  buffer = replicate len 0;
  ring_client = no_client;
}

-- A position moved on by one.
abbrev pub next : ℕ → ℕ → ℕ
next len pos = if pos + 1 == len then 0 else pos + 1

-- The number of bytes written, and the stream.
unfoldable pub write : ℕ → RingStream → ℕ × RingStream
write b r =
    let r' : RingStream = record r {
      buffer = set r.buffer r.pos_write b;
      pos_write = next r.len r.pos_write;
    } in
    if r.overflow
    then (0, r)
    else if r'.pos_write == r'.pos_read
    then (0, record r' { overflow = true })
    else (1, record r' { count = r'.count + 1 })

-- `printFlash`, which prints the bytes of a text: the sum of what `write` returns.
unfoldable pub print : List ℕ → RingStream → ℕ × RingStream
unfolding write
print [] r = (0, r)
print (b ∷ bs) r =
    let (n, r') = write b r in let rest : ℕ × RingStream = print bs r' in (n + rest.0, rest.1)

unfoldable pub read_raw_byte : RingStream → ℕ × RingStream
read_raw_byte r =
    (get_or r.buffer r.pos_read 0, record r { pos_read = next r.len r.pos_read; overflow = false })

-- `none` is the -1 of an empty stream; a marker is read as a question mark.
unfoldable pub read : RingStream → Option ℕ × RingStream
unfolding read_raw_byte
read r =
    let (b, r') = read_raw_byte r in
    if r.pos_read == r.pos_write && not r.overflow
    then (none, r)
    else (some (if b == flash_insert_marker then 63 else b), r')

unfoldable pub peek : RingStream → Option ℕ
peek r =
    if r.pos_read == r.pos_write && not r.overflow
    then none
    else some (get_or r.buffer r.pos_read 0)

-- The first operand of the `|` is taken first.
unfoldable pub read_count : RingStream → ℕ × RingStream
unfolding read_raw_byte
read_count r =
    let (high, r') = read_raw_byte r in let (low, r'') = read_raw_byte r' in (high * 256 + low, r'')

-- The pattern of an `int`.
unfoldable pub free_space : RingStream → ℕ
free_space r =
    if ltb r.pos_write r.pos_read
    then (r.pos_read - r.pos_write + 0xffff_fffd) % 0x1_0000_0000
    else (r.len - r.pos_write + r.pos_read + 0xffff_fffd) % 0x1_0000_0000

-- `mark`
unfoldable pub start_message : ℕ → RingStream → RingStream
unfolding print
start_message b r =
    let r' : RingStream = record r { ring_client = b; mark = r.pos_write } in
    record (print (b ∷ 0 ∷ 0 ∷ []) r').1 { count = 0 }

unfoldable pub peek_target_mark : RingStream → ℕ
peek_target_mark r = r.ring_client

-- Whether the message was kept.
unfoldable pub commit : RingStream → Bool × RingStream
commit r =
    if r.overflow
    then (false, record r { pos_write = r.mark; overflow = false })
    else if r.count == 0
    then (true, record r { pos_write = r.mark; ring_client = no_client })
    else let m : ℕ = next r.len r.mark in
      let n : ℕ = next r.len m in
      (
        true,
        record r {
          mark = n;
          buffer = set (set r.buffer m (high_byte r.count)) n (low_byte r.count);
          ring_client = no_client;
        },
      )

unfoldable pub flush : RingStream → RingStream
flush r = record r {
  pos_write = 0;
  pos_read = 0;
  buffer = set r.buffer 0 0;
  ring_client = no_client;
}
