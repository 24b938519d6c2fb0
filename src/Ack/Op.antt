-- ===== src/Ack/Op.antt =====
-- `ackOp` (DCCACK.h). An opcode that takes the next byte of the program is one constructor with
-- that byte; no such byte of the programs is 0xff, which a skip would take for its target.
use dccexpress_mini.Prelude.{ℕ, Bool, true, false}

pub data Op : Type 0 where
  baseline w0 w1 wb vb v0 v1 wack itc1 itc0 itcb itcbv itcb7 nakfail callfail biv : Op
  startmerge merge : Op
  setbit : ℕ → Op
  setcv : ℕ → Op
  setbyte : ℕ → Op
  setbyteh setbytel stashlocoid combinelocoid itskip nakskip combine1920 skiptarget : Op

abbrev pub is_skiptarget : Op → Bool
is_skiptarget skiptarget = true
is_skiptarget _ = false

-- `CALLBACK_STATE`
pub data CallbackState : Type 0 where
  after_read after_write waiting_100 waiting_30 ready : CallbackState

-- The power modes of a track that the manager reads or sets.
pub data PowerMode : Type 0 where
  off on overload : PowerMode
