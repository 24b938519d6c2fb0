-- ===== src/Ack/Pulse.antt =====
-- `setAckPending`, `getAck` and `checkAck` (DCCACK.cpp): the watch for the pulse of current by
-- which a decoder acknowledges. An `int` and an `unsigned long` are their 32-bit patterns.
pub mod Watch
use dccexpress_mini.Prelude.{
  ℕ, ◌+◌, ◌-◌, ◌%◌, Bool, true, false, ◌&&◌, not, List, [], ◌∷◌, ltb, leb, ◌==◌, if◌then◌else◌,
}

-- `ackThreshold`, `minAckPulseDuration` and `maxAckPulseDuration`, which a watch does not change.
pub record Limits : Type 0 where
  pub threshold : ℕ
  pub min_pulse : ℕ
  pub max_pulse : ℕ

-- The other static members, and how often the repeats of the packet were cleared.
pub record Probe : Type 0 where
  pub max_current : ℕ
  pub check_start : ℕ
  pub check_duration : ℕ
  pub pulse_start : ℕ
  pub pulse_duration : ℕ
  pub pending : Bool
  pub detected : Bool
  pub gaps : ℕ
  pub samples : ℕ
  pub trailing : ℕ
  pub cleared : ℕ

-- What a run of `checkAck` is given and reads.
pub record Sample : Type 0 where
  pub resets : ℕ
  pub current : ℕ
  pub micros : ℕ
  pub millis : ℕ

-- The comparison of two `int`.
unfoldable pub above : ℕ → ℕ → Bool
above x y = ltb ((y + 0x8000_0000) % 0x1_0000_0000) ((x + 0x8000_0000) % 0x1_0000_0000)

abbrev pub since : ℕ → ℕ → ℕ
since now start = (now + 0x1_0000_0000 - start) % 0x1_0000_0000

-- `setAckPending` at the time `millis`.
unfoldable pub set_ack_pending : ℕ → Probe → Probe
set_ack_pending millis p = record p {
  max_current = 0;
  pulse_start = 0;
  pulse_duration = 0;
  detected = false;
  check_start = millis;
  samples = 0;
  gaps = 0;
  pending = true;
}

unfoldable pub get_ack : Probe → ℕ
get_ack p = if p.pending then 2 else if p.detected then 1 else 0

-- Above the threshold.
unfoldable pub leading : Sample → Probe → Probe
leading s p = record p {
  gaps = if ltb 0 p.trailing then (p.gaps + 1) % 256 else p.gaps;
  trailing = 0;
  pulse_start = if p.pulse_start == 0 then s.micros else p.pulse_start;
}

-- At the end of a pulse.
unfoldable pub judge : Limits → Sample → Probe → Probe
judge l s p =
    if leb l.min_pulse p.pulse_duration && leb p.pulse_duration l.max_pulse
    then record p {
      check_duration = since s.millis p.check_start;
      detected = true;
      pending = false;
      cleared = p.cleared + 1;
    }
    else record p { pulse_start = 0 }

-- Below it in a pulse: the third time in a row ends the pulse, at the time of the first.
unfoldable pub falling : Limits → Sample → Probe → Probe
unfolding judge
falling l s p =
    let p' : Probe =
      if p.trailing == 0 then record p { pulse_duration = since s.micros p.pulse_start } else p in
    if ltb p'.trailing 2
    then record p' { trailing = p'.trailing + 1 }
    else judge l s (record p' { trailing = 0 })

unfoldable pub measure : Limits → Sample → Probe → Probe
unfolding leading falling
measure l s p =
    if above s.current l.threshold
    then leading s p
    else if p.pulse_start == 0
    then p
    else falling l s p

unfoldable pub check_ack : Limits → Sample → Probe → Probe
unfolding measure
check_ack l s p =
    if not p.pending
    then p
    else if ltb 6 s.resets
    then record p { check_duration = since s.millis p.check_start; pending = false }
    else measure l s (record p {
      samples = (p.samples + 1) % 256;
      max_current = if above s.current p.max_current then s.current else p.max_current;
    })

-- The runs of `checkAck` on a sequence of samples.
unfoldable pub watch : Limits → List Sample → Probe → Probe
unfolding check_ack
watch l [] p = p
watch l (s ∷ ss) p = watch l ss (check_ack l s p)
