-- ===== src/Ack/Pulse/Watch.antt =====
-- Which pulses `checkAck` takes for an acknowledgement.
use dccexpress_mini.Prelude.{
  ℕ, ◌≤◌, ◌≡◌, ◌≢◌, ap, ◌∙◌, Bool, true, false, ◌&&◌, List, [], ◌∷◌, ◌++◌, leb, if◌then◌else◌,
  arith,
}
use dccexpress_mini.Ack.Pulse.{
  Limits, Probe, Sample, above, since, leading, judge, falling, measure, check_ack, watch, get_ack,
}

-- What `getAck` says at the end of a pulse of this length.
abbrev pub verdict : Limits → ℕ → ℕ
verdict l length = if leb l.min_pulse length && leb length l.max_pulse then 1 else 2

-- The watch goes on in a pulse that began at t, after n samples in a row that were below it.
record Tracking (t n : ℕ) (p : Probe) : Type 0 where
  pending : p.pending ≡ true
  detected : p.detected ≡ false
  started : p.pulse_start ≡ t
  dip : p.trailing ≡ n

-- A sample in time, above the threshold or not.
pub record Is (high : Bool) (l : Limits) (s : Sample) : Type 0 where
  pub in_time : s.resets ≤ 6
  pub level : above s.current l.threshold ≡ high

rise :
    (l : Limits) (s : Sample) (p : Probe)
    → p.pending ≡ true
    → p.detected ≡ false
    → p.pulse_start ≡ 0
    → Is true l s
    → Tracking s.micros 0 (check_ack l s p)
unfolding check_ack measure leading
rise l s p h k z is = record {
  pending = ground (arith, is.in_time, is.level);
  detected = ground (arith, is.in_time, is.level);
  started = ground (arith, is.in_time, is.level);
  dip = ground (arith, is.in_time, is.level);
}

module _ (l : Limits) (s : Sample) (t : ℕ) (nonzero : t ≢ 0) where
  stay : (n : ℕ) (p : Probe) → Tracking t n p → Is true l s → Tracking t 0 (check_ack l s p)
  unfolding check_ack measure leading
  stay n p tr is = record {
    pending = ground (arith, is.in_time, is.level, tr.pending);
    detected = ground (arith, is.in_time, is.level, tr.pending, tr.detected);
    started = ground (arith, is.in_time, is.level, tr.pending, tr.started);
    dip = ground (arith, is.in_time, is.level, tr.pending);
  }

  drop :
      (p : Probe)
      → Tracking t 0 p
      → Is false l s
      → Tracking t 1 (check_ack l s p) × ((check_ack l s p).pulse_duration ≡ since s.micros t)
  unfolding check_ack measure falling
  drop p tr is = (
    record {
      pending = ground (arith, is.in_time, is.level, tr.pending, tr.started, tr.dip);
      detected = ground (arith, is.in_time, is.level, tr.pending, tr.started, tr.dip, tr.detected);
      started = ground (arith, is.in_time, is.level, tr.pending, tr.started, tr.dip);
      dip = ground (arith, is.in_time, is.level, tr.pending, tr.started, tr.dip);
    },
    ground (arith, is.in_time, is.level, tr.pending, tr.started, tr.dip),
  )

  drop_again :
      (p : Probe)
      → Tracking t 1 p
      → Is false l s
      → Tracking t 2 (check_ack l s p) × ((check_ack l s p).pulse_duration ≡ p.pulse_duration)
  unfolding check_ack measure falling
  drop_again p tr is = (
    record {
      pending = ground (arith, is.in_time, is.level, tr.pending, tr.started, tr.dip);
      detected = ground (arith, is.in_time, is.level, tr.pending, tr.started, tr.dip, tr.detected);
      started = ground (arith, is.in_time, is.level, tr.pending, tr.started, tr.dip);
      dip = ground (arith, is.in_time, is.level, tr.pending, tr.started, tr.dip);
    },
    ground (arith, is.in_time, is.level, tr.pending, tr.started, tr.dip),
  )

  fall :
      (p : Probe)
      → Tracking t 2 p
      → Is false l s
      → get_ack (check_ack l s p) ≡ verdict l p.pulse_duration
  unfolding check_ack measure falling judge get_ack
  fall p tr is = ground (arith, is.in_time, is.level, tr.pending, tr.started, tr.dip, tr.detected)

-- The rest of a pulse: samples above the threshold, with gaps of one or two below it.
pub data Pulse (l : Limits) : List Sample → Type 0 where
  over : Pulse l []
  high : {s : Sample} {ss : List Sample} → Is true l s → Pulse l ss → Pulse l (s ∷ ss)
  gap :
      {s s' : Sample} {ss : List Sample}
      → Is false l s
      → Is true l s'
      → Pulse l ss
      → Pulse l (s ∷ s' ∷ ss)
  wide_gap :
      {s s' s'' : Sample} {ss : List Sample}
      → Is false l s
      → Is false l s'
      → Is true l s''
      → Pulse l ss
      → Pulse l (s ∷ s' ∷ s'' ∷ ss)

-- A pulse of any number of samples, with gaps of at most two below the threshold, that three
-- samples below it end before the reset packets run out, is acknowledged if its length is between
-- the limits; if not, the watch goes on. Its length is the time from its first sample, which was
-- not taken at the time 0, to the first of the last three.
pub watch-Pulse :
    (l : Limits) (first last s2 s3 : Sample) (ss : List Sample) (p : Probe)
    → p.pending ≡ true
    → p.detected ≡ false
    → p.pulse_start ≡ 0
    → first.micros ≢ 0
    → Is true l first
    → Pulse l ss
    → Is false l last
    → Is false l s2
    → Is false l s3
    → let length : ℕ = since last.micros first.micros in
      get_ack (watch l (first ∷ ss ++ (last ∷ s2 ∷ s3 ∷ [])) p) ≡ verdict l length
unfolding watch
watch-Pulse l first last s2 s3 ss p h k z nonzero is pulse low low2 low3 =
    through ss (check_ack l first p) pulse (rise l first p h k z is)
  where
    length : ℕ
    length = since last.micros first.micros

    through :
        (ss : List Sample) (p : Probe)
        → Pulse l ss
        → Tracking first.micros 0 p
        → get_ack (watch l (ss ++ (last ∷ s2 ∷ s3 ∷ [])) p) ≡ verdict l length
    through [] p over tr =
        let t : ℕ = first.micros in
        let (tr1, e1) = drop l last t nonzero p tr low in
        let (tr2, e2) = drop_again l s2 t nonzero (check_ack l last p) tr1 low2 in
        fall l s3 t nonzero (check_ack l s2 (check_ack l last p)) tr2 low3
        ∙ ap (verdict l) (e2 ∙ e1)
    through (s ∷ ss) p (high up pulse) tr =
        through ss (check_ack l s p) pulse (stay l s first.micros nonzero 0 p tr up)
    through (s ∷ s' ∷ ss) p (gap down up pulse) tr =
        let p1 : Probe = check_ack l s p in
        let tr1 = (drop l s first.micros nonzero p tr down).0 in
        through ss (check_ack l s' p1) pulse (stay l s' first.micros nonzero 1 p1 tr1 up)
    through (s ∷ s' ∷ s'' ∷ ss) p (wide_gap down down' up pulse) tr =
        let p1 : Probe = check_ack l s p in
        let p2 : Probe = check_ack l s' p1 in
        let tr1 = (drop l s first.micros nonzero p tr down).0 in
        let tr2 = (drop_again l s' first.micros nonzero p1 tr1 down').0 in
        through ss (check_ack l s'' p2) pulse (stay l s'' first.micros nonzero 2 p2 tr2 up)
