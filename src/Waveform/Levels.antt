-- ===== src/Waveform/Levels.antt =====
-- The levels that the timer interrupts drive on the signal pins for the bits of a track.
use dccexpress_mini.Prelude.{
  ℕ, zero, suc, ◌≡◌, refl, ap, ◌∙◌, Bool, true, false, List, [], ◌⊎◌, inl, inr, ◌∷◌, arith, length,
  if◌then◌else◌,
}
use dccexpress_mini.Waveform.{
  Track, Railcom, WaveState, wave_start, wave_mid_1, wave_high_0, wave_pending, state_transform,
  signal_transform, interrupt2, preamble_step, data_step, end_byte, end_packet, call_timer,
  promote_pending_packet, send_filler, clear_resets, get_resets, advance, Tick, interrupt_handler,
}
use dccexpress_mini.Waveform.Frame.{send, wave_bit}

-- A 1 is high for one interrupt and low for one, a 0 high for two and low for two.
abbrev pub levels : List Bool → List Bool
levels [] = []
levels (true ∷ bs) = true ∷ false ∷ levels bs
levels (false ∷ bs) = true ∷ true ∷ false ∷ false ∷ levels bs

-- What n interrupts drive for one track.
unfoldable pub drive : ℕ → Railcom → Track → List Bool × Track
drive zero rc t = ([], t)
drive (suc n) rc t =
    let (level, t') = advance rc t in
    let rest : List Bool × Track = drive n rc t' in (level ∷ rest.0, rest.1)

interrupt2-ignores-state :
    (rc : Railcom) (t : Track) (s : WaveState)
    → interrupt2 rc (record t { state = s }) ≡ interrupt2 rc t
unfolding interrupt2 preamble_step data_step end_byte end_packet call_timer promote_pending_packet
    send_filler clear_resets get_resets
interrupt2-ignores-state rc t s = ground arith

interrupt2-state :
    (rc : Railcom) (t : Track)
    → ((interrupt2 rc t).state ≡ wave_mid_1) ⊎ ((interrupt2 rc t).state ≡ wave_high_0)
unfolding interrupt2 preamble_step data_step end_byte end_packet call_timer promote_pending_packet
    send_filler clear_resets get_resets
interrupt2-state rc t = ground arith

abbrev start : Track → Track
start t = record t { state = wave_start }

at_state : (t : Track) (s : WaveState) → t.state ≡ s → t ≡ record t { state = s }
at_state t s e = λ i. record t { state = e i }

rest_of_one :
    (n : ℕ) (rc : Railcom) (u : Track)
    → u.state ≡ wave_mid_1
    → drive (suc n) rc u ≡ (false ∷ (drive n rc (start u)).0, (drive n rc (start u)).1)
unfolding drive advance state_transform signal_transform
rest_of_one n rc u e = ap (drive (suc n) rc) (at_state u wave_mid_1 e)

rest_of_zero :
    (n : ℕ) (rc : Railcom) (u : Track)
    → u.state ≡ wave_high_0
    → drive (suc (suc (suc n))) rc u
      ≡ (true ∷ false ∷ false ∷ (drive n rc (start u)).0, (drive n rc (start u)).1)
unfolding drive advance state_transform signal_transform
rest_of_zero n rc u e = ap (drive (suc (suc (suc n))) rc) (at_state u wave_high_0 e)

first_of_bit :
    (n : ℕ) (rc : Railcom) (t : Track)
    → drive (suc n) rc (start t)
      ≡ (true ∷ (drive n rc (interrupt2 rc t)).0, (drive n rc (interrupt2 rc t)).1)
unfolding drive advance state_transform signal_transform
first_of_bit n rc t =
    ap (λ u. (true ∷ (drive n rc u).0, (drive n rc u).1))
      (interrupt2-ignores-state rc t wave_pending)

-- One bit more, whatever it is.
drive-bit :
    (bits : List Bool) (rc : Railcom) (t v : Track)
    → let u = interrupt2 rc t in
      drive (length (levels bits)) rc (start u) ≡ (levels bits, v)
      → let bit = wave_bit u.state in
        drive (length (levels (bit ∷ bits))) rc (start t) ≡ (levels (bit ∷ bits), v)
drive-bit bits rc t v ih = elim (interrupt2-state rc t) [
  | inl e ↦ rw (ap wave_bit e) (
      first_of_bit (suc (length (levels bits))) rc t
      ∙ ap (λ (r : List Bool × Track). (true ∷ r.0, r.1))
          (rest_of_one (length (levels bits)) rc (interrupt2 rc t) e
            ∙ ap (λ (r : List Bool × Track). (false ∷ r.0, r.1)) ih))
  | inr e ↦ rw (ap wave_bit e) (
      first_of_bit (suc (suc (suc (length (levels bits))))) rc t
      ∙ ap (λ (r : List Bool × Track). (true ∷ r.0, r.1))
          (rest_of_zero (length (levels bits)) rc (interrupt2 rc t) e
            ∙ ap (λ (r : List Bool × Track). (true ∷ false ∷ false ∷ r.0, r.1)) ih))
]

drive-start :
    (n : ℕ) (rc : Railcom) (t : Track)
    → let (bits, t') = send n rc t in
      drive (length (levels bits)) rc (start t) ≡ (levels bits, start t')
unfolding send drive
drive-start zero rc t = refl
drive-start (suc n) rc t =
    drive-bit (send n rc (interrupt2 rc t)).0 rc t (start (send n rc (interrupt2 rc t)).1)
      (drive-start n rc (interrupt2 rc t))

-- From the start of a wave, the interrupts drive the levels of the bits that the track sends, in
-- order, and leave the track that the sending leaves, again at the start of a wave.
pub drive-levels :
    (n : ℕ) (rc : Railcom) (t : Track)
    → t.state ≡ wave_start
    → let (bits, t') = send n rc t in
      drive (length (levels bits)) rc t ≡ (levels bits, record t' { state = wave_start })
drive-levels n rc t e =
    ap (drive (length (levels (send n rc t).0)) rc) (at_state t wave_start e) ∙ drive-start n rc t

-- What the handler drives on both pins, over n interrupts.
pub run_handler : ℕ → Railcom → Bool → Track → Track → List Bool × List Bool
run_handler zero rc sync main prog = ([], [])
run_handler (suc n) rc sync main prog =
    let tick : Tick = interrupt_handler rc sync main prog in
    let rest : List Bool × List Bool = run_handler n rc sync tick.main tick.prog in
    (tick.main_signal ∷ rest.0, tick.prog_signal ∷ rest.1)

-- The handler drives the two tracks independently of one another, and both pins with the signal of
-- the main track while the programming track is joined to it.
run_handler_lem :
    (n : ℕ) (rc : Railcom) (sync : Bool) (main prog : Track)
    → run_handler n rc sync main prog
      ≡ ((drive n rc main).0, (drive n rc (if sync then main else prog)).0)
unfolding run_handler drive interrupt_handler
run_handler_lem zero rc sync main prog = refl
run_handler_lem (suc n) rc true main prog =
    ap (λ (r : List Bool × List Bool). ((advance rc main).0 ∷ r.0, (advance rc main).0 ∷ r.1))
      (run_handler_lem n rc true (advance rc main).1 (advance rc prog).1)
run_handler_lem (suc n) rc false main prog =
    ap (λ (r : List Bool × List Bool). ((advance rc main).0 ∷ r.0, (advance rc prog).0 ∷ r.1))
      (run_handler_lem n rc false (advance rc main).1 (advance rc prog).1)
