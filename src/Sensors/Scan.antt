-- ===== src/Sensors/Scan.antt =====
-- What one call of `checkAll` does to the sensors that it reads.
use dccexpress_mini.Prelude.{
  ℕ, zero, suc, ◌≤◌, ◌<◌, ◌≡◌, refl, ap, ◌∙◌, sym, Bool, List, [], ◌∷◌, ◌++◌, if◌then◌else◌, arith,
  Bool-cases, inl, inr, length, map, append_assoc, append-nil, ◌⊎◌,
}
use dccexpress_mini.Sensors.{Sensor, Event, broadcast_sensor, settle, sample, scan}

-- A sensor after it was read once, and what is reported then.
abbrev pub read_once : (ℕ → Bool) → Sensor → Sensor
read_once read s = (settle (sample read s)).0

abbrev pub news_of : (ℕ → Bool) → Sensor → List Event
news_of read s =
    if (settle (sample read s)).1
    then broadcast_sensor (read_once read s).snum (read_once read s).active ∷ []
    else []

-- All of them read once, in the order of the list.
abbrev pub swept : (ℕ → Bool) → List Sensor → List Sensor
swept read ss = map (read_once read) ss

-- The reports added to the events, newest first.
unfoldable pub report : (ℕ → Bool) → List Sensor → List Event → List Event
report read [] es = es
report read (s ∷ ss) es = report read ss (news_of read s ++ es)

pub report-append :
    (read : ℕ → Bool) (xs ys : List Sensor) (es : List Event)
    → report read (xs ++ ys) es ≡ report read ys (report read xs es)
unfolding report
report-append read [] ys es = refl
report-append read (x ∷ xs) ys es = report-append read xs ys (news_of read x ++ es)

pub report-nil :
    (read : ℕ → Bool) (xs : List Sensor) (es : List Event)
    → report read xs es ≡ report read xs [] ++ es
unfolding report
report-nil read [] es = refl
report-nil read (x ∷ xs) es =
    report-nil read xs (news_of read x ++ es)
    ∙ sym (append_assoc (report read xs []) (news_of read x) es)
    ∙ ap (λ l. l ++ es)
        (ap (λ l. report read xs [] ++ l) (sym (append-nil (news_of read x)))
          ∙ sym (report-nil read xs (news_of read x ++ [])))

-- The loop reads a first part of the sensors, each once; it goes on to the end or to the limit
-- unless a sensor is reported.
pub record Scanned (n : ℕ) (read : ℕ → Bool) (ss : List Sensor) (r : List Sensor × ℕ × List Event)
    : Type 0 where
  pub done : List Sensor
  pub rest : List Sensor
  pub split : ss ≡ done ++ rest
  pub result : r ≡ (swept read done ++ rest, length rest, report read done [])
  pub most : length done ≤ n
  pub progress : (0 < n) → (0 < length ss) → 0 < length done
  pub single : length (report read done []) ≤ 1
  pub all_read : report read done [] ≡ [] → (rest ≡ []) ⊎ (length done ≡ n)

pub scan-Scanned : (n : ℕ) (read : ℕ → Bool) (ss : List Sensor) → Scanned n read ss (scan n read ss)
unfolding scan report
scan-Scanned zero read ss = record {
  done = [];
  rest = ss;
  split = refl;
  result = refl;
  most = omega arith;
  progress = (λ p. omega arith);
  single = omega arith;
  all_read = (λ p. inr refl);
}
scan-Scanned (suc n) read [] = record {
  done = [];
  rest = [];
  split = refl;
  result = refl;
  most = omega arith;
  progress = (λ p q. omega arith);
  single = omega arith;
  all_read = (λ p. inl refl);
}
scan-Scanned (suc n) read (s ∷ ss) = elim (Bool-cases (settle (sample read s)).1) [
  | inl e ↦ record {
    done = s ∷ [];
    rest = ss;
    split = refl;
    result = rw (e, scan) refl;
    most = omega arith;
    progress = (λ p q. omega arith);
    single = rw (e, report) (omega arith);
    all_read = (λ p. let q = rw e at p in cc);
  }
  | inr e ↦
      let t = scan-Scanned n read ss in
      record {
        done = s ∷ t.done;
        rest = t.rest;
        split = ap (λ l. s ∷ l) t.split;
        result = rw (e, scan) (rw t.result refl);
        most = omega (arith, t.most);
        progress = (λ p q. omega arith);
        single = rw e t.single;
        all_read = (λ p. elim (t.all_read (rw e at p)) [ inl q ↦ inl q | inr q ↦ inr (ap suc q) ]);
      }
]
