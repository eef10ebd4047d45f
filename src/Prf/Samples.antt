-- ===== src/Prf/Samples.antt =====
-- What the members of OSA_PrfHndl and OSA_FrameHndl_t are after some measurements (osa/src/osa_prf.c).
use osa_base.Base.{ℕ, ◌+◌, ◌^◌, ◌<◌, ◌≡◌, refl, ◌∙◌, max, false, List, [], ◌∷◌, length, u32, arith}
use osa_base.Prf.{PrfHndl, FrameHndl, sub_u32, begin, add_time, add_value, end, reset, fps}

-- one measurement: the time at OSA_prfBegin, the time at OSA_prfEnd, and the value
pub record Sample : Type 0 where
  pub before : ℕ
  pub now : ℕ
  pub value : ℕ

-- the time that passed between two readings of a clock of 32 bits
abbrev pub elapsed : Sample → ℕ
elapsed s = sub_u32 s.now s.before

unfoldable pub measure : Sample → PrfHndl → PrfHndl
measure s hndl = (end s.now s.value (begin s.before hndl).1).1

unfoldable pub measure_all : List Sample → PrfHndl → PrfHndl
measure_all [] hndl = hndl
measure_all (s ∷ ss) hndl = measure_all ss (measure s hndl)

abbrev pub sum_of : (Sample → ℕ) → List Sample → ℕ
sum_of f [] = 0
sum_of f (s ∷ ss) = f s + sum_of f ss

abbrev pub max_of : (Sample → ℕ) → List Sample → ℕ
max_of f [] = 0
max_of f (s ∷ ss) = max (f s) (max_of f ss)

-- The sums are `Uint32`, and the least time is 0.
record Fits (h : PrfHndl) : Type 0 where
  count : h.count < 2 ^ 32
  total_time : h.total_time < 2 ^ 32
  total_value : h.total_value < 2 ^ 32
  min_time : h.min_time ≡ 0
  min_value : h.min_value ≡ 0

-- the members of `h'` after the samples, from those of `h`
record After (ss : List Sample) (h h' : PrfHndl) : Type 0 where
  count : h'.count ≡ u32 (h.count + length ss)
  total_time : h'.total_time ≡ u32 (h.total_time + sum_of elapsed ss)
  total_value : h'.total_value ≡ u32 (h.total_value + sum_of (λ s. s.value) ss)
  max_time : h'.max_time ≡ max h.max_time (max_of elapsed ss)
  max_value : h'.max_value ≡ max h.max_value (max_of (λ s. s.value) ss)
  min_time : h'.min_time ≡ 0
  min_value : h'.min_value ≡ 0

measure-Fits : (s : Sample) {h : PrfHndl} → Fits h → Fits (measure s h)
unfolding measure end begin add_time add_value
measure-Fits s f = record {
  count = omega arith;
  total_time = omega arith;
  total_value = omega arith;
  min_time = ground (arith, f.min_time);
  min_value = ground (arith, f.min_time, f.min_value);
}

single : (s : Sample) {h : PrfHndl} → Fits h → After (s ∷ []) h (measure s h)
unfolding measure end begin add_time add_value
single s f = record {
  count = omega arith;
  total_time = omega arith;
  total_value = omega arith;
  max_time = ground arith;
  max_value = ground arith;
  min_time = ground (arith, f.min_time);
  min_value = ground (arith, f.min_time, f.min_value);
}

measure_all-After : (ss : List Sample) {h : PrfHndl} → Fits h → After ss h (measure_all ss h)
unfolding measure_all
measure_all-After [] f = record {
  count = omega (arith, f.count);
  total_time = omega (arith, f.total_time);
  total_value = omega (arith, f.total_value);
  max_time = omega arith;
  max_value = omega arith;
  min_time = f.min_time;
  min_value = f.min_value;
}
measure_all-After (s ∷ ss) f =
    let a = single s f in
    let b = measure_all-After ss (measure-Fits s f) in
    record {
      count = omega (arith, a.count, b.count);
      total_time = omega (arith, a.total_time, b.total_time);
      total_value = omega (arith, a.total_value, b.total_value);
      max_time = omega (arith, a.max_time, b.max_time);
      max_value = omega (arith, a.max_value, b.max_value);
      min_time = b.min_time;
      min_value = b.min_value;
    }

-- After OSA_prfReset and any number of measurements the count and the sums are right modulo
-- `2 ^ 32`, the maxima are right, and the two minima are 0 whatever was measured.
pub profile_lem :
    (ss : List Sample) (hndl : PrfHndl)
    → let h = measure_all ss (reset hndl).1 in
      (h.count ≡ u32 (length ss))
      × (h.total_time ≡ u32 (sum_of elapsed ss))
      × (h.total_value ≡ u32 (sum_of (λ s. s.value) ss))
      × (h.max_time ≡ max_of elapsed ss)
      × (h.max_value ≡ max_of (λ s. s.value) ss)
      × (h.min_time ≡ 0)
      × (h.min_value ≡ 0)
unfolding reset
profile_lem ss hndl =
    let a = measure_all-After ss {h = (reset hndl).1} (record {
      count = omega arith;
      total_time = omega arith;
      total_value = omega arith;
      min_time = refl;
      min_value = refl;
    }) in
    (
      a.count ∙ omega arith,
      a.total_time ∙ omega arith,
      a.total_value ∙ omega arith,
      a.max_time ∙ omega arith,
      a.max_value ∙ omega arith,
      a.min_time,
      a.min_value,
    )

-- frames at some times
abbrev pub frames : List ℕ → FrameHndl → FrameHndl
frames [] h = h
frames (t ∷ ts) h = frames ts (fps false t t h).1
