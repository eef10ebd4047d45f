-- ===== src/Prf/Tests.antt =====
-- Measurements and frames at concrete times, one of them across the end of the clock.
use osa_base.Base.{◌≡◌, refl, false, some, List, [], ◌∷◌, sok}
use osa_base.Prf.{PrfHndl, FrameHndl, fps}
use osa_base.Prf.Samples.{Sample, measure_all, profile_lem, frames}
use osa_base.Prf

abbrev used : PrfHndl
used = record {
  total_time = 9;
  max_time = 9;
  min_time = 9;
  total_value = 9;
  max_value = 9;
  min_value = 9;
  count = 1;
  cur_time = 0;
}

abbrev samples : List Sample
samples =
    record { before = 100; now = 130; value = 5 }
    ∷ record { before = 4294967290; now = 4; value = 8 }
    ∷ []

profile_lem_example :
    let h = measure_all samples (Prf.reset used).1 in
    (h.count ≡ 2)
    × (h.total_time ≡ 40)
    × (h.total_value ≡ 13)
    × (h.max_time ≡ 30)
    × (h.max_value ≡ 8)
    × (h.min_time ≡ 0)
    × (h.min_value ≡ 0)
profile_lem_example = profile_lem samples used

abbrev started : FrameHndl
started = record { pre_time = 1000; cur_time = 1000; count = 0; flag = 1 }

-- The third frame comes after three seconds.
fps_run :
    fps false 4100 4100 (frames (2000 ∷ 3900 ∷ []) started)
    ≡ (sok, record { pre_time = 4100; cur_time = 4100; count = 0; flag = 1 }, some 3)
unfolding fps frames
fps_run = refl
