-- ===== src/Prf.antt =====
-- osa/src/osa_prf.c and osa/inc/osa_prf.h: how often something was measured, with the sums, maxima
-- and minima of its times and values, and the count of frames. All members are `Uint32`; `now` is
-- what OSA_getCurTimeInMsec returns. OSA_prfPrint only prints.
pub mod Samples
mod Tests
use osa_base.Base.{
  ℕ, ◌+◌, ◌-◌, ◌^◌, ◌%◌, not, Bool, Option, none, some, ltb, ◌==◌, if◌then◌else◌, u32, ℤ, sok,
  efail,
}

pub record PrfHndl : Type 0 where
  pub total_time : ℕ
  pub max_time : ℕ
  pub min_time : ℕ
  pub total_value : ℕ
  pub max_value : ℕ
  pub min_value : ℕ
  pub count : ℕ
  pub cur_time : ℕ

-- OSA_FrameHndl_t, without the members that no function reads but to print
pub record FrameHndl : Type 0 where
  pub pre_time : ℕ
  pub cur_time : ℕ
  pub count : ℕ
  pub flag : ℕ

-- the subtraction of two `Uint32`
abbrev pub sub_u32 : ℕ → ℕ → ℕ
sub_u32 a b = u32 (a + 2 ^ 32 - b)

-- OSA_prfBegin
unfoldable pub begin : ℕ → PrfHndl → ℤ × PrfHndl
begin now hndl = (sok, record hndl { cur_time = now })

-- the statements of OSA_prfEnd for a time and a value; the value is compared with `minTime`, which
-- is the new one by then.
unfoldable pub add_time : ℕ → PrfHndl → PrfHndl
add_time time hndl = record hndl {
  cur_time = time;
  count = u32 (hndl.count + 1);
  total_time = u32 (hndl.total_time + time);
  max_time = if ltb hndl.max_time time then time else hndl.max_time;
  min_time = if ltb time hndl.min_time then time else hndl.min_time;
}

unfoldable pub add_value : ℕ → PrfHndl → PrfHndl
add_value value hndl = record hndl {
  total_value = u32 (hndl.total_value + value);
  max_value = if ltb hndl.max_value value then value else hndl.max_value;
  min_value = if ltb value hndl.min_time then value else hndl.min_value;
}

-- OSA_prfEnd
unfoldable pub end : ℕ → ℕ → PrfHndl → ℤ × PrfHndl
unfolding add_time add_value
end now value hndl = (sok, add_value value (add_time (sub_u32 now hndl.cur_time) hndl))

-- OSA_prfReset
unfoldable pub reset : PrfHndl → ℤ × PrfHndl
reset hndl = (
  sok,
  record hndl {
    count = 0;
    total_time = 0;
    max_time = 0;
    max_value = 0;
    min_time = 0;
    min_value = 0;
    total_value = 0;
  },
)

-- the first call of OSA_prfFps: it starts the clock at `now`.
unfoldable pub start : ℕ → FrameHndl → FrameHndl
start now hndl = if not (hndl.flag == 1) then record hndl { flag = 1; pre_time = now } else hndl

-- OSA_prfFps; `now` and `later` are what the two calls of the clock return, `now` where it is asked.
-- The last value is the number of frames that is printed, if it is.
unfoldable pub fps : Bool → (now later : ℕ) → FrameHndl → ℤ × FrameHndl × Option ℕ
unfolding start
fps hndl_null now later hndl =
    let started = start now hndl in
    let counted : FrameHndl = record started {
      count = u32 (started.count + 1);
      cur_time = later;
    } in
    if hndl_null
    then (efail, hndl, none)
    else if ltb (sub_u32 later counted.pre_time) 3000
    then (sok, counted, none)
    else (sok, record counted { pre_time = later; count = 0 }, some counted.count)
