-- ===== src/Thr/Tests.antt =====
-- Threads of a system that runs one at a time.
use osa_base.Base.{
  ℕ, suc, ◌≡◌, ◌≢◌, ◌↔◌, refl, Bool, true, false, not, ◌&&◌, if◌then◌else◌, ◌==◌, ℤ, sok, arith,
}
use osa_base.Thr.{Pthreads, Ends, came_back, undefined, ThrHndl, detach, thr_create, thr_delete}
use osa_base.Thr.Delete.{thr_create-delete}

-- the number of the last thread, and whether it is to be joined
record System : Type 0 where
  last : ℕ
  to_join : Bool

abbrev is_joinable : ℕ → System → Bool
is_joinable t s = (t == s.last) && s.to_join

abbrev join : ℕ → System → Ends (ℤ × System)
join t s =
    if is_joinable t s
    then came_back (sok, record { last = s.last; to_join = false })
    else undefined

same : (n : ℕ) → (n == n) ≡ true
same n = ground arith

join_not : (t : ℕ) (s : System) → is_joinable t s ≡ false → join t s ≡ undefined
join_not t s e = rw e

join_some : (t : ℕ) (s : System) → is_joinable t s ≡ true → join t s ≢ undefined
join_some t s e u = ground arith

abbrev system : Pthreads System
system = record {
  priority_min = 1;
  priority_max = 99;
  stack_allowed = λ n. true;
  attr_init = λ s. (sok, s);
  attr_destroy = λ s. s;
  pthread_create = λ a s. (sok, suc s.last, record { last = suc s.last; to_join = not a.detached });
  pthread_cancel = λ t s. (sok, s);
  pthread_join = join;
  setschedparam = λ t n s. (sok, s);
  joinable = is_joinable;
  create_joinable = λ a s e. rw (same (suc s.last));
  destroy_joinable = λ t s. refl;
  cancel_joinable = λ t u s. refl;
  join_undefined = join_not;
  join_defined = join_some;
}

thr_create-delete_example :
    (h : ThrHndl) × (s : System) × (thr_create system 0 4096
        (record { hndl = 0 })
        (record { last = 6; to_join = false })
      ≡ came_back (sok, h, s))
    × ((thr_delete system h s ≡ undefined) ↔ (0 ≡ detach))
thr_create-delete_example =
    thr_create-delete system 0 4096 (record { hndl = 0 }) (record { last = 6; to_join = false })
      refl refl
