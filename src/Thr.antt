-- ===== src/Thr.antt =====
-- osa/src/osa_thr.c and osa/src/osa_mutex.c: threads and mutexes of pthreads. What pthreads do is the
-- section's parameter `Pthreads`, with what their manual pages promise.
pub mod Delete
mod Tests
use Prim.Native.Nat.{bit_or}
use osa_base.Base.{
  ℕ, ◌≡◌, ◌≢◌, Bool, true, false, not, Option, none, some, if◌then◌else◌, ltb, ◌==◌, ℤ, pos, sok,
  eq_ℤ,
}

-- How a call ends: with a value; without a meaning; never; or at OSA_assert.
pub data Ends (A : Type 0) : Type 0 where
  came_back : A → Ends A
  undefined : Ends A
  blocked : Ends A
  assert_failed : Ends A

-- pthread_attr_t; `none` is the default size of the stack.
pub record Attr : Type 0 where
  pub stack : Option ℕ
  pub detached : Bool

-- `Sys` are the threads of the system; `joinable` are those that are to be joined still.
-- pthread_attr_setstacksize refuses a size that is not allowed.
pub record Pthreads (Sys : Type 0) : Type 0 where
  pub priority_min : ℕ
  pub priority_max : ℕ
  pub stack_allowed : ℕ → Bool
  pub attr_init : Sys → ℤ × Sys
  pub attr_destroy : Sys → Sys
  pub pthread_create : Attr → Sys → ℤ × ℕ × Sys
  pub pthread_cancel : ℕ → Sys → ℤ × Sys
  pub pthread_join : ℕ → Sys → Ends (ℤ × Sys)
  pub setschedparam : (thread priority : ℕ) → Sys → ℤ × Sys
  pub joinable : ℕ → Sys → Bool
  pub create_joinable :
      (a : Attr) (s : Sys)
      → (pthread_create a s).0 ≡ sok
      → joinable ((pthread_create a s).1) ((pthread_create a s).2) ≡ not a.detached
  pub destroy_joinable : (t : ℕ) (s : Sys) → joinable t (attr_destroy s) ≡ joinable t s
  pub cancel_joinable : (t u : ℕ) (s : Sys) → joinable t ((pthread_cancel u s).1) ≡ joinable t s
  pub join_undefined : (t : ℕ) (s : Sys) → joinable t s ≡ false → pthread_join t s ≡ undefined
  pub join_defined : (t : ℕ) (s : Sys) → joinable t s ≡ true → pthread_join t s ≢ undefined

-- OSA_ThrHndl
pub record ThrHndl : Type 0 where
  pub hndl : ℕ

-- `OSA_DETACH`, the first of OSA_ThrType_t
abbrev pub detach : ℕ
detach = 0

-- `OSA_THR_STACK_SIZE_DEFAULT`
abbrev pub stack_size_default : ℕ
stack_size_default = 0

module _ {Sys : Type 0} (p : Pthreads Sys) where
  -- the attributes that OSA_thrCreate sets
  abbrev pub attr_of : (pri stack_size : ℕ) → Attr
  attr_of pri stack_size =
      let sized =
        if stack_size == stack_size_default
        then none
        else if p.stack_allowed stack_size
        then some stack_size
        else none in
      record { stack = sized; detached = detach == pri }

  -- OSA_thrCreate; the handle is written only if the thread is made.
  unfoldable pub thr_create : (pri stack_size : ℕ) → ThrHndl → Sys → Ends (ℤ × ThrHndl × Sys)
  thr_create pri stack_size h s =
      let (status, s') = p.attr_init s in
      if not (eq_ℤ status sok)
      then came_back (status, h, s')
      else let (ret, thread, s'') = p.pthread_create (attr_of pri stack_size) s' in
        if eq_ℤ ret sok
        then came_back (ret, record { hndl = thread }, p.attr_destroy s'')
        else assert_failed

  unfoldable pub thr_join : ThrHndl → Sys → Ends (ℤ × Sys)
  thr_join h s = p.pthread_join h.hndl s

  -- The value of pthread_cancel is overwritten.
  unfoldable pub thr_delete : ThrHndl → Sys → Ends (ℤ × Sys)
  thr_delete h s = thr_join h ((p.pthread_cancel h.hndl s).1)

  -- the priority that OSA_thrChangePri gives to the system
  unfoldable pub limited_pri : ℕ → ℕ
  limited_pri pri =
      if ltb p.priority_max pri
      then p.priority_max
      else if ltb pri p.priority_min
      then p.priority_min
      else pri

  unfoldable pub thr_change_pri : ThrHndl → ℕ → Sys → ℤ × Sys
  thr_change_pri h pri s = p.setschedparam h.hndl (limited_pri pri) s

-- The lock of a mutex: what the calls of pthread_mutex_t that the functions make do to it. The two that
-- make a mutex give 0 or the positive number of an error.
pub record Mutexes (Lock : Type 0) : Type 0 where
  pub mutexattr_init : ℕ
  pub mutex_init : Lock → ℕ × Lock
  pub mutex_destroy : Lock → ℤ × Lock
  pub mutex_lock : Lock → ℤ × Lock
  pub mutex_unlock : Lock → ℤ × Lock

module _ {Lock : Type 0} (m : Mutexes Lock) where
  unfoldable pub mutex_create : Lock → ℤ × Lock
  mutex_create l = let (status, l') = m.mutex_init l in (pos (bit_or m.mutexattr_init status), l')

  -- The value of pthread_mutex_destroy is not looked at.
  unfoldable pub mutex_delete : Lock → ℤ × Lock
  mutex_delete l = (sok, (m.mutex_destroy l).1)

  unfoldable pub mutex_lock : Lock → ℤ × Lock
  mutex_lock l = m.mutex_lock l

  unfoldable pub mutex_unlock : Lock → ℤ × Lock
  mutex_unlock l = m.mutex_unlock l
