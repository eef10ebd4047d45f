-- ===== src/Pipe.antt =====
-- osa/src/osa_pipe.c: messages through a pipe of the operating system. What pipe, close, read and
-- write return is given to each operation.
pub mod Counts
mod Tests
use osa_base.Base.{
  ℕ, zero, suc, ◌+◌, ◌-◌, ◌%◌, ◌^◌, Bool, true, false, not, ◌&&◌, ◌||◌, Option, none, some, List,
  [], ◌∷◌, ◌++◌, ◌==◌, if◌then◌else◌, length, ℤ, pos, negsuc, sok, efail, eq_ℤ,
}

-- OSA_PIPE. The counts are `int`s, kept as the numbers that they are modulo 2^32.
pub record Pipe : Type 0 where
  pub read_fd : ℕ
  pub write_fd : ℕ
  pub pipe_size : ℕ
  pub message_size : ℕ
  pub is_fixed_message : ℕ
  pub message_count : ℕ
  pub total_bytes_in_pipe : ℕ

-- `x += n` and `x -= n` of an `int` by an `unsigned long`: the low 32 bits of the result
abbrev pub add_32 : ℕ → ℕ → ℕ
add_32 x n = (x + n) % 2 ^ 32

abbrev pub sub_32 : ℕ → ℕ → ℕ
sub_32 x n = (x + (2 ^ 32 - n % 2 ^ 32)) % 2 ^ 32

-- the conversion of a `ssize_t` to `unsigned long`: -1 is the largest number.
abbrev pub to_ulong : ℤ → ℕ
to_ulong (pos n) = n % 2 ^ 64
to_ulong (negsuc n) = 2 ^ 64 - 1 - n % 2 ^ 64

-- OSA_WriteToPipe; `written` is what write returns.
unfoldable pub write_to_pipe : (size : ℕ) → (written : ℤ) → Pipe → ℤ × Pipe
write_to_pipe size written p =
    if size == 0 then (efail, p) else if not (to_ulong written == size) then (efail, p) else (
      sok,
      record p {
        message_count = add_32 p.message_count 1;
        total_bytes_in_pipe = add_32 p.total_bytes_in_pipe size;
      },
    )

-- OSA_ReadFromPipe; `got` is what read returns, and the second value is `*actualSize` if it is set.
unfoldable pub read_from_pipe : (size : ℕ) → (got : ℤ) → Pipe → ℤ × Option ℕ × Pipe
read_from_pipe size got p =
    if size == 0 || p.message_count == 0
    then (efail, none, p)
    else if to_ulong got == 0
    then (efail, some (to_ulong got), p)
    else (
      sok,
      some (to_ulong got),
      record p {
        message_count = sub_32 p.message_count 1;
        total_bytes_in_pipe = sub_32 p.total_bytes_in_pipe size;
      },
    )

-- the two ends that a successful call of pipe makes
pub record Ends : Type 0 where
  pub read_end : ℕ
  pub write_end : ℕ

-- What the system does about OSA_CreatePipe: whether OSA_memAlloc gives memory, each time; the ends
-- of each call of pipe, if it succeeds; and which calls of close do, in the order of the calls.
pub record System : Type 0 where
  pub alloc : Bool
  pub pipe : Option Ends
  pub alloc_backup : Bool
  pub pipe_backup : Option Ends
  pub close_backup_read : Bool
  pub close_backup_write : Bool
  pub pipe_dummy : Option Ends
  pub pipe_again : Option Ends
  pub close_dummy_read : Bool
  pub close_dummy_write : Bool
  pub close_read : Bool
  pub close_write : Bool

-- what OSA_CreatePipe leaves: its value, `*pPipe`, and the descriptors that it opened and that it
-- gave to close
pub record Made : Type 0 where
  pub status : ℤ
  pub pipe : Option Pipe
  pub opened : List ℕ
  pub closed : List ℕ

abbrev pub ends_of : Ends → List ℕ
ends_of e = e.read_end ∷ e.write_end ∷ []

-- the handle at the end of OSA_CreatePipe
abbrev pub new_pipe : (pipe_size message_size is_fixed_message : ℕ) → Ends → Pipe
new_pipe pipe_size message_size is_fixed_message e = record {
  read_fd = e.read_end;
  write_fd = e.write_end;
  pipe_size = pipe_size;
  message_size = message_size;
  is_fixed_message = is_fixed_message;
  message_count = 0;
  total_bytes_in_pipe = 0;
}

abbrev pub failed : (opened closed : List ℕ) → Made
failed opened closed = record { status = efail; pipe = none; opened = opened; closed = closed }

-- `pfd[0] == 0 || ... || pfd[1] == 2`
abbrev pub reserved : Ends → Bool
reserved e =
    e.read_end == 0
    || e.read_end == 1
    || e.read_end == 2
    || e.write_end == 0
    || e.write_end == 1
    || e.write_end == 2

module _ (pipe_size message_size is_fixed_message : ℕ) (sys : System) where
  -- the end of the branch for reserved descriptors: the first pipe is closed, the backup is kept.
  unfoldable pub close_first : Ends → Ends → (opened closed : List ℕ) → Made
  close_first first backup opened closed =
      if not sys.close_read
      then failed opened (closed ++ first.read_end ∷ [])
      else if not sys.close_write
      then failed opened (closed ++ ends_of first)
      else record {
        status = sok;
        pipe = some (new_pipe pipe_size message_size is_fixed_message backup);
        opened = opened;
        closed = closed ++ ends_of first;
      }

  -- the block with `pfdDummy`, once the backup has the descriptor 2
  unfoldable pub dodge : Ends → Ends → Made
  unfolding close_first
  dodge first backup =
      let opened = ends_of first ++ ends_of backup in
      if not sys.close_backup_read
      then failed opened (backup.read_end ∷ [])
      else if not sys.close_backup_write
      then failed opened (ends_of backup)
      else elim sys.pipe_dummy [
        | none ↦ failed opened (ends_of backup)
        | some dummy ↦ elim sys.pipe_again [
          | none ↦ failed (opened ++ ends_of dummy) (ends_of backup)
          | some again ↦
              let opened' = opened ++ ends_of dummy ++ ends_of again in
              if not sys.close_dummy_read
              then failed opened' (ends_of backup ++ dummy.read_end ∷ [])
              else if not sys.close_dummy_write
              then failed opened' (ends_of backup ++ ends_of dummy)
              else close_first first again opened' (ends_of backup ++ ends_of dummy)
        ]
      ]

  -- OSA_CreatePipe
  unfoldable pub create_pipe : Made
  unfolding close_first dodge
  create_pipe = if not sys.alloc then failed [] [] else elim sys.pipe [
    | none ↦ failed [] []
    | some first ↦
        if reserved first
        then (if not sys.alloc_backup then failed (ends_of first) [] else elim sys.pipe_backup [
          | none ↦ failed (ends_of first) []
          | some backup ↦
              if backup.read_end == 2 || backup.write_end == 2
              then dodge first backup
              else close_first first backup (ends_of first ++ ends_of backup) []
        ])
        else record {
          status = sok;
          pipe = some (new_pipe pipe_size message_size is_fixed_message first);
          opened = ends_of first;
          closed = [];
        }
  ]

-- OSA_DeletePipe; `none` is NULL. The other two are what the two calls of close return, and the second
-- value are the descriptors that are given to close.
unfoldable pub delete_pipe : Option Pipe → (read_closed write_closed : ℤ) → ℤ × List ℕ
delete_pipe none read_closed write_closed = (efail, [])
delete_pipe (some p) read_closed write_closed = (
  if not (eq_ℤ write_closed (pos 0))
      then efail
      else if not (eq_ℤ read_closed (pos 0))
      then efail
      else sok,
  p.read_fd ∷ p.write_fd ∷ [],
)
