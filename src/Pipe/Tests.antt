-- ===== src/Pipe/Tests.antt =====
-- Pipes of a concrete system.
use osa_base.Base.{ℕ, ◌+◌, ◌≡◌, refl, true, some, [], ◌∷◌}
use osa_base.Pipe.{Pipe, Ends, System, new_pipe, create_pipe, close_first, dodge}
use osa_base.Pipe.Counts.{occurs, create_pipe_open}

abbrev pair : ℕ → ℕ → Ends
pair r w = record { read_end = r; write_end = w }

-- the descriptors 0, 1 and 2 are free.
abbrev bare : System
bare = record {
  alloc = true;
  pipe = some (pair 0 1);
  alloc_backup = true;
  pipe_backup = some (pair 2 3);
  close_backup_read = true;
  close_backup_write = true;
  pipe_dummy = some (pair 2 3);
  pipe_again = some (pair 4 5);
  close_dummy_read = true;
  close_dummy_write = true;
  close_read = true;
  close_write = true;
}

abbrev fresh_pipe : Pipe
fresh_pipe = new_pipe 100 10 0 (pair 4 5)

bare_makes : (create_pipe 100 10 0 bare).pipe ≡ some fresh_pipe
unfolding create_pipe dodge close_first
bare_makes = refl

create_pipe_open_example :
    (p : Pipe) × ((create_pipe 100 10 0 bare).pipe ≡ some p)
    × ((i : ℕ)
        → occurs i ((create_pipe 100 10 0 bare).opened)
          ≡ occurs i ((create_pipe 100 10 0 bare).closed) + occurs i (p.read_fd ∷ p.write_fd ∷ []))
unfolding create_pipe dodge close_first
create_pipe_open_example = create_pipe_open 100 10 0 bare refl
