-- ===== src/File/Tests.antt =====
-- Reading and writing of files in memory.
use osa_base.Base.{
  ℕ, ◌*◌, ◌+◌, ◌≡◌, refl, true, false, List, [], ◌∷◌, ◌++◌, replicate, length, take, sok, efail, ℤ,
  arith,
}
use osa_base.File.{Ran, done, overrun, read_chunk, read_file, write_file}
use osa_base.File.Read.{Gives, read_file-take, read_file-overruns}
use osa_base.File.Write.{Appended, write_file-Appended, write_file-read}
use osa_base.File.Stored.{
  Stored, stored, stored-Reliable, stored-Flushes, stored-Working, filled, length-filled,
}

abbrev note : Stored
note = record { bytes = 3 ∷ 1 ∷ 4 ∷ 1 ∷ 5 ∷ []; rest = [] }

abbrev at_start : Stored
at_start = record { bytes = 3 ∷ 1 ∷ 4 ∷ 1 ∷ 5 ∷ []; rest = 3 ∷ 1 ∷ 4 ∷ 1 ∷ 5 ∷ [] }

abbrev room : List ℕ
room = replicate 8 0

read_file-take_example :
    Gives (stored false) (3 ∷ 1 ∷ 4 ∷ []) room true (read_file (stored false) 1 note room 3 true)
read_file-take_example =
    read_file-take (stored false) (stored-Reliable false) 1 2 0 note at_start room true refl
      (omega arith) (omega arith) (omega arith) (omega arith)

abbrev big_room : List ℕ
big_room = filled (read_chunk * 1 + 5)

abbrev long : Stored
long = record { bytes = filled (read_chunk * 2); rest = [] }

abbrev long_start : Stored
long_start = record { bytes = filled (read_chunk * 2); rest = filled (read_chunk * 2) }

read_file-overruns_example :
    read_file (stored false) 2 long big_room (length big_room) true ≡ overrun
read_file-overruns_example =
    read_file-overruns (stored false) (stored-Reliable false) 2 0 4 long long_start big_room true
      refl (length-filled (read_chunk * 1 + 5)) (omega arith)
      (omega (arith, length-filled (read_chunk * 1 + 5)))
      (omega (arith, length-filled (read_chunk * 2))) (omega arith)

write_file-Appended_example :
    (r : ℤ × Stored) × (write_file (stored true) 9 note room 4 ≡ done r)
    × Appended (stored true) note.bytes room 4 r
write_file-Appended_example =
    write_file-Appended (stored true) 9 4 note note room refl (stored-Flushes true) (omega arith)
      (omega arith) (omega arith)

write_file-read_example :
    (f : Stored) × (write_file (stored false) 20 note (9 ∷ 2 ∷ []) 2 ≡ done (sok, f))
    × Gives
        (stored false)
        (3 ∷ 1 ∷ 4 ∷ 1 ∷ 5 ∷ 9 ∷ 2 ∷ [])
        room
        true
        (read_file (stored false) 20 f room 0 true)
write_file-read_example =
    write_file-read (stored false) stored-Working 20 note (9 ∷ 2 ∷ []) room (omega arith)
      (omega arith) (omega arith) (omega arith) (omega arith)

short_write :
    write_file (stored true) 9 note room 4
    ≡ done (efail, record note { bytes = note.bytes ++ take 3 room })
unfolding write_file osa_base.File.write_loop osa_base.File.finish_write
short_write = refl
