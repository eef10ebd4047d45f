-- ===== src/File.antt =====
-- osa/src/osa_file.c: reading and appending to a file in chunks. What the C library does with the
-- stream is the section's parameter `Disk`. `content` are the bytes of the file, `left` those
-- behind the position of a stream that is open for reading. The messages carry no data.
pub mod Rounds
pub mod Read
pub mod Write
pub mod Stored
mod Tests
use osa_base.Base.{
  of_u32, ℕ, zero, suc, ◌+◌, ◌-◌, ◌*◌, ◌≤◌, ◌≡◌, Bool, true, false, Option, none, some, List, ◌++◌,
  if◌then◌else◌, ltb, ◌==◌, length, take, drop, ℤ, pos, negsuc, sok, efail, u32, write_at,
}

pub record Disk (File : Type 0) : Type 0 where
  pub fopen_read : File → Option File
  pub fopen_append : File → Option File
  pub fread : ℕ → File → List ℕ × File
  pub fwrite : List ℕ → File → ℕ × File
  pub fflush : File → ℤ × File
  pub fclose : File → ℤ × File
  pub content : File → List ℕ
  pub left : File → List ℕ
  pub fopen_read_left : (f f' : File) → fopen_read f ≡ some f' → left f' ≡ content f
  pub fopen_append_content : (f f' : File) → fopen_append f ≡ some f' → content f' ≡ content f
  pub fread_left : (n : ℕ) (f : File) → left f ≡ (fread n f).0 ++ left ((fread n f).1)
  pub fwrite_le : (bs : List ℕ) (f : File) → (fwrite bs f).0 ≤ length bs
  pub fwrite_content :
      (bs : List ℕ) (f : File) → content ((fwrite bs f).1) ≡ content f ++ take ((fwrite bs f).0) bs
  pub fflush_content : (f : File) → (fflush f).0 ≡ sok → content ((fflush f).1) ≡ content f
  pub fclose_content : (f : File) → (fclose f).0 ≡ sok → content ((fclose f).1) ≡ content f

-- How a function ends: an access behind the end of the caller's array has no meaning, and a loop
-- can use up its fuel.
pub data Ran (A : Type 0) : Type 0 where
  done : A → Ran A
  overrun : Ran A
  unfinished : Ran A

-- what the loop of OSA_fileReadFile leaves: `fileSize`, the caller's array, and the stream
pub record Chunks (File : Type 0) : Type 0 where
  pub file_size : ℕ
  pub buf : List ℕ
  pub file : File

-- what OSA_fileReadFile leaves: its value, `*actualReadSize` unless it was NULL, the array, the file
pub record ReadFile (File : Type 0) : Type 0 where
  pub status : ℤ
  pub actual : Option ℕ
  pub buf : List ℕ
  pub file : File

abbrev pub read_chunk : ℕ
read_chunk = 6221760

abbrev pub write_chunk : ℕ
write_chunk = 96 * 1024

-- the size of the next fread
abbrev pub next_chunk : ℕ → ℕ → ℕ
next_chunk zero chunk = chunk
next_chunk (suc n) chunk = if ltb (suc n) chunk then suc n else chunk

-- whether the loop ends though the last fread gave all that it was asked for
abbrev pub enough_read : ℕ → ℕ → Bool
enough_read zero size = false
enough_read (suc n) size = suc n == size

-- `if(actualReadSize != NULL) *actualReadSize = fileSize`
abbrev pub report : Bool → ℕ → Option ℕ
report true size = some size
report false size = none

module _ {File : Type 0} (disk : Disk File) where
  -- the loop of OSA_fileReadFile: `user` is `userReadSize`, `at` the index of `curAddr` in the array
  unfoldable pub read_loop : ℕ → ℕ → ℕ → (at size : ℕ) → (buf : List ℕ) → File → Ran (Chunks File)
  read_loop zero user chunk at size buf f = unfinished
  read_loop (suc fuel) user chunk at size buf f =
      let n = next_chunk user chunk in
      let (bs, f') = disk.fread n f in
      let size' = u32 (size + length bs) in
      let buf' = write_at at bs buf in
      let rest = read_loop fuel user n (at + n) size' buf' f' in
      if ltb (length buf) (at + length bs)
      then overrun
      else if n == length bs
      then if enough_read user size'
        then done (record { file_size = size'; buf = buf'; file = f' })
        else rest
      else done (record { file_size = size'; buf = buf'; file = f' })

  unfoldable pub read_file : ℕ → File → List ℕ → ℕ → Bool → Ran (ReadFile File)
  read_file fuel f addr read_size wanted = elim (disk.fopen_read f) [
    | none ↦ done (record { status = efail; actual = report wanted 0; buf = addr; file = f })
    | some f' ↦ elim (read_loop fuel read_size read_chunk 0 0 addr f') [
      | done r ↦ done (record {
        status = sok;
        actual = report wanted r.file_size;
        buf = r.buf;
        file = (disk.fclose r.file).1;
      })
      | overrun ↦ overrun
      | unfinished ↦ unfinished
    ]
  ]

  -- the loop of OSA_fileWriteFile on the `int` `fileSize`
  unfoldable pub write_loop : ℕ → ℤ → ℕ → (at : ℕ) → List ℕ → File → Ran (ℤ × File)
  write_loop zero size chunk at addr f = unfinished
  write_loop (suc fuel) (negsuc n) chunk at addr f = done (sok, f)
  write_loop (suc fuel) (pos zero) chunk at addr f = done (sok, f)
  write_loop (suc fuel) (pos (suc n)) chunk at addr f =
      let m = if ltb (suc n) chunk then suc n else chunk in
      let (w, f') = disk.fwrite (take m (drop at addr)) f in
      let rest = write_loop fuel (pos (suc n - m)) m (at + m) addr f' in
      if ltb (length addr) (at + m) then overrun else if w == m then rest else done (efail, f')

  -- The values of fflush and fclose are not looked at.
  unfoldable pub finish_write : ℤ → File → ℤ × File
  finish_write ret f = (ret, (disk.fclose ((disk.fflush f).1)).1)

  unfoldable pub write_file : ℕ → File → List ℕ → ℕ → Ran (ℤ × File)
  write_file fuel f addr zero = done (sok, f)
  write_file fuel f addr (suc n) = elim (disk.fopen_append f) [
    | none ↦ done (efail, f)
    | some f' ↦ elim (write_loop fuel (of_u32 (suc n)) write_chunk 0 addr f') [
      | done (ret, f'') ↦ done (finish_write ret f'')
      | overrun ↦ overrun
      | unfinished ↦ unfinished
    ]
  ]
