-- ===== src/File/Read.antt =====
-- What OSA_fileReadFile of osa/src/osa_file.c puts into the caller's array.
use osa_base.Base.{
  ℕ, zero, suc, ◌+◌, ◌*◌, ◌^◌, ◌≤◌, ◌<◌, ◌≡◌, min, refl, sym, ap, ◌∙◌, subst, Bool, some, List,
  length, take, write_at, sok, arith,
}
use native.Mathlib.Nat.{zero-add}
use osa_base.File.{
  Disk, Ran, done, overrun, ReadFile, read_chunk, read_loop, read_file, report, next_chunk,
}
use osa_base.File.Rounds.{Reliable, Adds, fills, all-Adds, overruns}

module _ {File : Type 0} (disk : Disk File) where
  -- The call has put `got` at the start of the array, and reports how many bytes they are.
  pub Gives : (got addr : List ℕ) → Bool → Ran (ReadFile File) → Type 0
  Gives got addr wanted ran =
      (r : ReadFile File) × (ran ≡ done r)
      × (r.status ≡ sok)
      × (r.actual ≡ report wanted (length got))
      × (r.buf ≡ write_at 0 got addr)

  -- a chunk that is not larger than the request
  same_rounds :
      (fuel user c at size : ℕ) (buf : List ℕ) (f : File)
      → next_chunk user (next_chunk user c) ≡ next_chunk user c
      → read_loop disk fuel user c at size buf f
        ≡ read_loop disk fuel user (next_chunk user c) at size buf f
  unfolding read_loop
  same_rounds zero user c at size buf f e = refl
  same_rounds (suc k) user c at size buf f e = rw e

  read_file-Gives :
      (reliable : Reliable disk) (fuel size : ℕ) (f f' : File) (got addr : List ℕ) (wanted : Bool)
      → disk.fopen_read f ≡ some f'
      → Adds disk reliable 0 got addr (read_loop disk fuel size read_chunk 0 0 addr f')
      → Gives got addr wanted (read_file disk fuel f addr size wanted)
  unfolding read_file Gives Adds
  read_file-Gives reliable fuel size f f' got addr wanted opened (r, run, counted, placed) = (
    record {
      status = sok;
      actual = report wanted r.file_size;
      buf = r.buf;
      file = (disk.fclose r.file).1;
    },
    rw (read_file, opened, run),
    refl,
    ap (report wanted) (counted ∙ zero-add (length got)),
    placed,
  )

  -- OSA_fileReadFile with a size that is at most 6221760 bytes, or a multiple of as many, on a file that
  -- can be opened and is read without errors, into an array of at least that size: the array has the
  -- first `size` bytes of the file, or the whole file if that is shorter, at its start and is
  -- unchanged behind them, and their number is reported. As many rounds are enough as there are chunks.
  pub read_file-take :
      (reliable : Reliable disk) (fuel n m : ℕ) (f f' : File) (addr : List ℕ) (wanted : Bool)
      → disk.fopen_read f ≡ some f'
      → min (suc n) read_chunk * suc m ≡ suc n
      → suc n ≤ length addr
      → length addr < 2 ^ 32
      → m < fuel
      → Gives
          (take (suc n) (disk.content f))
          addr
          wanted
          (read_file disk fuel f addr (suc n) wanted)
  read_file-take reliable fuel n m f f' addr wanted opened parts fits small enough =
      let c = next_chunk (suc n) read_chunk in
      let c_min : c ≡ min (suc n) read_chunk = ground arith in
      let parts' : c * suc m ≡ suc n = ap (λ k. k * suc m) c_min ∙ parts in
      let fixed : next_chunk (suc n) c ≡ c = ground arith in
      read_file-Gives reliable fuel (suc n) f f' (take (suc n) (disk.content f)) addr wanted opened
        (rw
          (
            same_rounds fuel (suc n) read_chunk 0 0 addr f' fixed,
            sym (disk.fopen_read_left f f' opened),
          )
          (subst
            (λ k.
              Adds disk reliable 0 (take k (disk.left f')) addr
                (read_loop disk fuel (suc n) c 0 0 addr f'))
            parts'
            (fills disk reliable n c m fuel 0 addr f' (omega (arith, parts')) (ground arith) enough
              fits small)))

  -- OSA_fileReadFile with a size of 0, on a file that can be opened and is read without errors, into an
  -- array that it fits in: the array has the whole file at its start and is unchanged behind it, and the
  -- size of the file is reported. One round more than there are bytes is enough.
  pub read_file-whole :
      (reliable : Reliable disk) (fuel : ℕ) (f f' : File) (addr : List ℕ) (wanted : Bool)
      → disk.fopen_read f ≡ some f'
      → length (disk.content f) ≤ length addr
      → length addr < 2 ^ 32
      → length (disk.content f) < fuel
      → Gives (disk.content f) addr wanted (read_file disk fuel f addr 0 wanted)
  read_file-whole reliable fuel f f' addr wanted opened fits small enough =
      read_file-Gives reliable fuel 0 f f' (disk.content f) addr wanted opened (
        rw (sym (disk.fopen_read_left f f' opened)) (
          all-Adds disk reliable read_chunk fuel 0 addr f' (omega arith)
            (omega (arith, ap length (disk.fopen_read_left f f' opened)))
            (omega (arith, ap length (disk.fopen_read_left f f' opened))) small))

  -- OSA_fileReadFile with a size above 6221760 that is no multiple of it, into an array of that size, on
  -- a file that can be opened, is read without errors and has as many chunks as the size rounded up:
  -- the loop writes behind the end of the array.
  pub read_file-overruns :
      (reliable : Reliable disk) (fuel m d : ℕ) (f f' : File) (addr : List ℕ) (wanted : Bool)
      → disk.fopen_read f ≡ some f'
      → length addr ≡ read_chunk * suc m + suc d
      → suc d < read_chunk
      → length addr < 2 ^ 32
      → read_chunk * suc (suc m) ≤ length (disk.content f)
      → suc m < fuel
      → read_file disk fuel f addr (length addr) wanted ≡ overrun
  unfolding read_file
  read_file-overruns reliable fuel m d f f' addr wanted opened size part small long enough =
      let n = read_chunk * suc m + d in
      let size' : length addr ≡ suc n = omega (arith, size) in
      let run : read_loop disk fuel (suc n) read_chunk 0 0 addr f' ≡ overrun =
        overruns disk reliable n read_chunk (suc m) (suc d) fuel 0 addr f' (omega arith)
          (omega arith) part (omega arith) enough size' (omega arith)
          (omega (arith, ap length (disk.fopen_read_left f f' opened))) in
      rw (read_file, opened, size', run)
