-- ===== src/File/Write.antt =====
-- What OSA_fileWriteFile of osa/src/osa_file.c adds to a file, and what can be read of it.
use osa_base.Base.{
  ℕ, zero, suc, ◌+◌, ◌-◌, ◌^◌, ◌≤◌, ◌<◌, ◌≡◌, refl, sym, ap, ◌∙◌, subst, true, false, some, List,
  ◌++◌, append-nil, append_assoc, if◌then◌else◌, ◌⊎◌, inl, inr, Bool-cases, ltb, ◌==◌, length, take,
  drop, length-take, length-drop, take_more, take-take, take_all, ℤ, pos, negsuc, sok, efail,
  of_u32, arith,
}
use osa_base.File.{Disk, done, write_chunk, write_loop, finish_write, write_file, read_file}
use osa_base.File.Rounds.{Reliable}
use osa_base.File.Read.{Gives, read_file-whole}

module _ {File : Type 0} (disk : Disk File) where
  -- fflush and fclose report no error.
  unfoldable pub Flushes : Type 0
  Flushes = (f : File) → ((disk.fflush f).0 ≡ sok) × ((disk.fclose f).0 ≡ sok)

  -- an fwrite that takes fewer bytes than it is given
  unfoldable pub Refuses : Type 0
  Refuses = (bs : List ℕ) × (f : File) × ((disk.fwrite bs f).0 < length bs)

  -- The file has the first `k` bytes of the array behind what it had. `k` is all `len` of them if the
  -- status is `OSA_SOK`; it is fewer if the status is `OSA_EFAIL`, and then an fwrite took fewer.
  pub record Appended (base addr : List ℕ) (len : ℕ) (r : ℤ × File) : Type 0 where
    pub k : ℕ
    pub given : disk.content (r.1) ≡ base ++ take k addr
    pub ends : ((r.0 ≡ sok) × (k ≡ len)) ⊎ ((r.0 ≡ efail) × (k < len) × Refuses)

  write_given :
      (base addr : List ℕ) (at m : ℕ) (f : File)
      → disk.content f ≡ base ++ take at addr
      → at + m ≤ length addr
      → let (w, f') = disk.fwrite (take m (drop at addr)) f in
        (length (take m (drop at addr)) ≡ m)
        × (w ≤ m)
        × (disk.content f' ≡ base ++ take (at + w) addr)
  write_given base addr at m f g fits =
      let slice = take m (drop at addr) in
      let w = (disk.fwrite slice f).0 in
      let size : length slice ≡ m =
        length-take m (drop at addr) (omega (arith, length-drop at addr)) in
      let le : w ≤ m = omega (arith, disk.fwrite_le slice f) in
      (
        size,
        le,
        disk.fwrite_content slice f
            ∙ ap (λ l. l ++ take w slice) g
            ∙ ap (λ l. (base ++ take at addr) ++ l) (take-take m w (drop at addr) le)
            ∙ append_assoc base (take at addr) (take w (drop at addr))
            ∙ ap (λ l. base ++ l) (take_more at w addr),
      )

  loop-Appended :
      (base addr : List ℕ) (len fuel rem chunk at : ℕ) (f : File)
      → len ≤ length addr
      → at + rem ≡ len
      → rem < fuel
      → 0 < chunk
      → disk.content f ≡ base ++ take at addr
      → (r : ℤ × File) × (write_loop disk fuel (pos rem) chunk at addr f ≡ done r)
        × Appended base addr len r
  unfolding write_loop Refuses
  loop-Appended base addr len zero rem chunk at f fits e enough h g = absurd (omega arith)
  loop-Appended base addr len (suc k) zero chunk at f fits e enough h g =
      ((sok, f), refl, record { k = at; given = g; ends = inl (refl, omega arith) })
  loop-Appended base addr len (suc k) (suc n) chunk at f fits e enough h g =
      let m = if ltb (suc n) chunk then suc n else chunk in
      let m_pos : 0 < m = ground arith in
      let m_le : m ≤ suc n = ground arith in
      let inside : ltb (length addr) (at + m) ≡ false = ground arith in
      let slice = take m (drop at addr) in
      let w = (disk.fwrite slice f).0 in
      let (size, le, g') = write_given base addr at m f g (omega arith) in
      elim (Bool-cases (w == m)) [
        | inl all ↦
            let whole : at + w ≡ at + m = ground arith in
            let (r, run, d) =
              loop-Appended base addr len k (suc n - m) m (at + m) ((disk.fwrite slice f).1) fits
                (omega arith) (omega arith) m_pos (g' ∙ ap (λ i. base ++ take i addr) whole) in
            (r, rw (inside, all) run, d)
        | inr less ↦
            let less_m : w < m = ground arith in
            let lt : at + w < len = omega arith in
            let short : w < length slice = omega (arith, size, less_m) in
            (
              (efail, (disk.fwrite slice f).1),
              rw (inside, less),
              record { k = at + w; given = g'; ends = inr (refl, lt, (slice, f, short)) },
            )
      ]

  kept : Flushes → (f : File) → disk.content ((disk.fclose ((disk.fflush f).1)).1) ≡ disk.content f
  unfolding Flushes
  kept flushes f =
      disk.fclose_content ((disk.fflush f).1) ((flushes ((disk.fflush f).1)).1)
      ∙ disk.fflush_content f ((flushes f).0)

  -- OSA_fileWriteFile of fewer than `2 ^ 31` bytes that the array holds, to a file that can be opened and
  -- whose flush and close report no error, ends within `size + 1` rounds. The file then has its old
  -- bytes and the first `k` of the array; the status is `OSA_SOK` and `k` is all of them, or it is
  -- `OSA_EFAIL`, `k` is fewer, and there is an fwrite that takes fewer bytes than it is given.
  pub write_file-Appended :
      (fuel size : ℕ) (f f' : File) (addr : List ℕ)
      → disk.fopen_append f ≡ some f'
      → Flushes
      → size ≤ length addr
      → size < 2 ^ 31
      → size < fuel
      → (r : ℤ × File) × (write_file disk fuel f addr size ≡ done r)
        × Appended (disk.content f) addr size r
  unfolding write_file finish_write
  write_file-Appended fuel zero f f' addr opened flushes fits small enough = (
    (sok, f),
    refl,
    record { k = 0; given = sym (append-nil (disk.content f)); ends = inl (refl, refl) },
  )
  write_file-Appended fuel (suc n) f f' addr opened flushes fits small enough =
      let positive : of_u32 (suc n) ≡ pos (suc n) = ground arith in
      let start : disk.content f' ≡ disk.content f ++ take 0 addr =
        disk.fopen_append_content f f' opened ∙ sym (append-nil (disk.content f)) in
      let ((ret, g), run, d) =
        loop-Appended (disk.content f) addr (suc n) fuel (suc n) write_chunk 0 f' fits (omega arith)
          enough (omega arith) start in
      (
        finish_write disk ret g,
        rw (write_file, opened, positive, run),
        record { k = d.k; given = kept flushes g ∙ d.given; ends = d.ends },
      )

  -- OSA_fileWriteFile of `2 ^ 31` bytes or more, to a file that can be opened and whose flush and close
  -- report no error, returns `OSA_SOK` and adds nothing to the file.
  pub write_file-negative :
      (fuel size : ℕ) (f f' : File) (addr : List ℕ)
      → disk.fopen_append f ≡ some f'
      → Flushes
      → 2 ^ 31 ≤ size
      → size < 2 ^ 32
      → 0 < fuel
      → (f'' : File) × (write_file disk fuel f addr size ≡ done (sok, f''))
        × (disk.content f'' ≡ disk.content f)
  unfolding write_file write_loop finish_write
  write_file-negative fuel zero f f' addr opened flushes large small enough = absurd (omega arith)
  write_file-negative zero (suc n) f f' addr opened flushes large small enough =
      absurd (omega arith)
  write_file-negative (suc k) (suc n) f f' addr opened flushes large small enough =
      let negative : of_u32 (suc n) ≡ negsuc (4294967295 - suc n) = ground arith in
      (
        (finish_write disk sok f').1,
        rw (write_file, opened, negative),
        kept flushes f' ∙ disk.fopen_append_content f f' opened,
      )

  -- The file can be opened, and the system and the disk give and take what they are asked for.
  pub record Working : Type 0 where
    pub opens_read : (f : File) → (f' : File) × (disk.fopen_read f ≡ some f')
    pub opens_append : (f : File) → (f' : File) × (disk.fopen_append f ≡ some f')
    pub reads : Reliable disk
    pub writes : (bs : List ℕ) (f : File) → (disk.fwrite bs f).0 ≡ length bs
    pub flushes : Flushes

  write_file-whole :
      (working : Working) (fuel : ℕ) (f : File) (addr : List ℕ)
      → length addr < 2 ^ 31
      → length addr < fuel
      → (f' : File) × (write_file disk fuel f addr (length addr) ≡ done (sok, f'))
        × (disk.content f' ≡ disk.content f ++ addr)
  unfolding Refuses
  write_file-whole working fuel f addr small enough =
      let (g, opened) = working.opens_append f in
      let ((ret, f'), run, d) =
        write_file-Appended fuel (length addr) f g addr opened working.flushes (omega arith) small
          enough in
      elim d.ends [
        | inl (status, all) ↦ (
          f',
          run ∙ ap (λ s. done (s, f')) status,
          d.given ∙ ap (λ l. disk.content f ++ l) (ap (λ k. take k addr) all ∙ take_all addr),
        )
        | inr (status, less, (bs, h, short)) ↦ absurd (omega (arith, working.writes bs h))
      ]

  -- On a file that can always be opened, read, written and flushed: OSA_fileWriteFile of a whole array of
  -- fewer than `2 ^ 31` bytes returns `OSA_SOK`, and OSA_fileReadFile of size 0 into an array that is large
  -- enough then gives what the file had before, followed by those bytes.
  pub write_file-read :
      (working : Working) (fuel : ℕ) (f : File) (addr buf : List ℕ)
      → length addr < 2 ^ 31
      → length (disk.content f ++ addr) ≤ length buf
      → length buf < 2 ^ 32
      → length (disk.content f ++ addr) < fuel
      → length addr < fuel
      → (f' : File) × (write_file disk fuel f addr (length addr) ≡ done (sok, f'))
        × Gives disk (disk.content f ++ addr) buf true (read_file disk fuel f' buf 0 true)
  write_file-read working fuel f addr buf small fits bound enough enough' =
      let (f', run, same) = write_file-whole working fuel f addr small enough' in
      let (g, opened) = working.opens_read f' in
      (
        f',
        run,
        subst (λ l. Gives disk l buf true (read_file disk fuel f' buf 0 true)) same
            (read_file-whole disk working.reads fuel f' g buf true opened
              (omega (arith, ap length same)) bound (omega (arith, ap length same))),
      )
