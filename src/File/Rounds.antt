-- ===== src/File/Rounds.antt =====
-- The loop of OSA_fileReadFile in osa/src/osa_file.c, round by round, over a stream without errors.
use osa_base.Base.{
  ℕ, zero, suc, ◌+◌, ◌-◌, ◌*◌, ◌^◌, ◌≤◌, ◌<◌, ◌≡◌, refl, sym, ap, ◌∙◌, true, false, List, ◌++◌,
  if◌then◌else◌, ◌⊎◌, inl, inr, Bool-cases, ltb, ◌==◌, length, take, drop, length-append,
  length-take, take_more, take_all, take_over, take-drop, length-drop, subst, append_cancel,
  write_at, length-write_at, write_at_twice, u32, arith,
}
use osa_base.File.{Disk, Ran, done, overrun, Chunks, read_loop, next_chunk, enough_read}

module _ {File : Type 0} (disk : Disk File) where
  -- An fread gives fewer bytes than it is asked for only at the end of the file: there is no error.
  unfoldable pub Reliable : Type 0
  Reliable = (n : ℕ) (f : File) → (disk.fread n f).0 ≡ take n (disk.left f)

  module _ (reliable : Reliable) where
    left_behind : (n : ℕ) (f : File) → disk.left ((disk.fread n f).1) ≡ drop n (disk.left f)
    unfolding Reliable
    left_behind n f =
        let e : take n (disk.left f) ++ disk.left ((disk.fread n f).1)
            ≡ take n (disk.left f) ++ drop n (disk.left f) =
          sym (ap (λ l. l ++ disk.left ((disk.fread n f).1)) (reliable n f))
          ∙ sym (disk.fread_left n f)
          ∙ take-drop n (disk.left f) in
        (append_cancel (take n (disk.left f)) (take n (disk.left f)) e refl).1

    -- what a round leaves that reads `bs` to the index `at`
    abbrev after : (at : ℕ) → List ℕ → List ℕ → File → Chunks File
    after at bs buf f = record { file_size = at + length bs; buf = write_at at bs buf; file = f }

    -- One round whose bytes fit into the array.
    round :
        (k user c at : ℕ) (buf : List ℕ) (f : File)
        → next_chunk user c ≡ c
        → at + length (take c (disk.left f)) ≤ length buf
        → length buf < 2 ^ 32
        → read_loop disk (suc k) user c at at buf f ≡ (
            let bs = take c (disk.left f) in
            let f' = (disk.fread c f).1 in
            if c == length bs
            then if enough_read user (at + length bs)
              then done (after at bs buf f')
              else read_loop disk k user c (at + c) (at + length bs) (write_at at bs buf) f'
            else done (after at bs buf f'))
    unfolding read_loop Reliable
    round k user c at buf f e fits small =
        let t : ltb (length buf) (at + length (take c (disk.left f))) ≡ false = ground arith in
        let s : u32 (at + length (take c (disk.left f))) ≡ at + length (take c (disk.left f)) =
          omega arith in
        rw (e, reliable c f, t, s)

    -- The bytes `got` are those that the loop adds.
    unfoldable pub Adds : (at : ℕ) (got buf : List ℕ) → Ran (Chunks File) → Type 0
    Adds at got buf ran =
        (r : Chunks File) × (ran ≡ done r)
        × (r.file_size ≡ at + length got)
        × (r.buf ≡ write_at at got buf)

    -- a round that was full, and what the rest adds
    Adds-more :
        (c at : ℕ) (bs got buf : List ℕ) (ran : Ran (Chunks File))
        → length bs ≡ c
        → Adds (at + c) got (write_at at bs buf) ran
        → Adds at (bs ++ got) buf ran
    unfolding Adds
    Adds-more c at bs got buf ran e (r, d, s, b) = (
      r,
      d,
      omega (arith, length-append bs got, e, s),
      b ∙ write_at_twice at (at + c) bs got buf (omega (arith, e)),
    )

    in_chunk : (c : ℕ) (xs : List ℕ) → (c ≤ length xs) ⊎ (length xs < c)
    in_chunk c xs = elim (Bool-cases (ltb (length xs) c)) [
      | inl less ↦ inr (ground arith)
      | inr more ↦ inl (ground arith)
    ]

    -- The end of the file is in the chunk.
    short-Adds :
        (k user c at total : ℕ) (buf : List ℕ) (f : File)
        → next_chunk user c ≡ c
        → length (disk.left f) < c
        → c ≤ total
        → at + length (disk.left f) ≤ length buf
        → length buf < 2 ^ 32
        → Adds at (take total (disk.left f)) buf (read_loop disk (suc k) user c at at buf f)
    unfolding Adds
    short-Adds k user c at total buf f e lt le fits small =
        let all : take c (disk.left f) ≡ disk.left f = take_over c (disk.left f) (omega arith) in
        let all' : take total (disk.left f) ≡ disk.left f =
          take_over total (disk.left f) (omega arith) in
        let ne : (c == length (disk.left f)) ≡ false = ground arith in
        (
          after at (disk.left f) buf ((disk.fread c f).1),
          round k user c at buf f e (omega (arith, ap length all)) small ∙ rw (all, ne),
          rw all',
          rw all',
        )

    -- The chunk is full, and the loop goes on or has read what was asked for.
    full :
        (k user c at : ℕ) (buf : List ℕ) (f : File)
        → next_chunk user c ≡ c
        → c ≤ length (disk.left f)
        → at + c ≤ length buf
        → length buf < 2 ^ 32
        → (length (take c (disk.left f)) ≡ c)
          × (read_loop disk (suc k) user c at at buf f ≡ (
              let buf' = write_at at (take c (disk.left f)) buf in
              let f' = (disk.fread c f).1 in
              if enough_read user (at + c)
              then done (after at (take c (disk.left f)) buf f')
              else read_loop disk k user c (at + c) (at + c) buf' f'))
    full k user c at buf f e le fits small =
        let len : length (take c (disk.left f)) ≡ c = length-take c (disk.left f) le in
        let eq : (c == length (take c (disk.left f))) ≡ true = ground arith in
        (len, round k user c at buf f e (omega (arith, len)) small ∙ rw (eq, len))

    full-Adds :
        (k user c at rest total : ℕ) (buf : List ℕ) (f : File)
        → next_chunk user c ≡ c
        → c ≤ length (disk.left f)
        → at + c ≤ length buf
        → length buf < 2 ^ 32
        → enough_read user (at + c) ≡ false
        → total ≡ c + rest
        → (let buf' = write_at at (take c (disk.left f)) buf in
            let f' = (disk.fread c f).1 in
            Adds
              (at + c)
              (take rest (disk.left f'))
              buf'
              (read_loop disk k user c (at + c) (at + c) buf' f'))
        → Adds at (take total (disk.left f)) buf (read_loop disk (suc k) user c at at buf f)
    full-Adds k user c at rest total buf f e le fits small not_yet sum ih =
        let (len, run) = full k user c at buf f e le fits small in
        let bytes : take c (disk.left f) ++ take rest (disk.left ((disk.fread c f).1))
            ≡ take total (disk.left f) =
          ap (λ l. take c (disk.left f) ++ take rest l) (left_behind c f)
          ∙ take_more c rest (disk.left f)
          ∙ ap (λ n. take n (disk.left f)) (sym sum) in
        rw (run, not_yet, sym bytes)
          (Adds-more c at (take c (disk.left f)) (take rest (disk.left ((disk.fread c f).1))) buf
            (read_loop disk k user c (at + c) (at + c) (write_at at (take c (disk.left f)) buf)
              ((disk.fread c f).1))
            len ih)

    -- A request of `m + 1` chunks.
    pub fills :
        (n c m fuel at : ℕ) (buf : List ℕ) (f : File)
        → at + c * suc m ≡ suc n
        → 0 < c
        → m < fuel
        → suc n ≤ length buf
        → length buf < 2 ^ 32
        → Adds at (take (c * suc m) (disk.left f)) buf (read_loop disk fuel (suc n) c at at buf f)
    unfolding Adds
    fills n c m zero at buf f e h enough fits small = absurd (omega arith)
    fills n c zero (suc k) at buf f e h enough fits small = elim (in_chunk c (disk.left f)) [
      | inr lt ↦
          short-Adds k (suc n) c at (c * 1) buf f (ground arith) lt (omega arith) (omega arith)
            small
      | inl le ↦
          let one : c * 1 ≡ c = omega arith in
          let all : enough_read (suc n) (at + c) ≡ true = ground arith in
          let (len, run) = full k (suc n) c at buf f (ground arith) le (omega arith) small in
          (after at (take c (disk.left f)) buf ((disk.fread c f).1), run ∙ rw all, rw one, rw one)
    ]
    fills n c (suc m) (suc k) at buf f e h enough fits small =
        let c_le : c ≤ suc n = omega arith in
        elim (in_chunk c (disk.left f)) [
          | inr lt ↦
              short-Adds k (suc n) c at (c * suc (suc m)) buf f (ground arith) lt (omega arith)
                (omega arith) small
          | inl le ↦
              let less : at + c < suc n = omega arith in
              full-Adds k (suc n) c at (c * suc m) (c * suc (suc m)) buf f (ground arith) le
                (omega arith) small (ground arith) (omega arith)
                (fills n c m k (at + c) (write_at at (take c (disk.left f)) buf)
                  ((disk.fread c f).1) (omega arith) h (omega arith)
                  (omega (arith, length-write_at at (take c (disk.left f)) buf))
                  (omega (arith, length-write_at at (take c (disk.left f)) buf)))
        ]

    -- A request of the whole file, which the array has room for.
    pub all-Adds :
        (c fuel at : ℕ) (buf : List ℕ) (f : File)
        → 0 < c
        → length (disk.left f) < fuel
        → at + length (disk.left f) ≤ length buf
        → length buf < 2 ^ 32
        → Adds at (disk.left f) buf (read_loop disk fuel 0 c at at buf f)
    all-Adds c zero at buf f h enough fits small = absurd (omega arith)
    all-Adds c (suc k) at buf f h enough fits small = elim (in_chunk c (disk.left f)) [
      | inr lt ↦
          subst (λ l. Adds at l buf (read_loop disk (suc k) 0 c at at buf f))
            (take_over c (disk.left f) (omega arith))
            (short-Adds k 0 c at c buf f refl lt (omega arith) fits small)
      | inl le ↦
          let f' = (disk.fread c f).1 in
          let behind : length (disk.left f') ≡ length (disk.left f) - c =
            ap length (left_behind c f) ∙ length-drop c (disk.left f) in
          let ih =
            all-Adds c k (at + c) (write_at at (take c (disk.left f)) buf) f' h (omega arith)
              (omega (arith, length-write_at at (take c (disk.left f)) buf))
              (omega (arith, length-write_at at (take c (disk.left f)) buf)) in
          subst (λ l. Adds at l buf (read_loop disk (suc k) 0 c at at buf f))
            (take_all (disk.left f))
            (full-Adds k 0 c at (length (disk.left f')) (length (disk.left f)) buf f refl le
              (omega arith) small refl (omega arith)
              (subst
                (λ l. Adds (at + c) l (write_at at (take c (disk.left f)) buf) (
                  read_loop disk k 0 c (at + c) (at + c) (write_at at (take c (disk.left f)) buf)
                    f'))
                (sym (take_all (disk.left f'))) ih))
    ]

    -- A request that is no multiple of the chunk, of a file that is long enough.
    pub overruns :
        (n c m d fuel at : ℕ) (buf : List ℕ) (f : File)
        → at + (c * m + d) ≡ suc n
        → 0 < d
        → d < c
        → c ≤ suc n
        → m < fuel
        → length buf ≡ suc n
        → suc n < 2 ^ 32
        → c * suc m ≤ length (disk.left f)
        → read_loop disk fuel (suc n) c at at buf f ≡ overrun
    unfolding read_loop Reliable
    overruns n c m d zero at buf f e hd hc le enough len small long = absurd (omega arith)
    overruns n c zero d (suc k) at buf f e hd hc le enough len small long =
        let next : next_chunk (suc n) c ≡ c = ground arith in
        let size : length (take c (disk.left f)) ≡ c = length-take c (disk.left f) (omega arith) in
        let over : ltb (length buf) (at + length (take c (disk.left f))) ≡ true = ground arith in
        rw (next, reliable c f, over)
    overruns n c (suc m) d (suc k) at buf f e hd hc le enough len small long =
        let f' = (disk.fread c f).1 in
        let behind : length (disk.left f') ≡ length (disk.left f) - c =
          ap length (left_behind c f) ∙ length-drop c (disk.left f) in
        let next : next_chunk (suc n) c ≡ c = ground arith in
        let less : at + c < suc n = omega arith in
        let (size, run) =
          full k (suc n) c at buf f next (omega arith) (omega arith) (omega arith) in
        let not_yet : enough_read (suc n) (at + c) ≡ false = ground arith in
        run
        ∙ rw not_yet (
            overruns n c m d k (at + c) (write_at at (take c (disk.left f)) buf) f' (omega arith) hd
              hc le (omega arith) (length-write_at at (take c (disk.left f)) buf ∙ len) small
              (omega arith))
