-- ===== src/Pipe/Counts.antt =====
-- Which descriptors OSA_CreatePipe leaves open, and what the counts of a pipe say (osa/src/osa_pipe.c).
use osa_base.Base.{
  ℕ, ◌+◌, ◌^◌, ◌<◌, ◌≡◌, ◌≢◌, refl, Bool, true, false, not, ◌||◌, Option, none, some, List, [], ◌∷◌,
  ◌++◌, ◌==◌, if◌then◌else◌, arith, ℤ, pos, sok, efail,
}
use osa_base.Base.Count.{one_if}
use osa_base.Pipe.{
  Pipe, Ends, failed, new_pipe, reserved, System, Made, ends_of, to_ulong, write_to_pipe,
  read_from_pipe, create_pipe, close_first, dodge,
}

-- A message that is written to an empty pipe and read in part, or not at all because read failed,
-- counts as read: the read returns OSA_SOK, and every read after it is refused, whatever is left.
pub stranded :
    (size asked : ℕ) (got later : ℤ) (p : Pipe)
    → 0 < size
    → size < 2 ^ 64
    → 0 < asked
    → to_ulong got ≢ 0
    → p.message_count ≡ 0
    → let (written, p₁) = write_to_pipe size (pos size) p in
      let (read, n, p₂) = read_from_pipe asked got p₁ in
      (written ≡ sok)
      × (read ≡ sok)
      × (n ≡ some (to_ulong got))
      × (read_from_pipe asked later p₂ ≡ (efail, none, p₂))
unfolding write_to_pipe read_from_pipe
stranded size asked got later p hs hl ha hg hc =
    let f : (size == 0) ≡ false = ground arith in
    let g : (asked == 0) ≡ false = ground arith in
    let t : (to_ulong (pos size) == size) ≡ true = ground arith in
    let z : (to_ulong got == 0) ≡ false = ground arith in
    rw (f, t, g, hc, z) (refl, refl, refl, refl)

-- how often a descriptor stands in a list
abbrev pub occurs : ℕ → List ℕ → ℕ
occurs i [] = 0
occurs i (x ∷ xs) = one_if (i == x) + occurs i xs

occurs-append : (i : ℕ) (xs ys : List ℕ) → occurs i (xs ++ ys) ≡ occurs i xs + occurs i ys
occurs-append i [] ys = omega arith
occurs-append i (x ∷ xs) ys = omega (arith, occurs-append i xs ys)

-- If a pipe is made, all descriptors that were opened but its two are closed.
unfoldable Balanced : Made → Type 0
Balanced r =
    r.status ≡ sok
    → (p : Pipe) × (r.pipe ≡ some p)
      × ((i : ℕ) → occurs i r.opened ≡ occurs i r.closed + occurs i (p.read_fd ∷ p.write_fd ∷ []))

failed-Balanced : (opened closed : List ℕ) → Balanced (failed opened closed)
unfolding Balanced
failed-Balanced opened closed e = cc

-- a test of a call, and a pipe that the system may not make
tested :
    (b : Bool) (bad good : Made)
    → Balanced bad
    → Balanced good
    → Balanced (if not b then bad else good)
tested true bad good g h = h
tested false bad good g h = g

either : (b : Bool) (yes no : Made) → Balanced yes → Balanced no → Balanced (if b then yes else no)
either true one other g h = g
either false one other g h = h

piped :
    (e : Option Ends) (bad : Made) (good : Ends → Made)
    → Balanced bad
    → ((x : Ends) → Balanced (good x))
    → Balanced (elim e [ none ↦ bad | some x ↦ good x ])
piped none bad good g h = g
piped (some x) bad good g h = h x

module _ (pipe_size message_size is_fixed_message : ℕ) (sys : System) where
  kept :
      (e : Ends) (opened closed : List ℕ)
      → ((i : ℕ) → occurs i opened ≡ occurs i closed + occurs i (ends_of e))
      → Balanced (record {
        status = sok;
        pipe = some (new_pipe pipe_size message_size is_fixed_message e);
        opened = opened;
        closed = closed;
      })
  unfolding Balanced
  kept e opened closed h = λ _. (new_pipe pipe_size message_size is_fixed_message e, refl, h)

  close_first-Balanced :
      (first backup : Ends) (opened closed : List ℕ)
      → ((i : ℕ)
          → occurs i opened
            ≡ occurs i closed + occurs i (ends_of first) + occurs i (ends_of backup))
      → Balanced
          (close_first pipe_size message_size is_fixed_message sys first backup opened closed)
  unfolding close_first
  close_first-Balanced first backup opened closed h =
      tested sys.close_read _ _ (failed-Balanced opened (closed ++ first.read_end ∷ [])) (
        tested sys.close_write _ _ (failed-Balanced opened (closed ++ ends_of first)) (
          kept backup opened (closed ++ ends_of first)
            (λ i. omega (arith, h i, occurs-append i closed (ends_of first)))))

  dodge-Balanced :
      (first backup : Ends)
      → Balanced (dodge pipe_size message_size is_fixed_message sys first backup)
  unfolding dodge
  dodge-Balanced first backup =
      let opened = ends_of first ++ ends_of backup in
      tested sys.close_backup_read _ _ (failed-Balanced opened (backup.read_end ∷ [])) (
        tested sys.close_backup_write _ _ (failed-Balanced opened (ends_of backup)) (
          piped sys.pipe_dummy _ _ (failed-Balanced opened (ends_of backup)) λ dummy.
            piped sys.pipe_again _ _ (failed-Balanced (opened ++ ends_of dummy) (ends_of backup))
              λ again.
                let opened' = opened ++ ends_of dummy ++ ends_of again in
                tested sys.close_dummy_read _ _
                  (failed-Balanced opened' (ends_of backup ++ dummy.read_end ∷ []))
                  (tested sys.close_dummy_write _ _
                    (failed-Balanced opened' (ends_of backup ++ ends_of dummy))
                    (close_first-Balanced first again opened' (ends_of backup ++ ends_of dummy)
                      (λ i. omega arith)))))

  create_pipe-Balanced : Balanced (create_pipe pipe_size message_size is_fixed_message sys)
  unfolding create_pipe
  create_pipe-Balanced = tested sys.alloc _ _ (failed-Balanced [] []) (
      piped sys.pipe _ _ (failed-Balanced [] []) λ first.
        either (reserved first) _ _
          (tested sys.alloc_backup _ _ (failed-Balanced (ends_of first) []) (
            piped sys.pipe_backup _ _ (failed-Balanced (ends_of first) []) λ backup.
              either (backup.read_end == 2 || backup.write_end == 2) _ _
                (dodge-Balanced first backup)
                (close_first-Balanced first backup (ends_of first ++ ends_of backup) []
                  (λ i. omega arith))))
          (kept first (ends_of first) [] (λ i. omega arith)))

  -- If OSA_CreatePipe returns OSA_SOK it has made a pipe, and of all the descriptors that it opened on
  -- the way exactly the two of that pipe are left open.
  pub create_pipe_open :
      (create_pipe pipe_size message_size is_fixed_message sys).status ≡ sok
      → let r = create_pipe pipe_size message_size is_fixed_message sys in
        (p : Pipe) × (r.pipe ≡ some p)
        × ((i : ℕ) → occurs i r.opened ≡ occurs i r.closed + occurs i (p.read_fd ∷ p.write_fd ∷ []))
  unfolding Balanced
  create_pipe_open e = create_pipe-Balanced e
