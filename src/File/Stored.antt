-- ===== src/File/Stored.antt =====
-- A file in memory for the tests: a read error never comes, and if `short` every fwrite takes one
-- byte less than it is given.
use osa_base.Base.{
  zero, suc, [], ◌∷◌, ℕ, ◌-◌, ◌≤◌, ◌≡◌, refl, sym, ap, some_eq, Bool, false, some, List, ◌++◌,
  if◌then◌else◌, length, take, drop, take-drop, sok, arith,
}
use osa_base.File.{Disk}
use osa_base.File.Rounds.{Reliable}
use osa_base.File.Write.{Working, Flushes}

pub record Stored : Type 0 where
  pub bytes : List ℕ
  pub rest : List ℕ

pub opened_left : (f f' : Stored) → some (record f { rest = f.bytes }) ≡ some f' → f'.rest ≡ f.bytes
opened_left f f' e = sym (ap (λ g. g.rest) (some_eq e))

module _ (short : Bool) where
  abbrev pub taken : List ℕ → ℕ
  taken bs = if short then length bs - 1 else length bs

  pub taken_le : (bs : List ℕ) → taken bs ≤ length bs
  taken_le bs = ground arith

  abbrev pub stored : Disk Stored
  stored = record {
    fopen_read = λ f. some (record f { rest = f.bytes });
    fopen_append = λ f. some f;
    fread = λ n f. (take n f.rest, record f { rest = drop n f.rest });
    fwrite = λ bs f. (taken bs, record f { bytes = f.bytes ++ take (taken bs) bs });
    fflush = λ f. (sok, f);
    fclose = λ f. (sok, f);
    content = λ f. f.bytes;
    left = λ f. f.rest;
    fopen_read_left = opened_left;
    fopen_append_content = λ f f' e. ap (λ g. g.bytes) (sym (some_eq e));
    fread_left = λ n f. take-drop n f.rest;
    fwrite_le = λ bs f. taken_le bs;
    fwrite_content = λ bs f. refl;
    fflush_content = λ f e. refl;
    fclose_content = λ f e. refl;
  }

  pub stored-Reliable : Reliable stored
  unfolding Reliable
  stored-Reliable n f = refl

  pub stored-Flushes : Flushes stored
  unfolding Flushes
  stored-Flushes f = (refl, refl)

pub stored-Working : Working (stored false)
stored-Working = record {
  opens_read = λ f. (record f { rest = f.bytes }, refl);
  opens_append = λ f. (f, refl);
  reads = stored-Reliable false;
  writes = λ bs f. refl;
  flushes = stored-Flushes false;
}

-- `n` bytes
unfoldable pub filled : ℕ → List ℕ
filled zero = []
filled (suc n) = 7 ∷ filled n

pub length-filled : (n : ℕ) → length (filled n) ≡ n
unfolding filled
length-filled zero = refl
length-filled (suc n) = ap suc (length-filled n)
