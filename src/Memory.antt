-- ===== src/Memory.antt =====
-- The memory of osa/src/osa_list.c: list heads and nodes at addresses, and commands that read and
-- write them. A command faults where the C program has undefined behaviour: it follows NULL or a
-- pointer to memory that was never given out or has been freed.
-- A `void *` of the user is a number, NULL is 0.
use osa_base.Base.{ℕ, Option, none, some, ◌==◌, if◌then◌else◌, ℤ}

abbrev pub Ptr : Type 0
Ptr = ℕ

abbrev pub null : Ptr
null = 0

-- DataNode
pub record DataNode : Type 0 where
  pub p_data : ℕ
  pub next : Ptr

-- HeadNode, less its member `pData` that nothing uses
pub record HeadNode : Type 0 where
  pub n_size : ℤ
  pub next : Ptr

abbrev pub node : ℕ → Ptr → DataNode
node d q = record { p_data = d; next = q }

abbrev pub head : ℤ → Ptr → HeadNode
head n q = record { n_size = n; next = q }

-- `locks` holds the list of each List_LockHandle_t; its mutex carries no data.
pub record Memory : Type 0 where
  pub heads : Ptr → Option HeadNode
  pub nodes : Ptr → Option DataNode
  pub locks : Ptr → Option Ptr

abbrev pub update {ℓ} : {A : Type ℓ} → (Ptr → Option A) → Ptr → Option A → Ptr → Option A
update f p c a = if a == p then c else f a

pub data Run (A : Type 0) : Type 0 where
  ok : A → Memory → Run A
  fault : Run A
  out_of_fuel : Run A

abbrev pub Cmd : Type 0 → Type 0
Cmd A = Memory → Run A

abbrev pub pure : {A : Type 0} → A → Cmd A
pure = ok

module _ {A B : Type 0} where
  abbrev pub and_then : Run A → (A → Cmd B) → Run B
  and_then (ok a m) k = k a m
  and_then fault k = fault
  and_then out_of_fuel k = out_of_fuel

  infixl 5 ◌>>=◌ ◌>>◌
  abbrev pub ◌>>=◌ : Cmd A → (A → Cmd B) → Cmd B
  c >>= k = λ m. and_then (c m) k

  abbrev pub ◌>>◌ : Cmd A → Cmd B → Cmd B
  c >> k = c >>= λ _. k

abbrev pub found : {A : Type 0} → Option A → Cmd A
found none = λ _. fault
found (some a) = pure a

-- `*p` of a node, and of a head; NULL holds neither.
unfoldable pub load : Ptr → Cmd DataNode
load p m = if p == null then fault else found (m.nodes p) m

unfoldable pub load_head : Ptr → Cmd HeadNode
load_head p m = if p == null then fault else found (m.heads p) m

unfoldable pub store : Ptr → DataNode → Cmd (Unit {0})
store p n m = ok tt (record m { nodes = update m.nodes p (some n) })

unfoldable pub store_head : Ptr → HeadNode → Cmd (Unit {0})
store_head p n m = ok tt (record m { heads = update m.heads p (some n) })

-- `free`, a fault unless the memory is held
unfoldable pub free : Ptr → Cmd (Unit {0})
unfolding load
free p m = and_then (load p m) λ _ m. ok tt (record m { nodes = update m.nodes p none })

unfoldable pub free_head : Ptr → Cmd (Unit {0})
unfolding load_head
free_head p m = and_then (load_head p m) λ _ m. ok tt (record m { heads = update m.heads p none })

-- The list of a lock handle.
unfoldable pub load_lock : Ptr → Cmd Ptr
load_lock l m = if l == null then fault else found (m.locks l) m

unfoldable pub store_lock : Ptr → Ptr → Cmd (Unit {0})
store_lock l h m = ok tt (record m { locks = update m.locks l (some h) })
