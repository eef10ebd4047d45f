-- ===== src/OsaList/Tests.antt =====
-- The list's theorems at a list of two nodes.
use osa_base.Base.{ℕ, ◌≡◌, refl, none, some, [], ◌∷◌, ◌++◌, ◌==◌, if◌then◌else◌, arith, pos}
use osa_base.Memory.{Ptr, null, node, head, Memory, update, ok, fault}
use osa_base.OsaList.{push_back, pop_back, destroy, clear, erase_data}
use osa_base.OsaList.Chain.{Cells, has, nil, cons, IsList}
use osa_base.OsaList.Push.{push_back-append}
use osa_base.OsaList.Pop.{pop_back-breaks}
use osa_base.OsaList.Release.{destroy-Without}
use osa_base.OsaList.Erase.{erase_data-erase}

-- a handle at 9, data 20 at address 2 and then 10 at address 1
abbrev m : Memory
m = record {
  heads = update (λ _. none) 9 (some (head (pos 2) 2));
  nodes = update (update (λ _. none) 1 (some (node 10 null))) 2 (some (node 20 1));
  locks = λ _. none;
}

abbrev xs : Cells
xs = (2, 20) ∷ (1, 10) ∷ []

m-IsList : IsList m 9 xs
m-IsList = record {
  first = 2;
  ne_null = omega arith;
  at = refl;
  chain = cons (omega arith) refl refl (cons (omega arith) refl refl nil);
}

push_back-append_example :
    (m' : Memory) × (push_back 3 3 9 5 m ≡ ok 3 m') × IsList m' 9 (xs ++ (3, 5) ∷ [])
push_back-append_example = push_back-append 3 3 5 m-IsList (omega arith) refl (omega arith)

pop_back-breaks_example :
    (d : ℕ) × (m' : Memory) × (pop_back 3 9 m ≡ ok d m')
    × (destroy 3 9 m' ≡ fault)
    × (clear 3 9 m' ≡ fault)
    × (push_back 3 4 9 5 m' ≡ fault)
    × (pop_back 3 9 m' ≡ fault)
pop_back-breaks_example = pop_back-breaks 3 4 5 m-IsList (omega arith) (omega arith)

destroy-Without_example :
    (m' : Memory) × (destroy 3 9 m ≡ ok (pos 0) m')
    × ((a : Ptr) → m'.nodes a ≡ (if has a xs then none else m.nodes a))
    × ((a : Ptr) → m'.heads a ≡ (if a == 9 then none else m.heads a))
    × (m'.locks ≡ m.locks)
destroy-Without_example = destroy-Without 3 m-IsList (omega arith)

erase_data-erase_example :
    (m' : Memory) × (erase_data 3 9 10 m ≡ ok (pos 0) m') × IsList m' 9 ((2, 20) ∷ [])
erase_data-erase_example = erase_data-erase 3 10 m-IsList (omega arith)
