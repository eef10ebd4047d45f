-- ===== src/OsaList.antt =====
-- osa/src/osa_list.c and osa/inc/osa_list.h: a singly linked list with a head node and a size.
-- `fresh` is what `malloc` returns. The loops run on fuel, `none` of it left is `out_of_fuel`; one
-- round more than the list has nodes is enough. A handle is the address of a head node.
pub mod Chain
pub mod Push
pub mod Pop
pub mod Release
pub mod Erase
mod Tests
use osa_base.Base.{
  ℕ, zero, suc, Bool, true, false, ◌==◌, if◌then◌else◌, ℤ, pos, negsuc, eq_ℤ, sok, not,
}
use osa_base.Memory.{
  Ptr, null, DataNode, node, HeadNode, head, Memory, update, ok, fault, out_of_fuel, Cmd, pure,
  ◌>>=◌, ◌>>◌, load, load_head, store, store_head, free, free_head, load_lock, store_lock,
}

-- `nSize++` and `nSize--`, on sizes too small to overflow an `int`
abbrev pub inc : ℤ → ℤ
inc (pos n) = pos (suc n)
inc (negsuc zero) = pos 0
inc (negsuc (suc n)) = negsuc n

abbrev pub dec : ℤ → ℤ
dec (pos zero) = negsuc 0
dec (pos (suc n)) = pos n
dec (negsuc n) = negsuc (suc n)

-- list_create
unfoldable pub create : Ptr → Cmd Ptr
create fresh =
    if fresh == null then pure null else do store_head fresh (head (pos 0) null); pure fresh

-- ListIsEmpty, which returns the size
unfoldable pub is_empty : Ptr → Cmd ℤ
is_empty h = do n ← load_head h; pure n.n_size

-- the loop of FindNodeTail
unfoldable pub tail_loop : ℕ → Ptr → Cmd Ptr
tail_loop zero p = λ _. out_of_fuel
tail_loop (suc k) p = do n ← load p; if n.next == null then pure p else tail_loop k n.next

-- FindNodeTail
unfoldable pub find_node_tail : ℕ → Ptr → Cmd Ptr
unfolding tail_loop
find_node_tail fuel h = if h == null then pure null else do n ← load_head h; tail_loop fuel n.next

-- ListInsert
unfoldable pub insert : Ptr → Ptr → ℕ → Cmd Ptr
insert fresh prev p_data = if fresh == null then pure null else do
  n ← load prev
  store fresh (node p_data n.next)
  store prev (record n { next = fresh })
  pure fresh

-- list_push_front
unfoldable pub push_front : Ptr → Ptr → ℕ → Cmd Ptr
push_front fresh h p_data = if h == null then pure null else if fresh == null then pure null else do
  n ← load_head h
  store fresh (node p_data n.next)
  store_head h (head (inc n.n_size) fresh)
  pure fresh

-- list_push_back
unfoldable pub push_back : ℕ → Ptr → Ptr → ℕ → Cmd Ptr
unfolding is_empty find_node_tail
push_back fuel fresh h p_data = if h == null then pure null else do
  size ← is_empty h
  if eq_ℤ size (pos 0) then push_front fresh h p_data else do
    tail ← find_node_tail fuel h
    n ← load_head h
    store_head h (head (inc n.n_size) n.next)
    insert fresh tail p_data

-- list_pop_front
unfoldable pub pop_front : Ptr → Cmd ℕ
unfolding is_empty
pop_front h = if h == null then pure null else do
  size ← is_empty h
  if eq_ℤ size (pos 0) then pure null else do
    n ← load_head h
    d ← load n.next
    store_head h (head n.n_size d.next)
    free n.next
    store_head h (head (dec n.n_size) d.next)
    pure d.p_data

-- list_pop_back: the node is freed, and the one before it keeps pointing there.
unfoldable pub pop_back : ℕ → Ptr → Cmd ℕ
unfolding is_empty find_node_tail
pop_back fuel h = if h == null then pure null else do
  size ← is_empty h
  if eq_ℤ size (pos 0) then pure null else do
    tail ← find_node_tail fuel h
    d ← load tail
    free tail
    n ← load_head h
    store_head h (head (dec n.n_size) n.next)
    pure d.p_data

-- list_begin, list_next, list_end
unfoldable pub begin : Ptr → Cmd Ptr
begin h = if h == null then pure null else do n ← load_head h; pure n.next

unfoldable pub next : Ptr → Cmd Ptr
next p = if p == null then pure null else do n ← load p; pure n.next

unfoldable pub end : Ptr
end = null

-- the loop of list_destory and list_clear
unfoldable pub free_loop : ℕ → Ptr → Cmd (Unit {0})
free_loop zero p = λ _. out_of_fuel
free_loop (suc k) p = if p == null then pure tt else do n ← load p; free p; free_loop k n.next

-- list_destory
unfoldable pub destroy : ℕ → Ptr → Cmd ℤ
unfolding free_loop
destroy fuel h =
    if h == null
    then pure (negsuc 0)
    else do n ← load_head h; free_loop fuel n.next; free_head h; pure (pos 0)

-- list_clear
unfoldable pub clear : ℕ → Ptr → Cmd ℤ
unfolding free_loop
clear fuel h =
    if h == null
    then pure (negsuc 0)
    else do n ← load_head h; free_loop fuel n.next; store_head h (head (pos 0) null); pure (pos 0)

-- taking `cur` out of the list, in list_earse_data: `prev` is the node before it, if it is not the
-- first
unfoldable pub unlink : Ptr → Ptr → Ptr → Ptr → Cmd (Unit {0})
unlink h prev cur rest = do
  n ← load_head h
  if cur == n.next
      then store_head h (head n.n_size rest)
      else do p ← load prev; store prev (record p { next = rest })
  free cur
  n ← load_head h
  store_head h (head (dec n.n_size) n.next)

-- the loop of list_earse_data
unfoldable pub erase_loop : ℕ → Ptr → ℕ → (prev cur : Ptr) → Cmd (Unit {0})
unfolding unlink
erase_loop zero h p_data prev cur = λ _. out_of_fuel
erase_loop (suc k) h p_data prev cur = if cur == null then pure tt else do
  n ← load cur
  if n.p_data == p_data then unlink h prev cur n.next else erase_loop k h p_data cur n.next

-- list_earse_data; `prev` has no value yet at the first node.
unfoldable pub erase_data : ℕ → Ptr → ℕ → Cmd ℤ
unfolding erase_loop
erase_data fuel h p_data =
    if h == null
    then pure (negsuc 0)
    else do n ← load_head h; erase_loop fuel h p_data null n.next; pure (pos 0)

-- list_size
unfoldable pub size : Ptr → Cmd ℤ
size h = if h == null then pure (negsuc 0) else do n ← load_head h; pure n.n_size

-- list_lockAndCreate; `fresh_lock` and `fresh` are what the two calls of `malloc` return.
unfoldable pub lock_create : Ptr → Ptr → Cmd Ptr
unfolding create
lock_create fresh_lock fresh = if fresh_lock == null then pure null else do
  h ← create fresh
  store_lock fresh_lock h
  if h == null then pure null else pure fresh_lock

-- list_lockAndPop_front, list_lockAndPush_back, list_lockAndGet_size: one critical section each
unfoldable pub lock_pop_front : Ptr → Cmd ℕ
lock_pop_front l = if l == null then pure null else do h ← load_lock l; pop_front h

unfoldable pub lock_push_back : ℕ → Ptr → Ptr → ℕ → Cmd Ptr
lock_push_back fuel fresh l p_data =
    if l == null then pure null else do h ← load_lock l; push_back fuel fresh h p_data

unfoldable pub lock_get_size : Ptr → Cmd ℤ
lock_get_size l = if l == null then pure (negsuc 0) else do h ← load_lock l; size h
