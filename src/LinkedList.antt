-- ===== src/LinkedList.antt =====
-- kernel/list.c: doubly linked lists, and the stacks and queues over them. The `List` struct is a
-- value here, so a function that updates one returns it. `fresh` is the address that `kmalloc`
-- returns, and a walk along the `next` pointers takes fuel.
pub mod Chain
pub mod Insert
pub mod Walk
pub mod Queue
pub mod Fifo
mod Examples
pub mod Split
pub mod Remove
use asterisk.Base.{
  ℕ, zero, suc, ◌+◌, ◌%◌, ◌^◌, Bool, true, false, Option, none, some, ◌==◌, if◌then◌else◌, List, [],
  ◌∷◌, ℤ, neg, pos,
}
use asterisk.NodeHeap.{
  Ptr, null, node, Cmd, pure, fail, ◌>>=◌, ◌>>◌, store, load, set_previous, set_next, free,
}

-- `struct List`
pub record LinkedList : Type 0 where
  pub head : Ptr
  pub tail : Ptr

-- `list_create`, after its `memset`
unfoldable pub list_create : LinkedList
list_create = record { head = null; tail = null }

clear_loop : ℕ → Ptr → Cmd (Unit {0})
clear_loop zero p = fail
clear_loop (suc k) p = if p == null then pure tt else do n ← load p; free p; clear_loop k n.next

unfoldable pub list_clear : ℕ → LinkedList → Cmd LinkedList
unfolding clear_loop
list_clear fuel l = do clear_loop fuel l.head; pure (record { head = null; tail = null })

unfoldable pub list_is_empty : LinkedList → Bool
list_is_empty l = l.head == null

unfoldable pub list_append : (fresh : Ptr) → LinkedList → Ptr → Cmd LinkedList
list_append fresh l d = do
  store fresh (node null null d)
  if l.tail == null then pure (record { head = fresh; tail = fresh }) else (do
    set_previous fresh l.tail
    n ← load fresh
    set_next n.previous fresh
    pure (record l { tail = fresh }))

unfoldable pub list_prepend : (fresh : Ptr) → LinkedList → Ptr → Cmd LinkedList
list_prepend fresh l d = do
  store fresh (node null null d)
  if l.tail == null then pure (record { head = fresh; tail = fresh }) else (do
    set_next fresh l.head
    n ← load fresh
    set_previous n.next fresh
    pure (record l { head = fresh }))

unfoldable pub list_get_first_node : LinkedList → Ptr
list_get_first_node l = l.head

unfoldable pub list_get_last_node : LinkedList → Ptr
list_get_last_node l = l.tail

find_loop : ℕ → Ptr → Ptr → Cmd Ptr
find_loop zero d p = fail
find_loop (suc k) d p =
    if p == null
    then pure null
    else do n ← load p; if n.payload == d then pure p else find_loop k d n.next

unfoldable pub list_find_first_occurrence : ℕ → LinkedList → Ptr → Cmd Ptr
unfolding find_loop
list_find_first_occurrence fuel l d = find_loop fuel d l.head

index_loop : ℕ → Ptr → ℕ → Ptr → Cmd ℤ
index_loop zero d result p = fail
index_loop (suc k) d result p = if p == null then pure (neg 1) else do
  n ← load p
  if n.payload == d then pure (pos result) else index_loop k d (result + 1) n.next

-- The `int` counters count nodes of at least sixteen bytes, so they stay below `2 ^ 31`.
unfoldable pub list_find_first_occurrence_index : ℕ → LinkedList → Ptr → Cmd ℤ
unfolding index_loop
list_find_first_occurrence_index fuel l d = index_loop fuel d 0 l.head

count_loop : ℕ → ℕ → Ptr → Cmd ℕ
count_loop zero result p = fail
count_loop (suc k) result p =
    if p == null then pure result else do n ← load p; count_loop k (result + 1) n.next

unfoldable pub list_get_count : ℕ → LinkedList → Cmd ℕ
unfolding count_loop
list_get_count fuel l = count_loop fuel 0 l.head

-- The two neighbours are made to skip the node.
unlink : Ptr → Cmd (Unit {0})
unlink p = do
  n ← load p
  if n.previous == null then pure tt else set_next n.previous n.next
  m ← load p
  if m.next == null then pure tt else set_previous m.next m.previous

unfoldable pub list_remove_node : LinkedList → Ptr → Cmd LinkedList
unfolding unlink
list_remove_node l p = if p == null then pure l else do
  unlink p
  n ← load p
  free p
  pure (record {
    head = if p == l.head then n.next else l.head;
    tail = if p == l.tail then n.previous else l.tail;
  })

unfoldable pub list_remove_first_node : LinkedList → Cmd LinkedList
list_remove_first_node l = if l.head == null then pure l else list_remove_node l l.head

unfoldable pub list_remove_last_node : LinkedList → Cmd LinkedList
list_remove_last_node l = if l.tail == null then pure l else list_remove_node l l.tail

unfoldable pub list_remove_first_occurrence : ℕ → LinkedList → Ptr → Cmd LinkedList
list_remove_first_occurrence fuel l d = do
  p ← list_find_first_occurrence fuel l d
  if p == null then pure l else list_remove_node l p

-- A `Stack` and a `Queue` hold one list.
unfoldable pub stack_push : (fresh : Ptr) → LinkedList → Ptr → Cmd LinkedList
stack_push fresh l d = list_prepend fresh l d

-- `stack_pop` and `queue_dequeue` have the same body.
unfoldable pub stack_pop : LinkedList → Cmd (Ptr × LinkedList)
stack_pop l = if list_get_first_node l == null then pure (null, l) else do
  n ← load (list_get_first_node l)
  l' ← list_remove_node l (list_get_first_node l)
  pure (n.payload, l')

unfoldable pub queue_enqueue : (fresh : Ptr) → LinkedList → Ptr → Cmd LinkedList
queue_enqueue fresh l d = list_append fresh l d

unfoldable pub queue_dequeue : LinkedList → Cmd (Ptr × LinkedList)
queue_dequeue l = if list_get_first_node l == null then pure (null, l) else do
  n ← load (list_get_first_node l)
  l' ← list_remove_node l (list_get_first_node l)
  pure (n.payload, l')
