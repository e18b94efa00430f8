-- ===== src/LinkedList/Examples.antt =====
-- The theorems at a list of two nodes, and runs of the code.
use asterisk.Base.{◌≡◌, refl, arith, Option, none, some, [], ◌∷◌}
use asterisk.NodeHeap.{null, node, Heap, write, ◌>>=◌, load, free, set_next, set_previous}
use asterisk.LinkedList.{
  LinkedList, list_create, list_append, list_remove_node, list_clear, list_find_first_occurrence,
  list_find_first_occurrence_index, list_get_count, queue_dequeue, list_remove_first_occurrence,
}
use asterisk.LinkedList.Chain.{Cells, Apart}
use asterisk.LinkedList.Insert.{IsList, ends}
use asterisk.LinkedList.Remove.{Unlinked, list_remove_node-Unlinked}
use asterisk.LinkedList.Walk.{find, index_from, walks_end, Freed, list_clear-frees}
use asterisk.LinkedList.Queue.{Took, queue_dequeue-Took}
use asterisk.LinkedList.Fifo.{enqueue_all, dequeue_all, dequeue-enqueue_fifo}

abbrev xs : Cells
xs = (1, 10) ∷ (2, 20) ∷ []

abbrev heap : Heap
heap = write (write (λ _. none) 1 (some (node 0 2 10))) 2 (some (node 1 0 20))

abbrev list : LinkedList
list = ends 1 2

list-IsList : IsList heap list xs
unfolding write
list-IsList = record {
  head = refl;
  tail = refl;
  chain = ((λ e. omega arith), refl, ((λ e. omega arith), refl, tt));
  distinct = (((λ e. omega arith), tt), (tt, tt));
}

-- The address 9 is not in the list.
nine : Apart 9 xs
nine = ((λ e. omega arith), ((λ e. omega arith), tt))

list_remove_node-Unlinked_example :
    Unlinked heap ((1, 10) ∷ []) 2 [] (list_remove_node list 2 heap) 9
list_remove_node-Unlinked_example =
    list_remove_node-Unlinked heap list ((1, 10) ∷ []) [] 2 20 9 list-IsList (λ e. omega arith)
      ((λ e. omega arith), tt)

walks_end_example :
    (list_find_first_occurrence 3 list 20 heap ≡ some (find 20 xs, heap))
    × (list_find_first_occurrence_index 3 list 20 heap ≡ some (index_from 0 20 xs, heap))
    × (list_get_count 3 list heap ≡ some (2, heap))
walks_end_example = walks_end {h = heap} {l = list} {xs = xs} 3 list-IsList (omega arith) 20

list_clear-frees_example :
    (h' : Heap) × (list_clear 3 list heap ≡ some (record { head = null; tail = null }, h'))
    × Freed h' xs
    × (h' 9 ≡ heap 9)
list_clear-frees_example =
    list_clear-frees {h = heap} {l = list} {xs = xs} 3 9 list-IsList (omega arith) nine

queue_dequeue-Took_example : Took heap 1 10 ((2, 20) ∷ []) (queue_dequeue list heap) 9
queue_dequeue-Took_example =
    queue_dequeue-Took heap list 1 10 9 ((2, 20) ∷ []) list-IsList (λ e. omega arith)
      ((λ e. omega arith), tt)

dequeue-enqueue_fifo_example :
    (h' : Heap) × ((enqueue_all ((3, 30) ∷ (4, 40) ∷ []) list >>= dequeue_all 4) heap
      ≡ some (10 ∷ 20 ∷ 30 ∷ 40 ∷ [], h'))
unfolding write
dequeue-enqueue_fifo_example =
    dequeue-enqueue_fifo heap list xs ((3, 30) ∷ (4, 40) ∷ []) list-IsList
      ((λ e. omega arith), refl, ((λ e. omega arith), refl, tt))
      (((λ e. omega arith), tt), (tt, tt))

-- the result of a run, without its heap
abbrev result : {A : Type 0} → Option (A × Heap) → Option A
result none = none
result (some (a, h)) = some a

remove_first_occurrence_run : result (list_remove_first_occurrence 3 list 10 heap) ≡ some (ends 2 2)
unfolding list_remove_first_occurrence list_find_first_occurrence list_remove_node load set_next
    set_previous free write
remove_first_occurrence_run = refl

empty_list_grows : result (list_append 5 list_create 7 (λ _. none)) ≡ some (ends 5 5)
unfolding list_append list_create
empty_list_grows = refl
