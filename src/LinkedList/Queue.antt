-- ===== src/LinkedList/Queue.antt =====
-- The stacks and queues of kernel/list.c: what is taken out, and in which order.
use asterisk.Base.{◌≡◌, ◌≢◌, ◌∙◌, refl, subst, Option, none, some, [], ◌∷◌, if◌then◌else◌}
use asterisk.NodeHeap.{Ptr, null, Heap, Cmd, pure, ◌>>=◌, load, not_null, >>=-some, load-some}
use asterisk.LinkedList.{
  LinkedList, list_get_first_node, list_remove_node, list_prepend, stack_push, stack_pop,
  queue_dequeue,
}
use asterisk.LinkedList.Chain.{Cells, last, Apart}
use asterisk.LinkedList.Insert.{IsList, ends, ends_of, list_prepend-Leaves}
use asterisk.LinkedList.Remove.{Unlinked, list_remove_node-Unlinked}

-- What taking the first node off has done, seen at any address `b`.
pub record Took (h : Heap) (a d : Ptr) (xs : Cells) (out : Option ((Ptr × LinkedList) × Heap))
    (b : Ptr) : Type 0 where
  pub list : LinkedList
  pub heap : Heap
  pub returns : out ≡ some ((d, list), heap)
  pub is_list : IsList heap list xs
  pub freed : heap a ≡ none
  pub others : heap b ≡ h b

-- The common part of `queue_dequeue` and `stack_pop`.
abbrev take_body : Ptr → LinkedList → Cmd (Ptr × LinkedList)
take_body p l = do n ← load p; l' ← list_remove_node l p; pure (n.payload, l')

module _ (h : Heap) (t a d b : Ptr) (xs : Cells) (is : IsList h (ends a t) ((a, d) ∷ xs))
    (ne : b ≢ a) (out : Apart b xs) where
  removed : Unlinked h [] a xs (list_remove_node (ends a t) a h) b
  removed = list_remove_node-Unlinked h (ends a t) [] xs a d b is ne out

  take_first : take_body a (ends a t) h ≡ some ((d, removed.list), removed.heap)
  take_first =
      >>=-some (load a) _ (load-some h a is.chain.0 is.chain.1)
      ∙ >>=-some (list_remove_node (ends a t) a) _ removed.returns

  dequeue-ends : Took h a d xs (queue_dequeue (ends a t) h) b
  unfolding queue_dequeue list_get_first_node
  dequeue-ends = record {
    list = removed.list;
    heap = removed.heap;
    returns = rw (not_null a is.chain.0, if◌then◌else◌) take_first;
    is_list = removed.is_list;
    freed = removed.freed;
    others = removed.others;
  }

  pop-ends : Took h a d xs (stack_pop (ends a t) h) b
  unfolding stack_pop list_get_first_node
  pop-ends = record {
    list = removed.list;
    heap = removed.heap;
    returns = rw (not_null a is.chain.0, if◌then◌else◌) take_first;
    is_list = removed.is_list;
    freed = removed.freed;
    others = removed.others;
  }

module _ (h : Heap) (l : LinkedList) (a d b : Ptr) (xs : Cells) (is : IsList h l ((a, d) ∷ xs))
    (ne : b ≢ a) (out : Apart b xs) where
  same : ends a (last a xs) ≡ l
  same = ends_of ((a, d) ∷ xs) is

  is' : IsList h (ends a (last a xs)) ((a, d) ∷ xs)
  is' = record { head = refl; tail = refl; chain = is.chain; distinct = is.distinct }

  -- From a non-empty list `queue_dequeue` returns what the first node carries, frees that node,
  -- leaves a list of the others and writes to no address `b` that is not in the list.
  pub queue_dequeue-Took : Took h a d xs (queue_dequeue l h) b
  queue_dequeue-Took =
      subst (λ k. Took h a d xs (queue_dequeue k h) b) same
        (dequeue-ends h (last a xs) a d b xs is' ne out)

  -- From a non-empty list `stack_pop` returns what the first node carries, frees that node, leaves
  -- a list of the others and writes to no address `b` that is not in the list.
  pub stack_pop-Took : Took h a d xs (stack_pop l h) b
  stack_pop-Took =
      subst (λ k. Took h a d xs (stack_pop k h) b) same (pop-ends h (last a xs) a d b xs is' ne out)

-- What is pushed on a stack is popped next: `stack_pop` after `stack_push` returns the address that
-- was pushed, frees the new node, and leaves a list of the nodes that were there before.
pub pop-push :
    (h : Heap) (l : LinkedList) (f d b : Ptr) (xs : Cells)
    → IsList h l xs
    → f ≢ null
    → h f ≡ none
    → b ≢ f
    → Apart b xs
    → (l' : LinkedList) × (h' : Heap) × ((stack_push f l d >>= stack_pop) h ≡ some ((d, l'), h'))
      × IsList h' l' xs
      × (h' b ≡ h b)
      × (h' f ≡ none)
unfolding stack_push
pop-push h l f d b xs is nf unused ne out =
    let p = list_prepend-Leaves h f d b nf unused l xs is ne out in
    let q = stack_pop-Took p.heap p.list f d b xs p.is_list ne out in
    (
      q.list,
      q.heap,
      >>=-some (list_prepend f l d) stack_pop p.returns ∙ q.returns,
      q.is_list,
      q.others ∙ p.others,
      q.freed,
    )
