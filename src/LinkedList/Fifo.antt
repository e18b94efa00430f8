-- ===== src/LinkedList/Fifo.antt =====
-- The queues of kernel/list.c over many calls: first in, first out.
use asterisk.Base.{
  ℕ, zero, suc, ◌≡◌, ◌≢◌, ◌∙◌, sym, refl, ap, subst, Option, none, some, List, [], ◌∷◌, ◌++◌,
  append_assoc, append-nil, length,
}
use asterisk.NodeHeap.{Ptr, null, Heap, Cmd, pure, ◌>>=◌, >>=-some}
use asterisk.LinkedList.{LinkedList, list_append, queue_enqueue, queue_dequeue}
use asterisk.LinkedList.Chain.{Cells, Apart, Distinct, Chain}
use asterisk.LinkedList.Insert.{IsList, Apart-of_unused, Leaves, list_append-Leaves}
use asterisk.LinkedList.Queue.{queue_dequeue-Took}

-- The null address is no node's.
Apart-null : (h : Heap) (p : Ptr) (zs : Cells) → Chain h p zs null → Apart null zs
Apart-null h p [] c = tt
Apart-null h p ((b, e) ∷ zs) c = ((λ q. c.0 (sym q)), Apart-null h b zs c.2)

-- A client that puts each payload in a node at the address given with it.
unfoldable pub enqueue_all : Cells → LinkedList → Cmd LinkedList
enqueue_all [] l = pure l
enqueue_all ((f, d) ∷ ys) l = do l' ← queue_enqueue f l d; enqueue_all ys l'

-- A client that takes `n` addresses out.
unfoldable pub dequeue_all : ℕ → LinkedList → Cmd (List Ptr)
dequeue_all zero l = pure []
dequeue_all (suc n) l = do (d, l') ← queue_dequeue l; rest ← dequeue_all n l'; pure (d ∷ rest)

abbrev pub payloads : Cells → List Ptr
payloads [] = []
payloads ((a, d) ∷ xs) = d ∷ payloads xs

-- Every address of `ys` may be given out by `kmalloc`.
abbrev pub Unused : Heap → Cells → Type 0
Unused h [] = Unit
Unused h ((f, d) ∷ ys) = (f ≢ null) × (h f ≡ none) × Unused h ys

-- The heap of an outcome.
abbrev heap_of : Heap → Option (LinkedList × Heap) → Heap
heap_of g none = g
heap_of g (some (l, h)) = h

module _ (h : Heap) (l : LinkedList) (f d : Ptr) (xs : Cells) (is : IsList h l xs) (nf : f ≢ null)
    (unused : h f ≡ none) where
  -- The list that one `queue_enqueue` leaves; the address `f` itself is of no interest here.
  after : (b : Ptr) → b ≢ f → h b ≡ none → Leaves h (xs ++ ((f, d) ∷ [])) (list_append f l d h) b
  after b ne un =
      list_append-Leaves h f d b nf unused l xs is ne (Apart-of_unused h null null b xs is.chain un)

  still-Unused :
      (g : Heap) (k : LinkedList) (ys : Cells)
      → list_append f l d h ≡ some (k, g)
      → Apart f ys
      → Unused h ys
      → Unused g ys
  still-Unused g k [] e out un = tt
  still-Unused g k ((y, c) ∷ ys) e out un =
      let p = after y (λ q. out.0 (sym q)) un.1 in
      (un.0, moved p.heap p.list p.returns (p.others ∙ un.1), still-Unused g k ys e out.1 un.2)
    where
      moved :
          (g' : Heap) (k' : LinkedList)
          → list_append f l d h ≡ some (k', g')
          → g' y ≡ none
          → g y ≡ none
      moved g' k' e' at = let same : g' ≡ g = ap (heap_of g) (sym e' ∙ e) in rw (← same) at

-- `queue_enqueue` of each payload in turn, at unused addresses, leaves a list of the nodes that
-- were there and then the new ones.
pub enqueue_all-IsList :
    (h : Heap) (l : LinkedList) (xs ys : Cells)
    → IsList h l xs
    → Unused h ys
    → Distinct ys
    → (l' : LinkedList) × (h' : Heap) × (enqueue_all ys l h ≡ some (l', h'))
      × IsList h' l' (xs ++ ys)
unfolding enqueue_all queue_enqueue
enqueue_all-IsList h l xs [] is un dis = (l, h, refl, rw append-nil is)
enqueue_all-IsList h l xs ((f, d) ∷ ys) is un dis =
    let p =
      list_append-Leaves h f d null un.0 un.1 l xs is (λ e. un.0 (sym e))
        (Apart-null _ _ xs is.chain) in
    let (l', h', eq, is') =
      enqueue_all-IsList p.heap p.list (xs ++ ((f, d) ∷ [])) ys p.is_list
        (still-Unused h l f d xs is un.0 un.1 p.heap p.list ys p.returns dis.0 un.2) dis.1 in
    (
      l',
      h',
      >>=-some (list_append f l d) (enqueue_all ys) p.returns ∙ eq,
      subst (IsList h' l') (append_assoc xs ((f, d) ∷ []) ys) is',
    )

dequeue_all-payloads :
    (h : Heap) (l : LinkedList) (xs : Cells)
    → IsList h l xs
    → (h' : Heap) × (dequeue_all (length xs) l h ≡ some (payloads xs, h'))
unfolding dequeue_all
dequeue_all-payloads h l [] is = (h, refl)
dequeue_all-payloads h l ((a, d) ∷ xs) is =
    let t =
      queue_dequeue-Took h l a d null xs is (λ e. is.chain.0 (sym e))
        (Apart-null _ _ xs is.chain.2) in
    let (h', eq) = dequeue_all-payloads t.heap t.list xs t.is_list in
    (h', >>=-some (queue_dequeue l) _ t.returns ∙ >>=-some (dequeue_all (length xs) t.list) _ eq)

-- First in, first out: after `queue_enqueue` of each payload of `ys`, at unused addresses, to a
-- queue of the nodes `xs`, as many calls of `queue_dequeue` as there are nodes return the payloads
-- of `xs` and then those of `ys`, in order, without a fault.
pub dequeue-enqueue_fifo :
    (h : Heap) (l : LinkedList) (xs ys : Cells)
    → IsList h l xs
    → Unused h ys
    → Distinct ys
    → (h' : Heap) × ((enqueue_all ys l >>= dequeue_all (length (xs ++ ys))) h
        ≡ some (payloads (xs ++ ys), h'))
dequeue-enqueue_fifo h l xs ys is un dis =
    let (l', g, eq, is') = enqueue_all-IsList h l xs ys is un dis in
    let (h', eq') = dequeue_all-payloads g l' (xs ++ ys) is' in
    (h', >>=-some (enqueue_all ys l) _ eq ∙ eq')
