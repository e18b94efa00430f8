-- ===== src/LinkedList/Walk.antt =====
-- The walks of kernel/list.c along the `next` pointers: searches, the count, and the freeing of a
-- whole list. With more fuel than nodes each ends.
use asterisk.Base.{
  ℕ, zero, suc, ◌+◌, ◌<◌, ◌≡◌, ◌∙◌, refl, ap, arith, Option, none, some, [], ◌∷◌, ◌==◌,
  if◌then◌else◌, length, ℤ, pos, neg, inl, inr, Bool-cases,
}
use native.Mathlib.Nat.{zero-add}
use asterisk.NodeHeap.{
  Ptr, null, Heap, write, write_self, write_ne, load, free, not_null, >>=-some, load-some,
  free-some,
}
use asterisk.LinkedList.{
  LinkedList, find_loop, list_find_first_occurrence, index_loop, list_find_first_occurrence_index,
  count_loop, list_get_count, clear_loop, list_clear,
}
use asterisk.LinkedList.Chain.{Cells, first, Apart, Distinct, Chain, Chain-frame}
use asterisk.LinkedList.Insert.{IsList}

-- The address of the first node that carries `d`, or `NULL`.
unfoldable pub find : Ptr → Cells → Ptr
find d [] = null
find d ((a, e) ∷ xs) = if e == d then a else find d xs

-- The number of nodes before the first that carries `d`, counted from `i`, or -1.
unfoldable pub index_from : ℕ → Ptr → Cells → ℤ
index_from i d [] = neg 1
index_from i d ((a, e) ∷ xs) = if e == d then pos i else index_from (i + 1) d xs

module _ (h : Heap) where
  find_loop-find :
      (k d p : ℕ) (xs : Cells)
      → Chain h p xs null
      → length xs < k
      → find_loop k d (first xs null) h ≡ some (find d xs, h)
  unfolding find_loop find
  find_loop-find zero d p xs c lt = absurd (omega arith)
  find_loop-find (suc k) d p [] c lt = refl
  find_loop-find (suc k) d p ((a, e) ∷ xs) c lt =
      rw (not_null a c.0, if◌then◌else◌)
        (>>=-some (load a) _ (load-some h a c.0 c.1) ∙ elim (Bool-cases (e == d)) [
          | inl hit ↦ rw (hit, if◌then◌else◌) refl
          | inr miss ↦ rw (miss, if◌then◌else◌) (find_loop-find k d a xs c.2 (omega arith))
        ])

  index_loop-index_from :
      (k d i p : ℕ) (xs : Cells)
      → Chain h p xs null
      → length xs < k
      → index_loop k d i (first xs null) h ≡ some (index_from i d xs, h)
  unfolding index_loop index_from
  index_loop-index_from zero d i p xs c lt = absurd (omega arith)
  index_loop-index_from (suc k) d i p [] c lt = refl
  index_loop-index_from (suc k) d i p ((a, e) ∷ xs) c lt =
      rw (not_null a c.0, if◌then◌else◌)
        (>>=-some (load a) _ (load-some h a c.0 c.1) ∙ elim (Bool-cases (e == d)) [
          | inl hit ↦ rw (hit, if◌then◌else◌) refl
          | inr miss ↦
              rw (miss, if◌then◌else◌) (index_loop-index_from k d (i + 1) a xs c.2 (omega arith))
        ])

  count_loop-length :
      (k i p : ℕ) (xs : Cells)
      → Chain h p xs null
      → length xs < k
      → count_loop k i (first xs null) h ≡ some (i + length xs, h)
  unfolding count_loop
  count_loop-length zero i p xs c lt = absurd (omega arith)
  count_loop-length (suc k) i p [] c lt = ap (λ n. some (n, h)) (omega arith)
  count_loop-length (suc k) i p ((a, e) ∷ xs) c lt =
      rw (not_null a c.0, if◌then◌else◌)
        (>>=-some (load a) _ (load-some h a c.0 c.1)
          ∙ count_loop-length k (i + 1) a xs c.2 (omega arith)
          ∙ ap (λ n. some (n, h)) (omega arith))

module _ {h : Heap} {l : LinkedList} {xs : Cells} (fuel : ℕ) (is : IsList h l xs)
    (lt : length xs < fuel) where
  -- With more fuel than nodes, the three searches of a list of the nodes `xs` end, change nothing
  -- and return the address of the first node that carries `d`, its index, and the number of nodes.
  pub walks_end :
      (d : Ptr)
      → (list_find_first_occurrence fuel l d h ≡ some (find d xs, h))
        × (list_find_first_occurrence_index fuel l d h ≡ some (index_from 0 d xs, h))
        × (list_get_count fuel l h ≡ some (length xs, h))
  unfolding list_find_first_occurrence list_find_first_occurrence_index list_get_count
  walks_end d = (
    rw is.head (find_loop-find h fuel d null xs is.chain lt),
    rw is.head (index_loop-index_from h fuel d 0 null xs is.chain lt),
    rw is.head (
        count_loop-length h fuel 0 null xs is.chain lt
        ∙ ap (λ n. some (n, h)) (zero-add (length xs))),
  )

-- Every address of `xs` holds nothing.
abbrev pub Freed : Heap → Cells → Type 0
Freed h [] = Unit
Freed h ((a, d) ∷ xs) = (h a ≡ none) × Freed h xs

-- What the freeing of the nodes `xs` leaves, seen at any address `b`.
record Cleared (h : Heap) (xs : Cells) (b : Ptr) (out : Option (Unit {0} × Heap)) : Type 0 where
  heap : Heap
  runs : out ≡ some (tt, heap)
  freed : Freed heap xs
  others : Apart b xs → heap b ≡ h b
  kept : (a : Ptr) → h a ≡ none → heap a ≡ none

still : (h : Heap) (a x : Ptr) → h x ≡ none → write h a none x ≡ none
unfolding write
still h a x e = ground arith

clear_loop-Cleared :
    (k : ℕ) (h : Heap) (p b : Ptr) (xs : Cells)
    → Chain h p xs null
    → Distinct xs
    → length xs < k
    → Cleared h xs b (clear_loop k (first xs null) h)
unfolding clear_loop
clear_loop-Cleared zero h p b xs c dis lt = absurd (omega arith)
clear_loop-Cleared (suc k) h p b [] c dis lt = record {
  heap = h;
  runs = refl;
  freed = tt;
  others = λ out. refl;
  kept = λ a e. e;
}
clear_loop-Cleared (suc k) h p b ((a, d) ∷ xs) c dis lt =
    let g = write h a none in
    let rest =
      clear_loop-Cleared k g a b xs (Chain-frame h a null a none xs dis.0 c.2) dis.1
        (omega arith) in
    record {
      heap = rest.heap;
      runs =
          rw (not_null a c.0, if◌then◌else◌)
            (>>=-some (load a) _ (load-some h a c.0 c.1)
              ∙ >>=-some (free a) _ (free-some h a c.0 c.1)
              ∙ rest.runs);
      freed = (rest.kept a (write_self h a none), rest.freed);
      others = λ out. rest.others out.1 ∙ write_ne h a b none out.0;
      kept = λ x e. rest.kept x (still h a x e);
    }

-- With more fuel than nodes, `list_clear` of a list of the nodes `xs` ends without a fault, empties
-- the list, frees every node and writes to no other address `b`.
pub list_clear-frees :
    {h : Heap} {l : LinkedList} {xs : Cells} (fuel b : ℕ)
    → IsList h l xs
    → length xs < fuel
    → Apart b xs
    → (h' : Heap) × (list_clear fuel l h ≡ some (record { head = null; tail = null }, h'))
      × Freed h' xs
      × (h' b ≡ h b)
unfolding list_clear
list_clear-frees {h} {l} {xs} fuel b is lt out =
    let c = clear_loop-Cleared fuel h null b xs is.chain is.distinct lt in
    (
      c.heap,
      rw is.head (>>=-some (clear_loop fuel (first xs null)) _ c.runs),
      c.freed,
      c.others out,
    )
