-- ===== src/LinkedList/Remove.antt =====
-- `list_remove_node` on a list that stands for a sequence of nodes.
use asterisk.Base.{
  ◌≡◌, ◌≢◌, ◌∙◌, sym, refl, ap, ap₂, subst, arith, Option, none, some, [], ◌∷◌, ◌++◌, ◌==◌,
  if◌then◌else◌, false, ==_refl,
}
use asterisk.NodeHeap.{
  Ptr, null, node, Heap, Cmd, write, write_self, write_ne, pure, load, free, set_previous, set_next,
  not_null, >>=-some, load-some, set_next-some, set_previous-some, free-some,
}
use asterisk.LinkedList.{LinkedList, unlink, list_remove_node}
use asterisk.LinkedList.Chain.{
  Cells, first, last, Apart, Distinct, Chain, last-ne, Chain-frame, Chain-split, Chain-join,
  Chain-last, Chain-relink, Chain-reback, last-append, Apart-left, Apart-right, Apart-append,
}
use asterisk.LinkedList.Split.{
  Disjoint, Chain-Agrees, Agrees-of, Disjoint-split, Disjoint-tail, Disjoint-sym, Distinct-join,
}
use asterisk.LinkedList.Insert.{IsList, ends, ends_of}

-- The heap after a neighbour has been made to skip the node, and what it is good for.
record Skipped (h : Heap) (m : Cmd (Unit {0})) (xs : Cells) (p n : Ptr) : Type 0 where
  heap : Heap
  runs : m h ≡ some (tt, heap)
  chain : Chain heap p xs n
  others : (b : Ptr) → Apart b xs → heap b ≡ h b

skip_left :
    (h : Heap) (xs : Cells) (n m : Ptr)
    → Chain h null xs n
    → Distinct xs
    → Skipped h (if last null xs == null then pure tt else set_next (last null xs) m) xs null m
skip_left h [] n m c dis = record { heap = h; runs = refl; chain = tt; others = λ b out. refl }
skip_left h ((b, e) ∷ xs) n m c dis =
    let (q, x, nt, at) = Chain-last h null b e n xs c in
    record {
      heap = write h (last b xs) (some (node q m x));
      runs = rw (not_null (last b xs) nt, if◌then◌else◌) (set_next-some h (last b xs) nt at m);
      chain = Chain-relink h null b e n m xs q x c dis at;
      others = λ a out. write_ne h (last b xs) a _ (last-ne a b e xs out);
    }

skip_right :
    (h : Heap) (ys : Cells) (p q : Ptr)
    → Chain h p ys null
    → Distinct ys
    → Skipped h
        (if first ys null == null then pure tt else set_previous (first ys null) q)
        ys
        q
        null
skip_right h [] p q c dis = record { heap = h; runs = refl; chain = tt; others = λ b out. refl }
skip_right h ((b, e) ∷ ys) p q c dis = record {
  heap = write h b (some (node q (first ys null) e));
  runs = rw (not_null b c.0, if◌then◌else◌) (set_previous-some h b c.0 c.1 q);
  chain = Chain-reback h p q b e null ys c dis.0;
  others = λ a out. write_ne h b a _ out.0;
}

-- What `list_remove_node` of the node `a` between `xs` and `ys` has done, seen at any address `b`.
pub record Unlinked (h : Heap) (xs : Cells) (a : Ptr) (ys : Cells)
    (out : Option (LinkedList × Heap)) (b : Ptr) : Type 0 where
  pub list : LinkedList
  pub heap : Heap
  pub returns : out ≡ some (list, heap)
  pub is_list : IsList heap list (xs ++ ys)
  pub freed : heap a ≡ none
  pub others : heap b ≡ h b

module _ (h : Heap) (xs ys : Cells) (a d : Ptr) (c : Chain h null (xs ++ ((a, d) ∷ ys)) null)
    (dis : Distinct (xs ++ ((a, d) ∷ ys))) where
  parts : Chain h null xs a × Chain h (last null xs) ((a, d) ∷ ys) null
  parts = Chain-split h null null xs ((a, d) ∷ ys) c

  apart : Distinct xs × Distinct ((a, d) ∷ ys) × Disjoint xs ((a, d) ∷ ys)
  apart = Disjoint-split xs ((a, d) ∷ ys) dis

  out_left : Apart a xs
  out_left = (Disjoint-tail xs a d ys apart.2).0

  sides : Disjoint xs ys
  sides = (Disjoint-tail xs a d ys apart.2).1

  left :
      Skipped h
        (if last null xs == null then pure tt else set_next (last null xs) (first ys null))
        xs
        null
        (first ys null)
  left = skip_left h xs a (first ys null) parts.0 apart.0

  at_left : left.heap a ≡ some (node (last null xs) (first ys null) d)
  at_left = left.others a out_left ∙ parts.1.1

  right :
      Skipped left.heap
        (if first ys null == null then pure tt else set_previous (first ys null) (last null xs))
        ys
        (last null xs)
        null
  right =
      skip_right left.heap ys a (last null xs)
        (Chain-Agrees h left.heap a null ys
          (Agrees-of h left.heap ys xs left.others (Disjoint-sym xs ys sides)) parts.1.2)
        apart.1.1

  at_right : right.heap a ≡ some (node (last null xs) (first ys null) d)
  at_right = right.others a apart.1.0 ∙ at_left

  unlink-runs : unlink a h ≡ some (tt, right.heap)
  unfolding unlink
  unlink-runs =
      >>=-some (load a) _ (load-some h a parts.1.0 parts.1.1)
      ∙ >>=-some (if last null xs == null then pure tt else set_next (last null xs) (first ys null))
          _ left.runs
      ∙ >>=-some (load a) _ (load-some left.heap a parts.1.0 at_left)
      ∙ right.runs

  freed_heap : Heap
  freed_heap = write right.heap a none

  joined : Chain freed_heap null (xs ++ ys) null
  unfolding freed_heap
  joined =
      Chain-frame right.heap null null a none (xs ++ ys) (Apart-append a xs ys out_left apart.1.0) (
        Chain-join right.heap null null xs ys
          (Chain-Agrees left.heap right.heap null (first ys null) xs
            (Agrees-of left.heap right.heap xs ys right.others sides) left.chain)
          right.chain)

  head-after :
      (if a == first (xs ++ ((a, d) ∷ ys)) null
        then first ys null
        else first (xs ++ ((a, d) ∷ ys)) null)
      ≡ first (xs ++ ys) null
  head-after = go xs out_left
    where
      go :
          (zs : Cells)
          → Apart a zs
          → (if a == first (zs ++ ((a, d) ∷ ys)) null
              then first ys null
              else first (zs ++ ((a, d) ∷ ys)) null)
            ≡ first (zs ++ ys) null
      go [] out = rw (==_refl a) refl
      go ((b, e) ∷ zs) out = let no : (a == b) ≡ false = differ b out.0 in rw no refl
        where
          differ : (b : Ptr) → a ≢ b → (a == b) ≡ false
          differ b ne = ground arith

  tail-after :
      (if a == last null (xs ++ ((a, d) ∷ ys))
        then last null xs
        else last null (xs ++ ((a, d) ∷ ys)))
      ≡ last null (xs ++ ys)
  tail-after =
      ap (λ t. if a == t then last null xs else t) (last-append null xs ((a, d) ∷ ys))
      ∙ go ys apart.1.0
      ∙ sym (last-append null xs ys)
    where
      go :
          (zs : Cells)
          → Apart a zs
          → (if a == last a zs then last null xs else last a zs) ≡ last (last null xs) zs
      go [] out = rw (==_refl a) refl
      go ((b, e) ∷ zs) out =
          let no : (a == last b zs) ≡ false = differ (last b zs) (last-ne a b e zs out) in
          rw no refl
        where
          differ : (b : Ptr) → a ≢ b → (a == b) ≡ false
          differ b ne = ground arith

  remove-ends :
      (b : Ptr)
      → b ≢ a
      → Apart b (xs ++ ys)
      → Unlinked h xs a ys
          (list_remove_node
            (ends (first (xs ++ ((a, d) ∷ ys)) null) (last null (xs ++ ((a, d) ∷ ys))))
            a
            h)
          b
  unfolding list_remove_node freed_heap
  remove-ends b ne out = record {
    list = ends (first (xs ++ ys) null) (last null (xs ++ ys));
    heap = freed_heap;
    returns =
        rw (not_null a parts.1.0, if◌then◌else◌)
          (>>=-some (unlink a) _ unlink-runs
            ∙ >>=-some (load a) _ (load-some right.heap a parts.1.0 at_right)
            ∙ >>=-some (free a) _ (free-some right.heap a parts.1.0 at_right)
            ∙ ap₂ (λ p q. some (ends p q, freed_heap)) head-after tail-after);
    is_list = record {
      head = refl;
      tail = refl;
      chain = joined;
      distinct = Distinct-join xs ys apart.0 apart.1.1 sides;
    };
    freed = write_self right.heap a none;
    others =
        write_ne right.heap a b none ne
        ∙ right.others b (Apart-right b xs ys out)
        ∙ left.others b (Apart-left b xs ys out);
  }

-- On a list that has the node `a` between the nodes `xs` and `ys`, `list_remove_node` of `a` does
-- not fault, leaves a list of `xs` and then `ys`, linked both ways, frees the node and writes to no
-- address `b` that is not in the list.
pub list_remove_node-Unlinked :
    (h : Heap) (l : LinkedList) (xs ys : Cells) (a d b : Ptr)
    → IsList h l (xs ++ ((a, d) ∷ ys))
    → b ≢ a
    → Apart b (xs ++ ys)
    → Unlinked h xs a ys (list_remove_node l a h) b
list_remove_node-Unlinked h l xs ys a d b is ne out =
    subst (λ k. Unlinked h xs a ys (list_remove_node k a h) b) (ends_of (xs ++ ((a, d) ∷ ys)) is)
      (remove-ends h xs ys a d is.chain is.distinct b ne out)
