-- ===== src/LinkedList/Chain.antt =====
-- Doubly linked chains of nodes, and what writes do to them.
use asterisk.Base.{◌≡◌, ◌≢◌, ◌∙◌, sym, refl, ap, Option, none, some, List, [], ◌∷◌, ◌++◌}
use asterisk.NodeHeap.{Ptr, null, ListNode, node, Heap, write, write_self, write_ne}

-- The address and the payload of each node, in order.
abbrev pub Cells : Type 0
Cells = List (Ptr × Ptr)

-- The first address, or `n` where there is none.
abbrev pub first : Cells → Ptr → Ptr
first [] n = n
first ((a, d) ∷ xs) n = a

-- The last address, or `p` where there is none.
abbrev pub last : Ptr → Cells → Ptr
last p [] = p
last p ((a, d) ∷ xs) = last a xs

-- `a` is not among the addresses.
abbrev pub Apart : Ptr → Cells → Type 0
Apart a [] = Unit
Apart a ((b, d) ∷ xs) = (a ≢ b) × Apart a xs

abbrev pub Distinct : Cells → Type 0
Distinct [] = Unit
Distinct ((a, d) ∷ xs) = Apart a xs × Distinct xs

-- The nodes `xs` stand in `h`, linked both ways, after the address `p` and before the address `n`.
abbrev pub Chain : Heap → Ptr → Cells → Ptr → Type 0
Chain h p [] n = Unit
Chain h p ((a, d) ∷ xs) n = (a ≢ null) × (h a ≡ some (node p (first xs n) d)) × Chain h a xs n

pub Apart-append : (a : Ptr) (xs ys : Cells) → Apart a xs → Apart a ys → Apart a (xs ++ ys)
Apart-append a [] ys h k = k
Apart-append a ((b, d) ∷ xs) ys h k = (h.0, Apart-append a xs ys h.1 k)

pub Apart-left : (a : Ptr) (xs ys : Cells) → Apart a (xs ++ ys) → Apart a xs
Apart-left a [] ys h = tt
Apart-left a ((b, d) ∷ xs) ys h = (h.0, Apart-left a xs ys h.1)

pub Apart-right : (a : Ptr) (xs ys : Cells) → Apart a (xs ++ ys) → Apart a ys
Apart-right a [] ys h = h
Apart-right a ((b, d) ∷ xs) ys h = Apart-right a xs ys h.1

pub last-ne : (a b d : Ptr) (xs : Cells) → Apart a ((b, d) ∷ xs) → a ≢ last b xs
last-ne a b d [] h = h.0
last-ne a b d ((c, e) ∷ xs) h = last-ne a c e xs h.1

-- A chain survives a write to an address that is not its own.
pub Chain-frame :
    (h : Heap) (p n a : Ptr) (c : Option ListNode) (xs : Cells)
    → Apart a xs
    → Chain h p xs n
    → Chain (write h a c) p xs n
Chain-frame h p n a c [] out ch = tt
Chain-frame h p n a c ((b, d) ∷ xs) out ch =
    (ch.0, write_ne h a b c (λ e. out.0 (sym e)) ∙ ch.1, Chain-frame h b n a c xs out.1 ch.2)

pub first-append : (xs ys : Cells) (n : Ptr) → first (xs ++ ys) n ≡ first xs (first ys n)
first-append [] ys n = refl
first-append ((a, d) ∷ xs) ys n = refl

pub last-append : (p : Ptr) (xs ys : Cells) → last p (xs ++ ys) ≡ last (last p xs) ys
last-append p [] ys = refl
last-append p ((a, d) ∷ xs) ys = last-append a xs ys

pub Chain-join :
    (h : Heap) (p n : Ptr) (xs ys : Cells)
    → Chain h p xs (first ys n)
    → Chain h (last p xs) ys n
    → Chain h p (xs ++ ys) n
Chain-join h p n [] ys c d = d
Chain-join h p n ((a, e) ∷ xs) ys c d = (
  c.0,
  c.1 ∙ ap (λ q. some (node p q e)) (sym (first-append xs ys n)),
  Chain-join h a n xs ys c.2 d,
)

pub Chain-split :
    (h : Heap) (p n : Ptr) (xs ys : Cells)
    → Chain h p (xs ++ ys) n
    → Chain h p xs (first ys n) × Chain h (last p xs) ys n
Chain-split h p n [] ys c = (tt, c)
Chain-split h p n ((a, e) ∷ xs) ys c =
    let (front, back) = Chain-split h a n xs ys c.2 in
    ((c.0, c.1 ∙ ap (λ q. some (node p q e)) (first-append xs ys n), front), back)

-- The node of the last address: its successor is `n`.
pub Chain-last :
    (h : Heap) (p a d n : Ptr) (xs : Cells)
    → Chain h p ((a, d) ∷ xs) n
    → (q e : Ptr) × (last a xs ≢ null) × (h (last a xs) ≡ some (node q n e))
Chain-last h p a d n [] c = (p, d, c.0, c.1)
Chain-last h p a d n ((b, e) ∷ xs) c = Chain-last h a b e n xs c.2

abbrev renext : Ptr → Option ListNode → Option ListNode
renext m none = none
renext m (some x) = some (record x { next = m })

-- Another successor for the last node.
pub Chain-relink :
    (h : Heap) (p a d n m : Ptr) (xs : Cells) (q e : Ptr)
    → Chain h p ((a, d) ∷ xs) n
    → Distinct ((a, d) ∷ xs)
    → h (last a xs) ≡ some (node q n e)
    → Chain (write h (last a xs) (some (node q m e))) p ((a, d) ∷ xs) m
Chain-relink h p a d n m [] q e c dis at =
    (c.0, write_self h a (some (node q m e)) ∙ ap (renext m) (sym at ∙ c.1), tt)
Chain-relink h p a d n m ((b, f) ∷ xs) q e c dis at = (
  c.0,
  write_ne h (last b xs) a _ (last-ne a b f xs dis.0) ∙ c.1,
  Chain-relink h a b f n m xs q e c.2 dis.1 at,
)

-- Another predecessor for the first node.
pub Chain-reback :
    (h : Heap) (p q a d n : Ptr) (xs : Cells)
    → Chain h p ((a, d) ∷ xs) n
    → Apart a xs
    → Chain (write h a (some (node q (first xs n) d))) q ((a, d) ∷ xs) n
Chain-reback h p q a d n xs c out = (c.0, write_self h a _, Chain-frame h a n a _ xs out c.2)
