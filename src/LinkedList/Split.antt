-- ===== src/LinkedList/Split.antt =====
-- Two neighbouring stretches of nodes, and heaps that agree on a stretch.
use asterisk.Base.{◌≡◌, ◌∙◌, sym, [], ◌∷◌, ◌++◌}
use asterisk.NodeHeap.{Ptr, Heap}
use asterisk.LinkedList.Chain.{Cells, Apart, Distinct, Chain, Apart-append, Apart-left, Apart-right}

-- No address of `xs` is among those of `ys`.
abbrev pub Disjoint : Cells → Cells → Type 0
Disjoint [] ys = Unit
Disjoint ((a, d) ∷ xs) ys = Apart a ys × Disjoint xs ys

-- The heap `g` has the nodes `xs` as `h` has them.
abbrev pub Agrees : Heap → Heap → Cells → Type 0
Agrees h g [] = Unit
Agrees h g ((a, d) ∷ xs) = (g a ≡ h a) × Agrees h g xs

pub Chain-Agrees :
    (h g : Heap) (p n : Ptr) (xs : Cells) → Agrees h g xs → Chain h p xs n → Chain g p xs n
Chain-Agrees h g p n [] same c = tt
Chain-Agrees h g p n ((a, d) ∷ xs) same c = (c.0, same.0 ∙ c.1, Chain-Agrees h g a n xs same.1 c.2)

pub Agrees-of :
    (h g : Heap) (xs ys : Cells)
    → ((b : Ptr) → Apart b ys → g b ≡ h b)
    → Disjoint xs ys
    → Agrees h g xs
Agrees-of h g [] ys same dis = tt
Agrees-of h g ((a, d) ∷ xs) ys same dis = (same a dis.0, Agrees-of h g xs ys same dis.1)

pub Disjoint-split :
    (xs ys : Cells) → Distinct (xs ++ ys) → Distinct xs × Distinct ys × Disjoint xs ys
Disjoint-split [] ys d = (tt, d, tt)
Disjoint-split ((a, e) ∷ xs) ys d =
    let (left, right, apart) = Disjoint-split xs ys d.1 in
    ((Apart-left a xs ys d.0, left), right, (Apart-right a xs ys d.0, apart))

pub Disjoint-tail :
    (xs : Cells) (a d : Ptr) (ys : Cells) → Disjoint xs ((a, d) ∷ ys) → Apart a xs × Disjoint xs ys
Disjoint-tail [] a d ys dis = (tt, tt)
Disjoint-tail ((b, e) ∷ xs) a d ys dis =
    let (out, rest) = Disjoint-tail xs a d ys dis.1 in
    (((λ p. dis.0.0 (sym p)), out), (dis.0.1, rest))

Apart-of_Disjoint : (xs : Cells) (b e : Ptr) (ys : Cells) → Disjoint xs ((b, e) ∷ ys) → Apart b xs
Apart-of_Disjoint xs b e ys dis = (Disjoint-tail xs b e ys dis).0

pub Disjoint-sym : (xs ys : Cells) → Disjoint xs ys → Disjoint ys xs
Disjoint-sym xs [] dis = tt
Disjoint-sym xs ((b, e) ∷ ys) dis =
    (Apart-of_Disjoint xs b e ys dis, Disjoint-sym xs ys (Disjoint-tail xs b e ys dis).1)

pub Distinct-join :
    (xs ys : Cells) → Distinct xs → Distinct ys → Disjoint xs ys → Distinct (xs ++ ys)
Distinct-join [] ys d e apart = e
Distinct-join ((a, f) ∷ xs) ys d e apart =
    (Apart-append a xs ys d.0 apart.0, Distinct-join xs ys d.1 e apart.1)
