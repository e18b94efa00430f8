-- ===== src/KernelHeap/Layout.antt =====
-- The chunks of a heap as a list.
use asterisk.Base.{
  ℕ, ◌+◌, ◌≤◌, ◌<◌, ◌≡◌, ◌≢◌, ◌∙◌, ◌⊎◌, inl, inr, sym, refl, arith, true, false, List, [], ◌∷◌,
  ◌++◌, ◌==◌,
}
use asterisk.KernelHeap.{
  MallocHeader, KernelHeap, kern_heap_begin, kern_heap_end, kmalloc_minsize, set_header,
}

-- The headers from `a` on are `cs`, and the last chunk ends at `e`.
abbrev pub Tiles : (ℕ → MallocHeader) → ℕ → List MallocHeader → ℕ → Type 0
Tiles headers a [] e = a ≡ e
Tiles headers a (c ∷ cs) e =
    (headers a ≡ c) × (kmalloc_minsize ≤ c.size) × Tiles headers (a + c.size) cs e

-- The chunks of a heap, of which there is at least one.
pub record Layout (h : KernelHeap) (cs : List MallocHeader) : Type 0 where
  pub tiles : Tiles h.headers kern_heap_begin cs h.g_kernel_heap
  pub some_chunk : kern_heap_begin < h.g_kernel_heap
  pub in_range : h.g_kernel_heap ≤ kern_heap_end

-- A used chunk of the list that starts at `a`: its address and size.
abbrev pub Block : ℕ → List MallocHeader → ℕ → ℕ → Type 0
Block a [] b s = ⊥
Block a (c ∷ cs) b s = ((c.used ≡ true) × (b ≡ a) × (s ≡ c.size)) ⊎ Block (a + c.size) cs b s

pub Tiles-le :
    (headers : ℕ → MallocHeader) (a : ℕ) (cs : List MallocHeader) (e : ℕ)
    → Tiles headers a cs e
    → a ≤ e
Tiles-le headers a [] e t = omega (arith, t)
Tiles-le headers a (c ∷ cs) e t = omega (arith, t.1, Tiles-le headers (a + c.size) cs e t.2)

-- Only the headers between the ends count.
pub Tiles-frame :
    (m m' : ℕ → MallocHeader) (a : ℕ) (cs : List MallocHeader) (e : ℕ)
    → ((x : ℕ) → a ≤ x → x < e → m' x ≡ m x)
    → Tiles m a cs e
    → Tiles m' a cs e
Tiles-frame m m' a [] e same t = t
Tiles-frame m m' a (c ∷ cs) e same t =
    let h : a + c.size ≤ e = Tiles-le m (a + c.size) cs e t.2 in
    (
      same a (omega arith) (omega (arith, t.1)) ∙ t.0,
      t.1,
      Tiles-frame m m' (a + c.size) cs e (λ x p q. same x (omega (arith, p)) q) t.2,
    )

pub Tiles-append :
    (m : ℕ → MallocHeader) (a : ℕ) (xs ys : List MallocHeader) (b e : ℕ)
    → Tiles m a xs b
    → Tiles m b ys e
    → Tiles m a (xs ++ ys) e
Tiles-append m a [] ys b e t u = rw t u
Tiles-append m a (x ∷ xs) ys b e t u = (t.0, t.1, Tiles-append m (a + x.size) xs ys b e t.2 u)

pub set_header-other :
    (m : ℕ → MallocHeader) (a : ℕ) (c : MallocHeader) (b : ℕ) → b ≢ a → set_header m a c b ≡ m b
set_header-other m a c b ne = let e : (b == a) ≡ false = ground arith in rw e refl

pub set_header-same : (m : ℕ → MallocHeader) (a : ℕ) (c : MallocHeader) → set_header m a c a ≡ c
set_header-same m a c = let e : (a == a) ≡ true = ground arith in rw e refl

-- Blocks lie between the ends.
pub Block-in :
    (m : ℕ → MallocHeader) (a : ℕ) (cs : List MallocHeader) (e b s : ℕ)
    → Tiles m a cs e
    → Block a cs b s
    → (a ≤ b) × (b + s ≤ e) × (kmalloc_minsize ≤ s)
Block-in m a [] e b s t k = elim k [ ]
Block-in m a (c ∷ cs) e b s t (inl (u, at, same)) =
    let h = Tiles-le m (a + c.size) cs e t.2 in
    (omega (arith, at), omega (arith, at, same, h), omega (arith, same, t.1))
Block-in m a (c ∷ cs) e b s t (inr k) =
    let (p, q, r) = Block-in m (a + c.size) cs e b s t.2 k in (omega (arith, p), q, r)

-- Two used chunks are one or do not overlap.
pub Block-disjoint :
    (m : ℕ → MallocHeader) (a : ℕ) (cs : List MallocHeader) (e b s b' s' : ℕ)
    → Tiles m a cs e
    → Block a cs b s
    → Block a cs b' s'
    → ((b ≡ b') × (s ≡ s')) ⊎ ((b + s ≤ b') ⊎ (b' + s' ≤ b))
Block-disjoint m a [] e b s b' s' t k l = elim k [ ]
Block-disjoint m a (c ∷ cs) e b s b' s' t (inl (u, at, same)) (inl (u', at', same')) =
    inl (at ∙ sym at', same ∙ sym same')
Block-disjoint m a (c ∷ cs) e b s b' s' t (inl (u, at, same)) (inr l) =
    inr (inl (omega (arith, at, same, (Block-in m (a + c.size) cs e b' s' t.2 l).0)))
Block-disjoint m a (c ∷ cs) e b s b' s' t (inr k) (inl (u', at', same')) =
    inr (inr (omega (arith, at', same', (Block-in m (a + c.size) cs e b s t.2 k).0)))
Block-disjoint m a (c ∷ cs) e b s b' s' t (inr k) (inr l) =
    Block-disjoint m (a + c.size) cs e b s b' s' t.2 k l

-- The used chunks of two lists, one behind the other.
pub Block-split :
    (m : ℕ → MallocHeader) (a : ℕ) (xs ys : List MallocHeader) (e b s : ℕ)
    → Tiles m a xs e
    → Block a (xs ++ ys) b s
    → Block a xs b s ⊎ Block e ys b s
Block-split m a [] ys e b s t k = inr (rw (sym t) k)
Block-split m a (x ∷ xs) ys e b s t (inl u) = inl (inl u)
Block-split m a (x ∷ xs) ys e b s t (inr k) = elim (Block-split m (a + x.size) xs ys e b s t.2 k) [
  | inl l ↦ inl (inr l)
  | inr r ↦ inr r
]

pub Block-join :
    (m : ℕ → MallocHeader) (a : ℕ) (xs ys : List MallocHeader) (e b s : ℕ)
    → Tiles m a xs e
    → Block a xs b s ⊎ Block e ys b s
    → Block a (xs ++ ys) b s
Block-join m a [] ys e b s t (inl l) = elim l [ ]
Block-join m a [] ys e b s t (inr r) = rw t r
Block-join m a (x ∷ xs) ys e b s t (inl (inl u)) = inl u
Block-join m a (x ∷ xs) ys e b s t (inl (inr l)) =
    inr (Block-join m (a + x.size) xs ys e b s t.2 (inl l))
Block-join m a (x ∷ xs) ys e b s t (inr r) = inr (Block-join m (a + x.size) xs ys e b s t.2 (inr r))
