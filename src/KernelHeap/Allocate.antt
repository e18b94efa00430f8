-- ===== src/KernelHeap/Allocate.antt =====
-- `kmalloc` hands over memory that nobody has.
use asterisk.Base.{
  ℕ, suc, ◌+◌, ◌-◌, ◌*◌, ◌%◌, ◌^◌, ◌≤◌, ◌<◌, ◌≡◌, ◌∙◌, ◌⊎◌, inl, inr, sym, refl, ap, subst, arith,
  true, false, List, ◌∷◌, ◌++◌, if_each, ltb, ltb→le, ◌==◌, length,
}
use asterisk.KernelHeap.{
  MallocHeader, KernelHeap, Outcome, done, kern_heap_begin, kern_heap_end, pagesize_4k, header_size,
  kmalloc_minsize, set_header, real_size, take_chunk, kmalloc,
}
use asterisk.KernelHeap.Layout.{
  Tiles, Layout, Block, Tiles-le, Tiles-frame, Tiles-append, set_header-other, set_header-same,
  Block-in, Block-split, Block-join,
}
use asterisk.KernelHeap.Search.{pages_for, Found, search-Found}

-- The free chunk at `a`, of size `n` and before the chunks `post`, has become the chunks `tail`:
-- the first one is used and has the size `s`.
record Placed (m : ℕ → MallocHeader) (a n r : ℕ) (post : List MallocHeader) (e : ℕ)
    (m' : ℕ → MallocHeader) : Type 0 where
  tail : List MallocHeader
  s : ℕ
  tiles : Tiles m' a tail e
  enough : r ≤ s
  within : s ≤ n
  mine : Block a tail a s
  only : (b k : ℕ) → Block a tail b k → ((b ≡ a) × (k ≡ s)) ⊎ Block (a + n) post b k
  kept : (b k : ℕ) → Block (a + n) post b k → Block a tail b k
  below : (x : ℕ) → x < a → m' x ≡ m x

module _ (m : ℕ → MallocHeader) (a r : ℕ) (post : List MallocHeader) (e : ℕ) (fits : r ≤ (m a).size)
    (minsize : kmalloc_minsize ≤ r) (after : Tiles m (a + (m a).size) post e) where
  Placed-whole : Placed m a (m a).size r post e (set_header m a (record (m a) { used = true }))
  Placed-whole = record {
    tail = record (m a) { used = true } ∷ post;
    s = (m a).size;
    tiles = (
      set_header-same m a _,
      omega arith,
      Tiles-frame m _ (a + (m a).size) post e
          (λ x p q. set_header-other m a _ x (λ k. omega (arith, p, k))) after,
    );
    enough = fits;
    within = omega arith;
    mine = inl (refl, refl, refl);
    only = λ b k l. elim l [ inl (u, at, same) ↦ inl (at, same) | inr l ↦ inr l ];
    kept = λ b k l. inr l;
    below = λ x p. set_header-other m a _ x (λ k. omega (arith, p, k));
  }

  Placed-split :
      kmalloc_minsize ≤ (m a).size - r
      → Placed m a (m a).size r post e (
          set_header
            (set_header m (a + r) (record { size = (m a).size - r; used = false }))
            a
            (record { size = r; used = true }))
  Placed-split rest =
      let free : MallocHeader = record { size = (m a).size - r; used = false } in
      let m₁ = set_header m (a + r) free in
      let next : a + r + ((m a).size - r) ≡ a + (m a).size = omega arith in
      record {
        tail = record { size = r; used = true } ∷ free ∷ post;
        s = r;
        tiles = (
          set_header-same m₁ a _,
          minsize,
          (
            set_header-other m₁ a _ (a + r) (λ k. omega (arith, k, minsize))
                ∙ set_header-same m (a + r) free,
            rest,
            rw next (
                Tiles-frame m _ (a + (m a).size) post e
                  (λ x p q.
                    set_header-other m₁ a _ x (λ k. omega (arith, p, k, fits, minsize))
                    ∙ set_header-other m (a + r) free x (λ k. omega (arith, p, k, rest)))
                  after),
          ),
        );
        enough = omega arith;
        within = fits;
        mine = inl (refl, refl, refl);
        only = λ b k l. elim l [
          | inl (u, at, same) ↦ inl (at, same)
          | inr (inl (u, at, same)) ↦ absurd (cc)
          | inr (inr l) ↦ inr (subst (λ p. Block p post b k) next l)
        ];
        kept = λ b k l. inr (inr (subst (λ p. Block p post b k) (sym next) l));
        below = λ x p.
            set_header-other m₁ a _ x (λ k. omega (arith, p, k))
            ∙ set_header-other m (a + r) free x (λ k. omega (arith, p, k));
      }

  take_chunk-Placed :
      (h : KernelHeap) → h.headers ≡ m → Placed m a (m a).size r post e (take_chunk h a r).headers
  unfolding take_chunk
  take_chunk-Placed h same = rw same (
      if_each (Placed m a (m a).size r post e) (ltb ((m a).size - r) kmalloc_minsize)
        (λ small. Placed-whole) (λ large. Placed-split (ltb→le _ _ large)))

-- What `kmalloc` of `size` bytes has done to a heap of the chunks `cs`.
pub record Allocated (h : KernelHeap) (cs : List MallocHeader) (size : ℕ)
    (out : Outcome (ℕ × KernelHeap)) : Type 0 where
  pub heap : KernelHeap
  pub chunk : ℕ
  pub block_size : ℕ
  pub chunks : List MallocHeader
  pub returns : out ≡ done (chunk + header_size, heap)
  pub layout : Layout heap chunks
  pub room : header_size + size ≤ block_size
  pub mine : Block kern_heap_begin chunks chunk block_size
  pub apart : (b s : ℕ) → Block kern_heap_begin cs b s → (chunk + block_size ≤ b) ⊎ (b + s ≤ chunk)
  pub kept : (b s : ℕ) → Block kern_heap_begin cs b s → Block kern_heap_begin chunks b s
  pub no_more :
      (b s : ℕ)
      → Block kern_heap_begin chunks b s
      → Block kern_heap_begin cs b s ⊎ ((b ≡ chunk) × (s ≡ block_size))
  pub accounted : heap.g_kernel_heap_used ≡ (h.g_kernel_heap_used + real_size size) % 2 ^ 32

module _ (h : KernelHeap) (cs : List MallocHeader) (size : ℕ) (range : header_size + size < 2 ^ 32)
    (out : Outcome (KernelHeap × ℕ)) (f : Found h kern_heap_begin cs (real_size size) out) where
  abbrev m : ℕ → MallocHeader
  m = f.heap.headers

  real : (header_size + size ≤ real_size size) × (kmalloc_minsize ≤ real_size size)
  real = ground arith

  abbrev taken : KernelHeap
  taken = take_chunk f.heap f.chunk (real_size size)

  placed :
      Placed m f.chunk (m f.chunk).size (real_size size) f.post f.heap.g_kernel_heap taken.headers
  placed =
      take_chunk-Placed m f.chunk (real_size size) f.post f.heap.g_kernel_heap f.fits real.1 f.after
        f.heap refl

  same_end : taken.g_kernel_heap ≡ f.heap.g_kernel_heap
  unfolding take_chunk
  same_end = refl

  same_total : taken.g_kernel_heap_used ≡ (f.heap.g_kernel_heap_used + real_size size) % 2 ^ 32
  unfolding take_chunk
  same_total = refl

  allocated : Allocated h cs size (done (f.chunk + header_size, taken))
  allocated = record {
    heap = taken;
    chunk = f.chunk;
    block_size = placed.s;
    chunks = f.pre ++ placed.tail;
    returns = refl;
    layout = record {
      tiles = rw same_end (
          Tiles-append taken.headers kern_heap_begin f.pre placed.tail f.chunk f.heap.g_kernel_heap
            (Tiles-frame m taken.headers kern_heap_begin f.pre f.chunk (λ x p q. placed.below x q)
              f.before)
            placed.tiles);
      some_chunk = omega (arith, same_end, low, high, f.minsize);
      in_range = omega (arith, same_end, f.in_range);
    };
    room = omega (arith, real, placed.enough);
    mine = Block-join m kern_heap_begin f.pre placed.tail f.chunk _ _ f.before (inr placed.mine);
    apart = λ b s k. elim (f.held b s k) [
      | inl l ↦ inr (Block-in m kern_heap_begin f.pre f.chunk b s f.before l).1
      | inr l ↦ inl (
          omega (
            arith,
            placed.within,
            (Block-in m (f.chunk + (m f.chunk).size) f.post f.heap.g_kernel_heap b s f.after l).0,
          ))
    ];
    kept = λ b s k.
        Block-join m kern_heap_begin f.pre placed.tail f.chunk b s f.before
          (elim (f.held b s k) [ inl l ↦ inl l | inr l ↦ inr (placed.kept b s l) ]);
    no_more = λ b s k.
        elim (Block-split m kern_heap_begin f.pre placed.tail f.chunk b s f.before k) [
          | inl l ↦ inl (f.no_more b s (inl l))
          | inr l ↦ elim (placed.only b s l) [
            | inl is_new ↦ inr is_new
            | inr l' ↦ inl (f.no_more b s (inr l'))
          ]
        ];
    accounted = accounts;
  }
    where
      low : kern_heap_begin ≤ f.chunk
      low = Tiles-le m kern_heap_begin f.pre f.chunk f.before

      high : f.chunk + (m f.chunk).size ≤ f.heap.g_kernel_heap
      high = Tiles-le m (f.chunk + (m f.chunk).size) f.post f.heap.g_kernel_heap f.after

      accounts : taken.g_kernel_heap_used ≡ (h.g_kernel_heap_used + real_size size) % 2 ^ 32
      accounts = same_total ∙ ap (λ n. (n + real_size size) % 2 ^ 32) f.total

-- `kmalloc` of at least one byte, with a size that does not wrap round, on a heap with a layout,
-- with enough page frames and address space for the pages that it may have to add: with more fuel
-- than chunks it returns. Its block has room for the bytes and a header, overlaps no block that was
-- in use, all of which stay, nothing else is in use, and the heap has a layout again.
pub kmalloc-Allocated :
    (frames fuel : ℕ) (h : KernelHeap) (cs : List MallocHeader) (size : ℕ)
    → Layout h cs
    → 0 < size
    → header_size + size < 2 ^ 32
    → pages_for (real_size size) ≤ frames
    → h.g_kernel_heap + pages_for (real_size size) * pagesize_4k ≤ kern_heap_end
    → length cs < fuel
    → Allocated h cs size (kmalloc frames (suc fuel) h size)
unfolding kmalloc
kmalloc-Allocated frames fuel h cs size l some_bytes range enough room rounds =
    let f =
      search-Found cs frames fuel h kern_heap_begin (real_size size) room enough rounds l.some_chunk
        l.tiles in
    let e : (size == 0) ≡ false = ground arith in
    rw e (rw f.returns (allocated h cs size range _ f))
