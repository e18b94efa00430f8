-- ===== src/KernelHeap/Search.antt =====
-- The search of `kmalloc` for a chunk: it ends, with a free chunk that is large enough.
use asterisk.Base.{
  ℕ, zero, suc, ◌+◌, ◌*◌, ◌/◌, ◌%◌, ◌^◌, ◌≤◌, ◌<◌, ◌≡◌, ◌∙◌, ◌⊎◌, inl, inr, refl, ap, subst, arith,
  Bool, Bool-cases, true, false, ◌||◌, List, [], ◌∷◌, ltb, ltb→le, ◌==◌, length,
}
use asterisk.KernelHeap.{
  MallocHeader, KernelHeap, Outcome, done, kern_heap_end, pagesize_4k, kmalloc_minsize, set_header,
  ksbrk_page, search,
}
use asterisk.KernelHeap.Layout.{Tiles, Block, Tiles-le, set_header-other, set_header-same}

-- The heap after `ksbrk_page` has added the pages for a chunk of size `r`.
abbrev pub pages_for : ℕ → ℕ
pages_for r = r / pagesize_4k + 1

abbrev pub grown : KernelHeap → ℕ → KernelHeap
grown h r = record h {
  headers =
      set_header h.headers h.g_kernel_heap
        (record { size = pagesize_4k * pages_for r % 2 ^ 31; used = false });
  g_kernel_heap = h.g_kernel_heap + pages_for r * pagesize_4k;
}

module _ (frames fuel : ℕ) (h : KernelHeap) (a r : ℕ) where
  pub search-here :
      (h.headers a).used ≡ false
      → r ≤ (h.headers a).size
      → search frames (suc fuel) h a r ≡ done (h, a)
  unfolding search
  search-here free fits =
      let e : ltb (h.headers a).size r ≡ false = ground arith in rw (free, search) (rw e refl)

  search-next :
      ((h.headers a).used || ltb (h.headers a).size r) ≡ true
      → kmalloc_minsize ≤ (h.headers a).size
      → a + (h.headers a).size < h.g_kernel_heap
      → search frames (suc fuel) h a r ≡ search frames fuel h (a + (h.headers a).size) r
  unfolding search
  search-next busy some_size inside =
      let e₁ : ((h.headers a).size == 0) ≡ false = ground arith in
      let e₂ : (a + (h.headers a).size == h.g_kernel_heap) ≡ false = ground arith in
      let e₃ : ltb h.g_kernel_heap (a + (h.headers a).size) ≡ false = ground arith in
      rw (busy, search) (rw e₁ (rw e₂ (rw e₃ refl)))

  search-grows :
      ((h.headers a).used || ltb (h.headers a).size r) ≡ true
      → kmalloc_minsize ≤ (h.headers a).size
      → a + (h.headers a).size ≡ h.g_kernel_heap
      → pages_for r ≤ frames
      → h.g_kernel_heap + pages_for r * pagesize_4k ≤ kern_heap_end
      → search frames (suc fuel) h a r ≡ search frames fuel (grown h r) (a + (h.headers a).size) r
  unfolding search ksbrk_page
  search-grows busy some_size at_end enough room =
      let e₁ : ((h.headers a).size == 0) ≡ false = ground arith in
      let e₂ : (a + (h.headers a).size == h.g_kernel_heap) ≡ true = ground arith in
      let e₃ : ltb kern_heap_end ((h.g_kernel_heap + pages_for r * pagesize_4k % 2 ^ 32) % 2 ^ 32)
          ≡ false =
        ground arith in
      let e₄ : ltb frames (pages_for r) ≡ false = ground arith in
      rw (busy, search) (rw e₁ (rw e₂ (rw e₃ (rw e₄ refl))))

-- What the search from `a`, where the chunks `cs` stand, has found: a free chunk of at least `r`
-- bytes between the chunks `pre` and `post`, which have the used chunks of `cs`.
pub record Found (h : KernelHeap) (a : ℕ) (cs : List MallocHeader) (r : ℕ)
    (out : Outcome (KernelHeap × ℕ)) : Type 0 where
  pub heap : KernelHeap
  pub chunk : ℕ
  pub pre : List MallocHeader
  pub post : List MallocHeader
  pub returns : out ≡ done (heap, chunk)
  pub free : (heap.headers chunk).used ≡ false
  pub fits : r ≤ (heap.headers chunk).size
  pub minsize : kmalloc_minsize ≤ (heap.headers chunk).size
  pub before : Tiles heap.headers a pre chunk
  pub after : Tiles heap.headers (chunk + (heap.headers chunk).size) post heap.g_kernel_heap
  pub total : heap.g_kernel_heap_used ≡ h.g_kernel_heap_used
  pub in_range : heap.g_kernel_heap ≤ kern_heap_end
  pub longer : h.g_kernel_heap ≤ heap.g_kernel_heap
  pub kept : (x : ℕ) → x < h.g_kernel_heap → heap.headers x ≡ h.headers x
  pub held :
      (b s : ℕ)
      → Block a cs b s
      → Block a pre b s ⊎ Block (chunk + (heap.headers chunk).size) post b s
  pub no_more :
      (b s : ℕ)
      → Block a pre b s ⊎ Block (chunk + (heap.headers chunk).size) post b s
      → Block a cs b s

no_used : (x : Bool) → x ≡ true → x ≡ false → ⊥
no_used x p q = cc

Found-here :
    (frames fuel : ℕ) (h : KernelHeap) (a r : ℕ) (cs : List MallocHeader)
    → (h.headers a).used ≡ false
    → r ≤ (h.headers a).size
    → kmalloc_minsize ≤ (h.headers a).size
    → h.g_kernel_heap ≤ kern_heap_end
    → Tiles h.headers (a + (h.headers a).size) cs h.g_kernel_heap
    → Found h a (h.headers a ∷ cs) r (search frames (suc fuel) h a r)
Found-here frames fuel h a r cs free fits minsize range t = record {
  heap = h;
  chunk = a;
  pre = [];
  post = cs;
  returns = search-here frames fuel h a r free fits;
  free = free;
  fits = fits;
  minsize = minsize;
  before = refl;
  after = t;
  total = refl;
  in_range = range;
  longer = omega arith;
  kept = λ x p. refl;
  held = λ b s k. elim k [ inl (u, at, same) ↦ absurd (no_used _ u free) | inr l ↦ inr l ];
  no_more = λ b s k. elim k [ inl l ↦ elim l [ ] | inr l ↦ inr l ];
}

-- One chunk is passed over.
Found-later :
    {h : KernelHeap} {a r : ℕ} {cs : List MallocHeader} {out out' : Outcome (KernelHeap × ℕ)}
    → out' ≡ out
    → a < h.g_kernel_heap
    → kmalloc_minsize ≤ (h.headers a).size
    → Found h (a + (h.headers a).size) cs r out
    → Found h a (h.headers a ∷ cs) r out'
Found-later {h} {a} same inside minsize f = record {
  heap = f.heap;
  chunk = f.chunk;
  pre = h.headers a ∷ f.pre;
  post = f.post;
  returns = same ∙ f.returns;
  free = f.free;
  fits = f.fits;
  minsize = f.minsize;
  before = (f.kept a inside, minsize, f.before);
  after = f.after;
  total = f.total;
  in_range = f.in_range;
  longer = f.longer;
  kept = f.kept;
  held = λ b s k. elim k [
    | inl u ↦ inl (inl u)
    | inr l ↦ elim (f.held b s l) [ inl p ↦ inl (inr p) | inr q ↦ inr q ]
  ];
  no_more = λ b s k. elim k [
    | inl (inl u) ↦ inl u
    | inl (inr p) ↦ inr (f.no_more b s (inl p))
    | inr q ↦ inr (f.no_more b s (inr q))
  ];
}

-- The new pages are one free chunk, at the end of the chunks before.
Found-grown :
    (frames fuel : ℕ) (h : KernelHeap) (e r : ℕ)
    → e ≡ h.g_kernel_heap
    → h.g_kernel_heap + pages_for r * pagesize_4k ≤ kern_heap_end
    → Found h e [] r (search frames (suc fuel) (grown h r) e r)
Found-grown frames fuel h e r at room = record {
  heap = grown h r;
  chunk = e;
  pre = [];
  post = [];
  returns =
      search-here frames fuel (grown h r) e r (ap (λ (c : MallocHeader). c.used) new)
        (omega (arith, size));
  free = ap (λ (c : MallocHeader). c.used) new;
  fits = omega (arith, size);
  minsize = omega (arith, size);
  before = refl;
  after = omega (arith, size, at);
  total = refl;
  in_range = room;
  longer = omega arith;
  kept = λ x p. set_header-other h.headers h.g_kernel_heap _ x (λ q. omega (arith, p, q));
  held = λ b s k. elim k [ ];
  no_more = λ b s k. elim k [ inl l ↦ elim l [ ] | inr l ↦ elim l [ ] ];
}
  where
    new : (grown h r).headers e ≡ record { size = pagesize_4k * pages_for r % 2 ^ 31; used = false }
    new = ap (grown h r).headers at ∙ set_header-same h.headers h.g_kernel_heap _

    size : ((grown h r).headers e).size ≡ pages_for r * pagesize_4k
    size = ap (λ (c : MallocHeader). c.size) new ∙ omega (arith, room)

or_false : (x y : Bool) → (x || y) ≡ false → (x ≡ false) × (y ≡ false)
or_false true y e = absurd (no_used true refl e)
or_false false y e = (refl, e)

Found-step :
    (frames fuel : ℕ) (h : KernelHeap) (a r : ℕ) (cs : List MallocHeader)
    → h.g_kernel_heap + pages_for r * pagesize_4k ≤ kern_heap_end
    → pages_for r ≤ frames
    → (a + (h.headers a).size < h.g_kernel_heap
        → Found h
            (a + (h.headers a).size)
            cs
            r
            (search frames (suc fuel) h (a + (h.headers a).size) r))
    → kmalloc_minsize ≤ (h.headers a).size
    → Tiles h.headers (a + (h.headers a).size) cs h.g_kernel_heap
    → Found h a (h.headers a ∷ cs) r (search frames (suc (suc fuel)) h a r)
Found-step frames fuel h a r cs room enough rest minsize t =
    elim (Bool-cases ((h.headers a).used || ltb (h.headers a).size r)) [
      | inr idle ↦
          let (free, fits) = or_false _ _ idle in
          Found-here frames (suc fuel) h a r cs free (ltb→le _ _ fits) minsize (omega arith) t
      | inl busy ↦ last_or_not cs rest t busy
    ]
  where
    inside :
        (cs : List MallocHeader)
        → Tiles h.headers (a + (h.headers a).size) cs h.g_kernel_heap
        → a < h.g_kernel_heap
    inside cs t =
        omega (arith, minsize, Tiles-le h.headers (a + (h.headers a).size) cs h.g_kernel_heap t)

    last_or_not :
        (cs : List MallocHeader)
        → (a + (h.headers a).size < h.g_kernel_heap
            → Found h
                (a + (h.headers a).size)
                cs
                r
                (search frames (suc fuel) h (a + (h.headers a).size) r))
        → Tiles h.headers (a + (h.headers a).size) cs h.g_kernel_heap
        → ((h.headers a).used || ltb (h.headers a).size r) ≡ true
        → Found h a (h.headers a ∷ cs) r (search frames (suc (suc fuel)) h a r)
    last_or_not [] rest t busy =
        Found-later (search-grows frames (suc fuel) h a r busy minsize t enough room) (inside [] t)
          minsize (Found-grown frames fuel h (a + (h.headers a).size) r t room)
    last_or_not (d ∷ cs) rest t busy =
        let more : a + (h.headers a).size < h.g_kernel_heap = omega (
          arith,
          t.1,
          Tiles-le h.headers (a + (h.headers a).size + d.size) cs h.g_kernel_heap t.2,
        ) in
        Found-later (search-next frames (suc fuel) h a r busy minsize more) (inside (d ∷ cs) t)
          minsize (rest more)

-- With a round for each chunk and two more, the search ends and finds a chunk, if the pages that it
-- may need are there.
pub search-Found :
    (cs : List MallocHeader) (frames fuel : ℕ) (h : KernelHeap) (a r : ℕ)
    → h.g_kernel_heap + pages_for r * pagesize_4k ≤ kern_heap_end
    → pages_for r ≤ frames
    → length cs < fuel
    → a < h.g_kernel_heap
    → Tiles h.headers a cs h.g_kernel_heap
    → Found h a cs r (search frames (suc fuel) h a r)
search-Found [] frames fuel h a r room enough rounds lt t = absurd (omega (arith, lt, t))
search-Found (c ∷ cs) frames zero h a r room enough rounds lt t = absurd (omega arith)
search-Found (c ∷ cs) frames (suc fuel) h a r room enough rounds lt t =
    let rest =
      λ (t' : Tiles h.headers (a + (h.headers a).size) cs h.g_kernel_heap)
          (lt' : a + (h.headers a).size < h.g_kernel_heap).
        search-Found cs frames fuel h (a + (h.headers a).size) r room enough (omega arith) lt' t' in
    subst
      (λ d.
        kmalloc_minsize ≤ d.size
        → Tiles h.headers (a + d.size) cs h.g_kernel_heap
        → Found h a (d ∷ cs) r (search frames (suc (suc fuel)) h a r))
      t.0 (λ minsize t'. Found-step frames fuel h a r cs room enough (rest t') minsize t') t.1 t.2
