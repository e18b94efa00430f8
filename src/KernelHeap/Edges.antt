-- ===== src/KernelHeap/Edges.antt =====
-- `kmalloc` and `kfree` at the edges: a size that wraps round, and a chunk that is not split.
use asterisk.Base.{
  ℕ, suc, ◌+◌, ◌-◌, ◌%◌, ◌^◌, ◌≤◌, ◌<◌, ◌≡◌, ◌∙◌, inl, refl, ap, arith, true, false, List, ◌∷◌, ltb,
  ◌==◌, length,
}
use asterisk.KernelHeap.{
  MallocHeader, KernelHeap, Outcome, done, fails, panics, runs_on, kern_heap_begin, header_size,
  kmalloc_minsize, set_header, search, real_size, take_chunk, kmalloc, kfree,
}
use asterisk.KernelHeap.Layout.{Layout, Tiles-frame, Tiles-le, set_header-other, set_header-same}
use asterisk.KernelHeap.Search.{search-here}
use asterisk.KernelHeap.Release.{kfree-Released}

-- A size in the last four of 32 bits wraps round with the header, and `kmalloc` does what it does
-- for one byte: it hands over twelve bytes where the caller asked for almost four gigabytes.
pub kmalloc-wraps :
    (frames fuel : ℕ) (h : KernelHeap) (size : ℕ)
    → 2 ^ 32 ≤ header_size + size
    → size < 2 ^ 32
    → (kmalloc frames fuel h size ≡ kmalloc frames fuel h 1) × (real_size 1 ≡ 16)
unfolding kmalloc
kmalloc-wraps frames fuel h size wraps range =
    let e : (size == 0) ≡ false = ground arith in
    let same : real_size size ≡ 16 = ground arith in (rw e (ap with_size same), refl)
  where
    with_size : ℕ → Outcome (ℕ × KernelHeap)
    with_size r = elim (search frames fuel h kern_heap_begin r) [
      | done (h', chunk) ↦ done (chunk + header_size, take_chunk h' chunk r)
      | fails ↦ fails
      | panics ↦ panics
      | runs_on ↦ runs_on
    ]

module _ (h : KernelHeap) (c : MallocHeader) (cs : List MallocHeader) (size : ℕ)
    (l : Layout h (c ∷ cs)) where
  abbrev whole : KernelHeap
  whole = record h {
    headers =
        set_header h.headers kern_heap_begin (record (h.headers kern_heap_begin) { used = true });
    g_kernel_heap_used = (h.g_kernel_heap_used + real_size size) % 2 ^ 32;
  }

  take-whole :
      c.size - real_size size < kmalloc_minsize
      → take_chunk h kern_heap_begin (real_size size) ≡ whole
  unfolding take_chunk
  take-whole small =
      let n = ap (λ (d : MallocHeader). d.size) l.tiles.0 in
      let e : ltb ((h.headers kern_heap_begin).size - real_size size) kmalloc_minsize ≡ true =
        ground (arith, n) in
      rw e refl

  whole-Layout : Layout whole (record c { used = true } ∷ cs)
  whole-Layout = record {
    tiles = (
      set_header-same h.headers kern_heap_begin _
          ∙ ap (λ (d : MallocHeader). record d { used = true }) l.tiles.0,
      l.tiles.1,
      Tiles-frame h.headers whole.headers (kern_heap_begin + c.size) cs h.g_kernel_heap
          (λ x p q.
            set_header-other h.headers kern_heap_begin _ x (λ k. omega (arith, p, k, l.tiles.1)))
          l.tiles.2,
    );
    some_chunk = l.some_chunk;
    in_range = l.in_range;
  }

  -- Where the first chunk is free, holds the block and is too small to be split, `kmalloc` and then
  -- `kfree` of that block leave `g_kernel_heap_used` smaller than it was, modulo
  -- 2 ^ 32, by what the chunk is larger than the block with its header.
  pub kfree-kmalloc :
      (frames fuel : ℕ)
      → 0 < size
      → c.used ≡ false
      → real_size size ≤ c.size
      → c.size < real_size size + kmalloc_minsize
      → length cs + 1 < fuel
      → (h₁ h₂ : KernelHeap) × (kmalloc frames (suc fuel) h size
          ≡ done (kern_heap_begin + header_size, h₁))
        × (kfree fuel h₁ (kern_heap_begin + header_size) ≡ done h₂)
        × (h₂.g_kernel_heap_used
            ≡ (h.g_kernel_heap_used + 2 ^ 32 - (c.size - real_size size)) % 2 ^ 32)
  unfolding kmalloc
  kfree-kmalloc frames fuel some_bytes free fits small rounds =
      let n = ap (λ (d : MallocHeader). d.size) l.tiles.0 in
      let u = ap (λ (d : MallocHeader). d.used) l.tiles.0 in
      let e : (size == 0) ≡ false = ground arith in
      let found =
        search-here frames fuel h kern_heap_begin (real_size size) (u ∙ free)
          (omega (arith, n, fits)) in
      let r =
        kfree-Released fuel whole (record c { used = true } ∷ cs) kern_heap_begin c.size
          whole-Layout (inl (refl, refl, refl)) (omega (arith, rounds)) in
      let high = Tiles-le h.headers (kern_heap_begin + c.size) cs h.g_kernel_heap l.tiles.2 in
      let range = l.in_range in
      (
        whole,
        r.heap,
        rw e (rw found (rw (take-whole (omega (arith, small))) refl)),
        r.returns,
        r.accounted ∙ omega (arith, fits, high, range),
      )
