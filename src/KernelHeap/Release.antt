-- ===== src/KernelHeap/Release.antt =====
-- `kfree` gives one block back and leaves the others.
use asterisk.Base.{
  ℕ, ◌+◌, ◌-◌, ◌%◌, ◌^◌, ◌<◌, ◌≡◌, ◌≢◌, ◌∙◌, inl, inr, sym, refl, ap, subst, arith, Bool, true,
  false, List, ◌∷◌, ◌++◌, ◌==◌, length,
}
use asterisk.KernelHeap.{
  MallocHeader, KernelHeap, Outcome, done, kern_heap_begin, header_size, set_header, merge, kfree,
}
use asterisk.KernelHeap.Layout.{
  Tiles, Layout, Block, Tiles-frame, Tiles-append, set_header-other, set_header-same, Block-in,
  Block-split, Block-join,
}
use asterisk.KernelHeap.Merge.{Cut, Block-Cut, Merged, merge-Merged}

-- What `kfree` of the block of size `s` at `b` has done to a heap of the chunks `cs`.
pub record Released (h : KernelHeap) (cs : List MallocHeader) (b s : ℕ) (out : Outcome KernelHeap)
    : Type 0 where
  pub heap : KernelHeap
  pub chunks : List MallocHeader
  pub returns : out ≡ done heap
  pub layout : Layout heap chunks
  pub gone :
      (b' s' : ℕ) → Block kern_heap_begin chunks b' s' → Block kern_heap_begin cs b' s' × (b' ≢ b)
  pub kept :
      (b' s' : ℕ) → Block kern_heap_begin cs b' s' → b' ≢ b → Block kern_heap_begin chunks b' s'
  pub accounted : heap.g_kernel_heap_used ≡ (h.g_kernel_heap_used + 2 ^ 32 - s) % 2 ^ 32

abbrev freed : KernelHeap → ℕ → KernelHeap
freed h b = record h {
  headers = set_header h.headers b (record (h.headers b) { used = false });
  g_kernel_heap_used = (h.g_kernel_heap_used + 2 ^ 32 - (h.headers b).size) % 2 ^ 32;
}

released :
    (h : KernelHeap) (cs : List MallocHeader) (b s : ℕ) (out : Outcome KernelHeap)
    → Layout h cs
    → (c : Cut h.headers kern_heap_begin cs h.g_kernel_heap b s) → ((freed h b).headers b).size ≡ s
    → Merged (freed h b) b c.post out
    → Released h cs b s out
released h cs b s out l c size r = record {
  heap = r.heap;
  chunks = c.pre ++ (r.heap.headers b ∷ r.rest);
  returns = r.returns;
  layout = record {
    tiles =
        Tiles-append r.heap.headers kern_heap_begin c.pre (r.heap.headers b ∷ r.rest) b
          r.heap.g_kernel_heap before (refl, r.minsize, r.after);
    some_chunk = omega (arith, r.same_end, l.some_chunk);
    in_range = omega (arith, r.same_end, l.in_range);
  };
  gone = λ b' s' k.
      elim (Block-split r.heap.headers kern_heap_begin c.pre (r.heap.headers b ∷ r.rest) b b' s'
        before k) [
          | inl p ↦ (
            c.no_more b' s' (inl p),
            λ q. omega (arith, q, Block-in h.headers kern_heap_begin c.pre b b' s' c.before p),
          )
          | inr (inl (u, at, n)) ↦ absurd (clash u r.free)
          | inr (inr q) ↦
              let q' = subst (λ x. Block (b + x) c.post b' s') size (r.no_more b' s' q) in
              (
                c.no_more b' s' (inr q'),
                λ e. omega (
                  arith,
                  e,
                  c.minsize,
                  Block-in h.headers (b + s) c.post h.g_kernel_heap b' s' c.after q',
                ),
              )
        ];
  kept = λ b' s' k ne.
      Block-join r.heap.headers kern_heap_begin c.pre (r.heap.headers b ∷ r.rest) b b' s' before
        (elim (c.held b' s' k ne) [
          | inl p ↦ inl p
          | inr q ↦ inr (inr (r.held b' s' (subst (λ x. Block (b + x) c.post b' s') (sym size) q)))
        ]);
  accounted = r.same_total ∙ ap (λ n. (h.g_kernel_heap_used + 2 ^ 32 - n) % 2 ^ 32) c.size;
}
  where
    clash : {x : Bool} → x ≡ true → x ≡ false → ⊥
    clash p q = cc

    before : Tiles r.heap.headers kern_heap_begin c.pre b
    before =
        Tiles-frame h.headers r.heap.headers kern_heap_begin c.pre b
          (λ x p q. r.below x q ∙ set_header-other h.headers b _ x (λ k. omega (arith, q, k)))
          c.before

-- `kfree` of the bytes of a block in use, on a heap with a layout, with more fuel than chunks: it
-- returns, the block is no longer in use, all others are, and the heap has a layout again.
pub kfree-Released :
    (fuel : ℕ) (h : KernelHeap) (cs : List MallocHeader) (b s : ℕ)
    → Layout h cs
    → Block kern_heap_begin cs b s
    → length cs < fuel
    → Released h cs b s (kfree fuel h (b + header_size))
unfolding kfree
kfree-Released fuel h cs b s l k rounds =
    let c = Block-Cut h.headers kern_heap_begin cs h.g_kernel_heap b s l.tiles k in
    let e : (b + header_size == 0) ≡ false = ground arith in
    let back : b + header_size - header_size ≡ b = omega arith in
    let same = set_header-same h.headers b (record (h.headers b) { used = false }) in
    let size : ((freed h b).headers b).size ≡ s = ap (λ (d : MallocHeader). d.size) same ∙ c.size in
    rw e (
      rw back (
        released h cs b s (merge fuel (freed h b) b) l c size (
          merge-Merged c.post fuel (freed h b) b (ap (λ (d : MallocHeader). d.used) same)
            (omega (arith, size, c.minsize)) l.in_range
            (subst (λ x. Tiles (freed h b).headers (b + x) c.post h.g_kernel_heap) (sym size)
              (Tiles-frame h.headers _ (b + s) c.post h.g_kernel_heap
                (λ x p q. set_header-other h.headers b _ x (λ k. omega (arith, p, k, c.minsize)))
                c.after))
            (omega (arith, c.fewer)))))
