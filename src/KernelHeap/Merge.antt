-- ===== src/KernelHeap/Merge.antt =====
-- The block that `kfree` gets, and the loop that joins it with the free chunks behind it.
use asterisk.Base.{
  ℕ, zero, suc, ◌+◌, ◌%◌, ◌^◌, ◌≤◌, ◌<◌, ◌≡◌, ◌≢◌, ◌∙◌, ◌⊎◌, inl, inr, sym, refl, ap, subst, arith,
  Bool, Bool-cases, true, false, not, ◌&&◌, List, [], ◌∷◌, ltb, length,
}
use asterisk.KernelHeap.{
  MallocHeader, KernelHeap, Outcome, done, kern_heap_end, kmalloc_minsize, set_header, merge,
}
use asterisk.KernelHeap.Layout.{
  Tiles, Block, Tiles-le, Tiles-frame, set_header-other, set_header-same,
}

-- The used chunk at `b`, and the chunks before and behind it.
pub record Cut (m : ℕ → MallocHeader) (a : ℕ) (cs : List MallocHeader) (e b s : ℕ) : Type 0 where
  pub pre : List MallocHeader
  pub post : List MallocHeader
  pub before : Tiles m a pre b
  pub size : (m b).size ≡ s
  pub minsize : kmalloc_minsize ≤ s
  pub after : Tiles m (b + s) post e
  pub fewer : length post < length cs
  pub held : (b' s' : ℕ) → Block a cs b' s' → b' ≢ b → Block a pre b' s' ⊎ Block (b + s) post b' s'
  pub no_more : (b' s' : ℕ) → Block a pre b' s' ⊎ Block (b + s) post b' s' → Block a cs b' s'

pub Block-Cut :
    (m : ℕ → MallocHeader) (a : ℕ) (cs : List MallocHeader) (e b s : ℕ)
    → Tiles m a cs e
    → Block a cs b s
    → Cut m a cs e b s
Block-Cut m a [] e b s t k = elim k [ ]
Block-Cut m a (c ∷ cs) e b s t (inl (u, at, same)) =
    let next : a + c.size ≡ b + s = omega (arith, at, same) in
    record {
      pre = [];
      post = cs;
      before = sym at;
      size = ap (λ x. (m x).size) at ∙ ap (λ (d : MallocHeader). d.size) t.0 ∙ sym same;
      minsize = omega (arith, same, t.1);
      after = subst (λ x. Tiles m x cs e) next t.2;
      fewer = omega arith;
      held = λ b' s' k ne. elim k [
        | inl (u', at', same') ↦ absurd (ne (at' ∙ sym at))
        | inr l ↦ inr (subst (λ x. Block x cs b' s') next l)
      ];
      no_more = λ b' s' k. elim k [
        | inl l ↦ elim l [ ]
        | inr l ↦ inr (subst (λ x. Block x cs b' s') (sym next) l)
      ];
    }
Block-Cut m a (c ∷ cs) e b s t (inr k) =
    let r = Block-Cut m (a + c.size) cs e b s t.2 k in
    record {
      pre = c ∷ r.pre;
      post = r.post;
      before = (t.0, t.1, r.before);
      size = r.size;
      minsize = r.minsize;
      after = r.after;
      fewer = omega (arith, r.fewer);
      held = λ b' s' k ne. elim k [
        | inl u ↦ inl (inl u)
        | inr l ↦ elim (r.held b' s' l ne) [ inl p ↦ inl (inr p) | inr q ↦ inr q ]
      ];
      no_more = λ b' s' k. elim k [
        | inl (inl u) ↦ inl u
        | inl (inr p) ↦ inr (r.no_more b' s' (inl p))
        | inr q ↦ inr (r.no_more b' s' (inr q))
      ];
    }

-- What the loop of `kfree` has done to the free chunk at `b` with the chunks `post` behind it.
pub record Merged (h : KernelHeap) (b : ℕ) (post : List MallocHeader) (out : Outcome KernelHeap)
    : Type 0 where
  pub heap : KernelHeap
  pub rest : List MallocHeader
  pub returns : out ≡ done heap
  pub free : (heap.headers b).used ≡ false
  pub minsize : kmalloc_minsize ≤ (heap.headers b).size
  pub after : Tiles heap.headers (b + (heap.headers b).size) rest heap.g_kernel_heap
  pub below : (x : ℕ) → x < b → heap.headers x ≡ h.headers x
  pub same_end : heap.g_kernel_heap ≡ h.g_kernel_heap
  pub same_total : heap.g_kernel_heap_used ≡ h.g_kernel_heap_used
  pub held :
      (b' s' : ℕ)
      → Block (b + (h.headers b).size) post b' s'
      → Block (b + (heap.headers b).size) rest b' s'
  pub no_more :
      (b' s' : ℕ)
      → Block (b + (heap.headers b).size) rest b' s'
      → Block (b + (h.headers b).size) post b' s'

-- The loop stops.
Merged-here :
    (fuel : ℕ) (h : KernelHeap) (b : ℕ) (post : List MallocHeader)
    → (h.headers b).used ≡ false
    → kmalloc_minsize ≤ (h.headers b).size
    → Tiles h.headers (b + (h.headers b).size) post h.g_kernel_heap
    → (ltb (b + (h.headers b).size) h.g_kernel_heap
        && not (h.headers (b + (h.headers b).size)).used)
      ≡ false
    → Merged h b post (merge (suc fuel) h b)
unfolding merge
Merged-here fuel h b post free minsize after stops = record {
  heap = h;
  rest = post;
  returns = rw (stops, merge) refl;
  free = free;
  minsize = minsize;
  after = after;
  below = λ x p. refl;
  same_end = refl;
  same_total = refl;
  held = λ b' s' k. k;
  no_more = λ b' s' k. k;
}

and_false : (x : Bool) → (x && false) ≡ false
and_false true = refl
and_false false = refl

abbrev absorbed : KernelHeap → ℕ → KernelHeap
absorbed h b = record h {
  headers = set_header h.headers b (record (h.headers b) {
    size = ((h.headers b).size + (h.headers (b + (h.headers b).size)).size) % 2 ^ 31;
  });
}

merge-step :
    (fuel : ℕ) (h : KernelHeap) (b : ℕ)
    → b + (h.headers b).size < h.g_kernel_heap
    → (h.headers (b + (h.headers b).size)).used ≡ false
    → merge (suc fuel) h b ≡ merge fuel (absorbed h b) b
unfolding merge
merge-step fuel h b inside free =
    let e : ltb (b + (h.headers b).size) h.g_kernel_heap ≡ true = ground arith in
    rw (e, merge) (rw free refl)

-- The next chunk is free and becomes part of this one.
Merged-later :
    (h : KernelHeap) (b : ℕ) (c : MallocHeader) (post : List MallocHeader)
    {out out' : Outcome KernelHeap}
    → out' ≡ out
    → kmalloc_minsize ≤ (h.headers b).size
    → c.used ≡ false
    → ((absorbed h b).headers b).size ≡ (h.headers b).size + c.size
    → Merged (absorbed h b) b post out
    → Merged h b (c ∷ post) out'
Merged-later h b c post same minsize free size r =
    let next : b + ((absorbed h b).headers b).size ≡ b + (h.headers b).size + c.size =
      omega (arith, size) in
    record {
      heap = r.heap;
      rest = r.rest;
      returns = same ∙ r.returns;
      free = r.free;
      minsize = r.minsize;
      after = r.after;
      below = λ x p. r.below x p ∙ set_header-other h.headers b _ x (λ k. omega (arith, p, k));
      same_end = r.same_end;
      same_total = r.same_total;
      held = λ b' s' k. elim k [
        | inl (u, at, n) ↦ absurd (cc)
        | inr l ↦ r.held b' s' (subst (λ x. Block x post b' s') (sym next) l)
      ];
      no_more = λ b' s' k. inr (subst (λ x. Block x post b' s') next (r.no_more b' s' k));
    }

pub merge-Merged :
    (post : List MallocHeader) (fuel : ℕ) (h : KernelHeap) (b : ℕ)
    → (h.headers b).used ≡ false
    → kmalloc_minsize ≤ (h.headers b).size
    → h.g_kernel_heap ≤ kern_heap_end
    → Tiles h.headers (b + (h.headers b).size) post h.g_kernel_heap
    → length post < fuel
    → Merged h b post (merge fuel h b)
merge-Merged post zero h b free minsize range t rounds = absurd (omega arith)
merge-Merged [] (suc fuel) h b free minsize range t rounds =
    let e : ltb (b + (h.headers b).size) h.g_kernel_heap ≡ false = ground arith in
    Merged-here fuel h b [] free minsize t (rw e refl)
merge-Merged (c ∷ post) (suc fuel) h b free minsize range t rounds = elim (Bool-cases c.used) [
  | inl used ↦
      let u : (h.headers (b + (h.headers b).size)).used ≡ true =
        ap (λ (d : MallocHeader). d.used) t.0 ∙ used in
      Merged-here fuel h b (c ∷ post) free minsize t (rw u (and_false _))
  | inr idle ↦
      let u : (h.headers (b + (h.headers b).size)).used ≡ false =
        ap (λ (d : MallocHeader). d.used) t.0 ∙ idle in
      let more = ap (λ (d : MallocHeader). d.size) t.0 in
      let high = Tiles-le h.headers (b + (h.headers b).size + c.size) post h.g_kernel_heap t.2 in
      let here = set_header-same h.headers b (record (h.headers b) {
        size = ((h.headers b).size + (h.headers (b + (h.headers b).size)).size) % 2 ^ 31;
      }) in
      let size : ((absorbed h b).headers b).size ≡ (h.headers b).size + c.size =
        ap (λ (d : MallocHeader). d.size) here ∙ omega (arith, more, high, range) in
      let next : b + (h.headers b).size + c.size ≡ b + ((absorbed h b).headers b).size =
        omega (arith, size) in
      let after =
        Tiles-frame h.headers (absorbed h b).headers (b + (h.headers b).size + c.size) post
          h.g_kernel_heap
          (λ x p q. set_header-other h.headers b _ x (λ k. omega (arith, p, k, minsize))) t.2 in
      Merged-later h b c post (merge-step fuel h b (omega (arith, high, t.1)) u) minsize idle size (
        merge-Merged post fuel (absorbed h b) b (ap (λ (d : MallocHeader). d.used) here ∙ free)
          (omega (arith, size, minsize)) range
          (subst (λ x. Tiles (absorbed h b).headers x post h.g_kernel_heap) next after)
          (omega arith))
]
