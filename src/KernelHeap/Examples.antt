-- ===== src/KernelHeap/Examples.antt =====
-- The theorems at a small heap: a block in use, a free chunk and a second block.
use asterisk.Base.{ℕ, ◌+◌, ◌≡◌, inl, refl, arith, true, false, List, [], ◌∷◌, ◌==◌, if◌then◌else◌}
use asterisk.KernelHeap.{
  MallocHeader, KernelHeap, Outcome, done, ksbrk_page, initialize_kernel_heap, kern_heap_begin,
  header_size, kmalloc, kfree, search, take_chunk, real_size,
}
use asterisk.KernelHeap.Layout.{Layout}
use asterisk.KernelHeap.Allocate.{Allocated, kmalloc-Allocated}
use asterisk.KernelHeap.Release.{Released, kfree-Released}
use asterisk.KernelHeap.Edges.{kmalloc-wraps, kfree-kmalloc}

abbrev header : ℕ → MallocHeader
header a =
    if a == kern_heap_begin
    then record { size = 96; used = true }
    else if a == kern_heap_begin + 96
    then record { size = 1000; used = false }
    else record { size = 3000; used = true }

abbrev small_heap : KernelHeap
small_heap = record {
  headers = header;
  g_kernel_heap = kern_heap_begin + 4096;
  g_kernel_heap_used = 3096;
}

abbrev chunks : List MallocHeader
chunks =
    header kern_heap_begin ∷ header (kern_heap_begin + 96) ∷ header (kern_heap_begin + 1096) ∷ []

small_heap-Layout : Layout small_heap chunks
small_heap-Layout = record {
  tiles = (refl, omega arith, (refl, omega arith, (refl, omega arith, refl)));
  some_chunk = omega arith;
  in_range = omega arith;
}

kmalloc-Allocated_example : Allocated small_heap chunks 100 (kmalloc 1 5 small_heap 100)
kmalloc-Allocated_example =
    kmalloc-Allocated 1 4 small_heap chunks 100 small_heap-Layout (omega arith) (omega arith)
      (omega arith) (omega arith) (omega arith)

abbrev reply : Outcome (ℕ × KernelHeap) → ℕ × ℕ
reply (done (a, h)) = (a, h.g_kernel_heap_used)
reply other = (0, 0)

-- The address, and what is in use afterwards.
kmalloc_100 : reply (kmalloc 1 5 small_heap 100) ≡ (kern_heap_begin + 100, 3200)
unfolding kmalloc search take_chunk
kmalloc_100 = refl

-- The heap as it is made.
created-Layout :
    (m : ℕ → MallocHeader)
    → (h : KernelHeap) × (initialize_kernel_heap 1 m ≡ done h)
      × Layout h (record { size = 4096; used = false } ∷ [])
unfolding initialize_kernel_heap ksbrk_page
created-Layout m = (
  _,
  refl,
  record { tiles = (refl, omega arith, refl); some_chunk = omega arith; in_range = omega arith },
)

kfree-Released_example :
    Released small_heap chunks kern_heap_begin 96
      (kfree 4 small_heap (kern_heap_begin + header_size))
kfree-Released_example =
    kfree-Released 4 small_heap chunks kern_heap_begin 96 small_heap-Layout (inl (refl, refl, refl))
      (omega arith)

kmalloc-wraps_example :
    (kmalloc 1 5 small_heap 4294967293 ≡ kmalloc 1 5 small_heap 1) × (real_size 1 ≡ 16)
kmalloc-wraps_example = kmalloc-wraps 1 5 small_heap 4294967293 (omega arith) (omega arith)

abbrev one_chunk : KernelHeap
one_chunk = record {
  headers = λ a. record { size = 4096; used = false };
  g_kernel_heap = kern_heap_begin + 4096;
  g_kernel_heap_used = 0;
}

one_chunk-Layout : Layout one_chunk (record { size = 4096; used = false } ∷ [])
one_chunk-Layout = record {
  tiles = (refl, omega arith, refl);
  some_chunk = omega arith;
  in_range = omega arith;
}

kfree-kmalloc_example :
    (h₁ h₂ : KernelHeap) × (kmalloc 1 3 one_chunk 4084 ≡ done (kern_heap_begin + header_size, h₁))
    × (kfree 2 h₁ (kern_heap_begin + header_size) ≡ done h₂)
    × (h₂.g_kernel_heap_used ≡ 4294967288)
kfree-kmalloc_example =
    kfree-kmalloc one_chunk (record { size = 4096; used = false }) [] 4084 one_chunk-Layout 1 2
      (omega arith) refl (omega arith) (omega arith) (omega arith)
