-- ===== src/KernelHeap.antt =====
-- kernel/alloc.c: the heap of the kernel, chunks from `KERN_HEAP_BEGIN` up to `g_kernel_heap`, each
-- with a header in front. A pointer is its address, and the headers are a function of the address.
pub mod Layout
pub mod Search
pub mod Allocate
pub mod Merge
pub mod Release
pub mod Edges
mod Examples
use asterisk.Base.{
  ℕ, zero, suc, ◌+◌, ◌-◌, ◌*◌, ◌/◌, ◌%◌, ◌^◌, Bool, true, false, not, ◌&&◌, ◌||◌, ltb, ◌==◌,
  if◌then◌else◌,
}

-- `struct malloc_header`
pub record MallocHeader : Type 0 where
  pub size : ℕ
  pub used : Bool

-- The headers, `g_kernel_heap` and `g_kernel_heap_used`.
pub record KernelHeap : Type 0 where
  pub headers : ℕ → MallocHeader
  pub g_kernel_heap : ℕ
  pub g_kernel_heap_used : ℕ

-- `fails` is the result -1, `panics` a call of PANIC, and `runs_on` that the fuel was not enough.
pub data Outcome {ℓ} (A : Type ℓ) : Type ℓ where
  done : A → Outcome A
  fails panics runs_on : Outcome A

abbrev pub kern_heap_begin : ℕ
kern_heap_begin = 0x02000000

abbrev pub kern_heap_end : ℕ
kern_heap_end = 0x40000000

abbrev pub pagesize_4k : ℕ
pagesize_4k = 4096

abbrev pub kmalloc_minsize : ℕ
kmalloc_minsize = 16

-- `sizeof(struct malloc_header)`
abbrev pub header_size : ℕ
header_size = 4

abbrev pub set_header : (ℕ → MallocHeader) → ℕ → MallocHeader → ℕ → MallocHeader
set_header headers a header b = if b == a then header else headers b

-- `frames` is the number of page frames that the virtual memory manager can still hand over.
unfoldable pub ksbrk_page : (frames : ℕ) → KernelHeap → ℕ → Outcome KernelHeap
ksbrk_page frames h n =
    if ltb kern_heap_end ((h.g_kernel_heap + n * pagesize_4k % 2 ^ 32) % 2 ^ 32)
    then fails
    else if ltb frames n
    then panics
    else done (record {
      headers =
          set_header h.headers h.g_kernel_heap
            (record { size = pagesize_4k * n % 2 ^ 31; used = false });
      g_kernel_heap = h.g_kernel_heap + n * pagesize_4k;
      g_kernel_heap_used = h.g_kernel_heap_used;
    })

unfoldable pub initialize_kernel_heap : (frames : ℕ) → (ℕ → MallocHeader) → Outcome KernelHeap
unfolding ksbrk_page
initialize_kernel_heap frames headers =
    ksbrk_page frames
      (record { headers = headers; g_kernel_heap = kern_heap_begin; g_kernel_heap_used = 0 }) 1

abbrev pub get_kernel_heap_used : KernelHeap → ℕ
get_kernel_heap_used h = h.g_kernel_heap_used

-- The `while` of `kmalloc` from `chunk` on: the chunk that is taken.
unfoldable pub search :
    (frames fuel : ℕ) → KernelHeap → (chunk realsize : ℕ) → Outcome (KernelHeap × ℕ)
search frames zero h chunk realsize = runs_on
search frames (suc fuel) h chunk realsize =
    let header = h.headers chunk in
    elim (header.used || ltb header.size realsize) [
      | false ↦ done (h, chunk)
      | true ↦ elim (header.size == 0) [
        | true ↦ panics
        | false ↦
            let next = chunk + header.size in
            elim (next == h.g_kernel_heap) [
              | true ↦ elim (ksbrk_page frames h (realsize / pagesize_4k + 1)) [
                | done h' ↦ search frames fuel h' next realsize
                | fails ↦ panics
                | panics ↦ panics
                | runs_on ↦ runs_on
              ]
              | false ↦ elim (ltb h.g_kernel_heap next) [
                | true ↦ panics
                | false ↦ search frames fuel h next realsize
              ]
            ]
      ]
    ]

abbrev pub real_size : ℕ → ℕ
real_size size =
    let r = (header_size + size) % 2 ^ 32 in if ltb r kmalloc_minsize then kmalloc_minsize else r

-- The end of `kmalloc`: the chunk is split if the rest is large enough for a chunk.
unfoldable pub take_chunk : KernelHeap → (chunk realsize : ℕ) → KernelHeap
take_chunk h chunk realsize =
    let header = h.headers chunk in
    record h {
      headers =
          if ltb (header.size - realsize) kmalloc_minsize
          then set_header h.headers chunk (record header { used = true })
          else set_header
              (set_header h.headers (chunk + realsize)
                (record { size = header.size - realsize; used = false }))
              chunk (record { size = realsize; used = true });
      g_kernel_heap_used = (h.g_kernel_heap_used + realsize) % 2 ^ 32;
    }

-- The address that is returned, 0 for NULL, and the heap.
unfoldable pub kmalloc : (frames fuel : ℕ) → KernelHeap → ℕ → Outcome (ℕ × KernelHeap)
kmalloc frames fuel h size =
    if size == 0
    then done (0, h)
    else elim (search frames fuel h kern_heap_begin (real_size size)) [
      | done (h', chunk) ↦ done (chunk + header_size, take_chunk h' chunk (real_size size))
      | fails ↦ fails
      | panics ↦ panics
      | runs_on ↦ runs_on
    ]

-- The `while` of `kfree`.
unfoldable pub merge : ℕ → KernelHeap → ℕ → Outcome KernelHeap
merge zero h chunk = runs_on
merge (suc fuel) h chunk =
    let header = h.headers chunk in
    let other = chunk + header.size in
    elim (ltb other h.g_kernel_heap && not (h.headers other).used) [
      | false ↦ done h
      | true ↦
          merge fuel
            (record h {
              headers =
                  set_header h.headers chunk
                    (record header { size = (header.size + (h.headers other).size) % 2 ^ 31 });
            })
            chunk
    ]

unfoldable pub kfree : ℕ → KernelHeap → ℕ → Outcome KernelHeap
kfree fuel h v_addr =
    if v_addr == 0
    then done h
    else (let chunk = v_addr - header_size in
        let header = h.headers chunk in
        merge fuel
          (record h {
            headers = set_header h.headers chunk (record header { used = false });
            g_kernel_heap_used = (h.g_kernel_heap_used + 2 ^ 32 - header.size) % 2 ^ 32;
          })
          chunk)
