-- ===== src/PageMemory/Ownership.antt =====
-- Who holds the page frames: sequences of acquisitions and releases after the start.
use asterisk.Base.{
  ℕ, ◌+◌, ◌*◌, ◌/◌, ◌%◌, ◌≤◌, ◌<◌, ◌≡◌, ◌∙◌, inl, inr, sym, refl, ap, ap₂, subst, arith, Bool,
  Bool-cases, Option-cases, true, false, not, ◌&&◌, ◌||◌, ltb, leb, ◌==◌, ==→eq, List, [], ◌∷◌,
  none, some, if◌then◌else◌,
}
use asterisk.KernelHeap.{pagesize_4k}
use asterisk.PageMemory.{
  Bitmap, is_pageframe_used, set_pageframe_used, total_page_count, vmm_initialize,
  vmm_acquire_page_frame_4k, vmm_release_page_frame_4k, ram_as_4k_pages, reserved_area, clear_page,
}
use asterisk.PageMemory.Frames.{IsBytes, used-set, used-unset, set-IsBytes, unset-IsBytes}
use asterisk.PageMemory.Search.{Lowest, clear_page-Lowest}
use asterisk.PageMemory.Start.{unavailable, vmm_initialize-IsBytes, used-vmm_initialize}

-- A list of addresses of page frames has the address.
abbrev pub has_address : List ℕ → ℕ → Bool
has_address [] a = false
has_address (x ∷ xs) a = (a == x) || has_address xs a

abbrev pub give_back : List ℕ → ℕ → List ℕ
give_back [] a = []
give_back (x ∷ xs) a = let xs' = give_back xs a in if x == a then xs' else x ∷ xs'

abbrev pub Distinct : List ℕ → Type 0
Distinct [] = true ≡ true
Distinct (x ∷ xs) = (has_address xs x ≡ false) × Distinct xs

-- What calls may follow the start, and the addresses that are then held: a frame is released only
-- by who holds it.
pub data History (start : Bitmap) (high_mem : ℕ) : Bitmap → List ℕ → Type 0 where
  started : History start high_mem (vmm_initialize start high_mem) []
  acquired :
      {m m' : Bitmap} {held : List ℕ} {a : ℕ}
      → History start high_mem m held
      → vmm_acquire_page_frame_4k m ≡ some (a, m')
      → History start high_mem m' (a ∷ held)
  released :
      {m : Bitmap} {held : List ℕ} (a : ℕ)
      → History start high_mem m held
      → has_address held a ≡ true
      → History start high_mem (vmm_release_page_frame_4k m a) (give_back held a)

has_address-give_back :
    (xs : List ℕ) (a b : ℕ) → has_address (give_back xs a) b ≡ (not (b == a) && has_address xs b)
has_address-give_back [] a b = ground arith
has_address-give_back (x ∷ xs) a b = elim (Bool-cases (x == a)) [
  | inl e ↦ rw e (has_address-give_back xs a b ∙ dropped x a b (has_address xs b) e)
  | inr e ↦
      rw e
        (ap (λ h. (b == x) || h) (has_address-give_back xs a b) ∙ kept x a b (has_address xs b) e)
]
  where
    dropped :
        (x a b : ℕ) (h : Bool)
        → (x == a) ≡ true
        → (not (b == a) && h) ≡ (not (b == a) && ((b == x) || h))
    dropped x a b h e = ground arith

    kept :
        (x a b : ℕ) (h : Bool)
        → (x == a) ≡ false
        → ((b == x) || (not (b == a) && h)) ≡ (not (b == a) && ((b == x) || h))
    kept x a b h e = ground arith

Distinct-give_back : (xs : List ℕ) (a : ℕ) → Distinct xs → Distinct (give_back xs a)
Distinct-give_back [] a d = refl
Distinct-give_back (x ∷ xs) a (out, d) = elim (Bool-cases (x == a)) [
  | inl e ↦ rw e (Distinct-give_back xs a d)
  | inr e ↦
      rw (e, Distinct)
        (has_address-give_back xs a x ∙ (rw (e, out) refl), Distinct-give_back xs a d)
]

-- What is said of the frames: a page is in use exactly if it is not for use or held, each address
-- held is of a whole frame of the machine (as many as eight divides) behind the kernel's, and no
-- address is held twice.
pub record Owned (high_mem : ℕ) (m : Bitmap) (held : List ℕ) : Type 0 where
  pub bytes : IsBytes m
  pub used :
      (q : ℕ)
      → q < ram_as_4k_pages
      → is_pageframe_used m q ≡ (unavailable high_mem q || has_address held (q * pagesize_4k))
  pub inside :
      (a : ℕ)
      → has_address held a ≡ true
      → (a % pagesize_4k ≡ 0)
        × (reserved_area ≤ a)
        × (a + pagesize_4k ≤ 8 * (total_page_count high_mem / 8) * pagesize_4k)
  pub distinct : Distinct held

or_false : (a b : Bool) → (a || b) ≡ false → (a ≡ false) × (b ≡ false)
or_false true b e = absurd (cc)
or_false false b e = (refl, e)

available_range :
    (total page : ℕ)
    → (ltb page 4096 || leb (8 * (total / 8)) page) ≡ false
    → (4096 ≤ page) × (page < 8 * (total / 8))
available_range total page e = ground arith

same_page : (q p : ℕ) → (q == p) ≡ (q * 4096 == p * 4096)
same_page q p = ground arith

same_frame : (q a : ℕ) → a % 4096 ≡ 0 → (q == a / 4096) ≡ (q * 4096 == a)
same_frame q a e = ground arith

or_swap : (a b c : Bool) → (a || (b || c)) ≡ (b || (a || c))
or_swap a b c = ground arith

outside : (c u h : Bool) → (c ≡ true → u ≡ false) → (not c && (u || h)) ≡ (u || (not c && h))
outside c u h e = ground arith

kept : (c h : Bool) → (c && h) ≡ true → h ≡ true
kept c h e = ground arith

module _ (high_mem : ℕ) where
  acquire-Owned :
      (m : Bitmap) (held : List ℕ) (page : ℕ)
      → Owned high_mem m held
      → Lowest (is_pageframe_used m) 0 ram_as_4k_pages (some page)
      → Owned high_mem (set_pageframe_used m page) (page * pagesize_4k ∷ held)
  acquire-Owned m held page o (lo, hi, here, before) =
      let (available, fresh) =
        or_false (unavailable high_mem page) _ (sym (o.used page hi) ∙ here) in
      let (low, high) = available_range (total_page_count high_mem) page available in
      record {
        bytes = set-IsBytes m o.bytes page;
        used = λ q within.
            used-set m o.bytes page q
            ∙ (ap₂ (λ a b. a || b) (same_page q page) (o.used q within)
                ∙ or_swap (q * 4096 == page * 4096) (unavailable high_mem q)
                    (has_address held (q * 4096)));
        inside = λ a is_held. elim (Bool-cases (a == page * 4096)) [
          | inl e ↦
              rw (==→eq a (page * 4096) e) (omega arith, omega (arith, low), omega (arith, high))
          | inr e ↦
              (let old : has_address held a ≡ true = sym (rw e refl) ∙ is_held in o.inside a old)
        ];
        distinct = (fresh, o.distinct);
      }

  -- The page of an address that is held is for use.
  pub available :
      (q a : ℕ)
      → (a % 4096 ≡ 0)
        × (reserved_area ≤ a)
        × (a + 4096 ≤ 8 * (total_page_count high_mem / 8) * 4096)
      → (q * 4096 == a) ≡ true
      → unavailable high_mem q ≡ false
  available q a (whole, low, high) e = ground arith

  pub release-Owned :
      (m : Bitmap) (held : List ℕ) (a : ℕ)
      → Owned high_mem m held
      → has_address held a ≡ true
      → Owned high_mem (vmm_release_page_frame_4k m a) (give_back held a)
  unfolding vmm_release_page_frame_4k
  release-Owned m held a o is_held = record {
    bytes = unset-IsBytes m o.bytes a;
    used = λ q within.
        let frame = same_frame q a (o.inside a is_held).0 in
        used-unset m o.bytes a q
        ∙ (ap₂ (λ c u. not c && u) frame (o.used q within)
            ∙ (outside (q * 4096 == a) (unavailable high_mem q) (has_address held (q * 4096))
                  (λ c. available q a (o.inside a is_held) c)
                ∙ ap (λ h. unavailable high_mem q || h)
                    (sym (has_address-give_back held a (q * 4096)))));
    inside = λ b still.
        o.inside b
          (kept (not (b == a)) (has_address held b) (sym (has_address-give_back held a b) ∙ still));
    distinct = Distinct-give_back held a o.distinct;
  }

acquired-Lowest :
    (m m' : Bitmap) (a : ℕ)
    → vmm_acquire_page_frame_4k m ≡ some (a, m')
    → (page : ℕ) × Lowest (is_pageframe_used m) 0 ram_as_4k_pages (some page)
      × (◌≡◌ {A = ℕ × Bitmap} (page * pagesize_4k, set_pageframe_used m page) (a, m'))
unfolding vmm_acquire_page_frame_4k
acquired-Lowest m m' a e =
    let lowest = clear_page-Lowest m 0 (ram_as_4k_pages / 8) in
    elim (Option-cases (clear_page m 0 (ram_as_4k_pages / 8))) [
      | inl full ↦
          (let same : vmm_acquire_page_frame_4k m ≡ none =
              rw (full, vmm_acquire_page_frame_4k) refl in
            absurd (cc))
      | inr (page, found) ↦
          let same : vmm_acquire_page_frame_4k m ≡ some (page * 4096, set_pageframe_used m page) =
            rw (found, vmm_acquire_page_frame_4k) refl in
          (page, subst (Lowest (is_pageframe_used m) 0 0x100000) found lowest, cc)
    ]

pub acquired-Owned :
    (high_mem : ℕ) {m m' : Bitmap} {held : List ℕ} {a : ℕ}
    → Owned high_mem m held
    → vmm_acquire_page_frame_4k m ≡ some (a, m')
    → Owned high_mem m' (a ∷ held)
acquired-Owned high_mem {m = m} {m' = m'} {held = held} {a = a} o e =
    let (page, lowest, same) = acquired-Lowest m m' a e in
    subst (λ r. Owned high_mem r.1 (r.0 ∷ held)) same (acquire-Owned high_mem m held page o lowest)

-- Whatever calls to acquire and to release a frame follow the start, as long as a frame is only
-- released by who holds it: no frame is held twice, those held are frames of the machine outside
-- the kernel's, and the bitmap has just these and the unavailable ones as used.
pub History-Owned :
    (start : Bitmap) (high_mem : ℕ) {m : Bitmap} {held : List ℕ}
    → IsBytes start
    → History start high_mem m held
    → Owned high_mem m held
History-Owned start high_mem bytes started = record {
  bytes = vmm_initialize-IsBytes start high_mem bytes;
  used = λ q within.
      used-vmm_initialize start high_mem bytes q within ∙ or_false_right (unavailable high_mem q);
  inside = λ a h. absurd (cc);
  distinct = refl;
}
  where
    or_false_right : (b : Bool) → b ≡ (b || false)
    or_false_right b = ground arith
History-Owned start high_mem bytes (acquired {m = m} {m' = m'} {held = held} {a = a} h e) =
    acquired-Owned high_mem (History-Owned start high_mem bytes h) e
History-Owned start high_mem bytes (released {m = m} {held = held} a h is_held) =
    release-Owned high_mem m held a (History-Owned start high_mem bytes h) is_held
