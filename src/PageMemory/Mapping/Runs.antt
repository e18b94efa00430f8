-- ===== src/PageMemory/Mapping/Runs.antt =====
-- The search of `vmm_map_memory` for adjacent free pages.
use asterisk.Base.{
  Bool, ℕ, zero, suc, ◌+◌, ◌-◌, ◌*◌, ◌≤◌, ◌<◌, ◌≡◌, ◌∙◌, ◌⊎◌, inl, inr, sym, refl, ap, subst, arith,
  Bool-cases, true, false, Option, none, some, ◌==◌, ==→eq, if◌then◌else◌,
}
use asterisk.KernelHeap.{pagesize_4k}
use asterisk.PageMemory.{Bitmap, is_pageframe_used}
use asterisk.PageMemory.Mapping.{find_adjacent}

abbrev pub AllFree : Bitmap → (first count : ℕ) → Type 0
AllFree m first count = (j : ℕ) → j < count → is_pageframe_used m (first + j) ≡ false

-- One of the `count` pages is in use.
abbrev pub Blocked : Bitmap → (count first : ℕ) → Type 0
Blocked m count first = (j : ℕ) × (j < count) × (is_pageframe_used m (first + j) ≡ true)

-- The first run of `count` free pages in a range, by its address, or that there is none.
abbrev pub FirstRun : Bitmap → (first last count : ℕ) → Option ℕ → Type 0
FirstRun m first last count none = (q : ℕ) → first ≤ q → q + count ≤ last → Blocked m count q
FirstRun m first last count (some v) =
    (p : ℕ) × (v ≡ p * pagesize_4k)
    × (first ≤ p)
    × (p + count ≤ last)
    × AllFree m p count
    × ((q : ℕ) → first ≤ q → q < p → Blocked m count q)

lt_or_le : (a b : ℕ) → (a < b) ⊎ (b ≤ a)
lt_or_le a b = ground arith

module _ (m : Bitmap) (first count : ℕ) where
  -- A page in use behind `found` free ones blocks every run that begins before it.
  Blocked-used :
      (begin found : ℕ)
      → found < count
      → is_pageframe_used m (begin + found) ≡ true
      → ((q : ℕ) → first ≤ q → q < begin → Blocked m count q)
      → (q : ℕ) → first ≤ q
      → q < suc (begin + found)
      → Blocked m count q
  Blocked-used begin found few used blocked q lo hi = elim (lt_or_le q begin) [
    | inl before ↦ blocked q lo before
    | inr behind ↦
        let e : begin + found ≡ q + (begin + found - q) = omega arith in
        (begin + found - q, omega arith, sym (ap (is_pageframe_used m) e) ∙ used)
  ]

  AllFree-more :
      (begin found : ℕ)
      → AllFree m begin found
      → is_pageframe_used m (begin + found) ≡ false
      → AllFree m begin (suc found)
  AllFree-more begin found free e j h = elim (lt_or_le j found) [
    | inl before ↦ free j before
    | inr here ↦
        (let same : j ≡ found = omega arith in ap (λ i. is_pageframe_used m (begin + i)) same ∙ e)
  ]

  abbrev run_begin : (found i v_mem : ℕ) → ℕ
  run_begin found i v_mem = if found == 0 then i * pagesize_4k else v_mem

  -- One round of the search, by whether the page is in use.
  abbrev after_page : Bool → (i left found v_mem : ℕ) → Option ℕ
  after_page used i left found v_mem =
      let found' = if used then 0 else suc found in
      let v_mem' = if used then 0 else run_begin found i v_mem in
      elim (found' == count) [
        | true ↦ some v_mem'
        | false ↦ find_adjacent m count (suc i) left found' v_mem'
      ]

  find_adjacent-round :
      (used : Bool) (i left found v_mem : ℕ)
      → is_pageframe_used m i ≡ used
      → find_adjacent m count i (suc left) found v_mem ≡ after_page used i left found v_mem
  unfolding find_adjacent
  find_adjacent-round used i left found v_mem e = ap (λ b. after_page b i left found v_mem) e

  find_adjacent-used :
      (i left found v_mem : ℕ)
      → is_pageframe_used m i ≡ true
      → 0 < count
      → find_adjacent m count i (suc left) found v_mem ≡ find_adjacent m count (suc i) left 0 0
  find_adjacent-used i left found v_mem used some_pages =
      let more : (0 == count) ≡ false = ground arith in
      find_adjacent-round true i left found v_mem used ∙ (rw (more, after_page) refl)

  find_adjacent-full :
      (i left found v_mem : ℕ)
      → is_pageframe_used m i ≡ false
      → (suc found == count) ≡ true
      → find_adjacent m count i (suc left) found v_mem ≡ some (run_begin found i v_mem)
  find_adjacent-full i left found v_mem unused e =
      find_adjacent-round false i left found v_mem unused ∙ (rw (e, after_page) refl)

  find_adjacent-more :
      (i left found v_mem : ℕ)
      → is_pageframe_used m i ≡ false
      → (suc found == count) ≡ false
      → find_adjacent m count i (suc left) found v_mem
        ≡ find_adjacent m count (suc i) left (suc found) (run_begin found i v_mem)
  find_adjacent-more i left found v_mem unused e =
      find_adjacent-round false i left found v_mem unused ∙ (rw (e, after_page) refl)

  run_begin-page :
      (begin found i v_mem : ℕ)
      → i ≡ begin + found
      → (0 < found → v_mem ≡ begin * pagesize_4k)
      → run_begin found i v_mem ≡ begin * pagesize_4k
  run_begin-page begin zero i v_mem e at =
      let same : i ≡ begin = omega arith in ap (λ i. i * 4096) same
  run_begin-page begin (suc found) i v_mem e at =
      let later : (suc found == 0) ≡ false = ground arith in rw later (at (omega arith))

  pub find_adjacent-FirstRun :
      (left i last begin found v_mem : ℕ)
      → i ≡ begin + found
      → last ≡ i + left
      → found < count
      → first ≤ begin
      → (0 < found → v_mem ≡ begin * pagesize_4k)
      → AllFree m begin found
      → ((q : ℕ) → first ≤ q → q < begin → Blocked m count q)
      → FirstRun m first last count (find_adjacent m count i left found v_mem)
  unfolding find_adjacent
  find_adjacent-FirstRun zero i last begin found v_mem ei el few lo at free blocked =
      λ q l h. blocked q l (omega arith)
  find_adjacent-FirstRun (suc left) i last begin found v_mem ei el few lo at free blocked =
      let page = run_begin-page begin found i v_mem ei at in
      elim (Bool-cases (is_pageframe_used m i)) [
        | inl used ↦
            subst (FirstRun m first last count)
              (sym (find_adjacent-used i left found v_mem used (omega arith)))
              (find_adjacent-FirstRun left (suc i) last (suc i) 0 0 (omega arith) (omega arith)
                (omega arith) (omega arith) (λ h. absurd (omega arith))
                (λ j h. absurd (omega arith))
                (λ q l h.
                  Blocked-used begin found few (sym (ap (is_pageframe_used m) ei) ∙ used) blocked q
                    l (omega arith)))
        | inr unused ↦
            let free' =
              AllFree-more begin found free (sym (ap (is_pageframe_used m) ei) ∙ unused) in
            elim (Bool-cases (suc found == count)) [
              | inl e ↦
                  let full : suc found ≡ count = ==→eq (suc found) count e in
                  subst (FirstRun m first last count)
                    (sym (find_adjacent-full i left found v_mem unused e))
                    (begin, page, lo, omega arith, λ j h. free' j (omega arith), blocked)
              | inr e ↦
                  let few' : suc found < count = ground arith in
                  subst (FirstRun m first last count)
                    (sym (find_adjacent-more i left found v_mem unused e))
                    (find_adjacent-FirstRun left (suc i) last begin (suc found)
                      (run_begin found i v_mem) (omega arith) (omega arith) few' lo (λ h. page)
                      free' blocked)
            ]
      ]
