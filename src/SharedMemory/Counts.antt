-- ===== src/SharedMemory/Counts.antt =====
-- How often an address is in a list of page frames; what is held, up to the order.
use asterisk.Base.{
  ℕ, ◌+◌, ◌*◌, ◌≤◌, ◌≡◌, ◌∙◌, sym, refl, ap, arith, subst, Bool, Bool-cases, inl, inr, true, false,
  ◌||◌, List, [], ◌∷◌, ◌++◌, ltb, ◌==◌,
}
use asterisk.KernelHeap.{pagesize_4k}
use asterisk.PageMemory.{Bitmap}
use asterisk.PageMemory.Start.{unavailable}
use asterisk.PageMemory.Ownership.{has_address, give_back, Distinct, Owned, release-Owned}
use asterisk.PageMemory.{vmm_release_page_frame_4k}

abbrev pub one_if : Bool → ℕ
one_if true = 1
one_if false = 0

abbrev pub occurrences : List ℕ → ℕ → ℕ
occurrences [] a = 0
occurrences (x ∷ xs) a = one_if (a == x) + occurrences xs a

pub occurrences-append :
    (xs ys : List ℕ) (a : ℕ) → occurrences (xs ++ ys) a ≡ occurrences xs a + occurrences ys a
occurrences-append [] ys a = omega arith
occurrences-append (x ∷ xs) ys a = omega (arith, occurrences-append xs ys a)

-- The same addresses as often.
abbrev pub Same : List ℕ → List ℕ → Type 0
Same xs ys = (a : ℕ) → occurrences xs a ≡ occurrences ys a

pub has_address-occurrences : (xs : List ℕ) (a : ℕ) → has_address xs a ≡ ltb 0 (occurrences xs a)
has_address-occurrences [] a = ground arith
has_address-occurrences (x ∷ xs) a =
    ap (λ h. (a == x) || h) (has_address-occurrences xs a) ∙ one_more (a == x) (occurrences xs a)
  where
    one_more : (b : Bool) (n : ℕ) → (b || ltb 0 n) ≡ ltb 0 (one_if b + n)
    one_more true n = ground arith
    one_more false n = ground arith

pub Distinct-occurrences : (xs : List ℕ) → Distinct xs → (a : ℕ) → occurrences xs a ≤ 1
Distinct-occurrences [] d a = omega arith
Distinct-occurrences (x ∷ xs) (out, d) a =
    let le = Distinct-occurrences xs d a in
    elim (Bool-cases (a == x)) [
      | inl e ↦
          (let none_left : ltb 0 (occurrences xs a) ≡ false =
              sym (has_address-occurrences xs a) ∙ (ap (has_address xs) (same a x e) ∙ out) in
            rw e (at_most (occurrences xs a) none_left))
      | inr e ↦ rw e (omega (arith, le))
    ]
  where
    same : (a x : ℕ) → (a == x) ≡ true → a ≡ x
    same a x e = ground arith

    at_most : (n : ℕ) → ltb 0 n ≡ false → 1 + n ≤ 1
    at_most n e = ground arith

occurrences-Distinct : (xs : List ℕ) → ((a : ℕ) → occurrences xs a ≤ 1) → Distinct xs
occurrences-Distinct [] h = refl
occurrences-Distinct (x ∷ xs) h = (
  has_address-occurrences xs x ∙ absent (x == x) (occurrences xs x) (itself x) (h x),
  occurrences-Distinct xs (λ a. omega (arith, h a)),
)
  where
    itself : (x : ℕ) → (x == x) ≡ true
    itself x = ground arith

    absent : (b : Bool) (n : ℕ) → b ≡ true → one_if b + n ≤ 1 → ltb 0 n ≡ false
    absent true n e le = ground arith
    absent false n e le = absurd (cc)

-- Who holds what does not depend on the order.
pub Same-Owned :
    (high_mem : ℕ) {m : Bitmap} {xs ys : List ℕ}
    → Same xs ys
    → Owned high_mem m xs
    → Owned high_mem m ys
Same-Owned high_mem {m = m} {xs = xs} {ys = ys} same o =
    let has : (a : ℕ) → has_address xs a ≡ has_address ys a = λ a.
      has_address-occurrences xs a ∙ (ap (ltb 0) (same a) ∙ sym (has_address-occurrences ys a)) in
    record {
      bytes = o.bytes;
      used = λ q within.
          o.used q within ∙ ap (λ h. unavailable high_mem q || h) (has (q * pagesize_4k));
      inside = λ a h. o.inside a (has a ∙ h);
      distinct =
          occurrences-Distinct ys
            (λ a. subst (λ n. n ≤ 1) (same a) (Distinct-occurrences xs o.distinct a));
    }

give_back-absent : (xs : List ℕ) (a : ℕ) → has_address xs a ≡ false → give_back xs a ≡ xs
give_back-absent [] a h = refl
give_back-absent (x ∷ xs) a h = elim (Bool-cases (a == x)) [
  | inl e ↦ absurd (cc (clash (a == x) (has_address xs a) e h))
  | inr e ↦
      (let other : (x == a) ≡ false = ground arith in
        let rest : has_address xs a ≡ false = sym (rw e refl) ∙ h in
        rw other (ap (λ r. x ∷ r) (give_back-absent xs a rest)))
]
  where
    clash : (b c : Bool) → b ≡ true → (b || c) ≡ false → true ≡ false
    clash true c e f = f
    clash false c e f = sym e

-- The release of an address that is held first.
pub release_first-Owned :
    (high_mem : ℕ) {m : Bitmap} (a : ℕ) {rest : List ℕ}
    → Owned high_mem m (a ∷ rest)
    → Owned high_mem (vmm_release_page_frame_4k m a) rest
release_first-Owned high_mem {m = m} a {rest = rest} o =
    let itself : (a == a) ≡ true = ground arith in
    let gone : give_back (a ∷ rest) a ≡ rest = rw itself (give_back-absent rest a o.distinct.0) in
    subst (Owned high_mem (vmm_release_page_frame_4k m a)) gone
      (release-Owned high_mem m (a ∷ rest) a o (rw itself refl))
