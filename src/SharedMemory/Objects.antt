-- ===== src/SharedMemory/Objects.antt =====
-- The list of the objects: what a change and a removal do to sums over it, and pointers that
-- differ.
use asterisk.Base.{
  ℕ, ◌+◌, ◌≡◌, ◌∙◌, sym, refl, ap, arith, subst, Bool-cases, inl, inr, true, false, Option-cases,
  List, [], ◌∷◌, ◌++◌, none, some, ◌==◌, ==→eq,
}
use asterisk.SharedMemory.{
  MapInfo, SharedMemory, object_at, change, remove, unmap_search, drop_mapping,
}

abbrev pub total : (SharedMemory → ℕ) → List SharedMemory → ℕ
total f [] = 0
total f (o ∷ os) = f o + total f os

-- No pointer stands for two objects.
abbrev pub Apart : List SharedMemory → Type 0
Apart [] = true ≡ true
Apart (o ∷ os) = (object_at os o.address ≡ none) × Apart os

object_at-empty : (p : ℕ) → object_at [] p ≡ none
unfolding object_at
object_at-empty p = refl

module _ (o : SharedMemory) (os : List SharedMemory) (p : ℕ) where
  pub object_at-here : (o.address == p) ≡ true → object_at (o ∷ os) p ≡ some o
  unfolding object_at
  object_at-here e = rw e refl

  pub object_at-later : (o.address == p) ≡ false → object_at (o ∷ os) p ≡ object_at os p
  unfolding object_at
  object_at-later e = rw e refl

  pub remove-here : (o.address == p) ≡ true → remove (o ∷ os) p ≡ os
  unfolding remove
  remove-here e = rw e refl

  pub remove-later : (o.address == p) ≡ false → remove (o ∷ os) p ≡ o ∷ remove os p
  unfolding remove
  remove-later e = rw e refl

module _ (o : SharedMemory) (os : List SharedMemory) (x : SharedMemory) where
  pub change-here : (o.address == x.address) ≡ true → change (o ∷ os) x ≡ x ∷ os
  unfolding change
  change-here e = rw e refl

  pub change-later : (o.address == x.address) ≡ false → change (o ∷ os) x ≡ o ∷ change os x
  unfolding change
  change-later e = rw e refl

pub object_at-address :
    (os : List SharedMemory) (p : ℕ) (o : SharedMemory) → object_at os p ≡ some o → o.address ≡ p
object_at-address [] p o h = (let e = object_at-empty p in absurd (cc))
object_at-address (x ∷ os) p o h = elim (Bool-cases (x.address == p)) [
  | inl e ↦
      (let same : x ≡ o = cc (sym (object_at-here x os p e) ∙ h) in
        ap (λ y. y.address) (sym same) ∙ ==→eq x.address p e)
  | inr e ↦ object_at-address os p o (sym (object_at-later x os p e) ∙ h)
]

-- A change replaces what the object adds to a sum by what the new one adds.
pub total-change :
    (f : SharedMemory → ℕ) (os : List SharedMemory) (x o : SharedMemory)
    → object_at os x.address ≡ some o
    → total f (change os x) + f o ≡ total f os + f x
total-change f [] x o h = (let e = object_at-empty x.address in absurd (cc))
total-change f (y ∷ os) x o h = elim (Bool-cases (y.address == x.address)) [
  | inl e ↦
      (let same : y ≡ o = cc (sym (object_at-here y os x.address e) ∙ h) in
        let fs : f y ≡ f o = ap f same in
        let here : total f (change (y ∷ os) x) ≡ f x + total f os =
          ap (total f) (change-here y os x e) in
        omega (arith, fs, here))
  | inr e ↦
      (let later : total f (change (y ∷ os) x) ≡ f y + total f (change os x) =
          ap (total f) (change-later y os x e) in
        omega (arith, later, total-change f os x o (sym (object_at-later y os x.address e) ∙ h)))
]

pub total-remove :
    (f : SharedMemory → ℕ) (os : List SharedMemory) (p : ℕ) (o : SharedMemory)
    → object_at os p ≡ some o
    → total f (remove os p) + f o ≡ total f os
total-remove f [] p o h = (let e = object_at-empty p in absurd (cc))
total-remove f (y ∷ os) p o h = elim (Bool-cases (y.address == p)) [
  | inl e ↦
      (let same : y ≡ o = cc (sym (object_at-here y os p e) ∙ h) in
        let fs : f y ≡ f o = ap f same in
        let here : total f (remove (y ∷ os) p) ≡ total f os = ap (total f) (remove-here y os p e) in
        omega (arith, fs, here))
  | inr e ↦
      (let later : total f (remove (y ∷ os) p) ≡ f y + total f (remove os p) =
          ap (total f) (remove-later y os p e) in
        omega (arith, later, total-remove f os p o (sym (object_at-later y os p e) ∙ h)))
]

pub object_at-change :
    (os : List SharedMemory) (x o : SharedMemory)
    → object_at os x.address ≡ some o
    → object_at (change os x) x.address ≡ some x
object_at-change [] x o h = (let e = object_at-empty x.address in absurd (cc))
object_at-change (y ∷ os) x o h = elim (Bool-cases (y.address == x.address)) [
  | inl e ↦
      ap (λ l. object_at l x.address) (change-here y os x e)
      ∙ object_at-here x os x.address (itself x.address)
  | inr e ↦
      ap (λ l. object_at l x.address) (change-later y os x e)
      ∙ (object_at-later y (change os x) x.address e
          ∙ object_at-change os x o (sym (object_at-later y os x.address e) ∙ h))
]
  where
    itself : (n : ℕ) → (n == n) ≡ true
    itself n = ground arith

-- A pointer to no object stays one.
none-change :
    (os : List SharedMemory) (x : SharedMemory) (q : ℕ)
    → object_at os q ≡ none
    → object_at (change os x) q ≡ none
unfolding change
none-change [] x q h = h
none-change (y ∷ os) x q h = elim (Bool-cases (y.address == q)) [
  | inl e ↦ (let f = object_at-here y os q e in absurd (cc))
  | inr e ↦ elim (Bool-cases (y.address == x.address)) [
    | inl e' ↦
        (let other : (x.address == q) ≡ false =
            subst (λ n. (n == q) ≡ false) (==→eq y.address x.address e') e in
          ap (λ l. object_at l q) (change-here y os x e')
          ∙ (object_at-later x os q other ∙ (sym (object_at-later y os q e) ∙ h)))
    | inr e' ↦
        ap (λ l. object_at l q) (change-later y os x e')
        ∙ (object_at-later y (change os x) q e
            ∙ none-change os x q (sym (object_at-later y os q e) ∙ h))
  ]
]

pub Apart-change : (os : List SharedMemory) (x : SharedMemory) → Apart os → Apart (change os x)
unfolding change
Apart-change [] x a = a
Apart-change (y ∷ os) x (out, a) = elim (Bool-cases (y.address == x.address)) [
  | inl e ↦ rw e (subst (λ n. object_at os n ≡ none) (==→eq y.address x.address e) out, a)
  | inr e ↦ rw e (none-change os x y.address out, Apart-change os x a)
]

none-remove :
    (os : List SharedMemory) (p q : ℕ) → object_at os q ≡ none → object_at (remove os p) q ≡ none
unfolding remove
none-remove [] p q h = h
none-remove (y ∷ os) p q h = elim (Bool-cases (y.address == q)) [
  | inl e ↦ (let f = object_at-here y os q e in absurd (cc))
  | inr e ↦
      (let rest : object_at os q ≡ none = sym (object_at-later y os q e) ∙ h in
        elim (Bool-cases (y.address == p)) [
          | inl e' ↦ ap (λ l. object_at l q) (remove-here y os p e') ∙ rest
          | inr e' ↦
              ap (λ l. object_at l q) (remove-later y os p e')
              ∙ (object_at-later y (remove os p) q e ∙ none-remove os p q rest)
        ])
]

pub Apart-remove : (os : List SharedMemory) (p : ℕ) → Apart os → Apart (remove os p)
unfolding remove
Apart-remove [] p a = a
Apart-remove (y ∷ os) p (out, a) = elim (Bool-cases (y.address == p)) [
  | inl e ↦ rw e a
  | inr e ↦ rw e (none-remove os p y.address out, Apart-remove os p a)
]

pub total-append :
    (f : SharedMemory → ℕ) (os xs : List SharedMemory)
    → total f (os ++ xs) ≡ total f os + total f xs
total-append f [] xs = omega arith
total-append f (o ∷ os) xs = omega (arith, total-append f os xs)

-- A new object, at an address where there is none.
pub Apart-append :
    (os : List SharedMemory) (x : SharedMemory)
    → object_at os x.address ≡ none
    → Apart os
    → Apart (os ++ (x ∷ []))
Apart-append [] x free a = (object_at-empty x.address, refl)
Apart-append (y ∷ os) x free (out, a) = elim (Bool-cases (y.address == x.address)) [
  | inl e ↦ (let there = object_at-here y os x.address e in absurd (cc))
  | inr e ↦
      (none_behind os e out, Apart-append os x (sym (object_at-later y os x.address e) ∙ free) a)
]
  where
    none_behind :
        (os : List SharedMemory)
        → (y.address == x.address) ≡ false
        → object_at os y.address ≡ none
        → object_at (os ++ (x ∷ [])) y.address ≡ none
    none_behind [] e out = object_at-later x [] y.address (turned e) ∙ object_at-empty y.address
      where
        turned : (y.address == x.address) ≡ false → (x.address == y.address) ≡ false
        turned e = ground arith
    none_behind (z ∷ os) e out = elim (Bool-cases (z.address == y.address)) [
      | inl e' ↦ (let there = object_at-here z os y.address e' in absurd (cc))
      | inr e' ↦
          (let rest = none_behind os e (sym (object_at-later z os y.address e') ∙ out) in
            object_at-later z (os ++ (x ∷ [])) y.address e' ∙ rest)
    ]

-- The object is one of those there are, without such a mapping.
abbrev pub Found : List SharedMemory → (process address : ℕ) → SharedMemory → Type 0
Found os process address x =
    (o : SharedMemory) × (rest : List MapInfo) × (object_at os x.address ≡ some o)
    × (drop_mapping o.mmapped_list process address ≡ some rest)
    × (x ≡ record o { mmapped_list = rest })

pub unmap_search-Found :
    (os : List SharedMemory) (process address : ℕ) (x : SharedMemory)
    → Apart os
    → unmap_search os process address ≡ some x
    → Found os process address x
unfolding unmap_search
unmap_search-Found [] process address x a h = absurd (cc)
unmap_search-Found (y ∷ os) process address x (out, a) h =
    elim (Option-cases (drop_mapping y.mmapped_list process address)) [
      | inr (rest, e) ↦
          (let first : unmap_search (y ∷ os) process address
                ≡ some (record y { mmapped_list = rest }) =
              rw (e, unmap_search) refl in
            let same : x ≡ record y { mmapped_list = rest } = cc in
            let there : object_at (y ∷ os) x.address ≡ some y =
              object_at-here y os x.address
                (at_itself y.address x.address (ap (λ z. z.address) (sym same))) in
            (y, rest, there, e, same))
      | inl e ↦
          (let next : unmap_search (y ∷ os) process address ≡ unmap_search os process address =
              rw (e, unmap_search) refl in
            let (o, rest, there, dropped, same) =
              unmap_search-Found os process address x a (sym next ∙ h) in
            (
              o,
              rest,
              object_at-later y os x.address (other x.address o there) ∙ there,
              dropped,
              same,
            ))
    ]
  where
    at_itself : (m n : ℕ) → m ≡ n → (m == n) ≡ true
    at_itself m n e = ground arith

    other : (n : ℕ) (o : SharedMemory) → object_at os n ≡ some o → (y.address == n) ≡ false
    other n o there = elim (Bool-cases (y.address == n)) [
      | inr e ↦ e
      | inl e ↦
          (let gone : object_at os n ≡ none =
              subst (λ m. object_at os m ≡ none) (==→eq y.address n e) out in
            absurd (cc))
    ]
