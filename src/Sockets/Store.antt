-- ===== src/Sockets/Store.antt =====
-- Reading and writing of sockets, and lists of sockets.
use asterisk.Base.{
  ℕ, ◌≡◌, ◌∙◌, sym, refl, ap, arith, subst, Bool, Bool-cases, inl, inr, true, false, not, ◌&&◌,
  ◌||◌, List, [], ◌∷◌, ◌++◌, none, some, Option-cases, ◌==◌, ==→eq,
}
use asterisk.Files.Registry.{same_name}
use asterisk.Pipe.{remove_first}
use asterisk.PageMemory.Ownership.{has_address, Distinct}
use asterisk.Sockets.{Net, Socket, with_socket, find_name}

pub at_self : (n : Net) (s : ℕ) (x : Socket) → (with_socket n s x).sockets s ≡ x
at_self n s x = (let e : (s == s) ≡ true = ground arith in rw e refl)

pub at_other :
    (n : Net) (s : ℕ) (x : Socket) (a : ℕ)
    → (a == s) ≡ false
    → (with_socket n s x).sockets a ≡ n.sockets a
at_other n s x a e = rw e refl

-- A field that is written as it was.
pub same_field {ℓ} :
    {A : Type ℓ} (f : Socket → A) (n : Net) (s : ℕ) (x : Socket)
    → f x ≡ f (n.sockets s)
    → (a : ℕ) → f ((with_socket n s x).sockets a) ≡ f (n.sockets a)
same_field f n s x e a = elim (Bool-cases (a == s)) [
  | inl h ↦
      ap f (ap (with_socket n s x).sockets (==→eq a s h) ∙ at_self n s x)
      ∙ (e ∙ ap (λ b. f (n.sockets b)) (sym (==→eq a s h)))
  | inr h ↦ ap f (at_other n s x a h)
]

-- In a list with one more at the end.
pub has_address-append :
    (xs : List ℕ) (s a : ℕ) → has_address (xs ++ (s ∷ [])) a ≡ (has_address xs a || (a == s))
has_address-append [] s a = ground arith
has_address-append (x ∷ xs) s a =
    ap (λ h. (a == x) || h) (has_address-append xs s a)
    ∙ or_assoc (a == x) (has_address xs a) (a == s)
  where
    or_assoc : (a b c : Bool) → (a || (b || c)) ≡ ((a || b) || c)
    or_assoc a b c = ground arith

pub Distinct-append :
    (xs : List ℕ) (s : ℕ) → has_address xs s ≡ false → Distinct xs → Distinct (xs ++ (s ∷ []))
Distinct-append [] s out d = (refl, refl)
Distinct-append (x ∷ xs) s out (fresh, d) = (
  has_address-append xs s x
      ∙ neither (has_address xs x) (x == s) fresh (other x s (has_address xs s) out),
  Distinct-append xs s (second (s == x) (has_address xs s) out) d,
)
  where
    neither : (a b : Bool) → a ≡ false → b ≡ false → (a || b) ≡ false
    neither a b e f = ground arith

    other : (x s : ℕ) (h : Bool) → ((s == x) || h) ≡ false → (x == s) ≡ false
    other x s h e = ground arith

    second : (a b : Bool) → (a || b) ≡ false → b ≡ false
    second a b e = ground arith

pub has_address-remove_first :
    (xs : List ℕ) (s a : ℕ)
    → Distinct xs
    → has_address (remove_first xs s) a ≡ (has_address xs a && not (a == s))
has_address-remove_first [] s a d = ground arith
has_address-remove_first (x ∷ xs) s a (out, d) = elim (Bool-cases (x == s)) [
  | inl e ↦
      (let absent : has_address xs s ≡ false = ap (has_address xs) (sym (==→eq x s e)) ∙ out in
        rw e (gone (has_address xs a) e (λ h. ap (has_address xs) (==→eq a s h) ∙ absent)))
  | inr e ↦
      rw e (ap (λ h. (a == x) || h) (has_address-remove_first xs s a d) ∙ kept (has_address xs a) e)
]
  where
    gone :
        (h : Bool)
        → (x == s) ≡ true
        → ((a == s) ≡ true → h ≡ false)
        → h ≡ (((a == x) || h) && not (a == s))
    gone h e absent = ground arith

    kept :
        (h : Bool)
        → (x == s) ≡ false
        → ((a == x) || (h && not (a == s))) ≡ (((a == x) || h) && not (a == s))
    kept h e = ground arith

pub Distinct-remove_first : (xs : List ℕ) (s : ℕ) → Distinct xs → Distinct (remove_first xs s)
Distinct-remove_first [] s d = refl
Distinct-remove_first (x ∷ xs) s (out, d) = elim (Bool-cases (x == s)) [
  | inl e ↦ rw e d
  | inr e ↦ rw e (
    has_address-remove_first xs s x d ∙ first (has_address xs x) (not (x == s)) out,
    Distinct-remove_first xs s d,
  )
]
  where
    first : (a b : Bool) → a ≡ false → (a && b) ≡ false
    first a b e = ground arith

pub find_name-listed :
    (sockets : ℕ → Socket) (xs : List ℕ) (name : List ℕ) (s : ℕ)
    → find_name sockets xs name ≡ some (some s)
    → has_address xs s ≡ true
unfolding find_name
find_name-listed sockets [] name s e = absurd (cc)
find_name-listed sockets (x ∷ xs) name s e = elim (Option-cases (sockets x).custom_socket) [
  | inl f ↦ (let h : find_name sockets (x ∷ xs) name ≡ none = rw (f, find_name) refl in absurd (cc))
  | inr (own, f) ↦ elim (Bool-cases (same_name name own)) [
    | inl g ↦
        (let h : find_name sockets (x ∷ xs) name ≡ some (some x) = rw (f, find_name, g) refl in
          let same : x ≡ s = cc in
          let itself : (s == s) ≡ true = ground arith in
          subst (λ y. ((s == y) || has_address xs s) ≡ true) (sym same) (rw itself refl))
    | inr g ↦
        (let h : find_name sockets (x ∷ xs) name ≡ find_name sockets xs name =
            rw (f, find_name, g) refl in
          later (s == x) (has_address xs s) (find_name-listed sockets xs name s (sym h ∙ e)))
  ]
]
  where
    later : (a b : Bool) → b ≡ true → (a || b) ≡ true
    later a b e = ground arith
