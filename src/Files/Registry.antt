-- ===== src/Files/Registry.antt =====
-- kernel/fs.c: the file systems that drivers register, and the search for one at a mount. A name is
-- the list of its bytes, which strcmp compares; the array is the list of its used entries.
use asterisk.Base.{
  ℕ, ◌≤◌, ◌<◌, ◌≡◌, ◌≢◌, ◌∙◌, ◌⊎◌, inl, inr, sym, refl, ap, arith, Bool, Bool-cases, Option-cases,
  true, false, ◌&&◌, ◌++◌, List, [], ◌∷◌, Option, none, some, ltb, ltb→lt, ltb→le, ◌==◌,
  if◌then◌else◌, length,
}

abbrev pub filesystem_capacity : ℕ
filesystem_capacity = 10

-- `struct FileSystem`; its two functions are numbered.
pub record FileSystem : Type 0 where
  pub name : List ℕ
  pub check_mount : ℕ
  pub mount : ℕ

abbrev pub same_name : List ℕ → List ℕ → Bool
same_name [] [] = true
same_name [] (y ∷ ys) = false
same_name (x ∷ xs) [] = false
same_name (x ∷ xs) (y ∷ ys) = (x == y) && same_name xs ys

-- The loop of fs_register, fs_mount and fs_check_mount.
abbrev pub find_fs : List FileSystem → List ℕ → Option FileSystem
find_fs [] name = none
find_fs (fs ∷ rest) name =
    let later = find_fs rest name in if same_name fs.name name then some fs else later

pub data Registration : Type 0 where
  registers : Bool → List FileSystem → Registration
  writes_outside : Registration

abbrev pub has_name : FileSystem → Bool
has_name fs = ltb 0 (length fs.name)

unfoldable pub fs_register : List FileSystem → FileSystem → Registration
fs_register registry fs =
    if has_name fs
    then (elim (find_fs registry fs.name) [
      | some other ↦ registers false registry
      | none ↦
          if ltb (length registry) filesystem_capacity
          then registers true (registry ++ (fs ∷ []))
          else writes_outside
    ])
    else registers false registry

-- `call` is what the numbered function returns.
unfoldable pub fs_mount : (call : ℕ → Bool) → List FileSystem → (fs_type : List ℕ) → Bool
fs_mount call registry fs_type = elim (find_fs registry fs_type) [
  | none ↦ false
  | some fs ↦ call fs.mount
]

unfoldable pub fs_check_mount : (call : ℕ → Bool) → List FileSystem → (fs_type : List ℕ) → Bool
fs_check_mount call registry fs_type = elim (find_fs registry fs_type) [
  | none ↦ false
  | some fs ↦ call fs.check_mount
]

same_name_self : (n : List ℕ) → same_name n n ≡ true
same_name_self [] = refl
same_name_self (x ∷ n) =
    let here : (x == x) ≡ true = ground arith in rw (here, same_name) (same_name_self n)

-- A new entry is found by its name if no entry before it has the name, and no other name is
-- affected.
find_fs-new :
    (xs : List FileSystem) (fs : FileSystem)
    → find_fs xs fs.name ≡ none
    → find_fs (xs ++ (fs ∷ [])) fs.name ≡ some fs
find_fs-new [] fs e = rw (same_name_self fs.name) refl
find_fs-new (x ∷ xs) fs e = elim (Bool-cases (same_name x.name fs.name)) [
  | inl here ↦ (let found : find_fs (x ∷ xs) fs.name ≡ some x = rw here refl in absurd (cc))
  | inr there ↦
      (let e' : find_fs xs fs.name ≡ none =
          (let step : find_fs (x ∷ xs) fs.name ≡ find_fs xs fs.name = rw there refl in
            sym step ∙ e) in
        rw there (find_fs-new xs fs e'))
]

find_fs-other :
    (xs : List FileSystem) (fs : FileSystem) (n : List ℕ)
    → same_name fs.name n ≡ false
    → find_fs (xs ++ (fs ∷ [])) n ≡ find_fs xs n
find_fs-other [] fs n e = rw e refl
find_fs-other (x ∷ xs) fs n e =
    ap (λ later. if same_name x.name n then some x else later) (find_fs-other xs fs n e)

-- What a registration leaves.
abbrev pub Registered : (call : ℕ → Bool) → List FileSystem → FileSystem → Registration → Type 0
Registered call registry fs writes_outside =
    (0 < length fs.name)
    × (find_fs registry fs.name ≡ none)
    × (filesystem_capacity ≤ length registry)
Registered call registry fs (registers false after) =
    (after ≡ registry) × ((length fs.name ≡ 0) ⊎ (find_fs registry fs.name ≢ none))
Registered call registry fs (registers true after) =
    (0 < length fs.name)
    × (find_fs registry fs.name ≡ none)
    × (length registry < filesystem_capacity)
    × (fs_mount call after fs.name ≡ call fs.mount)
    × (fs_check_mount call after fs.name ≡ call fs.check_mount)
    × ((n : List ℕ)
        → same_name fs.name n ≡ false
        → fs_mount call after n ≡ fs_mount call registry n)

-- A file system with a name of its own can be mounted by it after its registration, and the other
-- names stay as they are; one without a name or with the name of another is refused;
-- and a new name beyond the capacity is written outside the array.
pub fs_register-Registered :
    (call : ℕ → Bool) (registry : List FileSystem) (fs : FileSystem)
    → Registered call registry fs (fs_register registry fs)
unfolding fs_register fs_mount fs_check_mount
fs_register-Registered call registry fs = elim (Bool-cases (has_name fs)) [
  | inr unnamed ↦
      rw (unnamed, fs_register, Registered)
        (refl, inl (omega (arith, ltb→le 0 (length fs.name) unnamed)))
  | inl named ↦ elim (Option-cases (find_fs registry fs.name)) [
    | inr (other, found) ↦
        rw (named, fs_register, found, Registered)
          (refl, inr (λ e. (let same : some other ≡ none = sym found ∙ e in absurd (cc))))
    | inl free ↦ elim (Bool-cases (ltb (length registry) filesystem_capacity)) [
      | inl room ↦
          rw (named, fs_register, free, room, Registered)
            (
              ltb→lt 0 (length fs.name) named,
              free,
              ltb→lt (length registry) 10 room,
              (rw (find_fs-new registry fs free, fs_mount) refl),
              (rw (find_fs-new registry fs free, fs_check_mount) refl),
              λ n different. (rw (find_fs-other registry fs n different, fs_mount) refl),
            )
      | inr full ↦
          rw (named, fs_register, free, full, Registered)
            (ltb→lt 0 (length fs.name) named, free, ltb→le (length registry) 10 full)
    ]
  ]
]
