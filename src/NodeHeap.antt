-- ===== src/NodeHeap.antt =====
-- The memory on which kernel/list.c works: nodes at addresses, and commands that may fault.
use asterisk.Base.{ℕ, false, Option, none, some, ◌≡◌, ◌≢◌, arith, ◌==◌, if◌then◌else◌}

abbrev pub Ptr : Type 0
Ptr = ℕ

-- `NULL`
abbrev pub null : Ptr
null = 0

-- `struct ListNode`; the `void*` that it carries is an address too
pub record ListNode : Type 0 where
  pub previous : Ptr
  pub next : Ptr
  pub payload : Ptr

abbrev pub node : Ptr → Ptr → Ptr → ListNode
node p q d = record { previous = p; next = q; payload = d }

abbrev pub Heap : Type 0
Heap = Ptr → Option ListNode

unfoldable pub write : Heap → Ptr → Option ListNode → Heap
write h p c a = if a == p then c else h a

-- `none`: a read or write through a pointer to no node, or a walk that outlasts its fuel
abbrev pub Cmd : Type 0 → Type 0
Cmd A = Heap → Option (A × Heap)

abbrev pub pure : {A : Type 0} → A → Cmd A
pure a h = some (a, h)

infixl 5 ◌>>=◌ ◌>>◌
abbrev pub ◌>>=◌ : {A B : Type 0} → Cmd A → (A → Cmd B) → Cmd B
◌>>=◌ m k h = elim (m h) [ none ↦ none | some (a, h') ↦ k a h' ]

abbrev pub ◌>>◌ : {B : Type 0} → Cmd (Unit {0}) → Cmd B → Cmd B
m >> k = m >>= λ _. k

abbrev pub fail : {A : Type 0} → Cmd A
fail h = none

-- `*p`
unfoldable pub load : Ptr → Cmd ListNode
load p h = if p == null then none else elim (h p) [ none ↦ none | some n ↦ some (n, h) ]

-- the node at `p` set to `n`
abbrev pub store : Ptr → ListNode → Cmd (Unit {0})
store p n h = some (tt, write h p (some n))

-- `p->previous = q`
unfoldable pub set_previous : Ptr → Ptr → Cmd (Unit {0})
set_previous p q = do n ← load p; store p (record n { previous = q })

-- `p->next = q`
unfoldable pub set_next : Ptr → Ptr → Cmd (Unit {0})
set_next p q = do n ← load p; store p (record n { next = q })

-- `kfree(p)`
unfoldable pub free : Ptr → Cmd (Unit {0})
free p = load p >>= λ _ h. some (tt, write h p none)

pub not_null : (p : Ptr) → p ≢ null → (p == null) ≡ false
not_null p ne = ground arith

-- A run of a sequence goes on with what its first command gives.
pub >>=-some :
    {A B : Type 0} (m : Cmd A) (k : A → Cmd B) {h h' : Heap} {a : A}
    → m h ≡ some (a, h')
    → (m >>= k) h ≡ k a h'
>>=-some m k e = rw (e, ◌>>=◌)

module _ (h : Heap) (p : Ptr) {n : ListNode} (ne : p ≢ null) (at : h p ≡ some n) where
  pub load-some : load p h ≡ some (n, h)
  unfolding load
  load-some = rw (not_null p ne, at)

  pub set_previous-some :
      (q : Ptr) → set_previous p q h ≡ some (tt, write h p (some (record n { previous = q })))
  unfolding set_previous
  set_previous-some q = >>=-some (load p) _ load-some

  pub set_next-some :
      (q : Ptr) → set_next p q h ≡ some (tt, write h p (some (record n { next = q })))
  unfolding set_next
  set_next-some q = >>=-some (load p) _ load-some

  pub free-some : free p h ≡ some (tt, write h p none)
  unfolding free
  free-some = >>=-some (load p) _ load-some

pub write_self : (h : Heap) (p : Ptr) (c : Option ListNode) → write h p c p ≡ c
unfolding write
write_self h p c = ground arith

pub write_ne : (h : Heap) (p a : Ptr) (c : Option ListNode) → a ≢ p → write h p c a ≡ h a
unfolding write
write_ne h p a c ne = ground arith
