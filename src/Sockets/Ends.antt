-- ===== src/Sockets/Ends.antt =====
-- The making, connecting and closing of sockets of kernel/socket.c and kernel/unixsocket.c.
use asterisk.Base.{
  ℕ, ◌≡◌, ◌∙◌, sym, refl, ap, arith, subst, Bool, Bool-cases, inl, inr, true, false, ◌||◌, List,
  ◌∷◌, Option, none, some, ltb, ◌==◌, ==→eq,
}
use asterisk.FifoBuffer.{fifobuffer_get_size}
use asterisk.PageMemory.Ownership.{has_address, Distinct}
use asterisk.Sockets.{Net, Socket, with_socket, connect_both}
use asterisk.Sockets.Store.{same_field, at_self, at_other}
use asterisk.Sockets.Linked.{IsLive, Waits, Linked}

-- The socket waits for nobody.
abbrev pub Nowhere : Net → ℕ → Type 0
Nowhere n s = (j : ℕ) → IsLive n j → has_address (n.sockets j).accept_queue s ≡ false

-- A socket that could be connected.
abbrev pub Free : Net → ℕ → Type 0
Free n s = IsLive n s × ((n.sockets s).connection ≡ none) × Nowhere n s

apart : (n : Net) (s a : ℕ) → Nowhere n s → (l : ℕ) → Waits n l a → (a == s) ≡ false
apart n s a nowhere l (live, h) = elim (Bool-cases (a == s)) [
  | inr e ↦ e
  | inl e ↦
      (let inside : has_address (n.sockets l).accept_queue s ≡ true =
          subst (λ z. has_address (n.sockets l).accept_queue z ≡ true) (==→eq a s e) h in
        let out = nowhere l live in absurd (cc))
]

-- The first socket that waits for `l` is taken from the queue.
module _ (n : Net) (l x : ℕ) (rest : List ℕ) (k : Linked n) (live_l : IsLive n l)
    (queue : (n.sockets l).accept_queue ≡ x ∷ rest) where
  abbrev pub dequeued : Net
  dequeued = with_socket n l (record (n.sockets l) { accept_queue = rest })

  same_connection : (a : ℕ) → (dequeued.sockets a).connection ≡ (n.sockets a).connection
  same_connection = same_field (λ y. y.connection) n l _ refl

  distinct : (has_address rest x ≡ false) × Distinct rest
  distinct = subst Distinct queue (k.queues l live_l)

  x_waits : Waits n l x
  x_waits = (
    live_l,
    ap (λ q. has_address q x) queue ∙ (let e : (x == x) ≡ true = ground arith in rw e refl),
  )

  -- Who waits then, waited before, and is not `x`.
  dequeued-Waits : (j y : ℕ) → Waits dequeued j y → Waits n j y × ((y == x) ≡ false)
  dequeued-Waits j y (live, h) = elim (Bool-cases (j == l)) [
    | inl e ↦
        (let here : has_address rest y ≡ true =
            sym (
              ap (λ z. has_address z.accept_queue y)
                (ap dequeued.sockets (==→eq j l e) ∙ at_self n l _))
            ∙ h in
          (
            (
              live,
              ap (λ i. has_address (n.sockets i).accept_queue y) (==→eq j l e)
                  ∙ (ap (λ q. has_address q y) queue ∙ or_right (y == x) (has_address rest y) here),
            ),
            other y here,
          ))
    | inr e ↦
        (let before : Waits n j y =
            (live, sym (ap (λ z. has_address z.accept_queue y) (at_other n l _ j e)) ∙ h) in
          (before, elsewhere j y e before))
  ]
    where
      or_right : (a b : Bool) → b ≡ true → (a || b) ≡ true
      or_right a b e = ground arith

      other : (y : ℕ) → has_address rest y ≡ true → (y == x) ≡ false
      other y here = elim (Bool-cases (y == x)) [
        | inr e ↦ e
        | inl e ↦
            (let out : has_address rest y ≡ false =
                ap (has_address rest) (==→eq y x e) ∙ distinct.0 in
              absurd (cc))
      ]

      elsewhere : (j y : ℕ) → (j == l) ≡ false → Waits n j y → (y == x) ≡ false
      elsewhere j y e before = elim (Bool-cases (y == x)) [
        | inr f ↦ f
        | inl f ↦
            (let same : j ≡ l = k.unique j l x (subst (Waits n j) (==→eq y x f) before) x_waits in
              let itself : (j == l) ≡ true = subst (λ i. (j == i) ≡ true) same (equal j) in
              absurd (cc))
      ]
        where
          equal : (j : ℕ) → (j == j) ≡ true
          equal j = ground arith

  pub dequeued-Linked : Linked dequeued
  dequeued-Linked = record {
    listed = k.listed;
    paired = λ a b live e.
        let (live', e') = k.paired a b live (sym (same_connection a) ∙ e) in
        (live', same_connection b ∙ e');
    pending = λ j y w.
        (let (live, e) = k.pending j y (dequeued-Waits j y w).0 in (live, same_connection y ∙ e));
    unique = λ j i y w v. k.unique j i y (dequeued-Waits j y w).0 (dequeued-Waits i y v).0;
    queues = λ j live. elim (Bool-cases (j == l)) [
      | inl e ↦
          subst (λ z. Distinct z.accept_queue)
            (sym (ap dequeued.sockets (==→eq j l e) ∙ at_self n l _)) distinct.1
      | inr e ↦ subst (λ z. Distinct z.accept_queue) (sym (at_other n l _ j e)) (k.queues j live)
    ];
    fed = λ a live e off.
        ap (λ f. ltb 0 (fifobuffer_get_size f)) (same_field (λ y. y.buffer_in) n l _ refl a)
        ∙ k.fed a live (sym (same_connection a) ∙ e)
            (sym (same_field (λ y. y.disconnected) n l _ refl a) ∙ off);
  }

  pub dequeued-Free : Free dequeued x
  dequeued-Free = (
    (k.pending l x x_waits).0,
    same_connection x ∙ (k.pending l x x_waits).1,
    λ j live. elim (Bool-cases (has_address (dequeued.sockets j).accept_queue x)) [
      | inr e ↦ e
      | inl e ↦ (let no = (dequeued-Waits j x (live, e)).1 in let yes = equal x in absurd (cc))
    ],
  )
    where
      equal : (a : ℕ) → (a == a) ≡ true
      equal a = ground arith

-- Two different free sockets are connected.
module _ (n : Net) (s t : ℕ) (k : Linked n) (s_free : Free n s) (t_free : Free n t)
    (differ : (s == t) ≡ false) where
  abbrev joined : Net
  joined = connect_both n s t

  abbrev first : Net
  first = with_socket n s (record (n.sockets s) { connection = some t })

  field {ℓ} :
      {A : Type ℓ} (f : Socket → A)
      → ((x : Socket) (c : Option ℕ) → f (record x { connection = c }) ≡ f x)
      → (a : ℕ) → f (joined.sockets a) ≡ f (n.sockets a)
  field f same a =
      same_field f first t _ (same (first.sockets t) (some s)) a
      ∙ same_field f n s _ (same (n.sockets s) (some t)) a

  at_t : (joined.sockets t).connection ≡ some s
  at_t = ap (λ x. x.connection) (at_self first t _)

  at_s : (joined.sockets s).connection ≡ some t
  at_s = ap (λ x. x.connection) (at_other first t _ s differ ∙ at_self n s _)

  at_rest :
      (a : ℕ)
      → (a == s) ≡ false
      → (a == t) ≡ false
      → (joined.sockets a).connection ≡ (n.sockets a).connection
  at_rest a e f = ap (λ x. x.connection) (at_other first t _ a f ∙ at_other n s _ a e)

  old : (l y : ℕ) → Waits joined l y → Waits n l y
  old l y (live, h) =
      (live, sym (ap (λ q. has_address q y) (field (λ x. x.accept_queue) (λ x c. refl) l)) ∙ h)

  pub connect_both-Linked : Linked joined
  connect_both-Linked = record {
    listed = k.listed;
    paired = λ a b live e. elim (Bool-cases (a == t)) [
      | inl h ↦
          (let is_s : s ≡ b =
              cc (sym at_t ∙ subst (λ i. (joined.sockets i).connection ≡ some b) (==→eq a t h) e) in
            subst (λ i. IsLive n i × ((joined.sockets i).connection ≡ some a)) is_s
              (s_free.0, at_s ∙ ap some (sym (==→eq a t h))))
      | inr h ↦ elim (Bool-cases (a == s)) [
        | inl g ↦
            (let is_t : t ≡ b =
                cc (
                  sym at_s ∙ subst (λ i. (joined.sockets i).connection ≡ some b) (==→eq a s g) e) in
              subst (λ i. IsLive n i × ((joined.sockets i).connection ≡ some a)) is_t
                (t_free.0, at_t ∙ ap some (sym (==→eq a s g))))
        | inr g ↦
            (let (live_b, back) = k.paired a b live (sym (at_rest a g h) ∙ e) in
              (live_b, at_rest b (not_free b a s s_free back) (not_free b a t t_free back) ∙ back))
      ]
    ];
    pending = λ l y w.
        let (live, e) = k.pending l y (old l y w) in
        (
          live,
          at_rest y (apart n s y s_free.2 l (old l y w)) (apart n t y t_free.2 l (old l y w)) ∙ e,
        );
    unique = λ l j y w v. k.unique l j y (old l y w) (old j y v);
    queues = λ l live.
        subst Distinct (sym (field (λ x. x.accept_queue) (λ x c. refl) l)) (k.queues l live);
    fed = λ a live e off.
        ap (λ f. ltb 0 (fifobuffer_get_size f)) (field (λ x. x.buffer_in) (λ x c. refl) a)
        ∙ k.fed a live (unconnected a e) (sym (field (λ x. x.disconnected) (λ x c. refl) a) ∙ off);
  }
    where
      not_free : (b a i : ℕ) → Free n i → (n.sockets b).connection ≡ some a → (b == i) ≡ false
      not_free b a i (live, unconnected, nowhere) back = elim (Bool-cases (b == i)) [
        | inr e ↦ e
        | inl e ↦
            (let here : (n.sockets i).connection ≡ some a =
                subst (λ j. (n.sockets j).connection ≡ some a) (==→eq b i e) back in
              absurd (cc))
      ]

      unconnected : (a : ℕ) → (joined.sockets a).connection ≡ none → (n.sockets a).connection ≡ none
      unconnected a e = elim (Bool-cases (a == t)) [
        | inl h ↦ ap (λ i. (n.sockets i).connection) (==→eq a t h) ∙ t_free.1
        | inr h ↦ elim (Bool-cases (a == s)) [
          | inl g ↦ ap (λ i. (n.sockets i).connection) (==→eq a s g) ∙ s_free.1
          | inr g ↦ sym (at_rest a g h) ∙ e
        ]
      ]
