-- ===== src/Sockets/Linked.antt =====
-- Connections and waiting sockets of kernel/unixsocket.c: what holds of them, and changes that
-- leave it.
use asterisk.Base.{
  ℕ, ◌≡◌, ◌∙◌, sym, refl, ap, subst, Bool, Bool-cases, inl, inr, ◌⊎◌, true, false, ◌||◌, [], ◌∷◌,
  ◌++◌, none, some, ltb, ◌==◌, ==→eq,
}
use asterisk.FifoBuffer.{fifobuffer_get_size}
use asterisk.PageMemory.Ownership.{has_address, Distinct}
use asterisk.Sockets.{Net, Socket, with_socket}
use asterisk.Sockets.Store.{same_field, at_self, at_other, has_address-append, Distinct-append}

-- The sockets that have not been freed.
abbrev pub IsLive : Net → ℕ → Type 0
IsLive n s = has_address n.g_socket_list s ≡ true

-- The socket `x` waits to be accepted by `l`.
abbrev pub Waits : Net → (l x : ℕ) → Type 0
Waits n l x = IsLive n l × (has_address (n.sockets l).accept_queue x ≡ true)

-- A connection is one of both its ends; a socket that waits for one is at one place, and free; and
-- a socket with bytes to read has a connection, or had one.
pub record Linked (n : Net) : Type 0 where
  pub listed : Distinct n.g_socket_list
  pub paired :
      (a b : ℕ)
      → IsLive n a
      → (n.sockets a).connection ≡ some b
      → IsLive n b × ((n.sockets b).connection ≡ some a)
  pub pending : (l x : ℕ) → Waits n l x → IsLive n x × ((n.sockets x).connection ≡ none)
  pub unique : (l k x : ℕ) → Waits n l x → Waits n k x → l ≡ k
  pub queues : (l : ℕ) → IsLive n l → Distinct (n.sockets l).accept_queue
  pub fed :
      (a : ℕ)
      → IsLive n a
      → (n.sockets a).connection ≡ none
      → (n.sockets a).disconnected ≡ false
      → ltb 0 (fifobuffer_get_size (n.sockets a).buffer_in) ≡ false

-- A change of other fields of one socket; a connected socket may get bytes.
pub with_socket-Linked :
    (n : Net) (s : ℕ) (x : Socket)
    → x.connection ≡ (n.sockets s).connection
    → x.accept_queue ≡ (n.sockets s).accept_queue
    → x.disconnected ≡ (n.sockets s).disconnected
    → ((x.buffer_in ≡ (n.sockets s).buffer_in) ⊎ ((b : ℕ) × ((n.sockets s).connection ≡ some b)))
    → Linked n
    → Linked (with_socket n s x)
with_socket-Linked n s x c q d buffer k =
    let con = same_field (λ y. y.connection) n s x c in
    let queue = same_field (λ y. y.accept_queue) n s x q in
    let old : (l y : ℕ) → Waits (with_socket n s x) l y → Waits n l y =
      λ l y (live, h). (live, sym (ap (λ r. has_address r y) (queue l)) ∙ h) in
    record {
      listed = k.listed;
      paired = λ a b live e.
          (let (live', e') = k.paired a b live (sym (con a) ∙ e) in (live', con b ∙ e'));
      pending = λ l y w. (let (live, e) = k.pending l y (old l y w) in (live, con y ∙ e));
      unique = λ l l' y w w'. k.unique l l' y (old l y w) (old l' y w');
      queues = λ l live. subst Distinct (sym (queue l)) (k.queues l live);
      fed = λ a live e off.
          fed a live (sym (con a) ∙ e) (sym (same_field (λ y. y.disconnected) n s x d a) ∙ off);
    }
  where
    fed :
        (a : ℕ)
        → IsLive n a
        → (n.sockets a).connection ≡ none
        → (n.sockets a).disconnected ≡ false
        → ltb 0 (fifobuffer_get_size ((with_socket n s x).sockets a).buffer_in) ≡ false
    fed a live e off = elim buffer [
      | inl same ↦
          ap (λ f. ltb 0 (fifobuffer_get_size f)) (same_field (λ y. y.buffer_in) n s x same a)
          ∙ k.fed a live e off
      | inr (b, connected) ↦ elim (Bool-cases (a == s)) [
        | inl h ↦
            (let here : (n.sockets s).connection ≡ none =
                subst (λ c. (n.sockets c).connection ≡ none) (==→eq a s h) e in
              absurd (cc))
        | inr h ↦
            ap (λ y. ltb 0 (fifobuffer_get_size y.buffer_in)) (at_other n s x a h)
            ∙ k.fed a live e off
      ]
    ]

-- The socket `s`, which waits nowhere and has no connection, waits for `l`.
module _ (n : Net) (l s : ℕ) (k : Linked n) where
  abbrev pub queued : Net
  queued =
      with_socket n l
        (record (n.sockets l) { accept_queue = (n.sockets l).accept_queue ++ (s ∷ []) })

  same_connection : (a : ℕ) → (queued.sockets a).connection ≡ (n.sockets a).connection
  same_connection = same_field (λ y. y.connection) n l _ refl

  queue_at :
      queued.sockets l
      ≡ record (n.sockets l) { accept_queue = (n.sockets l).accept_queue ++ (s ∷ []) }
  queue_at = at_self n l _

  -- Who waits then.
  queued-Waits : (j y : ℕ) → Waits queued j y → Waits n j y ⊎ ((j ≡ l) × (y ≡ s))
  queued-Waits j y (live, h) = elim (Bool-cases (j == l)) [
    | inl e ↦
        (let here : has_address ((n.sockets l).accept_queue ++ (s ∷ [])) y ≡ true =
            sym
              (ap (λ x. has_address x.accept_queue y) (ap queued.sockets (==→eq j l e) ∙ queue_at))
            ∙ h in
          elim (either (has_address (n.sockets l).accept_queue y) (y == s)
            (sym (has_address-append (n.sockets l).accept_queue s y) ∙ here)) [
              | inl before ↦
                  inl (
                    live,
                    ap (λ i. has_address (n.sockets i).accept_queue y) (==→eq j l e) ∙ before,
                  )
              | inr this ↦ inr (==→eq j l e, ==→eq y s this)
            ])
    | inr e ↦ inl (live, sym (ap (λ x. has_address x.accept_queue y) (at_other n l _ j e)) ∙ h)
  ]
    where
      either : (a b : Bool) → (a || b) ≡ true → (a ≡ true) ⊎ (b ≡ true)
      either true b e = inl refl
      either false b e = inr e

  pub queued-Linked :
      IsLive n l
      → IsLive n s
      → (n.sockets s).connection ≡ none
      → ((j : ℕ) → IsLive n j → has_address (n.sockets j).accept_queue s ≡ false)
      → Linked queued
  queued-Linked live_l live_s free nowhere = record {
    listed = k.listed;
    paired = λ a b live e.
        let (live', e') = k.paired a b live (sym (same_connection a) ∙ e) in
        (live', same_connection b ∙ e');
    pending = λ j y w. elim (queued-Waits j y w) [
      | inl old ↦ (let (live, e) = k.pending j y old in (live, same_connection y ∙ e))
      | inr (_, y_is_s) ↦
          subst (λ z. IsLive n z × ((queued.sockets z).connection ≡ none)) (sym y_is_s)
            (live_s, same_connection s ∙ free)
    ];
    unique = λ j i y w v. one_place j i y (queued-Waits j y w) (queued-Waits i y v);
    queues = λ j live. elim (Bool-cases (j == l)) [
      | inl e ↦
          subst (λ x. Distinct x.accept_queue) (sym (ap queued.sockets (==→eq j l e) ∙ queue_at))
            (Distinct-append (n.sockets l).accept_queue s (nowhere l live_l) (k.queues l live_l))
      | inr e ↦ subst (λ x. Distinct x.accept_queue) (sym (at_other n l _ j e)) (k.queues j live)
    ];
    fed = λ a live e off.
        ap (λ f. ltb 0 (fifobuffer_get_size f)) (same_field (λ y. y.buffer_in) n l _ refl a)
        ∙ k.fed a live (sym (same_connection a) ∙ e)
            (sym (same_field (λ y. y.disconnected) n l _ refl a) ∙ off);
  }
    where
      one_place :
          (j i y : ℕ)
          → Waits n j y ⊎ ((j ≡ l) × (y ≡ s))
          → Waits n i y ⊎ ((i ≡ l) × (y ≡ s))
          → j ≡ i
      one_place j i y (inl w) (inl v) = k.unique j i y w v
      one_place j i y (inl (live, h)) (inr (_, e)) =
          (let out = nowhere j live in
            let inside : has_address (n.sockets j).accept_queue s ≡ true =
              subst (λ z. has_address (n.sockets j).accept_queue z ≡ true) e h in
            absurd (cc))
      one_place j i y (inr (_, e)) (inl (live, h)) =
          (let out = nowhere i live in
            let inside : has_address (n.sockets i).accept_queue s ≡ true =
              subst (λ z. has_address (n.sockets i).accept_queue z ≡ true) e h in
            absurd (cc))
      one_place j i y (inr (e, _)) (inr (f, _)) = e ∙ sym f
