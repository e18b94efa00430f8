-- ===== src/Sockets/Life.antt =====
-- The making of sockets of kernel/socket.c.
use asterisk.Base.{
  ℕ, ◌≡◌, ◌∙◌, sym, refl, ap, arith, subst, Bool, Bool-cases, inl, inr, ◌⊎◌, true, false, ◌||◌, [],
  ◌∷◌, ◌++◌, none, ltb, ◌==◌, ==→eq,
}
use asterisk.FifoBuffer.{fifobuffer_get_size, fifobuffer_create}
use asterisk.PageMemory.Ownership.{has_address, Distinct}
use asterisk.Sockets.{Net, with_socket, new_socket, socket_create}
use asterisk.Sockets.Store.{at_self, at_other, has_address-append, Distinct-append}
use asterisk.Sockets.Linked.{IsLive, Waits, Linked}
use asterisk.Sockets.Ends.{Free}

-- A new socket, at an address where there is none.
module _ (n : Net) (s domain thread : ℕ) (k : Linked n)
    (fresh : has_address n.g_socket_list s ≡ false) where
  abbrev made : Net
  made = record (with_socket n s (new_socket domain thread)) {
    g_socket_list = n.g_socket_list ++ (s ∷ []);
  }

  socket_create-made : made ≡ socket_create n s domain thread
  unfolding socket_create
  socket_create-made = refl

  -- A live socket is the new one or one that was there.
  new_or_old :
      (a : ℕ) → IsLive made a → ((a ≡ s) × ((a == s) ≡ true)) ⊎ (IsLive n a × ((a == s) ≡ false))
  new_or_old a live = elim (Bool-cases (a == s)) [
    | inl e ↦ inl (==→eq a s e, e)
    | inr e ↦ inr (
      left (has_address n.g_socket_list a) (a == s)
          (sym (has_address-append n.g_socket_list s a) ∙ live) e,
      e,
    )
  ]
    where
      left : (b c : Bool) → (b || c) ≡ true → c ≡ false → b ≡ true
      left b c e f = ground arith

  still_there : (a : ℕ) → IsLive n a → IsLive made a
  still_there a live =
      has_address-append n.g_socket_list s a ∙ or_left (has_address n.g_socket_list a) (a == s) live
    where
      or_left : (b c : Bool) → b ≡ true → (b || c) ≡ true
      or_left b c e = ground arith

  not_new : (a : ℕ) → IsLive n a → (a == s) ≡ false
  not_new a live = elim (Bool-cases (a == s)) [
    | inr e ↦ e
    | inl e ↦
        (let gone : has_address n.g_socket_list a ≡ false =
            ap (has_address n.g_socket_list) (==→eq a s e) ∙ fresh in
          absurd (cc))
  ]

  at_new : made.sockets s ≡ new_socket domain thread
  at_new = at_self n s _

  at_old : (a : ℕ) → IsLive n a → made.sockets a ≡ n.sockets a
  at_old a live = at_other n s _ a (not_new a live)

  old_Waits : (l y : ℕ) → Waits made l y → Waits n l y
  old_Waits l y (live, h) = elim (new_or_old l live) [
    | inl (e, _) ↦
        (let nobody : has_address (made.sockets l).accept_queue y ≡ false =
            ap (λ x. has_address x.accept_queue y) (ap made.sockets e ∙ at_new) in
          absurd (cc))
    | inr (before, _) ↦ (before, sym (ap (λ x. has_address x.accept_queue y) (at_old l before)) ∙ h)
  ]

  made-Linked : Linked made
  unfolding fifobuffer_create fifobuffer_get_size
  made-Linked = record {
    listed = Distinct-append n.g_socket_list s fresh k.listed;
    paired = λ a b live e. elim (new_or_old a live) [
      | inl (h, _) ↦
          (let no : (made.sockets a).connection ≡ none =
              ap (λ x. x.connection) (ap made.sockets h ∙ at_new) in
            absurd (cc))
      | inr (before, _) ↦
          (let (live_b, back) =
              k.paired a b before (sym (ap (λ x. x.connection) (at_old a before)) ∙ e) in
            (still_there b live_b, ap (λ x. x.connection) (at_old b live_b) ∙ back))
    ];
    pending = λ l y w.
        let (live, e) = k.pending l y (old_Waits l y w) in
        (still_there y live, ap (λ x. x.connection) (at_old y live) ∙ e);
    unique = λ l j y w v. k.unique l j y (old_Waits l y w) (old_Waits j y v);
    queues = λ l live. elim (new_or_old l live) [
      | inl (h, _) ↦ subst (λ x. Distinct x.accept_queue) (sym (ap made.sockets h ∙ at_new)) refl
      | inr (before, _) ↦
          subst (λ x. Distinct x.accept_queue) (sym (at_old l before)) (k.queues l before)
    ];
    fed = λ a live e off. elim (new_or_old a live) [
      | inl (h, _) ↦ ap (λ x. ltb 0 (fifobuffer_get_size x.buffer_in)) (ap made.sockets h ∙ at_new)
      | inr (before, _) ↦
          ap (λ x. ltb 0 (fifobuffer_get_size x.buffer_in)) (at_old a before)
          ∙ k.fed a before (sym (ap (λ x. x.connection) (at_old a before)) ∙ e)
              (sym (ap (λ x. x.disconnected) (at_old a before)) ∙ off)
    ];
  }

  pub socket_create-Linked : Linked (socket_create n s domain thread)
  socket_create-Linked = subst Linked socket_create-made made-Linked

  -- The new socket is free, and so is each that was free.
  pub new-Free : Free (socket_create n s domain thread) s
  new-Free =
      subst (λ m. Free m s) socket_create-made
        (
          has_address-append n.g_socket_list s s
              ∙ (let e : (s == s) ≡ true = ground arith in
                  or_right (has_address n.g_socket_list s) (s == s) e),
          ap (λ x. x.connection) at_new,
          λ j live. elim (Bool-cases (has_address (made.sockets j).accept_queue s)) [
            | inr e ↦ e
            | inl e ↦ (let was = (k.pending j s (old_Waits j s (live, e))).0 in absurd (cc))
          ],
        )
    where
      or_right : (b c : Bool) → c ≡ true → (b || c) ≡ true
      or_right b c e = ground arith

  pub old-Free : (t : ℕ) → Free n t → Free (socket_create n s domain thread) t
  old-Free t (live, free, nowhere) =
      subst (λ m. Free m t) socket_create-made
        (
          still_there t live,
          ap (λ x. x.connection) (at_old t live) ∙ free,
          λ j l. elim (Bool-cases (has_address (made.sockets j).accept_queue t)) [
            | inr e ↦ e
            | inl e ↦ (let was = old_Waits j t (l, e) in let no = nowhere j was.0 in absurd (cc))
          ],
        )

  pub new_differs : (t : ℕ) → IsLive n t → (s == t) ≡ false
  new_differs t live = turned s t (not_new t live)
    where
      turned : (a b : ℕ) → (b == a) ≡ false → (a == b) ≡ false
      turned a b e = ground arith
