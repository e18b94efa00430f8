-- ===== src/Sockets/Closing.antt =====
-- The closing of sockets of kernel/socket.c.
use asterisk.Base.{
  ℕ, ◌≡◌, ◌∙◌, sym, refl, ap, arith, subst, Bool, Bool-cases, inl, inr, true, false, not, ◌&&◌,
  List, none, some, Option-cases, ltb, ◌==◌, ==→eq,
}
use asterisk.FifoBuffer.{fifobuffer_get_size}
use asterisk.PageMemory.Ownership.{has_address, Distinct}
use asterisk.Pipe.{remove_first}
use asterisk.Sockets.{Net, Socket, with_socket, socket_fs_close}
use asterisk.Sockets.Store.{
  same_field, at_self, at_other, has_address-remove_first, Distinct-remove_first,
}
use asterisk.Sockets.Linked.{IsLive, Waits, Linked}
use asterisk.Sockets.Ends.{Nowhere}

-- The closing of a socket that waits for nobody.
module _ (n : Net) (s : ℕ) (k : Linked n) (live_s : IsLive n s) (nowhere : Nowhere n s) where
  abbrev removed : List ℕ
  removed = remove_first n.g_socket_list s

  was_there : (a : ℕ) → has_address removed a ≡ true → IsLive n a × ((a == s) ≡ false)
  was_there a live =
      both (has_address n.g_socket_list a) (a == s)
        (sym (has_address-remove_first n.g_socket_list s a k.listed) ∙ live)
    where
      both : (b c : Bool) → (b && not c) ≡ true → (b ≡ true) × (c ≡ false)
      both b c e = (ground arith, ground arith)

  stays_live : (a : ℕ) → IsLive n a → (a == s) ≡ false → has_address removed a ≡ true
  stays_live a live e =
      has_address-remove_first n.g_socket_list s a k.listed
      ∙ together (has_address n.g_socket_list a) (a == s) live e
    where
      together : (b c : Bool) → b ≡ true → c ≡ false → (b && not c) ≡ true
      together b c e f = ground arith

  not_closed : (j a : ℕ) → Waits n j a → (a == s) ≡ false
  not_closed j a (live, h) = elim (Bool-cases (a == s)) [
    | inr e ↦ e
    | inl e ↦
        (let inside : has_address (n.sockets j).accept_queue s ≡ true =
            subst (λ z. has_address (n.sockets j).accept_queue z ≡ true) (==→eq a s e) h in
          let out = nowhere j live in absurd (cc))
  ]

  -- What is left when the sockets have been changed to `after`.
  cut-Linked :
      (after : ℕ → Socket)
      → ((a : ℕ) → (after a).accept_queue ≡ (n.sockets a).accept_queue)
      → ((a c : ℕ)
          → IsLive n a
          → (a == s) ≡ false
          → (after a).connection ≡ some c
          → ((n.sockets a).connection ≡ some c)
            × ((c == s) ≡ false)
            × ((after c).connection ≡ (n.sockets c).connection))
      → ((a : ℕ) → (n.sockets a).connection ≡ none → (after a).connection ≡ none)
      → ((a : ℕ)
          → IsLive n a
          → (after a).connection ≡ none
          → (after a).disconnected ≡ false
          → ltb 0 (fifobuffer_get_size (after a).buffer_in) ≡ false)
      → Linked (record n { g_socket_list = removed; sockets = after })
  cut-Linked after queue connected unconnected fed = record {
    listed = Distinct-remove_first n.g_socket_list s k.listed;
    paired = λ a b live e.
        let (was, other) = was_there a live in
        let (c, b_stays, same) = connected a b was other e in
        let (live_b, back) = k.paired a b was c in (stays_live b live_b b_stays, same ∙ back);
    pending = λ l y w.
        let before = old l y w in
        let (live, e) = k.pending l y before in
        (stays_live y live (not_closed l y before), unconnected y e);
    unique = λ l j y w v. k.unique l j y (old l y w) (old j y v);
    queues = λ l live. subst Distinct (sym (queue l)) (k.queues l (was_there l live).0);
    fed = λ a live e off. fed a (was_there a live).0 e off;
  }
    where
      old :
          (l y : ℕ)
          → Waits (record n { g_socket_list = removed; sockets = after }) l y
          → Waits n l y
      old l y (live, h) = ((was_there l live).0, sym (ap (λ q. has_address q y) (queue l)) ∙ h)

  differs : (a b : ℕ) → (a == b) ≡ false → a ≡ b → true ≡ false
  differs a b e same = ground arith

  pub socket_fs_close-Linked : Linked (socket_fs_close n s)
  unfolding socket_fs_close
  socket_fs_close-Linked = elim (Option-cases (n.sockets s).connection) [
    | inl e ↦
        rw (e, socket_fs_close)
          (cut-Linked n.sockets (λ a. refl)
            (λ a c live other connected. (connected, not_s a c live connected e, refl)) (λ a f. f)
            (λ a live f off. k.fed a live f off))
    | inr (b, e) ↦ rw (e, socket_fs_close) (parted b e)
  ]
    where
      not_s :
          (a c : ℕ)
          → IsLive n a
          → (n.sockets a).connection ≡ some c
          → (n.sockets s).connection ≡ none
          → (c == s) ≡ false
      not_s a c live connected e = elim (Bool-cases (c == s)) [
        | inr f ↦ f
        | inl f ↦
            (let back = (k.paired a c live connected).1 in
              let here : (n.sockets s).connection ≡ some a =
                subst (λ i. (n.sockets i).connection ≡ some a) (==→eq c s f) back in
              absurd (cc))
      ]

      parted :
          (b : ℕ)
          → (n.sockets s).connection ≡ some b
          → Linked
              (record (with_socket n b
                (record (n.sockets b) { connection = none; disconnected = true })) {
                  g_socket_list = removed;
                })
      parted b e =
          cut-Linked after (same_field (λ y. y.accept_queue) n b x refl) connected unconnected fed
        where
          x : Socket
          x = record (n.sockets b) { connection = none; disconnected = true }

          after : ℕ → Socket
          after = (with_socket n b x).sockets

          at_b : (a : ℕ) → (a == b) ≡ true → after a ≡ x
          at_b a h = ap after (==→eq a b h) ∙ at_self n b x

          connected :
              (a c : ℕ)
              → IsLive n a
              → (a == s) ≡ false
              → (after a).connection ≡ some c
              → ((n.sockets a).connection ≡ some c)
                × ((c == s) ≡ false)
                × ((after c).connection ≡ (n.sockets c).connection)
          connected a c live other con = elim (Bool-cases (a == b)) [
            | inl h ↦
                (let cut : (after a).connection ≡ none = ap (λ y. y.connection) (at_b a h) in
                  absurd (cc))
            | inr h ↦
                (let was : (n.sockets a).connection ≡ some c =
                    sym (ap (λ y. y.connection) (at_other n b x a h)) ∙ con in
                  let back = (k.paired a c live was).1 in
                  let of_b = (k.paired s b live_s e).1 in
                  (
                    was,
                    not_closing c a h back,
                    ap (λ y. y.connection) (at_other n b x c (not_other c a other back of_b)),
                  ))
          ]
            where
              not_closing :
                  (c a : ℕ)
                  → (a == b) ≡ false
                  → (n.sockets c).connection ≡ some a
                  → (c == s) ≡ false
              not_closing c a h back = elim (Bool-cases (c == s)) [
                | inr f ↦ f
                | inl f ↦
                    (let here : (n.sockets s).connection ≡ some a =
                        subst (λ i. (n.sockets i).connection ≡ some a) (==→eq c s f) back in
                      let same : a ≡ b = cc in let no = differs a b h same in absurd (cc))
              ]

              not_other :
                  (c a : ℕ)
                  → (a == s) ≡ false
                  → (n.sockets c).connection ≡ some a
                  → (n.sockets b).connection ≡ some s
                  → (c == b) ≡ false
              not_other c a h back of_b = elim (Bool-cases (c == b)) [
                | inr f ↦ f
                | inl f ↦
                    (let here : (n.sockets b).connection ≡ some a =
                        subst (λ i. (n.sockets i).connection ≡ some a) (==→eq c b f) back in
                      let same : a ≡ s = cc in let no = differs a s h same in absurd (cc))
              ]

          unconnected : (a : ℕ) → (n.sockets a).connection ≡ none → (after a).connection ≡ none
          unconnected a f = elim (Bool-cases (a == b)) [
            | inl h ↦ ap (λ y. y.connection) (at_b a h)
            | inr h ↦ ap (λ y. y.connection) (at_other n b x a h) ∙ f
          ]

          fed :
              (a : ℕ)
              → IsLive n a
              → (after a).connection ≡ none
              → (after a).disconnected ≡ false
              → ltb 0 (fifobuffer_get_size (after a).buffer_in) ≡ false
          fed a live f off = elim (Bool-cases (a == b)) [
            | inl h ↦
                (let on : (after a).disconnected ≡ true = ap (λ y. y.disconnected) (at_b a h) in
                  absurd (cc))
            | inr h ↦
                ap (λ y. ltb 0 (fifobuffer_get_size y.buffer_in)) (at_other n b x a h)
                ∙ k.fed a live (sym (ap (λ y. y.connection) (at_other n b x a h)) ∙ f)
                    (sym (ap (λ y. y.disconnected) (at_other n b x a h)) ∙ off)
          ]
