-- ===== src/LinkedList/Insert.antt =====
-- `list_append` and `list_prepend` on a list that stands for a sequence of nodes.
use asterisk.Base.{
  ◌≡◌, ◌≢◌, ◌∙◌, sym, refl, ap, subst, Option, none, some, [], ◌∷◌, ◌++◌, if◌then◌else◌,
}
use asterisk.NodeHeap.{
  Ptr, null, node, Heap, write, write_self, write_ne, load, set_previous, set_next, not_null,
  >>=-some, load-some, set_next-some, set_previous-some,
}
use asterisk.LinkedList.{LinkedList, list_append, list_prepend}
use asterisk.LinkedList.Chain.{
  Cells, first, last, Apart, Distinct, Chain, Apart-append, last-ne, Chain-frame, Chain-join,
  Chain-last, Chain-relink, Chain-reback, last-append,
}

-- The list `l` stands in `h` for the nodes `xs`.
pub record IsList (h : Heap) (l : LinkedList) (xs : Cells) : Type 0 where
  pub head : l.head ≡ first xs null
  pub tail : l.tail ≡ last null xs
  pub chain : Chain h null xs null
  pub distinct : Distinct xs

abbrev pub ends : Ptr → Ptr → LinkedList
ends p q = record { head = p; tail = q }

Distinct-snoc : (xs : Cells) (a d : Ptr) → Apart a xs → Distinct xs → Distinct (xs ++ ((a, d) ∷ []))
Distinct-snoc [] a d out dis = (tt, tt)
Distinct-snoc ((b, e) ∷ xs) a d out dis = (
  Apart-append b xs ((a, d) ∷ []) dis.0 ((λ p. out.0 (sym p)), tt),
  Distinct-snoc xs a d out.1 dis.1,
)

append-full :
    (h : Heap) (l : LinkedList) (f d q e : Ptr)
    → f ≢ null
    → f ≢ l.tail
    → l.tail ≢ null
    → h l.tail ≡ some (node q null e)
    → (h' : Heap) × (list_append f l d h ≡ some (ends l.head f, h'))
      × (h'
          ≡ write
              (write (write h f (some (node null null d))) f (some (node l.tail null d)))
              l.tail
              (some (node q f e)))
unfolding list_append
append-full h l f d q e nf ne nt at =
    let h₁ = write h f (some (node null null d)) in
    let h₂ = write h₁ f (some (node l.tail null d)) in
    let at₂ : h₂ l.tail ≡ some (node q null e) =
      write_ne h₁ f l.tail (some (node l.tail null d)) (λ p. ne (sym p))
      ∙ write_ne h f l.tail (some (node null null d)) (λ p. ne (sym p))
      ∙ at in
    (
      write h₂ l.tail (some (node q f e)),
      rw (not_null l.tail nt, if◌then◌else◌)
          (>>=-some (set_previous f l.tail) _ (set_previous-some h₁ f nf (write_self h f _) l.tail)
            ∙ >>=-some (load f) _ (load-some h₂ f nf (write_self h₁ f _))
            ∙ >>=-some (set_next l.tail f) _ (set_next-some h₂ l.tail nt at₂ f)),
      refl,
    )

-- An address that holds no node is not in a list.
pub Apart-of_unused :
    (h : Heap) (p n a : Ptr) (xs : Cells) → Chain h p xs n → h a ≡ none → Apart a xs
Apart-of_unused h p n a [] c un = tt
Apart-of_unused h p n a ((b, d) ∷ xs) c un =
    (λ e. clash (ap h e), Apart-of_unused h b n a xs c.2 un)
  where
    clash : h a ≡ h b → ⊥
    clash e = let full = c.1 in cc

pub ends_of :
    {h : Heap} {l : LinkedList} (xs : Cells)
    → IsList h l xs
    → ends (first xs null) (last null xs) ≡ l
ends_of xs is = λ i. record { head = sym is.head i; tail = sym is.tail i }

-- A call that leaves a list of the nodes `xs`.
pub record Leaves (h : Heap) (xs : Cells) (out : Option (LinkedList × Heap)) (a : Ptr)
    : Type 0 where
  pub list : LinkedList
  pub heap : Heap
  pub returns : out ≡ some (list, heap)
  pub is_list : IsList heap list xs
  pub others : heap a ≡ h a

module _ (h : Heap) (f d a : Ptr) (nf : f ≢ null) (unused : h f ≡ none) where
  append-nil-Leaves :
      (l : LinkedList) → l.tail ≡ null → a ≢ f → Leaves h ((f, d) ∷ []) (list_append f l d h) a
  unfolding list_append
  append-nil-Leaves l e ne = record {
    list = ends f f;
    heap = write h f (some (node null null d));
    returns = rw (e, if◌then◌else◌) refl;
    is_list = record {
      head = refl;
      tail = refl;
      chain = (nf, write_self h f _, tt);
      distinct = (tt, tt);
    };
    others = write_ne h f a _ ne;
  }

  append-cons-Leaves :
      (b e : Ptr) (ys : Cells)
      → Chain h null ((b, e) ∷ ys) null
      → Distinct ((b, e) ∷ ys)
      → a ≢ f
      → Apart a ((b, e) ∷ ys)
      → Leaves h (((b, e) ∷ ys) ++ ((f, d) ∷ [])) (list_append f (ends b (last b ys)) d h) a
  append-cons-Leaves b e ys c dis ne out =
      let xs = (b, e) ∷ ys in
      let t = last b ys in
      let away = Apart-of_unused h null null f xs c unused in
      let f≢t = last-ne f b e ys away in
      let (q, x, nt, at) = Chain-last h null b e null ys c in
      let h₁ = write h f (some (node null null d)) in
      let h₂ = write h₁ f (some (node t null d)) in
      let h₃ = write h₂ t (some (node q f x)) in
      let (h', eq, he) = append-full h (ends b t) f d q x nf f≢t nt at in
      let c₂ = Chain-frame h₁ null null f _ xs away (Chain-frame h null null f _ xs away c) in
      let at₂ : h₂ t ≡ some (node q null x) =
        write_ne h₁ f t _ (λ p. f≢t (sym p)) ∙ write_ne h f t _ (λ p. f≢t (sym p)) ∙ at in
      let c₃ : Chain h₃ null xs f = Chain-relink h₂ null b e null f ys q x c₂ dis at₂ in
      let at_f : h₃ f ≡ some (node t null d) = write_ne h₂ t f _ f≢t ∙ write_self h₁ f _ in
      record {
        list = ends b f;
        heap = h₃;
        returns = eq ∙ ap (λ g. some (ends b f, g)) he;
        is_list = record {
          head = refl;
          tail = sym (last-append b ys ((f, d) ∷ []));
          chain = Chain-join h₃ null null xs ((f, d) ∷ []) c₃ (nf, at_f, tt);
          distinct = Distinct-snoc xs f d away dis;
        };
        others =
            write_ne h₂ t a _ (last-ne a b e ys out) ∙ write_ne h₁ f a _ ne ∙ write_ne h f a _ ne;
      }

  -- On a list of the nodes `xs`, given an unused address, `list_append` does not fault, leaves a
  -- list of those nodes and then the new one, linked both ways, and writes to no other address `a`.
  pub list_append-Leaves :
      (l : LinkedList) (xs : Cells)
      → IsList h l xs
      → a ≢ f
      → Apart a xs
      → Leaves h (xs ++ ((f, d) ∷ [])) (list_append f l d h) a
  list_append-Leaves l [] is ne out = append-nil-Leaves l is.tail ne
  list_append-Leaves l ((b, e) ∷ ys) is ne out =
      subst (λ k. Leaves h (((b, e) ∷ ys) ++ ((f, d) ∷ [])) (list_append f k d h) a)
        (ends_of ((b, e) ∷ ys) is) (append-cons-Leaves b e ys is.chain is.distinct ne out)

  prepend-nil-Leaves :
      (l : LinkedList) → l.tail ≡ null → a ≢ f → Leaves h ((f, d) ∷ []) (list_prepend f l d h) a
  unfolding list_prepend
  prepend-nil-Leaves l e ne = record {
    list = ends f f;
    heap = write h f (some (node null null d));
    returns = rw (e, if◌then◌else◌) refl;
    is_list = record {
      head = refl;
      tail = refl;
      chain = (nf, write_self h f _, tt);
      distinct = (tt, tt);
    };
    others = write_ne h f a _ ne;
  }

  prepend-cons-Leaves :
      (b e : Ptr) (ys : Cells)
      → Chain h null ((b, e) ∷ ys) null
      → Distinct ((b, e) ∷ ys)
      → a ≢ f
      → Apart a ((b, e) ∷ ys)
      → Leaves h ((f, d) ∷ (b, e) ∷ ys) (list_prepend f (ends b (last b ys)) d h) a
  unfolding list_prepend
  prepend-cons-Leaves b e ys c dis ne out =
      let xs = (b, e) ∷ ys in
      let away = Apart-of_unused h null null f xs c unused in
      let (q, x, nt, at) = Chain-last h null b e null ys c in
      let h₁ = write h f (some (node null null d)) in
      let h₂ = write h₁ f (some (node null b d)) in
      let h₃ = write h₂ b (some (node f (first ys null) e)) in
      let c₂ = Chain-frame h₁ null null f _ xs away (Chain-frame h null null f _ xs away c) in
      let c₃ = Chain-reback h₂ null f b e null ys c₂ dis.0 in
      record {
        list = ends f (last b ys);
        heap = h₃;
        returns =
            rw (not_null (last b ys) nt, if◌then◌else◌)
              (>>=-some (set_next f b) _ (set_next-some h₁ f nf (write_self h f _) b)
                ∙ >>=-some (load f) _ (load-some h₂ f nf (write_self h₁ f _))
                ∙ >>=-some (set_previous b f) _ (set_previous-some h₂ b c₂.0 c₂.1 f));
        is_list = record {
          head = refl;
          tail = refl;
          chain = (nf, write_ne h₂ b f _ away.0 ∙ write_self h₁ f _, c₃);
          distinct = (away, dis);
        };
        others = write_ne h₂ b a _ out.0 ∙ write_ne h₁ f a _ ne ∙ write_ne h f a _ ne;
      }

  -- On a list of the nodes `xs`, given an unused address, `list_prepend` does not fault, leaves a
  -- list of the new node and then those, linked both ways, and writes to no other address `a`.
  pub list_prepend-Leaves :
      (l : LinkedList) (xs : Cells)
      → IsList h l xs
      → a ≢ f
      → Apart a xs
      → Leaves h ((f, d) ∷ xs) (list_prepend f l d h) a
  list_prepend-Leaves l [] is ne out = prepend-nil-Leaves l is.tail ne
  list_prepend-Leaves l ((b, e) ∷ ys) is ne out =
      subst (λ k. Leaves h ((f, d) ∷ (b, e) ∷ ys) (list_prepend f k d h) a)
        (ends_of ((b, e) ∷ ys) is) (prepend-cons-Leaves b e ys is.chain is.distinct ne out)
