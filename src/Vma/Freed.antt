-- ===== src/Vma/Freed.antt =====
-- The node that a removal hands to `vma_free` (`*removed` in src/kernel/mm/vma.c).
use mathlib.Core.Path.{subst}
use cosmo_rt.Common.{
  ℕ, ◌≡◌, refl, sym, ◌∙◌, true, false, Option, some, List, [], ◌∷◌, ◌++◌, arith, ltb, inl, inr,
  ◌==◌, append-nil, append_assoc,
}
use cosmo_rt.Vma.{
  Area, Tree, leaf, node, min_node, remove_left, remove_right, replace, remove_here, remove_node,
}
use cosmo_rt.Vma.Spec.{areas, addrs, Chain}
use cosmo_rt.Vma.Insert.{Chain-split}
use cosmo_rt.Vma.Unlink.{Linked, Linked-bounds, min-Linked}
use cosmo_rt.Vma.Free.{in_order-left, in_order-right, in_order-replace}

-- `ys` is `xs` without one entry `f`.
pub record Spliced (f : ℕ) (xs ys : List ℕ) : Type 0 where
  pub before : List ℕ
  pub after : List ℕ
  pub whole : xs ≡ before ++ f ∷ after
  pub left_over : ys ≡ before ++ after

-- The node to free is one that the tree linked, and the tree after the removal links the others, in
-- their order.
pub record Freed (t : Tree) (q : Tree × Option ℕ) : Type 0 where
  pub address : ℕ
  pub returned : q.1 ≡ some address
  pub splice : Spliced address (addrs t) (addrs q.0)

freed-left :
    (b : ℕ) (v : Area) (h : ℕ) (r : Tree) (q : Tree × Option ℕ) → (remove_left b v h r q).1 ≡ q.1
unfolding remove_left
freed-left b v h r (l, freed) = refl

freed-right :
    (b : ℕ) (v : Area) (h : ℕ) (l : Tree) (q : Tree × Option ℕ) → (remove_right b v h l q).1 ≡ q.1
unfolding remove_right
freed-right b v h l (r, freed) = refl

freed-replace :
    (b : ℕ) (x : Area) (h : ℕ) (l : Tree) (d : ℕ) (q : Tree × Option ℕ)
    → (replace b x h l d q).1 ≡ some d
unfolding replace
freed-replace b x h l d (r, freed) = refl

module _ (f : ℕ) (us xs ys : List ℕ) (s : Spliced f xs ys) where
  Spliced-append : Spliced f (us ++ xs) (us ++ ys)
  Spliced-append = record {
    before = us ++ s.before;
    after = s.after;
    whole = rw s.whole (sym (append_assoc us s.before (f ∷ s.after)));
    left_over = rw s.left_over (sym (append_assoc us s.before s.after));
  }

  append-Spliced : Spliced f (xs ++ us) (ys ++ us)
  append-Spliced = record {
    before = s.before;
    after = s.after ++ us;
    whole = rw s.whole (append_assoc s.before (f ∷ s.after) us);
    left_over = rw s.left_over (append_assoc s.before s.after us);
  }

left-Freed :
    (b : ℕ) (v : Area) (h : ℕ) (l r : Tree) (q : Tree × Option ℕ)
    → Freed l q
    → Freed (node b v h l r) (remove_left b v h r q)
left-Freed b v h l r q w = record {
  address = w.address;
  returned = freed-left b v h r q ∙ w.returned;
  splice =
      rw (in_order-left (λ a u. a) b v h r q)
        (append-Spliced w.address (b ∷ addrs r) (addrs l) (addrs q.0) w.splice);
}

right-Freed :
    (b : ℕ) (v : Area) (h : ℕ) (l r : Tree) (q : Tree × Option ℕ)
    → Freed r q
    → Freed (node b v h l r) (remove_right b v h l q)
right-Freed b v h l r q w = record {
  address = w.address;
  returned = freed-right b v h l q ∙ w.returned;
  splice = rw (in_order-right (λ a u. a) b v h l q) (
      Spliced-append w.address (addrs l) (b ∷ addrs r) (b ∷ addrs q.0)
        (Spliced-append w.address (b ∷ []) (addrs r) (addrs q.0) w.splice));
}

-- Removing the smallest node frees that node.
min_freed :
    (lo hi e : ℕ) (y : Area) (i : ℕ) (rl rr : Tree)
    → Chain lo hi (areas (node e y i rl rr))
    → let (d, x) = min_node e y rl in (remove_node (node e y i rl rr) d x.start).1 ≡ some d
unfolding min_node remove_node
min_freed lo hi e y i leaf rr c =
    let p : ltb y.start y.start ≡ false = ground arith in
    let q : (e == e) ≡ true = ground arith in rw (p, q) (unfold remove_here in refl)
min_freed lo hi e y i (node b w g l r) rr c =
    let parts = Chain-split lo hi (areas (node b w g l r)) y (areas rr) c in
    let d = (min_node b w l).0 in
    let x = (min_node b w l).1 in
    let inside =
      Linked-bounds lo y.start d x.start (node b w g l r) parts.0 (min-Linked b w g l r) in
    let p : ltb x.start y.start ≡ true = ground arith in
    rw p (
      freed-left e y i rr (remove_node (node b w g l r) d x.start)
      ∙ min_freed lo y.start b w g l r parts.0)

replace-Freed :
    (b : ℕ) (v x : Area) (h : ℕ) (l r : Tree) (d : ℕ) (q : Tree × Option ℕ)
    → q.1 ≡ some d
    → Freed r q
    → Freed (node b v h l r) (replace b x h l d q)
replace-Freed b v x h l r d q e w =
    let same : w.address ≡ d = cc (w.returned) in
    record {
      address = d;
      returned = freed-replace b x h l d q;
      splice = rw (in_order-replace (λ a u. a) b x h l d q) (
          Spliced-append d (addrs l) (b ∷ addrs r) (b ∷ addrs q.0) (
            Spliced-append d (b ∷ []) (addrs r) (addrs q.0)
              (subst (λ z. Spliced z (addrs r) (addrs q.0)) same w.splice)));
    }

here-Freed :
    (lo hi b : ℕ) (v : Area) (h : ℕ) (l r : Tree)
    → Chain lo hi (areas r)
    → ((d s : ℕ) → Linked d s r → Freed r (remove_node r d s))
    → Freed
        (node b v h l r)
        (remove_here b l r (λ d x. replace b x h l d (remove_node r d x.start)))
unfolding remove_here
here-Freed lo hi b v h leaf r c ih = record {
  address = b;
  returned = refl;
  splice = record { before = []; after = addrs r; whole = refl; left_over = refl };
}
here-Freed lo hi b v h (node e w g ll lr) leaf c ih = record {
  address = b;
  returned = refl;
  splice = record {
    before = addrs (node e w g ll lr);
    after = [];
    whole = refl;
    left_over = sym (append-nil (addrs (node e w g ll lr)));
  };
}
here-Freed lo hi b v h (node e w g ll lr) (node k y i rl rr) c ih =
    let r = node k y i rl rr in
    let d = (min_node k y rl).0 in
    let x = (min_node k y rl).1 in
    replace-Freed b v x h (node e w g ll lr) r d (remove_node r d x.start)
      (min_freed lo hi k y i rl rr c) (ih d x.start (min-Linked k y i rl rr))

-- On a tree whose areas follow one another without overlap, the removal of a linked node hands a
-- node of the tree to `vma_free`, and the tree after it links exactly the other nodes, in their
-- order: the freed node is linked no longer, and no other node is lost.
pub remove_node-Freed :
    (lo hi : ℕ) (t : Tree) (a s : ℕ)
    → Chain lo hi (areas t)
    → Linked a s t
    → Freed t (remove_node t a s)
unfolding remove_node
remove_node-Freed lo hi leaf a s c p = elim p [ ]
remove_node-Freed lo hi (node b v h l r) a s c p =
    let parts = Chain-split lo hi (areas l) v (areas r) c in
    elim p [
      | inl q ↦
          let w = Linked-bounds lo v.start a s l parts.0 q in
          let e : ltb s v.start ≡ true = ground arith in
          rw e (
            left-Freed b v h l r (remove_node l a s) (remove_node-Freed lo v.start l a s parts.0 q))
      | inr (inl q) ↦
          let e : ltb s v.start ≡ false = ground arith in
          let g : ltb v.start s ≡ false = ground arith in
          let k : (b == a) ≡ true = ground arith in
          rw (e, g, k)
            (here-Freed v.end hi b v h l r parts.2
              (λ d u m. remove_node-Freed v.end hi r d u parts.2 m))
      | inr (inr q) ↦
          let w = Linked-bounds v.end hi a s r parts.2 q in
          let e : ltb s v.start ≡ false = ground (arith, parts.1) in
          let g : ltb v.start s ≡ true = ground (arith, parts.1) in
          rw (e, g)
            (right-Freed b v h l r (remove_node r a s) (remove_node-Freed v.end hi r a s parts.2 q))
    ]
