-- ===== src/Rb/Zipper.antt =====
-- Moving the place where we look, and the root.
use arcline.Base.{
  ℕ, suc, ◌+◌, ◌≤◌, ◌≡◌, ◌≢◌, refl, sym, ap, ◌∙◌, ◌∷◌, ◌++◌, arith, ◌==◌, if◌then◌else◌, Array, ◌⊎◌,
  inl, inr,
}
use mathlib.Core.Path.{subst}
use arcline.Rb.{Tree, set_color}
use arcline.Rb.Shape.{
  Shape, node, Context, whole, in_left, in_right, top, above, plug, nodes, count, count_in, Around,
  At, count-top,
}

pub up_left :
    (t : Tree) (c : Context) (a : ℕ) (r s : Shape) → At t (in_left c a r) s → At t c (node s a r)
up_left t c a r s i = record {
  around = i.around.4;
  links = (i.around.0, i.around.1, i.around.2, i.links, i.around.3);
  apart = record {
    once = λ b. let h = i.apart.once b in omega (arith, h);
    real = let h = i.apart.real in omega (arith, h);
  };
}

pub down_left :
    (t : Tree) (c : Context) (a : ℕ) (r s : Shape) → At t c (node s a r) → At t (in_left c a r) s
down_left t c a r s i = record {
  around = (i.links.0, i.links.1, i.links.2, i.links.4, i.around);
  links = i.links.3;
  apart = record {
    once = λ b. let h = i.apart.once b in omega (arith, h);
    real = let h = i.apart.real in omega (arith, h);
  };
}

pub up_right :
    (t : Tree) (c : Context) (l : Shape) (a : ℕ) (s : Shape)
    → At t (in_right l a c) s
    → At t c (node l a s)
up_right t c l a s i = record {
  around = i.around.4;
  links = (i.around.0, i.around.1, i.around.2, i.around.3, i.links);
  apart = record {
    once = λ b. let h = i.apart.once b in omega (arith, h);
    real = let h = i.apart.real in omega (arith, h);
  };
}

pub down_right :
    (t : Tree) (c : Context) (l : Shape) (a : ℕ) (s : Shape)
    → At t c (node l a s)
    → At t (in_right l a c) s
down_right t c l a s i = record {
  around = (i.links.0, i.links.1, i.links.2, i.links.3, i.around);
  links = i.links.4;
  apart = record {
    once = λ b. let h = i.apart.once b in omega (arith, h);
    real = let h = i.apart.real in omega (arith, h);
  };
}

pub At-color : (n v : ℕ) (t : Tree) (c : Context) (s : Shape) → At t c s → At (set_color n v t) c s
At-color n v t c s i = record { around = i.around; links = i.links; apart = i.apart }

-- The root of a context with `n` in its hole.
abbrev pub outermost : Context → ℕ → ℕ
outermost whole n = n
outermost (in_left c a r) n = outermost c a
outermost (in_right l a c) n = outermost c a

pub Around-outermost :
    (root : ℕ) (l r up : Array ℕ) (n : ℕ) (c : Context)
    → Around root l r up n c
    → root ≡ outermost c n
Around-outermost root l r up n whole k = k
Around-outermost root l r up n (in_left c a t) k = Around-outermost root l r up a c k.4
Around-outermost root l r up n (in_right s a c) k = Around-outermost root l r up a c k.4

outermost-in : (c : Context) (n : ℕ) → (outermost c n ≡ n) ⊎ (1 ≤ count_in (outermost c n) c)
outermost-in whole n = inl refl
outermost-in (in_left c a r) n =
    inr (elim (outermost-in c a) [ inl e ↦ at a (outermost c a) e | inr h ↦ omega (arith, h) ])
  where
    at : (a b : ℕ) → b ≡ a → 1 ≤ count_in b c + (if b == a then 1 else 0) + count b r
    at a b e = ground (arith, e)
outermost-in (in_right l a c) n =
    inr (elim (outermost-in c a) [ inl e ↦ at a (outermost c a) e | inr h ↦ omega (arith, h) ])
  where
    at : (a b : ℕ) → b ≡ a → 1 ≤ count b l + (if b == a then 1 else 0) + count_in b c
    at a b e = ground (arith, e)

-- The root is the node in the hole, or it stands in the context and is the same for any other node.
pub outermost-cases :
    (c : Context) (n m : ℕ)
    → ((above c ≡ 0) × (outermost c n ≡ n) × (outermost c m ≡ m))
      ⊎ ((outermost c n ≡ outermost c m) × (1 ≤ count_in (outermost c n) c))
outermost-cases whole n m = inl (refl, refl, refl)
outermost-cases (in_left c a r) n m =
    inr (refl, inside (outermost-in (in_left c a r) n) (outermost-in (in_left c a r) (suc n)))
  where
    inside :
        (outermost c a ≡ n) ⊎ (1 ≤ count_in (outermost c a) (in_left c a r))
        → (outermost c a ≡ suc n) ⊎ (1 ≤ count_in (outermost c a) (in_left c a r))
        → 1 ≤ count_in (outermost c a) (in_left c a r)
    inside (inr h) k = h
    inside (inl e) (inr h) = h
    inside (inl e) (inl f) = absurd (omega (arith, e, f))
outermost-cases (in_right l a c) n m =
    inr (refl, inside (outermost-in (in_right l a c) n) (outermost-in (in_right l a c) (suc n)))
  where
    inside :
        (outermost c a ≡ n) ⊎ (1 ≤ count_in (outermost c a) (in_right l a c))
        → (outermost c a ≡ suc n) ⊎ (1 ≤ count_in (outermost c a) (in_right l a c))
        → 1 ≤ count_in (outermost c a) (in_right l a c)
    inside (inr h) k = h
    inside (inl e) (inr h) = h
    inside (inl e) (inl f) = absurd (omega (arith, e, f))

-- Below the root, a node is not the root.
pub root-ne :
    (t : Tree) (c : Context) (s : Shape) → At t c s → above c ≢ 0 → top s ≢ 0 → t.root ≢ top s
root-ne t c s i inner real e = elim (outermost-cases c (top s) (top s)) [
  | inl h ↦ inner h.0
  | inr (same, h) ↦
      clash (outermost c (top s))
        (sym (Around-outermost t.root t.left t.right t.parent (top s) c i.around) ∙ e) h
]
  where
    clash : (b : ℕ) → b ≡ top s → 1 ≤ count_in b c → ⊥
    clash b q h =
        let k = subst (λ x. 1 ≤ count_in x c) q h in
        omega (arith, k, count-top s real, i.apart.once (top s))

pub above-real : (c : Context) (b : ℕ) → count_in 0 c ≡ 0 → 1 ≤ count_in b c → above c ≢ 0
above-real whole b z h = absurd (omega arith)
above-real (in_left c a r) b z h = λ e. real a (count_in 0 c) (count 0 r) z e
  where
    real : (a m n : ℕ) → m + (if 0 == a then 1 else 0) + n ≡ 0 → a ≢ 0
    real a m n z = ground arith
above-real (in_right l a c) b z h = λ e. real a (count 0 l) (count_in 0 c) z e
  where
    real : (a m n : ℕ) → m + (if 0 == a then 1 else 0) + n ≡ 0 → a ≢ 0
    real a m n z = ground arith

-- Two shapes with the same nodes, in the same context.
pub nodes-plug :
    (c : Context) (s s' : Shape) → nodes s ≡ nodes s' → nodes (plug c s) ≡ nodes (plug c s')
nodes-plug whole s s' e = e
nodes-plug (in_left c a r) s s' e =
    nodes-plug c (node s a r) (node s' a r) (ap (λ xs. xs ++ (a ∷ nodes r)) e)
nodes-plug (in_right l a c) s s' e =
    nodes-plug c (node l a s) (node l a s') (ap (λ xs. nodes l ++ (a ∷ xs)) e)
