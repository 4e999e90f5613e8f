-- ===== src/Rb/Insert/Attach.antt =====
-- A fresh node is put in the hole that the descent of `link_node` finds.
use arcline.Base.{
  ℕ, zero, suc, ◌+◌, ◌≤◌, ◌≡◌, ◌≢◌, refl, sym, ap, ◌∙◌, arith, ◌==◌, if◌then◌else◌, Array, store,
}
use mathlib.Core.Path.{subst}
use arcline.Rb.{Tree, set_left, set_right, set_parent, set_color, on_left, on_right}
use arcline.Rb.Shape.{
  Shape, leaf, node, Context, whole, in_left, in_right, above, count, count_in, Apart, At,
  Links-frame, Around-frame,
}
use arcline.Rb.Insert.{set_link}
use arcline.Rb.Insert.Link.{side_of}

-- A node that stands nowhere is none of those that do.
spared : (n a : ℕ) (s : Shape) → count n s ≡ 0 → 1 ≤ count a s → a ≢ n
spared n a s h k e = let j = subst (λ b. 1 ≤ count b s) e k in omega (arith, h, j)

spared_in : (n a : ℕ) (c : Context) → count_in n c ≡ 0 → 1 ≤ count_in a c → a ≢ n
spared_in n a c h k e = let j = subst (λ b. 1 ≤ count_in b c) e k in omega (arith, h, j)

-- A change of the links of nodes that stand nowhere.
set_link_left : (a n : ℕ) (t : Tree) → a ≢ 0 → set_left a n t ≡ set_link a on_left n t
unfolding set_link
set_link_left zero n t nz = absurd (nz refl)
set_link_left (suc a) n t nz = refl

set_link_right : (a n : ℕ) (t : Tree) → a ≢ 0 → set_right a n t ≡ set_link a on_right n t
unfolding set_link
set_link_right zero n t nz = absurd (nz refl)
set_link_right (suc a) n t nz = refl

pub store_ne : (f : Array ℕ) (n v a : ℕ) → a ≢ n → store f n v a ≡ f a
store_ne f n v a ne = ground (arith, ne)

pub store_eq : (f : Array ℕ) (n v : ℕ) → store f n v n ≡ v
store_eq f n v = ground arith

module _ (t : Tree) (n : ℕ) (n_real : n ≢ 0) where
  abbrev pub prepared : ℕ → Tree
  prepared red = set_color n red (set_parent n 0 (set_right n 0 (set_left n 0 t)))

  pub prepared-At : (red : ℕ) (s : Shape) → count n s ≡ 0 → At t whole s → At (prepared red) whole s
  prepared-At red s out i = record {
    around = i.around;
    links =
        Links-frame t.left t.right t.parent (store t.left n 0) (store t.right n 0)
          (store t.parent n 0) 0 s i.links
          (λ a h.
            let ne = spared n a s out h in
            (store_ne t.left n 0 a ne, store_ne t.right n 0 a ne, store_ne t.parent n 0 a ne));
    apart = i.apart;
  }

  once_more : (c : Context) → Apart c leaf → count_in n c ≡ 0 → Apart c (node leaf n leaf)
  once_more c k out = record {
    once =
        λ a. let h = k.once a in count_one a (count_in a c) h (λ e. ap (λ b. count_in b c) e ∙ out);
    real = let h = k.real in null (count_in 0 c) h;
  }
    where
      count_one :
          (a m : ℕ) → m + 0 ≤ 1 → (a ≡ n → m ≡ 0) → m + (0 + (if a == n then 1 else 0) + 0) ≤ 1
      count_one a m h k = ground (arith, h, k)

      null : (m : ℕ) → m + 0 ≡ 0 → m + (0 + (if 0 == n then 1 else 0) + 0) ≡ 0
      null m h = ground (arith, h, n_real)

  -- The node is put in the hole.
  pub attach-At :
      (c : Context)
      → At t c leaf
      → count_in n c ≡ 0
      → t.left n ≡ 0
      → t.right n ≡ 0
      → At (set_link (above c) (side_of c) n (set_parent n (above c) t)) c (node leaf n leaf)
  unfolding set_link
  attach-At whole i out el er = record {
    around = refl;
    links = (store_eq t.parent n 0, el, er, tt, tt);
    apart = once_more whole i.apart out;
  }
  attach-At (in_left c a r) i out el er =
      subst (λ u. At u (in_left c a r) (node leaf n leaf))
        (set_link_left a n (set_parent n a t) a_real)
        record {
          around = (
            store_ne t.parent n a a a_n ∙ i.around.0,
            store_eq t.left a n,
            i.around.2,
            Links-frame t.left t.right t.parent (store t.left a n) t.right (store t.parent n a) a r
                i.around.3
                (λ b h. (
                  store_ne t.left a n b (spared a b r at_a.1 h),
                  refl,
                  store_ne t.parent n a b (spared n b r at_n.1 h),
                )),
            Around-frame t.root t.left t.right t.parent (store t.left a n) t.right
                (store t.parent n a) a c i.around.4
                (λ b h. (
                  store_ne t.left a n b (spared_in a b c at_a.0 h),
                  refl,
                  store_ne t.parent n a b (spared_in n b c at_n.0 h),
                )),
          );
          links =
              (store_eq t.parent n a, store_ne t.left a n n (λ e. a_n (sym e)) ∙ el, er, tt, tt);
          apart = once_more (in_left c a r) i.apart out;
        }
    where
      at_a : (count_in a c ≡ 0) × (count a r ≡ 0)
      at_a = let h = i.apart.once a in split (count_in a c) (count a r) h
        where
          split : (m n : ℕ) → m + (if a == a then 1 else 0) + n + 0 ≤ 1 → (m ≡ 0) × (n ≡ 0)
          split m n h = ground (arith, h)

      at_n : (count_in n c ≡ 0) × (count n r ≡ 0)
      at_n = omega (arith, out)

      a_n : a ≢ n
      a_n = split (count_in n c) (count n r) out
        where
          split : (m k : ℕ) → m + (if n == a then 1 else 0) + k ≡ 0 → a ≢ n
          split m k h = ground (arith, h)

      a_real : a ≢ 0
      a_real = let h = i.apart.real in split (count_in 0 c) (count 0 r) h
        where
          split : (m k : ℕ) → m + (if 0 == a then 1 else 0) + k + 0 ≡ 0 → a ≢ 0
          split m k h = ground (arith, h)
  attach-At (in_right l a c) i out el er =
      subst (λ u. At u (in_right l a c) (node leaf n leaf))
        (set_link_right a n (set_parent n a t) a_real)
        record {
          around = (
            store_ne t.parent n a a a_n ∙ i.around.0,
            i.around.1,
            store_eq t.right a n,
            Links-frame t.left t.right t.parent t.left (store t.right a n) (store t.parent n a) a l
                i.around.3
                (λ b h. (
                  refl,
                  store_ne t.right a n b (spared a b l at_a.1 h),
                  store_ne t.parent n a b (spared n b l at_n.1 h),
                )),
            Around-frame t.root t.left t.right t.parent t.left (store t.right a n)
                (store t.parent n a) a c i.around.4
                (λ b h. (
                  refl,
                  store_ne t.right a n b (spared_in a b c at_a.0 h),
                  store_ne t.parent n a b (spared_in n b c at_n.0 h),
                )),
          );
          links =
              (store_eq t.parent n a, el, store_ne t.right a n n (λ e. a_n (sym e)) ∙ er, tt, tt);
          apart = once_more (in_right l a c) i.apart out;
        }
    where
      at_a : (count_in a c ≡ 0) × (count a l ≡ 0)
      at_a = let h = i.apart.once a in split (count_in a c) (count a l) h
        where
          split : (m k : ℕ) → k + (if a == a then 1 else 0) + m + 0 ≤ 1 → (m ≡ 0) × (k ≡ 0)
          split m k h = ground (arith, h)

      at_n : (count_in n c ≡ 0) × (count n l ≡ 0)
      at_n = omega (arith, out)

      a_n : a ≢ n
      a_n = split (count_in n c) (count n l) out
        where
          split : (m k : ℕ) → k + (if n == a then 1 else 0) + m ≡ 0 → a ≢ n
          split m k h = ground (arith, h)

      a_real : a ≢ 0
      a_real = let h = i.apart.real in split (count_in 0 c) (count 0 l) h
        where
          split : (m k : ℕ) → k + (if 0 == a then 1 else 0) + m + 0 ≡ 0 → a ≢ 0
          split m k h = ground (arith, h)
