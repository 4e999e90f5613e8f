-- ===== src/Rb/Shape.antt =====
-- The shape that the links of a tree have: which node stands where. A context is a tree with a hole,
-- named from the hole upwards.
use arcline.Base.{
  ℕ, ◌+◌, ◌≤◌, ◌≡◌, ◌≢◌, refl, sym, ◌∙◌, List, [], ◌∷◌, ◌++◌, arith, ◌==◌, if◌then◌else◌, Array,
}
use mathlib.Core.Path.{subst}
use arcline.Rb.{Tree}

pub data Shape : Type 0 where
  leaf : Shape
  node : Shape → ℕ → Shape → Shape

pub data Context : Type 0 where
  whole : Context
  in_left : Context → ℕ → Shape → Context
  in_right : Shape → ℕ → Context → Context

-- The address of the topmost node, 0 for none.
abbrev pub top : Shape → ℕ
top leaf = 0
top (node l a r) = a

-- The address of the node above the hole.
abbrev pub above : Context → ℕ
above whole = 0
above (in_left c a r) = a
above (in_right l a c) = a

abbrev pub plug : Context → Shape → Shape
plug whole s = s
plug (in_left c a r) s = plug c (node s a r)
plug (in_right l a c) s = plug c (node l a s)

-- The nodes from left to right.
abbrev pub nodes : Shape → List ℕ
nodes leaf = []
nodes (node l a r) = nodes l ++ (a ∷ nodes r)

-- How often an address stands in a shape and in a context.
abbrev pub count : ℕ → Shape → ℕ
count a leaf = 0
count a (node l b r) = count a l + (if a == b then 1 else 0) + count a r

abbrev pub count_in : ℕ → Context → ℕ
count_in a whole = 0
count_in a (in_left c b r) = count_in a c + (if a == b then 1 else 0) + count a r
count_in a (in_right l b c) = count a l + (if a == b then 1 else 0) + count_in a c

-- The links below the node `p` are those of the shape.
abbrev pub Links : Array ℕ → Array ℕ → Array ℕ → ℕ → Shape → Type 0
Links l r up p leaf = Unit
Links l r up p (node s a t) =
    (up a ≡ p) × (l a ≡ top s) × (r a ≡ top t) × Links l r up a s × Links l r up a t

-- The links round the hole, in which the node `n` stands, are those of the context.
abbrev pub Around : ℕ → Array ℕ → Array ℕ → Array ℕ → ℕ → Context → Type 0
Around root l r up n whole = root ≡ n
Around root l r up n (in_left c a t) =
    (up a ≡ above c) × (l a ≡ n) × (r a ≡ top t) × Links l r up a t × Around root l r up a c
Around root l r up n (in_right s a c) =
    (up a ≡ above c) × (l a ≡ top s) × (r a ≡ n) × Links l r up a s × Around root l r up a c

-- No address stands twice, and NULL nowhere.
pub record Apart (c : Context) (s : Shape) : Type 0 where
  pub once : (a : ℕ) → count_in a c + count a s ≤ 1
  pub real : count_in 0 c + count 0 s ≡ 0

-- The tree has the shape `plug c s`, and `s` is where we look.
pub record At (t : Tree) (c : Context) (s : Shape) : Type 0 where
  pub around : Around t.root t.left t.right t.parent (top s) c
  pub links : Links t.left t.right t.parent (above c) s
  pub apart : Apart c s

pub count-top : (s : Shape) → top s ≢ 0 → 1 ≤ count (top s) s
count-top leaf h = absurd (h refl)
count-top (node l a r) h = ground arith

-- A node that does not stand in a shape is not its topmost one.
pub ne-top : (a : ℕ) (s : Shape) → count a s ≡ 0 → top s ≢ 0 → top s ≢ a
ne-top a leaf h nz = absurd (nz refl)
ne-top a (node l b r) h nz = ground (arith, h)

pub top-ne : (a : ℕ) (s : Shape) → count a s ≡ 0 → a ≢ 0 → top s ≢ a
top-ne a leaf h nz = λ e. nz (sym e)
top-ne a (node l b r) h nz = ground (arith, h)

-- A node that does not stand in a context is not the one above its hole.
pub above-ne : (a : ℕ) (c : Context) → count_in a c ≡ 0 → a ≢ 0 → above c ≢ a
above-ne a whole h nz = λ e. nz (sym e)
above-ne a (in_left c b r) h nz = ground (arith, h)
above-ne a (in_right l b c) h nz = ground (arith, h)

pub Links-top :
    (l r up : Array ℕ) (p : ℕ) (s : Shape) → Links l r up p s → top s ≢ 0 → up (top s) ≡ p
Links-top l r up p leaf k h = absurd (h refl)
Links-top l r up p (node s a t) k h = k.0

-- A change that spares the nodes of a shape, but for the parent of its topmost node.
pub Links-move :
    (l r up l' r' up' : Array ℕ) (p q : ℕ) (s : Shape)
    → Links l r up p s
    → ((a : ℕ) → count a s ≤ 1)
    → count 0 s ≡ 0
    → ((a : ℕ) → 1 ≤ count a s → (l' a ≡ l a) × (r' a ≡ r a) × (a ≢ top s → up' a ≡ up a))
    → (top s ≢ 0 → up' (top s) ≡ q)
    → Links l' r' up' q s
Links-move l r up l' r' up' p q leaf k once real same here = tt
Links-move l r up l' r' up' p q (node s a t) (ka, kl, kr, ks, kt) once real same here = (
  here (ground (arith, real)),
  (same a (ground arith)).0 ∙ kl,
  (same a (ground arith)).1 ∙ kr,
  Links-move l r up l' r' up' a a s ks (λ b. ground (arith, once b)) (ground (arith, real))
      (λ b m.
        let e = same b (ground (arith, m)) in (e.0, e.1, λ ne. e.2 (ground (arith, once b, m))))
      (λ nz.
        let m = count-top s nz in
        (same (top s) (ground (arith, m))).2 (ne-top a s (ground (arith, once a)) nz)
        ∙ Links-top l r up a s ks nz),
  Links-move l r up l' r' up' a a t kt (λ b. ground (arith, once b)) (ground (arith, real))
      (λ b m.
        let e = same b (ground (arith, m)) in (e.0, e.1, λ ne. e.2 (ground (arith, once b, m))))
      (λ nz.
        let m = count-top t nz in
        (same (top t) (ground (arith, m))).2 (ne-top a t (ground (arith, once a)) nz)
        ∙ Links-top l r up a t kt nz),
)

-- A change that spares the nodes of a shape.
pub Links-frame :
    (l r up l' r' up' : Array ℕ) (p : ℕ) (s : Shape)
    → Links l r up p s
    → ((a : ℕ) → 1 ≤ count a s → (l' a ≡ l a) × (r' a ≡ r a) × (up' a ≡ up a))
    → Links l' r' up' p s
Links-frame l r up l' r' up' p leaf k same = tt
Links-frame l r up l' r' up' p (node s a t) (ka, kl, kr, ks, kt) same = (
  (same a (ground arith)).2 ∙ ka,
  (same a (ground arith)).0 ∙ kl,
  (same a (ground arith)).1 ∙ kr,
  Links-frame l r up l' r' up' a s ks (λ b m. same b (ground (arith, m))),
  Links-frame l r up l' r' up' a t kt (λ b m. same b (ground (arith, m))),
)

-- A change that spares the nodes of a context, where the hole stays.
pub Around-frame :
    (root : ℕ) (l r up l' r' up' : Array ℕ) (n : ℕ) (c : Context)
    → Around root l r up n c
    → ((a : ℕ) → 1 ≤ count_in a c → (l' a ≡ l a) × (r' a ≡ r a) × (up' a ≡ up a))
    → Around root l' r' up' n c
Around-frame root l r up l' r' up' n whole k same = k
Around-frame root l r up l' r' up' n (in_left c a t) (ka, kl, kr, kt, kc) same = (
  (same a (ground arith)).2 ∙ ka,
  (same a (ground arith)).0 ∙ kl,
  (same a (ground arith)).1 ∙ kr,
  Links-frame l r up l' r' up' a t kt (λ b m. same b (ground (arith, m))),
  Around-frame root l r up l' r' up' a c kc (λ b m. same b (ground (arith, m))),
)
Around-frame root l r up l' r' up' n (in_right s a c) (ka, kl, kr, ks, kc) same = (
  (same a (ground arith)).2 ∙ ka,
  (same a (ground arith)).0 ∙ kl,
  (same a (ground arith)).1 ∙ kr,
  Links-frame l r up l' r' up' a s ks (λ b m. same b (ground (arith, m))),
  Around-frame root l r up l' r' up' a c kc (λ b m. same b (ground (arith, m))),
)

-- A change of the hole: the node above it, or the root, now points to `n'`.
pub Around-replace :
    (root root' : ℕ) (l r up l' r' up' : Array ℕ) (n n' : ℕ) (c : Context)
    → Around root l r up n c
    → ((a : ℕ) → count_in a c ≤ 1)
    → (above c ≡ 0 → root' ≡ n')
    → (above c ≢ 0 → root' ≡ root)
    → count_in 0 c ≡ 0
    → ((a : ℕ) → 1 ≤ count_in a c → (up' a ≡ up a) × (a ≢ above c → (l' a ≡ l a) × (r' a ≡ r a)))
    → (above c ≢ 0 → n ≡ l (above c) → (l' (above c) ≡ n') × (r' (above c) ≡ r (above c)))
    → (above c ≢ 0 → n ≢ l (above c) → (l' (above c) ≡ l (above c)) × (r' (above c) ≡ n'))
    → n ≢ 0
    → count_in n c ≡ 0
    → Around root' l' r' up' n' c
Around-replace root root' l r up l' r' up' n n' whole k once new old real same on_l on_r nz out =
    new refl
Around-replace root root' l r up l' r' up' n n' (in_left c a t) (ka, kl, kr, kt, kc) once new old
      real same on_l on_r nz out =
    (
      (same a (ground arith)).0 ∙ ka,
      (on_l (ground (arith, real)) (sym kl)).0,
      (on_l (ground (arith, real)) (sym kl)).1 ∙ kr,
      Links-frame l r up l' r' up' a t kt (λ b m.
          let e = same b (ground (arith, m)) in
          let f = e.1 (ground (arith, once b, m)) in (f.0, f.1, e.0)),
      subst (λ x. Around x l' r' up' a c) (sym (old (ground (arith, real))))
          (Around-frame root l r up l' r' up' a c kc (λ b m.
            let e = same b (ground (arith, m)) in
            let f = e.1 (ground (arith, once b, m)) in (f.0, f.1, e.0))),
    )
Around-replace root root' l r up l' r' up' n n' (in_right s a c) (ka, kl, kr, ks, kc) once new old
      real same on_l on_r nz out =
    (
      (same a (ground arith)).0 ∙ ka,
      (on_r (ground (arith, real)) other).0 ∙ kl,
      (on_r (ground (arith, real)) other).1,
      Links-frame l r up l' r' up' a s ks (λ b m.
          let e = same b (ground (arith, m)) in
          let f = e.1 (ground (arith, once b, m)) in (f.0, f.1, e.0)),
      subst (λ x. Around x l' r' up' a c) (sym (old (ground (arith, real))))
          (Around-frame root l r up l' r' up' a c kc (λ b m.
            let e = same b (ground (arith, m)) in
            let f = e.1 (ground (arith, once b, m)) in (f.0, f.1, e.0))),
    )
  where
    other : n ≢ l a
    other e = ne-top n s (ground (arith, out)) (λ z. nz (e ∙ kl ∙ z)) (sym (e ∙ kl))
