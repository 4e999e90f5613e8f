-- ===== src/Rb/Mirror.antt =====
-- Trees seen in a mirror: the sources write each case twice, with left and right exchanged.
use arcline.Base.{ℕ, ◌≡◌, refl, sym, ap₂, ◌∙◌, arith, Array}
use mathlib.Core.Path.{subst}
use arcline.Rb.{Tree, rotate_left, rotate_right, Side, on_left, on_right, opposite, rotate}
use arcline.Rb.Shape.{
  Shape, leaf, node, Context, whole, in_left, in_right, top, above, count, count_in, Links, Around,
  At,
}
use arcline.Rb.Rotate.{rotate_left-Turned, Turned-Around, Turned-Links, Turned-Apart, facts, only_x}

abbrev pub flip : Tree → Tree
flip t = record t { left = t.right; right = t.left }

abbrev pub mirror : Shape → Shape
mirror leaf = leaf
mirror (node l a r) = node (mirror r) a (mirror l)

abbrev pub mirror_in : Context → Context
mirror_in whole = whole
mirror_in (in_left c a r) = in_right (mirror r) a (mirror_in c)
mirror_in (in_right l a c) = in_left (mirror_in c) a (mirror l)

pub mirror-mirror : (s : Shape) → mirror (mirror s) ≡ s
mirror-mirror leaf = refl
mirror-mirror (node l a r) = ap₂ (λ u v. node u a v) (mirror-mirror l) (mirror-mirror r)

pub mirror_in-mirror_in : (c : Context) → mirror_in (mirror_in c) ≡ c
mirror_in-mirror_in whole = refl
mirror_in-mirror_in (in_left c a r) =
    ap₂ (λ u v. in_left u a v) (mirror_in-mirror_in c) (mirror-mirror r)
mirror_in-mirror_in (in_right l a c) =
    ap₂ (λ u v. in_right u a v) (mirror-mirror l) (mirror_in-mirror_in c)

pub top-mirror : (s : Shape) → top (mirror s) ≡ top s
top-mirror leaf = refl
top-mirror (node l a r) = refl

pub above-mirror_in : (c : Context) → above (mirror_in c) ≡ above c
above-mirror_in whole = refl
above-mirror_in (in_left c a r) = refl
above-mirror_in (in_right l a c) = refl

count-mirror : (a : ℕ) (s : Shape) → count a (mirror s) ≡ count a s
count-mirror a leaf = refl
count-mirror a (node l b r) = omega (arith, count-mirror a l, count-mirror a r)

count_in-mirror_in : (a : ℕ) (c : Context) → count_in a (mirror_in c) ≡ count_in a c
count_in-mirror_in a whole = refl
count_in-mirror_in a (in_left c b r) = omega (arith, count_in-mirror_in a c, count-mirror a r)
count_in-mirror_in a (in_right l b c) = omega (arith, count_in-mirror_in a c, count-mirror a l)

Links-mirror : (l r up : Array ℕ) (p : ℕ) (s : Shape) → Links l r up p s → Links r l up p (mirror s)
Links-mirror l r up p leaf k = tt
Links-mirror l r up p (node s a t) (ka, kl, kr, ks, kt) = (
  ka,
  kr ∙ sym (top-mirror t),
  kl ∙ sym (top-mirror s),
  Links-mirror l r up a t kt,
  Links-mirror l r up a s ks,
)

Around-mirror_in :
    (root : ℕ) (l r up : Array ℕ) (n : ℕ) (c : Context)
    → Around root l r up n c
    → Around root r l up n (mirror_in c)
Around-mirror_in root l r up n whole k = k
Around-mirror_in root l r up n (in_left c a t) (ka, kl, kr, kt, kc) = (
  ka ∙ sym (above-mirror_in c),
  kr ∙ sym (top-mirror t),
  kl,
  Links-mirror l r up a t kt,
  Around-mirror_in root l r up a c kc,
)
Around-mirror_in root l r up n (in_right s a c) (ka, kl, kr, ks, kc) = (
  ka ∙ sym (above-mirror_in c),
  kr,
  kl ∙ sym (top-mirror s),
  Links-mirror l r up a s ks,
  Around-mirror_in root l r up a c kc,
)

pub At-flip : (t : Tree) (c : Context) (s : Shape) → At t c s → At (flip t) (mirror_in c) (mirror s)
At-flip t c s i = record {
  around =
      subst (λ n. Around t.root t.right t.left t.parent n (mirror_in c)) (sym (top-mirror s))
        (Around-mirror_in t.root t.left t.right t.parent (top s) c i.around);
  links =
      subst (λ p. Links t.right t.left t.parent p (mirror s)) (sym (above-mirror_in c))
        (Links-mirror t.left t.right t.parent (above c) s i.links);
  apart = record {
    once = λ a. omega (arith, i.apart.once a, count-mirror a s, count_in-mirror_in a c);
    real = omega (arith, i.apart.real, count-mirror 0 s, count_in-mirror_in 0 c);
  };
}

pub rotate_left-At :
    (c : Context) (l : Shape) (x : ℕ) (m : Shape) (y : ℕ) (r : Shape) (t : Tree)
    → At t c (node l x (node m y r))
    → At (rotate_left x t) c (node (node l x m) y r)
rotate_left-At c l x m y r t i =
    let f = facts c l x m y r i.apart in
    let w =
      rotate_left-Turned x y (top m) (above c) t i.links.2 i.links.4.1 i.links.0
        (only_x c l x m y r i.apart).0 f.p_x f.p_y f.b_x f.b_y f.b_p in
    record {
      around = Turned-Around c l x m y r i.apart t (rotate_left x t) w i.around;
      links = Turned-Links c l x m y r i.apart t (rotate_left x t) w i.links;
      apart = Turned-Apart c l x m y r i.apart t (rotate_left x t) w;
    }

-- `rotate_right` is `rotate_left` in the mirror.
pub rotate_right-flip : (y : ℕ) (t : Tree) → rotate_right y t ≡ flip (rotate_left y (flip t))
unfolding rotate_right rotate_left
rotate_right-flip y t = ground arith

pub At-unflip :
    (t : Tree) (c : Context) (s : Shape) → At (flip t) (mirror_in c) (mirror s) → At t c s
At-unflip t c s i =
    subst (λ d. At t d s) (mirror_in-mirror_in c)
      (subst (At t (mirror_in (mirror_in c))) (mirror-mirror s)
        (At-flip (flip t) (mirror_in c) (mirror s) i))

pub rotate_right-At :
    (c : Context) (l : Shape) (x : ℕ) (m : Shape) (y : ℕ) (r : Shape) (t : Tree)
    → At t c (node (node l x m) y r)
    → At (rotate_right y t) c (node l x (node m y r))
rotate_right-At c l x m y r t i = At-unflip (rotate_right y t) c (node l x (node m y r)) (
    subst (λ u. At (flip u) (mirror_in c) (mirror (node l x (node m y r))))
      (sym (rotate_right-flip y t))
      (rotate_left-At (mirror_in c) (mirror r) y (mirror m) x (mirror l) (flip t)
        (At-flip t c (node (node l x m) y r) i)))

-- What the insertion needs of the two rotations of a file.
pub record Lawful (turn : Side → ℕ → Tree → Tree) : Type 0 where
  pub left_at :
      (c : Context) (l : Shape) (x : ℕ) (m : Shape) (y : ℕ) (r : Shape) (t : Tree)
      → At t c (node l x (node m y r))
      → At (turn on_left x t) c (node (node l x m) y r)
  pub right_at :
      (c : Context) (l : Shape) (x : ℕ) (m : Shape) (y : ℕ) (r : Shape) (t : Tree)
      → At t c (node (node l x m) y r)
      → At (turn on_right y t) c (node l x (node m y r))
  pub colors : (d : Side) (x : ℕ) (t : Tree) → (turn d x t).color ≡ t.color

pub color-rotate_left : (x : ℕ) (t : Tree) → (rotate_left x t).color ≡ t.color
unfolding rotate_left
color-rotate_left x t = ground arith

color-rotate_right : (x : ℕ) (t : Tree) → (rotate_right x t).color ≡ t.color
unfolding rotate_right
color-rotate_right x t = ground arith

pub rotate-Lawful : Lawful rotate
rotate-Lawful = record { left_at = rotate_left-At; right_at = rotate_right-At; colors = both }
  where
    both : (d : Side) (x : ℕ) (t : Tree) → (rotate d x t).color ≡ t.color
    both on_left x t = color-rotate_left x t
    both on_right x t = color-rotate_right x t

-- The rotations as seen in the mirror.
abbrev pub mirrored : (Side → ℕ → Tree → Tree) → Side → ℕ → Tree → Tree
mirrored turn d x t = flip (turn (opposite d) x (flip t))

pub mirrored-Lawful : (turn : Side → ℕ → Tree → Tree) → Lawful turn → Lawful (mirrored turn)
mirrored-Lawful turn law = record {
  left_at = λ c l x m y r t i. At-unflip (mirrored turn on_left x t) c (node (node l x m) y r) (
      law.right_at (mirror_in c) (mirror r) y (mirror m) x (mirror l) (flip t)
        (At-flip t c (node l x (node m y r)) i));
  right_at = λ c l x m y r t i. At-unflip (mirrored turn on_right y t) c (node l x (node m y r)) (
      law.left_at (mirror_in c) (mirror r) y (mirror m) x (mirror l) (flip t)
        (At-flip t c (node (node l x m) y r) i));
  colors = λ d x t. law.colors (opposite d) x (flip t);
}
