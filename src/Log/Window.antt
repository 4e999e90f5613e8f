-- ===== src/Log/Window.antt =====
-- The ring read and written byte by byte, going round at its end.
use arcline.Base.{
  ℕ, zero, suc, ◌+◌, ◌-◌, ◌%◌, ◌≤◌, ◌<◌, ◌≡◌, refl, sym, ap, ap₂, ◌∙◌, List, [], ◌∷◌, ◌++◌, arith,
  leb, Array, store, length, take, drop, length-append, length-take, Bool-cases, inl, inr,
}
use mathlib.Core.List.{append-nil, append_assoc}
use arcline.Log.{blit, fetch, put, get}

-- The `n` bytes from place `p` on.
unfoldable pub window : Array ℕ → ℕ → ℕ → List ℕ
window r p zero = []
window r p (suc n) = r p ∷ window r ((p + 1) % 4096) n

-- The bytes written one after another from place `p` on.
pub wrap : Array ℕ → ℕ → List ℕ → Array ℕ
wrap r p [] = r
wrap r p (b ∷ bs) = wrap (store r p b) ((p + 1) % 4096) bs

fetch-window : (n p : ℕ) (r : Array ℕ) → p + n ≤ 4096 → fetch r p n ≡ window r p n
unfolding fetch window
fetch-window zero p r h = refl
fetch-window (suc zero) p r h = refl
fetch-window (suc (suc n)) p r h =
    ap (λ t. r p ∷ t)
      (fetch-window (suc n) (p + 1) r (omega arith) ∙ ap (λ q. window r q (suc n)) (omega arith))

pub window_add :
    (m n p : ℕ) (r : Array ℕ)
    → p < 4096
    → window r p (m + n) ≡ window r p m ++ window r ((p + m) % 4096) n
unfolding window
window_add zero n p r h = ap₂ (window r) (omega arith) (omega arith)
window_add (suc m) n p r h =
    ap (window r p) one_more
    ∙ ap (λ t. r p ∷ t) (window_add m n ((p + 1) % 4096) r (omega arith))
    ∙ ap (λ q. r p ∷ (window r ((p + 1) % 4096) m ++ window r q n)) (omega arith)
  where
    one_more : suc m + n ≡ suc (m + n)
    one_more = omega arith

pub get-window : (n p : ℕ) (r : Array ℕ) → p < 4096 → n ≤ 4096 → get r p n ≡ window r p n
unfolding get
get-window n p r h k = elim (Bool-cases (leb n (4096 - p))) [
  | inl one ↦ rw one (fetch-window n p r (ground arith))
  | inr two ↦ rw two (
      ap₂ ◌++◌ (fetch-window (4096 - p) p r (omega arith))
        (fetch-window (n - (4096 - p)) 0 r (omega arith))
      ∙ whole (ground (arith, two)))
]
  where
    whole : 4096 - p ≤ n → window r p (4096 - p) ++ window r 0 (n - (4096 - p)) ≡ window r p n
    whole l =
        ap (λ q. window r p (4096 - p) ++ window r q (n - (4096 - p))) (omega arith)
        ∙ sym (window_add (4096 - p) (n - (4096 - p)) p r h)
        ∙ ap (window r p) (omega arith)

blit-wrap : (bs : List ℕ) (p : ℕ) (r : Array ℕ) → p + length bs ≤ 4096 → blit r p bs ≡ wrap r p bs
unfolding blit wrap
blit-wrap [] p r h = refl
blit-wrap (b ∷ []) p r h = refl
blit-wrap (b ∷ c ∷ bs) p r h =
    blit-wrap (c ∷ bs) (p + 1) (store r p b) (omega arith)
    ∙ ap (λ q. wrap (store r p b) q (c ∷ bs)) (omega arith)

pub wrap-append :
    (xs ys : List ℕ) (p : ℕ) (r : Array ℕ)
    → p < 4096
    → wrap r p (xs ++ ys) ≡ wrap (wrap r p xs) ((p + length xs) % 4096) ys
unfolding wrap
wrap-append [] ys p r h = ap (λ q. wrap r q ys) (omega arith)
wrap-append (x ∷ xs) ys p r h =
    wrap-append xs ys ((p + 1) % 4096) (store r p x) (omega arith)
    ∙ ap (λ q. wrap (wrap (store r p x) ((p + 1) % 4096) xs) q ys) (omega arith)

take-drop : (n : ℕ) (xs : List ℕ) → take n xs ++ drop n xs ≡ xs
take-drop zero xs = refl
take-drop (suc n) [] = refl
take-drop (suc n) (x ∷ xs) = ap (λ t. x ∷ t) (take-drop n xs)

pub put-wrap :
    (bs : List ℕ) (p : ℕ) (r : Array ℕ) → p < 4096 → length bs ≤ 4096 → put r p bs ≡ wrap r p bs
unfolding put
put-wrap bs p r h k = elim (Bool-cases (leb (length bs) (4096 - p))) [
  | inl one ↦ rw one (blit-wrap bs p r (ground arith))
  | inr two ↦ rw two (split (ground (arith, two)))
]
  where
    measured : 4096 - p ≤ length bs → length (take (4096 - p) bs) ≡ 4096 - p
    measured l = omega (arith, length-take (4096 - p) bs)

    parts : length (take (4096 - p) bs) + length (drop (4096 - p) bs) ≡ length bs
    parts =
        sym (length-append (take (4096 - p) bs) (drop (4096 - p) bs))
        ∙ ap length (take-drop (4096 - p) bs)

    split :
        4096 - p ≤ length bs
        → blit (blit r p (take (4096 - p) bs)) 0 (drop (4096 - p) bs) ≡ wrap r p bs
    split l =
        ap (λ t. blit t 0 (drop (4096 - p) bs))
          (blit-wrap (take (4096 - p) bs) p r (omega (arith, measured l)))
        ∙ blit-wrap (drop (4096 - p) bs) 0 (wrap r p (take (4096 - p) bs)) (omega (arith, parts))
        ∙ ap (λ q. wrap (wrap r p (take (4096 - p) bs)) q (drop (4096 - p) bs))
            (omega (arith, measured l))
        ∙ sym (wrap-append (take (4096 - p) bs) (drop (4096 - p) bs) p r h)
        ∙ ap (wrap r p) (take-drop (4096 - p) bs)

-- A place outside a window may be written.
window-store :
    (n p q b : ℕ) (r : Array ℕ)
    → p < 4096
    → q < 4096
    → n ≤ (q + 4096 - p) % 4096
    → window (store r q b) p n ≡ window r p n
unfolding window
window-store zero p q b r h k l = refl
window-store (suc n) p q b r h k l =
    ap₂ ◌∷◌ (ground arith) (window-store n ((p + 1) % 4096) q b r (omega arith) k (omega arith))

-- Bytes written behind a window extend it.
pub window-wrap :
    (bs : List ℕ) (n p q : ℕ) (r : Array ℕ)
    → p < 4096
    → q ≡ (p + n) % 4096
    → n + length bs ≤ 4096
    → window (wrap r q bs) p (n + length bs) ≡ window r p n ++ bs
unfolding wrap window
window-wrap [] n p q r h e l = ap (window r p) (omega arith) ∙ sym (append-nil (window r p n))
window-wrap (b ∷ bs) n p q r h e l =
    ap (window (wrap (store r q b) ((q + 1) % 4096) bs) p) (omega arith)
    ∙ window-wrap bs (n + 1) p ((q + 1) % 4096) (store r q b) h (omega arith) (omega arith)
    ∙ ap (λ t. t ++ bs)
        (window_add n 1 p (store r q b) h
          ∙ ap₂ ◌++◌ (window-store n p q b r h (omega arith) (omega arith))
              (ap (λ x. x ∷ []) (ground (arith, e))))
    ∙ append_assoc (window r p n) (b ∷ []) bs

-- A window that holds one list after another.
pub window_split :
    (xs ys : List ℕ) (p : ℕ) (r : Array ℕ)
    → p < 4096
    → window r p (length (xs ++ ys)) ≡ xs ++ ys
    → (window r p (length xs) ≡ xs) × (window r ((p + length xs) % 4096) (length ys) ≡ ys)
unfolding window
window_split [] ys p r h e = (refl, ap (λ q. window r q (length ys)) (omega arith) ∙ e)
window_split (x ∷ xs) ys p r h e =
    let rest = window_split xs ys ((p + 1) % 4096) r (omega arith) (cc) in
    (ap₂ ◌∷◌ (cc) rest.0, ap (λ q. window r q (length ys)) (omega arith) ∙ rest.1)

pub take-window : (k n p : ℕ) (r : Array ℕ) → k ≤ n → take k (window r p n) ≡ window r p k
unfolding window
take-window zero n p r h = refl
take-window (suc k) zero p r h = absurd (omega arith)
take-window (suc k) (suc n) p r h =
    ap (λ t. r p ∷ t) (take-window k n ((p + 1) % 4096) r (omega arith))
