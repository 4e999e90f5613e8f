-- ===== src/Eevdf/Order.antt =====
-- The tree of the run queue holds the queued nodes by virtual runtime.
use arcline.Base.{ℕ, ◌<◌, ◌≡◌, ◌≢◌, List, arith, length}
use arcline.Rb.{Tree, rotate}
use arcline.Rb.Mirror.{rotate-Lawful}
use arcline.Rb.Insert.Link.{Sorted, insert_sorted}
use arcline.Rb.Insert.Order.{occurs, starts_with}
use arcline.Rb.Insert.Whole.{IsTree, inserted-IsTree}
use arcline.Eevdf.Tree.{insert_node}

-- The tree part of `eevdf_enqueue` is an insertion in the list of the nodes sorted by virtual
-- runtime, after those of the same one, and answers whether the node comes first. As many rounds
-- as there are nodes then are enough.
pub insert_node-IsTree :
    (key : ℕ → ℕ) (v k n : ℕ) (xs : List ℕ) (t : Tree)
    → IsTree 0 xs t
    → Sorted key xs
    → n ≢ 0
    → occurs n xs ≡ 0
    → length xs < k
    → IsTree 0 (insert_sorted key v n xs) (insert_node key v k n t).1
      × ((insert_node key v k n t).0 ≡ starts_with n (insert_sorted key v n xs))
unfolding insert_node
insert_node-IsTree = inserted-IsTree 1 0 rotate rotate-Lawful (λ e. omega (arith, e))
