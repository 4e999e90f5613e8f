-- ===== src/Log/Drop.antt =====
-- Making room: the oldest records go until the next one fits.
use arcline.Base.{
  ℕ, zero, suc, ◌+◌, ◌-◌, ◌*◌, ◌≤◌, ◌<◌, ◌≡◌, sym, ap, ap₂, ◌∙◌, List, [], ◌∷◌, ◌++◌, arith, ltb,
  if◌then◌else◌, length, length-append, false, Bool-cases, inl, inr,
}
use mathlib.Core.List.{append-nil, append_assoc}
use arcline.Log.{Log, header, put, drop_record, drop_oldest, advance, put_record}
use arcline.Log.Window.{window, wrap, put-wrap, wrap-append, window-wrap}
use arcline.Log.Queue.{
  Entry, encode, encode_all, Levels, size, Represents, space-size, size_cons,
  drop_record-Represents,
}

-- What is left of the records once `need` bytes fit.
abbrev pub evict : ℕ → List Entry → List Entry
evict need [] = []
evict need (e ∷ es) =
    let rest = evict need es in if ltb (4095 - size (e ∷ es)) need then rest else e ∷ es

pub drop_oldest-Represents :
    (k need : ℕ) (s : Log) (es : List Entry)
    → need ≤ 4095
    → length es ≤ k
    → Represents s es
    → Represents (drop_oldest k need s) (evict need es)
unfolding drop_oldest
drop_oldest-Represents zero need s [] h l i = i
drop_oldest-Represents zero need s (e ∷ es) h l i = absurd (omega arith)
drop_oldest-Represents (suc k) need s [] h l i =
    let fit : ltb 4095 need ≡ false = ground arith in rw (space-size s [] i, fit) i
drop_oldest-Represents (suc k) need s (e ∷ es) h l i =
    let rest =
      drop_oldest-Represents k need (drop_record s) es h (omega arith)
        (drop_record-Represents s e es i) in
    rw (space-size s (e ∷ es) i) (elim (Bool-cases (ltb (4095 - size (e ∷ es)) need)) [
      | inl full ↦ rw full rest
      | inr room ↦ rw room i
    ])

pub evict-fits :
    (need : ℕ) (es : List Entry) → need ≤ 4095 → size es ≤ 4095 → size (evict need es) + need ≤ 4095
evict-fits need [] h k = omega arith
evict-fits need (e ∷ es) h k = elim (Bool-cases (ltb (4095 - size (e ∷ es)) need)) [
  | inl full ↦ rw full (evict-fits need es h (omega (arith, size_cons e es)))
  | inr room ↦ rw room (ground (arith, room, k))
]

-- A record takes three bytes at least.
pub length-size : (es : List Entry) → 3 * length es ≤ size es
length-size [] = omega arith
length-size (e ∷ es) = omega (arith, length-size es, size_cons e es)

pub encode_all_snoc :
    (es : List Entry) (e : Entry) → encode_all (es ++ (e ∷ [])) ≡ encode_all es ++ encode e
encode_all_snoc [] e = append-nil (encode e)
encode_all_snoc (d ∷ es) e =
    ap (λ t. encode d ++ t) (encode_all_snoc es e)
    ∙ sym (append_assoc (encode d) (encode_all es) (encode e))

Levels-snoc : (es : List Entry) (e : Entry) → Levels es → e.0 < 256 → Levels (es ++ (e ∷ []))
Levels-snoc [] e h k = (k, tt)
Levels-snoc (d ∷ es) e h k = (h.0, Levels-snoc es e h.1 k)

-- A record written at the head joins the queue as the newest.
module _ (s : Log) (es : List Entry) (e : Entry) (i : Represents s es) (small : e.0 < 256)
    (room : size es + 3 + length e.1 ≤ 4095) where
  size_snoc : size (es ++ (e ∷ [])) ≡ size es + (3 + length e.1)
  size_snoc =
      ap length (encode_all_snoc es e) ∙ length-append (encode_all es) (encode e) ∙ omega arith

  pub written :
      put (put s.ring s.head (header e.0 (length e.1))) (advance s.head 3) e.1
      ≡ wrap s.ring s.head (encode e)
  written =
      put-wrap e.1 (advance s.head 3) (put s.ring s.head (header e.0 (length e.1))) (omega arith)
        (omega arith)
      ∙ ap₂ (λ r q. wrap r q e.1)
          (put-wrap (header e.0 (length e.1)) s.head s.ring (omega (arith, i.head)) (omega arith))
          (omega (arith, i.head))
      ∙ sym (wrap-append (header e.0 (length e.1)) e.1 s.head s.ring (omega (arith, i.head)))

  pub push-Represents :
      (n : ℕ) → n ≡ length e.1 → Represents (put_record e.0 n e.1 s) (es ++ (e ∷ []))
  unfolding put_record
  push-Represents n q = rw q record {
    tail = i.tail;
    head = omega (arith, i.head, i.tail, size_snoc, room);
    fits = omega (arith, size_snoc, room);
    bytes =
        ap₂ (λ r n. window r s.tail n) written
          (ap length (encode_all_snoc es e) ∙ length-append (encode_all es) (encode e))
        ∙ window-wrap (encode e) (size es) s.tail s.head s.ring i.tail i.head (omega (arith, room))
        ∙ ap (λ t. t ++ encode e) i.bytes
        ∙ sym (encode_all_snoc es e);
    levels = Levels-snoc es e i.levels small;
  }
