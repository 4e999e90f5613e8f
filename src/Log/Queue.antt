-- ===== src/Log/Queue.antt =====
-- The ring as a queue of records: a record is its level and its message.
use arcline.Base.{
  ℕ, ◌+◌, ◌-◌, ◌%◌, ◌≤◌, ◌<◌, ◌≡◌, ap, ◌∙◌, List, [], ◌∷◌, ◌++◌, arith, length, length-append,
}
use arcline.Log.{Log, get, space, header, header_len, drop_record, advance}
use arcline.Log.Window.{window, get-window, window_split}

abbrev pub Entry : Type 0
Entry = ℕ × List ℕ

-- The bytes of a record: the header, then the message.
abbrev pub encode : Entry → List ℕ
encode e = header e.0 (length e.1) ++ e.1

abbrev pub encode_all : List Entry → List ℕ
encode_all [] = []
encode_all (e ∷ es) = encode e ++ encode_all es

-- Every level fits its byte.
abbrev pub Levels : List Entry → Type 0
Levels [] = Unit
Levels (e ∷ es) = (e.0 < 256) × Levels es

abbrev pub size : List Entry → ℕ
size es = length (encode_all es)

-- From the tail on, the ring holds these records, the oldest first, and the head stands behind them.
pub record Represents (s : Log) (es : List Entry) : Type 0 where
  pub tail : s.tail < 4096
  pub head : s.head ≡ (s.tail + size es) % 4096
  pub fits : size es ≤ 4095
  pub bytes : window s.ring s.tail (size es) ≡ encode_all es
  pub levels : Levels es

pub space-size : (s : Log) (es : List Entry) → Represents s es → space s ≡ 4095 - size es
unfolding space
space-size s es i = ground (arith, i.tail, i.head, i.fits)

pub size_cons : (e : Entry) (es : List Entry) → size (e ∷ es) ≡ 3 + length e.1 + size es
size_cons e es = omega (arith, length-append e.1 (encode_all es))

-- The header and the message of the oldest record, and the bytes of the others.
module _ (s : Log) (e : Entry) (es : List Entry) (i : Represents s (e ∷ es)) where
  pub split_header : get s.ring s.tail 3 ≡ header e.0 (length e.1)
  split_header =
      get-window 3 s.tail s.ring i.tail (omega arith)
      ∙ (window_split (header e.0 (length e.1)) (e.1 ++ encode_all es) s.tail s.ring i.tail
          i.bytes).0

  pub header_len_lem : header_len (get s.ring s.tail 3) ≡ length e.1
  header_len_lem = ap header_len split_header ∙ omega (arith, i.fits, size_cons e es)

  split_body :
      window s.ring ((s.tail + 3) % 4096) (length (e.1 ++ encode_all es)) ≡ e.1 ++ encode_all es
  split_body =
      (window_split (header e.0 (length e.1)) (e.1 ++ encode_all es) s.tail s.ring i.tail i.bytes).1

  pub split_message : window s.ring ((s.tail + 3) % 4096) (length e.1) ≡ e.1
  split_message =
      (window_split e.1 (encode_all es) ((s.tail + 3) % 4096) s.ring (omega arith) split_body).0

  pub split_rest : window s.ring ((s.tail + (3 + length e.1)) % 4096) (size es) ≡ encode_all es
  split_rest =
      ap (λ q. window s.ring q (size es)) (omega arith)
      ∙ (window_split e.1 (encode_all es) ((s.tail + 3) % 4096) s.ring (omega arith) split_body).1

  -- The same ring with the tail behind the oldest record.
  pub pop-Represents :
      (t : ℕ) → t ≡ (s.tail + (3 + length e.1)) % 4096 → Represents (record s { tail = t }) es
  pop-Represents t q = record {
    tail = omega (arith, q);
    head = i.head ∙ omega (arith, q, size_cons e es);
    fits = omega (arith, i.fits, size_cons e es);
    bytes = ap (λ u. window s.ring u (size es)) q ∙ split_rest;
    levels = i.levels.1;
  }

  pub drop_record-Represents : Represents (drop_record s) es
  unfolding drop_record
  drop_record-Represents = pop-Represents _ (
      ap (λ n. advance s.tail (3 + n)) header_len_lem
      ∙ omega (arith, i.tail, i.fits, size_cons e es))
