-- ===== src/Log/Fifo.antt =====
-- `log_write_str` and `log_read` as the operations of a queue.
use arcline.Base.{
  ℕ, ◌+◌, ◌-◌, ◌%◌, ◌≤◌, ◌<◌, ◌≡◌, ◌≢◌, refl, sym, ap, ◌∙◌, Bool, List, [], ◌∷◌, ◌++◌, arith, ltb,
  ◌==◌, if◌then◌else◌, not, ◌&&◌, ◌||◌, length, take, length-take, true, false, Bool-cases, inl,
  inr, min, some, none, ℤ, pos, negsuc, ltb_ℤ,
}
use mathlib.Core.Path.{subst}
use arcline.Log.{
  Log, header_level, space, get, drop_oldest, advance, append, write_str, prefix, take_record, read,
  emit, payload_len, level_byte, ring_size,
}
use arcline.Log.Window.{get-window, take-window}
use arcline.Log.Queue.{
  Entry, size, Represents, space-size, size_cons, split_header, header_len_lem, split_message,
  pop-Represents,
}
use arcline.Log.Drop.{evict, drop_oldest-Represents, evict-fits, length-size, push-Represents}

-- The record that a message becomes.
abbrev pub entry : ℤ → List ℕ → Entry
entry level msg = (level_byte level, take (payload_len msg) msg)

-- The queue after a message: the oldest records go as needed, the message comes last.
abbrev pub push : ℤ → List ℕ → List Entry → List Entry
push level msg es = evict (3 + payload_len msg) es ++ (entry level msg ∷ [])

-- The message passes the level of the ring.
abbrev pub accepts : ℤ → Log → Bool
accepts level s = s.inited && not (ltb_ℤ s.level level)

-- Nothing goes from a ring that has the room.
evict_room : (need : ℕ) (es : List Entry) → need ≤ 4095 - size es → evict need es ≡ es
evict_room need [] h = refl
evict_room need (e ∷ es) h =
    let full : ltb (4095 - size (e ∷ es)) need ≡ false = ground arith in rw full refl

level_byte_bound : (level : ℤ) → level_byte level < 256
level_byte_bound (pos n) = omega arith
level_byte_bound (negsuc n) = omega arith

-- The state of `append` once there is room.
made_room :
    (s : Log) (es : List Entry) (need : ℕ)
    → need ≤ 4095
    → Represents s es
    → Represents (if ltb (space s) need then drop_oldest ring_size need s else s) (evict need es)
made_room s es need h i = elim (Bool-cases (ltb (space s) need)) [
  | inl full ↦
      rw full
        (drop_oldest-Represents ring_size need s es h (omega (arith, length-size es, i.fits)) i)
  | inr room ↦ rw (room, evict_room need es (ground (arith, room, space-size s es i))) i
]

payload-length : (msg : List ℕ) → length (take (payload_len msg) msg) ≡ payload_len msg
payload-length msg = omega (arith, length-take (payload_len msg) msg)

pub append-Represents :
    (level : ℤ) (msg : List ℕ) (s : Log) (es : List Entry)
    → Represents s es
    → Represents (append level msg s) (push level msg es)
unfolding append
append-Represents level msg s es i =
    let need = 3 + payload_len msg in
    let s1 = if ltb (space s) need then drop_oldest ring_size need s else s in
    let i1 : Represents s1 (evict need es) = made_room s es need (omega arith) i in
    push-Represents s1 (evict need es) (entry level msg) i1 (level_byte_bound level)
      (omega (arith, evict-fits need es (omega arith) i.fits, payload-length msg)) (payload_len msg)
      (sym (payload-length msg))

-- What `log_write_str` returns and leaves in the ring.
pub record Written (level : ℤ) (msg : List ℕ) (s : Log) (es : List Entry) : Type 0 where
  value : (write_str level msg s).0 ≡ (if accepts level s then payload_len msg else 0)
  queue : Represents (write_str level msg s).1 (if accepts level s then push level msg es else es)

-- What `log_read` returns and leaves in the ring.
pub record ReadBack (out_len : ℕ) (s : Log) (e : Entry) (es : List Entry) : Type 0 where
  value : (read out_len s).0 ≡ min (out_len - 1) (length e.1)
  out : (read out_len s).1 ≡ some (take (min (out_len - 1) (length e.1)) e.1 ++ (0 ∷ []), e.0)
  queue : Represents (read out_len s).2 es

console-Represents :
    (c : List ℕ) (s : Log) (es : List Entry)
    → Represents s es
    → Represents (record s { console = c }) es
console-Represents c s es i = record {
  tail = i.tail;
  head = i.head;
  fits = i.fits;
  bytes = i.bytes;
  levels = i.levels;
}

-- What `write_str` does once the console has its copy.
write_on : ℤ → List ℕ → Log → ℕ × Log
write_on level msg s =
    if not s.inited || ltb_ℤ s.level level then (0, s) else (payload_len msg, append level msg s)

write_on_lem :
    (level : ℤ) (msg : List ℕ) (s : Log) (es : List Entry)
    → Represents s es
    → ((write_on level msg s).0 ≡ (if accepts level s then payload_len msg else 0))
      × Represents (write_on level msg s).1 (if accepts level s then push level msg es else es)
unfolding write_on
write_on_lem level msg s es i =
    rw (refused s.inited (ltb_ℤ s.level level)) (elim (Bool-cases (accepts level s)) [
      | inl pass ↦ rw pass (refl, append-Represents level msg s es i)
      | inr stop ↦ rw stop (refl, i)
    ])
  where
    refused : (a b : Bool) → (not a || b) ≡ not (a && not b)
    refused true true = refl
    refused true false = refl
    refused false b = refl

-- `log_write_str` from a ring that holds `es`: a message that passes the level is appended, cut
-- to 4092 bytes, once as many of the oldest records are gone as it needs; another one changes
-- nothing in the ring.
pub write_str-Written :
    (level : ℤ) (msg : List ℕ) (s : Log) (es : List Entry)
    → Represents s es
    → Written level msg s es
unfolding write_str emit write_on
write_str-Written level msg s es i =
    elim (Bool-cases (s.sink && not (ltb_ℤ s.console_level level))) [
      | inl shown ↦
          let r =
            write_on_lem level msg (record s { console = s.console ++ (prefix level ++ msg) }) es
              (console-Represents (s.console ++ (prefix level ++ msg)) s es i) in
          record { value = rw shown r.0; queue = rw shown r.1 }
      | inr quiet ↦
          let r = write_on_lem level msg s es i in
          record { value = rw quiet r.0; queue = rw quiet r.1 }
    ]

read-empty : (out_len : ℕ) (s : Log) → Represents s [] → read out_len s ≡ (0, none, s)
unfolding read
read-empty out_len s i =
    let same : (s.head == s.tail) ≡ true = ground (arith, i.head, i.tail) in
    rw same (elim (Bool-cases (out_len == 0)) [
      | inl a ↦ rw a refl
      | inr a ↦ elim (Bool-cases s.inited) [ inl b ↦ rw (a, b) refl | inr b ↦ rw (a, b) refl ]
    ])

module _ (out_len : ℕ) (s : Log) (e : Entry) (es : List Entry) (i : Represents s (e ∷ es)) where
  abbrev copied : ℕ
  copied = if ltb (out_len - 1) (length e.1) then out_len - 1 else length e.1

  level_read : header_level (get s.ring s.tail 3) ≡ e.0
  level_read = ap header_level (split_header s e es i) ∙ omega (arith, i.levels.0)

  bytes_read : get s.ring (advance s.tail 3) copied ≡ take copied e.1
  bytes_read =
      ap (λ q. get s.ring q copied) (omega (arith, i.tail))
      ∙ get-window copied ((s.tail + 3) % 4096) s.ring (omega arith)
          (ground (arith, i.fits, size_cons e es))
      ∙ sym (take-window copied (length e.1) ((s.tail + 3) % 4096) s.ring (ground arith))
      ∙ ap (take copied) (split_message s e es i)

  taken : take_record out_len s ≡ (
    copied,
    some (take copied e.1 ++ (0 ∷ []), e.0),
    record s { tail = advance (advance s.tail 3) (length e.1) },
  )
  unfolding take_record
  taken = rw (header_len_lem s e es i, level_read, bytes_read) refl

  -- `log_read` of a ring that holds a record: into a buffer that is not empty it copies the oldest
  -- message, cut to `out_len - 1` bytes, with a NUL behind it, tells its level and removes it.
  pub read-ReadBack : out_len ≢ 0 → s.inited ≡ true → ReadBack out_len s e es
  unfolding read
  read-ReadBack ne on =
      let busy : (s.head == s.tail) ≡ false =
        ground (arith, i.head, i.tail, i.fits, size_cons e es) in
      let room : (out_len == 0) ≡ false = ground (arith, ne) in
      let open_ring : (out_len == 0 || not s.inited || s.head == s.tail) ≡ false =
        rw (room, on, busy) refl in
      let copied_min : copied ≡ min (out_len - 1) (length e.1) = ground arith in
      let result : read out_len s ≡ (
        copied,
        some (take copied e.1 ++ (0 ∷ []), e.0),
        record s { tail = advance (advance s.tail 3) (length e.1) },
      ) =
        rw open_ring taken in
      record {
        value = ap (λ r. r.0) result ∙ copied_min;
        out = ap (λ r. r.1) result ∙ ap (λ n. some (take n e.1 ++ (0 ∷ []), e.0)) copied_min;
        queue =
            subst (λ r. Represents r.2 es) (sym result)
              (pop-Represents s e es i _ (omega (arith, i.tail, i.fits, size_cons e es)));
      }
