-- ===== src/Log.antt =====
-- kernel/log.c: the ring of log records. A message is the list of its bytes before the NUL. What the
-- console sink was given, in order, is `console`; the lock makes each function one step.
pub mod Window
pub mod Queue
pub mod Drop
pub mod Fifo
mod Tests
use arcline.Base.{
  ℕ, zero, suc, ◌+◌, ◌-◌, ◌*◌, ◌/◌, ◌%◌, Bool, true, false, not, ◌&&◌, ◌||◌, List, [], ◌∷◌, ◌++◌,
  ltb, leb, ◌==◌, if◌then◌else◌, Array, store, length, take, drop, add32, min, Option, none, some,
  ℤ, pos, negsuc, ltb_ℤ, to_ℕ,
}

abbrev pub ring_size : ℕ
ring_size = 4096

pub record Log : Type 0 where
  pub ring : Array ℕ
  pub head : ℕ
  pub tail : ℕ
  pub level : ℤ
  pub console_level : ℤ
  pub sink : Bool
  pub inited : Bool
  pub console : List ℕ

-- `memcpy(&ring[p], bytes, n)` within the ring
pub blit : Array ℕ → ℕ → List ℕ → Array ℕ
blit r p [] = r
blit r p (b ∷ bs) = blit (store r p b) (p + 1) bs

-- `memcpy(out, &ring[p], n)` within the ring
pub fetch : Array ℕ → ℕ → ℕ → List ℕ
fetch r p zero = []
fetch r p (suc n) = r p ∷ fetch r (p + 1) n

-- A copy into the ring that may wrap.
pub put : Array ℕ → ℕ → List ℕ → Array ℕ
put r p bytes =
    let first = ring_size - p in
    if leb (length bytes) first
    then blit r p bytes
    else blit (blit r p (take first bytes)) 0 (drop first bytes)

-- A copy out of the ring that may wrap.
pub get : Array ℕ → ℕ → ℕ → List ℕ
get r p n =
    let first = ring_size - p in
    if leb n first then fetch r p n else fetch r p first ++ fetch r 0 (n - first)

pub space : Log → ℕ
space s = if leb s.tail s.head then ring_size - (s.head - s.tail) - 1 else s.tail - s.head - 1

abbrev pub advance : ℕ → ℕ → ℕ
advance p n = add32 p n % ring_size

-- `klog_hdr_t`, packed: the level, then the length in two bytes, low byte first.
abbrev pub header : ℕ → ℕ → List ℕ
header level len = level % 256 ∷ len % 256 ∷ len / 256 % 256 ∷ []

abbrev pub header_level : List ℕ → ℕ
header_level (l ∷ rest) = l
header_level [] = 0

abbrev pub header_len : List ℕ → ℕ
header_len (l ∷ lo ∷ hi ∷ rest) = lo + 256 * hi
header_len (l ∷ lo ∷ []) = 0
header_len (l ∷ []) = 0
header_len [] = 0

-- The body of the loop of `rb_drop_oldest`.
pub drop_record : Log → Log
drop_record s = record s { tail = advance s.tail (3 + header_len (get s.ring s.tail 3)) }

-- `rb_drop_oldest`, with the rounds that it may take.
pub drop_oldest : ℕ → ℕ → Log → Log
drop_oldest zero need s = s
drop_oldest (suc k) need s =
    let rest = drop_oldest k need (drop_record s) in if ltb (space s) need then rest else s

abbrev pub klog_info : ℤ
klog_info = pos 6

pub init : Log → Log
init s = record s {
  head = 0;
  tail = 0;
  level = klog_info;
  console_level = klog_info;
  sink = true;
  inited = true;
}

pub set_level : ℤ → Log → Log
set_level v s = record s { level = v }

pub set_console_sink : Bool → Log → Log
set_console_sink v s = record s { sink = v }

pub set_console_level : ℤ → Log → Log
set_console_level v s = record s { console_level = v }

-- The digit of the prefix, 6 where the level has no prefix of its own.
pub prefix : ℤ → List ℕ
prefix (pos n) = b'<' ∷ (if ltb n 8 then b'0' + n else b'6') ∷ b'>' ∷ []
prefix (negsuc n) = b'<' ∷ b'6' ∷ b'>' ∷ []

-- What `log_write_str` sends to the console sink.
pub emit : ℤ → List ℕ → Log → Log
emit level msg s =
    if s.sink && not (ltb_ℤ s.console_level level)
    then record s { console = s.console ++ (prefix level ++ msg) }
    else s

-- The length of the payload, held so that a record fits.
abbrev pub payload_len : List ℕ → ℕ
payload_len msg = min (length msg) 4092

-- `(uint8_t)level`
abbrev pub level_byte : ℤ → ℕ
level_byte (pos n) = n % 256
level_byte (negsuc n) = 255 - n % 256

-- A record of `len` bytes is written at the head.
pub put_record : ℕ → ℕ → List ℕ → Log → Log
put_record level len payload s =
    let r1 = put s.ring s.head (header level len) in
    let h1 = advance s.head 3 in record s { ring = put r1 h1 payload; head = advance h1 len }

-- `log_write_str` from the lock on.
pub append : ℤ → List ℕ → Log → Log
append level msg s =
    let len = payload_len msg in
    let s1 = if ltb (space s) (3 + len) then drop_oldest ring_size (3 + len) s else s in
    put_record (level_byte level) len (take len msg) s1

pub write_str : ℤ → List ℕ → Log → ℕ × Log
write_str level msg s =
    let s1 = emit level msg s in
    if not s1.inited || ltb_ℤ s1.level level
    then (0, s1)
    else (payload_len msg, append level msg s1)

-- The oldest record is copied out, up to `out_len - 1` bytes of it, and removed: the result, the
-- bytes written to the buffer and the level.
pub take_record : ℕ → Log → ℕ × Option (List ℕ × ℕ) × Log
take_record out_len s =
    let hdr = get s.ring s.tail 3 in
    let t1 = advance s.tail 3 in
    let len = header_len hdr in
    let to_copy = if ltb (out_len - 1) len then out_len - 1 else len in
    (
      to_copy,
      some (get s.ring t1 to_copy ++ (0 ∷ []), header_level hdr),
      record s { tail = advance t1 len },
    )

-- `log_read` into a buffer of `out_len` bytes.
pub read : ℕ → Log → ℕ × Option (List ℕ × ℕ) × Log
read out_len s =
    if out_len == 0 || not s.inited || s.head == s.tail then (0, none, s) else take_record out_len s
