-- ===== src/Log/Tests.antt =====
-- Runs of the log on small inputs, and the properties at concrete logs.
use arcline.Base.{ℕ, ◌≡◌, refl, List, [], ◌∷◌, ◌++◌, arith, get_or, true, some, pos}
use arcline.Log.{
  Log, init, write_str, read, append, emit, prefix, put_record, take_record, put, get, blit, fetch,
  space,
}
use arcline.Log.Window.{window}
use arcline.Log.Queue.{Represents}
use arcline.Log.Fifo.{Written, write_str-Written, ReadBack, read-ReadBack}

abbrev blank : Log
blank = init (record {
  ring = λ _. 0;
  head = 9;
  tail = 7;
  level = pos 0;
  console_level = pos 0;
  sink = true;
  inited = true;
  console = [];
})

abbrev hi : List ℕ
hi = b'h' ∷ b'i' ∷ []

-- The record of `hi` at level 3 goes round the end of the ring.
abbrev round_end : Log
round_end = record {
  ring = λ i. get_or (2 ∷ 0 ∷ b'h' ∷ b'i' ∷ []) i 3;
  head = 4;
  tail = 4095;
  level = pos 6;
  console_level = pos 6;
  sink = true;
  inited = true;
  console = [];
}

written_read : (read 8 (write_str (pos 3) hi blank).1).1 ≡ some (hi ++ (0 ∷ []), 3)
unfolding write_str read append emit prefix put_record take_record put get blit fetch space init
written_read = refl

cut_short : (read 2 round_end).1 ≡ some (b'h' ∷ 0 ∷ [], 3)
unfolding read take_record get fetch
cut_short = refl

too_verbose : (write_str (pos 7) hi blank).0 ≡ 0
unfolding write_str emit append init
too_verbose = refl

blank-Represents : Represents blank []
unfolding window init
blank-Represents = record {
  tail = omega arith;
  head = refl;
  fits = omega arith;
  bytes = refl;
  levels = tt;
}

round_end-Represents : Represents round_end ((3, hi) ∷ [])
unfolding window
round_end-Represents = record {
  tail = omega arith;
  head = refl;
  fits = omega arith;
  bytes = refl;
  levels = (omega arith, tt);
}

write_str-Written_example : Written (pos 3) hi blank []
write_str-Written_example = write_str-Written (pos 3) hi blank [] blank-Represents

read-ReadBack_example : ReadBack 2 round_end (3, hi) []
read-ReadBack_example = read-ReadBack 2 round_end (3, hi) [] round_end-Represents (omega arith) refl
