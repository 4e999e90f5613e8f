-- ===== src/Strings/Words/Tests.antt =====
-- A string of ten bytes at 16 is copied to 64 by words.
use arcline.Base.{ℕ, ◌≡◌, ◌<◌, arith, Array, some, inr, leb, ltb, ◌&&◌, if◌then◌else◌}
use arcline.Strings.Compare.{IsString}
use arcline.Strings.Copy.{copied}
use arcline.Strings.Words.{strcpy}
use arcline.Strings.Words.Whole.{strcpy-copied}

abbrev ten : Array ℕ
ten = λ j. if leb 16 j && ltb j 26 then 65 else 0

ten-bytes : (j : ℕ) → ten j < 256
ten-bytes j = ground arith

ten-IsString : IsString 16 10 ten
ten-IsString = record { bytes = λ j l. ground arith; nul = ground arith }

strcpy-copied_example :
    (r : Array ℕ) × (strcpy 11 64 16 ten ≡ some r) × ((j : ℕ) → r j ≡ copied 64 16 11 ten j)
strcpy-copied_example =
    strcpy-copied 11 10 64 16 ten (omega arith) (omega arith) ten-bytes ten-IsString
      (inr (omega arith)) (omega arith)
