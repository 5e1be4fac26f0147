-- ===== src/Pattern.antt =====
-- src/pattern.hpp, src/pattern.cpp: the search for the one place where bytes match a pattern under a mask. Pointers
-- into the data are offsets. `boost::algorithm::boyer_moore` is a parameter.
pub mod Runs
pub mod Search
pub mod Found
pub mod Unique
pub mod Literal
mod Tests
use Prim.Native.Nat.{bit_and}
use neptools.Prelude.{
  ℕ, zero, suc, ◌+◌, ◌-◌, Bool, true, false, ◌&&◌, Option, none, some, List, [], ◌∷◌, ltb, ◌==◌,
  if◌then◌else◌, length, take, drop,
}
use neptools.Prelude.Bytes.{Bytes}
use neptools.Prelude.Result.{Result, ok, err, ◌>>=◌, out_of_fuel, runtime_error}

-- `size` is the length of both.
pub record Pattern : Type 0 where
  pub pattern : Bytes
  pub mask : Bytes

-- `CheckPattern` at the first byte; the bytes are in the data.
unfoldable pub check_pattern : Bytes → Bytes → Bytes → Bool
check_pattern ptr [] mask = true
check_pattern ptr (p ∷ pattern) [] = true
check_pattern [] (p ∷ pattern) (m ∷ mask) = false
check_pattern (b ∷ ptr) (p ∷ pattern) (m ∷ mask) =
    bit_and b m == p && check_pattern ptr pattern mask

-- The longest run of whole bytes in the mask: the loop from `i`, with `start_i`, `max_len` and `max_i`.
unfoldable pub longest_run : Bytes → ℕ → ℕ → ℕ → ℕ → ℕ × ℕ
longest_run [] i start_i max_len max_i = (max_len, max_i)
longest_run (m ∷ mask) i start_i max_len max_i =
    let whole = m == 0xff in
    let longer = whole && ltb max_len (i - start_i + 1) in
    longest_run mask (i + 1) (if whole then start_i else i + 1)
      (if longer then i - start_i + 1 else max_len) (if longer then start_i else max_i)

-- `boyer_moore` of a needle, on the bytes of the data from one offset to another: the offset of the
-- first place, or the second offset.
abbrev pub BoyerMoore : Type 0
BoyerMoore = Bytes → Bytes → ℕ → ℕ → ℕ

-- The loop of `MaybeFind`. Each round moves `ptr`, so `fuel` of the rest of the data is enough.
unfoldable pub find_loop :
    BoyerMoore → Pattern → Bytes → ℕ → ℕ → ℕ → ℕ → ℕ → Option ℕ → Result (Option ℕ)
unfolding check_pattern
find_loop bm p bytes max_len max_i ptr_end zero ptr res = err out_of_fuel
find_loop bm p bytes max_len max_i ptr_end (suc fuel) ptr res =
    let needle = take max_len (drop max_i p.pattern) in
    let match = bm needle bytes ptr ptr_end in
    let found = check_pattern (drop (match - max_i) bytes) p.pattern p.mask in
    elim (match == ptr_end) [
      | true ↦ ok res
      | false ↦ elim found [
        | false ↦ find_loop bm p bytes max_len max_i ptr_end fuel (match + 1) res
        | true ↦ elim res [
          | some before ↦ ok none
          | none ↦
              find_loop bm p bytes max_len max_i ptr_end fuel (match + 1) (some (match - max_i))
        ]
      ]
    ]

unfoldable pub maybe_find : BoyerMoore → Pattern → Bytes → Result (Option ℕ)
unfolding longest_run find_loop
maybe_find bm p bytes =
    let (max_len, max_i) = longest_run p.mask 0 0 0 0 in
    let ptr_end = length bytes - (length p.pattern - max_len - max_i) in
    find_loop bm p bytes max_len max_i ptr_end (suc (length bytes)) max_i none

-- `Find`
unfoldable pub find : BoyerMoore → Pattern → Bytes → Result ℕ
unfolding maybe_find
find bm p bytes = do
  ret ← maybe_find bm p bytes
  elim ret [ none ↦ err runtime_error | some ptr ↦ ok ptr ]
