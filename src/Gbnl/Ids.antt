-- ===== src/Gbnl/Ids.antt =====
-- The ids of strings in the text form of src/format/gbnl.cpp: `GetId` and `FindDst`. An id is an `int32_t`, kept as its
-- bits; `-1` as a position is that of `size_t`.
pub mod Found
mod Tests
use neptools.Prelude.{
  ℕ, zero, suc, ◌+◌, ◌-◌, ◌*◌, ◌/◌, ◌%◌, ◌^◌, Bool, true, false, not, ◌&&◌, ◌||◌, Option, none,
  some, List, [], ◌∷◌, ltb, ◌==◌, length, get_elem?, if◌then◌else◌,
}
use neptools.Gbnl.{Gbnl, Message, Value, no_string}

-- `m.Is<int32_t>(i)` and `m.Get<int32_t>(i)`
abbrev int32_at : Message → ℕ → Option ℕ
int32_at m i = elim (get_elem? m i) [ some (Value.int32 n) ↦ some n | _ ↦ none ]

abbrev pub no_position : ℕ
no_position = 2 ^ 64 - 1

module _ (g : Gbnl) where
  -- The id of a string that has one: `this_k` is its number in the message.
  unfoldable pub number : Bool → Message → ℕ → ℕ → ℕ → ℕ
  number simple m i j this_k =
      let plain = (this_k * 10000 + j) % 2 ^ 32 in
      let by_second : ℕ = elim (int32_at m 1) [
        | none ↦ plain
        | some n ↦ (n + (if i == 0 then 100000 else 0)) % 2 ^ 32
      ] in
      let gstl = if g.is_gstl && length m == 3 then by_second else plain in
      let by_first : ℕ = elim (int32_at m 0) [ none ↦ gstl | some n ↦ n ] in
      let hack = not g.is_gstl && (i == 8 && length m == 9 || i == 105 && length m == 107) in
      if simple then (i + j * 1000) % 2 ^ 32 else if hack then by_first else gstl

  -- `GetId`: the id of the value `v` at `i`, if it has one, and the new `k`.
  unfoldable pub get_id : Bool → Message → Value → ℕ → ℕ → ℕ → Option ℕ × ℕ
  get_id simple m (Value.string str offset) i j k =
      if offset == no_string then (none, k) else (some (number simple m i j (suc k)), suc k)
  get_id simple m (Value.fix_string str) i j k =
      let this_k = if not (g.flags == 0) && not (g.field_28 == 1) then 10000 else 0 in
      (some (number simple m i j this_k), k)
  get_id simple m v i j k = (none, k)

  -- The inner loop of `FindDst`, from the values that start at `i`.
  unfoldable pub find_value : ℕ → Message → ℕ → List Value → ℕ → ℕ → Option ℕ
  unfolding get_id
  find_value id m j [] i k = none
  find_value id m j (v ∷ vs) i k =
      let (found, k') = get_id false m v i j k in
      let next = find_value id m j vs (suc i) k' in
      elim found [ none ↦ next | some tid ↦ if tid == id then some i else next ]

  -- The outer loop, `n` messages before its end.
  unfoldable pub find_message : ℕ → ℕ → ℕ → ℕ → ℕ × ℕ
  unfolding find_value
  find_message id index zero j = (no_position, index)
  find_message id index (suc n) j =
      let j2 = (index + j) % 2 ^ 64 % length g.messages in
      let next = find_message id index n (suc j) in
      elim (get_elem? g.messages j2) [
        | none ↦ next
        | some m ↦ elim (find_value id m j2 m 0 0) [ none ↦ next | some i ↦ (i, j2) ]
      ]

  -- `FindDst`: the position in the message, and the new `index`. The division of a simple id is that of `int32_t`.
  unfoldable pub find_dst : Bool → ℕ → ℕ → ℕ × ℕ
  unfolding find_message
  find_dst simple id index =
      let minus = 2 ^ 32 - id in
      let by_parts : ℕ × ℕ =
        if ltb id (2 ^ 31)
        then (id % 1000, id / 1000)
        else ((2 ^ 64 - minus % 1000) % 2 ^ 64, (2 ^ 64 - minus / 1000) % 2 ^ 64) in
      let found = find_message id index (length g.messages) 0 in if simple then by_parts else found
