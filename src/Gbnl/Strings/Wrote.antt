-- ===== src/Gbnl/Strings/Wrote.antt =====
-- What `RecalcSize` of src/format/gbnl.cpp does to one value, and what `Dump_` writes for it.
use neptools.Prelude.{
  ℕ, ◌+◌, ◌%◌, ◌^◌, ◌≤◌, ◌<◌, ◌≡◌, refl, true, false, none, some, [], ◌∷◌, ◌++◌, ◌==◌,
  if◌then◌else◌, arith, length, append-nil, length-append, Bool-cases, Option-cases, inl, inr,
}
use mathlib.Core.Path.{subst}
use neptools.Prelude.Bytes.{Bytes}
use neptools.Gbnl.{Value, no_string}
use neptools.Gbnl.Strings.{Table, find_string, emplace, place_value, dump_string}
use neptools.Gbnl.Strings.Stands.{
  StandsAt, AllStand, ValueStands, value_bytes, StandsAt-next, AllStand-append,
  find_string-StandsAt,
}

-- A value but for the offset of a string that is there.
abbrev pub without_offset : Value → Value
without_offset (Value.string str o) = Value.string str (if o == no_string then no_string else 0)
without_offset (Value.int8 x) = Value.int8 x
without_offset (Value.int16 x) = Value.int16 x
without_offset (Value.int32 x) = Value.int32 x
without_offset (Value.int64 x) = Value.int64 x
without_offset (Value.float x) = Value.float x
without_offset (Value.fix_string bs) = Value.fix_string bs
without_offset (Value.padding bs) = Value.padding bs

-- `area` is what was written before.
pub record IsTable (area : Bytes) (t : Table) : Type 0 where
  pub stand : AllStand area t.map
  pub end : t.offset ≡ length area

-- From `t`, the value `v` became `v'` with the table `t'`, and `Dump_` wrote `w.0` for it.
pub record Wrote (area : Bytes) (v : Value) (t : Table) (v' : Value) (t' : Table) (w : Bytes × ℕ)
    : Type 0 where
  pub next : w.1 ≡ t'.offset
  pub table : IsTable (area ++ w.0) t'
  pub stands : ValueStands (area ++ w.0) v'
  pub kept : without_offset v' ≡ without_offset v
  pub bound : t'.offset ≤ t.offset + value_bytes v

Wrote-nothing :
    (area : Bytes) (v v' : Value) (t : Table)
    → IsTable area t
    → ValueStands area v'
    → without_offset v' ≡ without_offset v
    → Wrote area v t v' t ([], t.offset)
Wrote-nothing area v v' t i h k = record {
  next = refl;
  table = rw append-nil i;
  stands = rw append-nil h;
  kept = k;
  bound = omega arith;
}

-- The table with a string that was not there.
new_string : Bytes → Table → Table
new_string str t = record {
  map = (str, t.offset) ∷ t.map;
  offset = (t.offset + length str + 1) % 2 ^ 64;
}

Wrote-string :
    (area str : Bytes) (offset : ℕ) (t : Table)
    → IsTable area t
    → t.offset + (length str + 1) < 2 ^ 32
    → (offset == no_string) ≡ false
    → Wrote area
        (Value.string str offset)
        t
        (Value.string str (t.offset % 2 ^ 32))
        (new_string str t)
        (str ++ (0 ∷ []), (t.offset + length str + 1) % 2 ^ 64)
unfolding new_string
Wrote-string area str offset t i small n =
    let here : t.offset % 2 ^ 32 ≡ length area = omega (arith, i.end) in
    let there : (t.offset % 2 ^ 32 == no_string) ≡ false = ground arith in
    let len = length-append str (0 ∷ []) in
    record {
      next = refl;
      table = record {
        stand = (
          rw i.end (StandsAt-next area str),
          AllStand-append area (str ++ (0 ∷ [])) t.map i.stand,
        );
        end = omega (arith, length-append area (str ++ (0 ∷ [])), len, i.end);
      };
      stands = inr (rw here (StandsAt-next area str));
      kept = rw (n, there) refl;
      bound = omega arith;
    }

emplace-none :
    (str : Bytes) (t : Table)
    → find_string str t.map ≡ none
    → emplace str t ≡ (t.offset, new_string str t)
unfolding emplace new_string
emplace-none str t e = rw (e, emplace) refl

emplace-some :
    (str : Bytes) (t : Table) (o : ℕ) → find_string str t.map ≡ some o → emplace str t ≡ (o, t)
unfolding emplace
emplace-some str t o e = rw (e, emplace) refl

abbrev pub WroteValue : Bytes → Value → Table → Type 0
WroteValue area v t =
    Wrote area v t (place_value v t).0 (place_value v t).1
      (dump_string (place_value v t).0 t.offset)

place_string-Wrote :
    (area str : Bytes) (offset : ℕ) (t : Table)
    → IsTable area t
    → t.offset + (length str + 1) < 2 ^ 32
    → WroteValue area (Value.string str offset) t
unfolding place_value dump_string new_string
place_string-Wrote area str offset t i small = elim (Bool-cases (offset == no_string)) [
  | inl y ↦
      let apart : (offset == t.offset) ≡ false = ground arith in
      rw (y, apart)
        (Wrote-nothing area (Value.string str offset) (Value.string str offset) t i
          (inl (ground arith)) refl)
  | inr n ↦ elim (Option-cases (find_string str t.map)) [
    | inl e ↦
        let same : (t.offset % 2 ^ 32 == t.offset) ≡ true = ground arith in
        rw (n, emplace-none str t e, same) (Wrote-string area str offset t i small n)
    | inr (o, e) ↦
        let st = find_string-StandsAt area str t.map o i.stand e in
        let apart : (o % 2 ^ 32 == t.offset) ≡ false = ground (arith, i.end, st.1) in
        let there : (o % 2 ^ 32 == no_string) ≡ false = ground (arith, i.end, st.1) in
        let exact : o ≡ o % 2 ^ 32 = omega (arith, i.end, st.1) in
        rw (n, emplace-some str t o e, apart)
          (Wrote-nothing area (Value.string str offset) (Value.string str (o % 2 ^ 32)) t i
            (inr (subst (StandsAt area str) exact st)) (rw (n, there) refl))
  ]
]

pub place_value-Wrote :
    (area : Bytes) (v : Value) (t : Table)
    → IsTable area t
    → t.offset + value_bytes v < 2 ^ 32
    → WroteValue area v t
unfolding place_value dump_string
place_value-Wrote area (Value.string str o) t i h = place_string-Wrote area str o t i h
place_value-Wrote area (Value.int8 x) t i h =
    Wrote-nothing area (Value.int8 x) (Value.int8 x) t i tt refl
place_value-Wrote area (Value.int16 x) t i h =
    Wrote-nothing area (Value.int16 x) (Value.int16 x) t i tt refl
place_value-Wrote area (Value.int32 x) t i h =
    Wrote-nothing area (Value.int32 x) (Value.int32 x) t i tt refl
place_value-Wrote area (Value.int64 x) t i h =
    Wrote-nothing area (Value.int64 x) (Value.int64 x) t i tt refl
place_value-Wrote area (Value.float x) t i h =
    Wrote-nothing area (Value.float x) (Value.float x) t i tt refl
place_value-Wrote area (Value.fix_string bs) t i h =
    Wrote-nothing area (Value.fix_string bs) (Value.fix_string bs) t i tt refl
place_value-Wrote area (Value.padding bs) t i h =
    Wrote-nothing area (Value.padding bs) (Value.padding bs) t i tt refl
