-- ===== src/Gbnl/Types/Entries.antt =====
-- One descriptor of a type in src/format/gbnl.cpp: what `Pad` and the `switch` of `Parse_` add for it, and what `Dump_`
-- writes for that.
use neptools.Prelude.{
  ℕ, ◌+◌, ◌%◌, ◌^◌, ◌≤◌, ◌<◌, ◌≡◌, refl, sym, ap, ◌∙◌, Bool, true, false, List, [], ◌∷◌, ◌++◌, leb,
  ◌==◌, arith, length, take, drop, append-nil, append_assoc, length-take, length-drop,
  take-append-drop, Bool-cases, inl, inr,
}
use mathlib.Core.Path.{subst}
use neptools.Prelude.Bytes.{Bytes, IsBytes}
use neptools.Prelude.Result.{Result, ok, ok-injective}
use neptools.Source.Struct.{IsBytes-take, IsBytes-drop}
use neptools.Endian.{Endian, pack_endian, from_endian, to_endian-from_endian}
use neptools.Gbnl.{Item, item_size, is_real, count_real}
use neptools.Gbnl.Types.{get_type_size, pad, item_of, descriptor, dump_types, type_int8}

abbrev pub total_size : List Item → ℕ
total_size [] = 0
total_size (i ∷ items) = item_size i + total_size items

-- An `INT8` that waits for its item.
abbrev pub waiting : Endian → Bool → ℕ → Bytes
waiting e true start = descriptor e Item.int8 start
waiting e false start = []

abbrev pub one_if : Bool → ℕ
one_if true = 1
one_if false = 0

-- What `items` has at `start`, of which `written` is to be written still.
record IsDumped (e : Endian) (items : List Item) (start n : ℕ) (p : Bool) (written : Bytes)
    : Type 0 where
  pub bytes : dump_types e start items ≡ waiting e p start ++ written
  pub count : count_real items ≡ n + one_if p

pub dump_types-append :
    (e : Endian) (xs ys : List Item) (start : ℕ)
    → start < 2 ^ 16
    → dump_types e start (xs ++ ys)
      ≡ dump_types e start xs ++ dump_types e ((start + total_size xs) % 2 ^ 16) ys
unfolding dump_types
dump_types-append e [] ys start h = ap (λ x. dump_types e x ys) (omega arith)
dump_types-append e (x ∷ xs) ys start h =
    let rest = dump_types-append e xs ys ((start + item_size x) % 2 ^ 16) (omega arith) in
    let same : ((start + item_size x) % 2 ^ 16 + total_size xs) % 2 ^ 16
        ≡ (start + (item_size x + total_size xs)) % 2 ^ 16 =
      omega arith in
    ap (◌++◌ (descriptor e x start))
      (rest ∙ ap (λ k. dump_types e ((start + item_size x) % 2 ^ 16) xs ++ dump_types e k ys) same)
    ∙ sym (append_assoc (descriptor e x start) _ _)

pub count_real-append : (xs ys : List Item) → count_real (xs ++ ys) ≡ count_real xs + count_real ys
count_real-append [] ys = omega arith
count_real-append (x ∷ xs) ys = omega (arith, count_real-append xs ys)

-- A `Pad` ends an item that waits, and fills up to `diff` behind it.
pub record IsPad (e : Endian) (start diff : ℕ) (p : Bool) (items : List Item) : Type 0 where
  pub bytes : dump_types e start items ≡ waiting e p start
  pub size : total_size items ≡ one_if p + diff
  pub count : count_real items ≡ one_if p

pub pad-IsPad : (e : Endian) (start diff : ℕ) (p : Bool) → IsPad e start diff p (pad diff p)
unfolding pad dump_types item_size is_real
pad-IsPad e start diff true = elim (Bool-cases (leb diff 3)) [
  | inl y ↦ elim (Bool-cases (diff == 0)) [
    | inl z ↦ rw (y, z) (record { bytes = append-nil _; size = ground arith; count = refl })
    | inr z ↦ rw (y, z) (record { bytes = append-nil _; size = ground arith; count = refl })
  ]
  | inr n ↦ rw n (record { bytes = append-nil _; size = ground arith; count = refl })
]
pad-IsPad e start diff false = elim (Bool-cases (diff == 0)) [
  | inl z ↦ rw z (record { bytes = refl; size = ground arith; count = refl })
  | inr z ↦ rw z (record { bytes = refl; size = ground arith; count = refl })
]

-- What the `switch` adds for a type of a descriptor: with the item that waits then, it is what has the
-- descriptor.
pub record IsEntry (e : Endian) (type start size : ℕ) (here : List Item) : Type 0 where
  pub bytes :
      dump_types e start here ++ waiting e (type == type_int8) start
      ≡ pack_endian e (2 ∷ 2 ∷ []) (type ∷ start ∷ [])
  pub total : total_size here + one_if (type == type_int8) ≡ size
  pub count : count_real here + one_if (type == type_int8) ≡ 1
  pub only : (type == type_int8) ≡ true → here ≡ []

IsEntry-ok :
    (e : Endian) (type start n size : ℕ) (items here : List Item)
    → IsEntry e type start n items
    → ◌≡◌ {A = Result ℕ} (ok n) (ok size)
    → ◌≡◌ {A = Result (List Item)} (ok items) (ok here)
    → IsEntry e type start size here
IsEntry-ok e type start n size items here x h k = rw (← ok-injective h, ← ok-injective k) x

-- The claim at one type.
abbrev Entry : Endian → ℕ → ℕ → List Item → ℕ → Type 0
Entry e start size here type =
    get_type_size type ≡ ok size → item_of type ≡ ok here → IsEntry e type start size here

-- A type whose item is added at once.
Entry-plain :
    (e : Endian) (start size : ℕ) (here : List Item) (type T n : ℕ) (item : Item)
    → type ≡ T
    → get_type_size T ≡ ok n
    → item_of T ≡ ok (item ∷ [])
    → (T == type_int8) ≡ false
    → IsEntry e T start n (item ∷ [])
    → Entry e start size here type
Entry-plain e start size here type T n item same sized made other x =
    subst (Entry e start size here) (sym same)
      (λ h k. IsEntry-ok e T start n size (item ∷ []) here x (sym sized ∙ h) (sym made ∙ k))

pub item_of-IsEntry :
    (e : Endian) (type start size : ℕ) (here : List Item) → Entry e start size here type
unfolding get_type_size item_of dump_types descriptor item_size is_real
item_of-IsEntry e type start size here = elim (Bool-cases (type == 1)) [
  | inl y ↦
      let same : type ≡ 1 = ground arith in
      subst (Entry e start size here) (sym same) (λ h k.
        IsEntry-ok e 1 start 1 size [] here
          (record { bytes = refl; total = refl; count = refl; only = λ q. refl }) h k)
  | inr a ↦ elim (Bool-cases (type == 2)) [
    | inl y ↦
        Entry-plain e start size here type 2 2 Item.int16 (ground arith) refl refl refl entry_16
    | inr b ↦ elim (Bool-cases (type == 0)) [
      | inl y ↦
          Entry-plain e start size here type 0 4 Item.int32 (ground arith) refl refl refl entry_32
      | inr c ↦ elim (Bool-cases (type == 6)) [
        | inl y ↦
            Entry-plain e start size here type 6 8 Item.int64 (ground arith) refl refl refl entry_64
        | inr d ↦ elim (Bool-cases (type == 3)) [
          | inl y ↦
              Entry-plain e start size here type 3 4 Item.float (ground arith) refl refl refl
                entry_float
          | inr f ↦ elim (Bool-cases (type == 5)) [
            | inl y ↦
                Entry-plain e start size here type 5 4 Item.string (ground arith) refl refl refl
                  entry_string
            | inr g ↦ λ h k. absurd (ground arith)
          ]
        ]
      ]
    ]
  ]
]
  where
    entry_16 : IsEntry e 2 start 2 (Item.int16 ∷ [])
    entry_16 = record {
      bytes = append-nil _ ∙ append-nil _;
      total = refl;
      count = refl;
      only = λ q. cc;
    }

    entry_32 : IsEntry e 0 start 4 (Item.int32 ∷ [])
    entry_32 = record {
      bytes = append-nil _ ∙ append-nil _;
      total = refl;
      count = refl;
      only = λ q. cc;
    }

    entry_64 : IsEntry e 6 start 8 (Item.int64 ∷ [])
    entry_64 = record {
      bytes = append-nil _ ∙ append-nil _;
      total = refl;
      count = refl;
      only = λ q. cc;
    }

    entry_float : IsEntry e 3 start 4 (Item.float ∷ [])
    entry_float = record {
      bytes = append-nil _ ∙ append-nil _;
      total = refl;
      count = refl;
      only = λ q. cc;
    }

    entry_string : IsEntry e 5 start 4 (Item.string ∷ [])
    entry_string = record {
      bytes = append-nil _ ∙ append-nil _;
      total = refl;
      count = refl;
      only = λ q. cc;
    }

pub descriptor-bytes :
    (e : Endian) (bs : Bytes)
    → IsBytes bs
    → length bs ≡ 4
    → pack_endian e (2 ∷ 2 ∷ []) (from_endian e (take 2 bs) ∷ from_endian e (drop 2 bs) ∷ []) ≡ bs
unfolding pack_endian
descriptor-bytes e bs b h =
    let front : length (take 2 bs) ≡ 2 = rw length-take (omega arith) in
    let back : length (drop 2 bs) ≡ 2 = rw length-drop (omega arith) in
    rw
      (
        to_endian-from_endian e 2 (take 2 bs) (IsBytes-take 2 bs b) front,
        to_endian-from_endian e 2 (drop 2 bs) (IsBytes-drop 2 bs b) back,
        append-nil (drop 2 bs),
      )
      (take-append-drop 2 bs)

pub get_type_size-le : (type size : ℕ) → get_type_size type ≡ ok size → size ≤ 8
unfolding get_type_size
get_type_size-le type size h = ground arith

pub total_size-append : (xs ys : List Item) → total_size (xs ++ ys) ≡ total_size xs + total_size ys
total_size-append [] ys = omega arith
total_size-append (x ∷ xs) ys = omega (arith, total_size-append xs ys)
