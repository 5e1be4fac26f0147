-- ===== src/Gbnl/Parse/Typed.antt =====
-- What `Gbnl::Parse_` of src/format/gbnl.cpp reads are structures of the type that it read.
use neptools.Prelude.{
  ℕ, zero, suc, ◌+◌, ◌-◌, ◌%◌, ◌^◌, ◌≤◌, ◌<◌, ◌≡◌, refl, ap, Bool, true, false, List, [], ◌∷◌, ◌++◌,
  ◌==◌, leb, ltb, if◌then◌else◌, length, map, arith, take, drop, length-drop, Bool-cases, inl, inr,
}
use mathlib.Core.Path.{subst}
use neptools.Prelude.Bytes.{Bytes}
use neptools.Prelude.Result.{
  Result, ok, ◌>>=◌, guard, decode_error, assertion, bind-eq-ok, ok-injective,
}
use neptools.Source.{Source, read, seek, pread_cstring}
use neptools.Source.Struct.{IsBytes-drop}
use neptools.Source.Consumed.{IsReadable, Consumed-IsReadable, read-Consumed}
use neptools.Endian.{Endian, from_endian, from_endian-lt}
use neptools.Gbnl.{Item, Value, Message, no_string}
use neptools.Gbnl.Types.{parse_types, pad, item_of, get_type_size, type_int8}
use neptools.Gbnl.Dump.Sizes.{HaveType, HaveRoom, HasRoom, value_item}
use neptools.Gbnl.Parse.{read_endian, read_string, read_value, read_message, read_messages}

-- The sizes that a parsed type can have.
abbrev IsSized : Item → Type 0
IsSized Item.int8 = Unit {0}
IsSized Item.int16 = Unit {0}
IsSized Item.int32 = Unit {0}
IsSized Item.int64 = Unit {0}
IsSized Item.float = Unit {0}
IsSized Item.string = Unit {0}
IsSized (Item.fix_string n) = (1 ≤ n) × (n ≤ 2 ^ 16)
IsSized (Item.padding n) = n ≤ 2 ^ 16

abbrev pub AreSized : List Item → Type 0
AreSized [] = Unit {0}
AreSized (i ∷ items) = IsSized i × AreSized items

AreSized-append : (xs ys : List Item) → AreSized xs → AreSized ys → AreSized (xs ++ ys)
AreSized-append [] ys h k = k
AreSized-append (x ∷ xs) ys h k = (h.0, AreSized-append xs ys h.1 k)

pad-AreSized : (diff : ℕ) (p : Bool) → diff < 2 ^ 16 → AreSized (pad diff p)
unfolding pad
pad-AreSized diff false h = elim (Bool-cases (diff == 0)) [
  | inl y ↦ rw y tt
  | inr n ↦ rw n (omega arith, tt)
]
pad-AreSized diff true h = elim (Bool-cases (leb diff 3)) [
  | inr n ↦ rw n ((omega arith, omega arith), tt)
  | inl y ↦ elim (Bool-cases (diff == 0)) [
    | inl z ↦ rw (y, z) (tt, tt)
    | inr z ↦ rw (y, z) (tt, (omega arith, tt))
  ]
]

-- A branch that adds `x`.
AreSized-branch :
    (b : Bool) (x here : List Item) (other : Result (List Item))
    → AreSized x
    → (other ≡ ok here → AreSized here)
    → (if b then ok x else other) ≡ ok here
    → AreSized here
AreSized-branch true x here other sized next h = subst AreSized (ok-injective h) sized
AreSized-branch false x here other sized next h = next h

item_of-AreSized : (type : ℕ) (here : List Item) → item_of type ≡ ok here → AreSized here
unfolding item_of
item_of-AreSized type here = AreSized-branch (type == 1) [] here _ tt (
    AreSized-branch (type == 2) (Item.int16 ∷ []) here _ (tt, tt)
      (AreSized-branch (type == 0) (Item.int32 ∷ []) here _ (tt, tt)
        (AreSized-branch (type == 6) (Item.int64 ∷ []) here _ (tt, tt)
          (AreSized-branch (type == 3) (Item.float ∷ []) here _ (tt, tt)
            (AreSized-branch (type == 5) (Item.string ∷ []) here _ (tt, tt) (λ h. absurd (cc)))))))

pub parse_types-AreSized :
    (e : Endian) (m n calc : ℕ) (p : Bool) (s t : Source) (items : List Item)
    → IsReadable s
    → parse_types e m n calc p s ≡ ok (items, t)
    → AreSized items × IsReadable t
unfolding parse_types
parse_types-AreSized e m zero calc p s t items r h =
    subst (λ x. AreSized x.0 × IsReadable x.1) (ok-injective h) (pad-AreSized _ p (omega arith), r)
parse_types-AreSized e m (suc n) calc p s t items r h =
    let ((bs, u), e₁, h₁) = bind-eq-ok (read 4 s) _ h in
    let type = from_endian e (take 2 bs) in
    let offset = from_endian e (drop 2 bs) in
    let (_, ordered, h₂) = bind-eq-ok (guard (leb calc offset) decode_error) _ h₁ in
    let (size, sized, h₃) = bind-eq-ok (get_type_size type) _ h₂ in
    let (here, made, h₄) = bind-eq-ok (item_of type) _ h₃ in
    let ((rest, v), e₂, h₅) =
      bind-eq-ok (parse_types e m n (offset + size) (type == type_int8) u) _ h₄ in
    let (c, b, len) = read-Consumed 4 s u bs r (omega arith) e₁ in
    let back : length (drop 2 bs) ≡ 2 = rw length-drop (omega arith) in
    let below : offset < 256 ^ 2 =
      rw back at (from_endian-lt e (drop 2 bs) (IsBytes-drop 2 bs b)) in
    let (all, readable) =
      parse_types-AreSized e m n (offset + size) (type == type_int8) u v rest
        (Consumed-IsReadable s u bs r c) e₂ in
    subst (λ x. AreSized x.0 × IsReadable x.1) (ok-injective h₅)
      (
        AreSized-append (pad (offset - calc) p) (here ++ rest)
            (pad-AreSized (offset - calc) p (omega arith))
            (AreSized-append here rest (item_of-AreSized type here made) all),
        readable,
      )

-- A value that was read for an item.
record IsRead (i : Item) (v : Value) (t : Source) : Type 0 where
  pub item : value_item v ≡ i
  pub room : HasRoom v
  pub readable : IsReadable t

read_endian-IsReadable :
    (e : Endian) (n x : ℕ) (s t : Source)
    → IsReadable s
    → n < 2 ^ 63
    → read_endian e n s ≡ ok (x, t)
    → IsReadable t
unfolding read_endian
read_endian-IsReadable e n x s t r small h =
    let ((bs, u), e₁, h₁) = bind-eq-ok (read n s) _ h in
    let (c, _, _) = read-Consumed n s u bs r small e₁ in
    subst (λ x. IsReadable x.1) (ok-injective h₁) (Consumed-IsReadable s u bs r c)

read_string-IsString :
    (o offs : ℕ) (s : Source) (v : Value)
    → read_string o offs s ≡ ok v
    → (value_item v ≡ Item.string) × HasRoom v
unfolding read_string
read_string-IsString o offs s v h = elim (Bool-cases (offs == no_string)) [
  | inl y ↦
      let h₀ = rw y at h in
      subst (λ v. (value_item v ≡ Item.string) × HasRoom v) (ok-injective h₀) (refl, tt)
  | inr n ↦
      let h₀ = rw n at h in
      let (_, _, h₁) =
        bind-eq-ok (guard (ltb offs ((s.size + 2 ^ 64 - o) % 2 ^ 64)) decode_error) _ h₀ in
      let (str, _, h₂) = bind-eq-ok (pread_cstring ((o + offs) % 2 ^ 32) s) _ h₁ in
      subst (λ v. (value_item v ≡ Item.string) × HasRoom v) (ok-injective h₂) (refl, tt)
]

-- An item whose value is one number.
IsRead-number :
    (e : Endian) (n : ℕ) (i : Item) (f : ℕ → Value) (s t : Source) (v : Value)
    → IsReadable s
    → n < 2 ^ 63
    → ((x : ℕ) → (value_item (f x) ≡ i) × HasRoom (f x))
    → ◌>>=◌ {W = Value × Source} (read_endian e n s) (λ r. ok (f r.0, r.1)) ≡ ok (v, t)
    → IsRead i v t
IsRead-number e n i f s t v r small typed h =
    let ((x, u), e₁, h₁) = bind-eq-ok (read_endian e n s) _ h in
    let readable = read_endian-IsReadable e n x s u r small e₁ in
    subst (λ x. IsRead i x.0 x.1) (ok-injective h₁)
      (record { item = (typed x).0; room = (typed x).1; readable = readable })

-- An item whose value is a block.
IsRead-block :
    (n : ℕ) (i : Item) (f : Bytes → Value) (s t : Source) (v : Value)
    → IsReadable s
    → n < 2 ^ 63
    → ((bs : Bytes) → length bs ≡ n → (value_item (f bs) ≡ i) × HasRoom (f bs))
    → ◌>>=◌ {W = Value × Source} (read n s) (λ r. ok (f r.0, r.1)) ≡ ok (v, t)
    → IsRead i v t
IsRead-block n i f s t v r small typed h =
    let ((bs, u), e₁, h₁) = bind-eq-ok (read n s) _ h in
    let (c, _, len) = read-Consumed n s u bs r small e₁ in
    subst (λ x. IsRead i x.0 x.1) (ok-injective h₁)
      (record {
        item = (typed bs len).0;
        room = (typed bs len).1;
        readable = Consumed-IsReadable s u bs r c;
      })

read_value-IsRead :
    (e : Endian) (o : ℕ) (i : Item) (s t : Source) (v : Value)
    → IsReadable s
    → IsSized i
    → read_value e o i s ≡ ok (v, t)
    → IsRead i v t
unfolding read_value
read_value-IsRead e o Item.int8 s t v r k h =
    IsRead-number e 1 Item.int8 (λ x. Value.int8 x) s t v r (omega arith) (λ x. (refl, tt)) h
read_value-IsRead e o Item.int16 s t v r k h =
    IsRead-number e 2 Item.int16 (λ x. Value.int16 x) s t v r (omega arith) (λ x. (refl, tt)) h
read_value-IsRead e o Item.int32 s t v r k h =
    IsRead-number e 4 Item.int32 (λ x. Value.int32 x) s t v r (omega arith) (λ x. (refl, tt)) h
read_value-IsRead e o Item.int64 s t v r k h =
    IsRead-number e 8 Item.int64 (λ x. Value.int64 x) s t v r (omega arith) (λ x. (refl, tt)) h
read_value-IsRead e o Item.float s t v r k h =
    IsRead-number e 4 Item.float (λ x. Value.float x) s t v r (omega arith) (λ x. (refl, tt)) h
read_value-IsRead e o Item.string s t v r k h =
    let ((offs, u), e₁, h₁) = bind-eq-ok (read_endian e 4 s) _ h in
    let (w, e₂, h₂) = bind-eq-ok (read_string o offs u) _ h₁ in
    let readable = read_endian-IsReadable e 4 offs s u r (omega arith) e₁ in
    let (item, room) = read_string-IsString o offs u w e₂ in
    subst (λ x. IsRead Item.string x.0 x.1) (ok-injective h₂)
      (record { item = item; room = room; readable = readable })
read_value-IsRead e o (Item.fix_string n) s t v r k h =
    IsRead-block n (Item.fix_string n) (λ bs. Value.fix_string bs) s t v r (omega (arith, k.1))
      (λ bs len. (ap Item.fix_string len, omega (arith, len, k.0))) h
read_value-IsRead e o (Item.padding n) s t v r k h =
    IsRead-block n (Item.padding n) (λ bs. Value.padding bs) s t v r (omega (arith, k))
      (λ bs len. (ap Item.padding len, tt)) h

read_message-HasType :
    (e : Endian) (o : ℕ) (items : List Item) (s t : Source) (m : Message)
    → IsReadable s
    → AreSized items
    → read_message e o items s ≡ ok (m, t)
    → (map value_item m ≡ items) × HaveRoom m × IsReadable t
unfolding read_message
read_message-HasType e o [] s t m r k h =
    subst (λ x. (map value_item x.0 ≡ []) × HaveRoom x.0 × IsReadable x.1) (ok-injective h)
      (refl, tt, r)
read_message-HasType e o (i ∷ items) s t m r k h =
    let ((v, u), e₁, h₁) = bind-eq-ok (read_value e o i s) _ h in
    let ((vs, w), e₂, h₂) = bind-eq-ok (read_message e o items u) _ h₁ in
    let q = read_value-IsRead e o i s u v r k.0 e₁ in
    let (rest, room, readable) = read_message-HasType e o items u w vs q.readable k.1 e₂ in
    subst (λ x. (map value_item x.0 ≡ i ∷ items) × HaveRoom x.0 × IsReadable x.1) (ok-injective h₂)
      (rw (q.item, rest) refl, (q.room, room), readable)

pub seek-IsReadable : (pos : ℕ) (s t : Source) → IsReadable s → seek pos s ≡ ok t → IsReadable t
unfolding seek
seek-IsReadable pos s t r h =
    let (_, inside, h₁) = bind-eq-ok (guard (leb pos s.size) assertion) _ h in
    subst IsReadable (ok-injective h₁) (record {
      window = record { fits = r.window.fits; addressable = r.window.addressable };
      bytes = r.bytes;
      in_window = ground arith;
      small = r.small;
    })

pub read_messages-HaveType :
    (e : Endian) (o size : ℕ) (items : List Item) (count msgs : ℕ) (s : Source) (ms : List Message)
    → IsReadable s
    → AreSized items
    → read_messages e o size items count msgs s ≡ ok ms
    → HaveType items ms × (length ms ≡ count)
unfolding read_messages
read_messages-HaveType e o size items zero msgs s ms r k h =
    subst (λ x. HaveType items x × (length x ≡ 0)) (ok-injective h) (tt, refl)
read_messages-HaveType e o size items (suc count) msgs s ms r k h =
    let (t, e₁, h₁) = bind-eq-ok (seek msgs s) _ h in
    let ((m, u), e₂, h₂) = bind-eq-ok (read_message e o items t) _ h₁ in
    let next = (msgs + size) % 2 ^ 32 in
    let (rest, e₃, h₃) = bind-eq-ok (read_messages e o size items count next u) _ h₂ in
    let (typed, room, readable) =
      read_message-HasType e o items t u m (seek-IsReadable msgs s t r e₁) k e₂ in
    let (all, len) = read_messages-HaveType e o size items count next u rest readable k e₃ in
    subst (λ x. HaveType items x × (length x ≡ suc count)) (ok-injective h₃)
      (((typed, room), all), ap suc len)
