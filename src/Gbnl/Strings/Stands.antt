-- ===== src/Gbnl/Strings/Stands.antt =====
-- A string that stands at an offset among the strings that `Gbnl::Dump_` of src/format/gbnl.cpp writes.
use neptools.Prelude.{
  ℕ, zero, suc, ◌+◌, ◌≤◌, ◌≡◌, refl, sym, ap, ◌∙◌, some, List, [], ◌∷◌, ◌++◌, arith, length, take,
  drop, map, append-nil, length-append, Bool-cases, inl, inr, ◌⊎◌,
}
use neptools.Prelude.Bytes.{Bytes}
use neptools.Prelude.Text.{str_eq, str_eq_iff}
use neptools.Prelude.Slices.{take-append, drop-append}
use neptools.Gbnl.{Value, Message, no_string}
use neptools.Gbnl.Strings.{find_string}

-- `str` and its end stand in `area` at `o`.
abbrev pub StandsAt : Bytes → Bytes → ℕ → Type 0
StandsAt area str o =
    (take (length str + 1) (drop o area) ≡ str ++ (0 ∷ [])) × (o + (length str + 1) ≤ length area)

-- Each string of the table stands at its offset.
abbrev pub AllStand : Bytes → List (Bytes × ℕ) → Type 0
AllStand area [] = Unit {0}
AllStand area ((s, o) ∷ map) = StandsAt area s o × AllStand area map

-- Each string that is there stands at its offset.
abbrev pub ValueStands : Bytes → Value → Type 0
ValueStands area (Value.string str o) = (o ≡ no_string) ⊎ StandsAt area str o
ValueStands area (Value.int8 x) = Unit {0}
ValueStands area (Value.int16 x) = Unit {0}
ValueStands area (Value.int32 x) = Unit {0}
ValueStands area (Value.int64 x) = Unit {0}
ValueStands area (Value.float x) = Unit {0}
ValueStands area (Value.fix_string bs) = Unit {0}
ValueStands area (Value.padding bs) = Unit {0}

abbrev pub MessageStands : Bytes → Message → Type 0
MessageStands area [] = Unit {0}
MessageStands area (v ∷ vs) = ValueStands area v × MessageStands area vs

abbrev pub MessagesStand : Bytes → List Message → Type 0
MessagesStand area [] = Unit {0}
MessagesStand area (m ∷ ms) = MessageStands area m × MessagesStand area ms

-- The bytes that the strings of a message can take.
abbrev pub value_bytes : Value → ℕ
value_bytes (Value.string str o) = length str + 1
value_bytes (Value.int8 x) = 0
value_bytes (Value.int16 x) = 0
value_bytes (Value.int32 x) = 0
value_bytes (Value.int64 x) = 0
value_bytes (Value.float x) = 0
value_bytes (Value.fix_string bs) = 0
value_bytes (Value.padding bs) = 0

abbrev pub message_bytes : Message → ℕ
message_bytes [] = 0
message_bytes (v ∷ vs) = value_bytes v + message_bytes vs

abbrev pub messages_bytes : List Message → ℕ
messages_bytes [] = 0
messages_bytes (m ∷ ms) = message_bytes m + messages_bytes ms

-- A block inside the front of an append.
take-append_left : (n : ℕ) (xs ys : Bytes) → n ≤ length xs → take n (xs ++ ys) ≡ take n xs
take-append_left zero xs ys h = refl
take-append_left (suc n) [] ys h = absurd (omega arith)
take-append_left (suc n) (x ∷ xs) ys h = ap (◌∷◌ x) (take-append_left n xs ys (omega arith))

drop-append_left : (n : ℕ) (xs ys : Bytes) → n ≤ length xs → drop n (xs ++ ys) ≡ drop n xs ++ ys
drop-append_left zero xs ys h = refl
drop-append_left (suc n) [] ys h = absurd (omega arith)
drop-append_left (suc n) (x ∷ xs) ys h = drop-append_left n xs ys (omega arith)

length-drop_le : (n k : ℕ) (xs : Bytes) → n + k ≤ length xs → k ≤ length (drop n xs)
length-drop_le zero k xs h = omega arith
length-drop_le (suc n) k [] h = absurd (omega arith)
length-drop_le (suc n) k (x ∷ xs) h = length-drop_le n k xs (omega arith)

pub StandsAt-append :
    (area more str : Bytes) (o : ℕ) → StandsAt area str o → StandsAt (area ++ more) str o
StandsAt-append area more str o h = (
  ap (take (length str + 1)) (drop-append_left o area more (omega (arith, h.1)))
      ∙ take-append_left (length str + 1) (drop o area) more
          (length-drop_le o (length str + 1) area h.1)
      ∙ h.0,
  omega (arith, length-append area more, h.1),
)

-- A string that is written next.
pub StandsAt-next : (area str : Bytes) → StandsAt (area ++ (str ++ (0 ∷ []))) str (length area)
StandsAt-next area str =
    let len : length (str ++ (0 ∷ [])) ≡ length str + 1 = length-append str (0 ∷ []) in
    (
      ap (take (length str + 1)) (drop-append area (str ++ (0 ∷ [])))
          ∙ ap (λ n. take n (str ++ (0 ∷ []))) (sym len)
          ∙ ap (take (length (str ++ (0 ∷ [])))) (sym (append-nil (str ++ (0 ∷ []))))
          ∙ take-append (str ++ (0 ∷ [])) [],
      omega (arith, length-append area (str ++ (0 ∷ [])), len),
    )

pub AllStand-append :
    (area more : Bytes) (map : List (Bytes × ℕ)) → AllStand area map → AllStand (area ++ more) map
AllStand-append area more [] h = tt
AllStand-append area more ((s, o) ∷ map) h =
    (StandsAt-append area more s o h.0, AllStand-append area more map h.1)

pub find_string-StandsAt :
    (area str : Bytes) (map : List (Bytes × ℕ)) (o : ℕ)
    → AllStand area map
    → find_string str map ≡ some o
    → StandsAt area str o
unfolding find_string
find_string-StandsAt area str [] o h f = cc
find_string-StandsAt area str ((s, k) ∷ map) o h f = elim (Bool-cases (str_eq s str)) [
  | inl y ↦
      let same : s ≡ str = (str_eq_iff s str).0 y in
      let there : k ≡ o = ground arith in rw (← same, ← there) h.0
  | inr n ↦ find_string-StandsAt area str map o h.1 (ground arith)
]

pub ValueStands-append :
    (area more : Bytes) (v : Value) → ValueStands area v → ValueStands (area ++ more) v
ValueStands-append area more (Value.string str o) (inl e) = inl e
ValueStands-append area more (Value.string str o) (inr h) = inr (StandsAt-append area more str o h)
ValueStands-append area more (Value.int8 x) h = tt
ValueStands-append area more (Value.int16 x) h = tt
ValueStands-append area more (Value.int32 x) h = tt
ValueStands-append area more (Value.int64 x) h = tt
ValueStands-append area more (Value.float x) h = tt
ValueStands-append area more (Value.fix_string bs) h = tt
ValueStands-append area more (Value.padding bs) h = tt

pub MessageStands-append :
    (area more : Bytes) (m : Message) → MessageStands area m → MessageStands (area ++ more) m
MessageStands-append area more [] h = tt
MessageStands-append area more (v ∷ vs) h =
    (ValueStands-append area more v h.0, MessageStands-append area more vs h.1)
