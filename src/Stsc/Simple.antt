-- ===== src/Stsc/Simple.antt =====
-- `SimpleInstruction` and the `Traits` of its arguments, src/format/stsc/instruction.cpp.
pub mod RoundTrip
use neptools.Prelude.{
  ℕ, ◌+◌, ◌-◌, ◌%◌, ◌^◌, Bool, true, false, ◌&&◌, ◌||◌, Option, none, some, List, [], ◌∷◌, ◌++◌,
  map, ltb, leb, ◌==◌, if◌then◌else◌,
}
use neptools.Prelude.Bytes.{Bytes}
use neptools.Prelude.Result.{Result, ok, err, ◌>>=◌, ◌>>◌, guard, assertion, decode_error}
use neptools.Prelude.Text.{codes}
use neptools.Source.{Source, check_size, sub_source, pread_cstring}
use neptools.Source.Struct.{read_gen, pack, struct_size}
use neptools.Context.{
  Context, ItemPointer, get_label_to, get_label_to_named, get_pointer, sum_sizes, deref_pos,
}
use neptools.Stsc.Kind.{ArgType, uint8, uint16, uint32, float, pointer, str, code, arg_size}

-- `isalnum` in the "C" locale.
abbrev isalnum : ℕ → Bool
isalnum c = leb 48 c && leb c 57 || leb 65 c && leb c 90 || leb 97 c && leb c 122

-- The loop of `CStringItem::GetLabelName`.
unfoldable pub label_chars : ℕ → Bool → Bytes → Bytes
label_chars optr last_valid [] = []
label_chars optr last_valid (c ∷ cs) = elim (leb 16 optr) [
  | true ↦ []
  | false ↦ elim (isalnum c) [
    | true ↦ c ∷ label_chars (optr + 1) true cs
    | false ↦ elim last_valid [
      | true ↦ b'_' ∷ label_chars (optr + 1) false cs
      | false ↦ label_chars optr false cs
    ]
  ]
]

-- `CStringItem::GetLabelName`
unfoldable pub label_name : Bytes → Bytes
unfolding label_chars
label_name string = codes "str_" ++ label_chars 0 false string

-- `RawItem::GetSource(ptr, -1)`, of a raw item that holds `src`.
unfoldable pub get_source : Source → ℕ → Result Source
get_source src offset = do
  guard (leb offset src.size) assertion
  sub_source src offset (src.size - offset)

-- An argument: a number, the bits of a float, or a label or null.
pub data Arg : Type 0 where
  int : ℕ → Arg
  label : Option Bytes → Arg

-- `Traits<T>::Validate`
unfoldable pub validate_arg : ArgType → ℕ → ℕ → Result (Unit {0})
validate_arg uint8 r size = ok tt
validate_arg uint16 r size = ok tt
validate_arg uint32 r size = ok tt
validate_arg float r size = ok tt
validate_arg pointer r size = guard (leb r size) decode_error
validate_arg str r size = guard (leb r size) decode_error
validate_arg code r size = guard (leb r size) decode_error

unfoldable pub some_label : Bytes × Context → Result (Arg × Context)
some_label (l, c) = ok (label (some l), c)

-- `Traits<void*>::Parse`
unfoldable pub parse_pointer : ℕ → Context → Result (Arg × Context)
unfolding some_label
parse_pointer r c =
    let found = get_label_to r c in if r == 0 then ok (label none, c) else found >>= some_label

-- The two branches of `Traits<std::string>::Parse`, by what the item at the position holds.
unfoldable pub parse_at : Option Source → ℕ → ℕ → Context → Result (Arg × Context)
unfolding some_label
parse_at none offset r c = get_label_to r c >>= some_label
parse_at (some src) offset r c = do
  x ← get_source src offset
  string ← pread_cstring 0 x
  get_label_to_named r (label_name string) c >>= some_label

-- `raws` tells which items are raw items, and what they hold.
module _ (raws : ℕ → Option Source) where
  -- `Traits<std::string>::Parse` of a position that is not zero.
  unfoldable pub parse_named : ℕ → Context → Result (Arg × Context)
  unfolding parse_at
  parse_named r c = do ptr ← get_pointer r c; parse_at (raws ptr.item) ptr.offset r c

  -- `Traits<T>::Parse`
  unfoldable pub parse_arg : ArgType → ℕ → Context → Result (Arg × Context)
  unfolding parse_pointer parse_named
  parse_arg uint8 r c = ok (int r, c)
  parse_arg uint16 r c = ok (int r, c)
  parse_arg uint32 r c = ok (int r, c)
  parse_arg float r c = ok (int r, c)
  parse_arg pointer r c = parse_pointer r c
  parse_arg str r c = let named = parse_named r c in if r == 0 then ok (label none, c) else named
  parse_arg code r c = parse_pointer r c

  -- `Operations::Parse`; the raw tuple has as many fields as there are types.
  unfoldable pub parse_args : List ArgType → List ℕ → Context → Result (List Arg × Context)
  unfolding parse_arg
  parse_args [] xs c = ok ([], c)
  parse_args (ty ∷ types) [] c = err assertion
  parse_args (ty ∷ types) (x ∷ xs) c = do
    (a, c₁) ← parse_arg ty x c
    (others, c₂) ← parse_args types xs c₁
    ok (a ∷ others, c₂)

-- `Operations::Validate`
unfoldable pub validate_args : List ArgType → List ℕ → ℕ → Result (Unit {0})
unfolding validate_arg
validate_args [] xs size = ok tt
validate_args (ty ∷ types) [] size = err assertion
validate_args (ty ∷ types) (x ∷ xs) size = validate_arg ty x size >> validate_args types xs size

abbrev pub arg_sizes : List ArgType → List ℕ
arg_sizes types = map arg_size types

-- `SimpleInstruction::Parse_`, behind the opcode.
unfoldable pub parse_simple :
    (ℕ → Option Source) → List ArgType → Context → Source → Result (List Arg × (Context × Source))
unfolding parse_args validate_args
parse_simple raws types c s = do
  check_size (struct_size (arg_sizes types) + 1) s
  (xs, s₁) ← read_gen (arg_sizes types) s
  validate_args types xs (sum_sizes c.children)
  (args, c₁) ← parse_args raws types xs c
  ok (args, (c₁, s₁))

-- `Traits<T>::Dump`: a label's position is cut to 32 bits.
unfoldable pub dump_arg : Context → ArgType → Arg → Result ℕ
dump_arg c ty (int n) = ok (n % 256 ^ arg_size ty)
dump_arg c ty (label none) = ok 0
dump_arg c ty (label (some l)) = do pos ← deref_pos c l; ok (pos % 2 ^ 32)

-- `Operations::Dump`
unfoldable pub dump_args : Context → List ArgType → List Arg → Result (List ℕ)
unfolding dump_arg
dump_args c [] others = ok []
dump_args c (ty ∷ types) [] = err assertion
dump_args c (ty ∷ types) (a ∷ others) = do
  x ← dump_arg c ty a
  xs ← dump_args c types others
  ok (x ∷ xs)

-- `SimpleInstruction::Dump_`, behind the opcode.
unfoldable pub dump_simple : Context → List ArgType → List Arg → Result Bytes
unfolding dump_args
dump_simple c types args = do xs ← dump_args c types args; ok (pack (arg_sizes types) xs)
