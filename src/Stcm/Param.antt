-- ===== src/Stcm/Param.antt =====
-- src/format/stcm/instruction.cpp: the parameters of an instruction, as three raw words
-- (`Parameter`) and decoded (`Param`, `Param48`).
mod Words48
pub mod RoundTrip
use neptools.Prelude.{
  ℕ, ◌+◌, ◌-◌, ◌%◌, ◌^◌, Bool, true, false, ◌&&◌, ◌||◌, ltb, leb, ◌==◌, if◌then◌else◌,
}
use neptools.Prelude.Bytes.{Bytes}
use neptools.Prelude.Result.{Error, decode_error, assertion, Result, ok, err, ◌>>=◌, ◌>>◌, guard}
use neptools.Context.{Context, get_label_to, deref_pos, sum_sizes}
use neptools.Stcm.Word.{type_tag, value, tag, is_read_stack, is_read_4ac}
use neptools.Stcm.Word.Special
use neptools.Stcm.Word.Tag

pub record Parameter : Type 0 where
  pub param_0 : ℕ
  pub param_4 : ℕ
  pub param_8 : ℕ

-- `InstructionItem::Param48::Variant`
pub data Param48 : Type 0 where
  mem_offset : Bytes → Param48
  immediate : ℕ → Param48
  indirect : ℕ → Param48
  read_stack : ℕ → Param48
  read_4ac : ℕ → Param48

-- `InstructionItem::Param::Variant`, with `MemOffset` and `Indirect` taken apart.
pub data Param : Type 0 where
  mem_offset : Bytes → Param48 → Param48 → Param
  indirect : ℕ → Param48 → Param
  read_stack : ℕ → Param
  read_4ac : ℕ → Param
  instr_ptr0 : Bytes → Param
  instr_ptr1 : Bytes → Param
  coll_link : Bytes → Param
  expansion : Bytes → Param

-- `Param48Validate`
unfoldable pub validate48 : ℕ → ℕ → Result (Unit {0})
validate48 param file_size =
    if type_tag param == Tag.mem_offset
    then guard (ltb ((value param + 16) % 2 ^ 32) file_size) decode_error
    else if type_tag param == Tag.immediate || type_tag param == Tag.indirect
    then ok tt
    else guard (is_read_stack param || is_read_4ac param) decode_error

-- `VALIDATE(param_4 == 0x40000000)`
abbrev unused : ℕ
unused = 0x40000000

abbrev validate_is : ℕ → ℕ → Result (Unit {0})
validate_is x y = guard (x == y) decode_error

unfoldable pub validate_special : Parameter → ℕ → Result (Unit {0})
validate_special p file_size =
    if is_read_stack p.param_0 || is_read_4ac p.param_0
    then validate_is p.param_4 unused >> validate_is p.param_8 unused
    else if p.param_0 == Special.instr_ptr0 || p.param_0 == Special.instr_ptr1
    then guard (ltb p.param_4 file_size) decode_error >> validate_is p.param_8 unused
    else if p.param_0 == Special.coll_link
    then guard (ltb ((p.param_4 + 8) % 2 ^ 32) file_size) decode_error >> validate_is p.param_8 0
    else if p.param_0 == Special.expansion
    then guard (ltb ((p.param_4 + 80) % 2 ^ 32) file_size) decode_error >> validate_is p.param_8 0
    else err decode_error

-- `Parameter::Validate`
unfoldable pub validate : Parameter → ℕ → Result (Unit {0})
validate p file_size =
    if type_tag p.param_0 == Tag.mem_offset
    then guard (ltb (value p.param_0) file_size) decode_error
      >> validate48 p.param_4 file_size
      >> validate48 p.param_8 file_size
    else if type_tag p.param_0 == Tag.indirect
    then guard (ltb (value p.param_0) 256 && p.param_4 == unused) decode_error
      >> validate48 p.param_8 file_size
    else if type_tag p.param_0 == Tag.special
    then validate_special p file_size
    else err decode_error

-- A label to a file position, put under a constructor.
abbrev labelled {ℓ} : {A : Type ℓ} → (Bytes → A) → ℕ → Context → Result (A × Context)
labelled make pos c = do (l, c') ← get_label_to pos c; ok (make l, c')

-- `Param48::GetVariant`
unfoldable pub get_variant48 : ℕ → Context → Result (Param48 × Context)
get_variant48 x c =
    if type_tag x == Tag.mem_offset
    then labelled Param48.mem_offset (value x) c
    else if type_tag x == Tag.immediate
    then ok (Param48.immediate (value x), c)
    else if type_tag x == Tag.indirect
    then ok (Param48.indirect (value x), c)
    else if is_read_stack x
    then ok (Param48.read_stack (x - Special.read_stack_min), c)
    else if is_read_4ac x
    then ok (Param48.read_4ac (x - Special.read_4ac_min), c)
    else err assertion

unfoldable pub get_special : Parameter → Context → Result (Param × Context)
get_special p c =
    if is_read_stack p.param_0
    then ok (Param.read_stack (p.param_0 - Special.read_stack_min), c)
    else if is_read_4ac p.param_0
    then ok (Param.read_4ac (p.param_0 - Special.read_4ac_min), c)
    else if p.param_0 == Special.instr_ptr0
    then labelled Param.instr_ptr0 p.param_4 c
    else if p.param_0 == Special.instr_ptr1
    then labelled Param.instr_ptr1 p.param_4 c
    else if p.param_0 == Special.coll_link
    then labelled Param.coll_link p.param_4 c
    else if p.param_0 == Special.expansion
    then labelled Param.expansion p.param_4 c
    else err assertion

unfoldable pub get_mem_offset : Parameter → Context → Result (Param × Context)
get_mem_offset p c = do
  (l, c₁) ← get_label_to (value p.param_0) c
  (v4, c₂) ← get_variant48 p.param_4 c₁
  (v8, c₃) ← get_variant48 p.param_8 c₂
  ok (Param.mem_offset l v4 v8, c₃)

unfoldable pub get_indirect : Parameter → Context → Result (Param × Context)
get_indirect p c = do
  (v8, c') ← get_variant48 p.param_8 c
  ok (Param.indirect (value p.param_0) v8, c')

-- `Param::GetVariant` behind its call of `Validate`.
unfoldable pub variant_of : Parameter → Context → Result (Param × Context)
variant_of p c =
    if type_tag p.param_0 == Tag.mem_offset
    then get_mem_offset p c
    else if type_tag p.param_0 == Tag.indirect
    then get_indirect p c
    else if type_tag p.param_0 == Tag.special
    then get_special p c
    else err assertion

-- `Param::GetVariant`
unfoldable pub get_variant : Parameter → Context → Result (Param × Context)
get_variant p c = do validate p (sum_sizes c.children); variant_of p c

-- `Param48::Dump`
unfoldable pub dump48 : Context → Param48 → Result ℕ
dump48 c (Param48.mem_offset l) = do pos ← deref_pos c l; ok (tag Tag.mem_offset pos)
dump48 c (Param48.immediate x) = ok (tag Tag.immediate x)
dump48 c (Param48.indirect x) = ok (tag Tag.indirect x)
dump48 c (Param48.read_stack x) = ok ((Special.read_stack_min + x) % 2 ^ 32)
dump48 c (Param48.read_4ac x) = ok ((Special.read_4ac_min + x) % 2 ^ 32)

abbrev dump_ptr : Context → Bytes → ℕ → ℕ → Result Parameter
dump_ptr c l kind last = do
  pos ← deref_pos c l
  ok (record { param_0 = kind; param_4 = pos % 2 ^ 32; param_8 = last })

abbrev dump_read : ℕ → ℕ → Result Parameter
dump_read min x = ok (record { param_0 = (min + x) % 2 ^ 32; param_4 = unused; param_8 = unused })

-- The words that `Param::Dump` writes.
unfoldable pub dump : Context → Param → Result Parameter
dump c (Param.mem_offset l p4 p8) = do
  pos ← deref_pos c l
  w4 ← dump48 c p4
  w8 ← dump48 c p8
  ok (record { param_0 = tag Tag.mem_offset pos; param_4 = w4; param_8 = w8 })
dump c (Param.indirect x p8) = do
  w8 ← dump48 c p8
  ok (record { param_0 = tag Tag.indirect x; param_4 = unused; param_8 = w8 })
dump c (Param.read_stack x) = dump_read Special.read_stack_min x
dump c (Param.read_4ac x) = dump_read Special.read_4ac_min x
dump c (Param.instr_ptr0 l) = dump_ptr c l Special.instr_ptr0 unused
dump c (Param.instr_ptr1 l) = dump_ptr c l Special.instr_ptr1 unused
dump c (Param.coll_link l) = dump_ptr c l Special.coll_link 0
dump c (Param.expansion l) = dump_ptr c l Special.expansion 0
