-- ===== src/Gbnl/Strings/Placed.antt =====
-- After `Gbnl::RecalcSize` of src/format/gbnl.cpp, the strings that `Dump_` writes stand where the messages say.
use neptools.Prelude.{
  ℕ, ◌+◌, ◌^◌, ◌≤◌, ◌<◌, ◌≡◌, refl, sym, List, [], ◌∷◌, ◌++◌, arith, length, map, append-nil,
  append_assoc,
}
use mathlib.Core.Path.{subst}
use neptools.Prelude.Bytes.{Bytes}
use neptools.Gbnl.{Message, Gbnl}
use neptools.Gbnl.Strings.{
  Table, place_value, place_message, place_messages, no_strings, recalc_size, dump_string,
  dump_message_strings, dump_strings,
}
use neptools.Gbnl.Strings.Stands.{
  ValueStands, MessageStands, MessagesStand, message_bytes, messages_bytes, ValueStands-append,
  MessageStands-append,
}
use neptools.Gbnl.Strings.Wrote.{without_offset, IsTable, place_value-Wrote}

-- The same for a message.
record WroteMessage (area : Bytes) (m : Message) (t : Table) (m' : Message) (t' : Table)
    (w : Bytes × ℕ) : Type 0 where
  pub next : w.1 ≡ t'.offset
  pub table : IsTable (area ++ w.0) t'
  pub stands : MessageStands (area ++ w.0) m'
  pub kept : map without_offset m' ≡ map without_offset m
  pub bound : t'.offset ≤ t.offset + message_bytes m

place_message-Wrote :
    (area : Bytes) (m : Message) (t : Table)
    → IsTable area t
    → t.offset + message_bytes m < 2 ^ 32
    → WroteMessage area m t
        (place_message m t).0
        (place_message m t).1
        (dump_message_strings (place_message m t).0 t.offset)
unfolding place_message dump_message_strings
place_message-Wrote area [] t i h = record {
  next = refl;
  table = rw append-nil i;
  stands = tt;
  kept = refl;
  bound = omega arith;
}
place_message-Wrote area (v ∷ vs) t i h =
    let (v', t') = place_value v t in
    let w = dump_string v' t.offset in
    let q = place_value-Wrote area v t i (omega arith) in
    let r = place_message-Wrote (area ++ w.0) vs t' q.table (omega (arith, q.bound)) in
    let (vs', u) = place_message vs t' in
    let rest = dump_message_strings vs' t'.offset in
    let assoc = append_assoc area w.0 rest.0 in
    rw q.next (record {
      next = r.next;
      table = subst (λ a. IsTable a u) assoc r.table;
      stands = (
        subst (λ a. ValueStands a v') assoc (ValueStands-append (area ++ w.0) rest.0 v' q.stands),
        subst (λ a. MessageStands a vs') assoc r.stands,
      );
      kept = rw (q.kept, r.kept) refl;
      bound = omega (arith, q.bound, r.bound);
    })

record WroteMessages (area : Bytes) (ms : List Message) (t : Table) (ms' : List Message)
    (t' : Table) (w : Bytes × ℕ) : Type 0 where
  pub next : w.1 ≡ t'.offset
  pub table : IsTable (area ++ w.0) t'
  pub stands : MessagesStand (area ++ w.0) ms'
  pub kept : map (map without_offset) ms' ≡ map (map without_offset) ms
  pub bound : t'.offset ≤ t.offset + messages_bytes ms

place_messages-Wrote :
    (area : Bytes) (ms : List Message) (t : Table)
    → IsTable area t
    → t.offset + messages_bytes ms < 2 ^ 32
    → WroteMessages area ms t
        (place_messages ms t).0
        (place_messages ms t).1
        (dump_strings (place_messages ms t).0 t.offset)
unfolding place_messages dump_strings
place_messages-Wrote area [] t i h = record {
  next = refl;
  table = rw append-nil i;
  stands = tt;
  kept = refl;
  bound = omega arith;
}
place_messages-Wrote area (m ∷ ms) t i h =
    let (m', t') = place_message m t in
    let w = dump_message_strings m' t.offset in
    let q = place_message-Wrote area m t i (omega arith) in
    let r = place_messages-Wrote (area ++ w.0) ms t' q.table (omega (arith, q.bound)) in
    let (ms', u) = place_messages ms t' in
    let rest = dump_strings ms' t'.offset in
    let assoc = append_assoc area w.0 rest.0 in
    rw q.next (record {
      next = r.next;
      table = subst (λ a. IsTable a u) assoc r.table;
      stands = (
        subst (λ a. MessageStands a m') assoc
            (MessageStands-append (area ++ w.0) rest.0 m' q.stands),
        subst (λ a. MessagesStand a ms') assoc r.stands,
      );
      kept = rw (q.kept, r.kept) refl;
      bound = omega (arith, q.bound, r.bound);
    })

-- The strings of a table that was recalculated, with `w` what `Dump_` writes of them.
pub record StringsPlaced (g g' : Gbnl) (w : Bytes × ℕ) : Type 0 where
  pub counted : w.1 ≡ g'.msgs_size
  pub length_lem : length w.0 ≡ g'.msgs_size
  pub bound : g'.msgs_size ≤ messages_bytes g.messages
  pub stand : MessagesStand w.0 g'.messages
  pub kept : map (map without_offset) g'.messages ≡ map (map without_offset) g.messages

-- After `RecalcSize`, if all strings and their ends take less than 2^32 bytes: `Dump_` writes `msgs_size`
-- bytes of strings, as its assertion says; each string stands among them at its offset, with a zero
-- behind it; and the messages are the same but for the offsets of strings, and lack the same strings.
pub recalc_size-StringsPlaced :
    (g : Gbnl)
    → messages_bytes g.messages < 2 ^ 32
    → StringsPlaced g (recalc_size g) (dump_strings (recalc_size g).messages 0)
unfolding recalc_size
recalc_size-StringsPlaced g h =
    let q =
      place_messages-Wrote [] g.messages no_strings (record { stand = tt; end = refl })
        (omega arith) in
    record {
      counted = q.next;
      length_lem = sym q.table.end;
      bound = omega (arith, q.bound);
      stand = q.stands;
      kept = q.kept;
    }
