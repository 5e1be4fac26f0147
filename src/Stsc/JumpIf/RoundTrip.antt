-- ===== src/Stsc/JumpIf/RoundTrip.antt =====
-- `InstructionJumpIfItem` of src/format/stsc/instruction.cpp is dumped as it was read.
use neptools.Prelude.{
  refl, ℕ, zero, suc, ◌*◌, ◌%◌, ◌^◌, ◌<◌, ◌≡◌, ap, arith, List, [], ◌∷◌, ◌++◌, length,
}
use mathlib.Core.Path.{subst}
use neptools.Prelude.Result.{ok, bind-eq-ok, ok-injective}
use neptools.Source.{Source, check_remaining_size, get_remaining_size}
use neptools.Source.Struct.{read_gen, pack, AreFields}
use neptools.Source.Consumed.{
  IsReadable, Consumed, Consumed-refl, Consumed-append, Consumed-IsReadable, read_gen-Consumed,
}
use neptools.Context.{Context, get_label_to, sum_sizes}
use neptools.Context.Labels.{UniqueNames, get_label_to-Labelled, deref_pos-Grows}
use neptools.Stsc.JumpIf.{
  Node, FixParams, JumpIf, fix_sizes, node_sizes, to_fix, to_node, validate_fix, validate_node,
  parse_nodes, parse_jump_if, node_fields, dump_nodes, dump_jump_if,
}
use neptools.Stsc.Reproduced.{IsReproduced}

to_fix_lem : (xs : List ℕ) (fp : FixParams) → to_fix xs ≡ ok fp → xs ≡ fp.fix_size ∷ fp.tgt ∷ []
unfolding to_fix
to_fix_lem [] fp e = cc
to_fix_lem (a ∷ []) fp e = cc
to_fix_lem (a ∷ b ∷ []) fp e = cc
to_fix_lem (a ∷ b ∷ c ∷ xs) fp e = cc

to_node_lem :
    (xs : List ℕ) (nd : Node)
    → to_node xs ≡ ok nd
    → xs ≡ nd.operation ∷ nd.node_value ∷ nd.left ∷ nd.right ∷ []
unfolding to_node
to_node_lem [] nd e = cc
to_node_lem (a ∷ []) nd e = cc
to_node_lem (a ∷ b ∷ []) nd e = cc
to_node_lem (a ∷ b ∷ c ∷ []) nd e = cc
to_node_lem (a ∷ b ∷ c ∷ d ∷ []) nd e = cc
to_node_lem (a ∷ b ∷ c ∷ d ∷ f ∷ xs) nd e = cc

fix-Consumed :
    (s t : Source) (xs : List ℕ) (fp : FixParams)
    → IsReadable s
    → read_gen fix_sizes s ≡ ok (xs, t)
    → to_fix xs ≡ ok fp
    → Consumed s (pack fix_sizes (fp.fix_size ∷ fp.tgt ∷ [])) t
      × (fp.fix_size < 2 ^ 16)
      × (fp.tgt < 2 ^ 32)
fix-Consumed s t xs fp w h e =
    let (c, f) = read_gen-Consumed fix_sizes s t xs w (omega arith) h in
    let fields = to_fix_lem xs fp e in
    let f' : AreFields fix_sizes (fp.fix_size ∷ fp.tgt ∷ []) = rw fields at f in
    (rw fields at c, omega (arith, f'.0), omega (arith, f'.1.0))

node-Consumed :
    (s t : Source) (xs : List ℕ) (nd : Node)
    → IsReadable s
    → read_gen node_sizes s ≡ ok (xs, t)
    → to_node xs ≡ ok nd
    → Consumed s (pack node_sizes (node_fields nd)) t
node-Consumed s t xs nd w h e =
    let (c, f) = read_gen-Consumed node_sizes s t xs w (omega arith) h in
    let fields = to_node_lem xs nd e in
    let f' : AreFields node_sizes (nd.operation ∷ nd.node_value ∷ nd.left ∷ nd.right ∷ []) =
      rw fields at f in
    let left : nd.left % 2 ^ 16 ≡ nd.left = omega (arith, f'.1.1.0) in
    let right : nd.right % 2 ^ 16 ≡ nd.right = omega (arith, f'.1.1.1.0) in
    rw (left, right) (rw fields at c)

-- The nodes that the loop read.
record AreNodes (s : Source) (n : ℕ) (r : List Node × Source) : Type 0 where
  pub consumed : Consumed s (dump_nodes r.0) r.1
  pub count : length r.0 ≡ n

parse_nodes-AreNodes :
    (size n : ℕ) (s : Source) (r : List Node × Source)
    → IsReadable s
    → parse_nodes size n s ≡ ok r
    → AreNodes s n r
unfolding parse_nodes dump_nodes
parse_nodes-AreNodes size zero s r w h =
    subst (AreNodes s 0) (ok-injective h) (record { consumed = Consumed-refl s w; count = refl })
parse_nodes-AreNodes size (suc n) s r w h =
    let ((xs, s₁), e₁, h₁) = bind-eq-ok (read_gen node_sizes s) _ h in
    let (nd, e₂, h₂) = bind-eq-ok (to_node xs) _ h₁ in
    let (o, e₃, h₃) = bind-eq-ok (validate_node nd size) _ h₂ in
    let ((nds, s₂), e₄, h₄) = bind-eq-ok (parse_nodes size n s₁) _ h₃ in
    let bytes = pack node_sizes (node_fields nd) in
    let taken = node-Consumed s s₁ xs nd w e₁ e₂ in
    let rest =
      parse_nodes-AreNodes size n s₁ (nds, s₂) (Consumed-IsReadable s s₁ bytes w taken) e₄ in
    subst (AreNodes s (suc n)) (ok-injective h₄) (record {
      consumed = Consumed-append s s₁ s₂ bytes (dump_nodes nds) taken rest.consumed;
      count = ap suc rest.count;
    })

-- If `InstructionJumpIfItem::Parse_` accepts what stands behind an opcode, then `Dump_` writes the same
-- bytes behind the opcode, in the context that it leaves and in every one that this may grow to.
pub parse_jump_if-IsReproduced :
    (c : Context) (s : Source) (i : JumpIf) (c' : Context) (s' : Source)
    → IsReadable s
    → UniqueNames c.labels
    → parse_jump_if c s ≡ ok (i, (c', s'))
    → IsReproduced (λ later. dump_jump_if later i) c s c' s'
unfolding parse_jump_if dump_jump_if
parse_jump_if-IsReproduced c s i c' s' w u h =
    let (o, e₀, h₀) = bind-eq-ok (check_remaining_size 6 s) _ h in
    let ((xs, s₁), e₁, h₁) = bind-eq-ok (read_gen fix_sizes s) _ h₀ in
    let (fp, e₂, h₂) = bind-eq-ok (to_fix xs) _ h₁ in
    let (p, e₃, h₃) =
      bind-eq-ok (validate_fix fp (get_remaining_size s₁) (sum_sizes c.children)) _ h₂ in
    let ((l, c₁), e₄, h₄) = bind-eq-ok (get_label_to fp.tgt c) _ h₃ in
    let (q, e₅, h₅) = bind-eq-ok (check_remaining_size (fp.fix_size * 9) s₁) _ h₄ in
    let ((nds, s₂), e₆, h₆) = bind-eq-ok (parse_nodes fp.fix_size fp.fix_size s₁) _ h₅ in
    let (taken, few, near) = fix-Consumed s s₁ xs fp w e₁ e₂ in
    let head = pack fix_sizes (fp.fix_size ∷ fp.tgt ∷ []) in
    let w₁ = Consumed-IsReadable s s₁ head w taken in
    let nodes = parse_nodes-AreNodes fp.fix_size fp.fix_size s₁ (nds, s₂) w₁ e₆ in
    let d = get_label_to-Labelled fp.tgt c l c₁ (omega (arith, near)) u e₄ in
    let size : length nds % 2 ^ 16 ≡ fp.fix_size = omega (arith, nodes.count, few) in
    let word : fp.tgt % 2 ^ 32 ≡ fp.tgt = omega (arith, near) in
    subst (λ x. IsReproduced (λ later. dump_jump_if later x.0) c s x.1.0 x.1.1) (ok-injective h₆)
      (record {
        bytes = head ++ dump_nodes nds;
        consumed = Consumed-append s s₁ s₂ head (dump_nodes nds) taken nodes.consumed;
        grows = d.grows;
        dumps = λ later g. rw (deref_pos-Grows l fp.tgt d.points g, size, word) refl;
      })
