-- ===== src/Context/Split/Fixed.antt =====
-- `Context::Fixup` of src/format/context.cpp and items that stand side by side.
use neptools.Prelude.{ℕ, ◌+◌, ◌%◌, ◌^◌, ◌<◌, ◌≡◌, refl, sym, ap, ◌∙◌, List, [], ◌∷◌, arith}
use neptools.Context.{Context, Item, update_positions, fixup, sum_sizes}
use neptools.Context.Split.LaidOut.{IsLaidOut}

update_positions-IsLaidOut :
    (p q stop : ℕ) (items : List Item)
    → p ≡ q % 2 ^ 64
    → IsLaidOut q items stop
    → update_positions p items ≡ items
unfolding update_positions
update_positions-IsLaidOut p q stop [] e a = refl
update_positions-IsLaidOut p q stop (i ∷ items) e a =
    let here : p ≡ i.position = e ∙ sym a.0 in
    let rest =
      update_positions-IsLaidOut ((p + i.size) % 2 ^ 64) (q + i.size) stop items (omega arith)
        a.1 in
    let same : record i { position = p } ≡ i = ap (λ x. record i { position = x }) here in
    ap (λ x. x ∷ update_positions ((p + i.size) % 2 ^ 64) items) same ∙ ap (λ x. i ∷ x) rest

sum_sizes-bound : (items : List Item) → sum_sizes items < 2 ^ 64
unfolding sum_sizes
sum_sizes-bound [] = omega arith
sum_sizes-bound (i ∷ items) = omega arith

sum_sizes-IsLaidOut :
    (q stop : ℕ) (items : List Item)
    → IsLaidOut q items stop
    → (q + sum_sizes items) % 2 ^ 64 ≡ stop % 2 ^ 64
unfolding sum_sizes
sum_sizes-IsLaidOut q stop [] a = omega (arith, a)
sum_sizes-IsLaidOut q stop (i ∷ items) a =
    omega (arith, sum_sizes-IsLaidOut (q + i.size) stop items a.1)

pub fixup-IsLaidOut :
    (stop : ℕ) (c : Context)
    → IsLaidOut 0 c.children stop
    → (fixup c ≡ record c { pmap = [] }) × (sum_sizes (fixup c).children ≡ stop % 2 ^ 64)
unfolding fixup
fixup-IsLaidOut stop c a =
    let same = update_positions-IsLaidOut 0 0 stop c.children (omega arith) a in
    let total : sum_sizes c.children ≡ stop % 2 ^ 64 =
      omega (arith, sum_sizes-IsLaidOut 0 stop c.children a, sum_sizes-bound c.children) in
    (ap (λ x. record c { pmap = []; children = x }) same, ap sum_sizes same ∙ total)
