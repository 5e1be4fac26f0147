-- ===== src/Context/Split/Pieces.antt =====
-- The pieces of `RawItem::Split2` of src/format/raw_item.cpp stand side by side.
use neptools.Prelude.{
  ℕ, ◌+◌, ◌%◌, ◌^◌, ◌≤◌, ◌<◌, ◌≡◌, ◌≢◌, ap, true, false, ◌&&◌, List, [], ◌∷◌, arith, ◌==◌, leb,
  if◌then◌else◌, Bool-cases, inl, inr,
}
use mathlib.Core.Path.{subst}
use neptools.Prelude.Result.{ok, guard, bind-eq-ok, ok-injective, assertion}
use neptools.Context.{Item}
use neptools.Context.Slice.{Piece, placed_items}
use neptools.Context.Split.{piece, split_pieces, internal_slice, resize, remaining}
use neptools.Context.Split.LaidOut.{IsLaidOut}

-- The pieces after the raw item is cut: the new item and the rest have other numbers.
starts-IsLaidOut :
    (base q k m : ℕ) (this nitem : Item)
    → (nitem.id == this.id) ≡ false
    → (this.id == this.id) ≡ true
    → base ≡ q % 2 ^ 64
    → k ≡ nitem.size
    → k + m ≡ this.size
    → IsLaidOut q
        (resize this.id m (placed_items base 0 (piece nitem k ∷ piece this this.size ∷ [])))
        (q + this.size)
unfolding resize placed_items
starts-IsLaidOut base q k m this nitem apart same b e sum =
    rw (apart, same) (omega arith, (omega arith, omega arith))

ends-IsLaidOut :
    (base q k pos : ℕ) (this nitem : Item)
    → (nitem.id == this.id) ≡ false
    → (this.id == this.id) ≡ true
    → base ≡ q % 2 ^ 64
    → k ≡ pos + nitem.size
    → k ≡ this.size
    → IsLaidOut q
        (resize this.id pos (placed_items base 0 (piece this pos ∷ piece nitem k ∷ [])))
        (q + this.size)
unfolding resize placed_items
ends-IsLaidOut base q k pos this nitem apart same b e sum =
    rw (apart, same) (omega arith, (omega arith, omega arith))

halves-IsLaidOut :
    (base q k pos : ℕ) (this nitem rest : Item)
    → (nitem.id == this.id) ≡ false
    → (rest.id == this.id) ≡ false
    → (this.id == this.id) ≡ true
    → base ≡ q % 2 ^ 64
    → k ≡ pos + nitem.size
    → k + rest.size ≡ this.size
    → IsLaidOut q
        (resize this.id pos
          (placed_items base 0 (piece this pos ∷ piece nitem k ∷ piece rest this.size ∷ [])))
        (q + this.size)
unfolding resize placed_items
halves-IsLaidOut base q k pos this nitem rest apart other same b e sum =
    rw (apart, other, same) (omega arith, (omega arith, (omega arith, omega arith)))

-- The pieces of `Split2` fill the place of the raw item, whose size is cut to `m`.
pub split_pieces-IsLaidOut :
    (base q pos next : ℕ) (this nitem : Item) (seq : List Piece)
    → nitem.id ≢ this.id
    → next ≢ this.id
    → this.size < 2 ^ 64
    → pos + nitem.size ≤ this.size
    → (pos == 0 && remaining this nitem.size pos == 0) ≡ false
    → split_pieces this pos nitem next (remaining this nitem.size pos) ≡ ok seq
    → base ≡ q % 2 ^ 64
    → IsLaidOut q
        (resize this.id
          (if pos == 0 then remaining this nitem.size pos else pos)
          (placed_items base 0 seq))
        (q + this.size)
unfolding split_pieces internal_slice
split_pieces-IsLaidOut base q pos next this nitem seq apart other small fits not_all h b =
    let len = nitem.size in
    let rem_len = remaining this len pos in
    let stop = (pos + len) % 2 ^ 64 in
    let stop_is : stop ≡ pos + len = omega arith in
    let rem_is : stop + rem_len ≡ this.size = omega arith in
    let n : (nitem.id == this.id) ≡ false = ground arith in
    let r : (next == this.id) ≡ false = ground arith in
    let t : (this.id == this.id) ≡ true = ground arith in
    elim (Bool-cases (pos == 0)) [
      | inl y ↦
          let z : (rem_len == 0) ≡ false = ground arith in
          let shape : piece nitem stop ∷ piece this this.size ∷ [] ≡ seq =
            ok-injective (rw (z, y) at h) in
          let done = starts-IsLaidOut base q stop rem_len this nitem n t b (ground arith) rem_is in
          rw y (
            subst
              (λ x. IsLaidOut q (resize this.id rem_len (placed_items base 0 x)) (q + this.size))
              shape done)
      | inr y ↦ elim (Bool-cases (rem_len == 0)) [
        | inl z ↦
            let shape : piece this pos ∷ piece nitem stop ∷ [] ≡ seq =
              ok-injective (rw (z, y) at h) in
            let done = ends-IsLaidOut base q stop pos this nitem n t b stop_is (ground arith) in
            rw y (
              subst (λ x. IsLaidOut q (resize this.id pos (placed_items base 0 x)) (q + this.size))
                shape done)
        | inr z ↦
            let h' = rw (z, y) at h in
            let (rest, made, h₁) = bind-eq-ok (internal_slice this next stop rem_len) _ h' in
            let (_, _, h₂) =
              bind-eq-ok (guard (leb ((stop + rem_len) % 2 ^ 64) this.size) assertion) _ made in
            let made_size : rem_len ≡ rest.size = ap (λ x. x.size) (ok-injective h₂) in
            let made_id : next ≡ rest.id = ap (λ x. x.id) (ok-injective h₂) in
            let shape : piece this pos ∷ piece nitem stop ∷ piece rest this.size ∷ [] ≡ seq =
              ok-injective h₁ in
            let done =
              halves-IsLaidOut base q stop pos this nitem rest n (rw (← made_id) r) t b stop_is
                (rw (← made_size) rem_is) in
            rw y (
              subst (λ x. IsLaidOut q (resize this.id pos (placed_items base 0 x)) (q + this.size))
                shape done)
      ]
    ]
