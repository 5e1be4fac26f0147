-- ===== src/Stsc/Reproduced.antt =====
-- The round trip of an instruction of src/format/stsc/instruction.cpp, or of a part of one.
use neptools.Prelude.{◌≡◌, refl, ◌++◌, []}
use neptools.Prelude.Bytes.{Bytes}
use neptools.Prelude.Result.{Result, ok, ◌>>=◌}
use neptools.Source.{Source}
use neptools.Source.Consumed.{IsReadable, Consumed, Consumed-refl, Consumed-append}
use neptools.Context.{Context}
use neptools.Context.Labels.{UniqueNames, Grows, Grows-refl, Grows-trans}

-- From `s` to `s'` bytes were read that `dump` gives, in the context `c'` and in every one that this
-- may grow to.
pub record IsReproduced (dump : Context → Result Bytes) (c : Context) (s : Source) (c' : Context)
    (s' : Source) : Type 0 where
  pub bytes : Bytes
  pub consumed : Consumed s bytes s'
  pub grows : Grows c c'
  pub dumps : (later : Context) → Grows c' later → dump later ≡ ok bytes

pub IsReproduced-empty :
    (c : Context) (s : Source)
    → IsReadable s
    → UniqueNames c.labels
    → IsReproduced (λ later. ok []) c s c s
IsReproduced-empty c s r u = record {
  bytes = [];
  consumed = Consumed-refl s r;
  grows = Grows-refl c u;
  dumps = λ later g. refl;
}

-- One part behind another.
pub IsReproduced-append :
    {first second : Context → Result Bytes} {c c₁ c₂ : Context} {s s₁ s₂ : Source}
    → IsReproduced first c s c₁ s₁
    → IsReproduced second c₁ s₁ c₂ s₂
    → IsReproduced (λ later. first later >>= λ xs. second later >>= λ ys. ok (xs ++ ys)) c s c₂ s₂
IsReproduced-append {s = s} {s₁ = s₁} {s₂ = s₂} p q = record {
  bytes = p.bytes ++ q.bytes;
  consumed = Consumed-append s s₁ s₂ p.bytes q.bytes p.consumed q.consumed;
  grows = Grows-trans p.grows q.grows;
  dumps = λ later g. rw (p.dumps later (Grows-trans q.grows g), q.dumps later g) refl;
}
