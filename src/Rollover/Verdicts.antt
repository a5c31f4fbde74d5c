-- ===== src/Rollover/Verdicts.antt =====
-- A check that succeeds: what each refusal of a do block leaves, and how a block is seen to succeed.
use alpha_agent.Base.{Bool, true, false, Option, none, some, ◌≡◌, refl}
use alpha_agent.Rollover.Schema.{
  Problem, Verdict, valid, invalid, refuse_if, or_refuse, ◌>>=◌, ◌>>◌,
}

pub valid_inj : {A : Type 0} {a b : A} → valid a ≡ valid b → a ≡ b
valid_inj e = cc

pub refuse_end : (b : Bool) (p : Problem) → refuse_if b p ≡ valid tt → b ≡ false
unfolding refuse_if
refuse_end true p e = absurd cc
refuse_end false p e = refl

pub refuse_end_passes : (b : Bool) (p : Problem) → b ≡ false → refuse_if b p ≡ valid tt
unfolding refuse_if
refuse_end_passes b p e = rw e refl

module _ {B : Type 0} {v : B} where
  pub refuse_inv :
      (b : Bool) (p : Problem) (k : Verdict B)
      → (refuse_if b p >> k) ≡ valid v
      → (b ≡ false) × (k ≡ valid v)
  unfolding refuse_if ◌>>=◌
  refuse_inv true p k h = absurd cc
  refuse_inv false p k h = (refl, h)

  pub refuse_passes :
      (b : Bool) (p : Problem) (k : Verdict B)
      → b ≡ false
      → k ≡ valid v
      → (refuse_if b p >> k) ≡ valid v
  unfolding refuse_if ◌>>=◌
  refuse_passes b p k e h = rw e h

module _ {A B : Type 0} {v : B} where
  pub option_inv :
      (o : Option A) (p : Problem) (f : A → Verdict B)
      → (or_refuse o p >>= f) ≡ valid v
      → (a : A) × (o ≡ some a) × (f a ≡ valid v)
  unfolding or_refuse ◌>>=◌
  option_inv none p f h = absurd cc
  option_inv (some a) p f h = (a, refl, h)

  pub option_passes :
      (o : Option A) (p : Problem) (f : A → Verdict B) {a : A}
      → o ≡ some a
      → f a ≡ valid v
      → (or_refuse o p >>= f) ≡ valid v
  unfolding or_refuse ◌>>=◌
  option_passes o p f e h = rw e h

  pub verdict_inv :
      (m : Verdict A) (f : A → Verdict B)
      → (m >>= f) ≡ valid v
      → (a : A) × (m ≡ valid a) × (f a ≡ valid v)
  unfolding ◌>>=◌
  verdict_inv (valid a) f h = (a, refl, h)
  verdict_inv (invalid p) f h = absurd cc

  pub verdict_passes :
      (m : Verdict A) (f : A → Verdict B) {a : A}
      → m ≡ valid a
      → f a ≡ valid v
      → (m >>= f) ≡ valid v
  unfolding ◌>>=◌
  verdict_passes m f e h = rw e h
