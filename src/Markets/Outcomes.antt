-- ===== src/Markets/Outcomes.antt =====
-- What a registration that is not refused has passed.
use alpha_agent.Markets.Checks.{required_text, identifier}
use alpha_agent.Base.{strip, lower, ℕ, String, Bool, ◌≡◌, refl}
use mathlib.Core.Bool.{true, false}
use alpha_agent.Markets.Schema.{Outcome, done, refused, Refusal, ◌>>=◌, ◌>>◌, refuse_when}

pub done_inj : {A : Type 0} {a b : A} → done a ≡ done b → a ≡ b
done_inj e = cc

pub refuse_when_inv :
    {B : Type 0} (b : Bool) (p : Refusal) (k : Outcome B) {v : B}
    → (refuse_when b p >> k) ≡ done v
    → (b ≡ false) × (k ≡ done v)
unfolding refuse_when ◌>>=◌
refuse_when_inv true p k h = absurd cc
refuse_when_inv false p k h = (refl, h)

pub outcome_inv :
    {A B : Type 0} (m : Outcome A) (f : A → Outcome B) {v : B}
    → (m >>= f) ≡ done v
    → (a : A) × (m ≡ done a) × (f a ≡ done v)
unfolding ◌>>=◌
outcome_inv (done a) f h = (a, refl, h)
outcome_inv (refused p) f h = absurd cc

pub required_text-result :
    (n : ℕ) (s : String) {v : String} → required_text n s ≡ done v → strip s ≡ v
unfolding required_text
required_text-result n s e =
    let a = refuse_when_inv _ _ _ e in let b = refuse_when_inv _ _ _ a.1 in done_inj b.1

pub identifier-result : (s : String) {v : String} → identifier s ≡ done v → lower (strip s) ≡ v
unfolding identifier
identifier-result s e = let a = refuse_when_inv _ _ _ e in done_inj a.1
