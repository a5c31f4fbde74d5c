-- ===== src/Rollover/Steps.antt =====
-- The steps of a rollover against the state that the loop carries.
use alpha_agent.Base.{
  exists, ℕ, ◌&&◌, not, Bool, true, false, some, List, [], ◌∷◌, ◌≡◌, refl, ◌⊎◌, inl, inr, leb,
}
use alpha_agent.Rollover.Schema.{
  Phase, Document, prepared, outputs_published, active_swapped, verified, recovered_rolled_back,
  sequence, is_terminal,
}
use alpha_agent.Rollover.Files.{same_phase, Scan}
use alpha_agent.Rollover.Chain.{Step}
use alpha_agent.Rollover.Rounds.{after_round}

-- The phases seen up to one that is not the last.
abbrev pub path : Phase → List Phase
path prepared = prepared ∷ []
path outputs_published = outputs_published ∷ prepared ∷ []
path active_swapped = active_swapped ∷ outputs_published ∷ prepared ∷ []
path _ = []

abbrev pub lacks : Phase → Phase → List Phase → Bool
lacks m n l = exists (same_phase m) l && not (exists (same_phase n) l)

-- The tests after the loop pass.
abbrev pub Complete : List Phase → Type 0
Complete l =
    (lacks active_swapped outputs_published l ≡ false) × (lacks verified active_swapped l ≡ false)

-- A phase was seen, another was not, and the loop is past the latter.
abbrev pub Skips : Phase → Phase → List Phase → ℕ → Type 0
Skips m n l k =
    (exists (same_phase m) l ≡ true)
    × (exists (same_phase n) l ≡ false)
    × (leb (sequence n) k ≡ true)

pub step_or_skip :
    (q r : Phase)
    → is_terminal q ≡ false
    → leb (sequence r) (sequence q) ≡ false
    → Step q r
      ⊎ Skips active_swapped outputs_published (r ∷ path q) (sequence r)
      ⊎ Skips verified active_swapped (r ∷ path q) (sequence r)
step_or_skip verified r e k = absurd cc
step_or_skip recovered_rolled_back r e k = absurd cc
step_or_skip q recovered_rolled_back e k = inl (Step.rolls_back e)
step_or_skip prepared outputs_published e k = inl Step.publishes
step_or_skip outputs_published active_swapped e k = inl Step.swaps
step_or_skip active_swapped verified e k = inl Step.verifies
step_or_skip prepared active_swapped e k = inr (inl (refl, refl, refl))
step_or_skip prepared verified e k = inr (inr (refl, refl, refl))
step_or_skip outputs_published verified e k = inr (inr (refl, refl, refl))
step_or_skip prepared prepared e k = absurd cc
step_or_skip outputs_published prepared e k = absurd cc
step_or_skip outputs_published outputs_published e k = absurd cc
step_or_skip active_swapped prepared e k = absurd cc
step_or_skip active_swapped outputs_published e k = absurd cc
step_or_skip active_swapped active_swapped e k = absurd cc

-- What a step leaves of the loop's tests.
pub record Passes (q r : Phase) (l : List Phase) : Type 0 where
  pub live : is_terminal q ≡ false
  pub above : leb (sequence r) (sequence q) ≡ false
  pub fresh : exists (same_phase r) l ≡ false
  pub complete : Complete (r ∷ l)
  pub seen : is_terminal r ≡ false → r ∷ l ≡ path r

pub rolls-Passes : (q : Phase) → is_terminal q ≡ false → Passes q recovered_rolled_back (path q)
rolls-Passes prepared e = record {
  live = e;
  above = refl;
  fresh = refl;
  complete = (refl, refl);
  seen = λ k. absurd cc;
}
rolls-Passes outputs_published e = record {
  live = e;
  above = refl;
  fresh = refl;
  complete = (refl, refl);
  seen = λ k. absurd cc;
}
rolls-Passes active_swapped e = record {
  live = e;
  above = refl;
  fresh = refl;
  complete = (refl, refl);
  seen = λ k. absurd cc;
}
rolls-Passes _ e = absurd cc

pub step-Passes : {q r : Phase} → Step q r → Passes q r (path q)
step-Passes Step.publishes = record {
  live = refl;
  above = refl;
  fresh = refl;
  complete = (refl, refl);
  seen = λ k. refl;
}
step-Passes Step.swaps = record {
  live = refl;
  above = refl;
  fresh = refl;
  complete = (refl, refl);
  seen = λ k. refl;
}
step-Passes Step.verifies = record {
  live = refl;
  above = refl;
  fresh = refl;
  complete = (refl, refl);
  seen = λ k. absurd cc;
}
step-Passes (Step.rolls_back {q} e) = rolls-Passes q e

-- The scan after documents of a good sequence whose last has phase `q` and time `t`.
pub record Proper (q : Phase) (t : ℕ) (s : Scan) : Type 0 where
  pub last : s.last_sequence ≡ sequence q
  pub time : s.last_timestamp ≡ some t
  pub terminal : s.terminal_seen ≡ is_terminal q
  pub seen : is_terminal q ≡ false → s.seen ≡ path q
  pub complete : Complete s.seen

pub Passes-Proper :
    (q : Phase) (t u : ℕ) (d : Document) (s : Scan)
    → Passes q d.phase (path q)
    → Proper q t s
    → Proper d.phase u (after_round d u s)
Passes-Proper q t u d s a b = record {
  last = refl;
  time = refl;
  terminal = rw (b.terminal, a.live) refl;
  seen = rw (b.seen a.live) a.seen;
  complete = rw (b.seen a.live) a.complete;
}
