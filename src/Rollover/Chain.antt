-- ===== src/Rollover/Chain.antt =====
-- The sequences of phases that a rollover may leave, described apart from the loop that checks them.
use alpha_agent.Base.{ℕ, ◌≤◌, false, some, List, [], ◌∷◌, ◌++◌, ◌≡◌}
use alpha_agent.Rollover.Schema.{
  is_terminal, Host, Phase, Document, prepared, outputs_published, active_swapped, verified,
  recovered_rolled_back,
}
use alpha_agent.Json.{obj, str, get}
use alpha_agent.Rollover.Payload.{time_of}

-- The phase that may follow a phase: each is reached from the one before it, and a rollover that is
-- not over may be rolled back.
pub data Step : Phase → Phase → Type 0 where
  publishes : Step prepared outputs_published
  swaps : Step outputs_published active_swapped
  verifies : Step active_swapped verified
  rolls_back : {q : Phase} → is_terminal q ≡ false → Step q recovered_rolled_back

-- A document names the attempt, the key and the plan of the prepared one, and holds its digest.
pub record IsBound (p d : Document) : Type 0 where
  pub attempt_id : get "attempt_id" (obj d.payload) ≡ get "attempt_id" (obj p.payload)
  pub rollover_key : get "rollover_key" (obj d.payload) ≡ get "rollover_key" (obj p.payload)
  pub plan_sha256 : get "plan_sha256" (obj d.payload) ≡ get "plan_sha256" (obj p.payload)
  pub digest : get "prepared_payload_sha256" (obj d.payload) ≡ some (str p.payload_sha256)

-- `Chain h p q t ds r v`: documents that follow one of phase `q` recorded at `t`, the last one of
-- phase `r` recorded at `v`; `p` is the prepared one.
pub data Chain (h : Host) (p : Document) : Phase → ℕ → List Document → Phase → ℕ → Type 0 where
  done : {q : Phase} {t : ℕ} → Chain h p q t [] q t
  next :
      {q r : Phase} {t v : ℕ} {d : Document} {ds : List Document} (u : ℕ)
      → Step q d.phase
      → IsBound p d
      → time_of h d.payload ≡ some u
      → t ≤ u
      → Chain h p d.phase u ds r v
      → Chain h p q t (d ∷ ds) r v

-- A document that may follow the last one extends the sequence.
pub Chain-snoc :
    {h : Host} {p : Document} {q r : Phase} {t v : ℕ} (ds : List Document) (d : Document) (u : ℕ)
    → Chain h p q t ds r v
    → Step r d.phase
    → IsBound p d
    → time_of h d.payload ≡ some u
    → v ≤ u
    → Chain h p q t (ds ++ (d ∷ [])) d.phase u
Chain-snoc ds d u Chain.done s b m k = Chain.next u s b m k Chain.done
Chain-snoc (e ∷ ds) d u (Chain.next w s' b' m' k' c) s b m k =
    Chain.next w s' b' m' k' (Chain-snoc ds d u c s b m k)
