-- ===== src/Rollover/Accepted.antt =====
-- What a directory that `validate_attempt_directory` accepts satisfies, and one with a file more.
use alpha_agent.Rollover.Readings.{
  read_all-append, sort_by-end, names_in_order, read-Reading, Earlier,
}
use alpha_agent.Rollover.Rounds.{equals-text}
use alpha_agent.Rollover.Verdicts.{
  option_passes, refuse_passes, verdict_passes, valid_inj, verdict_inv, option_inv, refuse_inv,
}
use alpha_agent.Base.{
  ◌∙◌, exists-append, All-map, exists, sort_by, ℕ, ◌≤◌, ◌<◌, not, true, false, some, List, [], ◌∷◌,
  ◌++◌, ◌≡◌, refl, ap, inl, inr, arith, Bool-cases, All,
}
use alpha_agent.Rollover.Schema.{
  Host, Phase, Document, Directory, Entry, valid, file_name, sequence, prepared, outputs_published,
  active_swapped, verified, recovered_rolled_back,
}
use alpha_agent.Json.{str, get, Fields, obj}
use alpha_agent.Rollover.Payload.{check_payload}
use alpha_agent.Rollover.Files.{
  same_phase, read_attempt_phase, new_entry, comes_first, read_all, first_prepared, is_allowed,
  check_place, check_sequence, validate_attempt_directory,
}
use alpha_agent.Rollover.Chain.{Chain}
use alpha_agent.Rollover.Facts.{not_inv}
use Prim.Native.String.{String}
use alpha_agent.Rollover.Write.{written, with_file}

-- A directory that was accepted, opened.
pub record Accepted (h : Host) (d : Directory) (p : Document) (ds : List Document) : Type 0 where
  pub safe : d.is_safe ≡ true
  pub plain : exists (λ e. not e.is_plain) (sort_by comes_first d.entries) ≡ false
  pub allowed : exists (λ e. not (is_allowed e)) (sort_by comes_first d.entries) ≡ false
  pub reading : read_all h (sort_by comes_first d.entries) ≡ valid (p ∷ ds)
  pub start : p.phase ≡ prepared
  pub place : check_place h d p ≡ valid tt
  pub order : check_sequence h p (p ∷ ds) ≡ valid tt

pub same_phase-prepared : (q : Phase) → same_phase q prepared ≡ true → q ≡ prepared
same_phase-prepared prepared e = refl
same_phase-prepared _ e = absurd cc

pub first_prepared_inv :
    (p : Document) (ds : List Document) {x : Document}
    → first_prepared (p ∷ ds) ≡ some x
    → (p.phase ≡ prepared) × (p ≡ x)
first_prepared_inv p ds e = elim (Bool-cases (same_phase p.phase prepared)) [
  | inl k ↦ (same_phase-prepared p.phase k, let c = rw k at e in cc)
  | inr k ↦ absurd (let c = rw k at e in cc)
]

pub validate-Accepted :
    (h : Host) (d : Directory) (p : Document) (ds : List Document)
    → validate_attempt_directory h d ≡ valid (p ∷ ds)
    → Accepted h d p ds
unfolding validate_attempt_directory
validate-Accepted h d p ds m =
    let a = refuse_inv _ _ _ m in
    let b = refuse_inv _ _ _ a.1 in
    let c = refuse_inv _ _ _ b.1 in
    let i = verdict_inv _ _ c.1 in
    let j = option_inv _ _ _ i.2 in
    let k = verdict_inv _ _ j.2 in
    let l = verdict_inv _ _ k.2 in
    let n = valid_inj l.2 in
    let o = first_prepared_inv p ds (rw n at j.1) in
    record {
      safe = not_inv a.0;
      plain = b.0;
      allowed = c.0;
      reading = rw n at i.1;
      start = o.0;
      place = rw (← o.1) at k.1;
      order = rw (← o.1, n) at l.1;
    }

pub Accepted-validate :
    (h : Host) (d : Directory) (p : Document) (ds : List Document)
    → Accepted h d p ds
    → validate_attempt_directory h d ≡ valid (p ∷ ds)
unfolding validate_attempt_directory
Accepted-validate h d p ds a = refuse_passes _ _ _ (ap not a.safe) (
    refuse_passes _ _ _ a.plain (
      refuse_passes _ _ _ a.allowed (
        verdict_passes _ _ a.reading (
          option_passes _ _ _ (rw a.start refl)
            (verdict_passes _ _ a.place (verdict_passes _ _ a.order refl))))))

pub read_all-first :
    (h : Host) (es : List Entry) {p : Document} {ds : List Document}
    → read_all h es ≡ valid (p ∷ ds)
    → check_payload h p.payload ≡ valid p.phase
read_all-first h [] e = absurd cc
read_all-first h (x ∷ es) {p} e =
    let a = verdict_inv _ _ e in
    let b = verdict_inv _ _ a.2 in
    let k : a.0 ≡ p = let c = b.2 in cc in rw (← k) (read-Reading h x a.1).payload_valid

pub less : {a b c : ℕ} → b < c → a ≤ b → a < c
less h k = omega arith

pub All-less :
    (ds : List Document) {a b : ℕ}
    → a < b
    → All (λ d. sequence d.phase ≤ a) ds
    → All (λ d. sequence d.phase < b) ds
All-less ds h k = All-map ds (λ d m. less h m) k

pub allowed_name : (h : Host) (q : Phase) (x : Fields) → is_allowed (new_entry h q x) ≡ true
unfolding new_entry
allowed_name h prepared x = refl
allowed_name h outputs_published x = refl
allowed_name h active_swapped x = refl
allowed_name h verified x = refl
allowed_name h recovered_rolled_back x = refl

pub new_name : (h : Host) (q : Phase) (x : Fields) → (new_entry h q x).name ≡ file_name q
unfolding new_entry
new_name h q x = refl

pub new_plain : (h : Host) (q : Phase) (x : Fields) → (new_entry h q x).is_plain ≡ true
unfolding new_entry
new_plain h q x = refl

pub same_place :
    (h : Host) (q : Phase) (x : Fields) (d : Directory) (p : Document)
    → check_place h (with_file h q x d) p ≡ check_place h d p
unfolding check_place
same_place h q x d p = refl

pub place_name :
    (h : Host) (d : Directory) (p : Document)
    → check_place h d p ≡ valid tt
    → get "attempt_id" (obj p.payload) ≡ some (str d.name)
unfolding check_place
place_name h d p e =
    let a = option_inv _ _ _ e in
    let b = refuse_inv _ _ _ a.2 in
    let c = refuse_inv _ _ _ b.1 in equals-text h d.name _ (not_inv c.0)

pub Chain-named :
    {h : Host} {p : Document} {q r : Phase} {t v : ℕ} {n : String}
    → get "attempt_id" (obj p.payload) ≡ some (str n)
    → (ds : List Document) → Chain h p q t ds r v
    → All (λ y. get "attempt_id" (obj y.payload) ≡ some (str n)) ds
Chain-named e [] Chain.done = tt
Chain-named e (d ∷ ds) (Chain.next u st b m k c) = (b.attempt_id ∙ e, Chain-named e ds c)

-- The directory with the new file passes the tests of `validate_attempt_directory`.
pub extended-Accepted :
    (h : Host) (d : Directory) (p : Document) (ds : List Document) (q : Phase) (x : Fields)
    → Accepted h d p ds
    → All (Earlier q) d.entries
    → read_attempt_phase h (new_entry h q x) ≡ valid (written h q x)
    → check_sequence h p (p ∷ ds ++ (written h q x ∷ [])) ≡ valid tt
    → Accepted h (with_file h q x d) p (ds ++ (written h q x ∷ []))
extended-Accepted h d p ds q x a k m c = record {
  safe = a.safe;
  plain =
      rw
        (
          sorted,
          exists-append (λ e. not e.is_plain) (sort_by comes_first d.entries)
              (new_entry h q x ∷ []),
          a.plain,
          new_plain h q x,
        )
        refl;
  allowed =
      rw
        (
          sorted,
          exists-append (λ e. not (is_allowed e)) (sort_by comes_first d.entries)
              (new_entry h q x ∷ []),
          a.allowed,
          allowed_name h q x,
        )
        refl;
  reading = rw sorted (
      read_all-append h (sort_by comes_first d.entries) (new_entry h q x) (p ∷ ds) (written h q x)
        a.reading m);
  start = a.start;
  place = same_place h q x d p ∙ a.place;
  order = c;
}
  where
    before_new : (e : Entry) → Earlier q e → comes_first e (new_entry h q x) ≡ true
    before_new e (s, y, z) =
        (names_in_order s q e (new_entry h q x) y (new_name h q x) (ground (arith, z))).0

    sorted :
        sort_by comes_first (d.entries ++ (new_entry h q x ∷ []))
        ≡ sort_by comes_first d.entries ++ (new_entry h q x ∷ [])
    sorted = sort_by-end (new_entry h q x) d.entries (All-map d.entries before_new k)
