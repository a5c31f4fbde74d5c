-- ===== src/Rollover/Extend.antt =====
-- A directory that `validate_attempt_directory` accepts is extended by the phase that may come next.
use alpha_agent.Rollover.Readings.{
  names_in_order, Step-later, read_all-Earlier, Earlier, Chain-later,
}
use alpha_agent.Rollover.Accepted.{
  extended-Accepted, Accepted-validate, new_name, All-less, less, Chain-named, place_name,
  read_all-first, validate-Accepted, Accepted,
}
use alpha_agent.Rollover.Order.{check_sequence-Chain}
use alpha_agent.Base.{
  ◌∙◌, exists-none, All-of_sort_by, is_lower_hex, All-map, exists, sort_by, ℕ, ◌≤◌, true, false,
  some, List, [], ◌∷◌, ◌++◌, ◌≡◌, ap, arith, All,
}
use alpha_agent.Rollover.Schema.{
  Host, Phase, Document, Directory, valid, file_name, sequence, prepared,
}
use alpha_agent.Json.{str, get, Fields, obj}
use alpha_agent.Rollover.Payload.{check_payload, time_of}
use alpha_agent.Rollover.Files.{
  write_attempt_phase, new_entry, has_name, comes_first, check_sequence, validate_attempt_directory,
}
use alpha_agent.Rollover.Chain.{Chain-snoc, Chain, Step, IsBound}
use alpha_agent.Rollover.Facts.{check_payload-Facts}
use alpha_agent.Rollover.Write.{read-new_entry, write_again, written, with_file}

-- In a directory that is accepted, a payload that is accepted, of a phase that may follow the last
-- one, bound to the prepared document and not recorded before the last one, is published, where its
-- digest is 64 lower-case hexadecimal digits; and the directory that is left is accepted with the new
-- document as its last one.
pub write_extends :
    (h : Host) (d : Directory) (p : Document) (ds : List Document) (q r : Phase) (x : Fields)
    (t u v : ℕ)
    → validate_attempt_directory h d ≡ valid (p ∷ ds)
    → time_of h p.payload ≡ some t
    → Chain h p prepared t ds r v
    → check_payload h x ≡ valid q
    → is_lower_hex 64 (h.sha256 (obj x)) ≡ true
    → Step r q
    → IsBound p (written h q x)
    → time_of h x ≡ some u
    → v ≤ u
    → (write_attempt_phase h d x ≡ (valid (written h q x), with_file h q x d))
      × (validate_attempt_directory h (with_file h q x d) ≡ valid (p ∷ ds ++ (written h q x ∷ [])))
write_extends h d p ds q r x t u v a m c e k st b n l = (
  (write_again h d q x e k acc.safe absent).0,
  Accepted-validate h (with_file h q x d) p (ds ++ (written h q x ∷ []))
      (extended-Accepted h d p ds q x acc earlier (read-new_entry h q x e k) order),
)
  where
    acc : Accepted h d p ds
    acc = validate-Accepted h d p ds a

    later : (sequence prepared ≤ sequence r) × All (λ y. sequence y.phase ≤ sequence r) ds
    later = Chain-later ds c

    earlier : All (Earlier q) d.entries
    earlier = All-of_sort_by (Earlier q) comes_first d.entries (
        read_all-Earlier h q (sort_by comes_first d.entries) (p ∷ ds) acc.reading
          (rw acc.start (less (Step-later st) later.0), All-less ds (Step-later st) later.1))

    absent : exists (has_name (file_name q)) d.entries ≡ false
    absent = exists-none (has_name (file_name q)) d.entries (
        All-map d.entries
          (λ y (s, i, j).
            (names_in_order s q y (new_entry h q x) i (new_name h q x) (ground (arith, j))).1)
          earlier)

    order : check_sequence h p (p ∷ ds ++ (written h q x ∷ [])) ≡ valid tt
    order =
        (check_sequence-Chain h p (ds ++ (written h q x ∷ [])) t
            (read_all-first h _ acc.reading ∙ ap valid acc.start) acc.start m).1
          (q, u, Chain-snoc ds (written h q x) u c st b n l)

-- What `validate_attempt_directory` accepts is a prepared document and a chain after it, and each
-- names the attempt after which the directory is named.
pub validated-Chain :
    (h : Host) (d : Directory) (p : Document) (ds : List Document)
    → validate_attempt_directory h d ≡ valid (p ∷ ds)
    → (t : ℕ) × (r : Phase) × (v : ℕ) × (time_of h p.payload ≡ some t)
      × (p.phase ≡ prepared)
      × Chain h p prepared t ds r v
      × All (λ y. get "attempt_id" (obj y.payload) ≡ some (str d.name)) (p ∷ ds)
validated-Chain h d p ds a = (t.0, c.0, c.1, t.1, acc.start, c.2, (named, Chain-named named ds c.2))
  where
    acc : Accepted h d p ds
    acc = validate-Accepted h d p ds a

    valid_p : check_payload h p.payload ≡ valid prepared
    valid_p = read_all-first h _ acc.reading ∙ ap valid acc.start

    t : (t : ℕ) × (time_of h p.payload ≡ some t)
    t = (check_payload-Facts h p.payload valid_p).moment

    c : (r : Phase) × (v : ℕ) × Chain h p prepared (t.0) ds r v
    c = (check_sequence-Chain h p ds t.0 valid_p acc.start t.1).0 acc.order

    named : get "attempt_id" (obj p.payload) ≡ some (str d.name)
    named = place_name h d p acc.place
