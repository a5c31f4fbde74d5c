-- ===== src/Alerts/Effects/Repeat.antt =====
-- A request that is made twice.
use alpha_agent.Alerts.Ends.{Ends-raise_if, Ends-map, Ends-ok, Ends-bind, bind-ok, Ends-if, Ends}
use alpha_agent.Json.{
  field, fields_eq, Fields, cons, items_eq, Items, obj, arr, str, float, int, bool, Json, json_eq,
}
use alpha_agent.Alerts.Checks.{check_text, check_optional}
use Prim.Native.String.{◌++◌ as str_append}
use alpha_agent.Json.{null, bool, int, float, str, arr, obj, Items, nil, cons, Fields, end, field}
use alpha_agent.Base.{
  ◌+◌, ◌||◌, subst, exists, ap, inr, ◌∙◌, inl, Bool-cases, [], ◌∷◌, ◌++◌, List, first, str_eq, ℕ,
  Bool, true, false, Option, none, some, String, ◌≡◌, refl, ◌==◌, arith,
}
use alpha_agent.Alerts.Ledger.{
  integrity, key_conflict, raise, Ledger, Error, Result, ok, err, Tx, ◌>>◌, pure, raise_if,
  option_eq,
}
use alpha_agent.Base.{eq_refl}
use alpha_agent.Alerts.Schema.{urgency, Message, Request}
use alpha_agent.Alerts.Outbox.Enqueue.{
  dangles, clashes, insert_outbox_message, insert_message, new_message, event_number, same_content,
  enqueue_notification, insert_or_match, check_request,
}

-- A check gives the same answer on every ledger.
abbrev Answers : Ledger → Ledger → Result (Unit {0} × Ledger) → Result (Unit {0} × Ledger) → Type 0
Answers l l' (ok r) (ok r') = (r.1 ≡ l) × (r'.1 ≡ l')
Answers l l' (err e) (err e') = Unit
Answers l l' (ok r) (err e) = ⊥
Answers l l' (err e) (ok r) = ⊥

abbrev Steady : Tx (Unit {0}) → Type 0
Steady m = (l l' : Ledger) → Answers l l' (m l) (m l')

Steady-pure : Steady (pure tt)
Steady-pure l l' = (refl, refl)

Steady-raise_if : (b : Bool) (e : Error) → Steady (raise_if b e)
Steady-raise_if true e l l' = tt
Steady-raise_if false e l l' = (refl, refl)

Steady-then : (m n : Tx (Unit {0})) → Steady m → Steady n → Steady (m >> n)
Steady-then m n h k l l' = go (m l) (m l') (h l l')
  where
    go :
        (x y : Result (Unit {0} × Ledger))
        → Answers l l' x y
        → Answers l l'
            (elim x [ ok r ↦ n r.1 | err e ↦ err e ])
            (elim y [ ok r ↦ n r.1 | err e ↦ err e ])
    go (ok x) (ok y) e = rw (e.0, e.1) (k l l')
    go (err x) (err y) e = tt
    go (ok x) (err y) e = absurd e
    go (err x) (ok y) e = absurd e

check_text-Steady : (value : String) → Steady (check_text value)
unfolding check_text
check_text-Steady value = search (Steady-then, Steady-raise_if)

check_optional-Steady : (value : Option String) → Steady (check_optional value)
unfolding check_optional
check_optional-Steady none = Steady-pure
check_optional-Steady (some value) = check_text-Steady value

check_request-Steady : (r : Request) → Steady (check_request r)
unfolding check_request
check_request-Steady r =
    search (Steady-then, Steady-raise_if, check_text-Steady, check_optional-Steady) depth 9

option_eq_refl : (o : Option String) → option_eq o o ≡ true
option_eq_refl none = refl
option_eq_refl (some i) = eq_refl i

number_refl : (n : ℕ) → (n == n) ≡ true
number_refl n = ground arith

mutual
  unfolding json_eq

  json_eq_refl : (j : Json) → json_eq j j ≡ true
  json_eq_refl null = refl
  json_eq_refl (bool true) = refl
  json_eq_refl (bool false) = refl
  json_eq_refl (int true n) = number_refl n
  json_eq_refl (int false n) = number_refl n
  json_eq_refl (float t) = eq_refl t
  json_eq_refl (str t) = eq_refl t
  json_eq_refl (arr items) = items_eq_refl items
  json_eq_refl (obj fields) = fields_eq_refl fields

  items_eq_refl : (r : Items) → items_eq r r ≡ true
  items_eq_refl nil = refl
  items_eq_refl (cons x r) = rw (json_eq_refl x, items_eq_refl r) refl

  fields_eq_refl : (r : Fields) → fields_eq r r ≡ true
  fields_eq_refl end = refl
  fields_eq_refl (field k v r) = rw (eq_refl k, json_eq_refl v, fields_eq_refl r) refl

same_content_refl : (m : Message) → same_content m m ≡ true
unfolding same_content
same_content_refl m =
    rw
      (
        option_eq_refl m.incident_id,
        option_eq_refl m.source_event_id,
        option_eq_refl m.route_activation_id,
        option_eq_refl m.depends_on_notification_id,
        number_refl (event_number m.event_type),
        number_refl (urgency m.severity),
        eq_refl m.title,
        eq_refl m.body,
        eq_refl m.source_job,
        json_eq_refl m.payload,
      )
      refl

first-append_row :
    (p : Message → Bool) (xs : List Message) (m : Message)
    → first p xs ≡ none
    → p m ≡ true
    → first p (xs ++ m ∷ []) ≡ some m
first-append_row p [] m h e = rw e refl
first-append_row p (x ∷ xs) m h e = elim (Bool-cases (p x)) [
  | inl k ↦ absurd (ground (arith, rw k at h))
  | inr k ↦ rw k (first-append_row p xs m (rw k at h) e)
]

abbrev has_key : Request → Message → Bool
has_key r m = str_eq m.idempotency_key r.idempotency_key

-- Any later request with this content finds the message.
abbrev Answered : Request → Message → Ledger → Type 0
Answered r m l =
    (first (has_key r) l.outbox ≡ some m)
    × ((hold : Bool) (t : ℕ)
        → same_content m (new_message r t hold none none none m.notification_id) ≡ true)

same_request :
    (r : Request) (hold hold' : Bool) (t t' : ℕ) (i : String) (m : Message)
    → same_content m (new_message r t hold none none none i)
      ≡ same_content m (new_message r t' hold' none none none i)
unfolding same_content new_message
same_request r hold hold' t t' i m = refl

insert-Answered :
    (u : ℕ → String) (r : Request) (hold : Bool) (t : ℕ) (l : Ledger) (found : Option Message)
    → first (has_key r) l.outbox ≡ found
    → Ends (Answered r) (insert_or_match u (new_message r t hold none none none) found l)
unfolding insert_or_match insert_message new_message
insert-Answered u r hold t l (some m) e =
    Ends-if (Answered r) (same_content m (new_message r t hold none none none m.notification_id))
      (pure m) (raise key_conflict) l
      (λ k. (e, λ hold' t'. same_request r hold' hold t' t m.notification_id m ∙ k)) (λ _. tt)
insert-Answered u r hold t l none e =
    let m = new_message r t hold none none none (str_append "notification-" (u l.drawn)) in
    Ends-bind (Answered r) (raise_if (exists (clashes m) l.outbox || dangles m l) integrity) _
      (record l { drawn = l.drawn + 1 })
      (Ends-raise_if _ (exists (clashes m) l.outbox || dangles m l) integrity
        (record l { drawn = l.drawn + 1 })
        (λ _. (
          first-append_row (has_key r) l.outbox m e (eq_refl r.idempotency_key),
          λ hold' t'. same_request r hold' hold t' t m.notification_id m ∙ same_content_refl m,
        )))

answers :
    (v : ℕ → String) (r : Request) (hold : Bool) (t : ℕ) (m : Message) (l : Ledger)
    → check_request r l ≡ ok (tt, l)
    → Answered r m l
    → enqueue_notification v r hold t l ≡ ok (m, l)
unfolding enqueue_notification insert_outbox_message insert_or_match
answers v r hold t m l c a =
    bind-ok (check_request r) _ l c ∙ bind-ok (check_request r) _ l c ∙ rw (a.0, a.1 hold t) refl

-- After a steady check, the ledger is as before, and the check passes on every other.
Steady-Ends :
    (m : Tx (Unit {0})) (l : Ledger)
    → Steady m
    → Ends (λ _ l'. (l' ≡ l) × ((l'' : Ledger) → m l'' ≡ ok (tt, l''))) (m l)
Steady-Ends m l h = go (m l) refl
  where
    answer :
        (x : Unit {0} × Ledger) (l'' : Ledger) (y : Result (Unit {0} × Ledger))
        → Answers l l'' (ok x) y
        → (x.1 ≡ l) × (y ≡ ok (tt, l''))
    answer x l'' (ok y) k = (k.0, ap (λ z. ok (tt, z)) k.1)
    answer x l'' (err e) k = absurd k

    go :
        (x : Result (Unit {0} × Ledger))
        → m l ≡ x
        → Ends (λ _ l'. (l' ≡ l) × ((l'' : Ledger) → m l'' ≡ ok (tt, l''))) x
    go (ok x) e = (
      (answer x l (m l) (subst (λ z. Answers l l z (m l)) e (h l l))).0,
      λ l''. (answer x l'' (m l'') (subst (λ z. Answers l l'' z (m l'')) e (h l l''))).1,
    )
    go (err x) e = tt

abbrev Repeats : Request → Message → Ledger → Type 0
Repeats r m l = (check_request r l ≡ ok (tt, l)) × Answered r m l

inserted-Repeats :
    (u : ℕ → String) (r : Request) (hold : Bool) (t : ℕ) (l : Ledger)
    → Ends (Repeats r) (insert_outbox_message u r t hold none none none l)
unfolding insert_outbox_message
inserted-Repeats u r hold t l = Ends-bind (Repeats r) (check_request r) _ l (
    Ends-map _ _ (check_request r l)
      (λ _ l' k.
        Ends-map (Answered r) (Repeats r)
          (insert_or_match u (new_message r t hold none none none) (first (has_key r) l'.outbox) l')
          (λ m l'' a. (k.1 l'', a))
          (insert-Answered u r hold t l' (first (has_key r) l'.outbox) refl))
      (Steady-Ends (check_request r) l (check_request-Steady r)))

enqueued-Repeats :
    (u : ℕ → String) (r : Request) (hold : Bool) (t : ℕ) (l : Ledger)
    → Ends (Repeats r) (enqueue_notification u r hold t l)
unfolding enqueue_notification
enqueued-Repeats u r hold t l = Ends-bind (Repeats r) (check_request r) _ l (
    Ends-map _ _ (check_request r l) (λ _ l' k. inserted-Repeats u r hold t l')
      (Steady-Ends (check_request r) l (check_request-Steady r)))

-- A request that was taken is answered, when it is made again on the ledger that this left, at
-- whatever time, with whatever identifiers and whether or not it is then to be held, by the
-- message that it made, and changes nothing.
pub enqueue_notification_again :
    (u v : ℕ → String) (r : Request) (hold hold' : Bool) (t t' : ℕ) (l : Ledger) (m : Message)
    (l' : Ledger)
    → enqueue_notification u r hold t l ≡ ok (m, l')
    → enqueue_notification v r hold' t' l' ≡ ok (m, l')
enqueue_notification_again u v r hold hold' t t' l m l' e =
    let k =
      Ends-ok (Repeats r) (enqueue_notification u r hold t l) (enqueued-Repeats u r hold t l) e in
    answers v r hold' t' m l' k.0 k.1
