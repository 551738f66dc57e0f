-- ===== src/Libman/Read/Apart.antt =====
-- The loop over the pairs treats each reader as if it read alone what the readers before it leave.
use mathlib.Core.Option
use bpt.Prelude.{
  Bool, true, false, Option, none, some, List, [], ◌∷◌, ◌++◌, ◌≡◌, ◌⊎◌, inl, inr, refl, arith,
  Bytes, Bool-cases, append_assoc, append-nil, if◌then◌else◌, bytes_eq, ◌>>=◌, ◌||◌,
}
use mathlib.Core.Path.{subst}
use bpt.Usage.{Usage}
use bpt.Libman.{Pair}
use bpt.Libman.Read.{
  Reader, read_required, read_opt, read_bool, read_empty_set_true, read_check_eq, read_accumulate,
  read_accumulate_usages, ignore_x_keys, reject_unknown, Outcome, ReadError, not_bool,
  unexpected_value, bad_usage, ok, throws, accepts, parse_bool, receive, push, received, offer,
  after_offer, read_loop, split_usage_string,
}

-- A result without its error.
abbrev pub success {ℓ} : {A : Type ℓ} → Outcome A → Option A
success (ok a) = some a
success (throws e) = none

-- One reader over all the pairs that it accepts.
abbrev pub read_alone : Reader → List Pair → Option Reader
read_alone r [] = some r
read_alone r (p ∷ pairs) =
    if accepts r p.key
    then (success (receive r p.key p.value) >>= λ r'. read_alone r' pairs)
    else read_alone r pairs

-- The pairs that a reader passes on.
abbrev pub passed : (Bytes → Bool) → List Pair → List Pair
passed accept [] = []
passed accept (p ∷ pairs) = if accept p.key then passed accept pairs else p ∷ passed accept pairs

abbrev pub read_apart : List Reader → List Pair → Option (List Reader)
read_apart [] pairs = some []
read_apart (r ∷ rs) pairs = read_alone r pairs >>= λ r'.
    Option.map (λ rs'. r' ∷ rs') (read_apart rs (passed (accepts r) pairs))

abbrev pub any_accepts : List Reader → Bytes → Bool
any_accepts [] key = false
any_accepts (r ∷ rs) key = accepts r key || any_accepts rs key

-- The pairs that some reader accepts.
abbrev pub accepted : List Reader → List Pair → List Pair
accepted rs [] = []
accepted rs (p ∷ pairs) = if any_accepts rs p.key then p ∷ accepted rs pairs else accepted rs pairs

Outcome-cases :
    {A : Type 0} (o : Outcome A) → ((a : A) × (o ≡ ok a)) ⊎ ((e : ReadError) × (o ≡ throws e))
Outcome-cases (ok a) = inl (a, refl)
Outcome-cases (throws e) = inr (e, refl)

-- A reader keeps its key.
abbrev Keeps : Reader → Outcome Reader → Type 0
Keeps r (ok r') = (k : Bytes) → accepts r' k ≡ accepts r k
Keeps r (throws e) = Unit

bool_Keeps :
    (key k : Bytes) (b : Option Bool)
    → Keeps
        (read_bool k none)
        (elim b [ some c ↦ ok (read_bool k (some c)) | none ↦ throws (not_bool key) ])
bool_Keeps key k (some c) = λ x. refl
bool_Keeps key k none = tt

check_Keeps :
    (key k e : Bytes) (b : Bool)
    → Keeps
        (read_check_eq k e)
        (if b then ok (read_check_eq k e) else throws (unexpected_value key))
check_Keeps key k e true = λ x. refl
check_Keeps key k e false = tt

usage_Keeps :
    (value k : Bytes) (items : List Usage) (u : Option Usage)
    → Keeps (read_accumulate_usages k items) (elim u [
      | some w ↦ ok (read_accumulate_usages k (items ++ w ∷ []))
      | none ↦ throws (bad_usage value)
    ])
usage_Keeps value k items (some w) = λ x. refl
usage_Keeps value k items none = tt

receive-Keeps : (r : Reader) (key value : Bytes) → Keeps r (receive r key value)
receive-Keeps (read_required k none) key value = λ x. refl
receive-Keeps (read_required k (some v)) key value = tt
receive-Keeps (read_opt k v) key value = λ x. refl
receive-Keeps (read_bool k none) key value = bool_Keeps key k (parse_bool value)
receive-Keeps (read_bool k (some b)) key value = tt
receive-Keeps (read_empty_set_true k true) key [] = tt
receive-Keeps (read_empty_set_true k true) key (c ∷ value) = tt
receive-Keeps (read_empty_set_true k false) key [] = λ x. refl
receive-Keeps (read_empty_set_true k false) key (c ∷ value) = tt
receive-Keeps (read_check_eq k e) key value = check_Keeps key k e (bytes_eq value e)
receive-Keeps (read_accumulate k items) key value = λ x. refl
receive-Keeps (read_accumulate_usages k items) key value =
    usage_Keeps value k items (split_usage_string value)
receive-Keeps ignore_x_keys key value = λ x. refl
receive-Keeps reject_unknown key value = tt

accepts-receive :
    (r r' : Reader) (key value : Bytes)
    → receive r key value ≡ ok r'
    → (k : Bytes) → accepts r' k ≡ accepts r k
accepts-receive r r' key value h = subst (Keeps r) h (receive-Keeps r key value)

passed_same :
    (f g : Bytes → Bool) (pairs : List Pair)
    → ((k : Bytes) → f k ≡ g k)
    → passed f pairs ≡ passed g pairs
passed_same f g [] h = refl
passed_same f g (p ∷ pairs) h = ground (arith, h p.key, passed_same f g pairs h)

bind_none :
    {A B : Type 0} (o : Option A) (f : A → Option B) → ((a : A) → f a ≡ none) → (o >>= f) ≡ none
bind_none (some a) f h = h a
bind_none none f h = refl

-- What is left to read once a pair was offered.
abbrev rest_apart : Outcome (Bool × List Reader) → List Pair → Option (List Reader)
rest_apart (ok r) pairs = read_apart r.1 pairs
rest_apart (throws e) pairs = none

received_apart :
    (r : Reader) (rs : List Reader) (o : Outcome Reader) (pairs : List Pair)
    → Keeps r o
    → (success o >>= λ r'. read_alone r' pairs >>= λ s.
        Option.map (λ ss. s ∷ ss) (read_apart rs (passed (accepts r) pairs)))
      ≡ rest_apart (received o rs) pairs
received_apart r rs (throws e) pairs k = refl
received_apart r rs (ok r') pairs k = rw (passed_same (accepts r') (accepts r) pairs k)

pushed_apart :
    (r : Reader) (o : Outcome (Bool × List Reader)) (pairs : List Pair)
    → (read_alone r pairs >>= λ s.
        Option.map (λ ss. s ∷ ss) (rest_apart o (passed (accepts r) pairs)))
      ≡ rest_apart (push r o) pairs
pushed_apart r (ok (b, rs)) pairs = refl
pushed_apart r (throws e) pairs = bind_none (read_alone r pairs) _ λ s. refl

bind_assoc :
    {A B C : Type 0} (o : Option A) (f : A → Option B) (g : B → Option C)
    → ((o >>= f) >>= g) ≡ (o >>= λ a. f a >>= g)
bind_assoc (some a) f g = refl
bind_assoc none f g = refl

offer_apart :
    (rs : List Reader) (p : Pair) (pairs : List Pair)
    → read_apart rs (p ∷ pairs) ≡ rest_apart (offer rs p.key p.value) pairs
unfolding offer
offer_apart [] p pairs = refl
offer_apart (r ∷ rs) p pairs = elim (Bool-cases (accepts r p.key)) [
  | inl mine ↦
      rw
        (
          mine,
          bind_assoc (success (receive r p.key p.value)) (λ r'. read_alone r' pairs)
              (λ s. Option.map (λ ss. s ∷ ss) (read_apart rs (passed (accepts r) pairs))),
        )
        (received_apart r rs (receive r p.key p.value) pairs (receive-Keeps r p.key p.value))
  | inr other ↦
      rw (other, offer_apart rs p (passed (accepts r) pairs))
        (pushed_apart r (offer rs p.key p.value) pairs)
]

-- The readers accept the same keys after a pair, and it is read when one of them accepts it.
abbrev Offered : List Reader → Bytes → Outcome (Bool × List Reader) → Type 0
Offered rs key (ok (b, rs')) =
    (b ≡ any_accepts rs key) × ((k : Bytes) → any_accepts rs' k ≡ any_accepts rs k)
Offered rs key (throws e) = Unit

received-Offered :
    (r : Reader) (rs : List Reader) (key : Bytes) (o : Outcome Reader)
    → accepts r key ≡ true
    → Keeps r o
    → Offered (r ∷ rs) key (received o rs)
received-Offered r rs key (ok r') h k = (rw (h), λ x. rw (k x))
received-Offered r rs key (throws e) h k = tt

push-Offered :
    (r : Reader) (rs : List Reader) (key : Bytes) (o : Outcome (Bool × List Reader))
    → accepts r key ≡ false
    → Offered rs key o
    → Offered (r ∷ rs) key (push r o)
push-Offered r rs key (ok (b, rs')) h k = (rw (h) k.0, λ x. rw (k.1 x))
push-Offered r rs key (throws e) h k = tt

offer-Offered : (rs : List Reader) (key value : Bytes) → Offered rs key (offer rs key value)
unfolding offer
offer-Offered [] key value = (refl, λ k. refl)
offer-Offered (r ∷ rs) key value = elim (Bool-cases (accepts r key)) [
  | inl mine ↦
      rw (offer, mine)
        (received-Offered r rs key (receive r key value) mine (receive-Keeps r key value))
  | inr other ↦
      rw (offer, other)
        (push-Offered r rs key (offer rs key value) other (offer-Offered rs key value))
]

accepted_same :
    (rs rs' : List Reader) (pairs : List Pair)
    → ((k : Bytes) → any_accepts rs' k ≡ any_accepts rs k)
    → accepted rs' pairs ≡ accepted rs pairs
accepted_same rs rs' [] h = refl
accepted_same rs rs' (p ∷ pairs) h = ground (arith, h p.key, accepted_same rs rs' pairs h)

read_apart-nil : (rs : List Reader) → read_apart rs [] ≡ some rs
read_apart-nil [] = refl
read_apart-nil (r ∷ rs) = rw (read_apart-nil rs)

after_apart :
    (rs : List Reader) (bad pairs : List Pair) (p : Pair) (o : Outcome (Bool × List Reader))
    → Offered rs p.key o
    → ((rs' : List Reader) (bad' : List Pair)
        → success (read_loop rs' bad' pairs)
          ≡ Option.map (λ xs. (xs, bad' ++ accepted rs' pairs)) (read_apart rs' pairs))
    → success (after_offer (λ rs' bad'. read_loop rs' bad' pairs) bad p o)
      ≡ Option.map (λ xs. (xs, bad ++ accepted rs (p ∷ pairs))) (rest_apart o pairs)
after_apart rs bad pairs p (throws e) h ih = refl
after_apart rs bad pairs p (ok (true, rs')) h ih =
    rw (← h.0, ← accepted_same rs rs' pairs h.1, ← append_assoc bad (p ∷ []) (accepted rs' pairs))
      (ih rs' (bad ++ p ∷ []))
after_apart rs bad pairs p (ok (false, rs')) h ih =
    rw (← h.0, ← accepted_same rs rs' pairs h.1) (ih rs' bad)

-- The loop ends well exactly when each reader does that reads the pairs which the readers before
-- it do not accept; then it ends with the readers in the same states, and with `bad_pairs` holding
-- the pairs that some reader accepts.
pub read_loop_apart :
    (rs : List Reader) (bad pairs : List Pair)
    → success (read_loop rs bad pairs)
      ≡ Option.map (λ rs'. (rs', bad ++ accepted rs pairs)) (read_apart rs pairs)
unfolding read_loop
read_loop_apart rs bad [] = rw (read_apart-nil rs, append-nil bad)
read_loop_apart rs bad (p ∷ pairs) =
    rw (read_loop, offer_apart rs p pairs)
      (after_apart rs bad pairs p (offer rs p.key p.value) (offer-Offered rs p.key p.value)
        (λ rs' bad'. read_loop_apart rs' bad' pairs))
