-- ===== src/Libman/Read.antt =====
-- The readers of src/libman/parse.hpp, and the loop that hands them the pairs of a file.
pub mod Apart
pub mod Package
use mathlib.Core.Option
use bpt.Prelude.{
  ℕ, suc, Bool, true, false, not, ◌&&◌, ◌||◌, Option, none, some, List, [], ◌∷◌, ◌++◌, ◌==◌,
  if◌then◌else◌, take, drop, length, Bytes, bytes_eq, codes,
}
use bpt.Text.{find, starts_with}
use bpt.Usage.{Usage}
use bpt.Libman.{Pair}

-- lm::split_usage_string; `none` is its error.
unfoldable pub split_usage_string : Bytes → Option Usage
split_usage_string str = elim (find (codes "/") str) [
  | none ↦ none
  | some n ↦ some (record { namespace_ = take n str; name = drop (suc n) str })
]

-- The readers: their keys, and what they refer to. `none` is `_did_read == false` in
-- `read_required` and `read_bool`; `read_opt` never sets its `_did_read`.
pub data Reader : Type 0 where
  read_required read_opt : Bytes → Option Bytes → Reader
  read_bool : Bytes → Option Bool → Reader
  read_empty_set_true : Bytes → Bool → Reader
  read_check_eq : Bytes → Bytes → Reader
  read_accumulate : Bytes → List Bytes → Reader
  read_accumulate_usages : Bytes → List Usage → Reader
  ignore_x_keys reject_unknown : Reader

pub data ReadError : Type 0 where
  duplicated missing unexpected_value not_bool value_given unknown : Bytes → ReadError
  bad_usage : Bytes → ReadError

pub data Outcome {ℓ} (A : Type ℓ) : Type ℓ where
  ok : A → Outcome A
  throws : ReadError → Outcome A

-- The test at the beginning of each operator(): the keys that a reader does not pass on.
abbrev pub accepts : Reader → Bytes → Bool
accepts (read_required k v) key = bytes_eq key k
accepts (read_opt k v) key = bytes_eq key k
accepts (read_bool k v) key = bytes_eq key k
accepts (read_empty_set_true k seen) key = bytes_eq key k
accepts (read_check_eq k e) key = bytes_eq key k
accepts (read_accumulate k items) key = bytes_eq key k
accepts (read_accumulate_usages k items) key = bytes_eq key k
accepts ignore_x_keys key = starts_with key (codes "X-")
accepts reject_unknown key = true

abbrev pub parse_bool : Bytes → Option Bool
parse_bool value =
    if bytes_eq value (codes "true") || bytes_eq value (codes "True")
    then some true
    else if bytes_eq value (codes "false") || bytes_eq value (codes "False")
    then some false
    else none

-- The rest of each operator().
abbrev pub receive : Reader → Bytes → Bytes → Outcome Reader
receive (read_required k none) key value = ok (read_required k (some value))
receive (read_required k (some old)) key value = throws (duplicated key)
receive (read_opt k old) key value = ok (read_opt k (some value))
receive (read_bool k none) key value = elim (parse_bool value) [
  | some b ↦ ok (read_bool k (some b))
  | none ↦ throws (not_bool key)
]
receive (read_bool k (some old)) key value = throws (duplicated key)
receive (read_empty_set_true k true) key [] = throws (duplicated key)
receive (read_empty_set_true k false) key [] = ok (read_empty_set_true k true)
receive (read_empty_set_true k seen) key (c ∷ value) = throws (value_given key)
receive (read_check_eq k e) key value =
    if bytes_eq value e then ok (read_check_eq k e) else throws (unexpected_value key)
receive (read_accumulate k items) key value = ok (read_accumulate k (items ++ value ∷ []))
receive (read_accumulate_usages k items) key value = elim (split_usage_string value) [
  | some u ↦ ok (read_accumulate_usages k (items ++ u ∷ []))
  | none ↦ throws (bad_usage value)
]
receive ignore_x_keys key value = ok ignore_x_keys
receive reject_unknown key value = throws (unknown key)

-- `(is(context, key, value) || ...)`: whether a reader has read the pair, and the readers then.
abbrev pub push : Reader → Outcome (Bool × List Reader) → Outcome (Bool × List Reader)
push r (ok (read, rs)) = ok (read, r ∷ rs)
push r (throws e) = throws e

abbrev pub received : Outcome Reader → List Reader → Outcome (Bool × List Reader)
received (ok r) rs = ok (true, r ∷ rs)
received (throws e) rs = throws e

pub offer : List Reader → Bytes → Bytes → Outcome (Bool × List Reader)
offer [] key value = ok (false, [])
offer (r ∷ rs) key value =
    let rest = push r (offer rs key value) in
    if accepts r key then received (receive r key value) rs else rest

abbrev pub after_offer :
    (List Reader → List Pair → Outcome (List Reader × List Pair))
    → List Pair
    → Pair
    → Outcome (Bool × List Reader)
    → Outcome (List Reader × List Pair)
after_offer go bad p (throws e) = throws e
after_offer go bad p (ok (true, rs)) = go rs (bad ++ p ∷ [])
after_offer go bad p (ok (false, rs)) = go rs bad

-- The loop of `read`.
unfoldable pub read_loop : List Reader → List Pair → List Pair → Outcome (List Reader × List Pair)
unfolding offer
read_loop rs bad [] = ok (rs, bad)
read_loop rs bad (p ∷ pairs) =
    after_offer (λ rs' bad'. read_loop rs' bad' pairs) bad p (offer rs p.key p.value)

-- The calls of `validate`, which only `read_required` has.
abbrev pub validate : List Reader → Option ReadError
validate [] = none
validate (read_required k none ∷ rs) = some (missing k)
validate (r ∷ rs) = validate rs

abbrev pub validated :
    List Reader × List Pair → Option ReadError → Outcome (List Reader × List Pair)
validated r none = ok r
validated r (some e) = throws e

abbrev pub finish : Outcome (List Reader × List Pair) → Outcome (List Reader × List Pair)
finish (ok r) = validated r (validate r.0)
finish (throws e) = throws e

-- `read`: the readers at the end, and `bad_pairs`.
unfoldable pub read : List Pair → List Reader → Outcome (List Reader × List Pair)
unfolding read_loop
read pairs rs = finish (read_loop rs [] pairs)
