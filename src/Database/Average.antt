-- ===== src/Database/Average.antt =====
-- The running average of the durations: what the division by the number of compilations comes to.
use native.Mathlib.Nat.{div-add-mod, mod-lt, mul-add}
use bpt.Prelude.{
  ℕ, suc, ◌+◌, ◌-◌, ◌*◌, ◌/◌, ◌≤◌, ◌≡◌, min, arith, inl, inr, ap, ◌∙◌, Bool-cases, leb,
}
use bpt.Database.{average}

-- Two numbers are at most `e` apart.
abbrev pub Near : ℕ → ℕ → ℕ → Type 0
Near e a b = (a ≤ b + e) × (b ≤ a + e)

average_up : (j avg d : ℕ) → avg ≤ d → Near j (suc j * (avg + (d - avg) / suc j)) (j * avg + d)
average_up j avg d h =
    let e = div-add-mod (d - avg) (suc j) in
    let l = mod-lt (d - avg) {m = suc j} (omega arith) in grind (arith, e, l, h)

average_down : (j avg d : ℕ) → d ≤ avg → Near j (suc j * (avg - (avg - d) / suc j)) (j * avg + d)
average_down j avg d h =
    let q = (avg - d) / suc j in
    let e = div-add-mod (avg - d) (suc j) in
    let l = mod-lt (avg - d) {m = suc j} (omega arith) in
    let s : avg ≡ avg - q + q = grind (arith, e, h) in
    let p : j * avg ≡ j * (avg - q) + j * q = ap (λ a. j * a) s ∙ mul-add j (avg - q) q in
    grind (arith, e, l, p, s, h)

-- The new average, weighted with the divisor, is what the old one has left of its weight and the
-- new duration: the division costs less than the divisor.
pub average-Near :
    (j avg n d : ℕ) → min 10 (n + 1) ≡ suc j → Near j (suc j * average avg n d) (j * avg + d)
unfolding average
average-Near j avg n d h = elim (Bool-cases (leb avg d)) [
  | inl up ↦ rw (average, up, h) (average_up j avg d (ground (arith, up)))
  | inr down ↦ rw (average, down, h) (average_down j avg d (ground (arith, down)))
]
