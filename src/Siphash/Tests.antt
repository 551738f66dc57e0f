-- ===== src/Siphash/Tests.antt =====
use bpt.Prelude.{[], ◌∷◌, ◌≡◌, refl}
use bpt.Siphash.{digest}

-- The test vector of the authors of SipHash for the empty input, with the key 00 01 … 0f.
digests_nothing : digest 0x0706050403020100 0x0f0e0d0c0b0a0908 [] ≡ 0x726fdb47dd0e0e31
unfolding digest
digests_nothing = refl

-- The vector for eight bytes, which are one whole word.
digests_word :
    digest 0x0706050403020100 0x0f0e0d0c0b0a0908 (0 ∷ 1 ∷ 2 ∷ 3 ∷ 4 ∷ 5 ∷ 6 ∷ 7 ∷ [])
    ≡ 0x93f5f5799a932462
unfolding digest
digests_word = refl
