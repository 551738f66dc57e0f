-- ===== src/Dym/Tests.antt =====
use bpt.Prelude.{some, [], ◌∷◌, ◌≡◌, refl, codes}
use bpt.Dym.{lev_edit_distance, did_you_mean}
use bpt.Dym.Nearest.{IsNearest, did_you_mean-IsNearest}

measures : lev_edit_distance (codes "kitten") (codes "sitting") ≡ 3
unfolding lev_edit_distance
measures = refl

suggests : did_you_mean (codes "biuld") (codes "new" ∷ codes "build" ∷ []) ≡ some (codes "build")
unfolding lev_edit_distance
suggests = refl

did_you_mean-IsNearest_example :
    IsNearest (codes "biuld") (codes "new" ∷ codes "build" ∷ []) (codes "build")
did_you_mean-IsNearest_example =
    did_you_mean-IsNearest (codes "biuld") (codes "new" ∷ codes "build" ∷ []) (codes "build")
      suggests
