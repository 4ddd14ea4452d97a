-- ===== src/NavActive/Tests.antt =====
-- A test of the dates on a page.
use ucollection.Base.{◌≡◌, refl, codes, [], ◌∷◌, none}
use ucollection.NavActive.{localize_all}

-- A text that is no date stays.
localize_all_test :
    localize_all (λ text. none) (record { datetime = codes "-"; text = codes "-" } ∷ [])
    ≡ record { datetime = codes "-"; text = codes "-" } ∷ []
unfolding localize_all
localize_all_test = refl
