-- ===== src/Tests/SavedPositions.antt =====
-- Positions of three files, natural numbers.
use iqlogger.Common.{ℕ, ◌≡◌, refl, some, List, [], ◌∷◌, Bytes, codes, bytes_eq, arith}
use mathlib.Core.Option
use iqlogger.Tail.Positions.{get_saved, save_all, restart}
use iqlogger.Tail.Positions.Restart.{empty_directory, get_saved-restart}

abbrev saves : List (Bytes × ℕ)
saves = (codes "/a", 3) ∷ (codes "/a/b", 7) ∷ (codes "/a", 5) ∷ []

get_saved-restart_example :
    Option.bind (save_all saves empty_directory) (λ s. get_saved 0 (codes "/a") (restart s))
    ≡ some 5
unfolding bytes_eq
get_saved-restart_example =
    get_saved-restart 0 (codes "/a") saves (refl, (ground arith, tt))
      (
        (refl, (ground arith, tt)),
        (
          (refl, (ground arith, (ground arith, (ground arith, tt)))),
          ((refl, (ground arith, tt)), tt),
        ),
      )

-- `/a-b` and `/a/b`.
abbrev colliding : List (Bytes × ℕ)
colliding = (codes "/a/b", 9) ∷ (codes "/a-b", 4) ∷ []
