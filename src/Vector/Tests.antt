-- ===== src/Vector/Tests.antt =====
-- Runs of the model of server/include/vector.h on small inputs.
use postman.Prelude.{ℕ, List, [], ◌∷◌}
use postman.Vector.{Vector, init, push_all}
use postman.Vector.Growth.{Appended, init-IsValid, push_all-Appended}

abbrev seven : List ℕ
seven = 1 ∷ 2 ∷ 3 ∷ 4 ∷ 5 ∷ 6 ∷ 7 ∷ []

abbrev two : Vector ℕ
two = record { array = 1 ∷ 2 ∷ []; allocated = 2 }

push_all-Appended_example : Appended init seven (push_all init seven)
push_all-Appended_example = push_all-Appended init seven init-IsValid
