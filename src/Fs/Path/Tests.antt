-- ===== src/Fs/Path/Tests.antt =====
-- The path "/ab/c" at the address 100, and the array at 200.
use restore_the_operating_sy.Base.{◌≡◌, refl, [], ◌∷◌, if◌then◌else◌, ◌==◌, arith}
use restore_the_operating_sy.Base.Word.{Returns}
use restore_the_operating_sy.String.{Memory}
use restore_the_operating_sy.String.Spec.{Holds}
use restore_the_operating_sy.Fs.Path.{path_parse, path_depth_cnt}
use restore_the_operating_sy.Fs.Path.Parse.{Parsed, path_parse-Parsed}
use restore_the_operating_sy.Fs.Path.Depth.{join, path_depth_cnt-length}

abbrev memory : Memory
memory = λ a.
    if a == 100
    then 47
    else if a == 101
    then 97
    else if a == 102
    then 98
    else if a == 103
    then 47
    else if a == 104
    then 99
    else 0

path : Holds memory 100 (join ((97 ∷ 98 ∷ []) ∷ (99 ∷ []) ∷ []))
path = omega arith

path_parse-Parsed_example :
    Returns (Parsed memory 100 200 (97 ∷ 98 ∷ []) (47 ∷ 99 ∷ [])) (path_parse 10 memory 100 200)
path_parse-Parsed_example =
    path_parse-Parsed 10 memory 100 200 (97 ∷ 98 ∷ []) (47 ∷ 99 ∷ []) path.2 (omega arith) refl
      (omega arith) (omega arith) (omega arith)

path_depth_cnt-length_example : Returns (λ d. d ≡ 2) (path_depth_cnt 5 20 memory 100 200)
path_depth_cnt-length_example =
    path_depth_cnt-length 5 20 memory 100 200 (97 ∷ 98 ∷ []) ((99 ∷ []) ∷ []) path (omega arith)
      (omega arith) (omega arith) (omega arith) (omega arith) (omega arith) (omega arith)
