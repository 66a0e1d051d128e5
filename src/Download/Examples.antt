-- ===== src/Download/Examples.antt =====
-- Two writes that take a part of their block each.
use misc_uni_stuff.Base.{◌≡◌, arith, [], ◌∷◌, some}
use misc_uni_stuff.Download.Loops.{write_loop, write_loop_partial}

write_loop_partial_example : write_loop (1 ∷ 2 ∷ 3 ∷ []) 3 (1 ∷ 2 ∷ []) ≡ some (1 ∷ 1 ∷ 2 ∷ [], [])
write_loop_partial_example =
    write_loop_partial (1 ∷ 2 ∷ 3 ∷ []) (1 ∷ 2 ∷ []) [] (omega arith, (omega arith, tt))
