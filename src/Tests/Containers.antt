-- ===== src/Tests/Containers.antt =====
-- An array of three items and a stack of two regions.
use gc.Base.{ℕ, ◌+◌, ◌*◌, ◌≡◌, ◌⊎◌, refl, true, [], ◌∷◌, ◌++◌, get_or, arith}
use mathlib.Core.List.{foldl}
use gc.Array
use gc.Array.{Array, delete, pop, get, each}
use gc.Array.Items.{
  IsValid, items, erase, delete-erase, push-append, pop-last, get-items, each-foldl,
}
use gc.Stack
use gc.Stack.{Stack}
use gc.Stack.Regions.{HoldsRegions, push-HoldsRegions, pop-HoldsRegions}

-- Full: a push has to grow it.
abbrev full : Array
full = record { capacity = 3; buffer = λ i. (i + 1) * 10; cursor = 3; limit = 3 }

full-IsValid : IsValid full
full-IsValid = record { room = omega arith; limit = refl; within = omega arith }

abbrev fresh : ℕ → ℕ
fresh i = 77

push-append_example :
    IsValid (Array.push fresh full 40) × (items (Array.push fresh full 40) ≡ items full ++ 40 ∷ [])
push-append_example = push-append fresh full 40 full-IsValid

delete-erase_example : items (delete full 20) ≡ erase 20 (items full)
delete-erase_example = delete-erase full 20 full-IsValid

pop-last_example :
    IsValid (pop full).0
    × ((items full ≡ items (pop full).0 ++ (pop full).1 ∷ [])
        ⊎ ((items full ≡ []) × (pop full ≡ (full, Array.null))))
pop-last_example = pop-last full full-IsValid

get-items_example : get full 2 ≡ get_or (items full) 2 Array.null
get-items_example = get-items full 2

each-foldl_example :
    each (λ item sum. item + sum) full 0 ≡ foldl (λ sum item. item + sum) 0 (items full)
each-foldl_example = each-foldl (λ item sum. item + sum) full 0

abbrev stack : Stack
stack = record { buffer = λ i. i * 8; cursor = 4 }

stack-HoldsRegions : HoldsRegions stack ((16, 24) ∷ (0, 8) ∷ [])
stack-HoldsRegions = record { even = refl; regions = refl }

push-HoldsRegions_example :
    HoldsRegions (Stack.push stack 100 200) ((100, 200) ∷ (16, 24) ∷ (0, 8) ∷ [])
push-HoldsRegions_example =
    push-HoldsRegions stack ((16, 24) ∷ (0, 8) ∷ []) 100 200 stack-HoldsRegions

pop-HoldsRegions_example :
    (s' : Stack) × (Stack.pop stack ≡ (s', true, 16, 24)) × HoldsRegions s' ((0, 8) ∷ [])
pop-HoldsRegions_example = pop-HoldsRegions stack 16 24 ((0, 8) ∷ []) stack-HoldsRegions
