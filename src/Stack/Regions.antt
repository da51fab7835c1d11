-- ===== src/Stack/Regions.antt =====
-- The mark stack as a list of regions, the last pushed in front.
use gc.Base.{ℕ, zero, suc, ◌+◌, ◌-◌, ◌*◌, ◌<◌, ◌≡◌, refl, true, false, List, [], ◌∷◌, arith, length}
use gc.Stack.{Stack, null, init, size, push, pop, write}

-- The first `n` pairs of cells, the last of them in front.
abbrev pub pairs : (ℕ → ℕ) → ℕ → List (ℕ × ℕ)
pairs f zero = []
pairs f (suc n) = (f (n * 2), f (n * 2 + 1)) ∷ pairs f n

-- The stack holds the regions `rs`, the next one to pop in front.
pub record HoldsRegions (s : Stack) (rs : List (ℕ × ℕ)) : Type 0 where
  pub even : s.cursor ≡ length rs * 2
  pub regions : pairs s.buffer (length rs) ≡ rs

pairs_congr : (f g : ℕ → ℕ) (n : ℕ) → ((k : ℕ) → k < n * 2 → f k ≡ g k) → pairs f n ≡ pairs g n
pairs_congr f g zero same = refl
pairs_congr f g (suc n) same = rw (
  same (n * 2) (omega arith),
  same (n * 2 + 1) (omega arith),
  pairs_congr f g n (λ k h. same k (omega arith)),
)

init-HoldsRegions : (fresh : ℕ → ℕ) → HoldsRegions (init fresh) []
unfolding init
init-HoldsRegions fresh = record { even = refl; regions = refl }

-- A push on a stack puts the region in front of the others.
pub push-HoldsRegions :
    (s : Stack) (rs : List (ℕ × ℕ)) (sp bottom : ℕ)
    → HoldsRegions s rs
    → HoldsRegions (push s sp bottom) ((sp, bottom) ∷ rs)
unfolding push write
push-HoldsRegions s rs sp bottom h = record {
  even = omega (arith, h.even);
  regions = ground (
    arith,
    h.even,
    h.regions,
    pairs_congr (write (write s.buffer s.cursor sp) (s.cursor + 1) bottom) s.buffer (length rs)
        (λ k lt. ground (arith, h.even)),
  );
}

-- A pop of a stack that is not empty gives the two ends of the region in front and leaves the
-- others.
pub pop-HoldsRegions :
    (s : Stack) (sp bottom : ℕ) (rs : List (ℕ × ℕ))
    → HoldsRegions s ((sp, bottom) ∷ rs)
    → (s' : Stack) × (pop s ≡ (s', true, sp, bottom)) × HoldsRegions s' rs
unfolding pop
pop-HoldsRegions s sp bottom rs h =
    let c : s.cursor - 2 ≡ length rs * 2 = omega (arith, h.even) in
    (
      record s { cursor = s.cursor - 2 },
      ground (arith, h.even, h.regions, c),
      record { even = c; regions = ground (arith, h.regions) },
    )

pub pop-empty : (s : Stack) → HoldsRegions s [] → pop s ≡ (s, false, null, null)
unfolding pop
pop-empty s h = ground (arith, h.even)

pub size-length : (s : Stack) (rs : List (ℕ × ℕ)) → HoldsRegions s rs → size s ≡ length rs
unfolding size
size-length s rs h = omega (arith, h.even)
