-- ===== src/Hash/Triangular.antt =====
-- The probe sequence of src/hash.c: the sums of the steps 1, 2, 3 and so on meet every remainder modulo
-- a power of two.
use gc.Base.{
  ℕ, zero, suc, ◌+◌, ◌-◌, ◌*◌, ◌^◌, ◌<◌, ◌≡◌, refl, sym, ap, subst, ◌∙◌, ◌⊎◌, inl, inr, arith,
}
use native.Mathlib.Nat.{two-pow-succ}

-- How far the probe is from its start after some steps.
pub triangle : ℕ → ℕ
triangle zero = 0
triangle (suc n) = triangle n + suc n

pub triangle-zero : triangle 0 ≡ 0
unfolding triangle
triangle-zero = refl

pub triangle-at : (n m : ℕ) → n ≡ suc m → triangle n ≡ triangle m + n
unfolding triangle
triangle-at n m e = rw e refl

-- Two numbers have the same remainder modulo `d`.
pub record Same (d m n : ℕ) : Type 0 where
  pub left : ℕ
  pub right : ℕ
  pub equal : m + d * left ≡ n + d * right

even_or_odd : (n : ℕ) → ((h : ℕ) × (n ≡ h + h)) ⊎ ((h : ℕ) × (n ≡ h + h + 1))
even_or_odd zero = inl (0, refl)
even_or_odd (suc n) = elim (even_or_odd n) [
  | inl (h, e) ↦ inr (h, omega arith)
  | inr (h, e) ↦ inl (h + 1, omega arith)
]

-- The two steps that are mirrored in the middle of a round of `2 * d` are a multiple of `d` apart.
mirror : (t u : ℕ) → triangle (t + 1 + u + u) ≡ triangle t + (t + 1 + u) * (1 + u + u)
mirror t zero = omega (arith, triangle-at (t + 1 + 0 + 0) t (omega arith))
mirror t (suc u) = omega (
  arith,
  mirror t u,
  triangle-at (t + 1 + suc u + suc u) (t + 1 + u + u + 1) (omega arith),
  triangle-at (t + 1 + u + u + 1) (t + 1 + u + u) (omega arith),
)

-- Some step of the first `d` meets the remainder of `e`.
abbrev pub Hit : ℕ → ℕ → ℕ → Type 0
Hit d h e = (t : ℕ) × (t < d) × Same d (h + triangle t) e

hit : (d h e t : ℕ) → t < d → (x y : ℕ) → h + triangle t + d * x ≡ e + d * y → Hit d h e
hit d h e t small x y at = (t, small, record { left = x; right = y; equal = at })

-- A remainder met modulo `d` is met modulo `2 * d`, at the same step or at the mirrored one.
double : (d h e : ℕ) → Hit d h e → Hit (d + d) h e
double d h e (t, small, same) =
    let u = d - 1 - t in
    let a = same.left in
    let b = same.right in
    let d_is : d ≡ t + 1 + u = omega arith in
    let far : triangle (t + 1 + u + u) ≡ triangle t + d * (1 + u + u) =
      mirror t u ∙ ap (λ z. triangle t + z * (1 + u + u)) (sym d_is) in
    let here = hit (d + d) h e t (omega arith) in
    let there = hit (d + d) h e (t + 1 + u + u) (omega arith) in
    let same_a = λ (z : ℕ) (q : a ≡ z). ap (λ (n : ℕ). d * n) q in
    let same_b = λ (z : ℕ) (q : b ≡ z). ap (λ (n : ℕ). d * n) q in
    elim (even_or_odd a) [
      | inl (x, ex) ↦ elim (even_or_odd b) [
        | inl (y, ey) ↦ here x y (omega (arith, same.equal, same_a _ ex, same_b _ ey))
        | inr (y, ey) ↦
            there x (y + 1 + u) (omega (arith, far, same.equal, same_a _ ex, same_b _ ey))
      ]
      | inr (x, ex) ↦ elim (even_or_odd b) [
        | inl (y, ey) ↦
            there (x + 1) (y + 1 + u) (omega (arith, far, same.equal, same_a _ ex, same_b _ ey))
        | inr (y, ey) ↦ here (x + 1) (y + 1) (omega (arith, same.equal, same_a _ ex, same_b _ ey))
      ]
    ]

pub hits : (k h e : ℕ) → Hit (2 ^ k) h e
hits zero h e = hit 1 h e 0 (omega arith) e h (omega (arith, triangle-zero))
hits (suc k) h e = subst (λ d. Hit d h e) (sym (two-pow-succ k)) (double (2 ^ k) h e (hits k h e))
