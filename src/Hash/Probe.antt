-- ===== src/Hash/Probe.antt =====
-- The probe of src/hash.c ends: on a table whose capacity is a power of two it visits every entry.
use gc.Base.{
  ℕ, zero, suc, ◌+◌, ◌-◌, ◌%◌, ◌^◌, ◌≤◌, ◌<◌, ◌≡◌, refl, sym, ap, subst, ◌∙◌, inl, inr, Bool, true,
  false, arith, Bool-cases, word_mod, add64, add64-add, ok, Returns,
}
use native.Mathlib.Nat.{
  mod-lt, mod-eq_of_lt, mod-mod_of_dvd, add-mul-mod_self_left, mod-add-mod, pow-succ', dvd_refl,
  dvd-mul_left_of_dvd, pow-le-pow_right,
}
use Prim.Native.Nat.{◌∣◌}
use gc.Hash.{Entry, probe}
use gc.Hash.Triangular.{triangle, triangle-zero, triangle-at, Same, hits}

Same-mod : (d m n : ℕ) → Same d m n → m % d ≡ n % d
Same-mod d m n s =
    sym (add-mul-mod_self_left m d s.left)
    ∙ ap (λ x. x % d) s.equal
    ∙ add-mul-mod_self_left n d s.right

pow-dvd-pow : (n m k : ℕ) → m ≡ n + k → 2 ^ k ∣ 2 ^ m
pow-dvd-pow zero m k e = subst (λ x. 2 ^ k ∣ 2 ^ x) (omega arith) (dvd_refl (2 ^ k))
pow-dvd-pow (suc n) m k e =
    let below = dvd-mul_left_of_dvd (2 ^ k) (pow-dvd-pow n (n + k) k refl) 2 in
    let m_is : m ≡ suc (n + k) = omega arith in
    subst (λ x. 2 ^ k ∣ 2 ^ x) (sym m_is) (subst (λ x. 2 ^ k ∣ x) (sym (pow-succ' 2 (n + k))) below)

pow-dvd-word : (k : ℕ) → k ≤ 64 → 2 ^ k ∣ word_mod
pow-dvd-word k fits = pow-dvd-pow (64 - k) 64 k (omega arith)

pow-le-max : (k : ℕ) → k ≤ 63 → 2 ^ k ≤ 2 ^ 63
pow-le-max k fits = pow-le-pow_right (omega arith) fits

-- One step of the probe, modulo the capacity.
near_step : (k i j m : ℕ) → k ≤ 64 → i % 2 ^ k ≡ m % 2 ^ k → add64 i j % 2 ^ k ≡ (m + j) % 2 ^ k
unfolding add64
near_step k i j m fits near =
    mod-mod_of_dvd (2 ^ k) (i + j) (pow-dvd-word k fits)
    ∙ sym (mod-add-mod i (2 ^ k) j)
    ∙ ap (λ x. (x + j) % 2 ^ k) near
    ∙ mod-add-mod m (2 ^ k) j

module _ (accept : Entry → Bool) (entries : ℕ → Entry) (mask k h : ℕ) (fits : k ≤ 63)
    (power : mask + 1 ≡ 2 ^ k) where
  index-le : (i : ℕ) → i % (mask + 1) ≤ mask
  index-le i = omega (arith, mod-lt i {m = mask + 1} (omega arith))

  -- From step `t` of the probe on, with `n` steps to an entry that the test accepts.
  probe_from :
      (fuel n t i j : ℕ)
      → i % 2 ^ k ≡ (h + triangle t) % 2 ^ k
      → j ≡ t + 1
      → t + n < 2 ^ k
      → accept (entries ((h + triangle (t + n)) % 2 ^ k)) ≡ true
      → n < fuel
      → Returns
          (probe fuel accept entries mask i j)
          λ at. (at ≤ mask) × (accept (entries at) ≡ true)
  unfolding probe
  probe_from zero n t i j near step small there enough = absurd (omega arith)
  probe_from (suc fuel) zero t i j near step small there enough =
      let same : i % (mask + 1) ≡ (h + triangle (t + 0)) % 2 ^ k =
        ap (λ d. i % d) power ∙ near ∙ ap (λ x. (h + triangle x) % 2 ^ k) (omega arith) in
      let hit : accept (entries (i % (mask + 1))) ≡ true =
        ap (λ x. accept (entries x)) same ∙ there in
      (i % (mask + 1), rw hit refl, (index-le i, hit))
  probe_from (suc fuel) (suc n) t i j near step small there enough =
      elim (Bool-cases (accept (entries (i % (mask + 1))))) [
        | inl hit ↦ (i % (mask + 1), rw hit refl, (index-le i, hit))
        | inr miss ↦
            let small_word = pow-le-max k fits in
            let next : add64 i j % 2 ^ k ≡ (h + triangle (t + 1)) % 2 ^ k =
              near_step k i j (h + triangle t) (omega arith) near
              ∙ ap (λ x. x % 2 ^ k) (omega (arith, triangle-at (t + 1) t (omega arith))) in
            let (at, run, found) =
              probe_from fuel n (t + 1) (add64 i j) (add64 j 1) next
                (add64-add j 1 (omega arith) ∙ omega arith) (omega arith)
                (ap (λ x. accept (entries ((h + triangle x) % 2 ^ k))) (omega arith) ∙ there)
                (omega arith) in
            (at, rw miss run, found)
      ]

  -- On a table whose capacity is a power of two up to 2 ^ 63, the probe ends, with as much fuel as
  -- the table has entries, at an entry that the test accepts, if there is any: the triangular steps
  -- visit every entry.
  pub probe-hits :
      (fuel e : ℕ)
      → e ≤ mask
      → accept (entries e) ≡ true
      → mask < fuel
      → Returns
          (probe fuel accept entries mask h 1)
          λ at. (at ≤ mask) × (accept (entries at) ≡ true)
  probe-hits fuel e inside good enough =
      let (t, small, same) = hits k h e in
      let there : (h + triangle t) % 2 ^ k ≡ e =
        Same-mod (2 ^ k) (h + triangle t) e same ∙ mod-eq_of_lt (omega arith) in
      probe_from fuel t 0 h 1 (ap (λ x. x % 2 ^ k) (omega (arith, triangle-zero))) refl
        (omega arith)
        (ap (λ x. accept (entries ((h + triangle x) % 2 ^ k))) (omega arith)
          ∙ ap (λ x. accept (entries x)) there
          ∙ good)
        (omega arith)

-- The outcome of a probe is an entry that the test accepts.
pub probe-accepts :
    (fuel : ℕ) (accept : Entry → Bool) (entries : ℕ → Entry) (mask i j at : ℕ)
    → probe fuel accept entries mask i j ≡ ok at
    → accept (entries at) ≡ true
unfolding probe
probe-accepts zero accept entries mask i j at run = cc
probe-accepts (suc fuel) accept entries mask i j at run =
    elim (Bool-cases (accept (entries (i % (mask + 1))))) [
      | inl hit ↦
          let stop = rw hit at run in
          let e : i % (mask + 1) ≡ at = cc in ap (λ x. accept (entries x)) (sym e) ∙ hit
      | inr miss ↦ probe-accepts fuel accept entries mask _ _ at (rw miss at run)
    ]

-- A test that rejects what another one rejects stops no earlier, and so where that one stops if it
-- accepts there.
pub probe-transfer :
    (fuel : ℕ) (accept accept' : Entry → Bool) (entries entries' : ℕ → Entry) (mask i j at : ℕ)
    → probe fuel accept entries mask i j ≡ ok at
    → ((n : ℕ) → accept (entries n) ≡ false → accept' (entries' n) ≡ false)
    → accept' (entries' at) ≡ true
    → probe fuel accept' entries' mask i j ≡ ok at
unfolding probe
probe-transfer zero accept accept' entries entries' mask i j at run rejects good = cc
probe-transfer (suc fuel) accept accept' entries entries' mask i j at run rejects good =
    elim (Bool-cases (accept (entries (i % (mask + 1))))) [
      | inl hit ↦
          let stop = rw hit at run in
          let e : i % (mask + 1) ≡ at = cc in rw (ap (λ x. accept' (entries' x)) e ∙ good) (ap ok e)
      | inr miss ↦ rw (rejects _ miss) (
          probe-transfer fuel accept accept' entries entries' mask _ _ at (rw miss at run) rejects
            good)
    ]

pub probe-le :
    (fuel : ℕ) (accept : Entry → Bool) (entries : ℕ → Entry) (mask i j at : ℕ)
    → probe fuel accept entries mask i j ≡ ok at
    → at ≤ mask
unfolding probe
probe-le zero accept entries mask i j at run = cc
probe-le (suc fuel) accept entries mask i j at run =
    elim (Bool-cases (accept (entries (i % (mask + 1))))) [
      | inl hit ↦
          let stop = rw hit at run in
          let e : i % (mask + 1) ≡ at = cc in omega (arith, mod-lt i {m = mask + 1} (omega arith))
      | inr miss ↦ probe-le fuel accept entries mask _ _ at (rw miss at run)
    ]
