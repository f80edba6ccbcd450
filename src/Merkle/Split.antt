-- ===== src/Merkle/Split.antt =====
-- internal/merkle/tree.go, `splitPoint`: the largest power of two below `n`, over the 64-bit `int`
-- of the platforms that the program is built for.
use kiss_protocol.Base.{
  ℕ, zero, suc, ◌+◌, ◌*◌, ◌/◌, ◌%◌, ◌^◌, ◌≤◌, ◌<◌, ◌≡◌, refl, ◌⊎◌, inl, inr, Bool, true, false,
  Option, none, some, arith, sym, ap, ◌∙◌, ltb, if◌then◌else◌, Bool-cases,
}
use mathlib.Core.Option
use native.Mathlib.Nat.{pow-suc, one-le-pow}

abbrev pub int_sign : ℕ
int_sign = 2 ^ 63

abbrev pub int_mod : ℕ
int_mod = 2 ^ 64

-- `a < b` on two's complement words.
abbrev pub int_lt : ℕ → ℕ → Bool
int_lt a b = ltb ((a + int_sign) % int_mod) ((b + int_sign) % int_mod)

-- `for k < n { k <<= 1 }`, given rounds; `none` says that the loop is still running after them.
pub split_loop : ℕ → ℕ → ℕ → Option ℕ
split_loop zero k n = if int_lt k n then none else some k
split_loop (suc rounds) k n =
    let rest = split_loop rounds (k * 2 % int_mod) n in if int_lt k n then rest else some k

-- The word `k >> 1` that is returned; a `k` that leaves the loop from 1 is never negative.
unfoldable pub split_point : ℕ → Option ℕ
unfolding split_loop
split_point n = Option.map (λ k. k / 2) (split_loop 64 1 n)

-- From `k` the loop ends at a power-of-two multiple that is at least `n`, and below `2 n` if it
-- ran at all.
record Doubled (k n r : ℕ) : Type 0 where
  doublings : ℕ
  power : r ≡ 2 ^ doublings * k
  reached : n ≤ r
  least : (r ≡ k) ⊎ (r < 2 * n)

int_lt-eq-ltb : (a b : ℕ) → a < int_sign → b < int_sign → int_lt a b ≡ ltb a b
int_lt-eq-ltb a b h h' = ground arith

pow-suc-mul : (d k : ℕ) → 2 ^ suc d * k ≡ 2 ^ d * (k * 2)
pow-suc-mul d k = rw pow-suc (omega arith)

Doubled-suc : (k n r : ℕ) → k < n → Doubled (k * 2) n r → Doubled k n r
Doubled-suc k n r h v = record {
  doublings = suc v.doublings;
  power = v.power ∙ sym (pow-suc-mul v.doublings k);
  reached = v.reached;
  least = inr (ground arith);
}

Doubled-stop : (k n : ℕ) → ltb k n ≡ false → Doubled k n k
Doubled-stop k n h = record {
  doublings = 0;
  power = omega arith;
  reached = ground arith;
  least = inl refl;
}

shift_fits : (k n : ℕ) → ltb k n ≡ true → n ≤ 2 ^ 62 → k * 2 % int_mod ≡ k * 2
shift_fits k n h h' = ground arith

split_loop-Doubled :
    (rounds k n : ℕ)
    → k < int_sign
    → n ≤ 2 ^ 62
    → n ≤ 2 ^ rounds * k
    → (r : ℕ) × (split_loop rounds k n ≡ some r) × Doubled k n r
unfolding split_loop
split_loop-Doubled zero k n hk hn e =
    let stop : ltb k n ≡ false = ground arith in
    (k, rw (int_lt-eq-ltb k n hk (omega arith), stop), Doubled-stop k n stop)
split_loop-Doubled (suc rounds) k n hk hn e = elim (Bool-cases (ltb k n)) [
  | inl more ↦
      let (r, runs, v) =
        split_loop-Doubled rounds (k * 2) n (ground arith) hn (rw (pow-suc-mul rounds k) at e) in
      (
        r,
        rw (int_lt-eq-ltb k n hk (omega arith), more, shift_fits k n more hn) runs,
        Doubled-suc k n r (ground arith) v,
      )
  | inr done ↦ (k, rw (int_lt-eq-ltb k n hk (omega arith), done), Doubled-stop k n done)
]

-- What `splitPoint` promises: the power of two at or above `n / 2` and below `n`.
pub record IsSplit (n k : ℕ) : Type 0 where
  pub exponent : ℕ
  pub power : k ≡ 2 ^ exponent
  pub below : k < n
  pub at_least_half : n ≤ 2 * k

IsSplit-half :
    (n r d : ℕ) → 2 ≤ n → r ≡ 2 ^ d * 1 → n ≤ r → (r ≡ 1) ⊎ (r < 2 * n) → IsSplit n (r / 2)
IsSplit-half n r zero h p reached least = absurd (omega arith)
IsSplit-half n r (suc d) h p reached least =
    let even : r ≡ 2 ^ d * 2 = p ∙ (pow-suc-mul d 1) in
    record { exponent = d; power = omega arith; below = ground arith; at_least_half = omega arith }

-- For every length from 2 to 2^62 the loop returns, and returns the largest power of two below it.
pub split_point-IsSplit :
    (n : ℕ) → 2 ≤ n → n ≤ 2 ^ 62 → (k : ℕ) × (split_point n ≡ some k) × IsSplit n k
unfolding split_point
split_point-IsSplit n h h' =
    let (r, runs, v) = split_loop-Doubled 64 1 n (omega arith) h' (omega arith) in
    (r / 2, rw runs, IsSplit-half n r v.doublings h v.power v.reached v.least)

-- Above 2^62 the shifted word turns negative and then 0, and the loop runs for ever.
split_loop-none : (rounds n : ℕ) → 2 ^ 62 < n → n < int_sign → split_loop rounds 0 n ≡ none
unfolding split_loop
split_loop-none zero n h h' = ground arith
split_loop-none (suc rounds) n h h' = ground (arith, split_loop-none rounds n h h')

shifts_below : (j k : ℕ) → k * 2 ^ suc j ≡ int_sign → (k * 2) * 2 ^ j ≡ int_sign
shifts_below j k e = omega (arith, ap (λ (t : ℕ). k * t) (pow-suc 2 j))

factor-le : (a p c : ℕ) → a * p ≡ c → 1 ≤ p → a ≤ c
factor-le a zero c e h = absurd (omega arith)
factor-le a (suc p) c e h = omega arith

shifted-le : (j k : ℕ) → k * 2 ^ suc j ≡ int_sign → k ≤ 2 ^ 62
shifted-le j k e =
    omega (
      arith,
      factor-le (k * 2) (2 ^ j) int_sign (shifts_below j k e) (one-le-pow j 2 (omega arith)),
    )

-- From a power of two the loop never ends at such an `n`.
pub split_loop-hangs :
    (rounds j k n : ℕ)
    → k * 2 ^ j ≡ int_sign
    → 2 ^ 62 < n
    → n < int_sign
    → split_loop rounds k n ≡ none
unfolding split_loop
split_loop-hangs zero zero k n e h h' = ground arith
split_loop-hangs zero (suc j) k n e h h' = ground (arith, shifted-le j k e)
split_loop-hangs (suc rounds) zero k n e h h' = ground (arith, split_loop-none rounds n h h')
split_loop-hangs (suc rounds) (suc j) k n e h h' =
    let small = shifted-le j k e in
    let fits : k * 2 % int_mod ≡ k * 2 = omega arith in
    rw fits (ground (arith, split_loop-hangs rounds j (k * 2) n (shifts_below j k e) h h'))
