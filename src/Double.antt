-- ===== src/Double.antt =====
-- The doubles of JavaScript where the code adds them: integers below 2^53 in size are exact, and a
-- greater one is rounded to the nearest multiple of its spacing, halves to the even multiple.
use mathlib.Core.Path.{subst}
use native.Mathlib.Nat.{div-div-eq-div-mul, mul-le-mul}
use tunisia_vape_commerce.Prelude.{
  Bool, Bool-cases, ap, arith, false, if◌then◌else◌, inl, inr, leb, ltb, neg, neg_part, negsuc, pos,
  pos_part, refl, suc, true, zero, ℕ, ℤ, ◌%◌, ◌&&◌, ◌*◌, ◌+ℤ◌, ◌-ℤ◌, ◌/◌, ◌<◌, ◌==◌, ◌∙◌, ◌≡◌, ◌≤◌,
}

-- Number.MAX_SAFE_INTEGER
abbrev pub max_safe_integer : ℕ
max_safe_integer = 9007199254740991

-- Number.isSafeInteger
abbrev pub is_safe_integer : ℤ → Bool
is_safe_integer v = leb (pos_part v) max_safe_integer && leb (neg_part v) max_safe_integer

abbrev pub IsSafe : ℤ → Type 0
IsSafe v = (pos_part v ≤ max_safe_integer) × (neg_part v ≤ max_safe_integer)

pub test→IsSafe : (v : ℤ) → is_safe_integer v ≡ true → IsSafe v
test→IsSafe v h = ground arith

pub IsSafe→is_safe_integer : (v : ℤ) → IsSafe v → is_safe_integer v ≡ true
IsSafe→is_safe_integer v h = ground arith

-- The first of u, 2u, 4u, … of which n holds fewer than 2^53. The 1024 doublings below reach past
-- the greatest double.
unfoldable pub spacing : ℕ → ℕ → ℕ → ℕ
spacing zero u n = u
spacing (suc doublings) u n =
    let wider = spacing doublings (u * 2) n in if leb (n / u) max_safe_integer then u else wider

-- The multiple of u nearest to n.
unfoldable pub round_to : ℕ → ℕ → ℕ
round_to u n =
    if ltb (2 * (n % u)) u
    then n / u * u
    else if ltb u (2 * (n % u))
    then suc (n / u) * u
    else if (n / u % 2) == 0
    then n / u * u
    else suc (n / u) * u

unfoldable pub nearest_size : ℕ → ℕ
unfolding spacing round_to
nearest_size n = if leb n max_safe_integer then n else round_to (spacing 1024 2 n) n

-- The double nearest to an integer.
unfoldable pub nearest : ℤ → ℤ
unfolding nearest_size
nearest (pos n) = pos (nearest_size n)
nearest (negsuc n) = neg (pos (nearest_size (suc n)))

-- `a + b`
unfoldable pub add_double : ℤ → ℤ → ℤ
unfolding nearest
add_double a b = nearest (a +ℤ b)

-- `a - b`
unfoldable pub sub_double : ℤ → ℤ → ℤ
unfolding nearest
sub_double a b = nearest (a -ℤ b)

-- Half of 2^53.
abbrev half : ℕ
half = 4503599627370496

enough_left :
    (doublings u n : ℕ)
    → 2 ≤ u
    → half ≤ n / u
    → (2 ≤ spacing doublings u n) × (half ≤ n / spacing doublings u n)
unfolding spacing
enough_left zero u n two enough = (two, enough)
enough_left (suc doublings) u n two enough = elim (Bool-cases (leb (n / u) max_safe_integer)) [
  | inl e ↦ rw e (two, enough)
  | inr e ↦ rw e (
      enough_left doublings (u * 2) n (omega (arith, two))
        (subst (λ x. half ≤ x) (div-div-eq-div-mul n u 2) (ground (arith, e))))
]

round_to_bound : (u n : ℕ) → 2 ≤ u → half ≤ n / u → max_safe_integer < round_to u n
unfolding round_to
round_to_bound u n two enough =
    let low : half * 2 ≤ n / u * u = mul-le-mul enough two in
    let high : n / u * u ≤ suc (n / u) * u = grind arith in ground (arith, low, high)

at_most : (n m : ℕ) → n ≤ m → leb n m ≡ true
at_most n m h = ground (arith, h)

beyond : (n m : ℕ) → m < n → leb n m ≡ false
beyond n m h = ground (arith, h)

not_beyond : (n m : ℕ) → leb n m ≡ true → n ≤ m
not_beyond n m h = ground (arith, h)

not_within : (n m : ℕ) → leb n m ≡ false → m < n
not_within n m h = ground (arith, h)

nearest_size-safe : (n : ℕ) → n ≤ max_safe_integer → nearest_size n ≡ n
unfolding nearest_size
nearest_size-safe n h = rw (at_most n max_safe_integer h) refl

nearest_size-unsafe : (n : ℕ) → max_safe_integer < n → max_safe_integer < nearest_size n
unfolding nearest_size
nearest_size-unsafe n h =
    let (two, enough) = enough_left 1024 2 n (omega arith) (omega (arith, h)) in
    rw (beyond n max_safe_integer h) (round_to_bound (spacing 1024 2 n) n two enough)

neg-suc : (n : ℕ) → neg (pos (suc n)) ≡ negsuc n
neg-suc n = ground arith

nearest-safe : (v : ℤ) → IsSafe v → nearest v ≡ v
unfolding nearest
nearest-safe (pos n) h = ap pos (nearest_size-safe n h.0)
nearest-safe (negsuc n) h = ap (λ x. neg (pos x)) (nearest_size-safe (suc n) h.1) ∙ neg-suc n

-- A sum of two that is a safe integer is exact, and one that is not is a double that is not safe.
pub add_double-safe : (a b : ℤ) → IsSafe (a +ℤ b) → add_double a b ≡ a +ℤ b
unfolding add_double
add_double-safe a b h = nearest-safe (a +ℤ b) h

neg_part-neg : (n : ℕ) → neg_part (neg (pos n)) ≡ n
neg_part-neg n = ground arith

IsSafe-nearest : (v : ℤ) → IsSafe (nearest v) → IsSafe v
unfolding nearest
IsSafe-nearest (pos n) h = elim (Bool-cases (leb n max_safe_integer)) [
  | inl e ↦ (not_beyond n max_safe_integer e, omega arith)
  | inr e ↦ absurd (omega (arith, h.0, nearest_size-unsafe n (not_within n max_safe_integer e)))
]
IsSafe-nearest (negsuc n) h = elim (Bool-cases (leb (suc n) max_safe_integer)) [
  | inl e ↦ (omega arith, not_beyond (suc n) max_safe_integer e)
  | inr e ↦ absurd (
      omega (
        arith,
        h.1,
        neg_part-neg (nearest_size (suc n)),
        nearest_size-unsafe (suc n) (not_within (suc n) max_safe_integer e),
      ))
]

pub IsSafe-add_double : (a b : ℤ) → IsSafe (add_double a b) → IsSafe (a +ℤ b)
unfolding add_double
IsSafe-add_double a b h = IsSafe-nearest (a +ℤ b) h

nearest-beyond : (v : ℤ) → max_safe_integer < pos_part v → max_safe_integer < pos_part (nearest v)
unfolding nearest
nearest-beyond (pos n) h = nearest_size-unsafe n h
nearest-beyond (negsuc n) h = absurd (omega (arith, h))

pub add_double-beyond :
    (a b : ℤ) → max_safe_integer < pos_part (a +ℤ b) → max_safe_integer < pos_part (add_double a b)
unfolding add_double
add_double-beyond a b h = nearest-beyond (a +ℤ b) h

-- A result that passes the test for a safe integer is exact.
nearest-exact : (v : ℤ) → is_safe_integer (nearest v) ≡ true → nearest v ≡ v
nearest-exact v h = nearest-safe v (IsSafe-nearest v (test→IsSafe (nearest v) h))

pub add_double-exact : (a b : ℤ) → is_safe_integer (add_double a b) ≡ true → add_double a b ≡ a +ℤ b
unfolding add_double
add_double-exact a b h = nearest-exact (a +ℤ b) h

pub sub_double-exact : (a b : ℤ) → is_safe_integer (sub_double a b) ≡ true → sub_double a b ≡ a -ℤ b
unfolding sub_double
sub_double-exact a b h = nearest-exact (a -ℤ b) h
