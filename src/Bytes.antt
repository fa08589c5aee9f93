-- ===== src/Bytes.antt =====
-- The bytes of a machine-width number, the first the highest: `to_be_bytes`, `from_be_bytes` and
-- `leading_zeros` of the standard library.
use native.Mathlib.Omega.{pow_step}
use safe_network_archive.Prelude.{
  ℕ, zero, suc, ◌+◌, ◌-◌, ◌*◌, ◌/◌, ◌%◌, ◌^◌, ◌≤◌, ◌<◌, ◌≡◌, refl, sym, ap, subst, ◌∙◌, List, [],
  ◌∷◌, ◌++◌, ltb, length, length-append, if◌then◌else◌, arith, ltb→lt, append-nil, Bool-cases, inl,
  inr, append_assoc,
}

abbrev pub to_be_bytes : ℕ → ℕ → List ℕ
to_be_bytes zero n = []
to_be_bytes (suc w) n = to_be_bytes w (n / 256) ++ (n % 256) ∷ []

abbrev pub from_be : ℕ → List ℕ → ℕ
from_be acc [] = acc
from_be acc (b ∷ bytes) = from_be (acc * 256 + b) bytes

abbrev pub from_be_bytes : List ℕ → ℕ
from_be_bytes bytes = from_be 0 bytes

-- The leading zero bits of a number of `w` bits.
abbrev pub leading_zeros : ℕ → ℕ → ℕ
leading_zeros zero n = 0
leading_zeros (suc w) n = if ltb n (2 ^ w) then suc (leading_zeros w n) else 0

abbrev pub drop : {A : Type 0} → ℕ → List A → List A
drop zero xs = xs
drop (suc k) [] = []
drop (suc k) (x ∷ xs) = drop k xs

abbrev pub zeros : ℕ → List ℕ
zeros zero = []
zeros (suc k) = 0 ∷ zeros k

pub length-to_be_bytes : (w n : ℕ) → length (to_be_bytes w n) ≡ w
length-to_be_bytes zero n = refl
length-to_be_bytes (suc w) n =
    length-append (to_be_bytes w (n / 256)) ((n % 256) ∷ [])
    ∙ omega (arith, length-to_be_bytes w (n / 256))

from_be-append :
    (acc b : ℕ) (bytes : List ℕ) → from_be acc (bytes ++ b ∷ []) ≡ from_be acc bytes * 256 + b
from_be-append acc b [] = refl
from_be-append acc b (c ∷ bytes) = from_be-append (acc * 256 + c) b bytes

pub from_be_bytes-to_be_bytes : (w n : ℕ) → n < 256 ^ w → from_be_bytes (to_be_bytes w n) ≡ n
from_be_bytes-to_be_bytes zero n h = omega arith
from_be_bytes-to_be_bytes (suc w) n h =
    from_be-append 0 (n % 256) (to_be_bytes w (n / 256))
    ∙ omega (arith, from_be_bytes-to_be_bytes w (n / 256) (omega (arith, pow_step 256 w)))

zeros_last : (k : ℕ) → zeros (suc k) ≡ zeros k ++ 0 ∷ []
zeros_last zero = refl
zeros_last (suc k) = ap (◌∷◌ 0) (zeros_last k)

to_be_bytes-zero : (k : ℕ) → to_be_bytes k 0 ≡ zeros k
to_be_bytes-zero zero = refl
to_be_bytes-zero (suc k) = ap (λ bytes. bytes ++ 0 ∷ []) (to_be_bytes-zero k) ∙ sym (zeros_last k)

-- A number below 256 to the `j` has zeros before its last `j` bytes.
pub to_be_bytes-small :
    (j k n : ℕ) → n < 256 ^ j → to_be_bytes (j + k) n ≡ zeros k ++ to_be_bytes j n
to_be_bytes-small zero k n h =
    let none_left : n ≡ 0 = omega arith in
    rw none_left (
      ap (λ w. to_be_bytes w 0) {x = 0 + k} {y = k} (omega arith)
      ∙ to_be_bytes-zero k
      ∙ sym (append-nil (zeros k)))
to_be_bytes-small (suc j) k n h =
    ap (λ w. to_be_bytes w n) {x = suc j + k} {y = suc (j + k)} (omega arith)
    ∙ ap (λ bytes. bytes ++ (n % 256) ∷ [])
        (to_be_bytes-small j k (n / 256) (omega (arith, pow_step 256 j)))
    ∙ append_assoc (zeros k) (to_be_bytes j (n / 256)) ((n % 256) ∷ [])

-- A number is below two to the number of its other bits.
pub leading_zeros-lt : (w n i : ℕ) → n < 2 ^ w → i ≤ leading_zeros w n → n < 2 ^ (w - i)
leading_zeros-lt w n zero h l = subst (λ e. n < 2 ^ e) {x = w} {y = w - 0} (omega arith) h
leading_zeros-lt zero n (suc i) h l = absurd (omega arith)
leading_zeros-lt (suc w) n (suc i) h l = elim (Bool-cases (ltb n (2 ^ w))) [
  | inl y ↦
      subst (λ e. n < 2 ^ e) {x = w - i} {y = suc w - suc i} (omega arith)
        (leading_zeros-lt w n i (ltb→lt n (2 ^ w) y) (omega (arith, rw y at l)))
  | inr z ↦ absurd (omega (arith, rw z at l))
]

pub leading_zeros-le : (w n : ℕ) → leading_zeros w n ≤ w
leading_zeros-le zero n = omega arith
leading_zeros-le (suc w) n = ground (arith, leading_zeros-le w n)

-- Eight bits are a byte.
pub pow_bytes : (j : ℕ) → 2 ^ (8 * j) ≡ 256 ^ j
pow_bytes zero = refl
pow_bytes (suc j) =
    ap (λ e. 2 ^ e) {x = 8 * suc j} {y = suc (suc (suc (suc (suc (suc (suc (suc (8 * j))))))))}
      (omega arith)
    ∙ omega (arith, pow_bytes j)
