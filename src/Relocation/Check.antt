-- ===== src/Relocation/Check.antt =====
-- `relocation_check` counts the zero bits at the end of the churn id, which says what the id is
-- divided by.
use safe_network_archive.Extern.{XorNames, XorName, NameContents}
use safe_network_archive.Prelude.{
  ℕ, zero, suc, ◌+◌, ◌*◌, ◌/◌, ◌%◌, ◌^◌, ◌≤◌, ◌<◌, ◌≡◌, refl, sym, ap, ◌∙◌, ◌↔◌, true, List, [],
  ◌∷◌, ◌==◌, length, All, if◌then◌else◌, arith, leb→le, Bool-cases, inl, inr, ==_iff,
}
use safe_network_archive.Relocation.{
  bit_zeros, reverse_onto, count_zeros, trailing_zeros, relocation_check,
}
use safe_network_archive.Bytes.{from_be, from_be_bytes}

abbrev from_end : List ℕ → ℕ
from_end [] = 0
from_end (byte ∷ rest) = byte + 256 * from_end rest

from_end-reverse_onto :
    (octets done : List ℕ) → from_end (reverse_onto octets done) ≡ from_be (from_end done) octets
from_end-reverse_onto [] done = refl
from_end-reverse_onto (byte ∷ rest) done =
    from_end-reverse_onto rest (byte ∷ done)
    ∙ ap (λ k. from_be k rest) {x = byte + 256 * from_end done} {y = from_end done * 256 + byte}
        (omega arith)

length-reverse_onto :
    (octets done : List ℕ) → length (reverse_onto octets done) ≡ length octets + length done
length-reverse_onto [] done = omega arith
length-reverse_onto (byte ∷ rest) done = omega (arith, length-reverse_onto rest (byte ∷ done))

reverse_onto-All :
    (octets done : List ℕ)
    → All (λ byte. byte < 256) octets
    → All (λ byte. byte < 256) done
    → All (λ byte. byte < 256) (reverse_onto octets done)
reverse_onto-All [] done h k = k
reverse_onto-All (byte ∷ rest) done (h, hs) k = reverse_onto-All rest (byte ∷ done) hs (h, k)

double_right : (k c : ℕ) → c * 2 ^ suc k ≡ 2 * (c * 2 ^ k)
double_right k c = grind arith

double_left : (k c : ℕ) → 2 ^ suc k * c ≡ 2 * (2 ^ k * c)
double_left k c = grind arith

-- One bit of a number that has a multiple of a power of two added.
bit_zeros_split :
    (k w byte high : ℕ)
    → byte < 2 ^ k
    → bit_zeros (k + w) (byte + 2 ^ k * high)
      ≡ (if byte == 0 then k + bit_zeros w high else bit_zeros k byte)
bit_zeros_split zero w byte high h =
    let none_left : byte ≡ 0 = omega arith in
    rw none_left (
      ap (λ z. bit_zeros z (0 + 1 * high)) {x = 0 + w} {y = w} (omega arith)
      ∙ ap (bit_zeros w) {x = 0 + 1 * high} {y = high} (omega arith)
      ∙ omega arith)
bit_zeros_split (suc k) w byte high h =
    let rest = bit_zeros_split k w (byte / 2) high (omega arith) in
    let whole = byte + 2 ^ suc k * high in
    let double = double_left k high in
    let even : whole % 2 ≡ byte % 2 = omega (arith, double) in
    let half : whole / 2 ≡ byte / 2 + 2 ^ k * high = omega (arith, double) in
    ap (λ z. bit_zeros z whole) {x = suc k + w} {y = suc (k + w)} (omega arith)
    ∙ ap (λ z. if z == 0 then suc (bit_zeros (k + w) (whole / 2)) else 0) even
    ∙ ap (λ z. if byte % 2 == 0 then suc (bit_zeros (k + w) z) else 0) half
    ∙ grind (arith, rest)

-- The zeros at the end of a number of `w` bits say by which powers of two it is divided.
bit_zeros-divides :
    (w number age : ℕ) → age ≤ w → (age ≤ bit_zeros w number) ↔ ((q : ℕ) × (number ≡ q * 2 ^ age))
bit_zeros-divides w number zero h = (λ l. (number, omega arith), λ l. omega arith)
bit_zeros-divides zero number (suc age) h = absurd (omega arith)
bit_zeros-divides (suc w) number (suc age) h =
    let (to, from) = bit_zeros-divides w (number / 2) age (omega arith) in
    (
      λ l. elim (Bool-cases (number % 2 == 0)) [
        | inl y ↦
            let (q, e) = to (omega (arith, rw y at l)) in
            (q, omega (arith, e, double_right age q, (==_iff (number % 2) 0).0 y))
        | inr z ↦ absurd (omega (arith, rw z at l))
      ],
      λ (q, e).
          let double = double_right age q in
          let even : number % 2 ≡ 0 = omega (arith, double) in
          let l = from (q, omega (arith, double)) in grind (arith, l, even),
    )

-- The zeros that the loop counts are those of the number that the bytes stand for.
count_zeros-bit_zeros :
    (octets : List ℕ)
    → All (λ byte. byte < 256) octets
    → count_zeros octets ≡ bit_zeros (8 * length octets) (from_end octets)
unfolding count_zeros
count_zeros-bit_zeros [] h = refl
count_zeros-bit_zeros (byte ∷ rest) (h, hs) =
    ap (λ z. if byte == 0 then 8 + z else bit_zeros 8 byte) (count_zeros-bit_zeros rest hs)
    ∙ sym (bit_zeros_split 8 (8 * length rest) byte (from_end rest) h)
    ∙ ap (λ w. bit_zeros w (byte + 256 * from_end rest)) {x = 8 + 8 * length rest}
        {y = 8 * suc (length rest)} (omega arith)

module _ ⦃x : XorNames⦄ ⦃n : NameContents⦄ where
  -- `relocation_check` holds exactly when two to the age divides the churn id, read as a number.
  pub relocation_check-divides :
      (age : ℕ) (churn_id : XorName)
      → All (λ byte. byte < 256) (n.octets churn_id)
      → age ≤ 8 * length (n.octets churn_id)
      → (relocation_check age churn_id ≡ true)
        ↔ ((q : ℕ) × (from_be_bytes (n.octets churn_id) ≡ q * 2 ^ age))
  unfolding relocation_check trailing_zeros
  relocation_check-divides age churn_id octets h =
      let reversed = reverse_onto (n.octets churn_id) [] in
      let number = from_end-reverse_onto (n.octets churn_id) [] in
      let counted =
        count_zeros-bit_zeros reversed (reverse_onto-All (n.octets churn_id) [] octets tt) in
      let size = length-reverse_onto (n.octets churn_id) [] in
      let (to, from) =
        bit_zeros-divides (8 * length reversed) (from_end reversed) age (omega (arith, size)) in
      (
        λ checked.
            let (q, e) = to (omega (arith, counted, leb→le age (count_zeros reversed) checked)) in
            (q, sym number ∙ e),
        λ (q, e). let l = from (q, number ∙ e) in ground (arith, l, counted),
      )
