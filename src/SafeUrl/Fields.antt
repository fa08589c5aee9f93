-- ===== src/SafeUrl/Fields.antt =====
-- Each field of a name is read back from its bytes.
use Prim.Native.String.{String}
use safe_network_archive.Prelude.{
  ℕ, zero, suc, ◌+◌, ◌-◌, ◌*◌, ◌/◌, ◌%◌, ◌^◌, ◌≤◌, ◌<◌, ◌≡◌, refl, sym, ap, ◌∙◌, subst, List, [],
  ◌∷◌, ◌++◌, some, none, ok, length, take, All, arith, Option-cases, inl, inr,
}
use safe_network_archive.Bytes.{
  to_be_bytes, from_be_bytes, leading_zeros, drop, zeros, length-to_be_bytes,
  from_be_bytes-to_be_bytes, to_be_bytes-small, leading_zeros-lt, leading_zeros-le, pow_bytes,
}
use safe_network_archive.SafeUrl.Codec.{
  ContentType, raw, wallet, files_container, nrs_map_container, multimap, media_type, value,
  plain_type, read_content_type, DataAddress, safe_key, bytes, spentbook, register, address_name,
  data_type, read_address, tag_bytes, read_tag,
}
use safe_network_archive.SafeUrl.MediaTypes.{
  media_type_codes, media_type_str, media_type_str-media_type_codes,
}

abbrev pub IsBytes : List ℕ → Type 0
IsBytes xs = All (λ byte. byte < 256) xs

pub append-IsBytes : (xs ys : List ℕ) → IsBytes xs → IsBytes ys → IsBytes (xs ++ ys)
append-IsBytes [] ys h k = k
append-IsBytes (x ∷ xs) ys (h, hs) k = (h, append-IsBytes xs ys hs k)

pub drop-IsBytes : (k : ℕ) (xs : List ℕ) → IsBytes xs → IsBytes (drop k xs)
drop-IsBytes zero xs h = h
drop-IsBytes (suc k) [] h = h
drop-IsBytes (suc k) (x ∷ xs) (h, hs) = drop-IsBytes k xs hs

pub to_be_bytes-IsBytes : (w n : ℕ) → IsBytes (to_be_bytes w n)
to_be_bytes-IsBytes zero n = tt
to_be_bytes-IsBytes (suc w) n =
    append-IsBytes (to_be_bytes w (n / 256)) ((n % 256) ∷ []) (to_be_bytes-IsBytes w (n / 256))
      (omega arith, tt)

pub drop-append : (xs ys : List ℕ) → drop (length xs) (xs ++ ys) ≡ ys
drop-append [] ys = refl
drop-append (x ∷ xs) ys = drop-append xs ys

pub take-append : (xs ys : List ℕ) → take (length xs) (xs ++ ys) ≡ xs
take-append [] ys = refl
take-append (x ∷ xs) ys = ap (◌∷◌ x) (take-append xs ys)

length-zeros : (k : ℕ) → length (zeros k) ≡ k
length-zeros zero = refl
length-zeros (suc k) = omega (arith, length-zeros k)

-- A type tag of 64 bits is read back from its bytes, which are eight at most.
tag_bytes_short :
    (tag k : ℕ)
    → tag < 2 ^ 64
    → 8 * k ≤ leading_zeros 64 tag
    → (drop k (to_be_bytes 8 tag) ≡ to_be_bytes (8 - k) tag)
      × (zeros k ++ to_be_bytes (8 - k) tag ≡ to_be_bytes 8 tag)
tag_bytes_short tag k h l =
    let le = leading_zeros-le 64 tag in
    let below : tag < 256 ^ (8 - k) =
      subst (λ z. tag < z)
        (ap (λ e. 2 ^ e) {x = 64 - 8 * k} {y = 8 * (8 - k)} (omega arith) ∙ pow_bytes (8 - k))
        (leading_zeros-lt 64 tag (8 * k) h l) in
    let split =
      ap (λ w. to_be_bytes w tag) {x = 8} {y = (8 - k) + k} (omega arith)
      ∙ to_be_bytes-small (8 - k) k tag below in
    (
      ap (drop k) split
          ∙ ap (λ j. drop j (zeros k ++ to_be_bytes (8 - k) tag)) (sym (length-zeros k))
          ∙ drop-append (zeros k) (to_be_bytes (8 - k) tag),
      sym split,
    )

pub read_tag-tag_bytes :
    (tag : ℕ) → tag < 2 ^ 64 → (read_tag (tag_bytes tag) ≡ tag) × (length (tag_bytes tag) ≤ 8)
unfolding tag_bytes
read_tag-tag_bytes tag h =
    let k = leading_zeros 64 tag / 8 in
    let le = leading_zeros-le 64 tag in
    let (dropped, joined) = tag_bytes_short tag k h (omega arith) in
    let len = length-to_be_bytes (8 - k) tag in
    let pad : zeros (8 - length (to_be_bytes (8 - k) tag)) ≡ zeros k = ap zeros (omega arith) in
    rw dropped (
      ap (λ z. from_be_bytes (z ++ to_be_bytes (8 - k) tag)) pad
          ∙ ap from_be_bytes joined
          ∙ from_be_bytes-to_be_bytes 8 tag h,
      omega arith,
    )

plain_type-media : (code : ℕ) → 4 < code → plain_type code ≡ none
unfolding plain_type
plain_type-media code h = grind arith

read_content_type-media :
    (code : ℕ) (name : String)
    → plain_type code ≡ none
    → media_type_str code ≡ some name
    → read_content_type code ≡ ok (media_type name)
unfolding read_content_type
read_content_type-media code name h k = rw (read_content_type, h, k) refl

-- The code of a content type is read back, and has 16 bits.
pub read_content_type-value :
    (content_type : ContentType) (code : ℕ)
    → value content_type ≡ ok code
    → (read_content_type code ≡ ok content_type) × (code < 65536)
unfolding value read_content_type plain_type
read_content_type-value raw code h = let same : 0 ≡ code = cc h in rw (sym same) (refl, omega arith)
read_content_type-value wallet code h =
    let same : 1 ≡ code = cc h in rw (sym same) (refl, omega arith)
read_content_type-value files_container code h =
    let same : 2 ≡ code = cc h in rw (sym same) (refl, omega arith)
read_content_type-value nrs_map_container code h =
    let same : 3 ≡ code = cc h in rw (sym same) (refl, omega arith)
read_content_type-value multimap code h =
    let same : 4 ≡ code = cc h in rw (sym same) (refl, omega arith)
read_content_type-value (media_type name) code h = elim (Option-cases (media_type_codes name)) [
  | inl missing ↦ absurd (cc (rw missing at h))
  | inr (found, e) ↦
      let same : found ≡ code = cc (rw e at h) in
      let (over, below, listed) = media_type_str-media_type_codes name code (e ∙ ap some same) in
      (read_content_type-media code name (plain_type-media code over) listed, below)
]

-- The addresses that `from_xorurl` has a case for, with the type tag it gives them.
abbrev pub IsReadable : DataAddress → ℕ → Type 0
IsReadable (safe_key name) type_tag = Unit
IsReadable (bytes name) type_tag = Unit
IsReadable (spentbook name) type_tag = ⊥
IsReadable (register name tag) type_tag = tag ≡ type_tag

pub read_address-data_type :
    (address : DataAddress) (type_tag : ℕ)
    → IsReadable address type_tag
    → read_address (data_type address) (address_name address) type_tag ≡ ok address
unfolding read_address data_type
read_address-data_type (safe_key name) type_tag h = refl
read_address-data_type (bytes name) type_tag h = refl
read_address-data_type (spentbook name) type_tag h = absurd h
read_address-data_type (register name tag) type_tag h = rw (sym h) refl
