-- ===== src/SafeUrl/RoundTrip.antt =====
-- A name that was printed is read back.
use safe_network_archive.Extern.{Multibase}
use safe_network_archive.Prelude.{
  ℕ, ◌/◌, ◌^◌, ◌≤◌, ◌<◌, ◌≡◌, refl, ap, ◌∙◌, subst, List, ◌∷◌, ◌++◌, some, ok, length,
  length-append, take, arith, inl, inr, Result-cases,
}
use safe_network_archive.Bytes.{
  to_be_bytes, from_be_bytes, leading_zeros, drop, from_be_bytes-to_be_bytes,
}
use safe_network_archive.SafeUrl.Codec.{
  XorUrlBase, ContentType, value, read_content_type, DataAddress, safe_key, bytes, spentbook,
  register, address_name, data_type, read_address, SafeUrlName, new, tag_bytes, name_bytes, slice,
  byte_at, read_tag, read_fields, read_bytes, base_encoding, name_to_base, from_top_name,
  read_decoded,
}
use safe_network_archive.SafeUrl.Fields.{
  IsBytes, append-IsBytes, drop-IsBytes, to_be_bytes-IsBytes, drop-append, take-append,
  read_tag-tag_bytes, read_content_type-value, IsReadable, read_address-data_type,
}

data_type-lt : (address : DataAddress) → data_type address < 256
unfolding data_type
data_type-lt (safe_key name) = omega arith
data_type-lt (bytes name) = omega arith
data_type-lt (spentbook name) = omega arith
data_type-lt (register name tag) = omega arith

name_bytes-IsBytes :
    (self : SafeUrlName) → IsBytes (address_name self.address) → IsBytes (name_bytes self)
unfolding name_bytes tag_bytes
name_bytes-IsBytes self h = (
  omega arith,
  append-IsBytes (to_be_bytes 2 self.content_type_u16)
      (data_type self.address ∷ address_name self.address ++ tag_bytes self.type_tag)
      (to_be_bytes-IsBytes 2 self.content_type_u16)
      (
        data_type-lt self.address,
        append-IsBytes (address_name self.address) (tag_bytes self.type_tag) h (
            drop-IsBytes (leading_zeros 64 self.type_tag / 8) (to_be_bytes 8 self.type_tag)
              (to_be_bytes-IsBytes 8 self.type_tag)),
      ),
)

-- The fields are found where they were written.
slice_name : (name rest : List ℕ) → length name ≡ 32 → take 32 (name ++ rest) ≡ name
slice_name name rest h = subst (λ k. take k (name ++ rest) ≡ name) h (take-append name rest)

drop_name : (name rest : List ℕ) → length name ≡ 32 → drop 32 (name ++ rest) ≡ rest
drop_name name rest h = subst (λ k. drop k (name ++ rest) ≡ rest) h (drop-append name rest)

-- Bytes of the right length and version are read by their fields.
read_bytes-fields :
    (xorurl_bytes : List ℕ)
    → 36 ≤ length xorurl_bytes
    → length xorurl_bytes ≤ 44
    → byte_at 0 xorurl_bytes ≡ 1
    → read_bytes xorurl_bytes ≡ read_fields xorurl_bytes
unfolding read_bytes
read_bytes-fields xorurl_bytes h k first = ground arith

-- The fields of a name that `new` gave and whose address has a case are read back.
read_fields-parts :
    (xorurl_bytes : List ℕ) (address : DataAddress) (type_tag code : ℕ) (content_type : ContentType)
    → read_content_type (from_be_bytes (slice 1 3 xorurl_bytes)) ≡ ok content_type
    → read_tag (drop 36 xorurl_bytes) ≡ type_tag
    → read_address (byte_at 3 xorurl_bytes) (slice 4 36 xorurl_bytes) type_tag ≡ ok address
    → read_fields xorurl_bytes ≡ new address type_tag content_type
unfolding read_fields
read_fields-parts xorurl_bytes address type_tag code content_type typed tag addressed =
    rw (typed, tag, addressed) refl

-- A name that `new` gave and whose address has a case is read back from its bytes.
read_bytes-name_bytes :
    (address : DataAddress) (type_tag code : ℕ) (content_type : ContentType)
    → value content_type ≡ ok code
    → length (address_name address) ≡ 32
    → type_tag < 2 ^ 64
    → IsReadable address type_tag
    → (let self : SafeUrlName = record {
      address = address;
      type_tag = type_tag;
      content_type = content_type;
      content_type_u16 = code;
    } in
        read_bytes (name_bytes self) ≡ ok self)
unfolding read_bytes read_fields name_bytes new
read_bytes-name_bytes address type_tag code content_type h len below readable =
    let name = address_name address in
    let tail = tag_bytes type_tag in
    let (tag, short) = read_tag-tag_bytes type_tag below in
    let (typed, small) = read_content_type-value content_type code h in
    let code_read : from_be_bytes (to_be_bytes 2 code) ≡ code =
      from_be_bytes-to_be_bytes 2 code (omega arith) in
    let fields =
      read_fields-parts (1 ∷ to_be_bytes 2 code ++ data_type address ∷ name ++ tail) address
        type_tag code content_type (ap read_content_type code_read ∙ typed)
        (ap read_tag (drop_name name tail len) ∙ tag)
        (ap (λ part. read_address (data_type address) part type_tag) (slice_name name tail len)
          ∙ read_address-data_type address type_tag readable) in
    let size = length-append name tail in
    read_bytes-fields (1 ∷ to_be_bytes 2 code ++ data_type address ∷ name ++ tail) (omega arith)
      (omega arith) refl
    ∙ fields
    ∙ rw h refl

from_top_name-decoded :
    ⦃m : Multibase⦄ (top_name : m.Text) (base : m.Base) (xorurl_bytes : List ℕ)
    → m.decode top_name ≡ some (base, xorurl_bytes)
    → from_top_name top_name ≡ read_bytes xorurl_bytes
unfolding from_top_name
from_top_name-decoded top_name base xorurl_bytes h = ap read_decoded h

-- `from_top_name` reads back what `name_to_base` printed, in every base.
pub from_top_name-name_to_base :
    ⦃m : Multibase⦄ (base : XorUrlBase) (self : SafeUrlName) (address : DataAddress) (type_tag : ℕ)
    (content_type : ContentType)
    → new address type_tag content_type ≡ ok self
    → IsBytes (address_name address)
    → length (address_name address) ≡ 32
    → type_tag < 2 ^ 64
    → IsReadable address type_tag
    → from_top_name (name_to_base self base) ≡ ok self
unfolding new name_to_base
from_top_name-name_to_base ⦃m⦄ base self address type_tag content_type h octets len below readable =
    elim (Result-cases (value content_type)) [
      | inl (e, f) ↦ absurd (cc (rw f at h))
      | inr (code, f) ↦
          let made : SafeUrlName = record {
            address = address;
            type_tag = type_tag;
            content_type = content_type;
            content_type_u16 = code;
          } in
          let same : made ≡ self = cc (rw f at h) in
          let printed : from_top_name (name_to_base made base) ≡ ok made =
            from_top_name-decoded (name_to_base made base) (base_encoding base) (name_bytes made) (
              m.decode-encode (base_encoding base) (name_bytes made)
                (name_bytes-IsBytes made octets))
            ∙ read_bytes-name_bytes address type_tag code content_type f len below readable in
          subst (λ url. from_top_name (name_to_base url base) ≡ ok url) same printed
    ]
