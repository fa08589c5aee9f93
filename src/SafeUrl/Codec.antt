-- ===== src/SafeUrl/Codec.antt =====
-- The name of a XOR URL: the bytes of its version, content type, data type, address and type tag, in
-- a base. `name_to_base` and the part of `from_xorurl` that reads them, of
-- sn_api/src/safeurl/mod.rs.
use Prim.Native.String.{String}
use safe_network_archive.Extern.{Multibase}
use safe_network_archive.Prelude.{
  ℕ, ◌-◌, ◌/◌, not, List, [], ◌∷◌, ◌++◌, Option, none, some, Result, ok, err, ◌>>=◌, ok_or, ◌==◌,
  ltb, length, take, if◌then◌else◌,
}
use safe_network_archive.Bytes.{to_be_bytes, from_be_bytes, leading_zeros, drop, zeros}
use safe_network_archive.SafeUrl.MediaTypes.{media_type_codes, media_type_str}

pub data UrlError : Type 0 where
  invalid_xor_url invalid_input unsupported_media_type : UrlError

pub data XorUrlBase : Type 0 where
  base32z base32 base64 : XorUrlBase

unfoldable pub base_from_u16 : ℕ → Result UrlError XorUrlBase
base_from_u16 value =
    if value == 0
    then ok base32z
    else if value == 1
    then ok base32
    else if value == 2
    then ok base64
    else err invalid_input

pub data ContentType : Type 0 where
  raw wallet files_container nrs_map_container multimap : ContentType
  media_type : String → ContentType

unfoldable pub value : ContentType → Result UrlError ℕ
value raw = ok 0
value wallet = ok 1
value files_container = ok 2
value nrs_map_container = ok 3
value multimap = ok 4
value (media_type name) = ok_or (media_type_codes name) unsupported_media_type

-- The content types that are not media types, by their codes.
unfoldable pub plain_type : ℕ → Option ContentType
plain_type code =
    if code == 0
    then some raw
    else if code == 1
    then some wallet
    else if code == 2
    then some files_container
    else if code == 3
    then some nrs_map_container
    else if code == 4
    then some multimap
    else none

unfoldable pub content_type_from_u16 : ℕ → Result UrlError ContentType
content_type_from_u16 code = ok_or (plain_type code) invalid_input

unfoldable pub read_content_type : ℕ → Result UrlError ContentType
read_content_type code = elim (plain_type code) [
  | some content_type ↦ ok content_type
  | none ↦ elim (media_type_str code) [
    | some name ↦ ok (media_type name)
    | none ↦ err invalid_xor_url
  ]
]

-- An address with the 32 bytes of its name.
pub data DataAddress : Type 0 where
  safe_key bytes spentbook : List ℕ → DataAddress
  register : List ℕ → ℕ → DataAddress

abbrev pub address_name : DataAddress → List ℕ
address_name (safe_key name) = name
address_name (bytes name) = name
address_name (spentbook name) = name
address_name (register name tag) = name

-- The code of `DataType`, of the address.
unfoldable pub data_type : DataAddress → ℕ
data_type (safe_key name) = 0
data_type (bytes name) = 1
data_type (register name tag) = 2
data_type (spentbook name) = 3

unfoldable pub read_address : ℕ → List ℕ → ℕ → Result UrlError DataAddress
read_address code name type_tag =
    if code == 0
    then ok (safe_key name)
    else if code == 1
    then ok (bytes name)
    else if code == 2
    then ok (register name type_tag)
    else err invalid_xor_url

-- The fields of `SafeUrl` that its name stands for.
pub record SafeUrlName : Type 0 where
  pub address : DataAddress
  pub type_tag : ℕ
  pub content_type : ContentType
  pub content_type_u16 : ℕ

-- What `SafeUrl::new` makes of them.
unfoldable pub new : DataAddress → ℕ → ContentType → Result UrlError SafeUrlName
new address type_tag content_type = do
  content_type_u16 ← value content_type
  ok (record {
    address = address;
    type_tag = type_tag;
    content_type = content_type;
    content_type_u16 = content_type_u16;
  })

abbrev pub xor_url_version_1 : ℕ
xor_url_version_1 = 1

abbrev pub xor_url_str_max_length : ℕ
xor_url_str_max_length = 44

abbrev pub xor_name_bytes_offset : ℕ
xor_name_bytes_offset = 4

-- `XOR_NAME_LEN` of the name package added to the offset.
abbrev pub type_tag_offset : ℕ
type_tag_offset = 36

-- The bytes of a type tag, less its leading zero bytes.
unfoldable pub tag_bytes : ℕ → List ℕ
tag_bytes type_tag = drop (leading_zeros 64 type_tag / 8) (to_be_bytes 8 type_tag)

unfoldable pub name_bytes : SafeUrlName → List ℕ
unfolding data_type
name_bytes self =
    xor_url_version_1 ∷ to_be_bytes 2 self.content_type_u16
    ++ data_type self.address ∷ address_name self.address
    ++ tag_bytes self.type_tag

-- `xorurl_bytes[from..to]`, and one byte of bytes that are long enough.
abbrev pub slice : ℕ → ℕ → List ℕ → List ℕ
slice from to xorurl_bytes = take (to - from) (drop from xorurl_bytes)

abbrev pub byte_at : ℕ → List ℕ → ℕ
byte_at i xorurl_bytes = elim (drop i xorurl_bytes) [ [] ↦ 0 | byte ∷ rest ↦ byte ]

-- The type tag is filled up with zero bytes in front.
abbrev pub read_tag : List ℕ → ℕ
read_tag xorurl_bytes = from_be_bytes (zeros (8 - length xorurl_bytes) ++ xorurl_bytes)

unfoldable pub read_fields : List ℕ → Result UrlError SafeUrlName
unfolding read_content_type read_address new
read_fields xorurl_bytes = do
  content_type ← read_content_type (from_be_bytes (slice 1 3 xorurl_bytes))
  let type_tag = read_tag (drop type_tag_offset xorurl_bytes)
  address ←
      read_address (byte_at 3 xorurl_bytes)
        (slice xor_name_bytes_offset type_tag_offset xorurl_bytes) type_tag
  new address type_tag content_type

unfoldable pub read_bytes : List ℕ → Result UrlError SafeUrlName
unfolding read_fields
read_bytes xorurl_bytes =
    if ltb (length xorurl_bytes) type_tag_offset
    then err invalid_xor_url
    else if ltb xor_url_str_max_length (length xorurl_bytes)
    then err invalid_xor_url
    else if not (byte_at 0 xorurl_bytes == xor_url_version_1)
    then err invalid_xor_url
    else read_fields xorurl_bytes

module _ ⦃m : Multibase⦄ where
  abbrev pub base_encoding : XorUrlBase → m.Base
  base_encoding base32z = m.base32_z
  base_encoding base32 = m.base32_lower
  base_encoding base64 = m.base64

  -- The top name, without subnames.
  unfoldable pub name_to_base : SafeUrlName → XorUrlBase → m.Text
  unfolding name_bytes
  name_to_base self base = m.encode (base_encoding base) (name_bytes self)

  abbrev pub read_decoded : Option (m.Base × List ℕ) → Result UrlError SafeUrlName
  read_decoded none = err invalid_xor_url
  read_decoded (some (base, xorurl_bytes)) = read_bytes xorurl_bytes

  unfoldable pub from_top_name : m.Text → Result UrlError SafeUrlName
  from_top_name top_name = read_decoded (m.decode top_name)
