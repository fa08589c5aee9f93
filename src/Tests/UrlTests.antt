-- ===== src/Tests/UrlTests.antt =====
-- Names of XOR URLs that are printed and read, and the theorem there.
use safe_network_archive.Extern.{Multibase}
use safe_network_archive.Prelude.{
  ℕ, ◌≡◌, ◌<◌, refl, List, all, true, ltb, ltb→lt, [], ◌∷◌, ◌++◌, some, ok, err, All, arith,
}
use safe_network_archive.Bytes.{zeros}
use safe_network_archive.SafeUrl.Codec.{
  base64, multimap, media_type, DataAddress, register, spentbook, SafeUrlName, invalid_xor_url,
  value, plain_type, read_content_type, data_type, read_address, new, tag_bytes, name_bytes,
  read_fields, read_bytes, name_to_base, from_top_name,
}
use safe_network_archive.SafeUrl.MediaTypes.{code_in, type_in}
use safe_network_archive.SafeUrl.RoundTrip.{from_top_name-name_to_base}

-- A text is its base and its bytes.
instance abbrev toy_multibase : Multibase
toy_multibase = record {
  Text = ℕ × List ℕ;
  Base = ℕ;
  base32_z = 0;
  base32_lower = 1;
  base64 = 2;
  encode = λ base octets. (base, octets);
  decode = λ text. some text;
  decode-encode = λ base octets h. refl;
}

abbrev some_name : List ℕ
some_name = 200 ∷ 7 ∷ zeros 30

all_below :
    (octets : List ℕ)
    → all (λ octet. ltb octet 256) octets ≡ true
    → All (λ octet. octet < 256) octets
unfolding all
all_below [] h = tt
all_below (octet ∷ octets) h = (ltb→lt octet 256 (ground arith), all_below octets (ground arith))

abbrev some_register : DataAddress
some_register = register some_name 1500

abbrev some_url : SafeUrlName
some_url = record {
  address = some_register;
  type_tag = 1500;
  content_type = media_type "text/html";
  content_type_u16 = 57346;
}

url_program : Unit {0}
unfolding value plain_type read_content_type data_type read_address new tag_bytes name_bytes
    read_fields read_bytes name_to_base from_top_name code_in type_in
url_program = tt

some_url_code : value (media_type "text/html") ≡ ok some_url.content_type_u16
unfolding url_program
some_url_code = refl

some_url_text : name_to_base some_url base64 ≡ (2, 1 ∷ 224 ∷ 2 ∷ 2 ∷ some_name ++ 5 ∷ 220 ∷ [])
unfolding url_program
some_url_text = refl

abbrev spentbook_url : SafeUrlName
spentbook_url = record {
  address = spentbook some_name;
  type_tag = 0;
  content_type = multimap;
  content_type_u16 = 4;
}

-- A spent book is printed, and not read.
spentbook_lost : from_top_name (name_to_base spentbook_url base64) ≡ err invalid_xor_url
unfolding url_program
spentbook_lost = refl

from_top_name-name_to_base_example : from_top_name (name_to_base some_url base64) ≡ ok some_url
unfolding url_program all
from_top_name-name_to_base_example =
    from_top_name-name_to_base base64 some_url some_register 1500 (media_type "text/html") refl
      (all_below some_name refl) refl (omega arith) refl
