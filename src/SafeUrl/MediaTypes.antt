-- ===== src/SafeUrl/MediaTypes.antt =====
-- The media types of sn_api/src/safeurl/xorurl_media_types.rs and their codes.
use Prim.Native.String.{String}
use text.Mathlib.Text.{◌==◌}
use text.Mathlib.TextEquality.{eq_iff}
use safe_network_archive.Prelude.Order.{nat_ord}
use safe_network_archive.Prelude.{
  ℕ, ◌+◌, Bool, true, false, List, [], ◌∷◌, ◌++◌, Option, none, some, if◌then◌else◌, ◌=?◌, all,
  all-In, In, inl, inr, ltb, ltb→lt, ◌<◌, ◌&&◌, ◌∙◌, ap, Option-cases, Bool-cases, arith, ◌≡◌, refl,
}

abbrev application_subtypes : List String
application_subtypes =
    "application/x-abiword" ∷ "application/octet-stream" ∷ "application/vnd.amazon.ebook"
    ∷ "application/x-bzip" ∷ "application/x-bzip2" ∷ "application/x-csh" ∷ "application/msword"
    ∷ "application/vnd.openxmlformats-officedocument.wordprocessingml.document"
    ∷ "application/vnd.ms-fontobject" ∷ "application/epub+zip" ∷ "application/ecmascript"
    ∷ "application/java-archive" ∷ "application/javascript" ∷ "application/json"
    ∷ "application/vnd.apple.installer+xml" ∷ "application/vnd.oasis.opendocument.presentation"
    ∷ "application/vnd.oasis.opendocument.spreadsheet" ∷ "application/vnd.oasis.opendocument.text"
    ∷ "application/ogg" ∷ "application/pdf" ∷ "application/vnd.ms-powerpoint"
    ∷ "application/vnd.openxmlformats-officedocument.presentationml.presentation"
    ∷ "application/x-rar-compressed" ∷ "application/rtf" ∷ "application/x-sh"
    ∷ "application/x-shockwave-flash" ∷ "application/x-tar" ∷ "application/typescript"
    ∷ "application/vnd.visio" ∷ "application/xhtml+xml" ∷ "application/vnd.ms-excel"
    ∷ "application/vnd.openxmlformats-officedocument.spreadsheetml.sheet" ∷ "application/xml"
    ∷ "application/vnd.mozilla.xul+xml" ∷ "application/zip" ∷ "application/x-7z-compressed"
    ∷ "application/ld+json" ∷ "application/rdf+xml" ∷ []

abbrev audio_subtypes : List String
audio_subtypes =
    "audio/aac" ∷ "audio/midi" ∷ "audio/x-midi" ∷ "audio/ogg" ∷ "audio/wav" ∷ "audio/webm"
    ∷ "audio/3gpp" ∷ "audio/3gpp2" ∷ "audio/mp4" ∷ "audio/mpeg" ∷ []

abbrev font_subtypes : List String
font_subtypes = "font/otf" ∷ "font/ttf" ∷ "font/woff" ∷ "font/woff2" ∷ []

abbrev image_subtypes : List String
image_subtypes =
    "image/bmp" ∷ "image/gif" ∷ "image/x-icon" ∷ "image/jpeg" ∷ "image/png" ∷ "image/svg+xml"
    ∷ "image/tiff" ∷ "image/webp" ∷ []

abbrev multipart_subtypes : List String
multipart_subtypes = "multipart/byteranges" ∷ []

abbrev text_subtypes : List String
text_subtypes =
    "text/css" ∷ "text/csv" ∷ "text/html" ∷ "text/calendar" ∷ "text/markdown" ∷ "text/n3"
    ∷ "text/plain" ∷ "text/turtle" ∷ "text/x-markdown" ∷ "text/xml" ∷ []

abbrev video_subtypes : List String
video_subtypes =
    "video/x-msvideo" ∷ "video/mpeg" ∷ "video/ogg" ∷ "video/webm" ∷ "video/3gpp" ∷ "video/3gpp2"
    ∷ "video/jpeg" ∷ "video/mp4" ∷ []

-- `populate`: the subtypes have the codes from the start of the range on.
abbrev populate : List String → ℕ → List (String × ℕ)
populate [] code = []
populate (subtype ∷ subtypes) code = (subtype, code) ∷ populate subtypes (code + 1)

abbrev pub media_types : List (String × ℕ)
media_types =
    populate application_subtypes 20480
    ++ populate audio_subtypes 32768
    ++ populate font_subtypes 36864
    ++ populate image_subtypes 40960
    ++ populate multipart_subtypes 53248
    ++ populate text_subtypes 57344
    ++ populate video_subtypes 61440

-- `insert` of the maps replaces an earlier entry, so a look-up finds the last one.
unfoldable pub code_in : String → List (String × ℕ) → Option ℕ
code_in media_type [] = none
code_in media_type ((subtype, code) ∷ rest) = elim (code_in media_type rest) [
  | some later ↦ some later
  | none ↦ if subtype == media_type then some code else none
]

unfoldable pub type_in : ℕ → List (String × ℕ) → Option String
type_in code [] = none
type_in code ((subtype, c) ∷ rest) = elim (type_in code rest) [
  | some later ↦ some later
  | none ↦ if c =? code then some subtype else none
]

abbrev pub media_type_codes : String → Option ℕ
media_type_codes media_type = code_in media_type media_types

abbrev pub media_type_str : ℕ → Option String
media_type_str code = type_in code media_types

code_in-In :
    (media_type : String) (code : ℕ) (types : List (String × ℕ))
    → code_in media_type types ≡ some code
    → In (media_type, code) types
unfolding code_in
code_in-In media_type code [] h = absurd (cc h)
code_in-In media_type code ((subtype, c) ∷ rest) h = elim (Option-cases (code_in media_type rest)) [
  | inr (later, e) ↦
      let same : later ≡ code = cc (rw (e, code_in) at h) in
      inr (code_in-In media_type code rest (e ∙ ap some same))
  | inl e ↦ elim (Bool-cases (subtype == media_type)) [
    | inr n ↦ absurd (cc (rw (e, code_in, n) at h))
    | inl y ↦
        let same : c ≡ code = cc (rw (e, code_in, y) at h) in
        inl (cc (same, (eq_iff subtype media_type).0 y))
  ]
]

-- A code is over those of the other content types, and looks its media type up.
abbrev is_listed : String × ℕ → Bool
is_listed (media_type, code) =
    ltb 4 code
    && (ltb code 65536
        && elim (media_type_str code) [ none ↦ false | some found ↦ found == media_type ])

all_listed : all is_listed media_types ≡ true
unfolding all type_in
all_listed = refl

listed_found :
    (media_type : String) (o : Option String)
    → (elim o [ none ↦ false | some found ↦ found == media_type ]) ≡ true
    → o ≡ some media_type
listed_found media_type none h = absurd (cc h)
listed_found media_type (some found) h = ap some ((eq_iff found media_type).0 h)

pub media_type_str-media_type_codes :
    (media_type : String) (code : ℕ)
    → media_type_codes media_type ≡ some code
    → (4 < code) × (code < 65536) × (media_type_str code ≡ some media_type)
media_type_str-media_type_codes media_type code h =
    let listed : is_listed (media_type, code) ≡ true =
      all-In is_listed (media_type, code) media_types all_listed
        (code_in-In media_type code media_types h) in
    (
      ltb→lt 4 code (ground arith),
      ltb→lt code 65536 (ground arith),
      listed_found media_type (media_type_str code) (ground arith),
    )
