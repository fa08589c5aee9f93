-- ===== src/Text.antt =====
-- Strings as lists of their bytes, in the order of `str`, with the methods that the repository uses.
use Prim.Native.Char.{code}
use Prim.Native.String.{String}
use safe_network_archive.Prelude.{
  ℕ, ◌≡◌, refl, ◌↔◌, Bool, true, false, ◌&&◌, ◌||◌, List, [], ◌∷◌, ◌++◌, Ord, ltb, ◌==◌, arith,
  if◌then◌else◌, Option, none, some,
}

abbrev pub Text : Type 0
Text = List ℕ

abbrev pub codes : String → Text
codes String.[] = []
codes (String.◌∷◌ c s) = code c ∷ codes s

abbrev pub text_beq : Text → Text → Bool
text_beq [] [] = true
text_beq [] (d ∷ u) = false
text_beq (c ∷ s) [] = false
text_beq (c ∷ s) (d ∷ u) = c == d && text_beq s u

abbrev pub text_lt : Text → Text → Bool
text_lt [] [] = false
text_lt [] (d ∷ u) = true
text_lt (c ∷ s) [] = false
text_lt (c ∷ s) (d ∷ u) = ltb c d || c == d && text_lt s u

pub text_beq_iff : (s u : Text) → (text_beq s u ≡ true) ↔ (s ≡ u)
text_beq_iff [] [] = ground arith
text_beq_iff [] (d ∷ u) = ground arith
text_beq_iff (c ∷ s) [] = ground arith
text_beq_iff (c ∷ s) (d ∷ u) = ground (arith, text_beq_iff s u)

pub text_lt_irrefl : (s : Text) → text_lt s s ≡ false
text_lt_irrefl [] = refl
text_lt_irrefl (c ∷ s) = ground (arith, text_lt_irrefl s)

pub text_lt_trans : (s u v : Text) → text_lt s u ≡ true → text_lt u v ≡ true → text_lt s v ≡ true
text_lt_trans [] [] v h k = absurd (ground arith)
text_lt_trans [] (d ∷ u) [] h k = absurd (ground arith)
text_lt_trans [] (d ∷ u) (e ∷ v) h k = refl
text_lt_trans (c ∷ s) [] v h k = absurd (ground arith)
text_lt_trans (c ∷ s) (d ∷ u) [] h k = absurd (ground arith)
text_lt_trans (c ∷ s) (d ∷ u) (e ∷ v) h k = ground (arith, text_lt_trans s u v)

pub text_lt_total : (s u : Text) → text_lt s u ≡ false → text_lt u s ≡ false → s ≡ u
text_lt_total [] [] h k = refl
text_lt_total [] (d ∷ u) h k = absurd (ground arith)
text_lt_total (c ∷ s) [] h k = absurd (ground arith)
text_lt_total (c ∷ s) (d ∷ u) h k = ground (arith, text_lt_total s u)

instance abbrev pub text_ord : Ord Text
text_ord = record {
  beq = text_beq;
  lt = text_lt;
  beq_iff = text_beq_iff;
  lt_irrefl = text_lt_irrefl;
  lt_trans = text_lt_trans;
  lt_total = text_lt_total;
}

abbrev pub slash : ℕ
slash = b'/'

-- `split('/')`: the parts between the slashes, one at least.
abbrev pub put_first : ℕ → List Text → List Text
put_first c [] = (c ∷ []) ∷ []
put_first c (part ∷ parts) = (c ∷ part) ∷ parts

unfoldable pub split_slash : Text → List Text
split_slash [] = [] ∷ []
split_slash (c ∷ s) =
    let parts = split_slash s in if c == slash then [] ∷ parts else put_first c parts

-- `join("/")`.
unfoldable pub join_slash : List Text → Text
join_slash [] = []
join_slash (part ∷ parts) = elim parts [
  | [] ↦ part
  | next ∷ rest ↦ part ++ slash ∷ join_slash parts
]

-- What is left after a prefix.
unfoldable pub strip_prefix : Text → Text → Option Text
strip_prefix [] s = some s
strip_prefix (c ∷ p) [] = none
strip_prefix (c ∷ p) (d ∷ s) = let rest = strip_prefix p s in if c == d then rest else none

unfoldable pub starts_with : Text → Text → Bool
starts_with [] s = true
starts_with (c ∷ p) [] = false
starts_with (c ∷ p) (d ∷ s) = c == d && starts_with p s

unfoldable pub ends_with_slash : Text → Bool
ends_with_slash [] = false
ends_with_slash (c ∷ s) = elim s [ [] ↦ c == slash | d ∷ u ↦ ends_with_slash s ]
