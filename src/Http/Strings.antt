-- ===== src/Http/Strings.antt =====
-- Texts as lists of bytes: strcmp, strncmp and strcasecmp.
use Prim.Native.Char.{code}
use Prim.Native.String.{String}
use fatdog.Base.{ℕ, ◌+◌, List, [], ◌∷◌, map, Bool, true, false, ◌==◌, ltb, leb, ◌&&◌, if◌then◌else◌}

abbrev pub Text : Type 0
Text = List ℕ

abbrev pub codes : String → Text
codes String.[] = []
codes (String.◌∷◌ c s) = code c ∷ codes s

-- The bytes before the first NUL, which the C functions read of c_str().
abbrev pub c_str : Text → Text
c_str [] = []
c_str (c ∷ s) = if c == 0 then [] else c ∷ c_str s

-- strcmp(s, t) == 0
abbrev pub same_text : Text → Text → Bool
same_text [] [] = true
same_text [] (d ∷ t) = false
same_text (c ∷ s) [] = false
same_text (c ∷ s) (d ∷ t) = if c == d then same_text s t else false

-- strncmp(s, t, strlen(s)) == 0
abbrev pub is_prefix : Text → Text → Bool
is_prefix [] t = true
is_prefix (c ∷ s) [] = false
is_prefix (c ∷ s) (d ∷ t) = if c == d then is_prefix s t else false

-- tolower(c), in the C locale
abbrev pub to_lower : ℕ → ℕ
to_lower c = if leb 65 c && leb c 90 then c + 32 else c

-- What strcasecmp compares of a string.
abbrev pub folded : Text → Text
folded s = map to_lower (c_str s)

-- The order of strcmp.
abbrev pub text_less : Text → Text → Bool
text_less s [] = false
text_less [] (d ∷ t) = true
text_less (c ∷ s) (d ∷ t) = if c == d then text_less s t else ltb c d

-- CaseInsensitiveLess: strcasecmp(lhs, rhs) < 0
unfoldable pub case_insensitive_less : Text → Text → Bool
case_insensitive_less lhs rhs = text_less (folded lhs) (folded rhs)
