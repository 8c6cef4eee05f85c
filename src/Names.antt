-- ===== src/Names.antt =====
-- src/mechagnome/kernel.py, `_TOOL_NAME`, `_TOOLBOX_NAME`, `_NAMESPACE_PATH` and the default name of
-- a directory's toolbox in `Kernel._ensure_cwd_default`; bootstrap.py, `NAMESPACE_PATH_PATTERN`.
-- A text is walked as its code points. `fullmatch` makes the `$` of a pattern idle.

pub mod Defaults
pub mod Paths
use Prim.Native.Char.{code}
use mechagnome.Base.{
  ℕ, zero, suc, String, Bool, true, false, ◌&&◌, ◌||◌, List, [], ◌∷◌, leb, ltb, ◌==◌, nat_eq,
  if◌then◌else◌,
}
use mechagnome.Base.Rows.{length}

abbrev pub codes : String → List ℕ
codes String.[] = []
codes (String.◌∷◌ c s) = code c ∷ codes s

-- [A-Za-z]
abbrev pub is_letter : ℕ → Bool
is_letter c = leb b'A' c && leb c b'Z' || leb b'a' c && leb c b'z'

abbrev pub is_digit : ℕ → Bool
is_digit c = leb b'0' c && leb c b'9'

-- [A-Za-z0-9_.-]
unfoldable pub is_name_char : ℕ → Bool
is_name_char c = is_letter c || is_digit c || c == b'_' || c == b'.' || c == b'-'

-- the first character of a tool's name, [A-Za-z_]
unfoldable pub is_tool_start : ℕ → Bool
is_tool_start c = is_letter c || c == b'_'

-- the first character of a toolbox's name, [A-Za-z0-9_]
unfoldable pub is_word_char : ℕ → Bool
is_word_char c = is_letter c || is_digit c || c == b'_'

abbrev pub all_of : (ℕ → Bool) → List ℕ → Bool
all_of p [] = true
all_of p (c ∷ cs) = p c && all_of p cs

-- one character of the first class, and at most 63 of the second
unfoldable pub matches : (ℕ → Bool) → List ℕ → Bool
matches start [] = false
matches start (c ∷ cs) = start c && (leb (length cs) 63 && all_of is_name_char cs)

-- `_TOOL_NAME.fullmatch(name)`
unfoldable pub is_tool_name : String → Bool
is_tool_name s = matches is_tool_start (codes s)

-- `_TOOLBOX_NAME.fullmatch(name)`
unfoldable pub is_toolbox_name : String → Bool
is_toolbox_name s = matches is_word_char (codes s)

-- `str.isspace` of one character
unfoldable pub is_space : ℕ → Bool
is_space c =
    leb 9 c && leb c 13
    || leb 28 c && leb c 32
    || c == 0x85
    || c == 0xa0
    || c == 0x1680
    || leb 0x2000 c && leb c 0x200a
    || c == 0x2028
    || c == 0x2029
    || c == 0x202f
    || c == 0x205f
    || c == 0x3000

-- `not text.strip()`
unfoldable pub is_blank : String → Bool
is_blank s = all_of is_space (codes s)
