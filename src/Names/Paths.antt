-- ===== src/Names/Paths.antt =====
-- src/mechagnome/kernel.py, `_normalize_namespace_path` and the ancestors of a path in
-- `list_tool_namespaces`; bootstrap.py, `NAMESPACE_PATH_MAX` and `NAMESPACE_PATH_PATTERN`.
use Prim.Native.String.{compare}
use Prim.Native.Nat.{Ordering}
use mechagnome.Base.{
  ℕ, String, Bool, true, ◌&&◌, List, [], ◌∷◌, leb, ◌==◌, nat_eq, string_eq, if◌then◌else◌,
}
use mechagnome.Base.Rows.{length}
use mechagnome.Names.{codes, is_word_char, matches}

-- `text.split("/")`, over code points
unfoldable pub split : List ℕ → List (List ℕ)
split [] = [] ∷ []
split (c ∷ cs) = elim (split cs) [
  | [] ↦ (c ∷ []) ∷ []
  | p ∷ ps ↦ if c == b'/' then [] ∷ p ∷ ps else (c ∷ p) ∷ ps
]

abbrev pub all_match : List (List ℕ) → Bool
all_match [] = true
all_match (p ∷ ps) = matches is_word_char p && all_match ps

-- `_NAMESPACE_PATH.fullmatch(path)`: every part between slashes matches, since no part holds one.
unfoldable pub is_namespace_path : String → Bool
unfolding split
is_namespace_path path = leb (length (codes path)) 255 && all_match (split (codes path))

-- `sorted`, of texts
unfoldable pub insert_text : String → List String → List String
insert_text s [] = s ∷ []
insert_text s (t ∷ ts) =
    let rest = insert_text s ts in elim (compare s t) [ Ordering.gt ↦ t ∷ rest | _ ↦ s ∷ t ∷ ts ]

unfoldable pub sort_texts : List String → List String
unfolding insert_text
sort_texts [] = []
sort_texts (s ∷ ss) = insert_text s (sort_texts ss)
