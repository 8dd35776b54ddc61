-- ===== src/Text/FilePath.antt =====
-- `PurePosixPath` as src/afk/retrospective_contract.py, src/afk/retrospective_result.py and
-- src/afk/validation_contract.py use it: the parts of a path, and its normal spelling.
use afk_composable_pipeline.Common.{
  String, List, [], ◌∷◌, Bool, false, not, ◌&&◌, ◌==◌, code, cat, str_eq, is_empty, if◌then◌else◌,
  ◌≡◌, refl,
}

abbrev add_to_first : List String → String → List String
add_to_first [] s = s ∷ []
add_to_first (p ∷ ps) s = cat s p ∷ ps

-- `s.split("/")`
unfoldable pub split_slash : String → List String
split_slash String.[] = "" ∷ []
split_slash (String.◌∷◌ c s) =
    let rest = split_slash s in
    if code c == b'/' then "" ∷ rest else add_to_first rest (String.◌∷◌ c "")

abbrev pub kept_part : String → Bool
kept_part p = not (is_empty p) && not (str_eq p ".")

unfoldable pub kept_parts : List String → List String
kept_parts [] = []
kept_parts (p ∷ ps) = let rest = kept_parts ps in if kept_part p then p ∷ rest else rest

abbrev starts_with_slash : String → Bool
starts_with_slash String.[] = false
starts_with_slash (String.◌∷◌ c s) = code c == b'/'

-- The root of a path: two leading slashes, but not three, are kept.
unfoldable pub root_of : String → String
root_of String.[] = ""
root_of (String.◌∷◌ c String.[]) = if code c == b'/' then "/" else ""
root_of (String.◌∷◌ c (String.◌∷◌ d s)) =
    if code c == b'/'
    then (if code d == b'/' && not (starts_with_slash s) then "//" else "/")
    else ""

-- `path.is_absolute()`
unfoldable pub is_absolute : String → Bool
is_absolute s = not (is_empty (root_of s))

abbrev with_root : String → List String → List String
with_root root ps = if is_empty root then ps else root ∷ ps

-- `path.parts`
unfoldable pub path_parts : String → List String
unfolding split_slash kept_parts root_of cat
path_parts s = with_root (root_of s) (kept_parts (split_slash s))

unfoldable pub join_slash : List String → String
join_slash [] = ""
join_slash (p ∷ []) = p
join_slash (p ∷ q ∷ ps) = cat p (cat "/" (join_slash (q ∷ ps)))

abbrev or_dot : String → String
or_dot s = if is_empty s then "." else s

-- `path.as_posix()`, which is `str(path)`
unfoldable pub as_posix : String → String
unfolding split_slash kept_parts root_of join_slash cat
as_posix s = or_dot (cat (root_of s) (join_slash (kept_parts (split_slash s))))

path_parts_runs : path_parts "gates/./cycle-1//" ≡ "gates" ∷ "cycle-1" ∷ []
unfolding path_parts
path_parts_runs = refl

path_parts_absolute : path_parts "/etc" ≡ "/" ∷ "etc" ∷ []
unfolding path_parts
path_parts_absolute = refl

as_posix_runs : as_posix "//a/b/" ≡ "//a/b"
unfolding as_posix
as_posix_runs = refl
