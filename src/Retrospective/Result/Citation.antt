-- ===== src/Retrospective/Result/Citation.antt =====
-- `_citation` and `_artifact` of src/afk/retrospective_result.py.
use afk_composable_pipeline.Common.{
  ℕ, suc, String, List, [], ◌∷◌, Option, none, some, Bool, false, not, ◌&&◌, ◌||◌, ◌==◌, leb, code,
  between, characters, is_empty, str_eq, if◌then◌else◌, ◌≡◌, refl,
}
use afk_composable_pipeline.Common.Order.{is_in}
use afk_composable_pipeline.Text.FilePath.{is_absolute, path_parts, as_posix}
use afk_composable_pipeline.Json.{
  Json, int, str, pos, get, keys_are, str_and, is_int, int_eq, one_of, is_dict, is_list, is_str,
  is_some, eq, has,
}
use afk_composable_pipeline.Json.Lists.{elements}
use afk_composable_pipeline.History.Record.{text_of}
use afk_composable_pipeline.Retrospective.Inventory.{text_limit}
use afk_composable_pipeline.Retrospective.Pointer.{resolve_pointer}

-- The characters that end a line for `str.splitlines`.
abbrev pub is_line_end : ℕ → Bool
is_line_end c = between 10 13 c || between 28 30 c || c == 133 || c == 8232 || c == 8233

-- `pending` says that the line has a character, `after_return` that a "\r" stands before.
unfoldable pub lines_from : Bool → Bool → String → ℕ
lines_from pending after_return String.[] = if pending then 1 else 0
lines_from pending after_return (String.◌∷◌ c s) =
    let joined = after_return && code c == 10 in
    let ends = is_line_end (code c) in
    let rest = lines_from (not joined && not ends) (not joined && code c == 13) s in
    if ends && not joined then suc rest else rest

-- `len(s.splitlines())`
unfoldable pub line_count : String → ℕ
unfolding lines_from
line_count s = lines_from false false s

-- `_artifact`
unfoldable pub is_artifact : String → Bool
is_artifact value =
    not (is_empty value)
    && leb (characters value) text_limit
    && not (is_absolute value)
    && not (is_in ".." (path_parts value))
    && str_eq (as_posix value) value

abbrev pub same_int : Json → Json → Bool
same_int (int a) (int b) = int_eq a b
same_int _ _ = false

-- An event of the source has the sequence.
unfoldable pub any_sequence : Json → List Json → Bool
any_sequence sequence [] = false
any_sequence sequence (e ∷ es) =
    is_dict e && same_int (get e "sequence") sequence || any_sequence sequence es

unfoldable pub event_citation : Json → Json → Bool
event_citation source v =
    keys_are ("artifact" ∷ "event_sequence" ∷ []) v
    && is_int (get v "event_sequence")
    && is_list source
    && any_sequence (get v "event_sequence") (elements source)

unfoldable pub json_citation : Json → Json → Bool
json_citation source v =
    keys_are ("artifact" ∷ "json_pointer" ∷ []) v
    && is_str (get v "json_pointer")
    && is_some (resolve_pointer source (text_of (get v "json_pointer")))

-- `1 <= start <= end <= count`
abbrev pub in_lines : Json → Json → ℕ → Bool
in_lines (int (pos a)) (int (pos b)) count = leb 1 a && leb a b && leb b count
in_lines _ _ count = false

abbrev pub line_total : Json → ℕ
line_total (str s) = line_count s
line_total _ = 0

abbrev pub line_end : Json → Json
line_end v = if has v "line_end" then get v "line_end" else get v "line_start"

unfoldable pub text_citation : Json → Json → Bool
text_citation source v =
    (keys_are ("artifact" ∷ "line_start" ∷ []) v
      || keys_are ("artifact" ∷ "line_start" ∷ "line_end" ∷ []) v)
    && in_lines (get v "line_start") (line_end v) (line_total source)

-- By the kind of the target; the other kinds are refused before.
abbrev pub cited : Json → Json → Option Json → Bool
cited kind v none = false
cited kind v (some source) =
    if eq kind (str "event")
    then event_citation source v
    else if eq kind (str "json")
    then json_citation source v
    else text_citation source v

unfoldable pub valid_target : Json → Bool
valid_target target =
    keys_are ("kind" ∷ "summary_pointer" ∷ []) target
    && one_of ("event" ∷ "json" ∷ "text" ∷ []) (get target "kind")
    && is_str (get target "summary_pointer")

abbrev pub target_of : Json → Json → Json
target_of summary v = get (get summary "citation_manifest") (text_of (get v "artifact"))

-- `_citation`
unfoldable pub is_citation : Json → Json → Bool
is_citation summary v =
    let target = target_of summary v in
    is_dict v
    && str_and is_artifact (get v "artifact")
    && valid_target target
    && cited (get target "kind") v
        (resolve_pointer summary (text_of (get target "summary_pointer")))

line_count_runs : line_count "a\r\nb\n\nc" ≡ 4
unfolding line_count
line_count_runs = refl
