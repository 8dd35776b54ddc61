-- ===== src/History/Lines.antt =====
-- Python's `bytes.rfind(b"\n") + 1` and `bytes.splitlines(keepends=True)`.
use afk_composable_pipeline.Common.{
  ℕ, suc, ◌+◌, List, [], ◌∷◌, ◌++◌, Bool, false, not, ◌&&◌, ◌||◌, ◌==◌, length, if◌then◌else◌, ◌≡◌,
  refl, All, arith,
}

-- `payload.rfind(b"\n") + 1`
unfoldable pub complete_bytes : List ℕ → ℕ
complete_bytes [] = 0
complete_bytes (b ∷ bs) =
    let rest = complete_bytes bs in if rest == 0 then (if b == 10 then 1 else 0) else suc rest

abbrev pub starts_with_feed : List ℕ → Bool
starts_with_feed [] = false
starts_with_feed (b ∷ bs) = b == 10

-- The byte ends a line; a carriage return before a line feed is one end with it.
abbrev pub ends_line : ℕ → List ℕ → Bool
ends_line b bs = b == 10 || b == 13 && not (starts_with_feed bs)

abbrev pub push : ℕ → List (List ℕ) → List (List ℕ)
push b [] = (b ∷ []) ∷ []
push b (l ∷ ls) = (b ∷ l) ∷ ls

-- `payload.splitlines(keepends=True)`
unfoldable pub split_lines : List ℕ → List (List ℕ)
split_lines [] = []
split_lines (b ∷ bs) =
    let rest = split_lines bs in if ends_line b bs then (b ∷ []) ∷ rest else push b rest

-- No byte of the list ends a line.
abbrev pub IsPlain : List ℕ → Type 0
IsPlain = All (λ b. ((b == 10) ≡ false) × ((b == 13) ≡ false))

-- No byte of the list is a line feed.
abbrev pub IsFeedless : List ℕ → Type 0
IsFeedless = All (λ b. (b == 10) ≡ false)

pub complete_bytes_feedless : (l : List ℕ) → IsFeedless l → complete_bytes l ≡ 0
unfolding complete_bytes
complete_bytes_feedless [] h = refl
complete_bytes_feedless (b ∷ l) h = ground (arith, complete_bytes_feedless l h.1)

pub complete_bytes_behind :
    (l r : List ℕ) → complete_bytes (l ++ 10 ∷ r) ≡ suc (length l) + complete_bytes r
unfolding complete_bytes
complete_bytes_behind [] r = ground arith
complete_bytes_behind (b ∷ l) r = ground (arith, complete_bytes_behind l r)

pub split_lines-line :
    (l r : List ℕ) → IsPlain l → split_lines (l ++ 10 ∷ r) ≡ (l ++ 10 ∷ []) ∷ split_lines r
unfolding split_lines
split_lines-line [] r h = refl
split_lines-line (b ∷ l) r h = ground (arith, split_lines-line l r h.1)
