-- ===== src/Tools/Files.antt =====
-- `ReadFileTool` of nanobot/agent/tools/filesystem.py. Texts are lists of code points; `offset` and
-- `limit` are natural numbers, as their schema has them.
pub mod Pages
use eeebot_self_evolving.Prelude.{
  ℕ, zero, suc, ◌+◌, ◌-◌, ◌==◌, Bool, true, false, Option, none, some, String, List, [], ◌∷◌, ◌++◌,
  ltb, if◌then◌else◌, length, take, drop, codes,
}

abbrev pub max_chars : ℕ
max_chars = 128000

abbrev pub default_limit : ℕ
default_limit = 2000

-- What a path leads to, behind `_resolve` and `splitlines`.
pub data Place : Type 0 where
  forbidden : List ℕ → Place
  missing : Place
  no_file : Place
  broken : List ℕ → Place
  lines : List (List ℕ) → Place

-- The lines of a page, and the number of the last line.
pub record Page : Type 0 where
  pub shown : List (List ℕ)
  pub last : ℕ

-- `limit or self._DEFAULT_LIMIT`
abbrev pub limit_or_default : Option ℕ → ℕ
limit_or_default none = default_limit
limit_or_default (some n) = if n == 0 then default_limit else n

abbrev pub smaller : ℕ → ℕ → ℕ
smaller m n = if ltb n m then n else m

-- `"\n".join`
abbrev pub join_text : List (List ℕ) → List ℕ
join_text [] = []
join_text (l ∷ []) = l
join_text (l ∷ m ∷ ms) = l ++ b'\n' ∷ join_text (m ∷ ms)

-- The loop that trims: the lines until `chars` goes beyond the limit.
abbrev pub trimmed : ℕ → List (List ℕ) → List (List ℕ)
trimmed chars [] = []
trimmed chars (l ∷ ls) =
    let rest = trimmed (chars + suc (length l)) ls in
    if ltb max_chars (chars + suc (length l)) then [] else l ∷ rest

-- The part of `numbered` that is shown, and where it ends.
abbrev pub cut : ℕ → ℕ → List (List ℕ) → Page
cut start last numbered =
    if ltb max_chars (length (join_text numbered))
    then record { shown = trimmed 0 numbered; last = start + length (trimmed 0 numbered) }
    else record { shown = numbered; last = last }

module _ (decimal : ℕ → List ℕ) where
  -- The lines with their numbers, of which the first is `start + 1`.
  abbrev pub number_lines : ℕ → List (List ℕ) → List (List ℕ)
  number_lines start [] = []
  number_lines start (l ∷ ls) =
      (decimal (suc start) ++ codes "| " ++ l) ∷ number_lines (suc start) ls

  unfoldable pub page_from : List (List ℕ) → ℕ → Option ℕ → Page
  page_from ls start limit =
      let last = smaller (start + limit_or_default limit) (length ls) in
      cut start last (number_lines start (take (last - start) (drop start ls)))

  abbrev pub footer : ℕ → ℕ → ℕ → List ℕ
  footer offset last total =
      if ltb last total
      then codes "\n\n(Showing lines "
        ++ decimal offset
        ++ b'-' ∷ decimal last
        ++ codes " of "
        ++ decimal total
        ++ codes ". Use offset="
        ++ decimal (suc last)
        ++ codes " to continue.)"
      else codes "\n\n(End of file — " ++ decimal total ++ codes " lines total)"

  abbrev pub page_text : ℕ → ℕ → Page → List ℕ
  page_text offset total page = join_text page.shown ++ footer offset page.last total

  -- `offset`, where 0 counts as 1.
  abbrev pub first_line : ℕ → ℕ
  first_line offset = if ltb offset 1 then 1 else offset

  unfoldable pub read_lines : List ℕ → ℕ → Option ℕ → List (List ℕ) → List ℕ
  unfolding page_from
  read_lines path offset limit ls =
      let total = length ls in
      let first = first_line offset in
      if total == 0
      then codes "(Empty file: " ++ path ++ b')' ∷ []
      else if ltb total first
      then codes "Error: offset "
        ++ decimal first
        ++ codes " is beyond end of file ("
        ++ decimal total
        ++ codes " lines)"
      else page_text first total (page_from ls (first - 1) limit)

  unfoldable pub read_file : Place → List ℕ → ℕ → Option ℕ → List ℕ
  unfolding read_lines
  read_file (Place.forbidden e) path offset limit = codes "Error: " ++ e
  read_file Place.missing path offset limit = codes "Error: File not found: " ++ path
  read_file Place.no_file path offset limit = codes "Error: Not a file: " ++ path
  read_file (Place.broken e) path offset limit = codes "Error reading file: " ++ e
  read_file (Place.lines ls) path offset limit = read_lines path offset limit ls
