-- ===== src/Tools/Files/Pages.antt =====
-- The pages of a file, one after the other.
use eeebot_self_evolving.Prelude.{
  ℕ, zero, suc, ◌+◌, ◌-◌, ◌≤◌, ◌<◌, ◌≡◌, Option, List, [], ◌++◌, ltb, if◌then◌else◌, length, take,
  All,
}
use eeebot_self_evolving.Tools.Files.{max_chars, Page, page_from}

-- Each line, with its number and a line break, fits on a page.
abbrev pub Fit : List (List ℕ) → Type 0
Fit ls = All (λ l. length l < max_chars) ls

-- A page behind `start` lines, whose numbered lines are `ls`, shows those up to its end.
pub record IsPage (start : ℕ) (ls : List (List ℕ)) (p : Page) : Type 0 where
  pub some_shown : start < p.last
  pub inside : p.last ≤ start + length ls
  pub shown_lines : p.shown ≡ take (p.last - start) ls

module _ (decimal : ℕ → List ℕ) where
  -- All pages from behind `start` lines on: the next one begins where the footer of the last one says.
  unfoldable pub read_on : List (List ℕ) → Option ℕ → ℕ → ℕ → List (List ℕ)
  unfolding page_from
  read_on ls limit zero start = []
  read_on ls limit (suc fuel) start =
      let page = page_from decimal ls start limit in
      let rest = read_on ls limit fuel page.last in
      page.shown ++ (if ltb page.last (length ls) then rest else [])
