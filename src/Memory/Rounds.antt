-- ===== src/Memory/Rounds.antt =====
-- The boundary that is picked, and what the rounds do to the session and to HISTORY.md
-- (`MemoryConsolidator` of nanobot/agent/memory.py).
use eeebot_self_evolving.Prelude.{
  ℕ, suc, Bool, true, false, ◌&&◌, ◌||◌, Option, none, some, List, [], ◌∷◌, ◌+◌, ◌≡◌, inl, inr, ◌<◌,
  ◌≤◌, ltb, leb, ◌==◌, if◌then◌else◌, drop, length, find_first, refl, arith, Bool-cases,
  length-drop,
}
use eeebot_self_evolving.Session.Message.{Message, Session, has_role}
use eeebot_self_evolving.Memory.Policy.{
  Boundary, boundary_at, boundary_loop, pick_consolidation_boundary,
}

-- All user turns after `start`, with the tokens before them; `ms` begins at the index `i`.
abbrev pub user_turns : (Message → ℕ) → ℕ → List Message → ℕ → ℕ → List Boundary
user_turns tokens start [] i removed = []
user_turns tokens start (m ∷ ms) i removed =
    let later = user_turns tokens start ms (suc i) (removed + tokens m) in
    if ltb start i && has_role "user" m then boundary_at i removed ∷ later else later

abbrev pub last_of : Option Boundary → List Boundary → Option Boundary
last_of last [] = last
last_of last (b ∷ bs) = last_of (some b) bs

-- The first turn that removes enough, or else the last turn.
abbrev pub first_enough : ℕ → Option Boundary → List Boundary → Option Boundary
first_enough wanted last turns = elim (find_first (λ b. leb wanted b.removed_tokens) turns) [
  | some b ↦ some b
  | none ↦ last_of last turns
]

boundary_loop-eq :
    (tokens : Message → ℕ) (wanted start : ℕ) (ms : List Message) (i removed : ℕ)
    (last : Option Boundary)
    → boundary_loop tokens wanted start ms i removed last
      ≡ first_enough wanted last (user_turns tokens start ms i removed)
unfolding boundary_loop
boundary_loop-eq tokens wanted start [] i removed last = refl
boundary_loop-eq tokens wanted start (m ∷ ms) i removed last =
    let ih = boundary_loop-eq tokens wanted start ms (suc i) (removed + tokens m) in
    elim (Bool-cases (ltb start i && has_role "user" m)) [
      | inl e ↦ let h = ih (some (boundary_at i removed)) in ground arith
      | inr e ↦ let h = ih last in ground arith
    ]

-- The boundary lies strictly between the mark and the end, so that a chunk is never empty and
-- never the whole session.
abbrev pub IsInside : ℕ → ℕ → Option Boundary → Type 0
IsInside low high none = Unit
IsInside low high (some b) = (low < b.index) × (b.index < high)

IsInside-if :
    (low high : ℕ) (b : Bool) (x y : Option Boundary)
    → (b ≡ true → IsInside low high x)
    → IsInside low high y
    → IsInside low high (if b then x else y)
IsInside-if low high true x y h k = h refl
IsInside-if low high false x y h k = k

turn_after : (start i : ℕ) (m : Bool) → ltb start i && m ≡ true → start < i
turn_after start i m h = ground arith

and_left : (a b : Bool) → a && b ≡ true → a ≡ true
and_left a b h = ground arith

within :
    (start : ℕ) (ms : List Message)
    → leb (length ms) start ≡ false
    → start + length (drop start ms) ≤ length ms
within start ms e = let d = length-drop start ms in ground arith

boundary_loop-IsInside :
    (tokens : Message → ℕ) (wanted start high : ℕ) (ms : List Message) (i removed : ℕ)
    (last : Option Boundary)
    → i + length ms ≤ high
    → IsInside start high last
    → IsInside start high (boundary_loop tokens wanted start ms i removed last)
unfolding boundary_loop
boundary_loop-IsInside tokens wanted start high [] i removed last short h = h
boundary_loop-IsInside tokens wanted start high (m ∷ ms) i removed last short h =
    let turn = ltb start i && has_role "user" m in
    let here : turn ≡ true → IsInside start high (some (boundary_at i removed)) =
      λ e. (turn_after start i (has_role "user" m) e, omega (arith, short)) in
    IsInside-if start high (turn && leb wanted removed) _ _
      (λ e. here (and_left turn (leb wanted removed) e))
      (boundary_loop-IsInside tokens wanted start high ms (suc i) (removed + tokens m) _
        (omega (arith, short)) (IsInside-if start high turn _ _ here h))

pub pick_consolidation_boundary-IsInside :
    (tokens : Message → ℕ) (s : Session) (wanted : ℕ)
    → IsInside s.last_consolidated (length s.messages) (pick_consolidation_boundary tokens s wanted)
unfolding pick_consolidation_boundary
pick_consolidation_boundary-IsInside tokens s wanted =
    let start = s.last_consolidated in
    elim (Bool-cases (leb (length s.messages) start)) [
      | inl e ↦ rw e tt
      | inr e ↦ rw e (
          IsInside-if start (length s.messages) (wanted == 0) _ _ (λ _. tt)
            (boundary_loop-IsInside tokens wanted start (length s.messages) (drop start s.messages)
              start 0 none (within start s.messages e) tt))
    ]

-- `pick_consolidation_boundary` picks the first user turn after the mark before which enough
-- tokens stand, or the last user turn when none is enough; with nothing left, or nothing wanted,
-- it picks none.
pub pick_consolidation_boundary_lem :
    (tokens : Message → ℕ) (s : Session) (wanted : ℕ)
    → let start = s.last_consolidated in
      pick_consolidation_boundary tokens s wanted ≡ (
        if leb (length s.messages) start || wanted == 0
        then none
        else first_enough wanted none (user_turns tokens start (drop start s.messages) start 0))
unfolding pick_consolidation_boundary
pick_consolidation_boundary_lem tokens s wanted =
    let start = s.last_consolidated in
    let e = boundary_loop-eq tokens wanted start (drop start s.messages) start 0 none in
    ground arith
