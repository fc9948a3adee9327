-- ===== src/Tools/Names.antt =====
-- The names of the registry (nanobot/agent/tools/registry.py).
use eeebot_self_evolving.Prelude.{
  false, some, String, [], ◌∷◌, ◌≡◌, inl, inr, refl, Bool-cases, str_eq, eq_iff,
}
use eeebot_self_evolving.Tools.{Tool, Registry, register, find_tool}

find_tool-register : (t : Tool) (tools : Registry) → find_tool t.name (register t tools) ≡ some t
unfolding find_tool register
find_tool-register t [] = let self = (eq_iff t.name t.name).1 refl in simp self refl
find_tool-register t (u ∷ us) =
    let self = (eq_iff t.name t.name).1 refl in
    elim (Bool-cases (str_eq u.name t.name)) [
      | inl e ↦ simp (e, self) refl
      | inr e ↦ simp e (find_tool-register t us)
    ]

find_tool-register_other :
    (t : Tool) (name : String) (tools : Registry)
    → str_eq t.name name ≡ false
    → find_tool name (register t tools) ≡ find_tool name tools
unfolding find_tool register
find_tool-register_other t name [] h = simp h refl
find_tool-register_other t name (u ∷ us) h = elim (Bool-cases (str_eq u.name t.name)) [
  | inl e ↦
      let same : u.name ≡ t.name = (eq_iff u.name t.name).0 e in
      let other : str_eq u.name name ≡ false = rw same h in simp (e, h, other) refl
  | inr e ↦ let ih = find_tool-register_other t name us h in simp (e, ih) refl
]

-- After a registration its name finds the new tool, also where another had that name, and every
-- other name finds what it found before.
pub register_lem :
    (t : Tool) (tools : Registry)
    → (find_tool t.name (register t tools) ≡ some t)
      × ((name : String)
          → str_eq t.name name ≡ false
          → find_tool name (register t tools) ≡ find_tool name tools)
register_lem t tools =
    (find_tool-register t tools, λ name h. find_tool-register_other t name tools h)
