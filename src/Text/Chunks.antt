-- ===== src/Text/Chunks.antt =====
-- What `split_message` of nanobot/utils/helpers.py returns.
use eeebot_self_evolving.Prelude.{
  length-take-le, ℕ, zero, suc, false, not, some, List, [], ◌∷◌, ◌++◌, leb, leb→le, take, drop,
  length, lstrip, is_space, keep, All, ◌≡◌, ◌≤◌, ◌<◌, inl, inr, refl, sym, ap, ◌∙◌, arith,
  Bool-cases, Option-cases, length-drop, take-append-drop,
}
use eeebot_self_evolving.Text.{rfind, break_at, split_loop, split_message}

-- The characters of a text that are no white space.
abbrev pub visible : List ℕ → List ℕ
visible = keep (λ c. not (is_space c))

abbrev pub joined : List (List ℕ) → List ℕ
joined [] = []
joined (c ∷ cs) = c ++ joined cs

rfind-lt : (c : ℕ) (xs : List ℕ) (p : ℕ) → rfind c xs ≡ some p → p < length xs
unfolding rfind
rfind-lt c [] p h = cc
rfind-lt c (x ∷ xs) p h = elim (Option-cases (rfind c xs)) [
  | inl e ↦ ground arith
  | inr (q, e) ↦ let ih = rfind-lt c xs q e in ground arith
]

visible-append : (xs ys : List ℕ) → visible (xs ++ ys) ≡ visible xs ++ visible ys
visible-append [] ys = refl
visible-append (x ∷ xs) ys = let ih = visible-append xs ys in ground arith

visible-lstrip : (xs : List ℕ) → visible (lstrip xs) ≡ visible xs
visible-lstrip [] = refl
visible-lstrip (x ∷ xs) = let ih = visible-lstrip xs in ground arith

length-lstrip-le : (xs : List ℕ) → length (lstrip xs) ≤ length xs
length-lstrip-le [] = omega arith
length-lstrip-le (x ∷ xs) = let ih = length-lstrip-le xs in ground arith

break_at-bounds :
    (max_len : ℕ) (content : List ℕ)
    → 0 < max_len
    → (0 < break_at max_len content) × (break_at max_len content ≤ max_len)
unfolding break_at
break_at-bounds max_len content h =
    let cut = take max_len content in
    let short = length-take-le max_len content in
    let line = rfind-lt 10 cut in
    let space = rfind-lt 32 cut in
    elim (Option-cases (rfind 10 cut)) [
      | inl e ↦ elim (Option-cases (rfind 32 cut)) [
        | inl f ↦ ground arith
        | inr (q, f) ↦ let g = space q f in ground arith
      ]
      | inr (p, e) ↦ elim (Option-cases (rfind 32 cut)) [
        | inl f ↦ let g = line p e in ground arith
        | inr (q, f) ↦ let g = line p e in let g' = space q f in ground arith
      ]
    ]

-- A chunk that may be sent.
abbrev pub Fits : ℕ → List ℕ → Type 0
Fits max_len c = (0 < length c) × (length c ≤ max_len)

length-take : (n : ℕ) (x : ℕ) (xs : List ℕ) → 0 < n → 0 < length (take n (x ∷ xs))
length-take zero x xs h = omega (arith, h)
length-take (suc n) x xs h = omega arith

append_assoc : (xs ys zs : List ℕ) → (xs ++ ys) ++ zs ≡ xs ++ ys ++ zs
append_assoc [] ys zs = refl
append_assoc (x ∷ xs) ys zs = rw (append_assoc xs ys zs)

append_nil : (xs : List ℕ) → xs ++ [] ≡ xs
append_nil [] = refl
append_nil (x ∷ xs) = rw (append_nil xs)

-- A first chunk, and the chunks of the rest without its leading white space.
visible-round :
    (n : ℕ) (xs : List ℕ) (chunks : List (List ℕ))
    → visible (joined chunks) ≡ visible (lstrip (drop n xs))
    → visible (take n xs ++ joined chunks) ≡ visible xs
visible-round n xs chunks h =
    visible-append (take n xs) (joined chunks)
    ∙ ap (λ v. visible (take n xs) ++ v) (h ∙ visible-lstrip (drop n xs))
    ∙ sym (visible-append (take n xs) (drop n xs))
    ∙ ap visible (take-append-drop n xs)

split_loop-total :
    (fuel max_len : ℕ) (content : List ℕ)
    → 0 < max_len
    → length content ≤ fuel
    → (chunks : List (List ℕ)) × (split_loop fuel max_len content ≡ some chunks)
      × All (Fits max_len) chunks
      × (visible (joined chunks) ≡ visible content)
unfolding split_loop
split_loop-total fuel max_len [] h enough = ([], refl, tt, refl)
split_loop-total zero max_len (x ∷ xs) h enough = absurd (omega (arith, enough))
split_loop-total (suc fuel) max_len (x ∷ xs) h enough =
    elim (Bool-cases (leb (length (x ∷ xs)) max_len)) [
      | inl e ↦ (
        (x ∷ xs) ∷ [],
        rw e refl,
        ((omega arith, leb→le (length (x ∷ xs)) max_len e), tt),
        ap visible (append_nil (x ∷ xs)),
      )
      | inr e ↦
          let pos = break_at max_len (x ∷ xs) in
          let (low, high) = break_at-bounds max_len (x ∷ xs) h in
          let rest = lstrip (drop pos (x ∷ xs)) in
          let shorter : length rest ≤ fuel =
            omega (
              arith,
              length-lstrip-le (drop pos (x ∷ xs)),
              length-drop pos (x ∷ xs),
              low,
              enough,
            ) in
          let (chunks, done, fit, same) = split_loop-total fuel max_len rest h shorter in
          (
            take pos (x ∷ xs) ∷ chunks,
            rw (e, done) refl,
            ((length-take pos x xs low, omega (arith, length-take-le pos (x ∷ xs), high)), fit),
            visible-round pos (x ∷ xs) chunks same,
          )
    ]

split_message-loop :
    (max_len x : ℕ) (xs : List ℕ)
    → leb (length (x ∷ xs)) max_len ≡ false
    → split_message max_len (x ∷ xs) ≡ split_loop (length (x ∷ xs)) max_len (x ∷ xs)
unfolding split_message
split_message-loop max_len x xs e = rw e refl

-- With a positive maximal length the message is split: the loop ends, every chunk has between one
-- and `max_len` characters, and the chunks together hold all characters of the message, in their
-- order, but for white space.
pub split_message_total :
    (max_len : ℕ) (content : List ℕ)
    → 0 < max_len
    → (chunks : List (List ℕ)) × (split_message max_len content ≡ some chunks)
      × All (Fits max_len) chunks
      × (visible (joined chunks) ≡ visible content)
unfolding split_message
split_message_total max_len [] h = ([], refl, tt, refl)
split_message_total max_len (x ∷ xs) h = elim (Bool-cases (leb (length (x ∷ xs)) max_len)) [
  | inl e ↦ (
    (x ∷ xs) ∷ [],
    rw e refl,
    ((omega arith, leb→le (length (x ∷ xs)) max_len e), tt),
    ap visible (append_nil (x ∷ xs)),
  )
  | inr e ↦
      let (chunks, done, fit, same) =
        split_loop-total (length (x ∷ xs)) max_len (x ∷ xs) h (omega arith) in
      (chunks, split_message-loop max_len x xs e ∙ done, fit, same)
]
