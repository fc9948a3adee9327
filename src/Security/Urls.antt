-- ===== src/Security/Urls.antt =====
-- What the search for URLs in a command finds.
use mathlib.Core.List.{Memᴰ}
use eeebot_self_evolving.Prelude.{
  ℕ, zero, suc, ◌-◌, ◌≤◌, ◌≡◌, refl, sym, ap, Bool, true, ◌&&◌, ◌||◌, ◌==◌, not, inl, inr, Option,
  none, some, List, [], ◌∷◌, ◌++◌, arith, All, Bool-cases, Option-cases, length, or_else, take,
  codes, text_of, both_true,
}
use eeebot_self_evolving.Memory.Store.{is_prefix}
use eeebot_self_evolving.Security.Fetch.{
  in_url, is_letter, run_length, longer, match_rest, match_scheme, match_url, find_urls,
}

abbrev pub AllInUrl : List ℕ → Type 0
AllInUrl cs = All (λ c. in_url c ≡ true) cs

letter-in_url :
    (small c : ℕ) → 97 ≤ small → small ≤ 122 → is_letter small c ≡ true → in_url c ≡ true
letter-in_url small c low high h = ground arith

run-AllInUrl : (cs : List ℕ) → AllInUrl (take (run_length cs) cs)
run-AllInUrl [] = tt
run-AllInUrl (c ∷ cs) = elim (Bool-cases (in_url c)) [
  | inl e ↦ rw e (e, run-AllInUrl cs)
  | inr e ↦ rw e tt
]

sign-in_url : (c : ℕ) → ((c == 58) || (c == 47)) ≡ true → in_url c ≡ true
sign-in_url c h = ground arith

rest-AllInUrl : (cs : List ℕ) (n : ℕ) → match_rest cs ≡ some n → AllInUrl (take n cs)
unfolding is_prefix
rest-AllInUrl (a ∷ b ∷ c ∷ cs) n h =
    elim (Bool-cases (is_prefix (codes "://") (a ∷ b ∷ c ∷ cs) && not (run_length cs == 0))) [
      | inr e ↦ let h' : none ≡ some n = rw e at h in cc
      | inl e ↦
          let h' : some (suc (suc (suc (run_length cs)))) ≡ some n = rw e at h in
          let same : suc (suc (suc (run_length cs))) ≡ n = ap (λ o. or_else o 0) h' in
          let signs =
            (both_true (is_prefix (codes "://") (a ∷ b ∷ c ∷ cs)) (not (run_length cs == 0)) e).0 in
          rw (sym same) (
            sign-in_url a (ground arith),
            (sign-in_url b (ground arith), (sign-in_url c (ground arith), run-AllInUrl cs)),
          )
    ]
rest-AllInUrl (a ∷ b ∷ []) n h = ground arith
rest-AllInUrl (a ∷ []) n h = ground arith
rest-AllInUrl [] n h = cc

longer-AllInUrl :
    (c : ℕ) (cs : List ℕ) (found : Option ℕ)
    → in_url c ≡ true
    → ((n : ℕ) → found ≡ some n → AllInUrl (take n cs))
    → (n : ℕ) → longer found ≡ some n
    → AllInUrl (take n (c ∷ cs))
longer-AllInUrl c cs none e all n h = cc
longer-AllInUrl c cs (some m) e all n h =
    let same : suc m ≡ n = ap (λ o. or_else o 0) h in rw (sym same) (e, all m refl)

scheme-AllInUrl : (cs : List ℕ) (n : ℕ) → match_scheme cs ≡ some n → AllInUrl (take n cs)
scheme-AllInUrl [] n h = cc
scheme-AllInUrl (c ∷ cs) n h = elim (Bool-cases (is_letter b's' c || (c == 383))) [
  | inr e ↦ rest-AllInUrl (c ∷ cs) n (rw e at h)
  | inl e ↦ longer-AllInUrl c cs (match_rest cs) (s-in_url c e) (rest-AllInUrl cs) n (rw e at h)
]
  where
    s-in_url : (c : ℕ) → (is_letter b's' c || (c == 383)) ≡ true → in_url c ≡ true
    s-in_url c e = ground arith

-- Every character of a match is one of URLs.
match_url-AllInUrl : (cs : List ℕ) (n : ℕ) → match_url cs ≡ some n → AllInUrl (take n cs)
unfolding match_url
match_url-AllInUrl (h ∷ t ∷ u ∷ p ∷ cs) n e =
    elim (Bool-cases
      ((is_letter b'h' h && is_letter b't' t) && (is_letter b't' u && is_letter b'p' p))) [
        | inr k ↦ let e' : none ≡ some n = rw (k, match_url) at e in cc
        | inl k ↦
            let (ht, up) =
              both_true (is_letter b'h' h && is_letter b't' t)
                (is_letter b't' u && is_letter b'p' p) k in
            let (h', t') = both_true (is_letter b'h' h) (is_letter b't' t) ht in
            let (u', p') = both_true (is_letter b't' u) (is_letter b'p' p) up in
            longer-AllInUrl h _ _ (letter-in_url b'h' h (omega arith) (omega arith) h')
              (longer-AllInUrl t _ _ (letter-in_url b't' t (omega arith) (omega arith) t') (
                longer-AllInUrl u _ _ (letter-in_url b't' u (omega arith) (omega arith) u') (
                  longer-AllInUrl p cs (match_scheme cs)
                    (letter-in_url b'p' p (omega arith) (omega arith) p') (scheme-AllInUrl cs))))
              n (rw (k, match_url) at e)
      ]
match_url-AllInUrl (h ∷ t ∷ u ∷ []) n e = cc
match_url-AllInUrl (h ∷ t ∷ []) n e = cc
match_url-AllInUrl (h ∷ []) n e = cc
match_url-AllInUrl [] n e = cc

-- Where a URL may begin: at the start of a text, or behind a character that is not in URLs.
unfoldable pub is_boundary : List ℕ → Bool
is_boundary [] = true
is_boundary (c ∷ []) = not (in_url c)
is_boundary (c ∷ d ∷ ds) = is_boundary (d ∷ ds)

-- Characters of URLs alone do not reach over a boundary.
reach :
    (n c : ℕ) (cs w : List ℕ)
    → is_boundary (c ∷ cs) ≡ true
    → AllInUrl (take n (c ∷ cs ++ w))
    → n ≤ length cs
unfolding is_boundary
reach zero c cs w b h = omega arith
reach (suc n) c [] w b h = ground (arith, h.0)
reach (suc n) c (d ∷ ds) w b h = let r = reach n d ds w b h.1 in omega arith

boundary_tail : (c : ℕ) (cs : List ℕ) → is_boundary (c ∷ cs) ≡ true → is_boundary cs ≡ true
unfolding is_boundary
boundary_tail c [] b = refl
boundary_tail c (d ∷ ds) b = b

found_at_start :
    (w : List ℕ) (k : ℕ) → match_url w ≡ some k → Memᴰ (text_of (take k w)) (find_urls 0 w)
unfolding find_urls match_url
found_at_start [] k h = cc
found_at_start (c ∷ cs) k h = rw (h, find_urls) (Memᴰ.head refl)

-- A match at a boundary is found.
pub find_urls-Mem :
    (skip : ℕ) (pre w : List ℕ) (k : ℕ)
    → is_boundary pre ≡ true
    → skip ≤ length pre - 1
    → match_url w ≡ some k
    → Memᴰ (text_of (take k w)) (find_urls skip (pre ++ w))
unfolding find_urls
find_urls-Mem zero [] w k b low h = found_at_start w k h
find_urls-Mem (suc skip) [] w k b low h = ground arith
find_urls-Mem (suc skip) (c ∷ cs) w k b low h =
    find_urls-Mem skip cs w k (boundary_tail c cs b) (omega arith) h
find_urls-Mem zero (c ∷ cs) w k b low h = elim (Option-cases (match_url (c ∷ cs ++ w))) [
  | inl e ↦ rw (e, find_urls) (find_urls-Mem zero cs w k (boundary_tail c cs b) (omega arith) h)
  | inr (n, e) ↦
      let near = reach n c cs w b (match_url-AllInUrl (c ∷ cs ++ w) n e) in
      rw (e, find_urls)
        (Memᴰ.tail (find_urls-Mem (n - 1) cs w k (boundary_tail c cs b) (omega arith) h))
]
