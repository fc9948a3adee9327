-- ===== src/Security/Guard.antt =====
-- What the checks of URLs let through.
use mathlib.Core.Path.{subst}
use mathlib.Core.List.{Memᴰ}
use eeebot_self_evolving.Prelude.{
  ℕ, ◌≡◌, refl, sym, ap, ◌∙◌, Bool, true, false, inl, inr, ◌↔◌, none, some, String, List, [], ◌∷◌,
  ◌++◌, take, codes, text_of, arith, str_eq, or_else, truthy, All, Bool-cases, Option-cases,
  if◌then◌else◌,
}
use eeebot_self_evolving.Prelude.Effects.{Result, ok, raise, pure, bind_inv}
use eeebot_self_evolving.Security.{Address, is_private}
use eeebot_self_evolving.Security.Internal.{in_ranges, is_private_lem}
use eeebot_self_evolving.Security.Fetch.{
  Url, Lookup, Net, Verdict, verdict_of, looked_up, is_web, blocked, validate_parsed,
  validate_url_target, any_refused, match_url, find_urls, contains_internal_url,
}
use eeebot_self_evolving.Security.Urls.{is_boundary, find_urls-Mem}

module _ (x : Net) where
  -- No answer of the name server is an address of the blocked ranges.
  abbrev pub IsPublic : List String → Type 0
  IsPublic [] = Unit
  IsPublic (i ∷ infos) =
      ((a : Address) → x.ip_address i ≡ some a → in_ranges a ≡ false) × IsPublic infos

  pub record IsFetchable (url : String) (n : ℕ) : Type 0 where
    pub parts : Url
    pub parsed : x.urlparse url ≡ some parts
    pub scheme : is_web x parts.scheme ≡ true
    pub netloc : str_eq parts.netloc "" ≡ false
    pub hostname : truthy parts.hostname ≡ true
    pub infos : List String
    pub resolved : x.getaddrinfo n (or_else parts.hostname "") ≡ Lookup.found infos
    pub public : IsPublic infos

  absurd_address : {A : Type 0} (a : Address) → none ≡ some a → A
  absurd_address a e = ground arith

  refused_passed : {A : Type 0} (m : String) (v : Verdict) → v ≡ (true, m) → v.0 ≡ false → A
  refused_passed m v e f = let g : v.0 ≡ true = ap (λ (u : Verdict). u.0) e in ground arith

  verdict-IsPublic :
      (message : Address → String) (infos : List String) (m : String)
      → verdict_of x message infos ≡ (true, m)
      → IsPublic infos × (m ≡ "")
  unfolding verdict_of
  verdict-IsPublic message [] m e = (tt, sym (ap (λ (u : Verdict). u.1) e))
  verdict-IsPublic message (i ∷ infos) m e = elim (Option-cases (x.ip_address i)) [
    | inl h ↦
        let (rest, empty) = verdict-IsPublic message infos m (rw (h, verdict_of) at e) in
        ((λ a k. absurd_address a (sym h ∙ k), rest), empty)
    | inr (a, h) ↦ elim (Bool-cases (is_private a)) [
      | inl private ↦ refused_passed m (false, message a) (rw (h, private, verdict_of) at e) refl
      | inr public ↦
          let (rest, empty) = verdict-IsPublic message infos m (rw (h, public, verdict_of) at e) in
          (
            (
              λ b k.
                  let same : a ≡ b = ap (λ o. or_else o a) (sym h ∙ k) in
                  subst (λ c. in_ranges c ≡ false) same (sym (is_private_lem a) ∙ public),
              rest,
            ),
            empty,
          )
    ]
  ]

  IsPublic-verdict :
      (message : Address → String) (infos : List String)
      → IsPublic infos
      → verdict_of x message infos ≡ (true, "")
  unfolding verdict_of
  IsPublic-verdict message [] h = refl
  IsPublic-verdict message (i ∷ infos) h = elim (Option-cases (x.ip_address i)) [
    | inl k ↦ rw (k, verdict_of) (IsPublic-verdict message infos h.1)
    | inr (a, k) ↦
        rw (k, is_private_lem a, h.0 a k, verdict_of) (IsPublic-verdict message infos h.1)
  ]

  value_of : Result Verdict → Verdict
  value_of (ok v) = v
  value_of (raise e) = (false, "")

  looked_up-IsPublic :
      (answer : Lookup) (message : Address → String) (other m : String)
      → looked_up x answer message (false, other) ≡ ok (true, m)
      → (infos : List String) × (answer ≡ Lookup.found infos) × IsPublic infos × (m ≡ "")
  unfolding value_of
  looked_up-IsPublic (Lookup.found infos) message other m e =
      let h = verdict-IsPublic message infos m (ap value_of e) in (infos, refl, h.0, h.1)
  looked_up-IsPublic Lookup.unresolved message other m e =
      refused_passed m (false, other) (ap value_of e) refl
  looked_up-IsPublic (Lookup.failed x) message other m e =
      refused_passed m (false, "") (ap value_of e) refl

  passed :
      (url : String) (n : ℕ) (m : String)
      → (validate_url_target x url n).0 ≡ ok (true, m)
      → IsFetchable url n × (m ≡ "")
  unfolding validate_url_target validate_parsed value_of
  passed url n m e = elim (Option-cases (x.urlparse url)) [
    | inl h ↦ refused_passed m _ (ap value_of (rw (h, validate_url_target) at e)) refl
    | inr (p, h) ↦
        let e' : (validate_parsed x p n).0 ≡ ok (true, m) = rw (h, validate_url_target) at e in
        elim (Bool-cases (is_web x p.scheme)) [
          | inr web ↦ refused_passed m _ (ap value_of (rw (web, validate_parsed) at e')) refl
          | inl web ↦ elim (Bool-cases (str_eq p.netloc "")) [
            | inl empty ↦
                refused_passed m _ (ap value_of (rw (web, empty, validate_parsed) at e')) refl
            | inr netloc ↦ elim (Bool-cases (truthy p.hostname)) [
              | inr no_host ↦
                  refused_passed m _
                    (ap value_of (rw (web, netloc, no_host, validate_parsed) at e')) refl
              | inl host ↦
                  let name = or_else p.hostname "" in
                  let (infos, resolved, public, empty) =
                    looked_up-IsPublic (x.getaddrinfo n name) (blocked x name) _ m
                      (rw (web, netloc, host, validate_parsed) at e') in
                  (
                    record {
                      parts = p;
                      parsed = h;
                      scheme = web;
                      netloc = netloc;
                      hostname = host;
                      infos = infos;
                      resolved = resolved;
                      public = public;
                    },
                    empty,
                  )
            ]
          ]
        ]
  ]

  passes :
      (url : String) (n : ℕ) → IsFetchable url n → (validate_url_target x url n).0 ≡ ok (true, "")
  unfolding validate_url_target validate_parsed
  passes url n h =
      rw
        (h.parsed, validate_url_target, validate_parsed, h.scheme, h.netloc, h.hostname, h.resolved)
        (ap ok (IsPublic-verdict (blocked x (or_else h.parts.hostname "")) h.infos h.public))

  -- `validate_url_target` lets a URL through, with an empty message, exactly if it can be parsed, its
  -- scheme is http or https, it has a domain and a host name, and the name server finds addresses for
  -- the host none of which lies in a blocked range.
  pub validate_url_target_lem :
      (url : String) (n : ℕ) (m : String)
      → ((validate_url_target x url n).0 ≡ ok (true, m)) ↔ (IsFetchable url n × (m ≡ ""))
  validate_url_target_lem url n m =
      (passed url n m, λ h. passes url n h.0 ∙ ap (λ t. ok (true, t)) (sym h.1))

  -- The URLs of a list that are all fetchable, each at some call of the name server.
  abbrev pub AllFetchable : List String → Type 0
  AllFetchable urls = All (λ url. (n : ℕ) × IsFetchable url n) urls

  url_step :
      (v : Verdict) (n : ℕ) (urls : List String)
      → ((if v.0 then any_refused x urls else pure true) n).0 ≡ ok false
      → (v.0 ≡ true) × ((any_refused x urls n).0 ≡ ok false)
  url_step (true, t) n urls e = (refl, e)
  url_step (false, t) n urls e = cc

  any_refused-AllFetchable :
      (urls : List String) (n : ℕ) → (any_refused x urls n).0 ≡ ok false → AllFetchable urls
  unfolding any_refused
  any_refused-AllFetchable [] n e = tt
  any_refused-AllFetchable (url ∷ urls) n e =
      let (v, n', h, k) = bind_inv (validate_url_target x url) _ n e in
      let (good, rest) = url_step v n' urls (sym (ap (λ (p : Result Bool × ℕ). p.0) k) ∙ e) in
      let result : (validate_url_target x url n).0 ≡ ok (true, v.1) =
        ap (λ (p : Result Verdict × ℕ). p.0) h ∙ ap (λ b. ok (b, v.1)) good in
      ((n, (passed url n v.1 result).0), any_refused-AllFetchable urls n' rest)

  member-IsFetchable :
      (url : String) (urls : List String)
      → Memᴰ url urls
      → AllFetchable urls
      → (n : ℕ) × IsFetchable url n
  member-IsFetchable url [] h all = elim h [ ]
  member-IsFetchable url (u ∷ us) (Memᴰ.head e) all =
      subst (λ t. (n : ℕ) × IsFetchable t n) (sym e) all.0
  member-IsFetchable url (u ∷ us) (Memᴰ.tail h) all = member-IsFetchable url us h all.1

  -- When `contains_internal_url` says no of a command, then every URL in it that begins the command, or
  -- stands behind a character that is not in URLs, can be fetched at some call of the name server: its
  -- host has addresses, and none lies in a blocked range.
  pub contains_internal_url_lem :
      (command : String) (pre w : List ℕ) (k n : ℕ)
      → codes command ≡ pre ++ w
      → is_boundary pre ≡ true
      → match_url w ≡ some k
      → (contains_internal_url x command n).0 ≡ ok false
      → (i : ℕ) × IsFetchable (text_of (take k w)) i
  unfolding contains_internal_url
  contains_internal_url_lem command pre w k n split b h e =
      member-IsFetchable (text_of (take k w)) (find_urls 0 (codes command))
        (rw split (find_urls-Mem 0 pre w k b (omega arith) h))
        (any_refused-AllFetchable (find_urls 0 (codes command)) n e)
