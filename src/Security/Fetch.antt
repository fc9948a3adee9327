-- ===== src/Security/Fetch.antt =====
-- The checks of URLs: `validate_url_target`, `validate_resolved_url`, `contains_internal_url`.
use Prim.Native.String.{◌++◌}
use eeebot_self_evolving.Prelude.{
  ℕ, zero, suc, ◌+◌, ◌-◌, ◌==◌, Bool, true, false, ◌&&◌, ◌||◌, not, Option, none, some, String,
  List, [], ◌∷◌, str_eq, if◌then◌else◌, or_else, truthy, codes, text_of, take, drop, is_space,
}
use eeebot_self_evolving.Prelude.Effects.{Error, Result, ok, raise, Method, pure, ◌>>=◌}
use eeebot_self_evolving.Memory.Store.{is_prefix}
use eeebot_self_evolving.Security.{Address, is_private}

-- The parts of a parsed URL that are read.
pub record Url : Type 0 where
  pub scheme : String
  pub netloc : String
  pub hostname : Option String

-- What `getaddrinfo` does: the addresses, a `gaierror`, or another exception.
pub data Lookup : Type 0 where
  found : List String → Lookup
  unresolved : Lookup
  failed : Error → Lookup

-- `urlparse`, or the text of its exception; the name server, whose answers may differ from call to
-- call; `ip_address`, and its text.
pub record Net : Type 0 where
  pub urlparse : String → Option Url
  pub parse_error : String → String
  pub getaddrinfo : ℕ → String → Lookup
  pub ip_address : String → Option Address
  pub show : Address → String

-- `ok` and the message of an error
abbrev pub Verdict : Type 0
Verdict = Bool × String

module _ (x : Net) where
  -- The loop over the answers; `message` is the error for a private address.
  unfoldable pub verdict_of : (Address → String) → List String → Verdict
  unfolding is_private
  verdict_of message [] = (true, "")
  verdict_of message (i ∷ infos) =
      let rest = verdict_of message infos in
      elim (x.ip_address i) [
        | none ↦ rest
        | some a ↦ if is_private a then (false, message a) else rest
      ]

  abbrev pub looked_up : Lookup → (Address → String) → Verdict → Result Verdict
  looked_up (found infos) message otherwise = ok (verdict_of message infos)
  looked_up unresolved message otherwise = ok otherwise
  looked_up (failed e) message otherwise = raise e

  abbrev pub resolve : String → (Address → String) → Verdict → Method ℕ Verdict
  resolve hostname message otherwise n =
      (looked_up (x.getaddrinfo n hostname) message otherwise, suc n)

  abbrev pub is_web : String → Bool
  is_web scheme = str_eq scheme "http" || str_eq scheme "https"

  abbrev pub blocked : String → Address → String
  blocked hostname a =
      "Blocked: " ++ (hostname ++ (" resolves to private/internal address " ++ x.show a))

  unfoldable pub validate_parsed : Url → Method ℕ Verdict
  unfolding verdict_of
  validate_parsed p =
      let host = or_else p.hostname "" in
      if not (is_web p.scheme)
      then pure (
        false,
        "Only http/https allowed, got '"
            ++ ((if str_eq p.scheme "" then "none" else p.scheme) ++ "'"),
      )
      else if str_eq p.netloc ""
      then pure (false, "Missing domain")
      else if not (truthy p.hostname)
      then pure (false, "Missing hostname")
      else resolve host (blocked host) (false, "Cannot resolve hostname: " ++ host)

  unfoldable pub validate_url_target : String → Method ℕ Verdict
  unfolding validate_parsed
  validate_url_target url = elim (x.urlparse url) [
    | none ↦ pure (false, x.parse_error url)
    | some p ↦ validate_parsed p
  ]

  abbrev pub redirected : String → Address → String
  redirected hostname a =
      "Redirect target " ++ (hostname ++ (" resolves to private address " ++ x.show a))

  abbrev pub validate_address : Address → Verdict
  validate_address a =
      if is_private a
      then (false, "Redirect target is a private address: " ++ x.show a)
      else (true, "")

  abbrev pub validate_host : String → Method ℕ Verdict
  validate_host hostname = elim (x.ip_address hostname) [
    | some a ↦ pure (validate_address a)
    | none ↦ resolve hostname (redirected hostname) (true, "")
  ]

  unfoldable pub validate_resolved_url : String → Method ℕ Verdict
  unfolding verdict_of is_private
  validate_resolved_url url = elim (x.urlparse url) [
    | none ↦ pure (true, "")
    | some p ↦ if truthy p.hostname then validate_host (or_else p.hostname "") else pure (true, "")
  ]

-- A letter in either case; of `s` Python also takes the long form, U+017F.
abbrev pub is_letter : ℕ → ℕ → Bool
is_letter small c = (c == small) || ((c + 32) == small)

-- The characters behind "://" in `_URL_RE`.
abbrev pub in_url : ℕ → Bool
in_url c = not (
    is_space c
    || ((c == b'"')
        || ((c == b'\'')
            || ((c == b'`') || ((c == b';') || ((c == b'|') || ((c == b'<') || (c == b'>'))))))))

-- How many characters of a URL the text begins with.
abbrev pub run_length : List ℕ → ℕ
run_length [] = 0
run_length (c ∷ cs) = if in_url c then suc (run_length cs) else 0

-- One character more.
abbrev pub longer : Option ℕ → Option ℕ
longer none = none
longer (some n) = some (suc n)

-- "://" and at least one character.
abbrev pub match_rest : List ℕ → Option ℕ
match_rest cs =
    let k = run_length (drop 3 cs) in
    if is_prefix (codes "://") cs && not (k == 0) then some (suc (suc (suc k))) else none

-- The optional "s" of "https".
abbrev pub match_scheme : List ℕ → Option ℕ
match_scheme [] = none
match_scheme (c ∷ cs) =
    if is_letter b's' c || (c == 383) then longer (match_rest cs) else match_rest (c ∷ cs)

-- How far a match of `_URL_RE` reaches at the start of the text.
unfoldable pub match_url : List ℕ → Option ℕ
unfolding is_prefix
match_url (h ∷ t ∷ u ∷ p ∷ cs) =
    if (is_letter b'h' h && is_letter b't' t) && (is_letter b't' u && is_letter b'p' p)
    then longer (longer (longer (longer (match_scheme cs))))
    else none
match_url _ = none

-- `_URL_RE.finditer(command)`, of which `skip` characters still belong to the last match.
unfoldable pub find_urls : ℕ → List ℕ → List String
unfolding match_url
find_urls skip [] = []
find_urls (suc skip) (c ∷ cs) = find_urls skip cs
find_urls zero (c ∷ cs) = elim (match_url (c ∷ cs)) [
  | none ↦ find_urls 0 cs
  | some n ↦ text_of (take n (c ∷ cs)) ∷ find_urls (n - 1) cs
]

module _ (x : Net) where
  -- The loop over the found URLs.
  unfoldable pub any_refused : List String → Method ℕ Bool
  unfolding validate_url_target
  any_refused [] = pure false
  any_refused (url ∷ urls) =
      validate_url_target x url >>= λ v. if v.0 then any_refused urls else pure true

  unfoldable pub contains_internal_url : String → Method ℕ Bool
  unfolding any_refused find_urls
  contains_internal_url command = any_refused (find_urls 0 (codes command))
