-- ===== src/Base/Config.antt =====
-- `_parse_ns_hosts` and `_email_to_rname` of squatter/base.py: the two settings with a structure.
--
-- `from_text` is `dns.name.from_text`, with its exception as a value.
use honeycow.Prelude.{
  Bool, true, false, not, List, [], ◌∷◌, ◌++◌, map, Text, keep_if, is_empty, strip, split, before,
  ends_with, if◌then◌else◌, ◌||◌, Result, ok, raise, value_error, ◌>>=◌, All, ◌≡◌, refl, ap,
  Bool-cases, inl, inr, ◌∙◌,
}
use honeycow.Http.{behind}

-- `text += "."` where the dot is missing.
unfoldable pub with_dot : Text → Text
with_dot text = if ends_with b'.' text then text else text ++ b'.' ∷ []

-- `if not hosts: raise ValueError`
unfoldable pub or_no_hosts : {Name : Type 0} → List Name → Result (List Name)
or_no_hosts [] = raise value_error
or_no_hosts (host ∷ hosts) = ok (host ∷ hosts)

module _ {Name : Type 0} (from_text : Text → Result Name) where
  unfoldable pub parse_tokens : List Text → Result (List Name)
  unfolding with_dot
  parse_tokens [] = ok []
  parse_tokens (token ∷ tokens) =
      let rest = parse_tokens tokens in
      if is_empty (strip token)
      then rest
      else from_text (with_dot (strip token)) >>= λ host. rest >>= λ hosts. ok (host ∷ hosts)

  unfoldable pub parse_ns_hosts : Text → Result (List Name)
  unfolding parse_tokens or_no_hosts
  parse_ns_hosts raw = parse_tokens (split b',' raw) >>= or_no_hosts

  unfoldable pub email_to_rname : Text → Result Name
  email_to_rname email =
      let local = before b'@' email in
      let domain = behind b'@' email in
      if is_empty local || is_empty domain
      then raise value_error
      else from_text (local ++ b'.' ∷ domain ++ b'.' ∷ [])

-- The tokens of a setting that are not blank.
abbrev pub host_texts : Text → List Text
host_texts raw = keep_if (λ t. not (is_empty t)) (map strip (split b',' raw))

is_empty-map :
    {Name : Type 0} (name : Text → Name) (xs : List Text) → is_empty (map name xs) ≡ is_empty xs
is_empty-map name [] = refl
is_empty-map name (x ∷ xs) = refl

hosts_of :
    {Name : Type 0} (hosts : List Name) (texts : List Text)
    → is_empty hosts ≡ is_empty texts
    → or_no_hosts hosts ≡ (if is_empty texts then raise value_error else ok hosts)
unfolding or_no_hosts
hosts_of [] texts e = ap (λ b. if b then raise value_error else ok []) e
hosts_of (h ∷ hs) texts e = ap (λ b. if b then raise value_error else ok (h ∷ hs)) e

-- The text with a dot at its end is a name, be the dot the text's own or not.
abbrev pub IsNamed : {Name : Type 0} → (Text → Result Name) → (Text → Name) → Text → Type 0
IsNamed from_text name t =
    (ends_with b'.' t ≡ true → from_text t ≡ ok (name t))
    × (ends_with b'.' t ≡ false → from_text (t ++ b'.' ∷ []) ≡ ok (name t))

module _ {Name : Type 0} (from_text : Text → Result Name) where
  from_text-with_dot :
      (name : Text → Name) (t : Text)
      → IsNamed from_text name t
      → from_text (with_dot t) ≡ ok (name t)
  unfolding with_dot
  from_text-with_dot name t h = elim (Bool-cases (ends_with b'.' t)) [
    | inl e ↦ rw e (h.0 e)
    | inr e ↦ rw e (h.1 e)
  ]

  -- What the loop reads of the tokens.
  named_tokens :
      (name : Text → Name) (tokens : List Text)
      → All (IsNamed from_text name) (keep_if (λ t. not (is_empty t)) (map strip tokens))
      → parse_tokens from_text tokens
        ≡ ok (map name (keep_if (λ t. not (is_empty t)) (map strip tokens)))
  unfolding parse_tokens
  named_tokens name [] h = refl
  named_tokens name (token ∷ tokens) h = step (named_tokens name tokens) (is_empty (strip token)) h
    where
      texts : List Text
      texts = keep_if (λ t. not (is_empty t)) (map strip tokens)

      step :
          (All (IsNamed from_text name) texts → parse_tokens from_text tokens ≡ ok (map name texts))
          → (b : Bool) → All (IsNamed from_text name) (if not b then strip token ∷ texts else texts)
          → (if b
              then parse_tokens from_text tokens
              else from_text (with_dot (strip token)) >>= λ host.
                  parse_tokens from_text tokens >>= λ hosts. ok (host ∷ hosts))
            ≡ ok (map name (if not b then strip token ∷ texts else texts))
      step named true k = named k
      step named false (a, k) =
          ap (λ m. m >>= λ host. parse_tokens from_text tokens >>= λ hosts. ok (host ∷ hosts))
            (from_text-with_dot name (strip token) a)
          ∙ ap (λ m. m >>= λ hosts. ok (name (strip token) ∷ hosts)) (named k)

  -- Where each token of the setting that is not blank is a name as it stands if it ends with a dot, and
  -- with a dot at its end if it does not, the NS hosts are these names in their order; with no such
  -- token the setting raises ValueError.
  pub parse_ns_hosts_lem :
      (name : Text → Name) (raw : Text)
      → All (IsNamed from_text name) (host_texts raw)
      → parse_ns_hosts from_text raw
        ≡ (if is_empty (host_texts raw) then raise value_error else ok (map name (host_texts raw)))
  unfolding parse_ns_hosts
  parse_ns_hosts_lem name raw h =
      ap (λ m. m >>= or_no_hosts) (named_tokens name (split b',' raw) h)
      ∙ hosts_of (map name (host_texts raw)) (host_texts raw) (is_empty-map name (host_texts raw))
