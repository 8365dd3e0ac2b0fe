-- ===== src/Http/Clean.antt =====
-- What the closer lets through into the log: `_parse_request` of honey_http.py.
use honeycow.Prelude.{
  ℕ, zero, suc, ◌≤◌, ◌≡◌, ◌⊎◌, true, List, [], ◌∷◌, Text, All, arith, length, take, keep_if,
  length-take, Bool-cases, inl, inr,
}
use honeycow.Http.{is_kept, sanitize_header_value, parse_request}

-- A tab, or a character that is not below the space.
abbrev pub IsAllowed : ℕ → Type 0
IsAllowed c = (c ≡ 9) ⊎ (32 ≤ c)

-- A field of at most so many characters, all of them such.
abbrev pub IsClean : ℕ → Text → Type 0
IsClean n s = All IsAllowed s × (length s ≤ n)

is_kept-IsAllowed : (c : ℕ) → is_kept c ≡ true → IsAllowed c
unfolding is_kept
is_kept-IsAllowed c kept = ground arith

All-keep_if : (s : Text) → All IsAllowed (keep_if is_kept s)
All-keep_if [] = tt
All-keep_if (c ∷ s) = elim (Bool-cases (is_kept c)) [
  | inl kept ↦ rw kept (is_kept-IsAllowed c kept, All-keep_if s)
  | inr dropped ↦ rw dropped (All-keep_if s)
]

All-take {ℓ κ} : {A : Type ℓ} (P : A → Type κ) (n : ℕ) (s : List A) → All P s → All P (take n s)
All-take P zero s a = tt
All-take P (suc n) [] a = tt
All-take P (suc n) (x ∷ s) a = (a.0, All-take P n s a.1)

sanitize_header_value-IsClean : (s : Text) (n : ℕ) → IsClean n (sanitize_header_value s n)
unfolding sanitize_header_value
sanitize_header_value-IsClean s n = (
  All-take _ n (keep_if is_kept s) (All-keep_if s),
  omega (arith, length-take n (keep_if is_kept s)),
)

-- Whatever the bytes of a request, each field that is read from it is within its limit and has no
-- character below the space but tab.
pub parse_request-IsClean :
    (bytes : Text)
    → let r = parse_request bytes in
      IsClean 16 r.method
      × IsClean 512 r.path
      × IsClean 256 r.host
      × IsClean 512 r.ua
      × IsClean 256 r.xff
unfolding parse_request
parse_request-IsClean bytes = (
  sanitize_header_value-IsClean _ 16,
  sanitize_header_value-IsClean _ 512,
  sanitize_header_value-IsClean _ 256,
  sanitize_header_value-IsClean _ 512,
  sanitize_header_value-IsClean _ 256,
)
