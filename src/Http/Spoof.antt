-- ===== src/Http/Spoof.antt =====
-- Who a request comes from: `_resolve_client_ip` of honey_http.py, on the header as `_parse_request`
-- cuts it.
use honeycow.Prelude.{
  zero, suc, ◌≤◌, ap, sym, ◌∙◌, length, take, keep_if, keep_if-append, length-append,
  length-keep_if-le, ℕ, ◌≡◌, refl, false, [], ◌∷◌, ◌++◌, Text, arith, is_empty, if◌then◌else◌, ◌==◌,
}
use honeycow.Http.{
  last_part_from, last_part, is_trusted_proxy, resolve_client_ip, is_kept, sanitize_header_value,
}
use honeycow.Ip.{IpAddress}

last_part_from-skip :
    (sep : ℕ) (left part s : Text)
    → last_part_from sep part (left ++ sep ∷ s) ≡ last_part_from sep [] s
unfolding last_part_from
last_part_from-skip sep [] part s = ground arith
last_part_from-skip sep (c ∷ left) part s =
    last_part_from-skip sep left (if c == sep then [] else part ++ c ∷ []) s

is_empty-append : (s t : Text) (c : ℕ) → is_empty (s ++ c ∷ t) ≡ false
is_empty-append [] t c = refl
is_empty-append (e ∷ s) t c = refl

resolve_client_ip-skip :
    (ip : IpAddress) (peer_ip left xff : Text)
    → is_empty xff ≡ false
    → resolve_client_ip ip peer_ip (left ++ b',' ∷ xff) ≡ resolve_client_ip ip peer_ip xff
unfolding resolve_client_ip last_part
resolve_client_ip-skip ip peer_ip left xff some_entry =
    rw (is_empty-append left xff b',', last_part_from-skip b',' left [] xff, some_entry) refl

take-whole : (n : ℕ) (s : Text) → length s ≤ n → take n s ≡ s
take-whole zero [] h = refl
take-whole zero (c ∷ s) h = absurd (omega (arith, h))
take-whole (suc n) [] h = refl
take-whole (suc n) (c ∷ s) h = ap (λ t. c ∷ t) (take-whole n s (omega (arith, h)))

-- A value within the limit loses no character to the cut.
sanitize_header_value-short :
    (s : Text) (n : ℕ) → length s ≤ n → sanitize_header_value s n ≡ keep_if is_kept s
unfolding sanitize_header_value
sanitize_header_value-short s n h =
    take-whole n (keep_if is_kept s) (omega (arith, h, length-keep_if-le is_kept s))

sanitize_header_value-append :
    (left xff : Text) (n : ℕ)
    → length (left ++ b',' ∷ xff) ≤ n
    → length xff ≤ n
    → sanitize_header_value (left ++ b',' ∷ xff) n
      ≡ keep_if is_kept left ++ b',' ∷ sanitize_header_value xff n
unfolding is_kept
sanitize_header_value-append left xff n all part =
    sanitize_header_value-short (left ++ b',' ∷ xff) n all
    ∙ keep_if-append is_kept left (b',' ∷ xff)
    ∙ ap (λ t. keep_if is_kept left ++ b',' ∷ t) (sym (sanitize_header_value-short xff n part))

-- Of a header of at most 256 characters, the entries to the left of those that the proxy wrote do not
-- matter, if something is left of what it wrote; and if the peer is no trusted proxy, no header
-- matters at all.
pub resolve_client_ip_lem :
    (ip : IpAddress) (peer_ip left xff : Text)
    → length (left ++ b',' ∷ xff) ≤ 256
    → is_empty (sanitize_header_value xff 256) ≡ false
    → (resolve_client_ip ip peer_ip (sanitize_header_value (left ++ b',' ∷ xff) 256)
        ≡ resolve_client_ip ip peer_ip (sanitize_header_value xff 256))
      × (is_trusted_proxy ip peer_ip ≡ false
          → (header : Text) → resolve_client_ip ip peer_ip header ≡ peer_ip)
unfolding resolve_client_ip
resolve_client_ip_lem ip peer_ip left xff short some_entry = (
  ap (resolve_client_ip ip peer_ip) (
        sanitize_header_value-append left xff 256 short
          (omega (arith, short, length-append left (b',' ∷ xff))))
      ∙ resolve_client_ip-skip ip peer_ip (keep_if is_kept left) (sanitize_header_value xff 256)
          some_entry,
  λ untrusted header. ground (arith, untrusted),
)
