-- ===== src/Digest/Gains.antt =====
-- What the slot of a source counts: a weight for each event and line of that source.
use mathlib.Core.Logic.{ite}
use honeycow.Prelude.{ℕ, ◌+◌, ◌≡◌, List, [], ◌∷◌, ◌++◌, Text, keep_if, arith, Text_discrete}
use honeycow.Dict.{get, put}
use honeycow.Dict.Laws.{get-put}
use honeycow.Digest.{Event, Ufw}
use honeycow.Digest.Classify.{Family}
use honeycow.Digest.Slots.{
  Counter, Slot, new_slot, slot, dns_slot, stamp, ext_loop, http_ip, http_loop, ufw_port,
  bump_present, ufw_loop,
}
use honeycow.Ip.{IpAddress}
use honeycow.Digest.Window.{is_query, is_http, is_external, summarize_window}
use honeycow.SourceExemptions.{Network}

-- The weights of the elements that have a key, summed.
module _ {A : Type 0} (key : A → Text) (weight : A → ℕ) where
  unfoldable pub weigh : Text → List A → ℕ
  weigh s [] = 0
  weigh s (a ∷ rest) = ite (Text_discrete (key a) s) (weight a) 0 + weigh s rest

  pub weigh-append : (s : Text) (xs ys : List A) → weigh s (xs ++ ys) ≡ weigh s xs + weigh s ys
  unfolding weigh
  weigh-append s [] ys = omega arith
  weigh-append s (x ∷ xs) ys = omega (arith, weigh-append s xs ys)

-- What a number in a slot gains from each event; a first or last time is no matter.
pub record Gains (g : Slot → ℕ) : Type 0 where
  pub new : g new_slot ≡ 0
  pub of_dns : Event → ℕ
  pub of_http : Event → ℕ
  pub of_ufw : Ufw → ℕ
  pub dns_gain : (e : Event) (s : Slot) → g (dns_slot e s) ≡ g s + of_dns e
  pub http_gain :
      (e : Event) (s : Slot) → g (stamp e.ts (record s { http = s.http + 1 })) ≡ g s + of_http e
  pub ufw_gain :
      (u : Ufw) (s : Slot)
      → g (record s { ufw = s.ufw + 1; ufw_ports = bump_present (ufw_port u) s.ufw_ports })
        ≡ g s + of_ufw u

module _ (g : Slot → ℕ) (gains : Gains g) where
  open gains use {of_dns, of_http, of_ufw, dns_gain, http_gain, ufw_gain}

  slot-put :
      (s t : Text) (v : Slot) (b : List (Text × Slot))
      → g (slot t (put Text_discrete s v b)) ≡ ite (Text_discrete s t) (g v) (g (slot t b))
  slot-put s t v b = ground (arith, get-put Text_discrete s t v b)

  gain-put :
      (s t : Text) (v : Slot) (b : List (Text × Slot)) (w : ℕ)
      → g v ≡ g (slot s b) + w
      → g (slot t (put Text_discrete s v b)) ≡ g (slot t b) + ite (Text_discrete s t) w 0
  gain-put s t v b w h = ground (arith, slot-put s t v b)

  ext_loop-gain :
      (t : Text) (es : List Event) (b : List (Text × Slot)) (f : Counter Family)
      → g (slot t (ext_loop es (b, f)).0)
        ≡ g (slot t b) + weigh (λ (e : Event). e.src_ip) of_dns t es
  unfolding ext_loop weigh
  ext_loop-gain t [] b f = omega arith
  ext_loop-gain t (e ∷ es) b f = omega (
    arith,
    ext_loop-gain t es (put Text_discrete e.src_ip (dns_slot e (slot e.src_ip b)) b) _,
    gain-put e.src_ip t (dns_slot e (slot e.src_ip b)) b (of_dns e) (dns_gain e _),
  )

  http_loop-gain :
      (t : Text) (es : List Event) (b : List (Text × Slot))
      → g (slot t (http_loop es b)) ≡ g (slot t b) + weigh http_ip of_http t es
  unfolding http_loop weigh
  http_loop-gain t [] b = omega arith
  http_loop-gain t (e ∷ es) b =
      let s = slot (http_ip e) b in
      let v = stamp e.ts (record s { http = s.http + 1 }) in
      omega (
        arith,
        http_loop-gain t es (put Text_discrete (http_ip e) v b),
        gain-put (http_ip e) t v b (of_http e) (http_gain e s),
      )

  ufw_loop-gain :
      (t : Text) (us : List Ufw) (b : List (Text × Slot))
      → g (slot t (ufw_loop us b)) ≡ g (slot t b) + weigh (λ (u : Ufw). u.src) of_ufw t us
  unfolding ufw_loop weigh
  ufw_loop-gain t [] b = omega arith
  ufw_loop-gain t (u ∷ us) b =
      let s = slot u.src b in
      let v = record s { ufw = s.ufw + 1; ufw_ports = bump_present (ufw_port u) s.ufw_ports } in
      omega (
        arith,
        ufw_loop-gain t us (put Text_discrete u.src v b),
        gain-put u.src t v b (of_ufw u) (ufw_gain u s),
      )

  slot-nil : (t : Text) → g (slot t []) ≡ 0
  unfolding get
  slot-nil t = gains.new

  -- The number in the slot of a digest.
  pub slot-summarize_window :
      (ip : IpAddress) (nets : List Network) (t : Text) (es : List Event) (us : List Ufw)
      (site hour : Text)
      → g (slot t (summarize_window ip es us site hour nets).by_src)
        ≡ weigh (λ (e : Event). e.src_ip) of_dns t (keep_if (is_external ip) (keep_if is_query es))
          + weigh http_ip of_http t (keep_if is_http es)
          + weigh (λ (u : Ufw). u.src) of_ufw t us
  unfolding summarize_window
  slot-summarize_window ip nets t es us site hour =
      let ext = keep_if (is_external ip) (keep_if is_query es) in
      let b = (ext_loop ext ([], [])).0 in
      omega (
        arith,
        ufw_loop-gain t us (http_loop (keep_if is_http es) b),
        http_loop-gain t (keep_if is_http es) b,
        ext_loop-gain t ext [] [],
        slot-nil t,
      )
