-- ===== src/SourceExemptions/Coverage.antt =====
-- Which sources a loaded file exempts, and what a failed load leaves.
use honeycow.Prelude.{
  ℕ, Bool, true, false, ◌||◌, ◌&&◌, ◌≡◌, refl, Option, none, some, List, [], ◌∷◌, ◌++◌, String,
  Text, any, is_empty, is_some, same_string, if◌then◌else◌, splitlines, arith, inl, inr, Bool-cases,
  Option-cases,
}
use honeycow.Exemptions.{ReadText, contents, os_error, decode_error, clean_line}
use honeycow.Exemptions.Coverage.{current}
use honeycow.SourceExemptions.{
  Address, Network, in_network, SourceExemptionList, append_net, load_loop, reload, load_text,
  load_path, load, address_exempt, is_exempt,
}

-- `ip in net`: an address is never in a network of the other version.
unfoldable pub contains : Network → Address → Bool
contains (Network.v4 net prefix) (Address.v4 ip) = in_network 32 ip (net, prefix)
contains (Network.v6 net prefix) (Address.v6 ip) = in_network 128 ip (net, prefix)
contains (Network.v4 net prefix) (Address.v6 ip) = false
contains (Network.v6 net prefix) (Address.v4 ip) = false

any-append {ℓ} : {A : Type ℓ} (s t : List A) (p : A → Bool) → any (s ++ t) p ≡ (any s p || any t p)
any-append [] t p = refl
any-append (x ∷ s) t p = ground (arith, any-append s t p)

-- Whether an address lies in one of the networks of its version.
abbrev in_nets : List (ℕ × ℕ) × List (ℕ × ℕ) → Address → Bool
in_nets nets (Address.v4 ip) = any nets.0 (in_network 32 ip)
in_nets nets (Address.v6 ip) = any nets.1 (in_network 128 ip)

in_nets-append :
    (ip : Address) (net : Network) (nets : List (ℕ × ℕ) × List (ℕ × ℕ))
    → in_nets (append_net net nets) ip ≡ (in_nets nets ip || contains net ip)
unfolding append_net contains
in_nets-append (Address.v4 ip) (Network.v4 net prefix) (a, b) =
    ground (arith, any-append a ((net, prefix) ∷ []) (in_network 32 ip))
in_nets-append (Address.v6 ip) (Network.v6 net prefix) (a, b) =
    ground (arith, any-append b ((net, prefix) ∷ []) (in_network 128 ip))
in_nets-append (Address.v4 ip) (Network.v6 net prefix) (a, b) = ground arith
in_nets-append (Address.v6 ip) (Network.v4 net prefix) (a, b) = ground arith

-- With no networks the early return answers as the search would.
no_nets_exempt :
    (l : SourceExemptionList) (o : Option Address)
    → (is_empty l.v4 && is_empty l.v6) ≡ true
    → address_exempt l o ≡ false
unfolding address_exempt
no_nets_exempt l none h = refl
no_nets_exempt l (some (Address.v4 ip)) h = ground arith
no_nets_exempt l (some (Address.v6 ip)) h = ground arith

or_false : (b : Bool) → b ≡ (b || false)
or_false true = refl
or_false false = refl

module _ (ip_network : Text → Option Network) where
  -- The line is blank, a comment, or a network.
  unfoldable pub is_readable : Text → Bool
  is_readable raw_line =
      is_empty (clean_line raw_line) || is_some (ip_network (clean_line raw_line))

  abbrev pub all_readable : List Text → Bool
  all_readable [] = true
  all_readable (l ∷ ls) = if is_readable l then all_readable ls else false

  -- A line covers the addresses of its network.
  unfoldable pub covers : Address → Text → Bool
  covers ip raw_line =
      if is_empty (clean_line raw_line)
      then false
      else elim (ip_network (clean_line raw_line)) [ none ↦ false | some net ↦ contains net ip ]

  all_readable-load_loop :
      (lines : List Text) (s : List (ℕ × ℕ) × List (ℕ × ℕ))
      → all_readable lines ≡ is_some (load_loop ip_network lines s)
  unfolding load_loop is_readable
  all_readable-load_loop [] s = refl
  all_readable-load_loop (raw_line ∷ lines) s = elim (Bool-cases (is_empty (clean_line raw_line))) [
    | inl blank ↦ ground (arith, blank, all_readable-load_loop lines s)
    | inr full ↦ elim (Option-cases (ip_network (clean_line raw_line))) [
      | inl bad ↦ ground (arith, full, bad)
      | inr (net, good) ↦
          ground (arith, full, good, all_readable-load_loop lines (append_net net s))
    ]
  ]

  module _ (ip : Address) where
    in_nets-load_loop :
        (lines : List Text) (s t : List (ℕ × ℕ) × List (ℕ × ℕ))
        → load_loop ip_network lines s ≡ some t
        → in_nets t ip ≡ (in_nets s ip || any lines (covers ip))
    unfolding load_loop covers
    in_nets-load_loop [] s t h = let e : s ≡ t = cc in rw (← e) (or_false (in_nets s ip))
    in_nets-load_loop (raw_line ∷ lines) s t h =
        elim (Bool-cases (is_empty (clean_line raw_line))) [
          | inl blank ↦ ground (arith, blank, in_nets-load_loop lines s t)
          | inr full ↦ elim (Option-cases (ip_network (clean_line raw_line))) [
            | inl bad ↦ ground (arith, full, bad)
            | inr (net, good) ↦ ground (
              arith,
              full,
              good,
              in_nets-load_loop lines (append_net net s) t,
              in_nets-append ip net s,
            )
          ]
        ]

  nets_exempt :
      (l : SourceExemptionList) (lines : List Text) (t : List (ℕ × ℕ) × List (ℕ × ℕ))
      → load_loop ip_network lines ([], []) ≡ some t
      → (o : Option Address)
      → address_exempt (record l { v4 = t.0; v6 = t.1 }) o
        ≡ (elim o [ none ↦ false | some ip ↦ any lines (covers ip) ])
  unfolding address_exempt
  nets_exempt l lines t h none = refl
  nets_exempt l lines t h (some (Address.v4 ip)) =
      in_nets-load_loop (Address.v4 ip) lines ([], []) t h
  nets_exempt l lines t h (some (Address.v6 ip)) =
      in_nets-load_loop (Address.v6 ip) lines ([], []) t h

  module _ (ip_address : String → Option Address) (src_ip : String) where
    -- A text covers a source that is a non-empty address in a network of one of its lines.
    abbrev pub text_covers : Text → Bool
    text_covers text =
        if same_string src_ip ""
        then false
        else elim (ip_address src_ip) [ none ↦ false | some ip ↦ any (splitlines text) (covers ip) ]

    abbrev pub exempt_after_text : Bool → ReadText → Bool
    exempt_after_text was (contents text) =
        if all_readable (splitlines text) then text_covers text else was
    exempt_after_text was os_error = was
    exempt_after_text was decode_error = was

    abbrev pub exempt_after : Bool → (String → ReadText) → Option String → Bool
    exempt_after was read_text none = was
    exempt_after was read_text (some path) = exempt_after_text was (read_text path)

    is_exempt-reload :
        (l : SourceExemptionList) (lines : List Text) (t : List (ℕ × ℕ) × List (ℕ × ℕ))
        → load_loop ip_network lines ([], []) ≡ some t
        → is_exempt ip_address (record l { v4 = t.0; v6 = t.1 }) src_ip ≡ (
            if same_string src_ip ""
            then false
            else elim (ip_address src_ip) [ none ↦ false | some ip ↦ any lines (covers ip) ])
    unfolding is_exempt address_exempt
    is_exempt-reload l lines t h = ground (
      arith,
      nets_exempt l lines t h (ip_address src_ip),
      no_nets_exempt (record l { v4 = t.0; v6 = t.1 }) (ip_address src_ip),
    )

    is_exempt-load_text :
        (l : SourceExemptionList) (file : ReadText)
        → is_exempt ip_address (current (load_text ip_network l file)) src_ip
          ≡ exempt_after_text (is_exempt ip_address l src_ip) file
    unfolding load_text reload
    is_exempt-load_text l os_error = refl
    is_exempt-load_text l decode_error = refl
    is_exempt-load_text l (contents text) =
        elim (Option-cases (load_loop ip_network (splitlines text) ([], []))) [
          | inl bad ↦ rw (all_readable-load_loop (splitlines text) ([], [])) (rw bad)
          | inr (t, good) ↦
              rw (all_readable-load_loop (splitlines text) ([], []))
                (rw good (is_exempt-reload l (splitlines text) t good))
        ]

    is_exempt-load_path :
        (read_text : String → ReadText) (l : SourceExemptionList) (path : Option String)
        → is_exempt ip_address (current (load_path ip_network read_text l path)) src_ip
          ≡ exempt_after (is_exempt ip_address l src_ip) read_text path
    unfolding load_path
    is_exempt-load_path read_text l none = refl
    is_exempt-load_path read_text l (some path) = is_exempt-load_text l (read_text path)

    -- Whether a source is refused after `load`, on every outcome. With no path, an unreadable file
    -- or a line that is no network, it is refused as before; otherwise exactly if it is an address
    -- in the network of a line, of the same IP version.
    pub is_exempt-load_networks :
        (read_text : String → ReadText) (l : SourceExemptionList)
        → is_exempt ip_address (current (load ip_network read_text l)) src_ip
          ≡ exempt_after (is_exempt ip_address l src_ip) read_text l.path
    unfolding load
    is_exempt-load_networks read_text l = is_exempt-load_path read_text l l.path
