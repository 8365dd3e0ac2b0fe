-- ===== src/Digest/Hourly/Whole.antt =====
-- The measures of the hourly digests of a log, merged, against those of one digest of the log.
use mathlib.Core.List.{append-nil}
use honeycow.Prelude.{
  ℕ, ◌+◌, ◌≡◌, refl, subst, Option, none, some, List, [], ◌∷◌, ◌++◌, map, Text, All, arith,
  ℕ_discrete,
}
use honeycow.Dict.{get, put}
use honeycow.Dict.Laws.{occurrences, get-put}
use honeycow.Digest.{Event, Ufw, or_default}
use honeycow.Digest.Hourly.{hour_floor, by_hour, keys, sorted_hours, iter_hourly_digests}
use honeycow.Digest.Hourly.Hours.{Covers, sorted_hours-Covers}
use honeycow.Digest.Measures.{Measure, of_digest, of_merged}
use honeycow.Digest.Measures.Sums.{IsDictionary, sum_of, of_merged-merge_digests}
use honeycow.Digest.Measures.Whole.{of_digest-IsAdditive, summarize_window-IsDictionary}
use honeycow.Digest.Merge.{merge_digests}
use honeycow.Ip.{IpAddress}
use honeycow.Digest.Window.{Digest, summarize_window}
use honeycow.SourceExemptions.{Network}

-- The values whose time is there: the others are skipped.
abbrev pub stamped : {A : Type 0} → List (Option ℕ × A) → List A
stamped [] = []
stamped ((none, a) ∷ rest) = stamped rest
stamped ((some ts, a) ∷ rest) = a ∷ stamped rest

-- The values of an hour.
abbrev pub bucket : {A : Type 0} → List (ℕ × List A) → ℕ → List A
bucket b h = or_default (get ℕ_discrete h b) []

-- An additive number of a list.
module _ {A : Type 0} (f : List A → ℕ) (zero_law : f [] ≡ 0)
    (parts : (xs ys : List A) → f (xs ++ ys) ≡ f xs + f ys) where
  abbrev pub in_buckets : List ℕ → List (ℕ × List A) → ℕ
  in_buckets hs b = sum_of (λ h. f (bucket b h)) hs

  put-elsewhere :
      (k : ℕ) (v : List A) (b : List (ℕ × List A)) (hs : List ℕ)
      → occurrences ℕ_discrete k hs ≡ 0
      → in_buckets hs (put ℕ_discrete k v b) ≡ in_buckets hs b
  unfolding sum_of occurrences
  put-elsewhere k v b [] none_there = refl
  put-elsewhere k v b (h ∷ hs) none_there =
      ground (arith, get-put ℕ_discrete k h v b, put-elsewhere k v b hs)

  in_buckets-put :
      (k : ℕ) (a : A) (b : List (ℕ × List A)) (hs : List ℕ)
      → occurrences ℕ_discrete k hs ≡ 1
      → in_buckets hs (put ℕ_discrete k (bucket b k ++ a ∷ []) b) ≡ in_buckets hs b + f (a ∷ [])
  unfolding sum_of occurrences
  in_buckets-put k a b [] once = absurd (omega arith)
  in_buckets-put k a b (h ∷ hs) once =
      let v = bucket b k ++ a ∷ [] in
      ground (
        arith,
        get-put ℕ_discrete k h v b,
        in_buckets-put k a b hs,
        put-elsewhere k v b hs,
        parts (bucket b k) (a ∷ []),
      )

  in_buckets-by_hour :
      (hs : List ℕ) (events : List (Option ℕ × A)) (b : List (ℕ × List A))
      → Covers hs events
      → in_buckets hs (by_hour events b) ≡ in_buckets hs b + f (stamped events)
  unfolding by_hour
  in_buckets-by_hour hs [] b c = omega (arith, zero_law)
  in_buckets-by_hour hs ((none, a) ∷ rest) b c = in_buckets-by_hour hs rest b c
  in_buckets-by_hour hs ((some ts, a) ∷ rest) b c =
      let h = hour_floor ts in
      omega (
        arith,
        in_buckets-by_hour hs rest (put ℕ_discrete h (bucket b h ++ a ∷ []) b) c.1,
        in_buckets-put h a b hs c.0,
        parts (a ∷ []) (stamped rest),
      )

  in_buckets-nil : (hs : List ℕ) → in_buckets hs [] ≡ 0
  unfolding sum_of get
  in_buckets-nil [] = refl
  in_buckets-nil (h ∷ hs) = omega (arith, in_buckets-nil hs, zero_law)

  -- The buckets of the hours hold what has a time.
  pub in_buckets-stamped :
      (hs : List ℕ) (events : List (Option ℕ × A))
      → Covers hs events
      → in_buckets hs (by_hour events []) ≡ f (stamped events)
  in_buckets-stamped hs events c =
      omega (arith, in_buckets-by_hour hs events [] c, in_buckets-nil hs)

module _ (ip : IpAddress) (isoformat : ℕ → Text) (site : Text) (nets : List Network) where
  -- The digest of an hour.
  abbrev hour_digest : List (ℕ × List Event) → List (ℕ × List Ufw) → ℕ → Digest
  hour_digest ev us h = summarize_window ip (bucket ev h) (bucket us h) site (isoformat h) nets

  module _ (x : Measure) where
    of_events : List Event → ℕ
    of_events es = of_digest x (summarize_window ip es [] site [] nets)

    of_ufw : List Ufw → ℕ
    of_ufw us = of_digest x (summarize_window ip [] us site [] nets)

    -- A number of a digest is that of its events and that of its firewall lines.
    apart :
        (es : List Event) (us : List Ufw) (hour : Text)
        → of_digest x (summarize_window ip es us site hour nets) ≡ of_events es + of_ufw us
    unfolding of_events of_ufw
    apart es us hour =
        let sum = (of_digest-IsAdditive ip nets x).parts es [] [] us site hour site [] site [] in
        subst
          (λ l. of_digest x (summarize_window ip l us site hour nets) ≡ of_events es + of_ufw us)
          (append-nil es) sum

    hour_digests-sum :
        (ev : List (ℕ × List Event)) (us : List (ℕ × List Ufw)) (hs : List ℕ)
        → sum_of (of_digest x) (map (hour_digest ev us) hs)
          ≡ sum_of (λ h. of_events (bucket ev h)) hs + sum_of (λ h. of_ufw (bucket us h)) hs
    unfolding sum_of
    hour_digests-sum ev us [] = refl
    hour_digests-sum ev us (h ∷ hs) =
        omega (arith, hour_digests-sum ev us hs, apart (bucket ev h) (bucket us h) (isoformat h))

  All-hour_digest :
      (ev : List (ℕ × List Event)) (us : List (ℕ × List Ufw)) (hs : List ℕ)
      → All IsDictionary (map (hour_digest ev us) hs)
  All-hour_digest ev us [] = tt
  All-hour_digest ev us (h ∷ hs) =
      (summarize_window-IsDictionary ip nets _ _ site _, All-hour_digest ev us hs)

  -- The hourly digests of a log, merged, report of every measure (the totals, the counts of families,
  -- paths, user agents, ports, exempt sources and inbound responses, and of each source the DNS, HTTP and
  -- firewall counts and the counts of its types, classes, families, handlers and ports, and of each
  -- research scanner the hits, the refused queries and the counts of its sources) the number that
  -- one digest of all events and firewall lines with a time reports.
  pub merge_digests-iter_hourly_digests :
      (x : Measure) (events : List (Option ℕ × Event)) (ufw : List (Option ℕ × Ufw)) (hour : Text)
      → of_merged x (merge_digests (iter_hourly_digests ip isoformat events ufw site nets))
        ≡ of_digest x (summarize_window ip (stamped events) (stamped ufw) site hour nets)
  unfolding iter_hourly_digests of_events of_ufw
  merge_digests-iter_hourly_digests x events ufw hour =
      let ev = by_hour events [] in
      let us = by_hour ufw [] in
      let hs = sorted_hours (keys ev ++ keys us) in
      let additive = of_digest-IsAdditive ip nets x in
      omega (
        arith,
        of_merged-merge_digests x (map (hour_digest ev us) hs) (All-hour_digest ev us hs),
        hour_digests-sum x ev us hs,
        apart x (stamped events) (stamped ufw) hour,
        in_buckets-stamped (of_events x) (additive.empty site [])
            (λ es es'. additive.parts es es' [] [] site [] site [] site []) hs events
            (sorted_hours-Covers events [] (keys us)),
        in_buckets-stamped (of_ufw x) (additive.empty site [])
            (λ us us'. additive.parts [] [] us us' site [] site [] site []) hs ufw
            (subst (λ l. Covers (sorted_hours (keys ev ++ l)) ufw) (append-nil (keys us))
              (sorted_hours-Covers ufw (keys ev) [])),
      )
