-- ===== src/Digest/Hourly.antt =====
-- `iter_hourly_digests` of tools/honeycow_digest.py: the events and the firewall's lines by hours.
--
-- A time is a number of seconds since the epoch, so `_hour_floor` in UTC is a division; printing an
-- hour is a parameter. What `load_events` and `parse_ufw` stamp is the first of each pair; `none`
-- is a time that is missing.
pub mod Hours
pub mod Whole
use honeycow.Prelude.{
  ℕ, ◌*◌, ◌/◌, ◌==◌, ltb, Option, none, some, List, [], ◌∷◌, ◌++◌, map, Text, if◌then◌else◌,
  ℕ_discrete, any,
}
use honeycow.Dict.{get, put}
use honeycow.Digest.{Event, Ufw, or_default}
use honeycow.Ip.{IpAddress}
use honeycow.Digest.Window.{Digest, summarize_window}
use honeycow.SourceExemptions.{Network}

unfoldable pub hour_floor : ℕ → ℕ
hour_floor ts = ts / 3600 * 3600

-- The two loops that fill a `defaultdict(list)`.
module _ {A : Type 0} where
  unfoldable pub by_hour : List (Option ℕ × A) → List (ℕ × List A) → List (ℕ × List A)
  by_hour [] buckets = buckets
  by_hour ((none, a) ∷ rest) buckets = by_hour rest buckets
  by_hour ((some ts, a) ∷ rest) buckets =
      let h = hour_floor ts in
      by_hour rest (put ℕ_discrete h (or_default (get ℕ_discrete h buckets) [] ++ a ∷ []) buckets)

  unfoldable pub keys : List (ℕ × List A) → List ℕ
  keys [] = []
  keys ((h, bucket) ∷ rest) = h ∷ keys rest

-- Adding an hour to the sorted hours, once.
unfoldable pub insert_hour : ℕ → List ℕ → List ℕ
insert_hour h [] = h ∷ []
insert_hour h (k ∷ rest) =
    if h == k then k ∷ rest else if ltb h k then h ∷ k ∷ rest else k ∷ insert_hour h rest

-- `sorted(set(…))`
unfoldable pub sorted_hours : List ℕ → List ℕ
unfolding insert_hour
sorted_hours [] = []
sorted_hours (h ∷ rest) = insert_hour h (sorted_hours rest)

module _ (ip : IpAddress) (isoformat : ℕ → Text) where
  unfoldable pub iter_hourly_digests :
      List (Option ℕ × Event) → List (Option ℕ × Ufw) → Text → List Network → List Digest
  unfolding sorted_hours keys
  iter_hourly_digests events ufw site_id research_nets =
      let ev_by_hour = by_hour events [] in
      let ufw_by_hour = by_hour ufw [] in
      map
        (λ (h : ℕ).
          summarize_window ip (or_default (get ℕ_discrete h ev_by_hour) [])
            (or_default (get ℕ_discrete h ufw_by_hour) []) site_id (isoformat h) research_nets)
        (sorted_hours (keys ev_by_hour ++ keys ufw_by_hour))
