-- ===== src/Digest/Hourly/Hours.antt =====
-- The hours of the digests: sorted, and each hour with an event once.
use honeycow.Prelude.{
  ℕ, ◌≤◌, ◌<◌, ◌≡◌, refl, Option, none, some, List, [], ◌∷◌, ◌++◌, All, arith, ◌==◌, if◌then◌else◌,
  ℕ_discrete,
}
use honeycow.Dict.{get, put}
use honeycow.Dict.Laws.{occurrences, occurrences-append}
use honeycow.Digest.{or_default}
use honeycow.Digest.Hourly.{hour_floor, by_hour, keys, insert_hour, sorted_hours}

abbrev pub Ascends : List ℕ → Type 0
Ascends [] = Unit {0}
Ascends (h ∷ hs) = All (λ k. h < k) hs × Ascends hs

abbrev occ : ℕ → List ℕ → ℕ
occ = occurrences ℕ_discrete

occ-above : (h : ℕ) (hs : List ℕ) → All (λ k. h < k) hs → occ h hs ≡ 0
unfolding occurrences
occ-above h [] a = refl
occ-above h (k ∷ hs) a = ground (arith, occ-above h hs a.1)

All-later : (h k : ℕ) (hs : List ℕ) → h < k → All (λ j. k < j) hs → All (λ j. h < j) hs
All-later h k [] lt a = tt
All-later h k (j ∷ hs) lt a = (omega arith, All-later h k hs lt a.1)

insert_hour-All :
    (b h : ℕ) (hs : List ℕ) → b < h → All (λ k. b < k) hs → All (λ k. b < k) (insert_hour h hs)
unfolding insert_hour
insert_hour-All b h [] lt a = (lt, tt)
insert_hour-All b h (k ∷ hs) lt a = ground (arith, insert_hour-All b h hs lt a.1)

insert_hour-Ascends : (h : ℕ) (hs : List ℕ) → Ascends hs → Ascends (insert_hour h hs)
unfolding insert_hour
insert_hour-Ascends h [] s = (tt, tt)
insert_hour-Ascends h (k ∷ hs) s = ground (
  arith,
  insert_hour-Ascends h hs s.1,
  λ (lt : h < k). All-later h k hs lt s.0,
  λ (lt : k < h). insert_hour-All k h hs lt s.0,
)

-- Adding an hour: it stands there once, and the others as before.
occ-insert_hour :
    (j h : ℕ) (hs : List ℕ)
    → Ascends hs
    → occ j (insert_hour h hs) ≡ (if h == j then 1 else occ j hs)
unfolding insert_hour occurrences
occ-insert_hour j h [] s = ground arith
occ-insert_hour j h (k ∷ hs) s = ground (
  arith,
  occ-insert_hour j h hs s.1,
  occ-above k hs s.0,
  λ (lt : h < k). occ-above h hs (All-later h k hs lt s.0),
)

pub sorted_hours-Ascends : (hs : List ℕ) → Ascends (sorted_hours hs)
unfolding sorted_hours
sorted_hours-Ascends [] = tt
sorted_hours-Ascends (h ∷ hs) = insert_hour-Ascends h (sorted_hours hs) (sorted_hours-Ascends hs)

pub occ-sorted_hours :
    (j : ℕ) (hs : List ℕ) → occ j (sorted_hours hs) ≡ (if occ j hs == 0 then 0 else 1)
unfolding sorted_hours occurrences
occ-sorted_hours j [] = refl
occ-sorted_hours j (h ∷ hs) =
    ground (
      arith,
      occ-insert_hour j h (sorted_hours hs) (sorted_hours-Ascends hs),
      occ-sorted_hours j hs,
    )

module _ {A : Type 0} where
  occ-keys-put :
      (j h : ℕ) (v : List A) (b : List (ℕ × List A))
      → (occ j (keys b) ≤ occ j (keys (put ℕ_discrete h v b)))
        × (1 ≤ occ h (keys (put ℕ_discrete h v b)))
  unfolding put keys occurrences
  occ-keys-put j h v [] = ground arith
  occ-keys-put j h v ((k, w) ∷ b) = ground (arith, occ-keys-put j h v b)

  occ-keys-by_hour :
      (j : ℕ) (events : List (Option ℕ × A)) (b : List (ℕ × List A))
      → occ j (keys b) ≤ occ j (keys (by_hour events b))
  unfolding by_hour
  occ-keys-by_hour j [] b = omega arith
  occ-keys-by_hour j ((none, a) ∷ rest) b = occ-keys-by_hour j rest b
  occ-keys-by_hour j ((some ts, a) ∷ rest) b =
      let h = hour_floor ts in
      let v = or_default (get ℕ_discrete h b) [] ++ a ∷ [] in
      omega (arith, occ-keys-by_hour j rest (put ℕ_discrete h v b), (occ-keys-put j h v b).0)

  -- Each hour of an event stands in the list once.
  abbrev pub Covers : List ℕ → List (Option ℕ × A) → Type 0
  Covers hs [] = Unit {0}
  Covers hs ((none, a) ∷ rest) = Covers hs rest
  Covers hs ((some ts, a) ∷ rest) = (occ (hour_floor ts) hs ≡ 1) × Covers hs rest

  Covers-keys :
      (hs : List ℕ) (events : List (Option ℕ × A)) (b : List (ℕ × List A))
      → ((j : ℕ) → 1 ≤ occ j (keys (by_hour events b)) → occ j hs ≡ 1)
      → Covers hs events
  unfolding by_hour
  Covers-keys hs [] b once = tt
  Covers-keys hs ((none, a) ∷ rest) b once = Covers-keys hs rest b once
  Covers-keys hs ((some ts, a) ∷ rest) b once =
      let h = hour_floor ts in
      let v = or_default (get ℕ_discrete h b) [] ++ a ∷ [] in
      (
        once h (
            omega
              (arith, occ-keys-by_hour h rest (put ℕ_discrete h v b), (occ-keys-put h h v b).1)),
        Covers-keys hs rest (put ℕ_discrete h v b) once,
      )

  pub sorted_hours-Covers :
      (events : List (Option ℕ × A)) (before after : List ℕ)
      → Covers (sorted_hours (before ++ (keys (by_hour events []) ++ after))) events
  sorted_hours-Covers events before after = Covers-keys _ events [] λ j at_least.
      let l = before ++ (keys (by_hour events []) ++ after) in
      ground (
        arith,
        occ-sorted_hours j l,
        occurrences-append ℕ_discrete j before (keys (by_hour events []) ++ after),
        occurrences-append ℕ_discrete j (keys (by_hour events [])) after,
      )
