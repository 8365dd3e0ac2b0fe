-- ===== src/Dashboard/Leaders.antt =====
-- The leaders of `cluster_by_paths` of tools/dashboard.py, and who joins them.
use mathlib.Core.List.{Mem, mem-cons_self, mem-cons_of_mem}
use honeycow.Prelude.{
  ℕ, Bool, true, false, List, [], ◌∷◌, ◌++◌, Text, All, ◌≡◌, ◌⊎◌, refl, inl, inr, All-append,
  if◌then◌else◌,
}
use honeycow.Dashboard.{
  Source, Leader, is_before, insert_source, sort_sources, is_similar, join_leader, lead_loop,
}

module _ (reaches : ℕ → ℕ → Bool) where
  -- The leaders in order, none of them similar to an earlier one.
  abbrev pub Apart : List Leader → Type 0
  Apart [] = Unit
  Apart ((lead, members) ∷ leaders) =
      All (λ other. is_similar reaches lead (other.0) ≡ false) leaders × Apart leaders

  if_joined :
      (P : List Leader → Type 0) (b : Bool) (x y : List Leader)
      → (b ≡ true → P x)
      → (b ≡ false → P y)
      → P (if b then x else y)
  if_joined P true x y h k = h refl
  if_joined P false x y h k = k refl

  join_leader-All :
      (P : List Text → Type 0) (x : Source) (leaders : List Leader)
      → P (x.1)
      → All (λ other. P (other.0)) leaders
      → All (λ other. P (other.0)) (join_leader reaches x leaders)
  unfolding join_leader
  join_leader-All P x [] p h = (p, tt)
  join_leader-All P (ip, s) ((lead, members) ∷ leaders) p h =
      if_joined (All (λ other. P (other.0))) (is_similar reaches lead s)
        ((lead, members ++ ip ∷ []) ∷ leaders)
        ((lead, members) ∷ join_leader reaches (ip, s) leaders) (λ e. (h.0, h.1))
        (λ e. (h.0, join_leader-All P (ip, s) leaders p (h.1)))

  join_leader-Apart :
      (x : Source) (leaders : List Leader) → Apart leaders → Apart (join_leader reaches x leaders)
  unfolding join_leader
  join_leader-Apart x [] a = (tt, tt)
  join_leader-Apart (ip, s) ((lead, members) ∷ leaders) a =
      if_joined Apart (is_similar reaches lead s) ((lead, members ++ ip ∷ []) ∷ leaders)
        ((lead, members) ∷ join_leader reaches (ip, s) leaders) (λ e. (a.0, a.1))
        (λ e. (
          join_leader-All (λ t. is_similar reaches lead t ≡ false) (ip, s) leaders e (a.0),
          join_leader-Apart (ip, s) leaders (a.1),
        ))

  lead_loop-Apart :
      (sources : List Source) (leaders : List Leader)
      → Apart leaders
      → Apart (lead_loop reaches sources leaders)
  unfolding lead_loop
  lead_loop-Apart [] leaders a = a
  lead_loop-Apart (x ∷ sources) leaders a =
      lead_loop-Apart sources (join_leader reaches x leaders) (join_leader-Apart x leaders a)

  module _ (path_sets : List Source) where
    -- A member has a set in the dictionary, which is the leader's or similar to it.
    abbrev pub Fits : List Text → Text → Type 0
    Fits lead ip =
        (s : List Text) × Mem (ip, s) path_sets × ((s ≡ lead) ⊎ (is_similar reaches lead s ≡ true))

    abbrev pub AllFit : List Leader → Type 0
    AllFit = All (λ leader. All (Fits (leader.0)) (leader.1))

    join_leader-AllFit :
        (x : Source) (leaders : List Leader)
        → Mem x path_sets
        → AllFit leaders
        → AllFit (join_leader reaches x leaders)
    unfolding join_leader
    join_leader-AllFit (ip, s) [] m f = (((s, m, inl refl), tt), tt)
    join_leader-AllFit (ip, s) ((lead, members) ∷ leaders) m f =
        if_joined AllFit (is_similar reaches lead s) ((lead, members ++ ip ∷ []) ∷ leaders)
          ((lead, members) ∷ join_leader reaches (ip, s) leaders)
          (λ e. (All-append (Fits lead) members (ip ∷ []) (f.0) ((s, m, inr e), tt), f.1))
          (λ e. (f.0, join_leader-AllFit (ip, s) leaders m (f.1)))

    lead_loop-AllFit :
        (sources : List Source) (leaders : List Leader)
        → All (λ x. Mem x path_sets) sources
        → AllFit leaders
        → AllFit (lead_loop reaches sources leaders)
    unfolding lead_loop
    lead_loop-AllFit [] leaders m f = f
    lead_loop-AllFit (x ∷ sources) leaders m f =
        lead_loop-AllFit sources (join_leader reaches x leaders) (m.1)
          (join_leader-AllFit x leaders (m.0) f)

All-insert_source :
    (P : Source → Type 0) (x : Source) (sources : List Source)
    → P x
    → All P sources
    → All P (insert_source x sources)
unfolding insert_source
All-insert_source P x [] p h = (p, tt)
All-insert_source P x (y ∷ sources) p h =
    inserted (is_before y x) (All-insert_source P x sources p (h.1))
  where
    inserted :
        (b : Bool)
        → All P (insert_source x sources)
        → All P (if b then y ∷ insert_source x sources else x ∷ y ∷ sources)
    inserted true k = (h.0, k)
    inserted false k = (p, h)

All-sort_sources :
    (P : Source → Type 0) (sources : List Source) → All P sources → All P (sort_sources sources)
unfolding sort_sources
All-sort_sources P [] h = tt
All-sort_sources P (x ∷ sources) h =
    All-insert_source P x (sort_sources sources) (h.0) (All-sort_sources P sources (h.1))

All-Mem :
    (all part : List Source) → ((x : Source) → Mem x part → Mem x all) → All (λ x. Mem x all) part
All-Mem all [] f = tt
All-Mem all (x ∷ part) f =
    (f x (mem-cons_self), All-Mem all part (λ y m. f y (mem-cons_of_mem _ m)))

-- The leaders of the clusters are pairwise dissimilar in their order, and each member of a cluster has
-- a path set that is its leader's or similar to its leader's: members do not join by way of others.
pub lead_loop-sort_sources :
    (reaches : ℕ → ℕ → Bool) (path_sets : List Source)
    → Apart reaches (lead_loop reaches (sort_sources path_sets) [])
      × AllFit reaches path_sets (lead_loop reaches (sort_sources path_sets) [])
lead_loop-sort_sources reaches path_sets = (
  lead_loop-Apart reaches (sort_sources path_sets) [] tt,
  lead_loop-AllFit reaches path_sets (sort_sources path_sets) []
      (All-sort_sources (λ x. Mem x path_sets) path_sets (All-Mem path_sets path_sets (λ x m. m)))
      tt,
)
