-- ===== src/Dashboard.antt =====
-- `cluster_by_paths` of tools/dashboard.py: sources that walked the same paths, as one behaviour.
--
-- A source comes with its set of paths, a list without repetition. `reaches n m` stands for the float
-- comparison `n / m >= threshold`.
pub mod Clusters
pub mod Leaders
pub mod Grade
pub mod Worst
pub mod Earned
pub mod Monotone
use honeycow.Prelude.{
  ℕ, ◌+◌, Bool, true, false, not, ◌&&◌, ◌||◌, List, [], ◌∷◌, ◌++◌, map, Text, length, any, keep_if,
  ltb, ◌==◌, same_text, text_lt, if◌then◌else◌,
}

abbrev pub Source : Type 0
Source = Text × List Text

-- A leader's set and the members that joined it.
abbrev pub Leader : Type 0
Leader = List Text × List Text

-- `len(lead | s)` and `len(lead & s)`
unfoldable pub holds_path : List Text → Text → Bool
holds_path s path = any s (same_text path)

unfoldable pub union_size : List Text → List Text → ℕ
union_size lead s = length lead + length (keep_if (λ path. not (holds_path lead path)) s)

unfoldable pub common_size : List Text → List Text → ℕ
common_size lead s = length (keep_if (holds_path lead) s)

-- The order of the visit: the widest set first, then by name.
unfoldable pub is_before : Source → Source → Bool
is_before (ip, s) (other, t) = ltb (length t) (length s) || length s == length t && text_lt ip other

unfoldable pub insert_source : Source → List Source → List Source
insert_source x [] = x ∷ []
insert_source x (y ∷ sources) =
    if is_before y x then y ∷ insert_source x sources else x ∷ y ∷ sources

unfoldable pub sort_sources : List Source → List Source
unfolding insert_source
sort_sources [] = []
sort_sources (x ∷ sources) = insert_source x (sort_sources sources)

module _ (reaches : ℕ → ℕ → Bool) where
  unfoldable pub is_similar : List Text → List Text → Bool
  unfolding union_size common_size
  is_similar lead s =
      let union = union_size lead s in not (union == 0) && reaches (common_size lead s) union

  -- The inner loop: the source joins the first similar leader, or becomes one.
  unfoldable pub join_leader : Source → List Leader → List Leader
  unfolding is_similar
  join_leader (ip, s) [] = (s, ip ∷ []) ∷ []
  join_leader (ip, s) ((lead, members) ∷ leaders) =
      let rest = join_leader (ip, s) leaders in
      if is_similar lead s then (lead, members ++ ip ∷ []) ∷ leaders else (lead, members) ∷ rest

  unfoldable pub lead_loop : List Source → List Leader → List Leader
  unfolding join_leader
  lead_loop [] leaders = leaders
  lead_loop (x ∷ sources) leaders = lead_loop sources (join_leader x leaders)

  unfoldable pub cluster_by_paths : List Source → List (List Text)
  unfolding lead_loop sort_sources
  cluster_by_paths path_sets = map (λ leader. leader.1) (lead_loop (sort_sources path_sets) [])
