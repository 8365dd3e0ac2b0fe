-- ===== src/Tests/Clustering.antt =====
-- The clusters of three sources, of which one runs a truncated copy of another's paths.
use honeycow.Prelude.{
  ℕ, ◌*◌, Bool, ◌≡◌, refl, List, [], ◌∷◌, codes, concat, leb, same_text, Text_discrete, ℕ_discrete,
  text_lt,
}
use honeycow.Dashboard
use honeycow.Dashboard.{Source, sort_sources, lead_loop, cluster_by_paths}
use honeycow.Dashboard.Clusters.{times, names, times-cluster_by_paths}
use honeycow.Dashboard.Leaders.{Apart, AllFit, lead_loop-sort_sources}

-- A similarity of one half.
abbrev reaches : ℕ → ℕ → Bool
reaches n m = leb m (n * 2)

abbrev path_sets : List Source
path_sets =
    (codes "192.0.2.1", codes "/a" ∷ [])
    ∷ (codes "192.0.2.2", codes "/b" ∷ [])
    ∷ (codes "192.0.2.3", codes "/a" ∷ codes "/.env" ∷ [])
    ∷ []

cluster_by_paths_test :
    cluster_by_paths reaches path_sets
    ≡ (codes "192.0.2.3" ∷ codes "192.0.2.1" ∷ []) ∷ (codes "192.0.2.2" ∷ []) ∷ []
unfolding Dashboard.cluster_by_paths Dashboard.lead_loop Dashboard.join_leader Dashboard.is_similar
    Dashboard.sort_sources Dashboard.insert_source Dashboard.is_before Dashboard.union_size
    Dashboard.common_size Dashboard.holds_path text_lt same_text Text_discrete ℕ_discrete
cluster_by_paths_test = refl

times-cluster_by_paths_example :
    times (codes "192.0.2.1") (concat (cluster_by_paths reaches path_sets))
    ≡ times (codes "192.0.2.1") (names path_sets)
times-cluster_by_paths_example = times-cluster_by_paths reaches (codes "192.0.2.1") path_sets

lead_loop-sort_sources_example :
    Apart reaches (lead_loop reaches (sort_sources path_sets) [])
    × AllFit reaches path_sets (lead_loop reaches (sort_sources path_sets) [])
lead_loop-sort_sources_example = lead_loop-sort_sources reaches path_sets
