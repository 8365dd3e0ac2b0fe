-- ===== src/Dashboard/Clusters.antt =====
-- The sources in the clusters of tools/dashboard.py.
use honeycow.Prelude.{
  ℕ, ◌+◌, Bool, List, [], ◌∷◌, ◌++◌, map, Text, concat, ◌≡◌, refl, Text_discrete, arith,
}
use honeycow.Dict.Laws.{occurrences, occurrences-append}
use honeycow.Dashboard.{
  Source, Leader, insert_source, sort_sources, join_leader, lead_loop, cluster_by_paths,
}

abbrev pub names : List Source → List Text
names = map (λ x. x.0)

abbrev pub times : Text → List Text → ℕ
times = occurrences Text_discrete

abbrev clustered : List Leader → List Text
clustered leaders = concat (map (λ leader. leader.1) leaders)

times-insert_source :
    (ip : Text) (x : Source) (sources : List Source)
    → times ip (names (insert_source x sources)) ≡ times ip (names (x ∷ sources))
unfolding insert_source occurrences
times-insert_source ip x [] = refl
times-insert_source ip x (y ∷ sources) = ground (arith, times-insert_source ip x sources)

times-sort_sources :
    (ip : Text) (sources : List Source)
    → times ip (names (sort_sources sources)) ≡ times ip (names sources)
unfolding sort_sources occurrences
times-sort_sources ip [] = refl
times-sort_sources ip (x ∷ sources) =
    omega (arith, times-insert_source ip x (sort_sources sources), times-sort_sources ip sources)

module _ (reaches : ℕ → ℕ → Bool) where
  times-join_leader :
      (ip : Text) (x : Source) (leaders : List Leader)
      → times ip (clustered (join_leader reaches x leaders))
        ≡ times ip (x.0 ∷ []) + times ip (clustered leaders)
  unfolding join_leader occurrences
  times-join_leader ip x [] = omega arith
  times-join_leader ip x ((lead, members) ∷ leaders) = ground (
    arith,
    times-join_leader ip x leaders,
    occurrences-append Text_discrete ip members (clustered leaders),
    occurrences-append Text_discrete ip members (clustered (join_leader reaches x leaders)),
    occurrences-append Text_discrete ip (members ++ x.0 ∷ []) (clustered leaders),
    occurrences-append Text_discrete ip members (x.0 ∷ []),
  )

  times-lead_loop :
      (ip : Text) (sources : List Source) (leaders : List Leader)
      → times ip (clustered (lead_loop reaches sources leaders))
        ≡ times ip (names sources) + times ip (clustered leaders)
  unfolding lead_loop occurrences
  times-lead_loop ip [] leaders = omega arith
  times-lead_loop ip (x ∷ sources) leaders = omega (
    arith,
    times-lead_loop ip sources (join_leader reaches x leaders),
    times-join_leader ip x leaders,
  )

  -- Each source is in the clusters as often as in the dictionary of path sets, so exactly once.
  pub times-cluster_by_paths :
      (ip : Text) (path_sets : List Source)
      → times ip (concat (cluster_by_paths reaches path_sets)) ≡ times ip (names path_sets)
  unfolding cluster_by_paths occurrences
  times-cluster_by_paths ip path_sets =
      omega (arith, times-lead_loop ip (sort_sources path_sets) [], times-sort_sources ip path_sets)
