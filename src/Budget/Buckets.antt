-- ===== src/Budget/Buckets.antt =====
-- Facts about the buckets of `OutboundBudget`: their sum, their order and what a window holds.
use honeycow.Prelude.{
  ℕ, ◌+◌, ◌-◌, ◌≤◌, ◌<◌, ◌≡◌, refl, sym, ◌∙◌, inl, inr, List, [], ◌∷◌, arith, ltb, leb, leb→le,
  Bool-cases, ◌&&◌, if◌then◌else◌,
}
use honeycow.Budget.{prune_loop, deposit}

-- All bytes in the buckets.
abbrev pub sum_sizes : List (ℕ × ℕ) → ℕ
sum_sizes [] = 0
sum_sizes ((ts, sz) ∷ rest) = sz + sum_sizes rest

-- The bytes of the entries whose second lies in the window (t - w, t].
abbrev pub spent : ℕ → ℕ → List (ℕ × ℕ) → ℕ
spent w t [] = 0
spent w t ((ts, sz) ∷ rest) = (if leb ts t && ltb t (ts + w) then sz else 0) + spent w t rest

-- The seconds ascend from `lo` to `hi`.
abbrev pub Ascends : ℕ → ℕ → List (ℕ × ℕ) → Type 0
Ascends lo hi [] = lo ≤ hi
Ascends lo hi ((ts, sz) ∷ rest) = (lo ≤ ts) × Ascends ts hi rest

pub Ascends-later :
    (lo hi hi' : ℕ) (bs : List (ℕ × ℕ)) → hi ≤ hi' → Ascends lo hi bs → Ascends lo hi' bs
Ascends-later lo hi hi' [] h a = omega arith
Ascends-later lo hi hi' ((ts, sz) ∷ bs) h a = (a.0, Ascends-later ts hi hi' bs h a.1)

pub Ascends-lower :
    (lo lo' hi : ℕ) (bs : List (ℕ × ℕ)) → lo' ≤ lo → Ascends lo hi bs → Ascends lo' hi bs
Ascends-lower lo lo' hi [] h a = omega arith
Ascends-lower lo lo' hi ((ts, sz) ∷ bs) h a = (omega arith, a.1)

pub deposit-Ascends :
    (lo now n : ℕ) (bs : List (ℕ × ℕ)) → Ascends lo now bs → Ascends lo now (deposit now n bs)
unfolding deposit
deposit-Ascends lo now n [] a = omega arith
deposit-Ascends lo now n ((ts, sz) ∷ []) a = ground arith
deposit-Ascends lo now n ((ts, sz) ∷ next ∷ bs) a = (a.0, deposit-Ascends ts now n (next ∷ bs) a.1)

pub sum_sizes-deposit :
    (now n : ℕ) (bs : List (ℕ × ℕ)) → sum_sizes (deposit now n bs) ≡ sum_sizes bs + n
unfolding deposit
sum_sizes-deposit now n [] = omega arith
sum_sizes-deposit now n ((ts, sz) ∷ []) = ground arith
sum_sizes-deposit now n ((ts, sz) ∷ next ∷ bs) = omega (arith, sum_sizes-deposit now n (next ∷ bs))

pub spent-deposit :
    (w t now n : ℕ) (bs : List (ℕ × ℕ)) → spent w t (deposit now n bs) ≡ spent w t ((now, n) ∷ bs)
unfolding deposit
spent-deposit w t now n [] = refl
spent-deposit w t now n ((ts, sz) ∷ []) = ground arith
spent-deposit w t now n ((ts, sz) ∷ next ∷ bs) = ground (arith, spent-deposit w t now n (next ∷ bs))

-- Where every second lies in the window, the window holds all bytes.
pub spent_all :
    (w lo now : ℕ) (bs : List (ℕ × ℕ))
    → now < lo + w
    → Ascends lo now bs
    → spent w now bs ≡ sum_sizes bs
spent_all w lo now [] h a = refl
spent_all w lo now ((ts, sz) ∷ bs) h a =
    ground (arith, spent_all w ts now bs (omega arith) a.1, Ascends-head ts now bs a.1)
  where
    Ascends-head : (lo hi : ℕ) (bs : List (ℕ × ℕ)) → Ascends lo hi bs → lo ≤ hi
    Ascends-head lo hi [] a = a
    Ascends-head lo hi ((ts, sz) ∷ bs) a = omega (arith, Ascends-head ts hi bs a.1)

-- What pruning at `now` does to buckets whose total is their sum and whose seconds ascend.
pub record Pruned (w now lo : ℕ) (bs : List (ℕ × ℕ)) (r : List (ℕ × ℕ) × ℕ) : Type 0 where
  pub total : r.1 ≡ sum_sizes r.0
  pub exact : r.1 ≡ spent w now bs
  pub ascends : Ascends lo now r.0
  pub later : (t : ℕ) → now ≤ t → spent w t r.0 ≡ spent w t bs

Pruned-drop :
    (w now lo ts sz : ℕ) (bs : List (ℕ × ℕ)) (r : List (ℕ × ℕ) × ℕ)
    → ts + w ≤ now
    → Ascends lo now ((ts, sz) ∷ bs)
    → Pruned w now ts bs r
    → Pruned w now lo ((ts, sz) ∷ bs) r
Pruned-drop w now lo ts sz bs r expired a p = record {
  total = p.total;
  exact = ground (arith, p.exact);
  ascends = Ascends-lower ts lo now r.0 a.0 p.ascends;
  later = λ t h. ground (arith, p.later t h);
}

Pruned-keep :
    (w now lo ts sz total : ℕ) (bs : List (ℕ × ℕ))
    → total ≡ sum_sizes ((ts, sz) ∷ bs)
    → Ascends lo now ((ts, sz) ∷ bs)
    → now < ts + w
    → Pruned w now lo ((ts, sz) ∷ bs) ((ts, sz) ∷ bs, total)
Pruned-keep w now lo ts sz total bs e a fresh = record {
  total = e;
  exact = e ∙ sym (spent_all w ts now ((ts, sz) ∷ bs) fresh (omega arith, a.1));
  ascends = a;
  later = λ t h. refl;
}

pub prune_loop-Pruned :
    (w now lo : ℕ) (bs : List (ℕ × ℕ)) (total : ℕ)
    → total ≡ sum_sizes bs
    → Ascends lo now bs
    → Pruned w now lo bs (prune_loop w now bs total)
unfolding prune_loop
prune_loop-Pruned w now lo [] total e a = record {
  total = e;
  exact = e;
  ascends = a;
  later = λ t h. refl;
}
prune_loop-Pruned w now lo ((ts, sz) ∷ bs) total e a = elim (Bool-cases (leb (ts + w) now)) [
  | inl expired ↦ rw expired (
      Pruned-drop w now lo ts sz bs _ (leb→le _ _ expired) a
        (prune_loop-Pruned w now ts bs (total - sz) (omega arith) a.1))
  | inr fresh ↦ rw fresh (Pruned-keep w now lo ts sz total bs e a (ground arith))
]
