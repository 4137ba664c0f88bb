-- ===== src/Engine/Load.antt =====
-- The rebalancing of the load of an engine (core/src/actor_engine.cpp): the counts of rounds, and the
-- pairs of a busy and an idle executor that executor 0 chooses.
-- `sort` is the order that std::sort gives the indices by their counts, in which equal counts may
-- stand in any order; `too_large` is the test of the ratio in doubles.
use zaf.Prelude.{
  ℕ, zero, suc, ◌-◌, Bool, false, ◌||◌, List, [], ◌∷◌, map, length, get_or, set, ltb, ◌==◌,
  if◌then◌else◌,
}

-- One of the two `load_infos`.
pub record LoadInfo : Type 0 where
  pub executor_load_counts : List ℕ
  pub need_load_rebalance : Bool

-- What an executor does after a round: its count, and whether it is to rebalance.
unfoldable pub count_round : (period eid : ℕ) → LoadInfo → LoadInfo × Bool
count_round period eid load =
    if period == 0
    then (load, false)
    else (let n = suc (get_or load.executor_load_counts eid 0) in
        let need = (n == period) || load.need_load_rebalance in
        (
          record {
            executor_load_counts = set load.executor_load_counts eid n;
            need_load_rebalance = need;
          },
          if eid == 0 then need else false,
        ))

module _ (too_large : (slow fast : ℕ) → Bool) (counts : ℕ → ℕ) (indices : List ℕ) where
  -- The loop: the executors that are told Rebalance, each with its peer. It goes on while `i < j`, and
  -- `fuel` is a bound on `j - i`.
  unfoldable pub rebalance_pairs : (fuel i j : ℕ) → List (ℕ × ℕ)
  rebalance_pairs zero i j = []
  rebalance_pairs (suc fuel) i j =
      let idx_i = get_or indices i 0 in
      let idx_j = get_or indices j 0 in
      let rest = rebalance_pairs fuel (suc i) (j - 1) in
      if ltb i j
      then (if too_large (counts idx_i) (counts idx_j) then (idx_i, idx_j) ∷ rest else [])
      else []

module _ (too_large : (slow fast : ℕ) → Bool) (sort : (ℕ → ℕ) → List ℕ → List ℕ) where
  -- The pairs, the order of the indices that is kept, and the counts after the reset.
  unfoldable pub load_rebalance : List ℕ → LoadInfo → List (ℕ × ℕ) × (List ℕ × LoadInfo)
  unfolding rebalance_pairs
  load_rebalance indices load =
      let counts : ℕ → ℕ = λ i. get_or load.executor_load_counts i 0 in
      let sorted = sort counts indices in
      (
        rebalance_pairs too_large counts sorted (length sorted) 0 (length sorted - 1),
        (
          sorted,
          record {
            executor_load_counts = map (λ n. 0) load.executor_load_counts;
            need_load_rebalance = false;
          },
        ),
      )
