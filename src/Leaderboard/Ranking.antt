-- ===== src/Leaderboard/Ranking.antt =====
-- The rows and the order of `Build` of market-simulator/internal/leaderboard/leaderboard.go.
use agentic_sim_trading.Common.{
  ℕ, suc, ◌+◌, ◌≡◌, refl, sym, ap, ◌∙◌, inl, inr, Bool, true, false, not, ◌&&◌, List, [], ◌∷◌, map,
  arith, ltb, leb, ◌==◌, if◌then◌else◌, Bool-cases, length, All, select, any, insert_by, order_by,
  All-impl,
}
use agentic_sim_trading.Common.Counting.{
  count-distinct_ids, distinct_ids, count-order_by, All-select, any-select, List-cases,
  any-map-select, length-order_by, count, All-order_by, All-insert_by,
}
use agentic_sim_trading.Float.{Float64, IsFloat64, ◌≼◌}
use agentic_sim_trading.Database.{SnapshotRow, Db}
use agentic_sim_trading.Leaderboard.{
  scored, build, scored_rows, last_of, ranked_agents, series_of, Text, Entry, ranks_before,
  number_from,
}

module _ {F : Type 0} where
  unfoldable pub has_snapshot : ℕ → ℕ → Db F → Bool
  has_snapshot simulation_id agent_id db =
      any (λ s. s.simulation_id == simulation_id && s.agent_id == agent_id) db.snapshots

  abbrev pub is_of : ℕ → Entry F → Bool
  is_of agent_id e = e.agent_id == agent_id

module _ {F : Type 0} ⦃fl : Float64 F⦄ where
  -- no row after `e` has the greater value
  abbrev pub IsDown : List (Entry F) → Type 0
  IsDown [] = Unit
  IsDown (e ∷ es) = All (λ x. x.total_value ≼ e.total_value) es × IsDown es

  -- the rows from rank `i + 1` on
  abbrev pub IsRankedFrom : ℕ → List (Entry F) → Type 0
  IsRankedFrom i [] = Unit
  IsRankedFrom i (e ∷ es) =
      (e.rank ≡ i + 1) × All (λ x. x.total_value ≼ e.total_value) es × IsRankedFrom (i + 1) es

  abbrev IsNumber : Entry F → Type 0
  IsNumber e = e.total_value ≼ e.total_value

  number_from-All :
      (e : Entry F) (i : ℕ) (es : List (Entry F))
      → All (λ x. x.total_value ≼ e.total_value) es
      → All (λ x. x.total_value ≼ e.total_value) (number_from i es)
  number_from-All e i [] h = tt
  number_from-All e i (x ∷ xs) h = (h.0, number_from-All e (i + 1) xs h.1)

  number_from-IsRankedFrom :
      (i : ℕ) (es : List (Entry F)) → IsDown es → IsRankedFrom i (number_from i es)
  number_from-IsRankedFrom i [] h = tt
  number_from-IsRankedFrom i (e ∷ es) h =
      (refl, number_from-All e (i + 1) es h.0, number_from-IsRankedFrom (i + 1) es h.1)

  count-number_from :
      (a i : ℕ) (es : List (Entry F)) → count (is_of a) (number_from i es) ≡ count (is_of a) es
  count-number_from a i [] = refl
  count-number_from a i (e ∷ es) = ground (arith, count-number_from a (i + 1) es)

module _ {F : Type 0} ⦃fl : Float64 F⦄ (laws : IsFloat64 F) where
  not_before :
      (x a : Entry F)
      → IsNumber x
      → IsNumber a
      → ranks_before x a ≡ false
      → x.total_value ≼ a.total_value
  not_before x a nx na h =
      let lt_le = laws.lt-eq-not-le a.total_value x.total_value na nx in ground arith

  before :
      (x a : Entry F)
      → IsNumber x
      → IsNumber a
      → ranks_before x a ≡ true
      → a.total_value ≼ x.total_value
  before x a nx na h =
      let lt_le = laws.lt-eq-not-le a.total_value x.total_value na nx in
      let total = laws.le_total a.total_value x.total_value na nx in ground arith

  All-below :
      (x a : Entry F)
      → x.total_value ≼ a.total_value
      → (es : List (Entry F)) → All (λ y. y.total_value ≼ x.total_value) es
      → All (λ y. y.total_value ≼ a.total_value) es
  All-below x a le = All-impl (λ y h. laws.le_trans y.total_value x.total_value a.total_value h le)

  insert_by-IsDown :
      (a : Entry F) (es : List (Entry F))
      → IsNumber a
      → All IsNumber es
      → IsDown es
      → IsDown (insert_by (λ x y. not (ranks_before y x)) a es)
  insert_by-IsDown a [] na nes down = (tt, tt)
  insert_by-IsDown a (x ∷ xs) na nes down = elim (Bool-cases (ranks_before x a)) [
    | inl e ↦ rw e (
      All-insert_by (λ y. y.total_value ≼ x.total_value) (λ p q. not (ranks_before q p)) a xs
          (before x a nes.0 na e) down.0,
      insert_by-IsDown a xs na nes.1 down.1,
    )
    | inr e ↦ let le = not_before x a nes.0 na e in rw e ((le, All-below x a le xs down.0), down)
  ]

  order_by-IsDown :
      (es : List (Entry F)) → All IsNumber es → IsDown (order_by (λ x y. not (ranks_before y x)) es)
  order_by-IsDown [] nes = tt
  order_by-IsDown (e ∷ es) nes =
      insert_by-IsDown e (order_by (λ x y. not (ranks_before y x)) es) nes.0
        (All-order_by IsNumber (λ x y. not (ranks_before y x)) es nes.1) (order_by-IsDown es nes.1)

module _ {F : Type 0} where
  has_snapshot-series :
      (simulation_id aid : ℕ) (db : Db F)
      → has_snapshot simulation_id aid db ≡ ltb 0 (length (series_of simulation_id aid db))
  unfolding series_of has_snapshot
  has_snapshot-series simulation_id aid db =
      any-select (λ s. s.simulation_id == simulation_id && s.agent_id == aid) db.snapshots
      ∙ ap (ltb 0) (
          sym (
            length-order_by (λ a b. leb a.date b.date)
              (select (λ s. s.simulation_id == simulation_id && s.agent_id == aid) db.snapshots)))

  ranked_agents-once :
      (simulation_id a : ℕ) (db : Db F)
      → count (λ m. m == a) (ranked_agents simulation_id db)
        ≡ (if has_snapshot simulation_id a db then 1 else 0)
  unfolding ranked_agents has_snapshot
  ranked_agents-once simulation_id a db =
      let ids =
        map (λ s. s.agent_id) (select (λ s. s.simulation_id == simulation_id) db.snapshots) in
      count-order_by (λ m. m == a) leb (distinct_ids ids)
      ∙ count-distinct_ids a ids
      ∙ ap (λ b. if b then 1 else 0)
          (any-map-select (λ s. s.simulation_id == simulation_id) (λ s. s.agent_id) a db.snapshots)

  last_of-All {κ} :
      (P : SnapshotRow F → Type κ) (s : SnapshotRow F) (ss : List (SnapshotRow F))
      → All P (s ∷ ss)
      → P (last_of s ss)
  last_of-All P s [] h = h.0
  last_of-All P s (t ∷ ts) h = last_of-All P t ts h.1

shown :
    {A : Type 0} {b c : Bool} {xs ys : List A}
    → b ≡ ltb 0 (length xs)
    → xs ≡ ys
    → ltb 0 (length ys) ≡ c
    → b ≡ c
shown {A} h e d = h ∙ ap (λ (zs : List A). ltb 0 (length zs)) e ∙ d

skipped :
    (a aid : ℕ) (aids : List ℕ) (b : Bool)
    → (aid ≡ a → b ≡ false)
    → (if b then count (λ m. m == a) aids else 0)
      ≡ (if b then count (λ m. m == a) (aid ∷ aids) else 0)
skipped a aid aids b h = ground arith

counted :
    (a aid : ℕ) (aids : List ℕ) (b : Bool) (n : ℕ)
    → n ≡ (if b then count (λ m. m == a) aids else 0)
    → (aid ≡ a → b ≡ true)
    → (if aid == a then suc n else n) ≡ (if b then count (λ m. m == a) (aid ∷ aids) else 0)
counted a aid aids b n e h = ground arith

only : (b : Bool) (n : ℕ) → n ≡ (if b then 1 else 0) → (if b then n else 0) ≡ (if b then 1 else 0)
only b n e = ground arith

module _ {F : Type 0} ⦃fl : Float64 F⦄ (names : ℕ → Text) (stock_sector : Text → Text) where
  count-scored_rows :
      (simulation_id a : ℕ) (db : Db F) (aids : List ℕ)
      → count (is_of a) (scored_rows names stock_sector simulation_id db aids)
        ≡ (if has_snapshot simulation_id a db then count (λ m. m == a) aids else 0)
  unfolding scored_rows scored
  count-scored_rows simulation_id a db [] = elim (Bool-cases (has_snapshot simulation_id a db)) [
    | inl t ↦ rw t
    | inr t ↦ rw t
  ]
  count-scored_rows simulation_id a db (aid ∷ aids) =
      let rest = count-scored_rows simulation_id a db aids in
      let held = has_snapshot-series simulation_id aid db in
      let moved : aid ≡ a → has_snapshot simulation_id a db ≡ has_snapshot simulation_id aid db =
        λ q. sym (ap (λ n. has_snapshot simulation_id n db) q) in
      elim (List-cases (series_of simulation_id aid db)) [
        | inl e ↦
            let none_held : has_snapshot simulation_id aid db ≡ false =
              shown held e (ground arith) in
            rw (scored_rows, e) (rest ∙ skipped a aid aids _ (λ q. moved q ∙ none_held))
        | inr (s, ss, e) ↦
            let one_held : has_snapshot simulation_id aid db ≡ true = shown held e (ground arith) in
            rw (scored_rows, e) (counted a aid aids _ _ rest (λ q. moved q ∙ one_held))
      ]

  scored_rows-All :
      (P : F → Type 0) (simulation_id : ℕ) (db : Db F) (aids : List ℕ)
      → All (λ r. P r.total_value) db.snapshots
      → All (λ e. P e.total_value) (scored_rows names stock_sector simulation_id db aids)
  unfolding series_of scored_rows scored
  scored_rows-All P simulation_id db [] h = tt
  scored_rows-All P simulation_id db (aid ∷ aids) h =
      let rest = scored_rows-All P simulation_id db aids h in
      let series =
        All-order_by (λ r. P r.total_value) (λ a b. leb a.date b.date) _
          (All-select (λ r. P r.total_value)
            (λ s. s.simulation_id == simulation_id && s.agent_id == aid) db.snapshots h) in
      elim (List-cases (series_of simulation_id aid db)) [
        | inl e ↦ rw (scored_rows, e) rest
        | inr (s, ss, e) ↦
            rw (scored_rows, e) (last_of-All (λ r. P r.total_value) s ss (rw e at series), rest)
      ]

  build-once :
      (simulation_id a : ℕ) (db : Db F)
      → count (is_of a) (build names stock_sector simulation_id db)
        ≡ (if has_snapshot simulation_id a db then 1 else 0)
  unfolding build
  build-once simulation_id a db =
      let aids = ranked_agents simulation_id db in
      let rows = scored_rows names stock_sector simulation_id db aids in
      count-number_from a 0 (order_by (λ x y. not (ranks_before y x)) rows)
      ∙ count-order_by (is_of a) (λ x y. not (ranks_before y x)) rows
      ∙ count-scored_rows simulation_id a db aids
      ∙ only (has_snapshot simulation_id a db) _ (ranked_agents-once simulation_id a db)

  -- By the laws of float64, where the total value of every snapshot is a number: the rows have the ranks 1, 2, 3 and so on,
  -- none has a smaller total value than one after it, and the agents with a snapshot in the simulation have one row
  -- each, and others none.
  pub build_lem :
      IsFloat64 F
      → (simulation_id : ℕ) (db : Db F) → All (λ s. s.total_value ≼ s.total_value) db.snapshots
      → IsRankedFrom 0 (build names stock_sector simulation_id db)
        × ((a : ℕ)
            → count (is_of a) (build names stock_sector simulation_id db)
              ≡ (if has_snapshot simulation_id a db then 1 else 0))
  unfolding build
  build_lem laws simulation_id db numbers =
      let rows = scored_rows names stock_sector simulation_id db (ranked_agents simulation_id db) in
      (
        number_from-IsRankedFrom 0 (order_by (λ x y. not (ranks_before y x)) rows) (
            order_by-IsDown laws rows (
              scored_rows-All (λ x. x ≼ x) simulation_id db (ranked_agents simulation_id db)
                numbers)),
        λ a. build-once simulation_id a db,
      )
