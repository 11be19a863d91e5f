-- ===== src/Live/Pruned.antt =====
-- The analytics memory after ingestion/live_snapshot.py has built a snapshot.
use mathlib.Core.Path.{subst}
use gamma_scope.Prelude.{ℕ, String, string_eq, ◌≡◌, refl, sym, Option, none, some, List, [], ◌∷◌}
use gamma_scope.Prelude.Sort.{sorted}
use gamma_scope.Replay.Effects.{Result, ok, err, pure, lift, continue, ◌>>=◌}
use gamma_scope.Collector.State.{
  CollectorHealth, ContractDiscovered, UnderlyingTick, CollectorState, latest_health,
  latest_underlying_tick,
}
use gamma_scope.Live.Remembered.{memory_eq, Memory, prune_memory}
use gamma_scope.Live.Build.{
  Pricing, LiveRow, LiveSnapshot, Ticks, row_order, row_ids, live_rows, snapshot_of, finish,
  build_rows, build_spot, build_expiry, build_session, build_from, build_live_snapshot,
  active_expiry,
}
use gamma_scope.Live.Kept.{
  Others, OnlyRows, IsPruned, prune_memory-Others, prune_memory-OnlyRows, PrunedFor, Leads,
  Leads-bind, Keeps-lift, ok_eq, Leads-none, if-Leads, live_rows-Keeps,
}

module _ (pricing : Pricing) (health : CollectorHealth) (underlying : UnderlyingTick)
    (snapshot_time : String) where
  fresh-PrunedFor :
      (expiry : String) (spot tau : ℕ) (rows : List LiveRow) (fresh : Result ℕ) (m : Memory)
      (o : Option LiveSnapshot)
      → (continue fresh
          (λ f.
            pure
              (some (snapshot_of pricing health underlying snapshot_time expiry spot tau rows f)))
          (prune_memory underlying.session_id (row_ids rows) m)).0
        ≡ ok o
      → PrunedFor underlying.session_id m o
          (continue fresh
            (λ f.
              pure
                (some (snapshot_of pricing health underlying snapshot_time expiry spot tau rows f)))
            (prune_memory underlying.session_id (row_ids rows) m)).1
  fresh-PrunedFor expiry spot tau rows (ok f) m o e =
      subst
        (λ x.
          PrunedFor underlying.session_id m x (prune_memory underlying.session_id (row_ids rows) m))
        (ok_eq _ o e)
        (
          refl,
          prune_memory-OnlyRows underlying.session_id rows m,
          prune_memory-Others underlying.session_id (row_ids rows) m,
        )
  fresh-PrunedFor expiry spot tau rows (err x) m o e = absurd (cc)

  finish-Leads :
      (expiry : String) (spot tau : ℕ) (rows : List LiveRow)
      → Leads underlying.session_id
          (finish pricing health underlying snapshot_time expiry spot tau rows)
  unfolding finish
  finish-Leads expiry spot tau [] = Leads-none underlying.session_id
  finish-Leads expiry spot tau (r ∷ rows) =
      λ m o e. fresh-PrunedFor expiry spot tau (r ∷ rows) (pricing.freshness_ms snapshot_time) m o e

  build_rows-Leads :
      (expiry : String) (contracts : List ContractDiscovered) (ticks : Ticks) (spot : ℕ)
      → Leads underlying.session_id
          (build_rows pricing health underlying snapshot_time expiry contracts ticks spot)
  unfolding build_rows
  build_rows-Leads expiry contracts ticks spot =
      Leads-bind underlying.session_id (lift (pricing.time_to_expiry_years snapshot_time expiry))
        (λ tau.
          live_rows pricing underlying.session_id ticks spot tau
            (sorted row_order (λ c. (c.strike, c.right)) contracts)
          >>= λ rows. finish pricing health underlying snapshot_time expiry spot tau rows)
        (Keeps-lift underlying.session_id (pricing.time_to_expiry_years snapshot_time expiry))
        λ tau.
          Leads-bind underlying.session_id
            (live_rows pricing underlying.session_id ticks spot tau
              (sorted row_order (λ c. (c.strike, c.right)) contracts))
            (λ rows. finish pricing health underlying snapshot_time expiry spot tau rows)
            (live_rows-Keeps pricing underlying.session_id ticks spot tau _)
            λ rows. finish-Leads expiry spot tau rows

  build_spot-Leads :
      (expiry : String) (contracts : List ContractDiscovered) (ticks : Ticks) (o : Option ℕ)
      → Leads underlying.session_id
          (build_spot pricing health underlying snapshot_time expiry contracts ticks o)
  build_spot-Leads expiry contracts ticks none = Leads-none underlying.session_id
  build_spot-Leads expiry contracts ticks (some spot) =
      if-Leads underlying.session_id (pricing.is_positive spot) _ _
        (build_rows-Leads expiry contracts ticks spot) (Leads-none underlying.session_id)

  build_expiry-Leads :
      (contracts : List ContractDiscovered) (ticks : Ticks) (o : Option String)
      → Leads underlying.session_id
          (build_expiry pricing health underlying snapshot_time contracts ticks o)
  build_expiry-Leads contracts ticks none = Leads-none underlying.session_id
  build_expiry-Leads contracts ticks (some expiry) =
      if-Leads underlying.session_id _ _ _ (Leads-none underlying.session_id)
        (build_spot-Leads expiry _ _ (pricing.spot_from_underlying underlying))

  build_session-Leads :
      (contracts : List ContractDiscovered) (ticks : Ticks)
      → Leads underlying.session_id
          (build_session pricing health underlying snapshot_time contracts ticks)
  unfolding build_session
  build_session-Leads contracts ticks =
      if-Leads underlying.session_id _ _ _ (Leads-none underlying.session_id)
        (build_expiry-Leads contracts ticks (active_expiry contracts ticks))

PrunedFor-IsPruned :
    (session_id : String) (m m' : Memory) (o : Option LiveSnapshot)
    → PrunedFor session_id m o m'
    → IsPruned m o m'
PrunedFor-IsPruned session_id m m' none h = tt
PrunedFor-IsPruned session_id m m' (some snapshot) (same, only, others) =
    subst (λ x. OnlyRows x snapshot.rows m' × Others x m m') (sym same) (only, others)

module _ (pricing : Pricing) (s : CollectorState) where
  nothing-IsPruned : (m : Memory) (o : Option LiveSnapshot) → ok none ≡ ok o → IsPruned m o m
  nothing-IsPruned m o e = subst (λ x. IsPruned m x m) (ok_eq none o e) tt

  build_from-IsPruned :
      (health : Option CollectorHealth) (underlying : Option UnderlyingTick) (m : Memory)
      (o : Option LiveSnapshot)
      → (build_from pricing s health underlying m).0 ≡ ok o
      → IsPruned m o (build_from pricing s health underlying m).1
  build_from-IsPruned none none m o e = nothing-IsPruned m o e
  build_from-IsPruned none (some underlying) m o e = nothing-IsPruned m o e
  build_from-IsPruned (some health) none m o e = nothing-IsPruned m o e
  build_from-IsPruned (some health) (some underlying) m o e =
      PrunedFor-IsPruned underlying.session_id m _ o (
        if-Leads underlying.session_id _ _ _ (Leads-none underlying.session_id)
          (build_session-Leads pricing health underlying _ _ _) m o e)

  -- When a live snapshot is built, the analytics that are remembered for its session are those of
  -- contracts in its rows, and what is remembered for every other session is as it was.
  pub build_live_snapshot-IsPruned :
      (session_id : Option String) (m : Memory) (o : Option LiveSnapshot)
      → (build_live_snapshot pricing session_id s m).0 ≡ ok o
      → IsPruned m o (build_live_snapshot pricing session_id s m).1
  unfolding build_live_snapshot
  build_live_snapshot-IsPruned session_id m o e =
      build_from-IsPruned (latest_health s) (latest_underlying_tick session_id s) m o e
