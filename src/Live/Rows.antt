-- ===== src/Live/Rows.antt =====
-- The rows of a live snapshot of ingestion/live_snapshot.py.
use gamma_scope.Prelude.{
  ℕ, String, string_eq, ◌≡◌, refl, Bool, true, false, Option, none, some, List, [], ◌∷◌, All,
  All-keep, if◌then◌else◌,
}
use gamma_scope.Prelude.Sort.{sorted, All-sorted}
use gamma_scope.Prelude.Dict.{values}
use gamma_scope.Replay.Effects.{ok, Exec, pure, lift, ◌>>=◌}
use gamma_scope.Collector.State.{
  CollectorHealth, ContractDiscovered, UnderlyingTick, CollectorState, latest_health,
  latest_underlying_tick,
}
use gamma_scope.Live.Remembered.{Memory}
use gamma_scope.Live.Build.{
  Pricing, LiveRow, LiveSnapshot, Ticks, row_order, is_none, live_rows, expiry_contracts,
  snapshot_of, pruned, finish, build_rows, build_spot, build_expiry, build_session, build_from,
  build_live_snapshot, active_expiry,
}
use gamma_scope.Live.Active.{
  Gives, Gives-pure, Gives-bind, IsIn, All-IsIn, IsActive, OfSession, TickOfSession, All-kept,
  live_rows-AllActive,
}

-- A snapshot has rows, all of its session and its expiry.
abbrev pub IsCurrent : CollectorState → Option LiveSnapshot → Type 0
IsCurrent s none = Unit
IsCurrent s (some snapshot) =
    (is_none snapshot.rows ≡ false)
    × All (IsActive s snapshot.session_id snapshot.expiry) snapshot.rows

if-Gives {ℓ κ} :
    {A : Type ℓ} (P : A → Type κ) (b : Bool) (x y : Exec Memory A)
    → Gives P x
    → Gives P y
    → Gives P (if b then x else y)
if-Gives P true x y h k = h
if-Gives P false x y h k = k

module _ (pricing : Pricing) (s : CollectorState) (health : CollectorHealth)
    (underlying : UnderlyingTick) (snapshot_time : String) where
  finish-IsCurrent :
      (expiry : String) (spot tau : ℕ) (rows : List LiveRow)
      → All (IsActive s underlying.session_id expiry) rows
      → Gives (IsCurrent s) (finish pricing health underlying snapshot_time expiry spot tau rows)
  unfolding finish
  finish-IsCurrent expiry spot tau [] h = Gives-pure (IsCurrent s) none tt
  finish-IsCurrent expiry spot tau (r ∷ rows) h =
      Gives-bind (λ _. Unit {0}) (IsCurrent s)
        (pruned pricing health underlying snapshot_time (r ∷ rows))
        (λ _. lift (pricing.freshness_ms snapshot_time) >>= λ freshness. pure (
          some (
            snapshot_of pricing health underlying snapshot_time expiry spot tau (r ∷ rows)
              freshness)))
        (λ m a e. tt)
        λ _ _.
          Gives-bind (λ _. Unit {0}) (IsCurrent s) (lift (pricing.freshness_ms snapshot_time))
            (λ freshness. pure (
              some (
                snapshot_of pricing health underlying snapshot_time expiry spot tau (r ∷ rows)
                  freshness)))
            (λ m a e. tt)
            λ freshness _.
              Gives-pure (IsCurrent s)
                (some (
                  snapshot_of pricing health underlying snapshot_time expiry spot tau (r ∷ rows)
                    freshness))
                (refl, h)

  build_rows-IsCurrent :
      (expiry : String) (contracts : List ContractDiscovered) (ticks : Ticks) (spot : ℕ)
      → All (λ c. OfSession s underlying.session_id c × (c.expiry ≡ expiry)) contracts
      → All (TickOfSession s underlying.session_id) ticks
      → Gives
          (IsCurrent s)
          (build_rows pricing health underlying snapshot_time expiry contracts ticks spot)
  unfolding build_rows
  build_rows-IsCurrent expiry contracts ticks spot known ticked =
      Gives-bind (λ _. Unit {0}) (IsCurrent s)
        (lift (pricing.time_to_expiry_years snapshot_time expiry))
        (λ tau.
          live_rows pricing underlying.session_id ticks spot tau
            (sorted row_order (λ c. (c.strike, c.right)) contracts)
          >>= λ rows. finish pricing health underlying snapshot_time expiry spot tau rows)
        (λ m a e. tt)
        λ tau _.
          Gives-bind (All (IsActive s underlying.session_id expiry)) (IsCurrent s)
            (live_rows pricing underlying.session_id ticks spot tau
              (sorted row_order (λ c. (c.strike, c.right)) contracts))
            (λ rows. finish pricing health underlying snapshot_time expiry spot tau rows)
            (live_rows-AllActive pricing s underlying.session_id expiry ticks spot tau _
              (All-sorted row_order (λ c. (c.strike, c.right)) _ contracts known) ticked)
            (λ rows all. finish-IsCurrent expiry spot tau rows all)

  build_spot-IsCurrent :
      (expiry : String) (contracts : List ContractDiscovered) (ticks : Ticks) (o : Option ℕ)
      → All (λ c. OfSession s underlying.session_id c × (c.expiry ≡ expiry)) contracts
      → All (TickOfSession s underlying.session_id) ticks
      → Gives
          (IsCurrent s)
          (build_spot pricing health underlying snapshot_time expiry contracts ticks o)
  build_spot-IsCurrent expiry contracts ticks none known ticked = Gives-pure (IsCurrent s) none tt
  build_spot-IsCurrent expiry contracts ticks (some spot) known ticked =
      if-Gives (IsCurrent s) (pricing.is_positive spot) _ _
        (build_rows-IsCurrent expiry contracts ticks spot known ticked)
        (Gives-pure (IsCurrent s) none tt)

  build_expiry-IsCurrent :
      (contracts : List ContractDiscovered) (ticks : Ticks) (o : Option String)
      → All (OfSession s underlying.session_id) contracts
      → All (TickOfSession s underlying.session_id) ticks
      → Gives (IsCurrent s) (build_expiry pricing health underlying snapshot_time contracts ticks o)
  build_expiry-IsCurrent contracts ticks none known ticked = Gives-pure (IsCurrent s) none tt
  build_expiry-IsCurrent contracts ticks (some expiry) known ticked =
      if-Gives (IsCurrent s) _ _ _ (Gives-pure (IsCurrent s) none tt) (
        build_spot-IsCurrent expiry (expiry_contracts expiry contracts) _
          (pricing.spot_from_underlying underlying)
          (All-kept (OfSession s underlying.session_id) (λ c. c.expiry) expiry contracts known)
          (All-keep (TickOfSession s underlying.session_id) _ ticks ticked))

  build_session-IsCurrent :
      (contracts : List ContractDiscovered) (ticks : Ticks)
      → All (OfSession s underlying.session_id) contracts
      → All (TickOfSession s underlying.session_id) ticks
      → Gives (IsCurrent s) (build_session pricing health underlying snapshot_time contracts ticks)
  unfolding build_session
  build_session-IsCurrent contracts ticks known ticked =
      if-Gives (IsCurrent s) _ _ _ (Gives-pure (IsCurrent s) none tt)
        (build_expiry-IsCurrent contracts ticks (active_expiry contracts ticks) known ticked)

module _ (pricing : Pricing) (s : CollectorState) where
  build_from-IsCurrent :
      (health : Option CollectorHealth) (underlying : Option UnderlyingTick)
      → Gives (IsCurrent s) (build_from pricing s health underlying)
  build_from-IsCurrent none none = Gives-pure (IsCurrent s) none tt
  build_from-IsCurrent none (some underlying) = Gives-pure (IsCurrent s) none tt
  build_from-IsCurrent (some health) none = Gives-pure (IsCurrent s) none tt
  build_from-IsCurrent (some health) (some underlying) =
      if-Gives (IsCurrent s) _ _ _ (Gives-pure (IsCurrent s) none tt) (
        build_session-IsCurrent pricing s health underlying _ _ _
          (All-kept (λ c. IsIn c (values s.contracts)) (λ c. c.session_id) underlying.session_id
            (values s.contracts) (All-IsIn (values s.contracts)))
          (All-kept (λ e. IsIn e s.option_ticks) (λ e. e.1.session_id) underlying.session_id
            s.option_ticks (All-IsIn s.option_ticks)))

  -- A live snapshot that is built has rows, and each of its rows is of a contract that the collector
  -- knows, of the snapshot's session and expiry, that has a tick of the same session.
  pub build_live_snapshot-IsCurrent :
      (session_id : Option String) (m : Memory) (o : Option LiveSnapshot)
      → (build_live_snapshot pricing session_id s m).0 ≡ ok o
      → IsCurrent s o
  unfolding build_live_snapshot
  build_live_snapshot-IsCurrent session_id m o e =
      build_from-IsCurrent (latest_health s) (latest_underlying_tick session_id s) m o e
