-- ===== src/Live/Kept.antt =====
-- What the steps of ingestion/live_snapshot.py do to the analytics memory.
use mathlib.Core.Path.{subst}
use gamma_scope.Prelude.{
  ℕ, String, string_eq, ◌≡◌, ◌≢◌, refl, sym, ap, ◌∙◌, inl, inr, Bool, true, false, not, ◌&&◌,
  Option, none, some, List, [], ◌∷◌, ◌==◌, keep, All, keep-All, All-imp, Bool-cases, if◌then◌else◌,
}
use gamma_scope.Prelude.Dict.{Dict, get, put, get-put}
use gamma_scope.Replay.Effects.{Result, ok, err, Exec, pure, lift, continue, ◌>>=◌}
use gamma_scope.Replay.Reader.Scan.{is_element}
use gamma_scope.Collector.State.{ContractDiscovered, OptionTick}
use gamma_scope.Live.Remembered.{
  MemoryKey, memory_eq, Analytics, Memory, apply_memory, prune_memory, is_empty, filled, previous,
}
use gamma_scope.Live.Build.{
  Pricing, LiveRow, LiveSnapshot, Ticks, row_ids, row_of, row_then, live_rows,
}

-- The entries of the other sessions are as they were.
abbrev pub Others : String → Memory → Memory → Type 0
Others session_id m m' = (k : MemoryKey) → k.session_id ≢ session_id → get k m' ≡ get k m

abbrev pub OnlyRows : String → List LiveRow → Memory → Type 0
OnlyRows session_id rows m =
    All (λ e. e.0.session_id ≡ session_id → is_element e.0.contract_id (row_ids rows) ≡ true) m

-- After a snapshot, the session's entries are of its rows, and the others are as they were.
abbrev pub IsPruned : Memory → Option LiveSnapshot → Memory → Type 0
IsPruned m none m' = Unit
IsPruned m (some snapshot) m' =
    OnlyRows snapshot.session_id snapshot.rows m' × Others snapshot.session_id m m'

get-keep {κ} :
    {V : Type κ} (q : MemoryKey → Bool) (k : MemoryKey) (d : Dict MemoryKey V)
    → q k ≡ true
    → get k (keep (λ e. q e.0) d) ≡ get k d
unfolding get
get-keep q k [] h = refl
get-keep q k ((j, v) ∷ d) h = elim (Bool-cases (j == k)) [
  | inl e ↦ let stays : q j ≡ true = ap q ((memory_eq.test_iff j k).0 e) ∙ h in rw (stays, e) refl
  | inr e ↦ elim (Bool-cases (q j)) [
    | inl stays ↦ rw (stays, e) (get-keep q k d h)
    | inr goes ↦ rw (goes, e) (get-keep q k d h)
  ]
]

other_session :
    (k : MemoryKey) (session_id : String)
    → k.session_id ≢ session_id
    → (k.session_id == session_id) ≡ false
other_session k session_id h = elim (Bool-cases (k.session_id == session_id)) [
  | inl e ↦ absurd (h ((string_eq.test_iff k.session_id session_id).0 e))
  | inr e ↦ e
]

pub prune_memory-Others :
    (session_id : String) (active : List String) (m : Memory)
    → Others session_id m (prune_memory session_id active m)
unfolding prune_memory
prune_memory-Others session_id active m k h =
    get-keep (λ j. not (j.session_id == session_id && not (is_element j.contract_id active))) k m
      (rw (other_session k session_id h) refl)

kept_active : (a b : Bool) → not (a && not b) ≡ true → a ≡ true → b ≡ true
kept_active true true h e = refl
kept_active true false h e = absurd (cc)
kept_active false b h e = absurd (cc)

pub prune_memory-OnlyRows :
    (session_id : String) (rows : List LiveRow) (m : Memory)
    → OnlyRows session_id rows (prune_memory session_id (row_ids rows) m)
unfolding prune_memory
prune_memory-OnlyRows session_id rows m =
    All-imp _ (λ e. e.0.session_id ≡ session_id → is_element e.0.contract_id (row_ids rows) ≡ true)
      _
      (λ e stays same.
        kept_active (e.0.session_id == session_id) (is_element e.0.contract_id (row_ids rows)) stays
          ((string_eq.test_iff e.0.session_id session_id).1 same))
      (keep-All
        (λ e. not (e.0.session_id == session_id && not (is_element e.0.contract_id (row_ids rows))))
        m)

apply_memory-Others :
    (session_id contract_id : String) (computed fallback : Analytics) (m : Memory)
    → Others session_id m (apply_memory session_id contract_id computed fallback m).1
unfolding apply_memory
apply_memory-Others session_id contract_id computed fallback m k h =
    let key : MemoryKey = record { session_id = session_id; contract_id = contract_id } in
    let v = filled (filled computed (previous (get key m))) fallback in
    let apart : (key == k) ≡ false = elim (Bool-cases (key == k)) [
      | inl e ↦ absurd (h (ap (λ j. j.session_id) (sym ((memory_eq.test_iff key k).0 e))))
      | inr e ↦ e
    ] in
    elim (Bool-cases (is_empty v))
      as (λ _. get k (if is_empty v then m else put key v m) ≡ get k m) [
        | inl e ↦ rw e refl
        | inr e ↦ rw e (get-put key k v m ∙ rw apart refl)
      ]

-- A step that leaves the other sessions alone, whether it returns or raises.
abbrev Keeps {ℓ} : {A : Type ℓ} → String → Exec Memory A → Type 0
Keeps session_id f = (m : Memory) → Others session_id m (f m).1

continue-Keeps {ℓ} :
    {A B : Type ℓ} (session_id : String) (r : Result A) (f : A → Exec Memory B) (m m1 : Memory)
    → Others session_id m m1
    → ((a : A) → Keeps session_id (f a))
    → Others session_id m (continue r f m1).1
continue-Keeps session_id (ok a) f m m1 o k j other = k a m1 j other ∙ o j other
continue-Keeps session_id (err e) f m m1 o k j other = o j other

Keeps-bind {ℓ} :
    {A B : Type ℓ} (session_id : String) (x : Exec Memory A) (f : A → Exec Memory B)
    → Keeps session_id x
    → ((a : A) → Keeps session_id (f a))
    → Keeps session_id (x >>= f)
Keeps-bind session_id x f h k m = continue-Keeps session_id (x m).0 f m (x m).1 (h m) k

-- What a part of the build of one session gives.
abbrev pub PrunedFor : String → Memory → Option LiveSnapshot → Memory → Type 0
PrunedFor session_id m none m' = Unit
PrunedFor session_id m (some snapshot) m' =
    (snapshot.session_id ≡ session_id)
    × OnlyRows session_id snapshot.rows m'
    × Others session_id m m'

abbrev pub Leads : String → Exec Memory (Option LiveSnapshot) → Type 0
Leads session_id f =
    (m : Memory) (o : Option LiveSnapshot) → (f m).0 ≡ ok o → PrunedFor session_id m o (f m).1

PrunedFor-trans :
    (session_id : String) (o : Option LiveSnapshot) (m m1 m2 : Memory)
    → Others session_id m m1
    → PrunedFor session_id m1 o m2
    → PrunedFor session_id m o m2
PrunedFor-trans session_id none m m1 m2 f h = tt
PrunedFor-trans session_id (some snapshot) m m1 m2 f (same, only, g) =
    (same, only, λ k other. g k other ∙ f k other)

continue-Leads {ℓ} :
    {A : Type ℓ} (session_id : String) (r : Result A) (f : A → Exec Memory (Option LiveSnapshot))
    (m m1 : Memory)
    → Others session_id m m1
    → ((a : A) → Leads session_id (f a))
    → (o : Option LiveSnapshot) → (continue r f m1).0 ≡ ok o
    → PrunedFor session_id m o (continue r f m1).1
continue-Leads session_id (ok a) f m m1 others k o e =
    PrunedFor-trans session_id o m m1 (f a m1).1 others (k a m1 o e)
continue-Leads session_id (err x) f m m1 others k o e = absurd (cc)

pub Leads-bind :
    {A : Type 0} (session_id : String) (x : Exec Memory A)
    (f : A → Exec Memory (Option LiveSnapshot))
    → Keeps session_id x
    → ((a : A) → Leads session_id (f a))
    → Leads session_id (x >>= f)
Leads-bind session_id x f h k m o e = continue-Leads session_id (x m).0 f m (x m).1 (h m) k o e

pub Keeps-lift : {A : Type 0} (session_id : String) (r : Result A) → Keeps session_id (lift r)
Keeps-lift session_id r m k other = refl

pub ok_eq {ℓ} : {A : Type ℓ} (a b : A) → ok a ≡ ok b → a ≡ b
ok_eq a b h = cc

pub Leads-none : (session_id : String) → Leads session_id (pure none)
Leads-none session_id m o e = subst (λ x. PrunedFor session_id m x m) (ok_eq none o e) tt

pub if-Leads :
    (session_id : String) (b : Bool) (x y : Exec Memory (Option LiveSnapshot))
    → Leads session_id x
    → Leads session_id y
    → Leads session_id (if b then x else y)
if-Leads session_id true x y h k = h
if-Leads session_id false x y h k = k

module _ (pricing : Pricing) (session_id : String) where
  row_then-Keeps :
      (spot tau : ℕ) (c : ContractDiscovered) (o : Option OptionTick)
      (rest : Exec Memory (List LiveRow))
      → Keeps session_id rest
      → Keeps session_id (row_then pricing session_id spot tau c o rest)
  row_then-Keeps spot tau c none rest h = h
  row_then-Keeps spot tau c (some tick) rest h =
      Keeps-bind session_id (lift (pricing.analyse c tick spot tau))
        (λ a. row_of pricing session_id c a >>= λ row. rest >>= λ rows. pure (row ∷ rows))
        (Keeps-lift session_id (pricing.analyse c tick spot tau))
        λ a.
          Keeps-bind session_id (row_of pricing session_id c a)
            (λ row. rest >>= λ rows. pure (row ∷ rows))
            (λ m. apply_memory-Others session_id c.contract_id a.computed a.fallback m)
            λ row. Keeps-bind session_id rest (λ rows. pure (row ∷ rows)) h λ rows m k other. refl

  pub live_rows-Keeps :
      (ticks : Ticks) (spot tau : ℕ) (contracts : List ContractDiscovered)
      → Keeps session_id (live_rows pricing session_id ticks spot tau contracts)
  unfolding live_rows
  live_rows-Keeps ticks spot tau [] = λ m k other. refl
  live_rows-Keeps ticks spot tau (c ∷ contracts) =
      row_then-Keeps spot tau c (get c.contract_id ticks)
        (live_rows pricing session_id ticks spot tau contracts)
        (live_rows-Keeps ticks spot tau contracts)
