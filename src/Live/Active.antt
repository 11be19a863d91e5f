-- ===== src/Live/Active.antt =====
-- The rows that the loop of ingestion/live_snapshot.py makes.
use mathlib.Core.Path.{subst}
use gamma_scope.Prelude.{
  ℕ, String, string_eq, ◌≡◌, refl, ◌⊎◌, inl, inr, true, Option, none, some, List, [], ◌∷◌, ◌==◌,
  keep, All, All-keep, keep-All, All-and, All-imp, Bool-cases,
}
use gamma_scope.Prelude.Dict.{Dict, get, values}
use gamma_scope.Replay.Effects.{Result, ok, err, Exec, pure, lift, continue, ◌>>=◌}
use gamma_scope.Collector.State.{ContractDiscovered, OptionTick, CollectorState}
use gamma_scope.Live.Remembered.{Memory}
use gamma_scope.Live.Build.{
  Analysis, Pricing, LiveRow, Ticks, live_row, row_of, row_then, live_rows,
}

-- What a step returns, if it returns.
abbrev pub Gives {ℓ κ} : {A : Type ℓ} → (A → Type κ) → Exec Memory A → Type (ℓ ⊔ κ)
Gives {A} P f = (m : Memory) (a : A) → (f m).0 ≡ ok a → P a

ok_eq {ℓ} : {A : Type ℓ} (a b : A) → ok a ≡ ok b → a ≡ b
ok_eq a b h = cc

some_eq : {A : Type 0} (a b : A) → some a ≡ some b → a ≡ b
some_eq a b h = cc

pub Gives-pure {ℓ κ} : {A : Type ℓ} (P : A → Type κ) (a : A) → P a → Gives P (pure a)
Gives-pure P a h m b e = subst P (ok_eq a b e) h

continue-Gives {ℓ κ} :
    {A B : Type ℓ} (P : B → Type κ) (r : Result A) (f : A → Exec Memory B) (m : Memory)
    → ((a : A) → r ≡ ok a → Gives P (f a))
    → (b : B) → (continue r f m).0 ≡ ok b
    → P b
continue-Gives P (ok a) f m h b e = h a refl m b e
continue-Gives P (err x) f m h b e = absurd (cc)

pub Gives-bind {ℓ κ μ} :
    {A B : Type ℓ} (Q : A → Type μ) (P : B → Type κ) (x : Exec Memory A) (f : A → Exec Memory B)
    → Gives Q x
    → ((a : A) → Q a → Gives P (f a))
    → Gives P (x >>= f)
Gives-bind Q P x f h k m b e = continue-Gives P (x m).0 f (x m).1 (λ a is. k a (h m a is)) b e

abbrev pub IsIn : {A : Type 0} → A → List A → Type 0
IsIn x [] = ⊥
IsIn x (y ∷ ys) = (x ≡ y) ⊎ IsIn x ys

pub All-IsIn : {A : Type 0} (xs : List A) → All (λ x. IsIn x xs) xs
All-IsIn [] = tt
All-IsIn (x ∷ xs) =
    (inl refl, All-imp (λ y. IsIn y xs) (λ y. IsIn y (x ∷ xs)) xs (λ y h. inr h) (All-IsIn xs))

-- A row is of a contract of the state, of the session and the expiry, with a tick of the session.
pub record IsActive (s : CollectorState) (session_id expiry : String) (row : LiveRow) : Type 0 where
  pub contract : ContractDiscovered
  pub tick : OptionTick
  pub is_known : IsIn contract (values s.contracts)
  pub same_id : row.contract_id ≡ contract.contract_id
  pub of_session : contract.session_id ≡ session_id
  pub of_expiry : contract.expiry ≡ expiry
  pub has_tick : IsIn (row.contract_id, tick) s.option_ticks
  pub tick_of_session : tick.session_id ≡ session_id

-- What is known of the contracts and of the ticks of a session.
abbrev pub OfSession : CollectorState → String → ContractDiscovered → Type 0
OfSession s session_id c = IsIn c (values s.contracts) × (c.session_id ≡ session_id)

abbrev pub TickOfSession : CollectorState → String → String × OptionTick → Type 0
TickOfSession s session_id e = IsIn e s.option_ticks × (e.1.session_id ≡ session_id)

pub All-kept {κ} :
    {A : Type 0} (P : A → Type κ) (key : A → String) (k : String) (xs : List A)
    → All P xs
    → All (λ x. P x × (key x ≡ k)) (keep (λ x. key x == k) xs)
All-kept P key k xs h =
    All-and P (λ x. key x ≡ k) _ (All-keep P (λ x. key x == k) xs h)
      (All-imp (λ x. (key x == k) ≡ true) (λ x. key x ≡ k) _
        (λ x e. (string_eq.test_iff (key x) k).0 e) (keep-All (λ x. key x == k) xs))

All-get {κ} :
    {V : Type 0} (P : String × V → Type κ) (k : String) (v : V) (d : Dict String V)
    → All P d
    → get k d ≡ some v
    → P (k, v)
unfolding get
All-get P k v [] h found = absurd (cc)
All-get P k v ((j, w) ∷ d) (here, rest) found = elim (Bool-cases (j == k)) [
  | inl e ↦
      let same : w ≡ v = some_eq w v (rw e at found) in
      subst (λ x. P (k, x)) same (subst (λ x. P (x, w)) ((string_eq.test_iff j k).0 e) here)
  | inr e ↦ All-get P k v d rest (rw e at found)
]

module _ (pricing : Pricing) (s : CollectorState) (session_id expiry : String) where
  abbrev AllActive : List LiveRow → Type 0
  AllActive rows = All (IsActive s session_id expiry) rows

  row_of-IsActive :
      (c : ContractDiscovered) (tick : OptionTick) (a : Analysis)
      → OfSession s session_id c × (c.expiry ≡ expiry)
      → TickOfSession s session_id (c.contract_id, tick)
      → Gives (IsActive s session_id expiry) (row_of pricing session_id c a)
  unfolding live_row
  row_of-IsActive c tick a ((known, of_session), of_expiry) (there, tick_of) m row e =
      subst (IsActive s session_id expiry) (ok_eq _ row e) (record {
        contract = c;
        tick = tick;
        is_known = known;
        same_id = refl;
        of_session = of_session;
        of_expiry = of_expiry;
        has_tick = there;
        tick_of_session = tick_of;
      })

  row_then-AllActive :
      (spot tau : ℕ) (c : ContractDiscovered) (o : Option OptionTick)
      (rest : Exec Memory (List LiveRow))
      → OfSession s session_id c × (c.expiry ≡ expiry)
      → ((tick : OptionTick) → o ≡ some tick → TickOfSession s session_id (c.contract_id, tick))
      → Gives AllActive rest
      → Gives AllActive (row_then pricing session_id spot tau c o rest)
  row_then-AllActive spot tau c none rest known ticked h = h
  row_then-AllActive spot tau c (some tick) rest known ticked h =
      Gives-bind (λ _. Unit {0}) AllActive (lift (pricing.analyse c tick spot tau))
        (λ a. row_of pricing session_id c a >>= λ row. rest >>= λ rows. pure (row ∷ rows))
        (λ m a e. tt)
        λ a _.
          Gives-bind (IsActive s session_id expiry) AllActive (row_of pricing session_id c a)
            (λ row. rest >>= λ rows. pure (row ∷ rows))
            (row_of-IsActive c tick a known (ticked tick refl))
            λ row active.
              Gives-bind AllActive AllActive rest (λ rows. pure (row ∷ rows)) h
                λ rows all. Gives-pure AllActive (row ∷ rows) (active, all)

  pub live_rows-AllActive :
      (ticks : Ticks) (spot tau : ℕ) (contracts : List ContractDiscovered)
      → All (λ c. OfSession s session_id c × (c.expiry ≡ expiry)) contracts
      → All (TickOfSession s session_id) ticks
      → Gives AllActive (live_rows pricing session_id ticks spot tau contracts)
  unfolding live_rows
  live_rows-AllActive ticks spot tau [] known ticked = Gives-pure AllActive [] tt
  live_rows-AllActive ticks spot tau (c ∷ contracts) (here, known) ticked =
      row_then-AllActive spot tau c (get c.contract_id ticks)
        (live_rows pricing session_id ticks spot tau contracts) here
        (λ tick found. All-get (TickOfSession s session_id) c.contract_id tick ticks ticked found)
        (live_rows-AllActive ticks spot tau contracts known ticked)
