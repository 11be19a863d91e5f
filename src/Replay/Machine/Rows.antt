-- ===== src/Replay/Machine/Rows.antt =====
-- One method on one row: by which edge it moves its state, and what it keeps.
use mathlib.Core.Path.{subst}
use gamma_scope.Prelude.{
  ℕ, String, ◌≡◌, ◌≢◌, refl, sym, ◌∙◌, Bool, ◌||◌, true, false, Option, none, some, arith, ◌==◌,
  string_eq, eq_iff, Bool-cases, inl, inr, List,
}
use gamma_scope.Prelude.Dict.{get, put, get-put}
use gamma_scope.Replay.Effects.{Result, ok, err}
use gamma_scope.Replay.Columns.{fits_optional_text, fits_texts, fitting}
use gamma_scope.Replay.Tables.{
  Status, uploaded, validating, awaiting_confirmation, publishing, completed, failed, cancelled,
  status_eq, status_beq_iff, ImportRecord, Tables,
}
use gamma_scope.Replay.Imports.{
  with_row, transition_row, moved_row, fail_row, cancel_row, is_cancellable, on_row, store_row,
}
use gamma_scope.Replay.Machine.{
  ◌⟶◌, ◌⟶?◌, stay, move, fail_uploaded, fail_validating, fail_awaiting, fail_publishing,
  drop_uploaded, drop_validating, drop_awaiting, after,
}

ok_eq : {a b : ImportRecord} → ok a ≡ ok b → a ≡ b
ok_eq h = cc

fitting-eq-ok : (b : Bool) (row row' : ImportRecord) → fitting b row ≡ ok row' → row ≡ row'
fitting-eq-ok true row row' h = cc
fitting-eq-ok false row row' h = absurd (cc)

-- The states in which an import has a session.
abbrev pub needs_session : Status → Bool
needs_session awaiting_confirmation = true
needs_session publishing = true
needs_session completed = true
needs_session _ = false

abbrev pub IsNamed : ImportRecord → Type 0
IsNamed row = needs_session row.status ≡ true → row.session_id ≢ none

-- How a row may change in one call.
pub record Moves (row row' : ImportRecord) : Type 0 where
  pub edge : row.status ⟶? row'.status
  pub named : IsNamed row → IsNamed row'
  pub kept : row.status ≡ completed → row'.session_id ≡ row.session_id

pub Moves-refl : (row : ImportRecord) → Moves row row
Moves-refl row = record { edge = stay; named = λ n. n; kept = λ _. refl }

-- A change that leaves the state and the session alone.
pub Moves-of_same :
    (row row' : ImportRecord)
    → row'.status ≡ row.status
    → row'.session_id ≡ row.session_id
    → Moves row row'
Moves-of_same row row' s e = record {
  edge = subst (λ u. row.status ⟶? u) (sym s) stay;
  named = λ n h k. n (rw s at h) (sym e ∙ k);
  kept = λ _. e;
}

-- A move to another state; a state that needs a session comes with one.
pub Moves-of_edge :
    (row row' : ImportRecord)
    → row.status ⟶ row'.status
    → row.status ≢ completed
    → (IsNamed row → IsNamed row')
    → Moves row row'
Moves-of_edge row row' e open' n = record { edge = move e; named = n; kept = λ c. absurd (open' c) }

pub transition_row-Moves :
    (now : ℕ) (expected next : Status) (session_id : Option String) (row : ImportRecord)
    {row' : ImportRecord}
    → expected ⟶ next
    → expected ≢ completed
    → (IsNamed row → row.status ≡ expected → IsNamed (moved_row now next session_id row))
    → transition_row now expected next session_id row ≡ ok row'
    → Moves row row'
transition_row-Moves now expected next session_id row e open' n h =
    elim (Bool-cases (row.status == expected)) [
      | inl t ↦
          let same = (status_beq_iff row.status expected).0 t in
          subst (Moves row) (fitting-eq-ok (fits_optional_text session_id) _ _ (rw t at h)) (
            Moves-of_edge row (moved_row now next session_id row) (rw same e)
              (λ c. open' (sym same ∙ c)) (λ k. n k same))
      | inr f ↦ absurd (cc (rw f at h))
    ]

fail_edge : (s : Status) → (s == completed || s == cancelled) ≡ false → s ⟶? failed
fail_edge uploaded h = move fail_uploaded
fail_edge validating h = move fail_validating
fail_edge awaiting_confirmation h = move fail_awaiting
fail_edge publishing h = move fail_publishing
fail_edge failed h = stay
fail_edge completed h = absurd (cc)
fail_edge cancelled h = absurd (cc)

pub fail_row-Moves :
    (now : ℕ) (errors : List String) (row : ImportRecord) {row' : ImportRecord}
    → fail_row now errors row ≡ ok row'
    → Moves row row'
fail_row-Moves now errors row h =
    elim (Bool-cases (row.status == completed || row.status == cancelled)) [
      | inl t ↦ absurd (cc (rw t at h))
      | inr f ↦ subst (Moves row) (fitting-eq-ok (fits_texts errors) _ _ (rw f at h)) (record {
        edge = fail_edge row.status f;
        named = λ _ k. absurd (cc);
        kept = λ c. absurd (ground arith);
      })
    ]

cancel_edge : (s : Status) → is_cancellable s ≡ true → s ⟶? cancelled
cancel_edge uploaded h = move drop_uploaded
cancel_edge validating h = move drop_validating
cancel_edge awaiting_confirmation h = move drop_awaiting
cancel_edge publishing h = absurd (cc)
cancel_edge failed h = absurd (cc)
cancel_edge completed h = absurd (cc)
cancel_edge cancelled h = absurd (cc)

pub cancel_row-Moves :
    (now : ℕ) (row : ImportRecord) {row' : ImportRecord}
    → cancel_row now row ≡ ok row'
    → Moves row row'
cancel_row-Moves now row h = elim (Bool-cases (is_cancellable row.status)) [
  | inl t ↦ subst (Moves row) (ok_eq (rw t at h)) (record {
    edge = cancel_edge row.status t;
    named = λ _ k. absurd (cc);
    kept = λ c. absurd (ground arith);
  })
  | inr f ↦ absurd (cc (rw f at h))
]

-- What a call does to the rows of the table: each moves, and what is new is `uploaded`.
pub record Evolves (t t' : Tables) : Type 0 where
  pub moved :
      (k : String) (row : ImportRecord)
      → get k t.imports ≡ some row
      → (row' : ImportRecord) × (get k t'.imports ≡ some row') × Moves row row'
  pub fresh :
      (k : String) (row' : ImportRecord)
      → get k t.imports ≡ none
      → get k t'.imports ≡ some row'
      → row'.status ≡ uploaded

pub Evolves-refl : (t : Tables) → Evolves t t
Evolves-refl t = record {
  moved = λ k row found. (row, found, Moves-refl row);
  fresh = λ k row missing found. absurd (cc);
}

-- One row is written over, as it may move.
pub Evolves-put :
    (k : String) (row row' : ImportRecord) (t t' : Tables)
    → get k t.imports ≡ some row
    → Moves row row'
    → t'.imports ≡ put k row' t.imports
    → Evolves t t'
Evolves-put k row row' t t' here m e = record {
  moved = λ j row1 found. elim (Bool-cases (k == j)) [
    | inl same ↦
        let key = (eq_iff k j).0 same in
        let one : row ≡ row1 = cc (here, found, key) in
        (row', rw e (ground (arith, get-put k j row' t.imports)), subst (λ r. Moves r row') one m)
    | inr other ↦ (row1, rw e (ground (arith, get-put k j row' t.imports)), Moves-refl row1)
  ];
  fresh = λ j row1 missing found.
      let found' : get j (put k row' t.imports) ≡ some row1 = rw e at found in
      absurd (ground (arith, get-put k j row' t.imports, eq_iff k j));
}

-- A row with a key that was free is added.
pub Evolves-of_new :
    (k : String) (row' : ImportRecord) (t t' : Tables)
    → get k t.imports ≡ none
    → row'.status ≡ uploaded
    → t'.imports ≡ put k row' t.imports
    → Evolves t t'
Evolves-of_new k row' t t' free new e = record {
  moved = λ j row1 found.
      (row1, rw e (ground (arith, get-put k j row' t.imports, eq_iff k j)), Moves-refl row1);
  fresh = λ j row1 missing found.
      let found' : get j (put k row' t.imports) ≡ some row1 = rw e at found in
      ground (arith, get-put k j row' t.imports, eq_iff k j);
}

module _ (k : String) (t : Tables) where
  store_row-Evolves :
      (r : Result ImportRecord) (row : ImportRecord)
      → get k t.imports ≡ some row
      → ((row' : ImportRecord) → r ≡ ok row' → Moves row row')
      → Evolves t (after (store_row k r t) t)
  store_row-Evolves (err e) row here h = Evolves-refl t
  store_row-Evolves (ok row') row here h = Evolves-put k row row' t _ here (h row' refl) refl

  on_row-Evolves :
      (f : ImportRecord → Result ImportRecord) (found : Option ImportRecord)
      → get k t.imports ≡ found
      → ((row row' : ImportRecord) → f row ≡ ok row' → Moves row row')
      → Evolves t (after (on_row k f found t) t)
  on_row-Evolves f none here h = Evolves-refl t
  on_row-Evolves f (some row) here h = store_row-Evolves (f row) row here (h row)

-- A method on one row.
pub with_row-Evolves :
    (k : String) (f : ImportRecord → Result ImportRecord) (t : Tables)
    → ((row row' : ImportRecord) → f row ≡ ok row' → Moves row row')
    → Evolves t (after (with_row k f t) t)
with_row-Evolves k f t h = on_row-Evolves k t f (get k t.imports) refl h
