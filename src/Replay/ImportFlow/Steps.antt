-- ===== src/Replay/ImportFlow/Steps.antt =====
-- How a call of the importer ends, and the rules by which each transaction leads on to an end.
use mathlib.Core.Path.{subst}
use gamma_scope.Prelude.{
  ℕ, String, string_eq, ◌≡◌, refl, sym, ◌∙◌, ◌⊎◌, inl, inr, Bool, true, false, ◌||◌, ◌&&◌, Option,
  some, List, ◌==◌,
}
use gamma_scope.Prelude.Dict.{get, get-put_self}
use gamma_scope.Replay.Effects.{Result, ok, err, Exec, transact, ◌>>=◌, continue}
use gamma_scope.Replay.Columns.{
  refused, fits_optional_text, fits_texts, fits_summary, fitting, if_fits,
}
use gamma_scope.Replay.Tables.{
  Status, completed, failed, cancelled, status_eq, Summary, ImportRecord, Tables,
}
use gamma_scope.Replay.Imports.{
  validation_fits, get_import, with_row, write_row, transition_row, moved_row, fail_row,
  validation_row, save_validation, mark_failed,
}
use gamma_scope.Replay.Importer.{ImportResult, result_from_record, completed_result}
use gamma_scope.Replay.ImportFlow.{report, report_completed, reject}

-- The call returns a result; the import is stored in the state that the result names, and this is
-- one of the states in `P`.
pub record Ends (P : Status → Type 0) (k : String) (x : Result ImportResult × Tables) : Type 0 where
  pub result : ImportResult
  pub row : ImportRecord
  pub returned : x.0 ≡ ok result
  pub stored : get k x.1.imports ≡ some row
  pub agrees : result.status ≡ row.status
  pub settled : P row.status

-- The call ends so, or raises the error of a value that the database refuses, for a reason in `W`.
abbrev pub Settles : (Status → Type 0) → Type 0 → String → Result ImportResult × Tables → Type 0
Settles P W k x = Ends P k x ⊎ ((x.0 ≡ err refused) × W)

pub and_false : (a b : Bool) → b ≡ false → (a && b) ≡ false
and_false true b h = h
and_false false b h = refl

module _ (P : Status → Type 0) (k : String) where
  -- One step that returns, then the rest.
  pub Ends-bind :
      {A : Type 0} (m : Exec Tables A) (f : A → Exec Tables ImportResult) (t t' : Tables) (a : A)
      → m t ≡ (ok a, t')
      → Ends P k (f a t')
      → Ends P k ((m >>= f) t)
  Ends-bind m f t t' a h e = subst (λ x. Ends P k (continue x.0 f x.1)) (sym h) e

  module _ (t : Tables) (row : ImportRecord) (found : get k t.imports ≡ some row) where
    pub transact-get_import : transact (get_import k) t ≡ (ok row, t)
    unfolding get_import
    transact-get_import = rw (found, get_import)

    pub transact-with_row :
        (f : ImportRecord → Result ImportRecord) (row' : ImportRecord)
        → f row ≡ ok row'
        → transact (with_row k f) t ≡ (ok tt, write_row k row' t)
    transact-with_row f row' h = rw (found, h)

    -- A write that is refused.
    pub refused-with_row :
        (f : ImportRecord → Result ImportRecord)
        → f row ≡ err refused
        → transact (with_row k f) t ≡ (err refused, t)
    refused-with_row f h = rw (found, h)

    -- The result is read back from the row.
    pub report-Ends : P row.status → Ends P k (report k t)
    unfolding report result_from_record
    report-Ends final = Ends-bind (transact (get_import k)) _ t t row transact-get_import (record {
      result = result_from_record row;
      row = row;
      returned = refl;
      stored = found;
      agrees = refl;
      settled = final;
    })

    pub report_completed-Ends :
        row.status ≡ completed → P row.status → Ends P k (report_completed k t)
    unfolding report_completed completed_result
    report_completed-Ends e final =
        Ends-bind (transact (get_import k)) _ t t row transact-get_import (record {
          result = completed_result row;
          row = row;
          returned = refl;
          stored = found;
          agrees = sym e;
          settled = final;
        })

  -- A row that was written is there.
  pub written_row : (row : ImportRecord) (t : Tables) → get k (write_row k row t).imports ≡ some row
  written_row row t = get-put_self k row t.imports

  abbrev pub is_closed : Status → Bool
  is_closed s = s == completed || s == cancelled

module _ (P : Status → Type 0) (W : Type 0) (k : String) where
  pub Settles-bind :
      {A : Type 0} (m : Exec Tables A) (f : A → Exec Tables ImportResult) (t t' : Tables) (a : A)
      → m t ≡ (ok a, t')
      → Settles P W k (f a t')
      → Settles P W k ((m >>= f) t)
  Settles-bind m f t t' a h e = subst (λ x. Settles P W k (continue x.0 f x.1)) (sym h) e

  -- One step that returns if its values fit, then the rest.
  pub Settles-fits :
      {A : Type 0} (b : Bool) (m : Exec Tables A) (f : A → Exec Tables ImportResult) (t t' : Tables)
      (a : A)
      → (b ≡ true → m t ≡ (ok a, t'))
      → (b ≡ false → m t ≡ (err refused, t))
      → (b ≡ false → W)
      → Settles P W k (f a t')
      → Settles P W k ((m >>= f) t)
  Settles-fits true m f t t' a returns refuses misfit e = Settles-bind m f t t' a (returns refl) e
  Settles-fits false m f t t' a returns refuses misfit e =
      subst (λ x. Settles P W k (continue x.0 f x.1)) (sym (refuses refl)) (inr (refl, misfit refl))

  module _ (t : Tables) (row : ImportRecord) (found : get k t.imports ≡ some row) where
    -- A write on the row whose values may be refused, then the rest.
    fitting-Settles :
        (b : Bool) (g : ImportRecord → Result ImportRecord) (row' : ImportRecord)
        (f : Unit {0} → Exec Tables ImportResult)
        → g row ≡ fitting b row'
        → (b ≡ false → W)
        → Settles P W k (f tt (write_row k row' t))
        → Settles P W k ((transact (with_row k g) >>= f) t)
    fitting-Settles b g row' f h misfit e =
        Settles-fits b (transact (with_row k g)) f t (write_row k row' t) tt
          (λ fits. transact-with_row P k t row found g row' (h ∙ rw fits refl))
          (λ refuses. refused-with_row P k t row found g (h ∙ rw refuses refl)) misfit e

    -- A statement on the row that may be refused, then the rest.
    pub if_fits-Settles :
        (b : Bool) (g : ImportRecord → Result ImportRecord) (row' : ImportRecord)
        (f : Unit {0} → Exec Tables ImportResult)
        → g row ≡ ok row'
        → (b ≡ false → W)
        → Settles P W k (f tt (write_row k row' t))
        → Settles P W k ((transact (if_fits b (with_row k g)) >>= f) t)
    if_fits-Settles b g row' f h misfit e =
        Settles-fits b (transact (if_fits b (with_row k g))) f t (write_row k row' t) tt
          (λ fits. rw fits (transact-with_row P k t row found g row' h))
          (λ refuses. rw refuses refl) misfit e

  -- An import that is not closed can be failed.
  pub mark_failed-Settles :
      (now : ℕ) (errors : List String) (t : Tables) (row : ImportRecord)
      → get k t.imports ≡ some row
      → is_closed P k row.status ≡ false
      → P failed
      → (fits_texts errors ≡ false → W)
      → Settles P W k ((transact (mark_failed k now errors) >>= λ _. report k) t)
  unfolding mark_failed
  mark_failed-Settles now errors t row found open' final misfit =
      let row' = record row { status = failed; validation_errors = errors; updated_at = now } in
      fitting-Settles t row found (fits_texts errors) (fail_row now errors) row' (λ _. report k)
        (rw open' refl) misfit
        (inl (report-Ends P k (write_row k row' t) row' (written_row P k row' t) final))

  -- A validation that is saved, then the rest.
  pub save_validation-Settles :
      (now : ℕ) (summary : Summary) (warnings errors : List String) (t : Tables)
      (row : ImportRecord) (f : Unit {0} → Exec Tables ImportResult)
      → get k t.imports ≡ some row
      → (validation_fits summary warnings errors ≡ false → W)
      → Settles P W k (
          f tt (
            write_row k
              (record row {
                validation_summary = summary;
                validation_warnings = warnings;
                validation_errors = errors;
                updated_at = now;
              })
              t))
      → Settles P W k ((transact (save_validation k now summary warnings errors) >>= f) t)
  unfolding save_validation
  save_validation-Settles now summary warnings errors t row f found misfit e =
      if_fits-Settles t row found (validation_fits summary warnings errors)
        (validation_row now summary warnings errors) _ f refl misfit e

  pub reject-Settles :
      (now : ℕ) (summary : Summary) (warnings errors : List String) (t : Tables)
      (row : ImportRecord)
      → get k t.imports ≡ some row
      → is_closed P k row.status ≡ false
      → P failed
      → (validation_fits summary warnings errors ≡ false → W)
      → Settles P W k (reject k now summary warnings errors t)
  unfolding reject
  reject-Settles now summary warnings errors t row found open' final misfit =
      let row' = record row {
        validation_summary = summary;
        validation_warnings = warnings;
        validation_errors = errors;
        updated_at = now;
      } in
      save_validation-Settles now summary warnings errors t row _ found misfit (
        mark_failed-Settles now errors (write_row k row' t) row' (written_row P k row' t) open'
          final (λ h. misfit (and_false (fits_summary summary && fits_texts warnings) _ h)))

  -- A transition from the state that the row is in, then the rest.
  pub transition-Settles :
      (now : ℕ) (expected next : Status) (session_id : Option String) (t : Tables)
      (row : ImportRecord) (f : Unit {0} → Exec Tables ImportResult)
      → get k t.imports ≡ some row
      → (row.status == expected) ≡ true
      → (fits_optional_text session_id ≡ false → W)
      → Settles P W k (f tt (write_row k (moved_row now next session_id row) t))
      → Settles P W k
          ((transact (with_row k (transition_row now expected next session_id)) >>= f) t)
  transition-Settles now expected next session_id t row f found here misfit e =
      fitting-Settles t row found (fits_optional_text session_id)
        (transition_row now expected next session_id) (moved_row now next session_id row) f
        (rw here refl) misfit e
