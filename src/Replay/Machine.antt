-- ===== src/Replay/Machine.antt =====
-- The life of an import, over every sequence of calls of replay/import_repository.py: an abstract
-- diagram of states, and the detailed methods as moves of it.
pub mod Rows
pub mod Runs
use gamma_scope.Prelude.{ℕ, String, List, [], ◌∷◌}
use gamma_scope.Replay.Effects.{Result, ok, err, Platform}
use gamma_scope.Replay.Tables.{
  Status, uploaded, validating, awaiting_confirmation, publishing, completed, failed, cancelled,
  Tables, Summary,
}
use gamma_scope.Replay.Imports.{
  NewImport, ArchiveColumns, create_import, save_archive_metadata, save_validation, mark_validating,
  mark_awaiting_confirmation, mark_publishing, mark_completed, mark_failed, mark_cancelled,
}
use gamma_scope.Replay.Publish.{Publication, publish_import}

-- The calls of the repository that may change a table.
pub data Call : Type 0 where
  create : String → ℕ → NewImport → Call
  archive : String → ℕ → ArchiveColumns → Call
  validation : String → ℕ → Summary → List String → List String → Call
  validate : String → ℕ → Call
  await : String → ℕ → String → Call
  publish : String → ℕ → Call
  complete : String → ℕ → String → Call
  fail : String → ℕ → List String → Call
  cancel : String → ℕ → Call
  publish_all : ℕ → Publication → Call

-- The tables after a result: those that it carries, or the old ones after a rollback.
abbrev pub after {ℓ} : {A : Type ℓ} → Result (A × Tables) → Tables → Tables
after (ok (a, t')) t = t'
after (err e) t = t

unfoldable pub run_call : Platform → Tables → Call → Tables
run_call p t (create uuid now n) = after (create_import uuid now n t) t
run_call p t (archive k now a) = after (save_archive_metadata k now a t) t
run_call p t (validation k now s ws es) = after (save_validation k now s ws es t) t
run_call p t (validate k now) = after (mark_validating k now t) t
run_call p t (await k now sid) = after (mark_awaiting_confirmation k now sid t) t
run_call p t (publish k now) = after (mark_publishing k now t) t
run_call p t (complete k now sid) = after (mark_completed k now sid t) t
run_call p t (fail k now es) = after (mark_failed k now es t) t
run_call p t (cancel k now) = after (mark_cancelled k now t) t
run_call p t (publish_all now a) = after (publish_import p now a t) t

unfoldable pub run_calls : Platform → Tables → List Call → Tables
run_calls p t [] = t
run_calls p t (c ∷ calls) = run_calls p (run_call p t c) calls

-- The diagram.
infix 40 ◌⟶◌ ◌⟶*◌ ◌⟶?◌
pub data ◌⟶◌ : Status → Status → Type 0 where
  start : uploaded ⟶ validating
  ready : validating ⟶ awaiting_confirmation
  confirm : awaiting_confirmation ⟶ publishing
  finish : publishing ⟶ completed
  fail_uploaded : uploaded ⟶ failed
  fail_validating : validating ⟶ failed
  fail_awaiting : awaiting_confirmation ⟶ failed
  fail_publishing : publishing ⟶ failed
  drop_uploaded : uploaded ⟶ cancelled
  drop_validating : validating ⟶ cancelled
  drop_awaiting : awaiting_confirmation ⟶ cancelled

pub data ◌⟶*◌ (s : Status) : Status → Type 0 where
  here : s ⟶* s
  then : {t u : Status} → s ⟶* t → t ⟶ u → s ⟶* u

-- One call moves a state by at most one edge.
pub data ◌⟶?◌ : Status → Status → Type 0 where
  stay : {s : Status} → s ⟶? s
  move : {s t : Status} → s ⟶ t → s ⟶? t
