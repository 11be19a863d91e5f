-- ===== src/Heatmap/Locked.antt =====
-- What an upsert of heatmap/repository.py does to the baselines that are stored.
use mathlib.Core.Path.{subst}
use gamma_scope.Prelude.{
  ℕ, ◌≤◌, ◌≡◌, ◌≢◌, refl, sym, ap, ◌∙◌, ◌⊎◌, inl, inr, Bool, true, false, not, ◌&&◌, ◌||◌, Option,
  none, some, List, [], ◌∷◌, ◌==◌, leb, leb→le, arith, Bool-cases, All,
}
use gamma_scope.Prelude.Dict.{get, put, get-put, get-put_self}
use gamma_scope.Replay.Effects.{Result, ok, err, Platform}
use gamma_scope.Replay.Publish.Rows.{and_then-eq-ok}
use gamma_scope.Heatmap.Records.{OiBaseline, BaselineKey, key_eq, normalized_baseline}
use gamma_scope.Heatmap.Postgres.{
  BaselineRow, BaselineTable, on_conflict, row_of, returned, selected, upsert_record,
  upsert_oi_baseline,
}

-- What may become of a stored row: a locked one stays as it is, another gets locked or no older.
abbrev pub IsSuccessor : BaselineRow → BaselineRow → Type 0
IsSuccessor old new =
    (old ≡ new)
    ⊎ ((old.locked ≡ false)
        × ((new.locked ≡ true) ⊎ (old.source_snapshot_time ≤ new.source_snapshot_time)))

-- A table in which every stored row has a successor.
abbrev pub Follows : BaselineTable → BaselineTable → Type 0
Follows t t' =
    (k : BaselineKey) (old : BaselineRow)
    → get k t ≡ some old
    → (new : BaselineRow) × (get k t' ≡ some new) × IsSuccessor old new

IsSuccessor-trans : (a b c : BaselineRow) → IsSuccessor a b → IsSuccessor b c → IsSuccessor a c
IsSuccessor-trans a b c (inl e) h = subst (λ x. IsSuccessor x c) (sym e) h
IsSuccessor-trans a b c (inr h) (inl e) = subst (λ x. IsSuccessor a x) e (inr h)
IsSuccessor-trans a b c (inr (free, inl l)) (inr (free', h)) = absurd (cc)
IsSuccessor-trans a b c (inr (free, inr le)) (inr (free', inl l)) = inr (free, inl l)
IsSuccessor-trans a b c (inr (free, inr le)) (inr (free', inr le')) =
    inr (free, inr (omega (arith, le, le')))

Follows-self : (t : BaselineTable) → Follows t t
Follows-self t k old found = (old, found, inl refl)

Follows-trans : (t u v : BaselineTable) → Follows t u → Follows u v → Follows t v
Follows-trans t u v f g k old found =
    let (mid, at_mid, h) = f k old found in
    let (new, at_new, h') = g k mid at_mid in (new, at_new, IsSuccessor-trans old mid new h h')

abbrev NotOlder : BaselineRow → BaselineRow → Type 0
NotOlder row new = (new.locked ≡ true) ⊎ (row.source_snapshot_time ≤ new.source_snapshot_time)

-- A row's key is stored, locked or with a row that is no older.
abbrev pub IsKept : BaselineRow → BaselineTable → Type 0
IsKept row t = (new : BaselineRow) × (get row.key t ≡ some new) × NotOlder row new

NotOlder-IsSuccessor : (row a b : BaselineRow) → NotOlder row a → IsSuccessor a b → NotOlder row b
NotOlder-IsSuccessor row a b h (inl e) = subst (NotOlder row) e h
NotOlder-IsSuccessor row a b (inl l) (inr (free, h)) = absurd (cc)
NotOlder-IsSuccessor row a b (inr le) (inr (free, inl l)) = inl l
NotOlder-IsSuccessor row a b (inr le) (inr (free, inr le')) = inr (omega (arith, le, le'))

IsKept-Follows :
    (row : BaselineRow) (t t' : BaselineTable) → IsKept row t → Follows t t' → IsKept row t'
IsKept-Follows row t t' (a, at_a, h) f =
    let (b, at_b, h') = f row.key a at_a in (b, at_b, NotOlder-IsSuccessor row a b h h')

some_eq : (a b : BaselineRow) → some a ≡ some b → a ≡ b
some_eq a b h = cc

-- How the WHERE of the update decides.
where_true : (a b c : Bool) → (not a && (b || c)) ≡ true → (a ≡ false) × ((b ≡ true) ⊎ (c ≡ true))
where_true true b c h = absurd (cc)
where_true false true c h = (refl, inl refl)
where_true false false true h = (refl, inr refl)
where_true false false false h = absurd (cc)

where_false : (a b c : Bool) → (not a && (b || c)) ≡ false → (a ≡ true) ⊎ (c ≡ false)
where_false true b c h = inl refl
where_false false true c h = absurd (cc)
where_false false false true h = absurd (cc)
where_false false false false h = inr refl

le_of_leb : (a b : ℕ) → leb a b ≡ false → b ≤ a
le_of_leb a b h = ground arith

replaced-IsSuccessor :
    (row old written : BaselineRow)
    → on_conflict row (some old) ≡ some written
    → (row ≡ written) × IsSuccessor old row
unfolding on_conflict
replaced-IsSuccessor row old written h =
    elim (Bool-cases
      (not old.locked && (row.locked || leb old.source_snapshot_time row.source_snapshot_time))) [
        | inl e ↦
            let h' = rw e at h in
            let (free, reason) =
              where_true old.locked row.locked
                (leb old.source_snapshot_time row.source_snapshot_time) e in
            let later : (row.locked ≡ true)
                ⊎ (old.source_snapshot_time ≤ row.source_snapshot_time) =
              elim reason [ inl l ↦ inl l | inr le ↦ inr (leb→le _ _ le) ] in
            (cc, inr (free, later))
        | inr e ↦ absurd (let h' = rw e at h in cc)
      ]

left_alone : (row old : BaselineRow) → on_conflict row (some old) ≡ none → NotOlder row old
unfolding on_conflict
left_alone row old h =
    elim (Bool-cases
      (not old.locked && (row.locked || leb old.source_snapshot_time row.source_snapshot_time))) [
        | inl e ↦ absurd (let h' = rw e at h in cc)
        | inr e ↦
            elim (where_false old.locked row.locked
              (leb old.source_snapshot_time row.source_snapshot_time) e) [
                | inl l ↦ inl l
                | inr early ↦ inr (le_of_leb _ _ early)
              ]
      ]

put-Follows :
    (row : BaselineRow) (t : BaselineTable)
    → ((old : BaselineRow) → get row.key t ≡ some old → IsSuccessor old row)
    → Follows t (put row.key row t)
put-Follows row t h k old found = elim (Bool-cases (row.key == k)) [
  | inl e ↦
      let same : get row.key t ≡ some old =
        ap (λ j. get j t) ((key_eq.test_iff row.key k).0 e) ∙ found in
      (row, get-put row.key k row t ∙ rw e refl, h old same)
  | inr e ↦ (old, get-put row.key k row t ∙ rw e found, inl refl)
]

inserted : (row w : BaselineRow) → on_conflict row none ≡ some w → row ≡ w
unfolding on_conflict
inserted row w h = some_eq row w h

not_inserted : (row : BaselineRow) → on_conflict row none ≢ none
unfolding on_conflict
not_inserted row = λ h. cc

module _ (p : Platform) where
  abbrev table_of : {A : Type 0} → Result (A × BaselineTable) → BaselineTable → BaselineTable
  table_of (ok (a, t)) d = t
  table_of (err e) d = d

  returned-Follows :
      (row : BaselineRow) (t t' : BaselineTable) (b : OiBaseline)
      (stored written : Option BaselineRow)
      → get row.key t ≡ stored
      → on_conflict row stored ≡ written
      → returned p row t written ≡ ok (b, t')
      → Follows t t' × IsKept row t'
  returned-Follows row t t' b none (some w) found decided h =
      let same : row ≡ w = inserted row w decided in
      let now : put row.key row t ≡ t' =
        ap (λ x. put row.key x t) same ∙ ap (λ r. table_of r t) h in
      subst (λ x. Follows t x × IsKept row x) now
        (
          put-Follows row t (λ old at_old. absurd (let e = sym found ∙ at_old in cc)),
          (row, get-put_self row.key row t, inr (omega arith)),
        )
  returned-Follows row t t' b (some old) (some w) found decided h =
      let (same, later) = replaced-IsSuccessor row old w decided in
      let now : put row.key row t ≡ t' =
        ap (λ x. put row.key x t) same ∙ ap (λ r. table_of r t) h in
      subst (λ x. Follows t x × IsKept row x) now
        (
          put-Follows row t
              (λ x at_x. subst (λ y. IsSuccessor y row) (some_eq old x (sym found ∙ at_x)) later),
          (row, get-put_self row.key row t, inr (omega arith)),
        )
  returned-Follows row t t' b none none found decided h = absurd (not_inserted row decided)
  returned-Follows row t t' b (some old) none found decided h =
      let now : t ≡ t' =
        ap (λ o. table_of (selected p t o) t) (sym found) ∙ ap (λ r. table_of r t) h in
      subst (λ x. Follows t x × IsKept row x) now
        (Follows-self t, (old, found, left_alone row old decided))

  module _ (new_york_time : ℕ → ℕ) where
    -- What a record was made of, and what became of it.
    abbrev pub IsStored : BaselineTable → OiBaseline → Type 0
    IsStored t r =
        (n : OiBaseline) × (row : BaselineRow) × (normalized_baseline p new_york_time r ≡ ok n)
        × (row_of p n ≡ ok row)
        × IsKept row t

    upsert_record-Follows :
        (r : OiBaseline) (t t' : BaselineTable) (b : OiBaseline)
        → upsert_record p new_york_time r t ≡ ok (b, t')
        → Follows t t' × IsStored t' r
    unfolding upsert_record
    upsert_record-Follows r t t' b h =
        let (n, n_is, h1) = and_then-eq-ok (normalized_baseline p new_york_time r) _ h in
        let (row, row_is, h2) = and_then-eq-ok (row_of p n) _ h1 in
        let (follows, kept) =
          returned-Follows row t t' b (get row.key t) (on_conflict row (get row.key t)) refl refl
            h2 in
        (follows, (n, row, n_is, row_is, kept))

    IsStored-Follows :
        (t t' : BaselineTable) (r : OiBaseline) → Follows t t' → IsStored t r → IsStored t' r
    IsStored-Follows t t' r f (n, row, n_is, row_is, kept) =
        (n, row, n_is, row_is, IsKept-Follows row t t' kept f)

    -- After an upsert that commits, every baseline that was locked is as it was, every other is now
    -- locked or no older than it was, and each given record is stored under its key, or a record
    -- that is locked or no older than it.
    pub upsert_oi_baseline-Follows :
        (records : List OiBaseline) (t t' : BaselineTable) (stored : List OiBaseline)
        → upsert_oi_baseline p new_york_time records t ≡ ok (stored, t')
        → Follows t t' × All (IsStored t') records
    unfolding upsert_oi_baseline
    upsert_oi_baseline-Follows [] t t' stored h =
        (subst (Follows t) (ap (λ r. table_of r t) h) (Follows-self t), tt)
    upsert_oi_baseline-Follows (r ∷ records) t t' stored h =
        let ((b, t1), first, h1) = and_then-eq-ok (upsert_record p new_york_time r t) _ h in
        let ((rest, t2), others, h2) =
          and_then-eq-ok (upsert_oi_baseline p new_york_time records t1) _ h1 in
        let (f, kept) = upsert_record-Follows r t t1 b first in
        let (g, all) = upsert_oi_baseline-Follows records t1 t2 rest others in
        subst (λ x. Follows t x × All (IsStored x) (r ∷ records)) (ap (λ x. table_of x t) h2)
          (Follows-trans t t1 t2 f g, (IsStored-Follows t1 t2 r g kept, all))
