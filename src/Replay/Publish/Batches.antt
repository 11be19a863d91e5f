-- ===== src/Replay/Publish/Batches.antt =====
-- The batches of `publish_import` against row by row insertion.
use mathlib.Core.List.{append-nil, append_assoc}
use native.Mathlib.Nat.{add-zero}
use gamma_scope.Prelude.{
  ℕ, suc, ◌+◌, String, ◌≡◌, refl, sym, ap, ◌∙◌, List, [], ◌∷◌, ◌++◌, inl, inr, arith, leb, length,
  length-append, Bool-cases,
}
use gamma_scope.Replay.Effects.{Result, ok, err}
use gamma_scope.Replay.Tables.{QuoteRecord}
use gamma_scope.Replay.Publish.{
  Quotes, done, broken, next, and_then, quote_row, has_quote, insert_batch, insert_quotes,
}

-- The rows of the quotes in a stream, up to its end.
unfoldable pub rows_of : String → Quotes → List QuoteRecord
rows_of session_id done = []
rows_of session_id (broken e) = []
rows_of session_id (next q quotes) = quote_row session_id q ∷ rows_of session_id quotes

-- Reading the stream does not raise.
abbrev pub IsDone : Quotes → Type 0
IsDone done = Unit
IsDone (broken e) = ⊥
IsDone (next q quotes) = IsDone quotes

-- Two batches in a row are one.
insert_batch-append :
    (xs ys rows : List QuoteRecord)
    → insert_batch (xs ++ ys) rows ≡ and_then (insert_batch xs rows) (λ r. insert_batch ys r)
unfolding insert_batch
insert_batch-append [] ys rows = refl
insert_batch-append (x ∷ xs) ys rows = elim (Bool-cases (has_quote x rows)) [
  | inl e ↦ rw e
  | inr e ↦ rw e (insert_batch-append xs ys (rows ++ x ∷ []))
]

-- A batch that is written stands behind the rows that were there.
pub insert_batch-eq :
    (batch rows : List QuoteRecord) {rows' : List QuoteRecord}
    → insert_batch batch rows ≡ ok rows'
    → rows' ≡ rows ++ batch
unfolding insert_batch
insert_batch-eq [] rows h = cc (h, append-nil rows)
insert_batch-eq (q ∷ batch) rows h = elim (Bool-cases (has_quote q rows)) [
  | inl e ↦ absurd (cc (rw e at h))
  | inr e ↦ insert_batch-eq batch (rows ++ q ∷ []) (rw e at h) ∙ append_assoc rows (q ∷ []) batch
]

-- The continuation may be compared result by result.
and_then_ext {ℓ κ} :
    {A : Type ℓ} {B : Type κ} (r : Result A) (f g : A → Result B)
    → ((a : A) → f a ≡ g a)
    → and_then r f ≡ and_then r g
and_then_ext (ok a) f g h = h a
and_then_ext (err e) f g h = refl

and_then_assoc {ℓ κ μ} :
    {A : Type ℓ} {B : Type κ} {C : Type μ} (r : Result A) (f : A → Result B) (g : B → Result C)
    → and_then (and_then r f) g ≡ and_then r (λ a. and_then (f a) g)
and_then_assoc (ok a) f g = refl
and_then_assoc (err e) f g = refl

-- The count that is returned, beside the rows.
counted : ℕ → Result (List QuoteRecord) → Result (ℕ × List QuoteRecord)
counted n r = and_then r λ rows. ok (n, rows)

-- Writing a full batch first, and the rest later, is writing all at once.
counted-split :
    (n : ℕ) (xs ys rows : List QuoteRecord)
    → counted n (insert_batch (xs ++ ys) rows)
      ≡ and_then (insert_batch xs rows) (λ r. counted n (insert_batch ys r))
unfolding counted
counted-split n xs ys rows =
    ap (λ r. and_then r (λ all. ok (n, all))) (insert_batch-append xs ys rows)
    ∙ and_then_assoc (insert_batch xs rows) (λ r. insert_batch ys r) (λ all. ok (n, all))

insert_quotes-counted :
    (size : ℕ) (session_id : String) (quotes : Quotes) (batch : List QuoteRecord) (count : ℕ)
    (rows : List QuoteRecord)
    → IsDone quotes
    → insert_quotes size session_id quotes batch count rows
      ≡ counted
          (count + length batch + length (rows_of session_id quotes))
          (insert_batch (batch ++ rows_of session_id quotes) rows)
unfolding insert_quotes rows_of
insert_quotes-counted size session_id done batch count rows h =
    unfold counted in rw (append-nil batch, add-zero (count + length batch))
insert_quotes-counted size session_id (broken e) batch count rows h = elim h [ ]
insert_quotes-counted size session_id (next q quotes) batch count rows h =
    let row = quote_row session_id q in
    let rest = rows_of session_id quotes in
    let batch' = batch ++ row ∷ [] in
    let total = count + length batch + suc (length rest) in
    let split : batch ++ row ∷ rest ≡ batch' ++ rest = sym (append_assoc batch (row ∷ []) rest) in
    let grown : length batch' ≡ length batch + 1 = length-append batch (row ∷ []) in
    rw split (elim (Bool-cases (leb size (length batch'))) [
      | inl e ↦ rw e (
          and_then_ext (insert_batch batch' rows) _ _ (λ r.
            insert_quotes-counted size session_id quotes [] (count + length batch') r h
            ∙ ap (λ (n : ℕ). counted n (insert_batch rest r)) (omega arith))
          ∙ sym (counted-split total batch' rest rows))
      | inr e ↦ rw e (
          insert_quotes-counted size session_id quotes batch' count rows h
          ∙ ap (λ (n : ℕ). counted n (insert_batch (batch' ++ rest) rows)) (omega arith))
    ])

-- For every positive or zero batch size, a stream that ends is written as one batch would be: the
-- same rows or the same clash of keys, and the count of all its quotes.
pub insert_quotes-eq-insert_batch :
    (size : ℕ) (session_id : String) (quotes : Quotes) (rows : List QuoteRecord)
    → IsDone quotes
    → insert_quotes size session_id quotes [] 0 rows
      ≡ and_then
          (insert_batch (rows_of session_id quotes) rows)
          (λ r. ok (length (rows_of session_id quotes), r))
insert_quotes-eq-insert_batch size session_id quotes rows h =
    insert_quotes-counted size session_id quotes [] 0 rows h
    ∙ (unfold counted in
        ap (λ (n : ℕ). and_then (insert_batch (rows_of session_id quotes) rows) (λ r. ok (n, r)))
          (omega arith))
