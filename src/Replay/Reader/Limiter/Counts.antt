-- ===== src/Replay/Reader/Limiter/Counts.antt =====
-- What the limiter has counted after any reports.
use gamma_scope.Prelude.{
  ℕ, zero, suc, ◌+◌, String, string_eq, ◌≡◌, refl, sym, ap, ◌∙◌, true, false, Option, none, some,
  List, [], ◌∷◌, ◌++◌, map, ◌==◌, ltb, length, take, keep, arith, inl, inr, Bool-cases,
  if◌then◌else◌,
}
use mathlib.Core.List.{append-nil, append_assoc}
use gamma_scope.Prelude.Dict.{get, get-put}
use gamma_scope.Replay.Reader.Reports.{Report}
use gamma_scope.Replay.Reader.Limiter.{
  LimitedError, Limiter, next_error, added, add, add_all, max_error_example_rows,
}

-- The entry of a key that has reports: the first one's message, the number, the first five rows.
abbrev pub limited : Report → List Report → LimitedError
limited r rs = record {
  count = suc (length rs);
  rows = take max_error_example_rows (map (λ x. x.row_index) (r ∷ rs));
  single_message = r.single_message;
  summary_head = r.summary_head;
}

abbrev pub entry_of : List Report → Option LimitedError
entry_of [] = none
entry_of (r ∷ rs) = some (limited r rs)

abbrev pub with_key : String → List Report → List Report
with_key k rs = keep (λ r. r.key == k) rs

take_nil : (n : ℕ) → ◌≡◌ {A = List ℕ} (take n []) []
take_nil zero = refl
take_nil (suc n) = refl

take-append_one :
    (n x : ℕ) (xs : List ℕ)
    → (if ltb (length (take n xs)) n then take n xs ++ x ∷ [] else take n xs)
      ≡ take n (xs ++ x ∷ [])
take-append_one zero x xs = refl
take-append_one (suc n) x [] = ground (arith, take_nil n)
take-append_one (suc n) x (y ∷ xs) = ground (arith, take-append_one n x xs)

map-append_one :
    (rs : List Report) (r : Report)
    → map (λ x. x.row_index) (rs ++ r ∷ []) ≡ map (λ x. x.row_index) rs ++ r.row_index ∷ []
map-append_one [] r = refl
map-append_one (x ∷ rs) r = ap (◌∷◌ x.row_index) (map-append_one rs r)

length-append_one : (rs : List Report) (r : Report) → length (rs ++ r ∷ []) ≡ suc (length rs)
length-append_one [] r = refl
length-append_one (x ∷ rs) r = ap suc (length-append_one rs r)

added-entry_of :
    (r : Report) (rs : List Report) → some (added r (entry_of rs)) ≡ entry_of (rs ++ r ∷ [])
added-entry_of r [] = refl
added-entry_of r (x ∷ rs) =
    let counts : suc (length rs) + 1 ≡ suc (length (rs ++ r ∷ [])) =
      omega (arith, length-append_one rs r) in
    let rows : (next_error r (limited x rs)).rows ≡ (limited x (rs ++ r ∷ [])).rows =
      take-append_one max_error_example_rows r.row_index (map (λ y. y.row_index) (x ∷ rs))
      ∙ ap (take max_error_example_rows) (sym (map-append_one (x ∷ rs) r)) in
    λ i. some (record {
      count = counts i;
      rows = rows i;
      single_message = x.single_message;
      summary_head = x.summary_head;
    })

with_key-append_in :
    (rs : List Report) (r : Report) (k : String)
    → (r.key == k) ≡ true
    → with_key k (rs ++ r ∷ []) ≡ with_key k rs ++ r ∷ []
with_key-append_in [] r k h = rw h refl
with_key-append_in (x ∷ rs) r k h = ground (arith, with_key-append_in rs r k h)

with_key-append_out :
    (rs : List Report) (r : Report) (k : String)
    → (r.key == k) ≡ false
    → with_key k (rs ++ r ∷ []) ≡ with_key k rs
with_key-append_out [] r k h = rw h refl
with_key-append_out (x ∷ rs) r k h = ground (arith, with_key-append_out rs r k h)

-- One more report changes the entry of its key only.
add-entry_of :
    (r : Report) (rs : List Report) (l : Limiter) (k : String)
    → ((j : String) → get j l ≡ entry_of (with_key j rs))
    → get k (add r l) ≡ entry_of (with_key k (rs ++ r ∷ []))
unfolding add
add-entry_of r rs l k h = elim (Bool-cases (r.key == k)) [
  | inl same ↦
      let e = (string_eq.test_iff r.key k).0 same in
      get-put r.key k (added r (get r.key l)) l
      ∙ rw same (
          ap (λ o. some (added r o)) (h r.key ∙ ap (λ j. entry_of (with_key j rs)) e)
          ∙ added-entry_of r (with_key k rs)
          ∙ ap entry_of (sym (with_key-append_in rs r k same)))
  | inr other ↦
      get-put r.key k (added r (get r.key l)) l
      ∙ rw other (h k ∙ ap entry_of (sym (with_key-append_out rs r k other)))
]

add_all-entry_of :
    (rs before : List Report) (l : Limiter) (k : String)
    → ((j : String) → get j l ≡ entry_of (with_key j before))
    → get k (add_all rs l) ≡ entry_of (with_key k (before ++ rs))
unfolding add_all
add_all-entry_of [] before l k h = h k ∙ ap (λ b. entry_of (with_key k b)) (sym (append-nil before))
add_all-entry_of (r ∷ rs) before l k h =
    add_all-entry_of rs (before ++ r ∷ []) (add r l) k (λ j. add-entry_of r before l j h)
    ∙ ap (λ b. entry_of (with_key k b)) (append_assoc before (r ∷ []) rs)

-- After any reports, what the limiter holds of a kind of error is the number of its reports, the
-- rows of the first five, and the message of the first; it holds nothing of a kind without reports.
pub add_all_entries :
    (rs : List Report) (k : String) → get k (add_all rs []) ≡ entry_of (with_key k rs)
unfolding get
add_all_entries rs k = add_all-entry_of rs [] [] k (λ j. refl)
