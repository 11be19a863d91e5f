-- ===== src/Heatmap/Linked.antt =====
-- How the stored heatmaps of heatmap/repository.py hang together.
use mathlib.Core.Path.{subst}
use gamma_scope.Prelude.{
  ℕ, suc, ◌<◌, string_eq, nat_eq, ◌≡◌, ◌≢◌, refl, sym, ap, ◌∙◌, Bool, not, some, List, [], ◌∷◌,
  ◌++◌, ◌==◌, keep, inl, inr, ◌⊎◌, arith, Bool-cases, Option-cases, if◌then◌else◌,
}
use gamma_scope.Prelude.Dict.{get, put, get-put}
use gamma_scope.Replay.Effects.{ok, Platform}
use gamma_scope.Replay.Publish.Rows.{and_then-eq-ok}
use gamma_scope.Replay.Reader.Values.{Library}
use gamma_scope.Heatmap.Steps.{Always, Always-bind, ok_eq}
use gamma_scope.Heatmap.Moments.{Moment, instant_key_eq}
use gamma_scope.Heatmap.Payload.{
  HeatmapRow, rows_of, Cell, cell_record, row_strike, row_float, bucket_of,
}
use gamma_scope.Heatmap.Snapshots.{HeatmapSnapshot, Bucket, HeatmapTables, id_of, cells_of}

-- The cells of a snapshot.
abbrev pub cells_with : ℕ → List Cell → List Cell
cells_with id cells = keep (λ c. c.heatmap_snapshot_id == id) cells

abbrev pub without : ℕ → List Cell → List Cell
without id cells = keep (λ c. not (c.heatmap_snapshot_id == id)) cells

-- The bucket that a snapshot is written to.
abbrev pub bucket_key : Moment ℕ → Moment ℕ
bucket_key k = record k { time = bucket_of k.time }

pub some_eq {ℓ} : {A : Type ℓ} (a b : A) → some a ≡ some b → a ≡ b
some_eq a b h = cc

pub keep-append : (q : Cell → Bool) (xs ys : List Cell) → keep q (xs ++ ys) ≡ keep q xs ++ keep q ys
keep-append q [] ys = refl
keep-append q (x ∷ xs) ys = elim (Bool-cases (q x)) [
  | inl e ↦ rw e (ap (◌∷◌ x) (keep-append q xs ys))
  | inr e ↦ rw e (keep-append q xs ys)
]

-- After the old cells of a snapshot are gone, none of them is left.
pub with-without : (id : ℕ) (cells : List Cell) → cells_with id (without id cells) ≡ []
with-without id [] = refl
with-without id (c ∷ cells) = elim (Bool-cases (c.heatmap_snapshot_id == id)) [
  | inl e ↦ rw e (with-without id cells)
  | inr e ↦ rw (e, e) (with-without id cells)
]

-- The cells of the others are all there.
pub other-without :
    (id other : ℕ) (cells : List Cell)
    → other ≢ id
    → cells_with other (without id cells) ≡ cells_with other cells
other-without id other [] h = refl
other-without id other (c ∷ cells) h = ground (arith, other-without id other cells h)

module _ (p : Platform) (lib : Library) where
  cell_record-id :
      (id : ℕ) (row : HeatmapRow)
      → Always (λ c. c.heatmap_snapshot_id ≡ id) (cell_record p lib id row)
  unfolding cell_record
  cell_record-id id row =
      let P : Cell → Type 0 = λ c. c.heatmap_snapshot_id ≡ id in
      Always-bind P (row_strike p lib row) _ λ _.
        Always-bind P (row_float p lib ("gex" ∷ []) row) _ λ _.
          Always-bind P (row_float p lib ("vex" ∷ []) row) _ λ _.
            Always-bind P (row_float p lib ("call_gex" ∷ "callGex" ∷ []) row) _ λ _.
              Always-bind P (row_float p lib ("put_gex" ∷ "putGex" ∷ []) row) _ λ _.
                Always-bind P (row_float p lib ("call_vex" ∷ "callVex" ∷ []) row) _ λ _.
                  Always-bind P (row_float p lib ("put_vex" ∷ "putVex" ∷ []) row) _ λ _.
                    Always-bind P (row_float p lib ("color_norm_gex" ∷ "colorNormGex" ∷ []) row) _
                      λ _.
                        Always-bind P (row_float p lib ("color_norm_vex" ∷ "colorNormVex" ∷ []) row)
                          _ λ _. λ c h. subst P (ok_eq _ c h) refl

  with-cons :
      (id other : ℕ) (c : Cell) (rest : List Cell)
      → c.heatmap_snapshot_id ≡ id
      → cells_with other rest ≡ (if id == other then rest else [])
      → cells_with other (c ∷ rest) ≡ (if id == other then c ∷ rest else [])
  with-cons id other c rest its below =
      subst
        (λ x.
          (if x == other then c ∷ cells_with other rest else cells_with other rest)
          ≡ (if id == other then c ∷ rest else []))
        (sym its)
        (elim (Bool-cases (id == other)) [
          | inl e ↦ rw e (ap (◌∷◌ c) (below ∙ rw e refl))
          | inr e ↦ rw e (below ∙ rw e refl)
        ])

  -- New cells are the snapshot's, and nobody else's.
  pub with-cells_of :
      (id other : ℕ) (rows : List HeatmapRow) (cells : List Cell)
      → cells_of p lib id rows ≡ ok cells
      → cells_with other cells ≡ (if id == other then cells else [])
  unfolding cells_of
  with-cells_of id other [] cells h =
      let none_made : [] ≡ cells = ok_eq _ _ h in ground (arith, none_made)
  with-cells_of id other (row ∷ rows) cells h =
      let (c, one, h1) = and_then-eq-ok (cell_record p lib id row) _ h in
      let (rest, more, h2) = and_then-eq-ok (cells_of p lib id rows) _ h1 in
      let its : c.heatmap_snapshot_id ≡ id = cell_record-id id row c one in
      let all : c ∷ rest ≡ cells = ok_eq _ _ h2 in
      let below = with-cells_of id other rows rest more in
      subst (λ x. cells_with other x ≡ (if id == other then x else [])) all
        (with-cons id other c rest its below)

-- What holds of the stored heatmaps; `next` bounds the ids that were given.
pub record IsLinked (p : Platform) (lib : Library) (next : ℕ) (t : HeatmapTables) : Type 0 where
  -- an id is one that was given, to one snapshot
  pub given :
      (k : Moment ℕ) (s : HeatmapSnapshot)
      → get k t.snapshots ≡ some s
      → s.heatmap_snapshot_id < next
  pub own :
      (j k : Moment ℕ) (r s : HeatmapSnapshot)
      → get j t.snapshots ≡ some r
      → get k t.snapshots ≡ some s
      → r.heatmap_snapshot_id ≡ s.heatmap_snapshot_id
      → j ≡ k
  -- the cells of a snapshot are those of its payload
  pub cells :
      (k : Moment ℕ) (s : HeatmapSnapshot)
      → get k t.snapshots ≡ some s
      → cells_of p lib s.heatmap_snapshot_id (rows_of s.payload)
        ≡ ok (cells_with s.heatmap_snapshot_id t.cells)
  -- a bucket holds a snapshot of its five minutes
  pub buckets :
      (k : Moment ℕ) (b : Bucket)
      → get k t.buckets ≡ some b
      → (j : Moment ℕ) × (s : HeatmapSnapshot) × (bucket_key j ≡ k)
        × (get j t.snapshots ≡ some s)
        × (b ≡ record {
          heatmap_snapshot_id = s.heatmap_snapshot_id;
          payload = s.payload;
          row_count = s.row_count;
        })

module _ (p : Platform) (lib : Library) (next : ℕ) (t : HeatmapTables) (h : IsLinked p lib next t)
    (key : Moment ℕ) (s : HeatmapSnapshot)
    (its : s.heatmap_snapshot_id ≡ id_of next (get key t.snapshots)) where
  -- The id that is written is not another snapshot's.
  pub written_id :
      (k : Moment ℕ) (r : HeatmapSnapshot)
      → get k t.snapshots ≡ some r
      → r.heatmap_snapshot_id ≡ s.heatmap_snapshot_id
      → k ≡ key
  written_id k r found same = elim (Option-cases (get key t.snapshots)) [
    | inl fresh ↦
        let new : s.heatmap_snapshot_id ≡ next = its ∙ ap (id_of next) fresh in
        absurd (omega (arith, h.given k r found, same, new))
    | inr (old, at_key) ↦ h.own k key r old found at_key (same ∙ its ∙ ap (id_of next) at_key)
  ]

  pub written_below : s.heatmap_snapshot_id < suc next
  written_below = elim (Option-cases (get key t.snapshots)) [
    | inl fresh ↦
        let new : s.heatmap_snapshot_id ≡ next = its ∙ ap (id_of next) fresh in omega (arith, new)
    | inr (old, at_key) ↦
        let kept : s.heatmap_snapshot_id ≡ old.heatmap_snapshot_id = its ∙ ap (id_of next) at_key in
        omega (arith, kept, h.given key old at_key)
  ]

  -- A snapshot after the write is the one written, or one that was there under another key.
  pub stored_cases :
      (k : Moment ℕ) (r : HeatmapSnapshot)
      → get k (put key s t.snapshots) ≡ some r
      → ((key ≡ k) × (s ≡ r)) ⊎ ((key ≢ k) × (get k t.snapshots ≡ some r))
  stored_cases k r found = elim (Bool-cases (key == k)) [
    | inl e ↦ inl (
      (instant_key_eq.test_iff key k).0 e,
      some_eq s r (sym (get-put key k s t.snapshots ∙ rw e refl) ∙ found),
    )
    | inr e ↦ inr (
      (λ same. let t' = (instant_key_eq.test_iff key k).1 same in absurd (cc)),
      sym (get-put key k s t.snapshots ∙ rw e refl) ∙ found,
    )
  ]
