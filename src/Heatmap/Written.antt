-- ===== src/Heatmap/Written.antt =====
-- A heatmap is written, by heatmap/repository.py, over heatmaps that hang together.
use mathlib.Core.Path.{subst}
use mathlib.Core.List.{append-nil}
use gamma_scope.Prelude.{
  ℕ, suc, ◌<◌, string_eq, nat_eq, nat_beq_iff, ◌≡◌, ◌≢◌, refl, sym, ap, ◌∙◌, false, some, List, [],
  ◌++◌, ◌==◌, inl, inr, ◌⊎◌, arith, Bool-cases,
}
use gamma_scope.Prelude.Dict.{get, put, get-put, get-put_self}
use gamma_scope.Replay.Effects.{ok, Platform}
use gamma_scope.Replay.Reader.Values.{Library}
use gamma_scope.Heatmap.Moments.{Moment, instant_key_eq}
use gamma_scope.Heatmap.Payload.{rows_of, Cell}
use gamma_scope.Heatmap.Snapshots.{HeatmapSnapshot, Bucket, HeatmapTables, id_of, cells_of}
use gamma_scope.Heatmap.Linked.{
  IsLinked, cells_with, without, bucket_key, keep-append, with-without, other-without,
  with-cells_of, written_id, written_below, stored_cases, some_eq,
}

abbrev pub bucket_row : HeatmapSnapshot → Bucket
bucket_row s = record {
  heatmap_snapshot_id = s.heatmap_snapshot_id;
  payload = s.payload;
  row_count = s.row_count;
}

apart_ids : (id other : ℕ) → other ≢ id → (id == other) ≡ false
apart_ids id other differs = elim (Bool-cases (id == other)) [
  | inl e ↦ absurd (differs (sym ((nat_beq_iff id other).0 e)))
  | inr e ↦ e
]

-- A snapshot of another bucket has another key.
apart_keys :
    (key j k : Moment ℕ) → (bucket_key key == k) ≡ false → bucket_key j ≡ k → (key == j) ≡ false
apart_keys key j k other at_k = elim (Bool-cases (key == j)) [
  | inl e ↦
      let same : bucket_key key ≡ k = ap bucket_key ((instant_key_eq.test_iff key j).0 e) ∙ at_k in
      absurd (let both = (instant_key_eq.test_iff (bucket_key key) k).1 same in cc)
  | inr e ↦ e
]

module _ (p : Platform) (lib : Library) (next : ℕ) (t : HeatmapTables) (h : IsLinked p lib next t)
    (key : Moment ℕ) (s : HeatmapSnapshot)
    (its : s.heatmap_snapshot_id ≡ id_of next (get key t.snapshots)) (made : List Cell)
    (made_of : cells_of p lib s.heatmap_snapshot_id (rows_of s.payload) ≡ ok made) where
  abbrev written : HeatmapTables
  written = record {
    snapshots = put key s t.snapshots;
    cells = without s.heatmap_snapshot_id t.cells ++ made;
    buckets = put (bucket_key key) (bucket_row s) t.buckets;
  }

  written-own :
      (j k : Moment ℕ) (r r' : HeatmapSnapshot)
      → ((key ≡ j) × (s ≡ r)) ⊎ ((key ≢ j) × (get j t.snapshots ≡ some r))
      → ((key ≡ k) × (s ≡ r')) ⊎ ((key ≢ k) × (get k t.snapshots ≡ some r'))
      → r.heatmap_snapshot_id ≡ r'.heatmap_snapshot_id
      → j ≡ k
  written-own j k r r' (inl (at_j, e)) (inl (at_k, e')) same = sym at_j ∙ at_k
  written-own j k r r' (inl (at_j, e)) (inr (other, found)) same = absurd (
      other (
        sym (
          written_id p lib next t h key s its k r' found
            (sym same ∙ ap (λ x. x.heatmap_snapshot_id) (sym e)))))
  written-own j k r r' (inr (other, found)) (inl (at_k, e')) same = absurd (
      other (
        sym (
          written_id p lib next t h key s its j r found
            (same ∙ ap (λ x. x.heatmap_snapshot_id) (sym e')))))
  written-own j k r r' (inr (_, found)) (inr (_, found')) same = h.own j k r r' found found' same

  own_cells :
      cells_with s.heatmap_snapshot_id (without s.heatmap_snapshot_id t.cells ++ made) ≡ made
  own_cells =
      let id = s.heatmap_snapshot_id in
      keep-append (λ c. c.heatmap_snapshot_id == id) (without id t.cells) made
      ∙ ap (λ xs. xs ++ cells_with id made) (with-without id t.cells)
      ∙ with-cells_of p lib id id (rows_of s.payload) made made_of
      ∙ rw ((nat_beq_iff id id).1 refl) refl

  none_of_made : (other : ℕ) → other ≢ s.heatmap_snapshot_id → cells_with other made ≡ []
  none_of_made other differs =
      with-cells_of p lib s.heatmap_snapshot_id other (rows_of s.payload) made made_of
      ∙ rw (apart_ids s.heatmap_snapshot_id other differs) refl

  other_cells :
      (other : ℕ)
      → other ≢ s.heatmap_snapshot_id
      → cells_with other (without s.heatmap_snapshot_id t.cells ++ made) ≡ cells_with other t.cells
  other_cells other differs =
      let id = s.heatmap_snapshot_id in
      keep-append (λ c. c.heatmap_snapshot_id == other) (without id t.cells) made
      ∙ ap (λ xs. cells_with other (without id t.cells) ++ xs) (none_of_made other differs)
      ∙ append-nil (cells_with other (without id t.cells))
      ∙ other-without id other t.cells differs

  written-cells :
      (k : Moment ℕ) (r : HeatmapSnapshot)
      → ((key ≡ k) × (s ≡ r)) ⊎ ((key ≢ k) × (get k t.snapshots ≡ some r))
      → cells_of p lib r.heatmap_snapshot_id (rows_of r.payload)
        ≡ ok (cells_with r.heatmap_snapshot_id (without s.heatmap_snapshot_id t.cells ++ made))
  written-cells k r (inl (_, e)) =
      subst
        (λ x.
          cells_of p lib x.heatmap_snapshot_id (rows_of x.payload)
          ≡ ok (cells_with x.heatmap_snapshot_id (without s.heatmap_snapshot_id t.cells ++ made)))
        e (made_of ∙ ap ok (sym own_cells))
  written-cells k r (inr (other, found)) =
      h.cells k r found
      ∙ ap ok (
          sym (
            other_cells r.heatmap_snapshot_id
              (λ same. other (sym (written_id p lib next t h key s its k r found same)))))

  written-buckets :
      (k : Moment ℕ) (b : Bucket)
      → get k (put (bucket_key key) (bucket_row s) t.buckets) ≡ some b
      → (j : Moment ℕ) × (r : HeatmapSnapshot) × (bucket_key j ≡ k)
        × (get j (put key s t.snapshots) ≡ some r)
        × (b ≡ bucket_row r)
  written-buckets k b found = elim (Bool-cases (bucket_key key == k)) [
    | inl e ↦ (
      key,
      s,
      (instant_key_eq.test_iff (bucket_key key) k).0 e,
      get-put_self key s t.snapshots,
      sym (
          some_eq _ b
            (sym (get-put (bucket_key key) k (bucket_row s) t.buckets ∙ rw e refl) ∙ found)),
    )
    | inr e ↦
        let (j, r, at_k, at_j, same) =
          h.buckets k b
            (sym (get-put (bucket_key key) k (bucket_row s) t.buckets ∙ rw e refl) ∙ found) in
        let apart : (key == j) ≡ false = apart_keys key j k e at_k in
        (j, r, at_k, get-put key j s t.snapshots ∙ rw apart at_j, same)
  ]

  pub written-IsLinked : IsLinked p lib (suc next) written
  written-IsLinked = record {
    given = λ k r found. elim (stored_cases p lib next t h key s its k r found) [
      | inl (_, e) ↦
          subst (λ x. x.heatmap_snapshot_id < suc next) e (written_below p lib next t h key s its)
      | inr (_, there) ↦ omega (arith, h.given k r there)
    ];
    own = λ j k r r' found found' same.
        written-own j k r r' (stored_cases p lib next t h key s its j r found)
          (stored_cases p lib next t h key s its k r' found') same;
    cells = λ k r found. written-cells k r (stored_cases p lib next t h key s its k r found);
    buckets = written-buckets;
  }
