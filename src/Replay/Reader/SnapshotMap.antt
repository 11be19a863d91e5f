-- ===== src/Replay/Reader/SnapshotMap.antt =====
-- `snapshot_id_map` of replay/parquet_reader.py, and the sets of ids.
use gamma_scope.Prelude.{
  String, string_eq, ◌≡◌, refl, sym, ap, ◌∙◌, true, not, ◌||◌, Option, none, some, List, [], ◌∷◌,
  ◌++◌, ◌==◌, map, keep, inl, inr, arith, Bool-cases,
}
use gamma_scope.Prelude.Dict.{Dict, get, put, get-put}
use gamma_scope.Replay.Tables.{SnapshotRecord}
use gamma_scope.Replay.Reader.Scan.{is_element, add_element}
use gamma_scope.Replay.Reader.Read.{snapshot_map, gathered}

abbrev pub IsPresent {ℓ} : {V : Type ℓ} → String → Dict String V → Type ℓ
IsPresent {V} id m = (v : V) × (get id m ≡ some v)

put-IsPresent {ℓ} :
    {V : Type ℓ} (k id : String) (v : V) (m : Dict String V)
    → IsPresent id m
    → IsPresent id (put k v m)
put-IsPresent k id v m (w, h) = elim (Bool-cases (k == id)) [
  | inl e ↦ (v, get-put k id v m ∙ rw e refl)
  | inr e ↦ (w, get-put k id v m ∙ rw e h)
]

snapshot_map-IsPresent :
    (snapshots : List SnapshotRecord) (id : String) (m : Dict String SnapshotRecord)
    → IsPresent id m
    → IsPresent id (snapshot_map snapshots m)
unfolding snapshot_map
snapshot_map-IsPresent [] id m h = h
snapshot_map-IsPresent (s ∷ snapshots) id m h =
    snapshot_map-IsPresent snapshots id (put s.source_snapshot_id s m)
      (put-IsPresent s.source_snapshot_id id s m h)

-- The map has the id of every snapshot.
pub snapshot_map-has_ids :
    (snapshots : List SnapshotRecord) (id : String) (m : Dict String SnapshotRecord)
    → is_element id (map (λ s. s.source_snapshot_id) snapshots) ≡ true
    → IsPresent id (snapshot_map snapshots m)
unfolding snapshot_map is_element
snapshot_map-has_ids [] id m h = absurd (cc)
snapshot_map-has_ids (s ∷ snapshots) id m h = elim (Bool-cases (s.source_snapshot_id == id)) [
  | inl e ↦
      snapshot_map-IsPresent snapshots id (put s.source_snapshot_id s m)
        (s, get-put s.source_snapshot_id id s m ∙ rw e refl)
  | inr e ↦ snapshot_map-has_ids snapshots id (put s.source_snapshot_id s m) (rw e at h)
]

-- The ids that are in no list of the rest are none: each is in the list.
pub element_of_kept :
    (ids xs : List String) (x : String)
    → keep (λ y. not (is_element y ids)) xs ≡ []
    → is_element x xs ≡ true
    → is_element x ids ≡ true
unfolding is_element
element_of_kept ids [] x h k = absurd (cc)
element_of_kept ids (y ∷ xs) x h k = elim (Bool-cases (is_element y ids)) [
  | inl e ↦ elim (Bool-cases (y == x)) [
    | inl same ↦ ap (λ z. is_element z ids) (sym ((string_eq.test_iff y x).0 same)) ∙ e
    | inr other ↦ element_of_kept ids xs x (rw e at h) (rw other at k)
  ]
  | inr e ↦ absurd (let h' = rw e at h in cc)
]

element-append_one :
    (x y : String) (xs : List String) → is_element x (xs ++ y ∷ []) ≡ (is_element x xs || y == x)
unfolding is_element
element-append_one x y [] = ground arith
element-append_one x y (z ∷ xs) = ground (arith, element-append_one x y xs)

pub element-add_self : (x : String) (xs : List String) → is_element x (add_element x xs) ≡ true
unfolding add_element
element-add_self x xs = elim (Bool-cases (is_element x xs)) [
  | inl e ↦ rw e e
  | inr e ↦ rw e (ground (arith, element-append_one x x xs, (string_eq.test_iff x x).1 refl))
]

pub element-gathered :
    (o : Option String) (x : String) (xs : List String)
    → is_element x xs ≡ true
    → is_element x (gathered o xs) ≡ true
unfolding add_element
element-gathered none x xs h = h
element-gathered (some y) x xs h = elim (Bool-cases (is_element y xs)) [
  | inl e ↦ rw e h
  | inr e ↦ rw e (ground (arith, element-append_one x y xs))
]
