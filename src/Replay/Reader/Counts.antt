-- ===== src/Replay/Reader/Counts.antt =====
-- The counts of `_scan_quotes` of replay/parquet_reader.py.
use gamma_scope.Prelude.{
  ℕ, suc, ◌+◌, ◌-◌, ◌≤◌, ◌⊖◌, pos, sub_pos, String, string_eq, ◌≡◌, refl, ap, ◌∙◌, Bool, true,
  false, Option, none, some, List, [], ◌∷◌, ◌==◌, inl, inr, arith, Bool-cases, if◌then◌else◌,
}
use gamma_scope.Prelude.Dict.{Dict, get, put, get-put}
use gamma_scope.Replay.Effects.{Error}
use gamma_scope.Replay.Reader.Values.{
  Row, Library, cell, source_id_or_none, Number, finite, non_finite, invalid, is_valid_quote,
  date_string,
}
use gamma_scope.Replay.Reader.Normalize.{QuoteRows, end_of_file, unreadable, row_then}
use gamma_scope.Replay.Reader.Scan.{
  ScanStats, no_stats, or_zero, counted, scan_checks, with_expiry, with_validity, with_strike,
  with_snapshot, raised_by, unless_raised, scan_row, scan_rows, scan_quotes, counts_of,
}

abbrev pub sum_values : Dict String ℕ → ℕ
sum_values [] = 0
sum_values ((k, n) ∷ d) = n + sum_values d

sum_values-counted :
    (id : String) (d : Dict String ℕ) → sum_values (counted id d) ≡ suc (sum_values d)
unfolding get put
sum_values-counted id [] = refl
sum_values-counted id ((k, n) ∷ d) = ground (arith, sum_values-counted id d)

count-counted :
    (id x : String) (d : Dict String ℕ)
    → or_zero (get x (counted id d))
      ≡ (if id == x then or_zero (get x d) + 1 else or_zero (get x d))
count-counted id x d = elim (Bool-cases (id == x)) [
  | inl e ↦
      let same = (string_eq.test_iff id x).0 e in
      ap or_zero (get-put id x _ d) ∙ rw e (ap (λ y. or_zero (get y d) + 1) same)
  | inr e ↦ ap or_zero (get-put id x _ d) ∙ rw e refl
]

-- The counts agree: with the sums over the snapshots, and with the number of rows.
pub record IsCounted (s : ScanStats) : Type 0 where
  pub total : s.valid_quote_count + s.invalid_quote_count ≤ s.quote_count
  pub quotes : sum_values s.quote_counts ≡ s.valid_quote_count + s.invalid_quote_count
  pub valid : sum_values s.valid_quote_counts ≡ s.valid_quote_count
  pub each : (id : String) → (counts_of id s).valid ≤ (counts_of id s).quotes

-- A row's step adds one to the count of rows before it can add one to another.
abbrev HasRoom : ScanStats → Type 0
HasRoom s = s.valid_quote_count + s.invalid_quote_count + 1 ≤ s.quote_count

module _ (lib : Library) where
  with_strike-IsCounted :
      (id : String) (n : Number) (s : ScanStats) → IsCounted s → IsCounted (with_strike lib id n s)
  with_strike-IsCounted id (finite x) s h = record {
    total = h.total;
    quotes = h.quotes;
    valid = h.valid;
    each = h.each;
  }
  with_strike-IsCounted id non_finite s h = h
  with_strike-IsCounted id invalid s h = h

  with_validity-IsCounted :
      (id : String) (b : Bool) (s : ScanStats) (ids : List String)
      → IsCounted s
      → HasRoom s
      → IsCounted (
          with_validity lib id b
            (record s { quote_snapshot_ids = ids; quote_counts = counted id s.quote_counts }))
  with_validity-IsCounted id true s ids h room = record {
    total = omega (arith, room);
    quotes = omega (arith, sum_values-counted id s.quote_counts, h.quotes);
    valid = omega (arith, sum_values-counted id s.valid_quote_counts, h.valid);
    each = λ x. ground (
      arith,
      count-counted id x s.valid_quote_counts,
      count-counted id x s.quote_counts,
      h.each x,
    );
  }
  with_validity-IsCounted id false s ids h room = record {
    total = omega (arith, room);
    quotes = omega (arith, sum_values-counted id s.quote_counts, h.quotes);
    valid = h.valid;
    each = λ x. ground (arith, count-counted id x s.quote_counts, h.each x);
  }

  with_snapshot-IsCounted :
      (row : Row) (o : Option String) (s : ScanStats)
      → IsCounted s
      → HasRoom s
      → IsCounted (with_snapshot lib row o s)
  with_snapshot-IsCounted row none s h room = h
  with_snapshot-IsCounted row (some id) s h room =
      with_strike-IsCounted id _ _ (with_validity-IsCounted id (is_valid_quote lib row) s _ h room)

  with_expiry-IsCounted :
      (o : Option String) (s : ScanStats)
      → IsCounted s × HasRoom s
      → IsCounted (with_expiry lib o s) × HasRoom (with_expiry lib o s)
  with_expiry-IsCounted none s h = h
  with_expiry-IsCounted (some day) s (h, room) =
      (record { total = h.total; quotes = h.quotes; valid = h.valid; each = h.each }, room)

  scan_row-IsCounted : (row : Row) (s : ScanStats) → IsCounted s → IsCounted (scan_row lib row s)
  unfolding scan_row scan_checks
  scan_row-IsCounted row s h =
      let checked : IsCounted (scan_checks lib row s) × HasRoom (scan_checks lib row s) = (
        record {
          total = omega (arith, h.total);
          quotes = h.quotes;
          valid = h.valid;
          each = h.each;
        },
        omega (arith, h.total),
      ) in
      let (h1, room) = with_expiry-IsCounted (date_string lib (cell "expiry" row)) _ checked in
      with_snapshot-IsCounted row (source_id_or_none lib (cell "snapshot_id" row)) _ h1 room

  unless_raised-IsCounted :
      (row : Row) (s : ScanStats) (rest : ScanStats × Option Error) (o : Option Error)
      → IsCounted s
      → IsCounted rest.0
      → IsCounted (unless_raised lib row s rest o).0
  unless_raised-IsCounted row s rest none h k = k
  unless_raised-IsCounted row s rest (some e) h k = record {
    total = omega (arith, h.total);
    quotes = h.quotes;
    valid = h.valid;
    each = h.each;
  }

  scan_rows-IsCounted :
      (rows : QuoteRows) (s : ScanStats) → IsCounted s → IsCounted (scan_rows lib rows s).0
  unfolding scan_rows
  scan_rows-IsCounted end_of_file s h = h
  scan_rows-IsCounted (unreadable e) s h = h
  scan_rows-IsCounted (row_then row rows) s h =
      unless_raised-IsCounted row s (scan_rows lib rows (scan_row lib row s))
        (raised_by lib (cell "market_time" row)) h
        (scan_rows-IsCounted rows (scan_row lib row s) (scan_row-IsCounted row s h))

  no_stats-IsCounted : IsCounted no_stats
  unfolding get
  no_stats-IsCounted = record {
    total = omega arith;
    quotes = refl;
    valid = refl;
    each = λ id. omega arith;
  }

  -- Whatever a file of quotes holds and wherever it cannot be read, the valid and the invalid quotes
  -- that are counted are no more than the rows, the counts of the snapshots sum to them, no snapshot
  -- has more valid quotes than quotes, and so no default of `stale_contract_count` is negative.
  pub scan_quotes-IsCounted :
      (text : Error → String) (rows : QuoteRows)
      → let s = (scan_quotes lib text rows).0 in
        IsCounted s
        × ((id : String)
            → ((counts_of id s).quotes ⊖ (counts_of id s).valid)
              ≡ pos ((counts_of id s).quotes - (counts_of id s).valid))
  unfolding scan_quotes
  scan_quotes-IsCounted text rows =
      let h = scan_rows-IsCounted rows no_stats no_stats-IsCounted in
      (h, λ id. sub_pos _ _ (h.each id))
