-- ===== src/Collector/Freshness.antt =====
-- The choice between the cached state and the one in memory.
use gamma_scope.Prelude.{
  ℕ, ◌≤◌, String, string_eq, ◌≡◌, refl, sym, ◌∙◌, Bool, true, false, Option, some, ltb, nat_beq,
  arith, inl, inr, Bool-cases, if◌then◌else◌,
}
use gamma_scope.Replay.Effects.{ok, Platform}
use gamma_scope.Collector.State.{CollectorState, StateSnapshot, snapshot, from_snapshot}
use gamma_scope.Collector.Cache.{
  later, memory_state_is_fresher, richness, cached_or_memory_collector_state,
}

later-eq :
    (p : Platform) (richer : Bool) (x y : Option String) (m c : String) (a b : ℕ)
    → x ≡ some m
    → y ≡ some c
    → p.parse_datetime m ≡ some a
    → p.parse_datetime c ≡ some b
    → later p richer x y ≡ (if nat_beq a b then richer else ltb b a)
later-eq p richer x y m c a b hm hc ha hb = rw (hm, hc, ha, hb) refl

-- A state that is not fresher is not later, and one that is fresher is not earlier.
later_le : (richer : Bool) (a b : ℕ) → (if nat_beq a b then richer else ltb b a) ≡ false → a ≤ b
later_le richer a b h = ground arith

later_ge : (richer : Bool) (a b : ℕ) → (if nat_beq a b then richer else ltb b a) ≡ true → b ≤ a
later_ge richer a b h = ground arith

-- With the last event of the state in memory at `a` and that of the cached one at `b`, the state
-- that is used had its last event at neither an earlier time than `a` nor one than `b`.
pub cached_or_memory-NotOlder :
    (p : Platform) (uuid : String) (memory : CollectorState) (cached : StateSnapshot) (m c : String)
    (a b : ℕ)
    → memory.last_event_time ≡ some m
    → cached.last_event_time ≡ some c
    → p.parse_datetime m ≡ some a
    → p.parse_datetime c ≡ some b
    → let used = cached_or_memory_collector_state p uuid memory (ok (some cached)) in
      (t : String) × (n : ℕ) × (used.last_event_time ≡ some t)
      × (p.parse_datetime t ≡ some n)
      × (a ≤ n)
      × (b ≤ n)
unfolding cached_or_memory_collector_state memory_state_is_fresher snapshot from_snapshot
cached_or_memory-NotOlder p uuid memory cached m c a b hm hc ha hb =
    let richer = ltb (richness cached) (richness (snapshot memory)) in
    let e = later-eq p richer memory.last_event_time cached.last_event_time m c a b hm hc ha hb in
    elim (Bool-cases (memory_state_is_fresher p (snapshot memory) cached)) [
      | inl fresher ↦ rw fresher (m, a, hm, ha, omega arith, later_ge richer a b (sym e ∙ fresher))
      | inr not_fresher ↦
          rw not_fresher (c, b, hc, hb, later_le richer a b (sym e ∙ not_fresher), omega arith)
    ]
