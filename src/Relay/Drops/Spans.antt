-- ===== src/Relay/Drops/Spans.antt =====
-- internal/relay/drop_reporter.go: lists of spans in order, with a gap between each two, and the
-- groups that they cover.
use qumo.Common.{
  ℕ, ◌+◌, ◌^◌, ◌≤◌, ◌<◌, ◌≡◌, refl, Bool, false, ◌&&◌, ◌||◌, some, List, [], ◌∷◌, ◌++◌, leb, arith,
}
use qumo.Relay.Drops.{GroupSpan, inc64, newest, extend_newest, spans_hold}

abbrev pub within : ℕ → GroupSpan → Bool
within g s = leb s.start g && leb g s.end

abbrev pub covers : ℕ → List GroupSpan → Bool
covers g [] = false
covers g (s ∷ ss) = within g s || covers g ss

abbrev pub limit : ℕ
limit = 2 ^ 64

-- A span of groups, the last of which has a next one.
abbrev pub IsSpan : GroupSpan → Type 0
IsSpan s = (s.start ≤ s.end) × (s.end + 1 < limit)

-- Spans from `low` on, each after the last with a gap.
abbrev pub Apart : ℕ → List GroupSpan → Type 0
Apart low [] = Unit
Apart low (s ∷ ss) = (low ≤ s.start) × IsSpan s × Apart (s.end + 2) ss

pub inc64_small : (n : ℕ) → n + 1 < limit → inc64 n ≡ n + 1
inc64_small n h = omega arith

pub Apart-low : (low high : ℕ) (ss : List GroupSpan) → low ≤ high → Apart high ss → Apart low ss
Apart-low low high [] le h = tt
Apart-low low high (s ∷ ss) le (a, b, c) = (omega arith, b, c)

pub covers_below : (g low : ℕ) (ss : List GroupSpan) → Apart low ss → g < low → covers g ss ≡ false
covers_below g low [] h lt = refl
covers_below g low (s ∷ ss) (a, (b, c), d) lt =
    let rest = covers_below g (s.end + 2) ss d (omega arith) in ground arith

pub covers-append :
    (g : ℕ) (ss ts : List GroupSpan) → covers g (ss ++ ts) ≡ covers g ss || covers g ts
covers-append g [] ts = refl
covers-append g (s ∷ ss) ts = ground (arith, covers-append g ss ts)

-- The binary search finds what the spans cover.
pub spans_hold-covers :
    (g low : ℕ) (ss : List GroupSpan) → Apart low ss → spans_hold g ss ≡ covers g ss
unfolding spans_hold
spans_hold-covers g low [] h = refl
spans_hold-covers g low (s ∷ ss) (a, (b, c), d) =
    ground (arith, spans_hold-covers g (s.end + 2) ss d, covers_below g (s.end + 2) ss d)

pub Apart-append :
    (low : ℕ) (ss : List GroupSpan) (s span : GroupSpan)
    → Apart low ss
    → newest ss ≡ some s
    → s.end + 1 < span.start
    → IsSpan span
    → Apart low (ss ++ span ∷ [])
unfolding newest
Apart-append low [] s span h e lt ok = cc
Apart-append low (t ∷ []) s span (a, b, c) e lt ok = ground arith
Apart-append low (t ∷ u ∷ ss) s span (a, b, c) e lt ok =
    (a, b, Apart-append (t.end + 2) (u ∷ ss) s span c e lt ok)

pub Apart-extend_newest :
    (low : ℕ) (ss : List GroupSpan) (s span : GroupSpan)
    → Apart low ss
    → newest ss ≡ some s
    → span.start ≤ s.end + 1
    → s.start ≤ span.start
    → IsSpan span
    → Apart low (extend_newest span.end ss)
unfolding newest extend_newest
Apart-extend_newest low [] s span h e lt le ok = tt
Apart-extend_newest low (t ∷ []) s span (a, b, c) e lt le ok = ground arith
Apart-extend_newest low (t ∷ u ∷ ss) s span (a, b, c) e lt le ok =
    (a, b, Apart-extend_newest (t.end + 2) (u ∷ ss) s span c e lt le ok)

pub covers-extend_newest :
    (g low : ℕ) (ss : List GroupSpan) (s span : GroupSpan)
    → Apart low ss
    → newest ss ≡ some s
    → span.start ≤ s.end + 1
    → s.start ≤ span.start
    → IsSpan span
    → covers g (extend_newest span.end ss) ≡ covers g ss || within g span
unfolding newest extend_newest
covers-extend_newest g low [] s span h e lt le ok = cc
covers-extend_newest g low (t ∷ []) s span (a, b, c) e lt le ok = ground arith
covers-extend_newest g low (t ∷ u ∷ ss) s span (a, b, c) e lt le ok =
    ground (arith, covers-extend_newest g (t.end + 2) (u ∷ ss) s span c e lt le ok)
