-- ===== src/Relay/Drops/Merge.antt =====
-- internal/relay/drop_reporter.go, mergeSpans and add: a span among the spans that are handled.
use qumo.Common.{
  ℕ, suc, ◌+◌, ◌≤◌, ◌≡◌, refl, ◌||◌, List, [], ◌∷◌, leb, arith, length, All, inl, inr, Bool-cases,
  max, ◌∙◌, ap,
}
use qumo.Relay.Drops.{GroupSpan, inc64, insert_span, sort_spans, join_spans}
use qumo.Relay.Drops.Spans.{within, covers, IsSpan, Apart, Apart-low, inc64_small}

-- In order of their starts.
abbrev pub Ascends : ℕ → List GroupSpan → Type 0
Ascends low [] = Unit
Ascends low (s ∷ ss) = (low ≤ s.start) × Ascends s.start ss

Ascends-low : (a b : ℕ) (ss : List GroupSpan) → a ≤ b → Ascends b ss → Ascends a ss
Ascends-low a b [] le h = tt
Ascends-low a b (s ∷ ss) le (h, hs) = (omega arith, hs)

pub Apart-All : (low : ℕ) (ss : List GroupSpan) → Apart low ss → All IsSpan ss
Apart-All low [] h = tt
Apart-All low (s ∷ ss) (a, b, c) = (b, Apart-All (s.end + 2) ss c)

insert_span-covers :
    (g : ℕ) (s : GroupSpan) (ss : List GroupSpan)
    → covers g (insert_span s ss) ≡ within g s || covers g ss
unfolding insert_span
insert_span-covers g s [] = refl
insert_span-covers g s (t ∷ ts) = ground (arith, insert_span-covers g s ts)

insert_span-All :
    (s : GroupSpan) (ss : List GroupSpan) → IsSpan s → All IsSpan ss → All IsSpan (insert_span s ss)
unfolding insert_span
insert_span-All s [] h k = (h, tt)
insert_span-All s (t ∷ ts) h (k, ks) = ground (arith, insert_span-All s ts h ks)

insert_span-Ascends :
    (low : ℕ) (s : GroupSpan) (ss : List GroupSpan)
    → low ≤ s.start
    → Ascends low ss
    → Ascends low (insert_span s ss)
unfolding insert_span
insert_span-Ascends low s [] le h = (le, tt)
insert_span-Ascends low s (t ∷ ts) le (h, hs) = elim (Bool-cases (leb s.start t.start)) [
  | inl e ↦ rw e (le, (ground arith, hs))
  | inr e ↦ rw e (h, insert_span-Ascends t.start s ts (ground arith) hs)
]

pub sort_spans-covers : (g : ℕ) (ss : List GroupSpan) → covers g (sort_spans ss) ≡ covers g ss
unfolding sort_spans
sort_spans-covers g [] = refl
sort_spans-covers g (s ∷ ss) =
    insert_span-covers g s (sort_spans ss) ∙ ap (λ b. within g s || b) (sort_spans-covers g ss)

pub sort_spans-Ascends :
    (ss : List GroupSpan) → All IsSpan ss → Ascends 0 (sort_spans ss) × All IsSpan (sort_spans ss)
unfolding sort_spans
sort_spans-Ascends [] h = (tt, tt)
sort_spans-Ascends (s ∷ ss) (h, hs) =
    let (a, b) = sort_spans-Ascends ss hs in
    (insert_span-Ascends 0 s (sort_spans ss) (omega arith) a, insert_span-All s (sort_spans ss) h b)

pub join_spans-Apart :
    (low : ℕ) (out : GroupSpan) (ss : List GroupSpan)
    → low ≤ out.start
    → IsSpan out
    → Ascends out.start ss
    → All IsSpan ss
    → Apart low (join_spans out ss)
unfolding join_spans
join_spans-Apart low out [] le ok h k = (le, ok, tt)
join_spans-Apart low out (s ∷ ss) le ok (h, hs) (k, ks) =
    let next = inc64_small out.end ok.1 in
    let joined =
      join_spans-Apart low (record out { end = max out.end s.end }) ss le (omega arith, omega arith)
        (Ascends-low out.start s.start ss h hs) ks in
    let apart = join_spans-Apart s.start s ss (omega arith) k hs ks in
    elim (Bool-cases (leb s.start (inc64 out.end))) [
      | inl e ↦ rw e joined
      | inr e ↦
          rw e (le, ok, Apart-low (out.end + 2) s.start (join_spans s ss) (ground arith) apart)
    ]

-- Joining spans in order loses no group and adds none.
pub join_spans-covers :
    (g : ℕ) (out : GroupSpan) (ss : List GroupSpan)
    → IsSpan out
    → Ascends out.start ss
    → All IsSpan ss
    → covers g (join_spans out ss) ≡ within g out || covers g ss
unfolding join_spans
join_spans-covers g out [] ok h k = refl
join_spans-covers g out (s ∷ ss) ok (h, hs) (k, ks) =
    let next = inc64_small out.end ok.1 in
    let joined =
      join_spans-covers g (record out { end = max out.end s.end }) ss (omega arith, omega arith)
        (Ascends-low out.start s.start ss h hs) ks in
    let apart = join_spans-covers g s ss k hs ks in
    elim (Bool-cases (leb s.start (inc64 out.end))) [
      | inl e ↦ rw e (ground (arith, joined))
      | inr e ↦ rw e (ground (arith, apart))
    ]

length-insert_span :
    (s : GroupSpan) (ss : List GroupSpan) → length (insert_span s ss) ≡ suc (length ss)
unfolding insert_span
length-insert_span s [] = refl
length-insert_span s (t ∷ ts) = ground (arith, length-insert_span s ts)

pub length-sort_spans : (ss : List GroupSpan) → length (sort_spans ss) ≡ length ss
unfolding sort_spans
length-sort_spans [] = refl
length-sort_spans (s ∷ ss) = length-insert_span s (sort_spans ss) ∙ ap suc (length-sort_spans ss)

pub length-join_spans :
    (out : GroupSpan) (ss : List GroupSpan) → length (join_spans out ss) ≤ suc (length ss)
unfolding join_spans
length-join_spans out [] = omega arith
length-join_spans out (s ∷ ss) =
    ground
      (arith, length-join_spans (record out { end = max out.end s.end }) ss, length-join_spans s ss)
