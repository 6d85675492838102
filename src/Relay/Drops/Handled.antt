-- ===== src/Relay/Drops/Handled.antt =====
-- internal/relay/drop_reporter.go, add: the groups that are handled, before and after.
use qumo.Common.{
  ℕ, suc, ◌+◌, ◌≤◌, ◌<◌, ◌≡◌, refl, Bool, true, false, ◌||◌, List, [], ◌∷◌, ◌++◌, leb, ltb, arith,
  length, All, inl, inr, Bool-cases, Option-cases, some, none, ◌∙◌, sym, subst, ap, All-append_of,
  length-append,
}
use qumo.Relay.Drops.{
  GroupSpan, max_handled_spans, inc64, newest, extend_newest, sort_spans, join_all, merge_spans,
  put_span, join_oldest, within_cap,
}
use qumo.Relay.Drops.Spans.{
  within, covers, IsSpan, Apart, inc64_small, covers-append, Apart-append, Apart-extend_newest,
  covers-extend_newest,
}
use qumo.Relay.Drops.Merge.{
  Ascends, Apart-All, sort_spans-covers, sort_spans-Ascends, join_spans-Apart, join_spans-covers,
  length-sort_spans, length-join_spans,
}

-- The three of a list of spans.
join_all-three :
    (g : ℕ) (ss : List GroupSpan)
    → Ascends 0 ss
    → All IsSpan ss
    → Apart 0 (join_all ss)
      × (covers g (join_all ss) ≡ covers g ss)
      × (length (join_all ss) ≤ length ss)
unfolding join_all
join_all-three g [] h k = (tt, refl, omega arith)
join_all-three g (s ∷ ss) h k = (
  join_spans-Apart 0 s ss (omega arith) k.0 h.1 k.1,
  join_spans-covers g s ss k.0 h.1 k.1,
  length-join_spans s ss,
)

-- What a list of spans becomes: still apart, with the groups of `span` besides, and hardly longer.
abbrev pub Puts : ℕ → GroupSpan → List GroupSpan → List GroupSpan → Type 0
Puts g span ss ts =
    Apart 0 ts × (covers g ts ≡ covers g ss || within g span) × (length ts ≤ suc (length ss))

or_false : (b : Bool) → (b || false) ≡ b
or_false true = refl
or_false false = refl

covers_last :
    (g : ℕ) (ss : List GroupSpan) (span : GroupSpan)
    → covers g (ss ++ span ∷ []) ≡ covers g ss || within g span
covers_last g ss span =
    covers-append g ss (span ∷ []) ∙ ap (λ b. covers g ss || b) (or_false (within g span))

merge_spans-Puts :
    (g : ℕ) (ss : List GroupSpan) (span : GroupSpan)
    → Apart 0 ss
    → IsSpan span
    → Puts g span ss (merge_spans (ss ++ span ∷ []))
unfolding merge_spans
merge_spans-Puts g ss span h ok =
    let all = All-append_of IsSpan ss (span ∷ []) (Apart-All 0 ss h) (ok, tt) in
    let (asc, spans) = sort_spans-Ascends (ss ++ span ∷ []) all in
    let (a, b, c) = join_all-three g (sort_spans (ss ++ span ∷ [])) asc spans in
    (
      a,
      b ∙ sort_spans-covers g (ss ++ span ∷ []) ∙ covers_last g ss span,
      omega (arith, c, length-sort_spans (ss ++ span ∷ []), length-append ss (span ∷ [])),
    )

append-Puts :
    (g : ℕ) (ss : List GroupSpan) (s span : GroupSpan)
    → Apart 0 ss
    → newest ss ≡ some s
    → s.end + 1 < span.start
    → IsSpan span
    → Puts g span ss (ss ++ span ∷ [])
append-Puts g ss s span h e lt ok = (
  Apart-append 0 ss s span h e lt ok,
  covers_last g ss span,
  omega (arith, length-append ss (span ∷ [])),
)

length-extend_newest : (n : ℕ) (ss : List GroupSpan) → length (extend_newest n ss) ≡ length ss
unfolding extend_newest
length-extend_newest n [] = refl
length-extend_newest n (s ∷ []) = refl
length-extend_newest n (s ∷ t ∷ ss) = ap suc (length-extend_newest n (t ∷ ss))

extend_newest-Puts :
    (g : ℕ) (ss : List GroupSpan) (s span : GroupSpan)
    → Apart 0 ss
    → newest ss ≡ some s
    → span.start ≤ s.end + 1
    → s.start ≤ span.start
    → IsSpan span
    → Puts g span ss (extend_newest span.end ss)
extend_newest-Puts g ss s span h e lt le ok = (
  Apart-extend_newest 0 ss s span h e lt le ok,
  covers-extend_newest g 0 ss s span h e lt le ok,
  omega (arith, length-extend_newest span.end ss),
)

newest_of :
    (low : ℕ) (ss : List GroupSpan) (s : GroupSpan) → Apart low ss → newest ss ≡ some s → IsSpan s
unfolding newest
newest_of low [] s h e = cc
newest_of low (t ∷ []) s (a, b, c) e = ground arith
newest_of low (t ∷ u ∷ ss) s (a, b, c) e = newest_of (t.end + 2) (u ∷ ss) s c e

no_newest : (ss : List GroupSpan) → newest ss ≡ none → ss ≡ []
unfolding newest
no_newest [] e = refl
no_newest (s ∷ []) e = cc
no_newest (s ∷ t ∷ ss) e = ground (arith, no_newest (t ∷ ss))

put_first_span :
    (g : ℕ) (ss : List GroupSpan) (span : GroupSpan)
    → newest ss ≡ none
    → IsSpan span
    → Puts g span ss (ss ++ span ∷ [])
put_first_span g ss span e ok =
    rw (no_newest ss e) ((omega arith, ok, tt), or_false (within g span), omega arith)

-- What put_span makes of spans that are apart.
pub put_span-Puts :
    (g : ℕ) (ss : List GroupSpan) (span : GroupSpan)
    → Apart 0 ss
    → IsSpan span
    → Puts g span ss (put_span span ss)
unfolding put_span
put_span-Puts g ss span h ok = elim (Option-cases (newest ss)) [
  | inl e ↦
      let same : put_span span ss ≡ ss ++ span ∷ [] = ground arith in
      subst (Puts g span ss) (sym same) (put_first_span g ss span e ok)
  | inr (s, e) ↦
      let next = inc64_small s.end (newest_of 0 ss s h e).1 in
      elim (Bool-cases (ltb (inc64 s.end) span.start)) [
        | inl a ↦
            let same : put_span span ss ≡ ss ++ span ∷ [] = ground arith in
            subst (Puts g span ss) (sym same) (append-Puts g ss s span h e (ground arith) ok)
        | inr a ↦ elim (Bool-cases (leb s.start span.start)) [
          | inl b ↦
              let same : put_span span ss ≡ extend_newest span.end ss = ground arith in
              subst (Puts g span ss) (sym same)
                (extend_newest-Puts g ss s span h e (ground arith) (ground arith) ok)
          | inr b ↦
              let same : put_span span ss ≡ merge_spans (ss ++ span ∷ []) = ground arith in
              subst (Puts g span ss) (sym same) (merge_spans-Puts g ss span h ok)
        ]
      ]
]

-- At the cap the two oldest spans are joined.
pub within_cap-Apart : (ss : List GroupSpan) → Apart 0 ss → Apart 0 (within_cap ss)
unfolding within_cap join_oldest
within_cap-Apart [] h = h
within_cap-Apart (s ∷ []) h = h
within_cap-Apart (s ∷ t ∷ ss) h = ground arith

pub within_cap-covers :
    (g : ℕ) (ss : List GroupSpan)
    → Apart 0 ss
    → covers g ss ≡ true
    → covers g (within_cap ss) ≡ true
unfolding within_cap join_oldest
within_cap-covers g [] h e = e
within_cap-covers g (s ∷ []) h e = e
within_cap-covers g (s ∷ t ∷ ss) h e = ground arith

pub length-within_cap :
    (ss : List GroupSpan)
    → length ss ≤ suc max_handled_spans
    → length (within_cap ss) ≤ max_handled_spans
unfolding within_cap join_oldest
length-within_cap [] h = omega arith
length-within_cap (s ∷ []) h = omega arith
length-within_cap (s ∷ t ∷ ss) h = ground arith

pub within_cap-room : (ss : List GroupSpan) → length ss ≤ max_handled_spans → within_cap ss ≡ ss
unfolding within_cap
within_cap-room ss h = ground arith
