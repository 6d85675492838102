-- ===== src/Relay/Drops.antt =====
-- internal/relay/drop_reporter.go and internal/relay/drop_distributor.go: which groups a subscriber
-- was sent or told that it will not receive, and the drops from upstream that it is yet to be told.
-- Group sequences and positions are uint64. What the reporter hands to DropGroups is returned.
pub mod Spans
pub mod Merge
pub mod Handled
pub mod Reports
pub mod Tells
pub mod Flushes
pub mod Ledger
pub mod Skips
pub mod Refines
pub mod Since
use qumo.Common.{
  ℕ, zero, suc, ◌+◌, ◌-◌, ◌%◌, ◌^◌, max, Bool, true, false, not, ◌&&◌, ◌||◌, Option, none, some,
  List, [], ◌∷◌, ◌++◌, ltb, leb, ◌==◌, if◌then◌else◌, update, length,
}

abbrev pub max_handled_spans : ℕ
max_handled_spans = 64

abbrev pub drop_ring_size : ℕ
drop_ring_size = 64

-- moqt.SubscribeDrop.
pub record SubscribeDrop : Type 0 where
  pub start_group : ℕ
  pub end_group : ℕ
  pub error_code : ℕ

-- An inclusive range.
pub record GroupSpan : Type 0 where
  pub start : ℕ
  pub end : ℕ

-- `drops` is the backing array of length `size`.
pub record DropDistributor : Type 0 where
  pub drops : ℕ → SubscribeDrop
  pub size : ℕ
  pub pos : ℕ

abbrev pub no_drop : SubscribeDrop
no_drop = record { start_group = 0; end_group = 0; error_code = 0 }

-- A size that is not positive is 0 here.
unfoldable pub new_drop_distributor : ℕ → DropDistributor
new_drop_distributor size = record {
  drops = λ _. no_drop;
  size = if size == 0 then drop_ring_size else size;
  pos = 0;
}

abbrev pub inc64 : ℕ → ℕ
inc64 n = (n + 1) % 2 ^ 64

-- `pos` is at least 1 where it indexes, so `pos - 1` is the subtraction of the source.
unfoldable pub record_drop : SubscribeDrop → DropDistributor → DropDistributor
record_drop drop d =
    let pos = inc64 d.pos in
    record d { drops = update d.drops ((pos - 1) % d.size) drop; pos = pos }

unfoldable pub oldest : DropDistributor → ℕ
oldest d = if ltb d.size d.pos then d.pos - d.size else 0

-- The loop of since, `for pos := start; pos <= head; pos++`, which runs `count` times.
unfoldable pub held_drops : ℕ → ℕ → DropDistributor → List SubscribeDrop
held_drops zero pos d = []
held_drops (suc count) pos d = d.drops ((pos - 1) % d.size) ∷ held_drops count (inc64 pos) d

-- The drops, the next position, and how many were lost.
unfoldable pub since : ℕ → DropDistributor → List SubscribeDrop × ℕ × ℕ
unfolding held_drops
since last_pos d =
    if leb d.pos last_pos
    then ([], last_pos, 0)
    else (let first = inc64 last_pos in
        if ltb d.size d.pos && leb first (d.pos - d.size)
        then (let still = inc64 (d.pos - d.size) in
            (held_drops (d.pos + 1 - still) still d, d.pos, still - first))
        else (held_drops (d.pos + 1 - first) first d, d.pos, 0))

pub record DropReporter : Type 0 where
  pub pos : ℕ
  pub started : Bool
  pub start : ℕ
  pub handled : List GroupSpan

unfoldable pub new_drop_reporter : DropDistributor → DropReporter
unfolding oldest
new_drop_reporter src = record { pos = oldest src; started = false; start = 0; handled = [] }

-- slices.SortFunc by start, whose result is in order and has the same spans.
unfoldable pub insert_span : GroupSpan → List GroupSpan → List GroupSpan
insert_span s [] = s ∷ []
insert_span s (t ∷ ts) =
    let rest = insert_span s ts in if leb s.start t.start then s ∷ t ∷ ts else t ∷ rest

unfoldable pub sort_spans : List GroupSpan → List GroupSpan
unfolding insert_span
sort_spans [] = []
sort_spans (s ∷ ss) = insert_span s (sort_spans ss)

-- The loop of mergeSpans: `out` is the last span of the output so far.
unfoldable pub join_spans : GroupSpan → List GroupSpan → List GroupSpan
join_spans out [] = out ∷ []
join_spans out (s ∷ ss) =
    let joined = join_spans (record out { end = max out.end s.end }) ss in
    let apart = join_spans s ss in if leb s.start (inc64 out.end) then joined else out ∷ apart

unfoldable pub join_all : List GroupSpan → List GroupSpan
unfolding join_spans
join_all [] = []
join_all (s ∷ ss) = join_spans s ss

unfoldable pub merge_spans : List GroupSpan → List GroupSpan
unfolding sort_spans join_all
merge_spans spans = join_all (sort_spans spans)

-- `handled[n-1]`, when there is one.
unfoldable pub newest : List GroupSpan → Option GroupSpan
newest [] = none
newest (s ∷ []) = some s
newest (s ∷ t ∷ ss) = newest (t ∷ ss)

-- `handled[n-1].end = max(handled[n-1].end, end)`.
unfoldable pub extend_newest : ℕ → List GroupSpan → List GroupSpan
extend_newest end [] = []
extend_newest end (s ∷ []) = record s { end = max s.end end } ∷ []
extend_newest end (s ∷ t ∷ ss) = s ∷ extend_newest end (t ∷ ss)

unfoldable pub join_oldest : List GroupSpan → List GroupSpan
join_oldest (s ∷ t ∷ ss) = record t { start = s.start } ∷ ss
join_oldest ss = ss

unfoldable pub put_span : GroupSpan → List GroupSpan → List GroupSpan
unfolding newest extend_newest merge_spans
put_span span spans = elim (newest spans) [
  | none ↦ spans ++ span ∷ []
  | some s ↦
      if ltb (inc64 s.end) span.start
      then spans ++ span ∷ []
      else if leb s.start span.start
      then extend_newest span.end spans
      else merge_spans (spans ++ span ∷ [])
]

unfoldable pub within_cap : List GroupSpan → List GroupSpan
unfolding join_oldest
within_cap spans = if ltb max_handled_spans (length spans) then join_oldest spans else spans

abbrev pub add : GroupSpan → DropReporter → DropReporter
add span r = record r { handled = within_cap (put_span span r.handled) }

unfoldable pub sent : ℕ → DropReporter → DropReporter
sent seq r =
    add (record { start = seq; end = seq })
      (if r.started then r else record r { started = true; start = seq })

-- The part of the loop's range that ends where `s` starts.
abbrev pub gap_before : ℕ → GroupSpan → List GroupSpan
gap_before next s = if ltb next s.start then record { start = next; end = s.start - 1 } ∷ [] else []

-- The loop of unhandled over what is left of `handled`.
unfoldable pub unhandled_from : ℕ → ℕ → List GroupSpan → List GroupSpan
unhandled_from next end [] = record { start = next; end = end } ∷ []
unhandled_from next end (s ∷ ss) =
    let past = unhandled_from next end ss in
    let rest = unhandled_from (inc64 s.end) end ss in
    if ltb s.end next
    then past
    else if ltb end s.start
    then record { start = next; end = end } ∷ []
    else if leb end s.end
    then gap_before next s
    else gap_before next s ++ rest

abbrev pub unhandled : GroupSpan → DropReporter → List GroupSpan
unhandled span r = unhandled_from span.start span.end r.handled

abbrev pub drops_of : ℕ → List GroupSpan → List SubscribeDrop
drops_of code [] = []
drops_of code (s ∷ ss) =
    record { start_group = s.start; end_group = s.end; error_code = code } ∷ drops_of code ss

-- What is sent to the subscriber, and the reporter afterwards.
unfoldable pub report : SubscribeDrop → DropReporter → List SubscribeDrop × DropReporter
report drop r =
    let first = max (max drop.start_group r.start) 1 in
    let span : GroupSpan = record { start = first; end = drop.end_group } in
    if not r.started || ltb drop.end_group drop.start_group || ltb drop.end_group r.start
    then ([], r)
    else if ltb drop.end_group first
    then ([], r)
    else (drops_of drop.error_code (unhandled span r), add span r)

unfoldable pub report_all : List SubscribeDrop → DropReporter → List SubscribeDrop × DropReporter
unfolding report
report_all [] r = ([], r)
report_all (drop ∷ drops) r =
    let (told, r') = report drop r in let (more, r'') = report_all drops r' in (told ++ more, r'')

unfoldable pub report_when : Bool → SubscribeDrop → DropReporter → List SubscribeDrop × DropReporter
unfolding report
report_when b drop r = if b then report drop r else ([], r)

unfoldable pub report_skipped : ℕ → ℕ → ℕ → DropReporter → List SubscribeDrop × DropReporter
unfolding report_when
report_skipped next highest code r =
    if not r.started
    then ([], r)
    else (let (below, r') =
          report_when (ltb r.start next)
            (record { start_group = r.start; end_group = next - 1; error_code = code }) r in
        let (above, r'') =
          report_when (ltb next highest)
            (record { start_group = inc64 next; end_group = highest; error_code = code }) r' in
        (below ++ above, r''))

unfoldable pub flush : DropDistributor → DropReporter → List SubscribeDrop × DropReporter
unfolding since report_all
flush src r =
    if not r.started || src.pos == r.pos
    then ([], r)
    else (let (drops, pos, lost) = since r.pos src in report_all drops (record r { pos = pos }))

-- slices.BinarySearchFunc on spans in order: the first one that does not end before `seq`.
unfoldable pub spans_hold : ℕ → List GroupSpan → Bool
spans_hold seq [] = false
spans_hold seq (s ∷ ss) =
    let rest = spans_hold seq ss in if ltb s.end seq then rest else leb s.start seq

unfoldable pub is_handled : ℕ → DropReporter → Bool
unfolding spans_hold
is_handled seq r = spans_hold seq r.handled
