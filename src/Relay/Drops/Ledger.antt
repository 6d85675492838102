-- ===== src/Relay/Drops/Ledger.antt =====
-- internal/relay/drop_reporter.go: the reporter against a ledger, which is the set of the groups that
-- the subscriber was given.
use qumo.Common.{
  ℕ, suc, ◌≤◌, ◌<◌, ◌≡◌, refl, Bool, not, ◌&&◌, ◌||◌, List, leb, arith, length, max, if◌then◌else◌,
  inl, inr, sym, subst,
}
use qumo.Relay.Drops.{
  GroupSpan, SubscribeDrop, DropReporter, max_handled_spans, add, unhandled, put_span, report,
}
use qumo.Relay.Drops.Spans.{within, covers, IsSpan}
use qumo.Relay.Drops.Handled.{put_span-Puts, within_cap-room}
use qumo.Relay.Drops.Reports.{unhandled_from-Parts}
use qumo.Relay.Drops.Tells.{names, names-drops_of, IsReporter, IsSmall, span_of, report_cases}

pub record Ledger : Type 0 where
  pub started : Bool
  pub start : ℕ
  pub holds : ℕ → Bool

abbrev pub once_if : Bool → ℕ
once_if b = if b then 1 else 0

-- The groups that a drop is about, once the subscription's start is known.
abbrev pub about : Bool → ℕ → SubscribeDrop → ℕ → Bool
about started start drop g =
    started && (leb (max (max drop.start_group start) 1) g && leb g drop.end_group)

-- What one or more drops about the groups that `b` tells did, as far as the group `g` goes.
pub record Exact (g : ℕ) (r : DropReporter) (out : List SubscribeDrop × DropReporter) (b : Bool)
    : Type 0 where
  pub tells : names g out.0 ≡ once_if (b && not (covers g r.handled))
  pub notes : covers g out.1.handled ≡ covers g r.handled || b
  pub same_started : out.1.started ≡ r.started
  pub same_start : out.1.start ≡ r.start

module _ (g : ℕ) (r : DropReporter) (v : IsReporter r)
    (room : length r.handled < max_handled_spans) where
  pub add_exact :
      (span : GroupSpan)
      → IsSpan span
      → (covers g (add span r).handled ≡ covers g r.handled || within g span)
        × (length (add span r).handled ≤ suc (length r.handled))
  add_exact span ok =
      let (a, b, c) = put_span-Puts g r.handled span v.apart ok in
      let same = within_cap-room (put_span span r.handled) (omega arith) in
      (
        subst (λ hs. covers g hs ≡ covers g r.handled || within g span) (sym same) b,
        subst (λ hs. length hs ≤ suc (length r.handled)) (sym same) c,
      )

  abbrev pub Does : SubscribeDrop → List SubscribeDrop × DropReporter → Type 0
  Does drop out =
      Exact g r out (about r.started r.start drop g)
      × (length out.1.handled ≤ suc (length r.handled))

  pub report-Exact : (drop : SubscribeDrop) → IsSmall drop → Does drop (report drop r)
  report-Exact drop small = elim (report_cases drop r) [
    | inl (a, e) ↦ subst (Does drop) (sym e) (
      record { tells = ground arith; notes = ground arith; same_started = refl; same_start = refl },
      omega arith,
    )
    | inr (a, e) ↦
        let span = span_of drop r in
        let ok : IsSpan span = (ground arith, small) in
        let (p, q) =
          unhandled_from-Parts g 0 span.start drop.end_group r.handled v.apart ok.0 small in
        let told = names-drops_of g drop.error_code span.start (unhandled span r) p in
        let (c, d) = add_exact span ok in
        subst (Does drop) (sym e) (
          record {
            tells = ground arith;
            notes = ground arith;
            same_started = refl;
            same_start = refl;
          },
          d,
        )
  ]
