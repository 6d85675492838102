-- ===== src/Relay/Ring/Advance.antt =====
-- internal/relay/group_cache.go, reserve: the next position is public before its group is in the array,
-- and nothing keeps readers out in between.
use qumo.Common.{
  ℕ, ◌+◌, ◌-◌, ◌^◌, ◌≤◌, ◌<◌, ◌≡◌, ◌↔◌, refl, true, Option, none, some, arith, update, ap, sym,
  subst, ◌∙◌,
}
use qumo.Relay.Cache.{FramePool, append, mark_complete}
use qumo.Relay.Ring.{
  GroupRing, advance, place, reserve, get, decr_ref, head, earliest_available, write,
}
use qumo.Relay.Ring.Steps.{
  System, start, Step, reserves, reserving, gets, getting, appends, append_at, completes, drops,
  dropping, Reach, here, later,
}
use qumo.Relay.Ring.Window.{Finds, window_between}

-- `placing` is the group that the reserver is about to put in the array, and its cache.
pub record Reserver : Type 0 where
  pub sys : System
  pub placing : Option (ℕ × ℕ)

abbrev pub advanced : ℕ → System → System
advanced seq s = record s { ring = advance seq s.ring }

abbrev pub advancing : ℕ → ℕ → Reserver → Reserver
advancing a seq s = record { sys = advanced seq s.sys; placing = some (a, seq) }

abbrev pub placed : ℕ → ℕ → System → System
placed a seq s = record {
  ring = place a seq s.ring;
  held = update s.held a 1;
  arrived = update s.arrived s.ring.pos seq;
}

-- A single reserver. `holds` is the step of a reader or filler, which leaves the position as it is.
pub data ReserverStep (s : Reserver) : Reserver → Type 0 where
  advances :
      (a seq : ℕ)
      → s.placing ≡ none
      → s.sys.ring.pooled a ≡ true
      → s.sys.ring.pos + 1 < 2 ^ 64
      → ReserverStep s (advancing a seq s)
  places :
      (a seq : ℕ)
      → s.placing ≡ some (a, seq)
      → ReserverStep s (record { sys = placed a seq s.sys; placing = none })
  holds :
      {t : System}
      → Step s.sys t
      → t.ring.pos ≡ s.sys.ring.pos
      → ReserverStep s (record s { sys = t })

pub data ReserverReach (s : Reserver) : Reserver → Type 0 where
  reserver_here : ReserverReach s s
  reserver_later : {t u : Reserver} → ReserverReach s t → ReserverStep t u → ReserverReach s u

abbrev pub idle : System → Reserver
idle s = record { sys = s; placing = none }

get-advance :
    (p seq : ℕ) (r : GroupRing) → get p (advance seq r) ≡ ((get p r).0, advance seq (get p r).1)
unfolding get
get-advance p seq r = ground arith

decr_ref-advance :
    (a seq : ℕ) (r : GroupRing) → decr_ref a (advance seq r) ≡ advance seq (decr_ref a r)
unfolding decr_ref
decr_ref-advance a seq r = ground arith

-- What a reader or filler leaves: the position, and what the pool has.
abbrev Frees : System → System → Type 0
Frees s t = (t.ring.pos ≡ s.ring.pos) × ((b : ℕ) → s.ring.pooled b ≡ true → t.ring.pooled b ≡ true)

-- A step of a reader or filler does with the next position public what it does without.
advanced-Step :
    (s : System) (seq : ℕ) {t : System}
    → Step (advanced seq s) t
    → t.ring.pos ≡ (advanced seq s).ring.pos
    → (t' : System) × Step s t' × (t ≡ advanced seq t') × Frees s t'
unfolding append mark_complete reserve get decr_ref
advanced-Step s seq (reserves a seq' free room) same = absurd (ground arith)
advanced-Step s seq (gets p a h room) same =
    let e = get-advance p seq s.ring in
    (
      getting p a s,
      gets p a (sym (ap (λ (x : Option ℕ × GroupRing). x.0) e) ∙ h) room,
      ap
          (λ (x : Option ℕ × GroupRing). record s {
            ring = x.1;
            held = update s.held a (s.held a + 1);
          })
          e,
      (ground arith, λ b q. ground arith),
    )
advanced-Step s seq (appends a f h) same = (
  record s { ring = append_at a f s.ring },
  appends a f h,
  ground arith,
  (ground arith, λ b q. ground arith),
)
advanced-Step s seq (completes a h) same = (
  record s { ring = write a (mark_complete (s.ring.heap a)) s.ring },
  completes a h,
  refl,
  (refl, λ b q. q),
)
advanced-Step s seq (drops a h) same = (
  dropping a s,
  drops a h,
  ap (λ (r : GroupRing). record s { ring = r; held = update s.held a (s.held a - 1) })
      (decr_ref-advance a seq s.ring),
  (ground arith, λ b q. ground arith),
)

-- What a state is: one between two operations, or one with the next position public besides.
abbrev pub Placed : ℕ → FramePool → Option (ℕ × ℕ) → System → Type 0
Placed size pool none s = Reach (start size pool) s
Placed size pool (some (a, seq)) s =
    (base : System) × Reach (start size pool) base
    × (base.ring.pooled a ≡ true)
    × (base.ring.pos + 1 < 2 ^ 64)
    × (s ≡ advanced seq base)

placed-reserving :
    (a seq : ℕ) (base : System)
    → base.ring.pos + 1 < 2 ^ 64
    → placed a seq (advanced seq base) ≡ reserving a seq base
unfolding reserve
placed-reserving a seq base room =
    ap
      (λ n. record {
        ring = reserve a seq base.ring;
        held = update base.held a 1;
        arrived = update base.arrived n seq;
      })
      (omega arith)

holds-Placed :
    (size : ℕ) (pool : FramePool) (o : Option (ℕ × ℕ)) (s t : System)
    → Placed size pool o s
    → Step s t
    → t.ring.pos ≡ s.ring.pos
    → Placed size pool o t
holds-Placed size pool none s t r st same = later r st
holds-Placed size pool (some (a, seq)) s t (base, r, free, room, e) st same =
    let (t', st', e', frees) =
      advanced-Step base seq (subst (λ x. Step x t) e st)
        (same ∙ ap (λ (x : System). x.ring.pos) e) in
    let kept = frees.0 in (t', later r st', frees.1 a free, omega arith, e')

step-Placed :
    (size : ℕ) (pool : FramePool) (s t : Reserver)
    → Placed size pool s.placing s.sys
    → ReserverStep s t
    → Placed size pool t.placing t.sys
step-Placed size pool s _ v (advances a seq idle_now free room) =
    let r = subst (λ o. Placed size pool o s.sys) idle_now v in (s.sys, r, free, room, refl)
step-Placed size pool s _ v (places a seq e) =
    let (base, r, free, room, same) = subst (λ o. Placed size pool o s.sys) e v in
    subst (Reach (start size pool))
      (sym (ap (placed a seq) same ∙ placed-reserving a seq base room))
      (later r (reserves a seq free room))
step-Placed size pool s _ v (holds {t} st same) = holds-Placed size pool s.placing s.sys t v st same

pub reach-Placed :
    (size : ℕ) (pool : FramePool) (s : Reserver)
    → ReserverReach (idle (start size pool)) s
    → Placed size pool s.placing s.sys
reach-Placed size pool _ reserver_here = here
reach-Placed size pool t (reserver_later {t = s} r st) =
    step-Placed size pool s t (reach-Placed size pool s r) st

advance-Finds : (p seq : ℕ) (r : GroupRing) → Finds (advance seq r) p ↔ Finds r p
advance-Finds p seq r =
    let e = ap (λ (x : Option ℕ × GroupRing). x.0) (get-advance p seq r) in
    (λ f. (f.0, sym e ∙ f.1, f.2), λ f. (f.0, e ∙ f.1, f.2))

-- What get finds: between two calls of reserve, exactly the positions from earliestAvailable up to head;
-- and once reserve has made the next position public and not yet put the group in the array, exactly
-- the positions in front of head that were in the array before it.
abbrev pub FindsOnly : Reserver → ℕ → Type 0
FindsOnly s p =
    (s.placing ≡ none
      → Finds s.sys.ring p ↔ ((earliest_available s.sys.ring ≤ p) × (p ≤ head s.sys.ring)))
    × ((a seq : ℕ)
        → s.placing ≡ some (a, seq)
        → Finds s.sys.ring p
          ↔ ((0 < p) × (head s.sys.ring ≤ p + s.sys.ring.size) × (p < head s.sys.ring)))

in_flight :
    (size : ℕ) (pool : FramePool) (s : System) (a seq p : ℕ)
    → 0 < size
    → Placed size pool (some (a, seq)) s
    → Finds s.ring p ↔ ((0 < p) × (head s.ring ≤ p + s.ring.size) × (p < head s.ring))
unfolding earliest_available
in_flight size pool s a seq p sized (base, r, free, room, e) =
    subst
      (λ (x : System).
        Finds x.ring p ↔ ((0 < p) × (head x.ring ≤ p + x.ring.size) × (p < head x.ring)))
      (sym e)
      (let w = window_between size pool base p sized r in
        let f = advance-Finds p seq base.ring in
        (
          λ found. let (from, to) = w.0 (f.0 found) in (ground arith, ground arith, ground arith),
          λ (pos, near, lt). f.1 (w.1 (ground arith, ground arith)),
        ))

-- In every reachable state of a ring with room for a group, where the operations of readers and fillers,
-- each of which is one step, also come between the two parts of reserve, in which it makes the next
-- position public and puts the group in the array: between two calls of reserve, get finds a group
-- exactly for the positions from earliestAvailable up to head, and finds the one that was reserved
-- there; between the two parts it finds exactly the groups that it found before the first one, so not
-- the one at head.
pub get_window :
    (size : ℕ) (pool : FramePool) (s : Reserver) (p : ℕ)
    → 0 < size
    → ReserverReach (idle (start size pool)) s
    → FindsOnly s p
get_window size pool s p sized r =
    let v = reach-Placed size pool s r in
    (
      λ e. window_between size pool s.sys p sized (subst (λ o. Placed size pool o s.sys) e v),
      λ a seq e.
          in_flight size pool s.sys a seq p sized (subst (λ o. Placed size pool o s.sys) e v),
    )
