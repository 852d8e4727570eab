-- ===== src/Event/Interrupt.antt =====
-- kernel/src/event.rs: a pop that interrupts break into. The producer runs in an interrupt, so each of its pushes runs
-- from its start to its end between two steps of the consumer: the loads of the indices, the read of the
-- event, and the store of the new index.
use dbsos.Common.{
  ℕ, ◌+◌, ◌%◌, ◌≡◌, refl, sym, ap, ◌∙◌, ◌≢◌, inl, inr, false, Option, none, some, arith, ◌==◌,
  if◌then◌else◌, Bool-cases, List, [], ◌∷◌, update_ne,
}
use dbsos.Event.{Event, EventRing, push, pop}

-- Pushes, one interrupt after the other.
unfoldable pub push_all : List Event → EventRing → EventRing
push_all [] ring = ring
push_all (event ∷ events) ring = push_all events (push event ring)

-- `pop` from its second load on, that of the write index: `read` is what it has loaded before. The events `first` arrive
-- between that load and the read of the event, and `second` between the read and the store.
unfoldable pub pop_loaded :
    (read : ℕ) (first second : List Event) → EventRing → EventRing × Option Event
unfolding push_all
pop_loaded read first second ring =
    let now = push_all first ring in
    let later = push_all second now in
    if read == ring.write
    then (later, none)
    else (record later { read = (read + 1) % 512 }, some (now.buf read))

-- `pop`, with the events `between` arriving between the loads of the two indices.
unfoldable pub pop_interrupted :
    (between first second : List Event) → EventRing → EventRing × Option Event
unfolding push_all
pop_interrupted between first second ring =
    pop_loaded ring.read first second (push_all between ring)

push_all-read : (events : List Event) (ring : EventRing) → (push_all events ring).read ≡ ring.read
unfolding push_all push
push_all-read [] ring = refl
push_all-read (event ∷ events) ring = push_all-read events (push event ring) ∙ ground (arith)

-- A push keeps the read index; with an event in the ring, that event stays, and the ring does not become empty.
push_keeps :
    (event : Event) (ring : EventRing)
    → ring.read ≢ ring.write
    → ((push event ring).read ≡ ring.read)
      × ((push event ring).buf ring.read ≡ ring.buf ring.read)
      × ((push event ring).read ≢ (push event ring).write)
unfolding push
push_keeps event ring n = ground (arith, update_ne ring.buf ring.write ring.read event)

push_all_keeps :
    (events : List Event) (ring : EventRing)
    → ring.read ≢ ring.write
    → ((push_all events ring).read ≡ ring.read)
      × ((push_all events ring).buf ring.read ≡ ring.buf ring.read)
      × ((push_all events ring).read ≢ (push_all events ring).write)
unfolding push_all
push_all_keeps [] ring n = (refl, refl, n)
push_all_keeps (event ∷ events) ring n =
    let (a, b, c) = push_keeps event ring n in
    let (a', b', c') = push_all_keeps events (push event ring) c in
    (
      a' ∙ a,
      ap (push_all events (push event ring)).buf (sym a) ∙ b' ∙ ap (push event ring).buf a ∙ b,
      c',
    )

pop_nonempty :
    (ring : EventRing)
    → ring.read ≢ ring.write
    → pop ring ≡ (record ring { read = (ring.read + 1) % 512 }, some (ring.buf ring.read))
unfolding pop
pop_nonempty ring n = let e : (ring.read == ring.write) ≡ false = ground arith in rw (e, pop) refl

pop_loaded-pop :
    (first second : List Event) (ring : EventRing)
    → (pop_loaded ring.read first second ring ≡ (
        if ring.read == ring.write
        then (push_all second (push_all first (pop ring).0), none)
        else pop (push_all second (push_all first ring))))
      × ((pop_loaded ring.read first second ring).1 ≡ (pop ring).1)
unfolding pop_loaded pop
pop_loaded-pop first second ring = elim (Bool-cases (ring.read == ring.write)) [
  | inl e ↦ rw e (refl, refl)
  | inr e ↦
      let n : ring.read ≢ ring.write = λ q. ground arith in
      let (a, b, c) = push_all_keeps first ring n in
      let (a', b', c') = push_all_keeps second (push_all first ring) c in
      let index : (push_all second (push_all first ring)).read ≡ ring.read = a' ∙ a in
      let event : (push_all second (push_all first ring)).buf
            (push_all second (push_all first ring)).read
          ≡ (push_all first ring).buf ring.read =
        ap (push_all second (push_all first ring)).buf a' ∙ b' ∙ ap (push_all first ring).buf a in
      let popped = pop_nonempty (push_all second (push_all first ring)) c' in
      rw e (sym (popped ∙ same (push_all second (push_all first ring)) index event), ap some b)
]
  where
    same :
        (later : EventRing) {i : ℕ} {event : Event}
        → later.read ≡ i
        → later.buf later.read ≡ event
        → ◌≡◌ {A = EventRing × Option Event}
            (record later { read = (later.read + 1) % 512 }, some (later.buf later.read))
            (record later { read = (i + 1) % 512 }, some event)
    same later {i} {event} p q = cc (p, q)

-- An interrupted pop is as good as one that runs at once. If the ring is still empty when the write index is loaded, it
-- is as good as a pop at that time, which gives nothing; else, as one after all arrivals. In both cases it gives what a
-- pop at the load of the write index gives: the oldest event, be it one that came after the load of the read index.
pub pop_interrupted-pop :
    (between first second : List Event) (ring : EventRing)
    → let loaded = push_all between ring in
      (pop_interrupted between first second ring ≡ (
        if loaded.read == loaded.write
        then (push_all second (push_all first (pop loaded).0), none)
        else pop (push_all second (push_all first loaded))))
      × ((pop_interrupted between first second ring).1 ≡ (pop loaded).1)
unfolding pop_interrupted
pop_interrupted-pop between first second ring =
    let loaded = push_all between ring in
    let as_loaded : pop_loaded ring.read first second loaded
        ≡ pop_loaded loaded.read first second loaded =
      ap (λ i. pop_loaded i first second loaded) (sym (push_all-read between ring)) in
    let (a, b) = pop_loaded-pop first second loaded in (as_loaded ∙ a, ap (λ x. x.1) as_loaded ∙ b)
