-- ===== src/Event/Queue.antt =====
-- kernel/src/event.rs: the ring is a queue, first in first out, of at most 511 events.
use dbsos.Common.{
  ℕ, zero, suc, ◌+◌, ◌-◌, ◌%◌, ◌≤◌, ◌<◌, ◌≡◌, refl, ap, ◌∙◌, inl, inr, true, false, Option, none,
  some, arith, ◌==◌, ltb, if◌then◌else◌, Bool-cases, List, [], ◌∷◌, ◌++◌, length, Array, update,
  update_self, update_ne,
}
use dbsos.Event.{Event, EventRing, push, pop}

-- `n` events of the ring from index `i` on.
slots : (n i : ℕ) → Array Event → List Event
slots zero i buf = []
slots (suc n) i buf = buf i ∷ slots n ((i + 1) % 512) buf

-- The indices are inside the buffer.
pub record IsRing (ring : EventRing) : Type 0 where
  pub read_inside : ring.read < 512
  pub write_inside : ring.write < 512

abbrev pub count : EventRing → ℕ
count ring = (ring.write + 512 - ring.read) % 512

-- What the ring holds, the oldest event first.
unfoldable pub contents : EventRing → List Event
unfolding slots
contents ring = slots (count ring) ring.read ring.buf

-- The queue that the ring stands for.
abbrev pub enqueue : Event → List Event → List Event
enqueue event queue = if ltb (length queue) 511 then queue ++ event ∷ [] else queue

abbrev pub dequeue : List Event → List Event × Option Event
dequeue [] = ([], none)
dequeue (event ∷ queue) = (queue, some event)

length-slots : (n i : ℕ) (buf : Array Event) → length (slots n i buf) ≡ n
unfolding slots
length-slots zero i buf = refl
length-slots (suc n) i buf = ap suc (length-slots n ((i + 1) % 512) buf)

slots_snoc :
    (n i : ℕ) (buf : Array Event)
    → i < 512
    → slots (suc n) i buf ≡ slots n i buf ++ buf ((i + n) % 512) ∷ []
unfolding slots
slots_snoc zero i buf h = let e : (i + 0) % 512 ≡ i = omega arith in rw e refl
slots_snoc (suc n) i buf h =
    let e : ((i + 1) % 512 + n) % 512 ≡ (i + suc n) % 512 = omega arith in
    ap (λ xs. buf i ∷ xs) (slots_snoc n ((i + 1) % 512) buf (omega arith) ∙ rw e refl)

-- A write behind the events leaves them.
slots-update :
    (n d i : ℕ) (buf : Array Event) (event : Event)
    → i < 512
    → n ≤ d
    → d < 512
    → slots n i (update buf ((i + d) % 512) event) ≡ slots n i buf
unfolding slots
slots-update zero d i buf event h a b = refl
slots-update (suc n) d i buf event h a b =
    let e : (i + d) % 512 ≡ ((i + 1) % 512 + (d - 1)) % 512 = omega arith in
    let rest =
      slots-update n (d - 1) ((i + 1) % 512) buf event (omega arith) (omega arith) (omega arith) in
    cc (update_ne buf ((i + d) % 512) i event (λ q. omega arith), rest, e)

module _ (ring : EventRing) (v : IsRing ring) where
  open v use {read_inside, write_inside}

  pub contents-push : (event : Event) → contents (push event ring) ≡ enqueue event (contents ring)
  unfolding contents push
  contents-push event = elim (Bool-cases ((ring.write + 1) % 512 == ring.read)) [
    | inl full ↦
        let n = length-slots (count ring) ring.read ring.buf in
        let l : ltb (length (slots (count ring) ring.read ring.buf)) 511 ≡ false =
          rw n (ground arith) in
        rw (full, push) (rw l refl)
    | inr room ↦
        let n = length-slots (count ring) ring.read ring.buf in
        let l : ltb (length (slots (count ring) ring.read ring.buf)) 511 ≡ true =
          rw n (ground arith) in
        let more : ((ring.write + 1) % 512 + 512 - ring.read) % 512 ≡ suc (count ring) =
          ground arith in
        let here : (ring.read + count ring) % 512 ≡ ring.write = omega arith in
        rw (room, push)
          (rw l (
            rw more (
              slots_snoc (count ring) ring.read (update ring.buf ring.write event) read_inside
              ∙ kept event here)))
  ]
    where
      kept :
          (event : Event)
          → (ring.read + count ring) % 512 ≡ ring.write
          → slots (count ring) ring.read (update ring.buf ring.write event)
              ++ update ring.buf ring.write event ((ring.read + count ring) % 512) ∷ []
            ≡ contents ring ++ event ∷ []
      kept event here =
          let same =
            slots-update (count ring) (count ring) ring.read ring.buf event read_inside
              (omega arith) (omega arith) in
          let old : slots (count ring) ring.read (update ring.buf ring.write event)
              ≡ contents ring =
            rw here at same in
          rw here (rw old (rw (update_self ring.buf ring.write event) refl))

  pub push-IsRing : (event : Event) → IsRing (push event ring)
  unfolding push
  push-IsRing event = ground arith

  pub pop-IsRing : IsRing (pop ring).0
  unfolding pop
  pop-IsRing = ground arith

  pub contents-pop : (contents (pop ring).0, (pop ring).1) ≡ dequeue (contents ring)
  unfolding contents pop
  contents-pop = elim (Bool-cases (ring.read == ring.write)) [
    | inl e ↦ let none_left : count ring ≡ 0 = ground arith in rw (e, pop) (rw none_left refl)
    | inr e ↦
        let one : count ring ≡ suc ((ring.write + 512 - (ring.read + 1) % 512) % 512) =
          ground arith in
        rw (e, pop) (rw one refl)
  ]

pub data Call : Type 0 where
  pushes : Event → Call
  pops : Call

-- The calls on the ring, with what the pops return; and the same calls on a queue.
unfoldable pub run_ring : List Call → EventRing → EventRing × List (Option Event)
run_ring [] ring = (ring, [])
run_ring (pushes event ∷ cs) ring = run_ring cs (push event ring)
run_ring (pops ∷ cs) ring =
    let (ring', popped) = pop ring in
    let (last, results) = run_ring cs ring' in (last, popped ∷ results)

unfoldable pub run_queue : List Call → List Event → List Event × List (Option Event)
run_queue [] queue = (queue, [])
run_queue (pushes event ∷ cs) queue = run_queue cs (enqueue event queue)
run_queue (pops ∷ cs) queue =
    let (queue', popped) = dequeue queue in
    let (last, results) = run_queue cs queue' in (last, popped ∷ results)

-- Any sequence of pushes and pops gives the results that it gives on a queue, first in first out, that drops what
-- is pushed beyond 511 events; and the ring then holds what that queue holds.
pub run_ring-run_queue :
    (cs : List Call) (ring : EventRing)
    → IsRing ring
    → (contents (run_ring cs ring).0, (run_ring cs ring).1) ≡ run_queue cs (contents ring)
unfolding run_ring run_queue
run_ring-run_queue [] ring v = refl
run_ring-run_queue (pushes event ∷ cs) ring v =
    run_ring-run_queue cs (push event ring) (push-IsRing ring v event)
    ∙ ap (run_queue cs) (contents-push ring v event)
run_ring-run_queue (pops ∷ cs) ring v =
    let rest = run_ring-run_queue cs (pop ring).0 (pop-IsRing ring v) in
    let step = contents-pop ring v in
    ap (λ x. (x.0, (pop ring).1 ∷ x.1)) rest
    ∙ ap (λ x. ((run_queue cs x.0).0, x.1 ∷ (run_queue cs x.0).1)) step
