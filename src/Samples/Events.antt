-- ===== src/Samples/Events.antt =====
-- The theorems about kernel/src/event.rs at concrete inputs, and the events that the calls make.
use dbsos.Event.Interrupt.{pop_loaded}
use dbsos.Common.{◌≡◌, refl, true, false, some, arith, update, [], ◌∷◌}
use dbsos.Event.{
  Event, Input, new, push, pop, push_key, poll_key, set_shift, set_alt, modifier_bits, key_event,
}
use dbsos.Event.Queue.{IsRing, contents, pushes, pops, run_ring, run_queue, run_ring-run_queue}
use dbsos.Event.Interrupt.{push_all, pop_interrupted, pop_interrupted-pop}

abbrev key_a : Event
key_a = key_event true 97 0

abbrev key_b : Event
key_b = key_event true 98 5

abbrev quiet : Input
quiet = record {
  key_events = new;
  mouse_events = new;
  focus_events = new;
  mod_shift = false;
  mod_ctrl = false;
  mod_alt = false;
}

-- Shift and Alt are held down when b is pressed.
modified : (poll_key (push_key true 98 (set_alt true (set_shift true quiet)))).1 ≡ some key_b
unfolding poll_key push_key set_alt set_shift modifier_bits push pop update
modified = refl

new-IsRing : IsRing new
new-IsRing = omega arith

run_ring-run_queue_example :
    (
      contents (run_ring (pushes key_a ∷ pushes key_b ∷ pops ∷ []) new).0,
      (run_ring (pushes key_a ∷ pushes key_b ∷ pops ∷ []) new).1,
    )
    ≡ run_queue (pushes key_a ∷ pushes key_b ∷ pops ∷ []) []
unfolding contents
run_ring-run_queue_example =
    run_ring-run_queue (pushes key_a ∷ pushes key_b ∷ pops ∷ []) new new-IsRing

-- The ring is empty at the load of the read index.
pop_interrupted-pop_example :
    (pop_interrupted (key_a ∷ []) (key_b ∷ []) [] new
      ≡ pop (push_all [] (push_all (key_b ∷ []) (push_all (key_a ∷ []) new))))
    × ((pop_interrupted (key_a ∷ []) (key_b ∷ []) [] new).1 ≡ (pop (push_all (key_a ∷ []) new)).1)
unfolding push push_all
pop_interrupted-pop_example = pop_interrupted-pop (key_a ∷ []) (key_b ∷ []) [] new

late_event : (pop_interrupted (key_a ∷ []) [] [] new).1 ≡ some key_a
unfolding pop_interrupted push push_all pop_loaded update
late_event = refl
