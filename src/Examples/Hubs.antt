-- ===== src/Examples/Hubs.antt =====
-- The theorems of Events on a hub with a full buffer and an empty one.
use rclone_sync_hub_go_backe.Prelude.{
  ℕ, zero, suc, codes, pos, none, ◌≤◌, ◌≡◌, [], ◌∷◌, List, All, length, arith,
}
use rclone_sync_hub_go_backe.Events.{
  Event, Hub, Move, sent, stamped, capacity, publish, IsDelivered, publish-delivers,
}

abbrev progress : Event
progress = record {
  kind = codes "progress";
  task_id = 7;
  status = codes "running";
  percent = 5000;
  bytes_done = pos 5;
  bytes_total = pos 10;
  speed = pos 1;
  message = [];
  timestamp = none;
}

-- The reader of the full buffer takes nothing, and another publisher refills it after the drop.
abbrev moves : ℕ → List (Move Event) × List (Move Event)
moves id = ([], sent progress ∷ [])

abbrev fill : ℕ → List Event
fill zero = []
fill (suc n) = progress ∷ fill n

length-fill : (n : ℕ) → length (fill n) ≡ n
length-fill zero = omega arith
length-fill (suc n) = omega (arith, length-fill n)

abbrev hub : Hub Event
hub = record {
  subscribers = record { id = 1; buffer = fill capacity } ∷ record { id = 2; buffer = [] } ∷ [];
  next_id = 2;
  max_subscribers = 2;
}

publish-delivers_example :
    All
      (λ s.
        (length s.buffer ≤ capacity) × IsDelivered (moves s.id).1 (stamped 90 progress) s.buffer)
      (publish 90 moves progress hub).subscribers
publish-delivers_example =
    publish-delivers 90 moves progress hub (omega (arith, length-fill capacity), (omega arith, tt))
