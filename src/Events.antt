-- ===== src/Events.antt =====
-- internal/events/hub.go: the hub that hands events to subscribers with bounded buffers. Subscribe and
-- its `cancel` run under the lock, so each is one step. Publish takes the lock for reading only: while
-- it runs, readers take events and other publishers send and drop some, at any moment, which are the
-- moves between its three selects. A buffer after Publish is that right after its last select there.
use rclone_sync_hub_go_backe.Prelude.{
  Text, Bool, some_of, is_none, ℕ, zero, suc, ◌+◌, ◌%◌, ◌^◌, ◌≤◌, ◌<◌, ◌≡◌, ◌⊎◌, refl, [], ◌∷◌,
  ◌++◌, List, true, false, ◌==◌, ltb, leb, length, length-append, if◌then◌else◌, Option, none, some,
  All, ℤ, pos, leb_ℤ, pos_part, arith, Bool-cases, inl, inr,
}

abbrev pub capacity : ℕ
capacity = 64

-- A subscriber: its id, and the events in its channel, the oldest first.
pub record Subscriber (E : Type 0) : Type 0 where
  pub id : ℕ
  pub buffer : List E

pub record Hub (E : Type 0) : Type 0 where
  pub subscribers : List (Subscriber E)
  pub next_id : ℕ
  pub max_subscribers : ℕ

abbrev drop : {E : Type 0} → ℕ → List E → List E
drop zero es = es
drop (suc n) [] = []
drop (suc n) (e ∷ es) = drop n es

-- An event; a zero time is none.
pub record Event : Type 0 where
  pub kind : Text
  pub task_id : ℕ
  pub status : Text
  pub percent : ℕ  -- hundredths
  pub bytes_done : ℤ
  pub bytes_total : ℤ
  pub speed : ℤ
  pub message : Text
  pub timestamp : Option ℕ

abbrev pub stamped : ℕ → Event → Event
stamped now e = record e { timestamp = if is_none e.timestamp then some now else e.timestamp }

-- What others do to a buffer: they take its oldest event, or try to send one.
pub data Move (E : Type 0) : Type 0 where
  taken : Move E
  sent : E → Move E

abbrev is_sent : {E : Type 0} → Move E → Bool
is_sent taken = false
is_sent (sent e) = true

module _ {E : Type 0} where
  unfoldable pub new_hub : ℤ → Hub E
  new_hub max = record {
    subscribers = [];
    next_id = 0;
    max_subscribers = if leb_ℤ max (pos 0) then 100 else pos_part max;
  }

  abbrev pub put : ℕ → List (Subscriber E) → List (Subscriber E)
  put id [] = record { id = id; buffer = [] } ∷ []
  put id (s ∷ ss) =
      let rest = put id ss in if s.id == id then record { id = id; buffer = [] } ∷ ss else s ∷ rest

  -- ErrSubscriberLimit is none. The counter wraps at 64 bits.
  unfoldable pub subscribe : Hub E → Option (ℕ × Hub E)
  subscribe h =
      if leb h.max_subscribers (length h.subscribers)
      then none
      else (let id = (h.next_id + 1) % 2 ^ 64 in
          some (id, record h { next_id = id; subscribers = put id h.subscribers }))

  abbrev pub remove : ℕ → List (Subscriber E) → List (Subscriber E)
  remove id [] = []
  remove id (s ∷ ss) = let rest = remove id ss in if s.id == id then rest else s ∷ rest

  -- The first call of `cancel`; the later ones do nothing.
  unfoldable pub cancel : ℕ → Hub E → Hub E
  cancel id h = record h { subscribers = remove id h.subscribers }

  abbrev pub try_send : E → List E → List E
  try_send e b = if ltb (length b) capacity then b ++ e ∷ [] else b

  abbrev pub move_all : List (Move E) → List E → List E
  move_all [] b = b
  move_all (taken ∷ ms) b = move_all ms (drop 1 b)
  move_all (sent e ∷ ms) b = move_all ms (try_send e b)

  -- The three selects, with the moves of others before and after the drop.
  unfoldable pub offer : (first second : List (Move E)) → E → List E → List E
  offer first second e b =
      if ltb (length b) capacity
      then b ++ e ∷ []
      else try_send e (move_all second (drop 1 (move_all first b)))

  abbrev pub offer_all :
      (ℕ → List (Move E) × List (Move E)) → E → List (Subscriber E) → List (Subscriber E)
  offer_all moves e [] = []
  offer_all moves e (s ∷ ss) =
      record s { buffer = offer (moves s.id).0 (moves s.id).1 e s.buffer } ∷ offer_all moves e ss

  -- The newest event of a buffer.
  abbrev pub EndsWith : E → List E → Type 0
  EndsWith e b = (older : List E) × (b ≡ older ++ e ∷ [])

  -- The event is the newest of the buffer, or was dropped from a full one, which another publisher
  -- refilled after the drop.
  abbrev pub IsDelivered : List (Move E) → E → List E → Type 0
  IsDelivered second e b = EndsWith e b ⊎ ((length b ≡ capacity) × (some_of is_sent second ≡ true))

  length-drop : (b : List E) → length (drop 1 b) ≤ length b
  length-drop [] = omega arith
  length-drop (x ∷ b) = omega arith

  shorter : (b : List E) → length b ≤ capacity → length (drop 1 b) < capacity
  shorter [] h = omega arith
  shorter (x ∷ b) h = omega arith

  try_send-bounded : (e : E) (b : List E) → length b ≤ capacity → length (try_send e b) ≤ capacity
  try_send-bounded e b h = elim (Bool-cases (ltb (length b) capacity)) [
    | inl k ↦ rw k (room (ground arith))
    | inr k ↦ rw k h
  ]
    where
      room : length b < capacity → length (b ++ e ∷ []) ≤ capacity
      room q = omega (arith, length-append b (e ∷ []))

  move_all-bounded :
      (ms : List (Move E)) (b : List E) → length b ≤ capacity → length (move_all ms b) ≤ capacity
  move_all-bounded [] b h = h
  move_all-bounded (taken ∷ ms) b h = move_all-bounded ms (drop 1 b) (omega (arith, length-drop b))
  move_all-bounded (sent e ∷ ms) b h = move_all-bounded ms (try_send e b) (try_send-bounded e b h)

  -- Without a send by another publisher the room that the drop made is still there.
  move_all-room :
      (ms : List (Move E)) (b : List E)
      → some_of is_sent ms ≡ false
      → length b < capacity
      → length (move_all ms b) < capacity
  move_all-room [] b n h = h
  move_all-room (taken ∷ ms) b n h = move_all-room ms (drop 1 b) n (omega (arith, length-drop b))
  move_all-room (sent e ∷ ms) b n h = cc

  try_send-IsDelivered :
      (second : List (Move E)) (e : E) (b : List E)
      → length b ≤ capacity
      → (some_of is_sent second ≡ false → length b < capacity)
      → IsDelivered second e (try_send e b)
  try_send-IsDelivered second e b h room = elim (Bool-cases (ltb (length b) capacity)) [
    | inl k ↦ rw k (inl (b, refl))
    | inr k ↦ rw k (inr (full k, refilled k))
  ]
    where
      full : ltb (length b) capacity ≡ false → length b ≡ capacity
      full k = ground arith

      refilled : ltb (length b) capacity ≡ false → some_of is_sent second ≡ true
      refilled k = elim (Bool-cases (some_of is_sent second)) [
        | inl z ↦ z
        | inr z ↦ absurd (clash (room z))
      ]
        where
          clash : length b < capacity → ⊥
          clash q = ground arith

  offer-IsDelivered :
      (first second : List (Move E)) (e : E) (b : List E)
      → length b ≤ capacity
      → (length (offer first second e b) ≤ capacity) × IsDelivered second e (offer first second e b)
  unfolding offer
  offer-IsDelivered first second e b h = elim (Bool-cases (ltb (length b) capacity)) [
    | inl k ↦ rw k (room (ground arith), inl (b, refl))
    | inr k ↦ rw k (retried (drop 1 (move_all first b)) (shorter _ (move_all-bounded first b h)))
  ]
    where
      room : length b < capacity → length (b ++ e ∷ []) ≤ capacity
      room q = omega (arith, length-append b (e ∷ []))

      retried :
          (c : List E)
          → length c < capacity
          → (length (try_send e (move_all second c)) ≤ capacity)
            × IsDelivered second e (try_send e (move_all second c))
      retried c q =
          let below = move_all-bounded second c (omega arith) in
          (
            try_send-bounded e (move_all second c) below,
            try_send-IsDelivered second e (move_all second c) below
                (λ n. move_all-room second c n q),
          )

  -- Every buffer is within its capacity.
  abbrev pub Bounded : List (Subscriber E) → Type 0
  Bounded ss = All (λ s. length s.buffer ≤ capacity) ss

  offer_all-IsDelivered :
      (moves : ℕ → List (Move E) × List (Move E)) (e : E) (ss : List (Subscriber E))
      → Bounded ss
      → All
          (λ s. (length s.buffer ≤ capacity) × IsDelivered (moves s.id).1 e s.buffer)
          (offer_all moves e ss)
  offer_all-IsDelivered moves e [] k = tt
  offer_all-IsDelivered moves e (s ∷ ss) k = (
    offer-IsDelivered (moves s.id).0 (moves s.id).1 e s.buffer k.0,
    offer_all-IsDelivered moves e ss k.1,
  )

  length-put : (id : ℕ) (ss : List (Subscriber E)) → length (put id ss) ≤ length ss + 1
  length-put id [] = omega arith
  length-put id (s ∷ ss) = ground (arith, length-put id ss)

  -- Subscribe never exceeds the limit of subscribers, and the new subscriber is refused only if the
  -- limit is reached.
  pub subscribe-limit :
      (h : Hub E)
      → ((subscribe h ≡ none) × (h.max_subscribers ≤ length h.subscribers))
        ⊎ ((id : ℕ) × (h' : Hub E) × (subscribe h ≡ some (id, h'))
            × (length h'.subscribers ≤ h'.max_subscribers)
            × (h'.max_subscribers ≡ h.max_subscribers))
  unfolding subscribe
  subscribe-limit h = elim (Bool-cases (leb h.max_subscribers (length h.subscribers))) [
    | inl k ↦ inl (refused k)
    | inr k ↦ inr (accepted k)
  ]
    where
      refused :
          leb h.max_subscribers (length h.subscribers) ≡ true
          → (subscribe h ≡ none) × (h.max_subscribers ≤ length h.subscribers)
      refused k = (rw k refl, ground arith)

      accepted :
          leb h.max_subscribers (length h.subscribers) ≡ false
          → (id : ℕ) × (h' : Hub E) × (subscribe h ≡ some (id, h'))
            × (length h'.subscribers ≤ h'.max_subscribers)
            × (h'.max_subscribers ≡ h.max_subscribers)
      accepted k =
          let id = (h.next_id + 1) % 2 ^ 64 in
          (
            id,
            record h { next_id = id; subscribers = put id h.subscribers },
            rw k refl,
            below (put id h.subscribers) (length-put id h.subscribers),
            refl,
          )
        where
          below :
              (ss : List (Subscriber E))
              → length ss ≤ length h.subscribers + 1
              → length ss ≤ h.max_subscribers
          below ss q = ground arith

-- `moves` is what others do to the buffer of each subscriber while the event is published.
unfoldable pub publish :
    ℕ → (ℕ → List (Move Event) × List (Move Event)) → Event → Hub Event → Hub Event
publish now moves e h = record h { subscribers = offer_all moves (stamped now e) h.subscribers }

-- If every buffer is within its capacity, then after Publish every buffer is. Its newest event is the
-- published one, with its time, whatever readers and other publishers do meanwhile; or the buffer is
-- full and the event was dropped, which happens only where another publisher sent one after the drop
-- of the oldest.
pub publish-delivers :
    (now : ℕ) (moves : ℕ → List (Move Event) × List (Move Event)) (e : Event) (h : Hub Event)
    → Bounded h.subscribers
    → All
        (λ s. (length s.buffer ≤ capacity) × IsDelivered (moves s.id).1 (stamped now e) s.buffer)
        (publish now moves e h).subscribers
unfolding publish
publish-delivers now moves e h b = offer_all-IsDelivered moves (stamped now e) h.subscribers b
