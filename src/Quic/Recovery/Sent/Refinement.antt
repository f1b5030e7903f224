-- ===== src/Quic/Recovery/Sent/Refinement.antt =====
-- SentPacketTracker of include/boltapi/quic/loss.h against the list of the last 256 packets.
use bolt_api.Prelude.{
  ℕ, zero, suc, ◌+◌, ◌-◌, ◌%◌, ◌≤◌, ◌<◌, ◌≡◌, refl, sym, ap, ap₂, ◌∙◌, Bool, true, false, not, ◌&&◌,
  ◌||◌, ◌==◌, leb, ltb, ltb→lt, if◌then◌else◌, Bool-cases, inl, inr, Option, none, some, List, [],
  ◌∷◌, ◌++◌, length, get_elem?, arith,
}
use bolt_api.Quic.Recovery.Sent.{
  SentPacketInfo, SentPacketTracker, sent_packet, empty_tracker, set_slot, flight, record_packet,
  at, change_at, find_loop, find_unacked, counts, any_loop, any_ack_eliciting_in_flight, earlier,
  earliest_loop, earliest_in_flight_time,
}
use bolt_api.Quic.Recovery.Sent.History.{
  push, change_nth, position, any_counts, sooner, earliest, answer,
}
use bolt_api.Quic.Recovery.Sent.Slots.{
  entries, length-entries, same_start, entries-push, entries-change, entries-get, entries-past,
}

abbrev contents : SentPacketTracker → List SentPacketInfo
contents t = entries t.ring t.tail t.count

record IsValid (t : SentPacketTracker) : Type 0 where
  count_bound : t.count ≤ 256
  tail_bound : t.tail < 256
  head_place : t.head ≡ (t.tail + t.count) % 256

push_room :
    (p : SentPacketInfo) (xs : List SentPacketInfo)
    → length xs < 256
    → push p xs ≡ (0, xs ++ (p ∷ []))
push_room p [] h = refl
push_room p (x ∷ xs) h =
    let room : ltb (length (x ∷ xs)) 256 ≡ true = ground (arith, h) in rw room refl

push_full :
    (p x : SentPacketInfo) (xs : List SentPacketInfo)
    → length (x ∷ xs) ≡ 256
    → push p (x ∷ xs) ≡ (flight x, xs ++ (p ∷ []))
push_full p x xs h =
    let full : ltb (length (x ∷ xs)) 256 ≡ false = ground (arith, h) in rw full refl

module _ (pn now_us size : ℕ) (ack_eliciting : Bool) (t : SentPacketTracker) (v : IsValid t) where
  abbrev new : SentPacketInfo
  new = sent_packet pn now_us size ack_eliciting

  abbrev after : SentPacketTracker
  unfolding record_packet
  after = (record_packet pn now_us size ack_eliciting t).1

  abbrev evicted : ℕ
  unfolding record_packet
  evicted = (record_packet pn now_us size ack_eliciting t).0

  record-room : ltb t.count 256 ≡ true → (evicted, contents after) ≡ push new (contents t)
  unfolding record_packet
  record-room room =
      let below : t.count < 256 = ltb→lt t.count 256 room in
      rw room (
        ap (λ xs. (0, xs))
          (ap (entries (set_slot t.head new t.ring) t.tail)
              (let e : t.count + 1 ≡ suc t.count = omega arith in e)
            ∙ entries-push t.ring new t.head t.tail t.count v.head_place below)
        ∙ sym (
            push_room new (contents t)
              (omega (arith, below, length-entries t.ring t.tail t.count))))

  record-full : ltb t.count 256 ≡ false → (evicted, contents after) ≡ push new (contents t)
  unfolding record_packet
  record-full full =
      let m : ℕ = t.count - 1 in
      let most : t.count ≡ 256 = ground (arith, full, v.count_bound) in
      let split : t.count ≡ suc m = omega (arith, most) in
      let oldest : t.head ≡ t.tail = omega (arith, most, v.head_place, v.tail_bound) in
      let wrap : t.tail ≡ t.tail % 256 = omega (arith, v.tail_bound) in
      let others : List SentPacketInfo = entries t.ring (t.tail + 1) m in
      let before : contents t ≡ t.ring (t.tail % 256) ∷ others = ap (entries t.ring t.tail) split in
      rw full (
        ap₂ (λ (a : ℕ) (xs : List SentPacketInfo). (a, xs))
          (ap (λ i. flight (t.ring i)) (oldest ∙ wrap))
          (ap (entries (set_slot t.head new t.ring) ((t.tail + 1) % 256)) split
            ∙ same_start (set_slot t.head new t.ring) ((t.tail + 1) % 256) (t.tail + 1) (suc m)
                (omega arith)
            ∙ entries-push t.ring new t.head (t.tail + 1) m
                (omega (arith, split, most, v.head_place)) (omega (arith, most)))
        ∙ sym (
            push_full new (t.ring (t.tail % 256)) others
              (omega (arith, length-entries t.ring (t.tail + 1) m, most)))
        ∙ ap (push new) (sym before))

  record-refines : (evicted, contents after) ≡ push new (contents t)
  record-refines = elim (Bool-cases (ltb t.count 256)) [
    | inl room ↦ record-room room
    | inr full ↦ record-full full
  ]

  record-IsValid : IsValid after
  unfolding record_packet
  record-IsValid = record {
    count_bound = ground (arith, v.count_bound);
    tail_bound = ground (arith, v.tail_bound);
    head_place = ground (arith, v.count_bound, v.tail_bound, v.head_place);
  }

open_lem :
    (same acked lost : Bool) → (same && (not acked && not lost)) ≡ (same && not (acked || lost))
open_lem same true lost = refl
open_lem same false lost = refl

or_lem :
    (flying eliciting rest : Bool)
    → (if flying && eliciting then true else rest) ≡ ((eliciting && flying) || rest)
or_lem true true rest = refl
or_lem true false rest = refl
or_lem false true rest = refl
or_lem false false rest = refl

-- What a loop that found `r` so far ends with, by the earliest time of the packets left.
abbrev merge : Bool × ℕ → Option ℕ → Bool × ℕ
merge r none = r
merge (false, out) (some t) = (true, t)
merge (true, out) (some t) = (true, if leb out t then out else t)

merge_none : (out : ℕ) (e : Option ℕ) → merge (false, out) e ≡ answer out e
merge_none out none = refl
merge_none out (some t) = refl

first_time : (now : ℕ) (e : Option ℕ) → merge (true, now) e ≡ (true, sooner now e)
first_time now none = refl
first_time now (some t) = refl

next_time :
    (now out : ℕ) (e : Option ℕ)
    → merge (if ltb now out then (true, now) else (true, out)) e
      ≡ merge (true, out) (some (sooner now e))
next_time now out none = elim (Bool-cases (ltb now out)) [
  | inl sooner_now ↦
      let late : leb out now ≡ false = ground (arith, sooner_now) in rw (sooner_now, late) refl
  | inr kept ↦ let early : leb out now ≡ true = ground (arith, kept) in rw (kept, early) refl
]
next_time now out (some t) = elim (Bool-cases (ltb now out)) [
  | inl sooner_now ↦ rw sooner_now (ap (λ u. (true, u)) (ground (arith, sooner_now)))
  | inr kept ↦ rw kept (ap (λ u. (true, u)) (ground (arith, kept)))
]

merge_lem :
    (flying eliciting : Bool) (now : ℕ) (r : Bool × ℕ) (e : Option ℕ)
    → merge (if (flying && eliciting) && (not (r.0) || ltb now (r.1)) then (true, now) else r) e
      ≡ merge r (if eliciting && flying then some (sooner now e) else e)
merge_lem false false now r e = refl
merge_lem false true now r e = refl
merge_lem true false now r e = refl
merge_lem true true now (false, out) e = first_time now e
merge_lem true true now (true, out) e = next_time now out e

module _ (t : SentPacketTracker) where
  change-refines :
      (i : ℕ) (change : SentPacketInfo → SentPacketInfo)
      → IsValid t
      → i < t.count
      → contents (change_at i change t) ≡ change_nth i change (contents t)
  unfolding change_at at
  change-refines i change v h =
      entries-change t.ring change t.tail t.count i ((t.tail + i) % 256) h v.count_bound refl

  change-IsValid :
      (i : ℕ) (change : SentPacketInfo → SentPacketInfo)
      → IsValid t
      → IsValid (change_at i change t)
  unfolding change_at
  change-IsValid i change v = record {
    count_bound = v.count_bound;
    tail_bound = v.tail_bound;
    head_place = v.head_place;
  }

  -- The loops, from position `i` on.
  abbrev from : ℕ → ℕ → List SentPacketInfo
  from n i = entries t.ring (t.tail + i) n

  next_from : (n i : ℕ) → from n (i + 1) ≡ entries t.ring (t.tail + i + 1) n
  next_from n i =
      ap (λ j. entries t.ring j n) (let e : t.tail + (i + 1) ≡ t.tail + i + 1 = omega arith in e)

  all_from : from t.count 0 ≡ contents t
  all_from = ap (λ j. entries t.ring j t.count) (let e : t.tail + 0 ≡ t.tail = omega arith in e)

  find_lem : (pn n i : ℕ) → find_loop pn t n i ≡ position pn i (from n i)
  unfolding find_loop at
  find_lem pn zero i = refl
  find_lem pn (suc n) i =
      let x : SentPacketInfo = at t i in
      ap₂ (λ (b : Bool) (r : Option ℕ). if b then some i else r)
        (open_lem (x.packet_number == pn) x.acked x.lost)
        (find_lem pn n (i + 1) ∙ ap (position pn (i + 1)) (next_from n i))

  any_lem : (n i : ℕ) → any_loop t n i ≡ any_counts (from n i)
  unfolding any_loop at
  any_lem zero i = refl
  any_lem (suc n) i =
      let x : SentPacketInfo = at t i in
      ap (λ r. if counts x then true else r) (any_lem n (i + 1) ∙ ap any_counts (next_from n i))
      ∙ or_lem x.in_flight x.ack_eliciting (any_counts (entries t.ring (t.tail + i + 1) n))

  earliest_lem : (n i : ℕ) (r : Bool × ℕ) → earliest_loop t n i r ≡ merge r (earliest (from n i))
  unfolding earliest_loop at
  earliest_lem zero i (found, out) = refl
  earliest_lem (suc n) i r =
      let x : SentPacketInfo = at t i in
      earliest_lem n (i + 1) (earlier x r)
      ∙ ap (λ xs. merge (earlier x r) (earliest xs)) (next_from n i)
      ∙ merge_lem x.in_flight x.ack_eliciting x.time_sent_us r
          (earliest (entries t.ring (t.tail + i + 1) n))

-- The trackers that calls lead to, each with the list of packets that it stands for.
pub data Run : SentPacketTracker → List SentPacketInfo → Type 0 where
  start : Run empty_tracker []
  recorded :
      {t : SentPacketTracker} {xs : List SentPacketInfo} (pn now_us size : ℕ) (ack_eliciting : Bool)
      → Run t xs
      → Run
          ((record_packet pn now_us size ack_eliciting t).1)
          ((push (sent_packet pn now_us size ack_eliciting) xs).1)
  changed :
      {t : SentPacketTracker} {xs : List SentPacketInfo} (i : ℕ)
      (change : SentPacketInfo → SentPacketInfo)
      → i < t.count
      → Run t xs
      → Run (change_at i change t) (change_nth i change xs)

record Stands (t : SentPacketTracker) (xs : List SentPacketInfo) : Type 0 where
  valid : IsValid t
  same : contents t ≡ xs

Run-Stands : {t : SentPacketTracker} {xs : List SentPacketInfo} → Run t xs → Stands t xs
unfolding record_packet after
Run-Stands start = record {
  valid = record { count_bound = omega arith; tail_bound = omega arith; head_place = omega arith };
  same = refl;
}
Run-Stands (recorded {t} {xs} pn now_us size ack_eliciting run) =
    let s : Stands t xs = Run-Stands run in
    record {
      valid = record-IsValid pn now_us size ack_eliciting t s.valid;
      same =
          ap (λ (r : ℕ × List SentPacketInfo). r.1)
            (record-refines pn now_us size ack_eliciting t s.valid)
          ∙ ap (λ l. (push (sent_packet pn now_us size ack_eliciting) l).1) s.same;
    }
Run-Stands (changed {t} {xs} i change h run) =
    let s : Stands t xs = Run-Stands run in
    record {
      valid = change-IsValid t i change s.valid;
      same = change-refines t i change s.valid h ∙ ap (change_nth i change) s.same;
    }

at_lem :
    (t : SentPacketTracker) (i : ℕ)
    → get_elem? (contents t) i ≡ (if ltb i t.count then some (at t i) else none)
unfolding at
at_lem t i = elim (Bool-cases (ltb i t.count)) [
  | inl inside ↦ rw inside (entries-get t.ring t.tail t.count i (ltb→lt i t.count inside))
  | inr outside ↦ rw outside (entries-past t.ring t.tail t.count i (ground (arith, outside)))
]

-- After any run of calls, the ring of sent packets answers as the list of the last 256 packets,
-- with the changes made to them: it counts them and gives each at its place from the oldest on,
-- finds a packet that is neither acknowledged nor lost by its number, says whether one counts in
-- flight and when the earliest of these was sent; and the next `record` reports the bytes in flight
-- of the packet that it drops, which is the oldest of 256.
pub tracker_refines :
    (t : SentPacketTracker) (xs : List SentPacketInfo) (i pn out now_us size : ℕ)
    (ack_eliciting : Bool)
    → Run t xs
    → (t.count ≡ length xs)
      × (get_elem? xs i ≡ (if ltb i t.count then some (at t i) else none))
      × (find_unacked pn t ≡ position pn 0 xs)
      × (any_ack_eliciting_in_flight t ≡ any_counts xs)
      × (earliest_in_flight_time t out ≡ answer out (earliest xs))
      × ((record_packet pn now_us size ack_eliciting t).0
          ≡ (push (sent_packet pn now_us size ack_eliciting) xs).0)
unfolding find_unacked any_ack_eliciting_in_flight earliest_in_flight_time record_packet
tracker_refines t xs i pn out now_us size ack_eliciting run =
    let s : Stands t xs = Run-Stands run in
    let list : from t t.count 0 ≡ xs = all_from t ∙ s.same in
    (
      sym (length-entries t.ring t.tail t.count) ∙ ap length s.same,
      ap (λ l. get_elem? l i) (sym s.same) ∙ at_lem t i,
      find_lem t pn t.count 0 ∙ ap (position pn 0) list,
      any_lem t t.count 0 ∙ ap any_counts list,
      earliest_lem t t.count 0 (false, out)
          ∙ ap (λ l. merge (false, out) (earliest l)) list
          ∙ merge_none out (earliest xs),
      ap (λ (r : ℕ × List SentPacketInfo). r.0)
            (record-refines pn now_us size ack_eliciting t s.valid)
          ∙ ap (λ l. (push (sent_packet pn now_us size ack_eliciting) l).0) s.same,
    )
