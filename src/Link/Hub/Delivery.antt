-- ===== src/Link/Hub/Delivery.antt =====
-- What the watchers of the status hub see, over every history of publications, subscriptions,
-- revocations and rounds of the stream handlers.
use native.Mathlib.Nat.{add_comm, zero-add}
use rook_host.Base.{
  ℕ, ◌+◌, ◌≤◌, ◌<◌, ◌≡◌, refl, Option, none, some, Bool, true, false, List, [], ◌∷◌, All, arith,
  if◌then◌else◌, if_both, ◌&&◌, ◌∙◌,
}
use rook_host.Base.Bytes.{Bytes, str_eq}
use rook_host.Base.Time.{Time}
use rook_host.Projection.Status.{Status}
use rook_host.Link.Stream.{
  Watcher, StreamEvent, context_done, gone_closed, update_ready, ticked, offer, fan_out, leave,
  drop_watchers, handle,
}
use rook_host.Link.Stream.Current.{
  All-modify, All-snoc, All-map_step, HasCurrent, fan_out-HasCurrent, drop-HasCurrent,
  handle-HasCurrent,
}
use rook_host.Link.Hub.{Frame, Hub, new_hub, current_frame, publish, subscribe, drop_device, stream}

pub data HubEvent : Type 0 where
  publishes : Status → Time → HubEvent
  subscribes : Bytes → Bool → HubEvent
  drops : Bytes → HubEvent
  streams : ℕ → StreamEvent → HubEvent

unfoldable pub step : Hub → HubEvent → Hub
step h (publishes s at) = publish h s at
step h (subscribes d delivered) = subscribe h d delivered
step h (drops d) = drop_device h d
step h (streams i event) = stream h i event

unfoldable pub run : Hub → List HubEvent → Hub
run h [] = h
run h (e ∷ es) = run (step h e) es

abbrev AllCurrent : Hub → Type 0
AllCurrent h = All (HasCurrent (current_frame h)) h.subs

step-AllCurrent : (h : Hub) (e : HubEvent) → AllCurrent h → AllCurrent (step h e)
unfolding step publish subscribe drop_device stream
step-AllCurrent h (publishes s at) a = fan_out-HasCurrent _ h.subs
step-AllCurrent h (subscribes d true) a =
    All-snoc (HasCurrent (current_frame h)) h.subs _ a (λ m. ground arith)
step-AllCurrent h (subscribes d false) a =
    All-snoc (HasCurrent (current_frame h)) h.subs _ a (λ m. absurd (ground arith))
step-AllCurrent h (drops d) a = drop-HasCurrent (current_frame h) d h.subs a
step-AllCurrent h (streams i event) a =
    All-modify (HasCurrent (current_frame h)) i (handle event) h.subs
      (handle-HasCurrent (current_frame h) event) a

run-AllCurrent : (h : Hub) (es : List HubEvent) → AllCurrent h → AllCurrent (run h es)
unfolding run
run-AllCurrent h [] a = a
run-AllCurrent h (e ∷ es) a = run-AllCurrent (step h e) es (step-AllCurrent h e a)

-- From a new hub, whatever happened, every registered watcher has the current snapshot waiting for
-- it, or has it as the last frame that its stream sent: none misses the newest truth.
pub watchers_current :
    (es : List HubEvent) → All (HasCurrent (current_frame (run new_hub es))) (run new_hub es).subs
watchers_current es = run-AllCurrent new_hub es tt

-- The frames of a list, each numbered below the one before and the first below the bound.
abbrev pub Falling : ℕ → List Frame → Type 0
Falling b [] = Unit
Falling b (f ∷ fs) = (f.seq < b) × Falling f.seq fs

abbrev pub with_waiting : Option Frame → List Frame → List Frame
with_waiting none fs = fs
with_waiting (some f) fs = f ∷ fs

-- What waits for a stream and what it has sent, newest first.
abbrev pub waiting_and_sent : Watcher Frame → List Frame
waiting_and_sent w = with_waiting w.updates w.sent

abbrev InOrder : ℕ → Watcher Frame → Type 0
InOrder n w = Falling (n + 1) (waiting_and_sent w)

Falling-le : (b c : ℕ) (fs : List Frame) → b ≤ c → Falling b fs → Falling c fs
Falling-le b c [] h f = tt
Falling-le b c (x ∷ fs) h f = (omega arith, f.1)

Falling-sent :
    (b : ℕ) (u : Option Frame) (fs : List Frame) → Falling b (with_waiting u fs) → Falling b fs
Falling-sent b none fs h = h
Falling-sent b (some f) fs h = Falling-le f.seq b fs (omega arith) h.1

offer_lem : (f : Frame) (w : Watcher Frame) → offer f w ≡ record w { updates = some f }
unfolding offer
offer_lem f w = ground arith

offer-InOrder :
    (n : ℕ) (f : Frame) (w : Watcher Frame)
    → f.seq ≡ n + 1
    → InOrder n w
    → InOrder (n + 1) (if w.member then offer f w else w)
offer-InOrder n f w e h =
    if_both (InOrder (n + 1)) w.member (offer f w) w
      (rw offer_lem (omega arith, rw e (Falling-sent (n + 1) w.updates w.sent h)))
      (Falling-le (n + 1) (n + 1 + 1) (waiting_and_sent w) (omega arith) h)

handle-InOrder :
    (n : ℕ) (event : StreamEvent) (w : Watcher Frame) → InOrder n w → InOrder n (handle event w)
unfolding handle
handle-InOrder n context_done w h = ground (arith, h)
handle-InOrder n gone_closed w h = ground (arith, h)
handle-InOrder n (update_ready d) w h = ground (arith, h, Falling-sent (n + 1) w.updates w.sent h)
handle-InOrder n (ticked d) w h = ground (arith, h)

abbrev publications : HubEvent → ℕ
publications (publishes s at) = 1
publications _ = 0

-- How often a history publishes.
abbrev pub published : List HubEvent → ℕ
published [] = 0
published (e ∷ es) = publications e + published es

-- The hub's number has not wrapped, and every stream is in order.
record IsOrdered (n : ℕ) (h : Hub) : Type 0 where
  number : h.seq ≡ n
  in_order : All (InOrder n) h.subs

module _ (n : ℕ) (h : Hub) (o : IsOrdered n h) where
  publish-IsOrdered :
      (s : Status) (at : Time) → n + 1 < 18446744073709551616 → IsOrdered (n + 1) (publish h s at)
  unfolding publish fan_out
  publish-IsOrdered s at l = record {
    number = omega (arith, o.number);
    in_order =
        All-map_step (InOrder (n + 1)) (InOrder n) _ h.subs
          (λ w. offer-InOrder n _ w (omega (arith, o.number))) o.in_order;
  }

  subscribe-IsOrdered : (d : Bytes) (delivered : Bool) → IsOrdered n (subscribe h d delivered)
  unfolding subscribe
  subscribe-IsOrdered d true = record {
    number = o.number;
    in_order = All-snoc (InOrder n) h.subs _ o.in_order (omega (arith, o.number), tt);
  }
  subscribe-IsOrdered d false = record {
    number = o.number;
    in_order = All-snoc (InOrder n) h.subs _ o.in_order tt;
  }

  drop-IsOrdered : (d : Bytes) → IsOrdered n (drop_device h d)
  unfolding drop_device drop_watchers
  drop-IsOrdered d = record {
    number = o.number;
    in_order =
        All-map_step (InOrder n) (InOrder n) _ h.subs
          (λ w k. if_both (InOrder n) (w.member && str_eq w.device_id d) (leave w) w k k)
          o.in_order;
  }

  stream-IsOrdered : (i : ℕ) (event : StreamEvent) → IsOrdered n (stream h i event)
  unfolding stream
  stream-IsOrdered i event = record {
    number = o.number;
    in_order = All-modify (InOrder n) i (handle event) h.subs (handle-InOrder n event) o.in_order;
  }

step-IsOrdered :
    (n : ℕ) (h : Hub) (e : HubEvent)
    → n + publications e < 18446744073709551616
    → IsOrdered n h
    → IsOrdered (publications e + n) (step h e)
unfolding step
step-IsOrdered n h (publishes s at) l o = rw (add_comm 1 n) (publish-IsOrdered n h o s at l)
step-IsOrdered n h (subscribes d delivered) l o =
    rw (zero-add n) (subscribe-IsOrdered n h o d delivered)
step-IsOrdered n h (drops d) l o = rw (zero-add n) (drop-IsOrdered n h o d)
step-IsOrdered n h (streams i event) l o = rw (zero-add n) (stream-IsOrdered n h o i event)

run-IsOrdered :
    (n : ℕ) (h : Hub) (es : List HubEvent)
    → n + published es < 18446744073709551616
    → IsOrdered n h
    → (m : ℕ) × IsOrdered m (run h es) × (m ≡ n + published es)
unfolding run
run-IsOrdered n h [] l o = (n, o, omega arith)
run-IsOrdered n h (e ∷ es) l o =
    let (m, last, count) =
      run-IsOrdered (publications e + n) (step h e) es (omega arith)
        (step-IsOrdered n h e (omega arith) o) in
    (m, last, omega arith)

-- From a new hub that publishes fewer than 2^64 times, the hub's number is the count of the
-- publications, and on every stream the frame that waits and those sent, newest first, have
-- falling numbers that do not pass the hub's: no stream goes back or repeats a number.
pub streams_in_order :
    (es : List HubEvent)
    → published es < 18446744073709551616
    → ((run new_hub es).seq ≡ published es)
      × All (λ w. Falling (published es + 1) (waiting_and_sent w)) (run new_hub es).subs
streams_in_order es l =
    let (m, last, count) =
      run-IsOrdered 0 new_hub es (omega arith) (record { number = refl; in_order = tt }) in
    let same : m ≡ published es = omega arith in (last.number ∙ same, rw (← same) last.in_order)
