-- ===== src/Kernel/Bus/Tests.antt =====
-- A bus with one subscriber that coalesces, and a queued event that carries a blob.
use nev_os.Base.{
  ℕ, ◌+◌, ◌≡◌, refl, true, false, some, List, [], ◌∷◌, map, arith, replicate, any, All,
  All-replicate, if◌then◌else◌,
}
use nev_os.Kernel.Blob.Block.{done}
use nev_os.Kernel.Blob.Ledger.{Op}
use nev_os.Kernel.Bus.{
  Bus, Cfg, Err, ok, dropped, init, publish, subscribe, subscribed, recv_at, deinit, sub_zero,
  stats_zero, stamp, close_all, close, free_slot,
}
use nev_os.Kernel.Bus.Events.{Event, event_make, event_zero}
use nev_os.Kernel.Bus.Subscriber.{Sub, drop_oldest, enqueue}
use nev_os.Kernel.Bus.Ring.{queued}
use nev_os.Kernel.Bus.Refine.{Answers, enqueue-Answers}
use nev_os.Kernel.Bus.Queue.{IsSub, offer}
use nev_os.Kernel.Bus.Delivery.{IsBus, InOrder, queue_after, drops, publish-IsBus}
use nev_os.Kernel.Bus.Balance.{taken, given_back}
use nev_os.Kernel.Bus.Account.{holdings, publish-Balanced, deinit-Balanced}
use nev_os.Kernel.Bus.Slots.{unused}

-- The audio and display domains.
abbrev cfg : Cfg
cfg = record { name = 97 ∷ []; domains = 12; depth = 2; full_policy = drop_oldest; coalesce = true }

-- An audio chunk in the blob 258, and a touch of the screen that nobody listens to.
abbrev chunk : Event
chunk = record (event_make 0x0402 5) { flags = 1; handle = 258 }

abbrev listener : Sub
listener = record (subscribed cfg) {
  in_use = true;
  ring = chunk ∷ replicate 31 event_zero;
  head = 1;
  count = 1;
  high_water = 1;
  sem = 1;
}

abbrev bus : Bus
bus = record { ready = true; subs = listener ∷ replicate 15 sub_zero; seq = 0; stats = stats_zero }

listener-IsSub : IsSub listener
listener-IsSub = record {
  some_room = omega arith;
  depth_in = omega arith;
  ring_len = refl;
  tail_in = omega arith;
  count_in = omega arith;
  head_at = refl;
  marked = omega arith;
}

bus-IsBus : IsBus bus
bus-IsBus = record {
  slots = refl;
  in_order = ((λ used. (listener-IsSub, refl)), All-replicate InOrder 15 sub_zero unused);
}

enqueue-Answers_example : Answers (enqueue listener chunk) (offer listener (queued listener) chunk)
enqueue-Answers_example = enqueue-Answers listener chunk listener-IsSub

publish-IsBus_example :
    (r : Err × Bus × List Op) × (publish true chunk 7 bus ≡ done r)
    × IsBus r.1
    × (map queued r.1.subs ≡ map (queue_after (stamp chunk r.1.seq 7)) bus.subs)
    × (r.0 ≡ (if any bus.subs (drops (stamp chunk r.1.seq 7)) then dropped else ok))
unfolding nev_os.Kernel.Bus.Events.expected_source
publish-IsBus_example = publish-IsBus true chunk 7 bus bus-IsBus refl refl

publish-Balanced_example :
    (r : Err × Bus × List Op) × (publish true chunk 7 bus ≡ done r)
    × ((h : ℕ) → holdings h r.1.subs + given_back h r.2 ≡ holdings h bus.subs + taken h r.2)
unfolding nev_os.Kernel.Bus.Events.expected_source
publish-Balanced_example = publish-Balanced true chunk 7 bus bus-IsBus refl refl

deinit-Balanced_example :
    ((h : ℕ) → (given_back h (deinit bus).1 ≡ holdings h bus.subs) × (taken h (deinit bus).1 ≡ 0))
    × All (λ (s : Sub). s.in_use ≡ false) (deinit bus).0.subs
deinit-Balanced_example = deinit-Balanced bus bus-IsBus refl

-- The second slot is the first that is free.
subscribe_test : (subscribe true cfg bus).0 ≡ some 1
unfolding subscribe free_slot
subscribe_test = refl
