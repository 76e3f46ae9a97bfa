-- ===== src/Bridge/Session/Tests.antt =====
-- A bridge on concrete inputs.
use nev_os.Base.{
  ℕ, ◌≡◌, refl, true, none, some, List, [], ◌∷◌, replicate, inl, arith, suc, ◌≤◌, ◌+◌,
}
use nev_os.Bridge.Proto.{
  peek_id, peek_body, decode, get_body, get_fields, get_field, step_over, encode, put_fields,
  put_field,
}
use nev_os.Bridge.Cbor.Reader.{
  arg_size, head_arg, r_array, r_bool, r_init, r_text, r_u32, read_arg, read_be, read_head,
  read_string, read_want, r_skip, skip_bytes, skip_element, skip_elements,
}
use nev_os.Bridge.Cbor.Writer.{put, put_be, put_head, put_n, w_i64, w_init, w_text}
use nev_os.Bridge.Proto.Frame.{frame_split, frame_wrap}
use nev_os.Bridge.Ws.Poll.{Event, nothing, opened, message}
use nev_os.Bridge.Session.{
  State, offline, connecting, Key, device_id_key, pair_token_key, Outside, connected, disconnected,
  Bridge, encode_send, send_payload,
}
use nev_os.Bridge.Session.Bus.{IsStore, IsSession}
use nev_os.Bridge.Session.Daemon.{on_message, on_hello_ack}
use nev_os.Bridge.Session.Lifecycle.{
  init, poll, drain_audio, forward_all, look_in, talk, rounds, alive,
}
use nev_os.Bridge.Session.Trace.{polls, forgets, asks, step, run, run-IsSession}
use nev_os.Bridge.Session.Silence.{IsSilent, silence_holds}
use nev_os.Bridge.Session.Deadline.{IsCalm, silence_disconnects}

-- A store of two texts, and the events of the link that are to come.
record Desk : Type 0 where
  now : ℕ
  token : List ℕ
  identity : List ℕ
  inbox : List Event

abbrev first : List Event → Event
first [] = nothing
first (e ∷ es) = e

abbrev later : List Event → List Event
later [] = []
later (e ∷ es) = es

abbrev text_of : Desk → Key → List ℕ
text_of w device_id_key = w.identity
text_of w pair_token_key = w.token

abbrev write : Desk → Key → List ℕ → Desk
write w device_id_key s = record w { identity = s }
write w pair_token_key s = record w { token = s }

abbrev desk : Outside Desk
desk = record {
  now_ms = λ w. w.now;
  net_is_up = λ w. true;
  fixed_daemon = λ w. some (49 ∷ [], 4821);
  ws_open = λ w ip port. (true, w);
  ws_poll = λ w. (first w.inbox, record w { inbox = later w.inbox });
  ws_send = λ w xs. (true, w);
  ws_can_send = λ w. true;
  ws_close = λ w. w;
  mdns_start = λ w. (true, w);
  mdns_poll = λ w. (none, w);
  mdns_stop = λ w. w;
  store_str = text_of;
  store_set_str = λ w k s. (true, write w k s);
  store_commit = λ w. w;
  rand_below = λ w n. (7, w);
  rand_fill = λ w n. (replicate n 7, w);
  rand_u32 = λ w. (7, w);
  subscribe = λ w. (true, w);
  received = λ w. ([], w);
}

desk-IsStore : IsStore desk
desk-IsStore = record {
  set_token = λ w s small text. refl;
  set_id = λ w s. refl;
  store_commit_same = λ w. refl;
  ws_open_same = λ w ip port. refl;
  ws_poll_same = λ w. refl;
  ws_send_same = λ w xs. refl;
  ws_close_same = λ w. refl;
  mdns_start_same = λ w. refl;
  mdns_poll_same = λ w. refl;
  mdns_stop_same = λ w. refl;
  rand_below_same = λ w n. refl;
  rand_fill_same = λ w n. refl;
  rand_u32_same = λ w. refl;
  subscribe_same = λ w. refl;
  received_same = λ w. refl;
}

-- An accepted hello_ack in its frame: [2, true, false, "a", 0].
abbrev accepted : List ℕ
accepted = 0 ∷ 0 ∷ 0 ∷ 7 ∷ 0x85 ∷ 2 ∷ 0xF5 ∷ 0xF4 ∷ 0x61 ∷ 97 ∷ 0 ∷ []

abbrev start : Desk
start = record {
  now = 70000;
  token = 116 ∷ [];
  identity = 100 ∷ [];
  inbox = opened ∷ message accepted ∷ [];
}

run-IsSession_example :
    IsSession desk desk-IsStore
      (run desk (49 ∷ []) (init desk start) (polls ∷ asks 1 (104 ∷ []) [] ∷ forgets ∷ polls ∷ []))
run-IsSession_example =
    run-IsSession desk desk-IsStore (49 ∷ []) start
      (polls ∷ asks 1 (104 ∷ []) [] ∷ forgets ∷ polls ∷ []) refl

-- The time of the clock, and nothing to come.
abbrev Quiet : Desk → Type 0
Quiet w = (w.inbox ≡ []) × (w.now ≡ 70000)

desk-IsSilent : IsSilent desk Quiet
desk-IsSilent = record {
  net_up = λ w h. refl;
  no_audio = λ w h. refl;
  no_audio_at = λ w h. h;
  no_event = λ w h. ground (arith, h);
  no_event_at = λ w h. ground (arith, h);
}

abbrev linked : State → Bridge Desk
linked s = record {
  state = s;
  started = true;
  daemon_ip = [];
  daemon_port = 0;
  daemon_name = [];
  device_id = [];
  token = [];
  code = [];
  backoff_ms = 1000;
  retry_at_ms = 0;
  last_rx_ms = 5;
  last_ping_ms = 0;
  subscribed = true;
  audio_kind = 0;
  log = connected ∷ [];
  world = record start { inbox = [] };
}

-- The same with a clock that goes on by 40 seconds with each poll, and nothing to come.
abbrev ticking : Outside Desk
ticking = record desk {
  ws_poll = λ w. (first w.inbox, record w { inbox = later w.inbox; now = w.now + 40000 });
}

abbrev Empties : Desk → Type 0
Empties w = w.inbox ≡ []

ticking-IsSilent : IsSilent ticking Empties
ticking-IsSilent = record {
  net_up = λ w h. refl;
  no_audio = λ w h. refl;
  no_audio_at = λ w h. h;
  no_event = λ w h. ground (arith, h);
  no_event_at = λ w h. ground (arith, h);
}

ticking-IsCalm : IsCalm ticking Empties
ticking-IsCalm = record { rand_at = λ w h. h; send_at = λ w xs h. h }

-- The hello_ack comes five milliseconds after the start.
abbrev shaken : Bridge Desk
shaken = record (linked connecting) {
  world = record start { inbox = []; now = 5 };
  last_ping_ms = 5;
}

abbrev greeted : Bridge Desk
greeted = on_message ticking shaken accepted

silence_disconnects_example :
    (k : ℕ) × (k ≤ 1)
    × ((run ticking (49 ∷ []) greeted (replicate (suc k) polls)).state ≡ offline)
    × ((run ticking (49 ∷ []) greeted (replicate (suc k) polls)).log
        ≡ disconnected ∷ (run ticking (49 ∷ []) greeted (replicate k polls)).log)
unfolding on_message on_hello_ack run step poll drain_audio forward_all look_in talk rounds alive
    encode_send send_payload frame_split frame_wrap peek_id peek_body decode get_body get_fields
    get_field step_over encode put_fields put_field arg_size head_arg r_array r_bool r_init r_text
    r_u32 read_arg read_be read_head read_string read_want r_skip skip_bytes skip_element
    skip_elements put put_be put_head put_n w_i64 w_init w_text
silence_disconnects_example =
    silence_disconnects ticking Empties ticking-IsSilent ticking-IsCalm (49 ∷ []) shaken accepted 1
      refl refl refl (omega arith)

silence_holds_example :
    (run desk (49 ∷ []) (linked connecting) (replicate 3 polls)).state ≡ connecting
silence_holds_example =
    silence_holds desk Quiet desk-IsSilent (49 ∷ []) 3 (linked connecting) (refl, refl) refl
      (inl refl)
