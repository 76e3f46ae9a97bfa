-- ===== src/Bridge/Session/Bus.antt =====
-- What the bus and the wire saw of a bridge, and what sending and giving up keep.
use nev_os.Base.{
  zero, suc, ap, All, c_string, inr, inl, ◌⊎◌, ℕ, ◌+◌, ◌≤◌, ◌≡◌, refl, Bool, true, false, List, [],
  ◌∷◌, length, take, arith, if_elim, replicate,
}
use nev_os.Bridge.Proto.{encode, Schema, Values}
use nev_os.Bridge.Proto.Decoded.{Result-cases}
use nev_os.Bridge.Proto.Frame.{Split, frame, timeout, no_space, frame_wrap}
use nev_os.Bridge.Session.{
  pair, says_pair, says_hello, clip, hello, encode_cap, pairing, device_id_key, pair_token_key,
  Outside, Kind, says_audio, says_request, says_marker, Effect, connected, disconnected, sent,
  Bridge, backoff_min_ms, backoff_max_ms, is_ready, six_digits, note, send_payload, encode_send,
  disconnect, send_hello, send_pair,
}

-- Whether BRIDGE.CONNECTED was published, and BRIDGE.DISCONNECTED was not since.
abbrev pub heard : List Effect → Bool
heard [] = false
heard (connected ∷ es) = true
heard (disconnected ∷ es) = false
heard (e ∷ es) = heard es

-- What an application says: audio, a request, a marker.
abbrev pub of_app : Kind → Bool
of_app says_audio = true
of_app says_request = true
of_app says_marker = true
of_app _ = false

abbrev pub Allowed : Effect → List Effect → Type 0
Allowed (sent k payload) es = of_app k ≡ true → heard es ≡ true
Allowed e es = Unit {0}

-- Nothing of an application went out but between BRIDGE.CONNECTED and BRIDGE.DISCONNECTED.
abbrev pub Proper : List Effect → Type 0
Proper [] = Unit {0}
Proper (e ∷ es) = Allowed e es × Proper es

-- A store that keeps a token that fits, a C string of at most 64 characters, and which nothing else
-- writes.
pub record IsStore {W : Type 0} (out : Outside W) : Type 0 where
  pub set_token :
      (w : W) (s : List ℕ)
      → length s ≤ 64
      → c_string s ≡ s
      → out.store_str (out.store_set_str w pair_token_key s).1 pair_token_key ≡ s
  pub set_id :
      (w : W) (s : List ℕ)
      → out.store_str (out.store_set_str w device_id_key s).1 pair_token_key
        ≡ out.store_str w pair_token_key
  pub store_commit_same :
      (w : W) → out.store_str (out.store_commit w) pair_token_key ≡ out.store_str w pair_token_key
  pub ws_open_same :
      (w : W) (ip : List ℕ) (port : ℕ)
      → out.store_str (out.ws_open w ip port).1 pair_token_key ≡ out.store_str w pair_token_key
  pub ws_poll_same :
      (w : W) → out.store_str (out.ws_poll w).1 pair_token_key ≡ out.store_str w pair_token_key
  pub ws_send_same :
      (w : W) (xs : List ℕ)
      → out.store_str (out.ws_send w xs).1 pair_token_key ≡ out.store_str w pair_token_key
  pub ws_close_same :
      (w : W) → out.store_str (out.ws_close w) pair_token_key ≡ out.store_str w pair_token_key
  pub mdns_start_same :
      (w : W) → out.store_str (out.mdns_start w).1 pair_token_key ≡ out.store_str w pair_token_key
  pub mdns_poll_same :
      (w : W) → out.store_str (out.mdns_poll w).1 pair_token_key ≡ out.store_str w pair_token_key
  pub mdns_stop_same :
      (w : W) → out.store_str (out.mdns_stop w) pair_token_key ≡ out.store_str w pair_token_key
  pub rand_below_same :
      (w : W) (n : ℕ)
      → out.store_str (out.rand_below w n).1 pair_token_key ≡ out.store_str w pair_token_key
  pub rand_fill_same :
      (w : W) (n : ℕ)
      → out.store_str (out.rand_fill w n).1 pair_token_key ≡ out.store_str w pair_token_key
  pub rand_u32_same :
      (w : W) → out.store_str (out.rand_u32 w).1 pair_token_key ≡ out.store_str w pair_token_key
  pub subscribe_same :
      (w : W) → out.store_str (out.subscribe w).1 pair_token_key ≡ out.store_str w pair_token_key
  pub received_same :
      (w : W) → out.store_str (out.received w).1 pair_token_key ≡ out.store_str w pair_token_key

abbrev pub IsDecimal : ℕ → Type 0
IsDecimal ch = (48 ≤ ch) × (ch ≤ 57)

-- Six decimal digits.
abbrev pub IsCode : List ℕ → Type 0
IsCode code = (length code ≡ 6) × All IsDecimal code

six_digits-IsCode : (n : ℕ) → IsCode (six_digits n)
six_digits-IsCode n = ground arith

pub length-clip : (k : ℕ) (s : List ℕ) → length (take k (c_string s)) ≤ k
length-clip zero s = omega arith
length-clip (suc k) [] = omega arith
length-clip (suc k) (zero ∷ s) = omega arith
length-clip (suc k) (suc x ∷ s) = omega (arith, length-clip k s)

pub clip-c_string : (k : ℕ) (s : List ℕ) → c_string (take k (c_string s)) ≡ take k (c_string s)
clip-c_string zero s = refl
clip-c_string (suc k) [] = refl
clip-c_string (suc k) (zero ∷ s) = refl
clip-c_string (suc k) (suc x ∷ s) = ap (λ l. suc x ∷ l) (clip-c_string k s)

pub Split-cases :
    {A : Type 0} (p : Split A) → ((a : A) × (p ≡ frame a)) ⊎ (p ≡ timeout) ⊎ (p ≡ no_space)
Split-cases (frame a) = inl (a, refl)
Split-cases timeout = inr (inl refl)
Split-cases no_space = inr (inr refl)

module _ {W : Type 0} (out : Outside W) (law : IsStore out) where
  abbrev pub stored : Bridge W → List ℕ
  stored b = out.store_str b.world pair_token_key

  pub record IsSession (b : Bridge W) : Type 0 where
    pub backoff_low : backoff_min_ms ≤ b.backoff_ms
    pub backoff_high : b.backoff_ms ≤ backoff_max_ms
    pub coded : b.state ≡ pairing → IsCode b.code
    pub up : is_ready b.state ≡ true → heard b.log ≡ true
    pub proper : Proper b.log
    pub kept : stored b ≡ b.token

  -- What a message of the kind `k` leaves alone, whether it went out or not.
  pub record Said (k : Kind) (b d : Bridge W) : Type 0 where
    pub same_state : d.state ≡ b.state
    pub same_code : d.code ≡ b.code
    pub same_backoff : d.backoff_ms ≡ b.backoff_ms
    pub same_token : d.token ≡ b.token
    pub same_stored : stored d ≡ stored b
    pub same_heard : heard d.log ≡ heard b.log
    pub still_proper : (of_app k ≡ true → heard b.log ≡ true) → Proper b.log → Proper d.log

  -- Nothing was said, while the world went on.
  moved :
      (k : Kind) (b : Bridge W) (w : W)
      → out.store_str w pair_token_key ≡ stored b
      → Said k b (record b { world = w })
  moved k b w e = ground (arith, e)

  said :
      (k : Kind) (b : Bridge W) (w : W) (payload : List ℕ)
      → out.store_str w pair_token_key ≡ stored b
      → Said k b (note (record b { world = w }) (sent k payload))
  said k b w payload e = ground (arith, e)

  send_payload-Said :
      (b : Bridge W) (k : Kind) (payload : List ℕ) → Said k b (send_payload out b k payload).1
  unfolding send_payload
  send_payload-Said b k payload =
      elim (Split-cases (frame_wrap payload (replicate (encode_cap + 8) 0) (encode_cap + 8))) [
        | inl (a, e) ↦
            let w = law.ws_send_same b.world (take a.1 a.0) in
            rw (send_payload, e)
              (if_elim (λ (r : Bool × Bridge W). Said k b r.1)
                (out.ws_send b.world (take a.1 a.0)).0 _ _
                (λ yes. said k b (out.ws_send b.world (take a.1 a.0)).1 payload w)
                (λ no. moved k b (out.ws_send b.world (take a.1 a.0)).1 w))
        | inr (inl e) ↦ rw (send_payload, e) (moved k b b.world refl)
        | inr (inr e) ↦ rw (send_payload, e) (moved k b b.world refl)
      ]

  pub encode_send-Said :
      (b : Bridge W) (k : Kind) (s : Schema) (vs : Values s.fields)
      → Said k b (encode_send out b k s vs).1
  unfolding encode_send
  encode_send-Said b k s vs =
      elim (Result-cases (encode s vs (replicate encode_cap 0) encode_cap)) [
        | inl (payload, e) ↦ rw (encode_send, e) (send_payload-Said b k payload)
        | inr (inl e) ↦ rw (encode_send, e) (moved k b b.world refl)
        | inr (inr e) ↦ rw (encode_send, e) (moved k b b.world refl)
      ]

  pub Said-IsSession :
      (k : Kind) (b d : Bridge W)
      → Said k b d
      → (of_app k ≡ true → is_ready b.state ≡ true)
      → IsSession b
      → IsSession d
  Said-IsSession k b d s guard h = ground (arith, h, s, guard)

  pub disconnect-IsSession : (b : Bridge W) → IsSession b → IsSession (disconnect out b)
  unfolding disconnect
  disconnect-IsSession b h =
      let w = out.ws_close b.world in
      ground (arith, h, law.ws_close_same b.world, law.mdns_stop_same w)

  pub send_hello-IsSession :
      (version : List ℕ) (b : Bridge W) → IsSession b → IsSession (send_hello out version b)
  unfolding send_hello
  send_hello-IsSession version b h =
      let vs : Values hello.fields =
        (1, (clip 33 b.device_id, (clip 25 version, (clip 65 b.token, tt)))) in
      let r = encode_send out b says_hello hello vs in
      let d : Bridge W = r.1 in
      let g : IsSession d =
        Said-IsSession says_hello b d (encode_send-Said b says_hello hello vs)
          (λ no. absurd (ground (arith, no))) h in
      if_elim IsSession r.0 d (disconnect out d) (λ yes. g) (λ no. disconnect-IsSession d g)

  pub send_pair-IsSession : (b : Bridge W) → IsSession b → IsSession (send_pair out b)
  unfolding send_pair
  send_pair-IsSession b h =
      let n = out.rand_below b.world 1000000 in
      let b1 : Bridge W = record b { code = six_digits n.0; world = n.1 } in
      let r = encode_send out b1 says_pair pair (six_digits n.0, tt) in
      let d : Bridge W = r.1 in
      let s : Said says_pair b1 d = encode_send-Said b1 says_pair pair (six_digits n.0, tt) in
      let h1 : IsSession b1 =
        ground (arith, h, law.rand_below_same b.world 1000000, six_digits-IsCode n.0) in
      let g : IsSession d =
        Said-IsSession says_pair b1 d s (λ no. absurd (ground (arith, no))) h1 in
      if_elim IsSession r.0 (record d { state = pairing }) (disconnect out d)
        (λ yes. ground (arith, g, s)) (λ no. disconnect-IsSession d g)
