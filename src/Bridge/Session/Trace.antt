-- ===== src/Bridge/Session/Trace.antt =====
-- The bridge over a whole history of polls, calls of the applications and stops.
use nev_os.Base.{Option, ℕ, ◌≡◌, Bool, List, [], ◌∷◌}
use nev_os.Bridge.Session.{clip, pair_token_key, Outside, Bridge}
use nev_os.Bridge.Session.Bus.{IsStore, IsSession}
use nev_os.Bridge.Session.Calls.{send_audio-Good, ask-Good, mark-Good, forget-Good, stop-Good}
use nev_os.Bridge.Session.Upkeep.{poll-Good, init-Good}
use nev_os.Bridge.Session.Lifecycle.{init, stop, send_audio, ask, mark, forget, poll}

pub data Call : Type 0 where
  polls stops forgets : Call
  asks : ℕ → List ℕ → List ℕ → Call
  marks : ℕ → ℕ → Call
  sends : ℕ → ℕ → Bool → Option (List ℕ) → ℕ → Call

module _ {W : Type 0} (out : Outside W) where
  unfoldable pub step : List ℕ → Bridge W → Call → Bridge W
  step version b polls = poll out version b
  step version b stops = stop out b
  step version b forgets = forget out b
  step version b (asks turn words app) = (ask out b turn words app).1
  step version b (marks session at_seconds) = (mark out b session at_seconds).1
  step version b (sends session seq final pcm samples) =
      (send_audio out b session seq final pcm samples).1

  unfoldable pub run : List ℕ → Bridge W → List Call → Bridge W
  run version b [] = b
  run version b (call ∷ calls) = run version (step version b call) calls

module _ {W : Type 0} (out : Outside W) (law : IsStore out) where
  abbrev Good : Bridge W → Type 0
  Good = IsSession out law

  step-Good :
      (version : List ℕ) (b : Bridge W) (call : Call) → Good b → Good (step out version b call)
  unfolding step
  step-Good version b polls h = poll-Good out law version b h
  step-Good version b stops h = stop-Good out law b h
  step-Good version b forgets h = forget-Good out law b h
  step-Good version b (asks turn words app) h = ask-Good out law b turn words app h
  step-Good version b (marks session at_seconds) h = mark-Good out law b session at_seconds h
  step-Good version b (sends session seq final pcm samples) h =
      send_audio-Good out law b session seq final pcm samples h

  run-Good :
      (version : List ℕ) (calls : List Call) (b : Bridge W)
      → Good b
      → Good (run out version b calls)
  unfolding run
  run-Good version [] b h = h
  run-Good version (call ∷ calls) b h =
      run-Good version calls (step out version b call) (step-Good version b call h)

  -- Over every history of polls, calls and stops after the start, whatever the network, the daemon and
  -- the applications do: the delay before a retry stays between one second and thirty, a bridge that
  -- pairs has a code of six decimal digits to show, BRIDGE.CONNECTED was published before the bridge is ready and
  -- before anything of an application goes out, with no BRIDGE.DISCONNECTED since, and the token in use is
  -- the stored one. Condition: the store keeps a token of at most 64 characters until it is set again,
  -- and the token that it holds at the start is such a one.
  pub run-IsSession :
      (version : List ℕ) (w : W) (calls : List Call)
      → clip 65 (out.store_str w pair_token_key) ≡ out.store_str w pair_token_key
      → IsSession out law (run out version (init out w) calls)
  run-IsSession version w calls e = run-Good version calls (init out w) (init-Good out law w e)
