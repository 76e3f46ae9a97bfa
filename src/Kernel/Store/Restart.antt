-- ===== src/Kernel/Store/Restart.antt =====
-- A history of calls from a start, and a restart after it.
use nev_os.Base.{
  some, ℕ, ◌≡◌, refl, sym, ap, ◌∙◌, Bool, false, not, none, List, [], ◌∷◌, arith, subst, if_elim,
  if_else, All,
}
use nev_os.Kernel.Store.Table.{Desc}
use nev_os.Kernel.Store.{
  Err, ok, is_ok, Backend, Decimal, defaults, Store, Changed, init, commit, set_num, set_str, tick,
  flush_after, factory_reset, wiped, deinit,
}
use nev_os.Kernel.Store.Laws.{IsBackend, IsDecimal, IsDesc, Durable, Lines, Each}
use nev_os.Kernel.Store.Commit.{values, Ranged, Clean, Agrees, is_ok-ok}
use nev_os.Kernel.Store.Loads.{
  load_from-Ranged, load_from-Agrees, load_from-Clean, load_from-empty, values-reload,
}
use nev_os.Kernel.Store.Keep.{Kept, set_num-Kept, set_str-Kept, commit-Kept, tick-Kept}

pub data Call : Type 0 where
  sets_num : Bool → ℕ → ℕ → Call
  sets_str : Bool → ℕ → List ℕ → Call
  ticks : ℕ → Call
  commits : Call
  resets : Bool → Call

nothing_there : {text : List ℕ} → none ≡ some text → ⊥
nothing_there e = ground (arith, e)

module _ {Disk : Type 0} (b : Backend Disk) (c : Decimal) (ds : List Desc) where
  abbrev pub step : Store Disk → Call → Store Disk
  step s (sets_num bus key v) = (set_num b c ds bus s key v).2
  step s (sets_str bus key text) = (set_str b c ds bus s key text).2
  step s (ticks now) = tick b c ds s now
  step s commits = (commit b c ds s).1
  step s (resets bus) = (factory_reset b c ds bus s).2

  abbrev pub run : Store Disk → List Call → Store Disk
  run s [] = s
  run s (call ∷ calls) = run (step s call) calls

  -- The disk could be erased.
  abbrev pub Erases : Store Disk → Call → Type 0
  Erases s (sets_num bus key v) = Unit {0}
  Erases s (sets_str bus key text) = Unit {0}
  Erases s (ticks now) = Unit {0}
  Erases s commits = Unit {0}
  Erases s (resets bus) = (factory_reset b c ds bus s).0 ≡ ok

  abbrev pub AllErase : Store Disk → List Call → Type 0
  AllErase s [] = Unit {0}
  AllErase s (call ∷ calls) = Erases s call × AllErase (step s call) calls

  module _ (law : IsBackend b) (z : IsDecimal c) (table : All IsDesc ds) where
    init-Kept :
        (s : Store Disk) → s.ready ≡ false → (b.start s.disk).1 ≡ ok → Kept b c ds (init b c ds s)
    unfolding init
    init-Kept s off started =
        let disk = (b.start s.disk).0 in
        let opened : not (is_ok (b.start s.disk).1) ≡ false = ap (λ e. not (is_ok e)) started in
        subst (Kept b c ds)
          (sym (if_else s.ready _ _ off ∙ if_else (not (is_ok (b.start s.disk).1)) _ _ opened))
          (record {
            ready = refl;
            range = load_from-Ranged b c ds disk 0 ds s.slots table;
            agrees = load_from-Agrees b c ds disk 0 ds s.slots;
            settled = λ e.
                (load_from-Clean b c ds disk 0 ds s.slots, λ lines. law.started s.disk started);
          })

    erased :
        (disk : Disk)
        → (flush_after b c ds (b.erase_all disk)).1 ≡ ok
        → ((k : ℕ) → b.load (flush_after b c ds (b.erase_all disk)).0 k ≡ none)
          × Durable b (flush_after b c ds (b.erase_all disk)).0
    erased disk =
        let e = b.erase_all disk in
        let P : Disk × Err → Type 0 =
          λ r. r.1 ≡ ok → ((k : ℕ) → b.load r.0 k ≡ none) × Durable b r.0 in
        if_elim P (is_ok e.1) _ _
          (λ did flushed. (
            λ k. law.load-flush e.0 k ∙ law.load-erase_all disk k (is_ok-ok b c ds e.1 did),
            law.flushed e.0 flushed λ k text there. absurd (
                nothing_there (
                  sym (law.load-flush e.0 k ∙ law.load-erase_all disk k (is_ok-ok b c ds e.1 did))
                  ∙ there)),
          ))
          (λ failed worked. absurd (ground (arith, failed, ap is_ok worked)))

    factory_reset-Kept :
        (bus : Bool) (s : Store Disk)
        → Kept b c ds s
        → (factory_reset b c ds bus s).0 ≡ ok
        → Kept b c ds (factory_reset b c ds bus s).2
    unfolding factory_reset
    factory_reset-Kept bus s h =
        let P : Err × List Changed × Store Disk → Type 0 = λ r. r.0 ≡ ok → Kept b c ds r.2 in
        let fresh = defaults b c ds ds s.slots in
        let r = flush_after b c ds (b.erase_all s.disk) in
        if_elim P (not s.ready) _ _ (λ e worked. h)
          (λ e worked.
            let gone = erased s.disk worked in
            let empty = load_from-empty b c ds r.0 0 ds s.slots gone.0 in
            record {
              ready = h.ready;
              range =
                  subst (Each Ranged 0 ds) empty (load_from-Ranged b c ds r.0 0 ds s.slots table);
              agrees =
                  subst (Each (Agrees b c ds r.0) 0 ds) empty
                    (load_from-Agrees b c ds r.0 0 ds s.slots);
              settled = λ f. (
                subst (Each Clean 0 ds) empty (load_from-Clean b c ds r.0 0 ds s.slots),
                λ lines. gone.1,
              );
            })

    step-Kept :
        (s : Store Disk) (call : Call) → Kept b c ds s → Erases s call → Kept b c ds (step s call)
    step-Kept s (sets_num bus key v) h e = set_num-Kept b c ds law z table bus s key v h
    step-Kept s (sets_str bus key text) h e = set_str-Kept b c ds law z table bus s key text h
    step-Kept s (ticks now) h e = tick-Kept b c ds law z table s now h
    step-Kept s commits h e = (commit-Kept b c ds law z table s h).0
    step-Kept s (resets bus) h e = factory_reset-Kept bus s h e

    run-Kept :
        (s : Store Disk) (calls : List Call)
        → Kept b c ds s
        → AllErase s calls
        → Kept b c ds (run s calls)
    run-Kept s [] h e = h
    run-Kept s (call ∷ calls) h e = run-Kept (step s call) calls (step-Kept s call h e.0) e.1

    -- The device is shut down and started again.
    restart-values :
        (s : Store Disk)
        → Kept b c ds s
        → (commit b c ds s).0 ≡ ok
        → Lines b (commit b c ds s).1.disk
        → values ds (init b c ds (deinit b c ds s)).slots ≡ values ds s.slots
    unfolding init deinit
    restart-values s h worked lines =
        let s' = (commit b c ds s).1 in
        let k = commit-Kept b c ds law z table s h in
        let (clean, lasts) = (k.0).settled (k.2 worked) in
        let (opens, same) = lasts lines in
        let off : Store Disk = record s' {
          slots = wiped b c ds s'.slots;
          ready = false;
          dirty = false;
          disk = b.close s'.disk;
        } in
        let disk = (b.start (b.close s'.disk)).0 in
        let opened : not (is_ok (b.start (b.close s'.disk)).1) ≡ false =
          ap (λ e. not (is_ok e)) opens in
        ap (λ x. values ds (init b c ds x).slots) (if_else (not s.ready) s off (ap not h.ready))
        ∙ ap (λ (x : Store Disk). values ds x.slots)
            (if_else (not (is_ok (b.start (b.close s'.disk)).1)) _ _ opened)
        ∙ values-reload b c ds s'.disk disk 0 ds s'.slots same (k.0).agrees clean
        ∙ k.1

    -- After any history of calls from a start, once a commit succeeds a shutdown and a restart
    -- bring back what every setting held. Condition: the laws of the backend and of the number
    -- printing hold, the ranges of the table are not empty and below 2 ^ 32, the backend opens at
    -- the start, the resets among the calls succeed, and no value that the commit leaves on the disk
    -- has a line feed or a carriage return in it.
    pub settings_survive :
        (s : Store Disk) (calls : List Call)
        → s.ready ≡ false
        → (b.start s.disk).1 ≡ ok
        → AllErase (init b c ds s) calls
        → (commit b c ds (run (init b c ds s) calls)).0 ≡ ok
        → Lines b (commit b c ds (run (init b c ds s) calls)).1.disk
        → values ds (init b c ds (deinit b c ds (run (init b c ds s) calls))).slots
          ≡ values ds (run (init b c ds s) calls).slots
    settings_survive s calls off started erase worked lines =
        restart-values (run (init b c ds s) calls)
          (run-Kept (init b c ds s) calls (init-Kept s off started) erase) worked lines
