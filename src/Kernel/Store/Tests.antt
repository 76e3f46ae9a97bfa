-- ===== src/Kernel/Store/Tests.antt =====
-- The table of the source, a backend that is a file of lines, and a history that sets a brightness
-- which is too large, a name and nothing else.
use nev_os.Base.{
  ap, ℕ, ◌≡◌, refl, arith, Bool, true, false, Option, none, some, List, [], ◌∷◌, All, replicate,
  ◌==◌, if◌then◌else◌, if_then, if_else, ==_refl, leb, ltb, ◌&&◌, ◌||◌, ap, ◌∙◌, u32_mod,
}
use nev_os.Kernel.Store.Table.{Desc, settings}
use nev_os.Kernel.Store.{
  ok, Backend, Decimal, slot_zero, Store, init, commit, commit_from, deinit, set_num, set_str, tick,
  factory_reset,
}
use nev_os.Kernel.Store.Laws.{IsBackend, IsLine, Lines, IsDecimal, IsDesc, FitsTable, Each}
use nev_os.Kernel.Store.Commit.{values}
use nev_os.Kernel.Store.Restart.{Call, sets_num, sets_str, ticks, resets, run, settings_survive}
use nev_os.Kernel.Store.Range.{settings_bounded}

abbrev Memory : Type 0
Memory = ℕ → Option (List ℕ)

-- What a line of the file gives back.
abbrev first_line : List ℕ → List ℕ
first_line [] = []
first_line (ch ∷ text) = if (ch == 10) || (ch == 13) then [] else ch ∷ first_line text

abbrev read_back : Option (List ℕ) → Option (List ℕ)
read_back none = none
read_back (some text) = some (first_line text)

-- The entries in memory, and those of the file.
record File : Type 0 where
  entries : Memory
  written : Memory

-- A file of lines, as nev_store_file.c keeps one: a text with a line feed is cut when it is read again.
abbrev memory : Backend File
memory = record {
  start = λ f. (record f { entries = λ k. read_back (f.written k) }, ok);
  close = λ f. record f { entries = λ k. none };
  load = λ f k. f.entries k;
  save = λ f k text. (record f { entries = λ j. if j == k then some text else f.entries j }, ok);
  flush = λ f. (record f { written = f.entries }, ok);
  erase_all = λ f. (record { entries = λ k. none; written = λ k. none }, ok);
}

first_line-line : (text : List ℕ) → IsLine text → first_line text ≡ text
first_line-line [] h = refl
first_line-line (ch ∷ text) h =
    if_else ((ch == 10) || (ch == 13)) _ _ (ground (arith, h.0))
    ∙ ap (λ l. ch ∷ l) (first_line-line text h.1)

read_back-line :
    (o : Option (List ℕ)) → ((text : List ℕ) → o ≡ some text → IsLine text) → read_back o ≡ o
read_back-line none h = refl
read_back-line (some text) h = ap some (first_line-line text (h text refl))

memory-IsBackend : IsBackend memory
memory-IsBackend = record {
  load-save = λ f k text e short. if_then (k == k) _ _ (==_refl k);
  load-save_other = λ f k j text ne. if_else (j == k) _ _ (ground (arith, ne));
  load-flush = λ f k. refl;
  load-erase_all = λ f k e. refl;
  flushed = λ f e lines. (refl, λ k. read_back-line (f.entries k) (lines k));
  started = λ f e. (refl, λ k. refl);
}

-- A text with a line feed does not last: "a\nb" comes back as "a".
newline_lost :
    memory.load
      (memory.start (
        memory.close
          (memory.flush
            (memory.save
              (record { entries = λ k. none; written = λ k. none })
              6
              (97 ∷ 10 ∷ 98 ∷ [])).0).0)).0
      6
    ≡ some (97 ∷ [])
newline_lost = refl

-- One symbol for each number.
abbrev symbols : Decimal
symbols = record { print = λ n. n ∷ []; parse = λ text. elim text [ [] ↦ 0 | x ∷ xs ↦ x ] }

symbols-IsDecimal : IsDecimal symbols
symbols-IsDecimal = record { parse-print = λ n h. refl; few = λ n h. omega arith }

abbrev sane : List Desc → Bool
sane [] = true
sane (d ∷ ds) = leb d.lo d.hi && (ltb d.hi u32_mod && sane ds)

sane-IsDesc : (ds : List Desc) → sane ds ≡ true → All IsDesc ds
sane-IsDesc [] e = tt
sane-IsDesc (d ∷ ds) e = (
  record { ordered = ground (arith, e); word = ground (arith, e) },
  sane-IsDesc ds (ground (arith, e)),
)

settings-IsDesc : All IsDesc settings
settings-IsDesc = sane-IsDesc settings refl

abbrev off : Store File
off = record {
  slots = replicate 20 slot_zero;
  ready = false;
  dirty = false;
  dirty_since_ms = 0;
  disk = record { entries = λ k. none; written = λ k. none };
}

abbrev history : List Call
history =
    resets true ∷ sets_num true 0 200 ∷ sets_str false 6 (82 ∷ 50 ∷ []) ∷ ticks 1 ∷ ticks 300 ∷ []

abbrev settled : Store File
settled = run memory symbols settings (init memory symbols settings off) history

committed : (commit memory symbols settings settled).0 ≡ ok
unfolding commit commit_from init set_num set_str tick factory_reset
committed = refl

erases : (factory_reset memory symbols settings true (init memory symbols settings off)).0 ≡ ok
unfolding init factory_reset
erases = refl

settled_lines : Lines memory (commit memory symbols settings settled).1.disk
unfolding commit commit_from init set_num set_str tick factory_reset
settled_lines k text e = ground (arith, e)

settings_survive_example :
    values settings (init memory symbols settings (deinit memory symbols settings settled)).slots
    ≡ values settings settled.slots
settings_survive_example =
    settings_survive memory symbols settings memory-IsBackend symbols-IsDecimal settings-IsDesc off
      history refl refl (erases, (tt, (tt, (tt, (tt, tt))))) committed settled_lines

settings_bounded_example : Each (λ i d slot. FitsTable d slot) 0 settings settled.slots
settings_bounded_example = settings_bounded memory symbols settings settings-IsDesc off history refl
