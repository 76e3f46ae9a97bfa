-- ===== src/Bridge/Mdns.antt =====
-- components/nev_bridge/src/nev_mdns.c: names in a DNS packet, the query, and what a reply says. A
-- buffer that holds a C string is the list of its bytes.
pub mod Names
pub mod Parse
pub mod Answers
pub mod Replies
pub mod Search
mod Tests
use Prim.Native.Nat.{bit_and}
use nev_os.Base.{
  ℕ, zero, suc, ◌+◌, ◌*◌, ◌^◌, ◌-◌, Bool, true, false, not, ◌&&◌, ◌||◌, Option, none, some, List,
  [], ◌∷◌, ◌++◌, ltb, leb, ◌==◌, if◌then◌else◌, length, get_or, take, drop, replicate, c_string,
}

-- One round of the loop of read_name: the name is malformed, ends, or goes on at `here`, with the end of
-- the name as encoded (0 before a pointer was met), the pointers followed, and the text so far. A round
-- `strays` that reads outside the packet or writes outside the buffer.
pub data Turn : Type 0 where
  bad strays : Turn
  stop : ℕ → Turn
  goes : ℕ → ℕ → ℕ → List ℕ → Turn

-- The `n` bytes at `at` lie in `room` bytes.
abbrev pub within : ℕ → ℕ → ℕ → Bool
within at n room = leb (at + n) room

abbrev pub follow : List ℕ → ℕ → ℕ → ℕ → List ℕ → Turn
follow pkt here end jumps text =
    let target = bit_and (get_or pkt here 0) 0x3F * 2 ^ 8 + get_or pkt (here + 1) 0 in
    if leb (length pkt) (here + 1)
    then bad
    else if ltb 8 (jumps + 1)
    then bad
    else if not (within (here + 1) 1 (length pkt))
    then strays
    else if leb here target
    then bad
    else goes target (if end == 0 then here + 2 else end) (jumps + 1) text

abbrev pub dotted : List ℕ → List ℕ
dotted [] = []
dotted (c ∷ cs) = c ∷ cs ++ 46 ∷ []

abbrev pub append_label : List ℕ → ℕ → ℕ → ℕ → ℕ → List ℕ → Turn
append_label pkt size here end jumps text =
    let label = get_or pkt here 0 in
    if ltb (length pkt) (here + 1 + label)
    then bad
    else if not (length text == 0) && leb size (length text + 1)
    then bad
    else if not (length text == 0) && not (within (length text) 1 size)
    then strays
    else if leb size (length (dotted text) + label)
    then bad
    else if not (within (here + 1) label (length pkt))
        || not (within (length (dotted text)) label size)
    then strays
    else goes (here + 1 + label) end jumps (dotted text ++ take label (drop (here + 1) pkt))

unfoldable pub turn : List ℕ → ℕ → ℕ → ℕ → ℕ → List ℕ → Turn
turn pkt size here end jumps text =
    let label = get_or pkt here 0 in
    if leb (length pkt) here
    then bad
    else if not (within here 1 (length pkt))
    then strays
    else if bit_and label 0xC0 == 0xC0
    then follow pkt here end jumps text
    else if label == 0
    then stop (if end == 0 then here + 1 else end)
    else if not (bit_and label 0xC0 == 0)
    then bad
    else append_label pkt size here end jumps text

-- What the loop comes to. It is `outside` where it strayed or its terminator does not fit, and `endless`
-- where the fuel ran out.
pub data Name : Type 0 where
  unnamed outside endless : Name
  named : ℕ → List ℕ → Name

-- Each round adds a byte to the text or follows one of eight pointers, so that `size + 9` are enough.
unfoldable pub name_rounds : ℕ → List ℕ → ℕ → ℕ → ℕ → ℕ → List ℕ → Name
name_rounds zero pkt size here end jumps text = endless
name_rounds (suc fuel) pkt size here end jumps text = elim (turn pkt size here end jumps text) [
  | bad ↦ unnamed
  | strays ↦ outside
  | stop past ↦ if within (length text) 1 size then named past text else outside
  | goes here' end' jumps' text' ↦ name_rounds fuel pkt size here' end' jumps' text'
]

abbrev pub known : Name → Option (ℕ × List ℕ)
known (named past name) = some (past, name)
known unnamed = none
known outside = none
known endless = none

-- The offset past the name, and the name; `none` is the answer 0. The loop is never `outside` and never
-- `endless` (Names.read_name_safe).
unfoldable pub read_name : List ℕ → ℕ → ℕ → Option (ℕ × List ℕ)
read_name pkt from size =
    if size == 0 then none else known (name_rounds (size + 9) pkt size from 0 0 [])

abbrev pub lower : ℕ → ℕ
lower c = if leb 65 c && leb c 90 then c + 32 else c

-- Of C strings.
abbrev pub name_eq : List ℕ → List ℕ → Bool
name_eq [] [] = true
name_eq [] (b ∷ bs) = false
name_eq (a ∷ as') [] = false
name_eq (a ∷ as') (b ∷ bs) = lower a == lower b && name_eq as' bs

-- "_nevos._tcp.local"
abbrev pub service : List ℕ
service =
    95 ∷ 110 ∷ 101 ∷ 118 ∷ 111 ∷ 115 ∷ 46 ∷ 95 ∷ 116 ∷ 99 ∷ 112 ∷ 46 ∷ 108 ∷ 111 ∷ 99 ∷ 97 ∷ 108
    ∷ []

abbrev pub is_our_instance : List ℕ → Bool
is_our_instance name =
    let suffix = length service + 1 in
    let tail = drop (length name - suffix) name in
    not (leb (length name) suffix) && (get_or tail 0 0 == 46 && name_eq (drop 1 tail) service)

-- Up to the first dot.
abbrev pub first_label : List ℕ → List ℕ
first_label [] = []
first_label (c ∷ cs) = if c == 46 then [] else c ∷ first_label cs

-- The label, and the dot after it where there is one, are taken off.
abbrev pub after_label : List ℕ → List ℕ
after_label [] = []
after_label (c ∷ cs) = if c == 46 then cs else after_label cs

-- `room` bytes are left; each round takes a character of the name at least.
unfoldable pub write_labels : ℕ → ℕ → List ℕ → Option (List ℕ)
write_labels zero room name = if ltb room 1 then none else some (0 ∷ [])
write_labels (suc fuel) room [] = if ltb room 1 then none else some (0 ∷ [])
write_labels (suc fuel) room (c ∷ cs) =
    let label = first_label (c ∷ cs) in
    let rest = write_labels fuel (room - (1 + length label)) (after_label (c ∷ cs)) in
    if (length label == 0) || ltb 63 (length label)
    then none
    else if ltb room (1 + length label + 1)
    then none
    else elim rest [ none ↦ none | some bytes ↦ some (length label ∷ label ++ bytes) ]

unfoldable pub write_name : ℕ → List ℕ → Option (List ℕ)
write_name room name = write_labels (length name) room name

unfoldable pub build_query : ℕ → Option (List ℕ)
build_query room = if ltb room 12 then none else elim (write_name (room - 12) service) [
  | none ↦ none
  | some name ↦
      if ltb room (12 + length name + 4)
      then none
      else some (replicate 5 0 ++ 1 ∷ replicate 6 0 ++ name ++ 0 ∷ 12 ∷ 0x80 ∷ 1 ∷ [])
]
