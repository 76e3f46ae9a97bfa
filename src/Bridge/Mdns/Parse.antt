-- ===== src/Bridge/Mdns/Parse.antt =====
-- nev_mdns_parse of components/nev_bridge/src/nev_mdns.c. A name is kept as the C string that it is read as.
use nev_os.Base.{
  ℕ, zero, suc, ◌+◌, ◌*◌, ◌^◌, Bool, true, false, not, ◌&&◌, ◌||◌, Option, none, some, List, [],
  ◌∷◌, ltb, ◌==◌, if◌then◌else◌, length, get_or, take, c_string,
}
use nev_os.Bridge.Mdns.{read_name, name_eq, service, is_our_instance, first_label}

-- nev_mdns_result_t
pub record Found : Type 0 where
  pub ipv4 : ℕ
  pub port : ℕ
  pub name : List ℕ

-- What the records said so far; an empty text and 0 stand for nothing.
pub record Seen : Type 0 where
  pub instance_name : List ℕ
  pub target : List ℕ
  pub port : ℕ
  pub ipv4 : ℕ
  pub a_name : List ℕ

abbrev pub seen_zero : Seen
seen_zero = record { instance_name = []; target = []; port = 0; ipv4 = 0; a_name = [] }

abbrev pub be16 : List ℕ → ℕ → ℕ
be16 pkt i = get_or pkt i 0 * 2 ^ 8 + get_or pkt (i + 1) 0

abbrev pub is_empty : List ℕ → Bool
is_empty [] = true
is_empty (x ∷ xs) = false

unfoldable pub skip_question : List ℕ → ℕ → Option ℕ
skip_question pkt from = elim (read_name pkt from 256) [
  | none ↦ none
  | some (after, name) ↦ if ltb (length pkt) (after + 4) then none else some (after + 4)
]

unfoldable pub skip_questions : ℕ → List ℕ → ℕ → Option ℕ
skip_questions zero pkt from = some from
skip_questions (suc n) pkt from = elim (skip_question pkt from) [
  | none ↦ none
  | some after ↦ skip_questions n pkt after
]

unfoldable pub on_ptr : List ℕ → List ℕ → ℕ → Seen → Option Seen
on_ptr pkt name rdata seen =
    if name_eq name service && is_empty seen.instance_name
    then elim (read_name pkt rdata 128) [
      | none ↦ none
      | some (past, text) ↦ some (record seen { instance_name = c_string text })
    ]
    else some seen

unfoldable pub on_srv : List ℕ → List ℕ → ℕ → ℕ → Seen → Option Seen
on_srv pkt name rdata rdlen seen =
    if ltb rdlen 7
    then none
    else if not (is_our_instance name)
    then some seen
    else if not (is_empty seen.instance_name) && not (name_eq name seen.instance_name)
    then some seen
    else elim (read_name pkt (rdata + 6) 128) [
      | none ↦ none
      | some (past, text) ↦ some (record seen {
        port = be16 pkt (rdata + 4);
        target = c_string text;
        instance_name = if is_empty seen.instance_name then name else seen.instance_name;
      })
    ]

unfoldable pub on_a : List ℕ → List ℕ → ℕ → ℕ → Seen → Option Seen
on_a pkt name rdata rdlen seen =
    if rdlen == 4 && seen.ipv4 == 0
    then some (record seen { ipv4 = be16 pkt rdata * 2 ^ 16 + be16 pkt (rdata + 2); a_name = name })
    else some seen

unfoldable pub on_record : List ℕ → List ℕ → ℕ → ℕ → ℕ → Seen → Option Seen
on_record pkt name type rdata rdlen seen =
    if type == 12
    then on_ptr pkt name rdata seen
    else if type == 33
    then on_srv pkt name rdata rdlen seen
    else if type == 1
    then on_a pkt name rdata rdlen seen
    else some seen

-- One record: the offset after it, and what is known then.
unfoldable pub one_record : List ℕ → ℕ → Seen → Option (ℕ × Seen)
one_record pkt from seen = elim (read_name pkt from 128) [
  | none ↦ none
  | some (after, text) ↦
      let rdlen = be16 pkt (after + 8) in
      let rdata = after + 10 in
      if ltb (length pkt) (after + 10)
      then none
      else if ltb (length pkt) (rdata + rdlen)
      then none
      else elim (on_record pkt (c_string text) (be16 pkt after) rdata rdlen seen) [
        | none ↦ none
        | some seen' ↦ some (rdata + rdlen, seen')
      ]
]

unfoldable pub records : ℕ → List ℕ → ℕ → Seen → Option Seen
records zero pkt from seen = some seen
records (suc n) pkt from seen = elim (one_record pkt from seen) [
  | none ↦ none
  | some (after, seen') ↦ records n pkt after seen'
]

unfoldable pub conclude : Seen → Option Found
conclude seen =
    if (seen.port == 0) || (seen.ipv4 == 0)
    then none
    else if (not (is_empty seen.target) && not (is_empty seen.a_name))
        && not (name_eq seen.target seen.a_name)
    then none
    else some (record {
      ipv4 = seen.ipv4;
      port = seen.port;
      name = take 47 (first_label seen.instance_name);
    })

unfoldable pub parse : List ℕ → Option Found
parse pkt = if ltb (length pkt) 12 then none else elim (skip_questions (be16 pkt 4) pkt 12) [
  | none ↦ none
  | some from ↦ elim (records (be16 pkt 6 + be16 pkt 8 + be16 pkt 10) pkt from seen_zero) [
    | none ↦ none
    | some seen ↦ conclude seen
  ]
]
